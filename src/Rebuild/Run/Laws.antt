-- ===== src/Rebuild/Run/Laws.antt =====
-- What a rebuild in shim/src/lib.rs relies on: each call touches the directory that it works in alone. The
-- retries of `StdSwapFsOps` keep the laws of the file system.
use chroma_go_local.Base.{
  ℕ, ◌≡◌, ◌≢◌, ◌∙◌, inl, inr, Bool, Bool-cases, Option, none, List, [], ◌∷◌, Result, ok, err, subst,
}
use chroma_go_local.Base.Actions.{Action, Ends, Ends-self, Ends-both, both-Ends, Keep}
use chroma_go_local.Base.Text.{Text}
use chroma_go_local.Rebuild.Host.{RebuildHost, std_swap_fs_ops}
use chroma_go_local.Rebuild.IdMap.{HnswIdMap}
use chroma_go_local.Rebuild.Retry.{
  OsError, is_windows_retryable_fs_error, retry_after, retry_loop, run_with_windows_fs_retry,
  windows_fs_retry_delays_ms,
}
use chroma_go_local.Rebuild.Run.Precheck.{Reads}
use chroma_go_local.Rebuild.Swap.{FilePath}
use chroma_go_local.Rebuild.Swap.Contents.{FsLaws}

-- A step that leaves the reading `v` of the world alone.
abbrev pub Leaves : {S E A V : Type 0} → (S → V) → Action S E A → Type 0
Leaves v m = (t : _) → Keep (λ s. v s ≡ t) m

-- The index directories of the host, each with the tree that stands in it. An index has a directory
-- that it is written to, and so has a file that is open for writing.
pub record RebuildLaws (h : RebuildHost) : Type 1 where
  pub Tree : Type 0
  pub at : h.State → FilePath → Option Tree
  pub moves :
      (from to : FilePath) (s s' : h.State)
      → h.rename from to s ≡ (ok tt, s')
      → (at s' to ≡ at s from)
        × (at s' from ≡ none)
        × ((p : FilePath) → p ≢ from → p ≢ to → at s' p ≡ at s p)
  pub stays :
      (from to : FilePath) (s s' : h.State) (e : OsError)
      → h.rename from to s ≡ (err e, s')
      → (p : FilePath) → at s' p ≡ at s p
  pub removes :
      (dir p : FilePath) (s : h.State) → p ≢ dir → at (h.remove_dir_all dir s).1 p ≡ at s p
  pub sleeps : (d : ℕ) (p : FilePath) (s : h.State) → at (h.sleep d s) p ≡ at s p
  pub reads : (p : FilePath) (t : Option Tree) → Reads h (λ s. at s p ≡ t)
  pub reset : (p : FilePath) → Leaves (λ s. at s p) h.reset
  pub create_dir : (dir p : FilePath) → p ≢ dir → Leaves (λ s. at s p) (h.create_dir dir)
  pub target_dir : h.TargetConfig → FilePath
  pub targets :
      (c : h.HnswConfig) (dir : FilePath) (t : h.TargetConfig)
      → h.new_persistent c dir ≡ ok t
      → target_dir t ≡ dir
  pub index_dir : h.HnswIndex → FilePath
  pub inits :
      (c : h.IndexConfig) (t : h.TargetConfig) (n : ℕ) (id : Text) (i : h.HnswIndex)
      (s s' : h.State)
      → h.init c t n id s ≡ (ok i, s')
      → index_dir i ≡ target_dir t
  pub init :
      (c : h.IndexConfig) (t : h.TargetConfig) (n : ℕ) (id : Text) (p : FilePath)
      → p ≢ target_dir t
      → Leaves (λ s. at s p) (h.init c t n id)
  pub resize :
      (i : h.HnswIndex) (n : ℕ) (p : FilePath)
      → p ≢ index_dir i
      → Leaves (λ s. at s p) (h.resize i n)
  pub add :
      (i : h.HnswIndex) (label : ℕ) (x : h.Embedding) (p : FilePath)
      → p ≢ index_dir i
      → Leaves (λ s. at s p) (h.index_add i label x)
  pub save : (i : h.HnswIndex) (p : FilePath) → p ≢ index_dir i → Leaves (λ s. at s p) (h.save i)
  pub writer_dir : h.Writer → FilePath
  pub creates :
      (name : Text) (dir : FilePath) (w : h.Writer) (s s' : h.State)
      → h.create_file (name ∷ dir) s ≡ (ok w, s')
      → writer_dir w ≡ dir
  pub create_file :
      (name : Text) (dir p : FilePath) → p ≢ dir → Leaves (λ s. at s p) (h.create_file (name ∷ dir))
  pub encode :
      (w : h.Writer) (m : HnswIdMap) (p : FilePath)
      → p ≢ writer_dir w
      → Leaves (λ s. at s p) (h.encode_id_map w m)
  pub flush : (w : h.Writer) (p : FilePath) → p ≢ writer_dir w → Leaves (λ s. at s p) (h.flush w)

-- An operation whose failure changes nothing that `same` sees is retried without harm.
module _ {S : Type 0} (windows : Bool) (sleep : ℕ → S → S) (op : Action S OsError (Unit {0}))
    (good same : S → S → Type 0)
    (tries : (s : S) → Ends (λ u s'. good s s') (λ e s'. same s s') (op s))
    (then_good : (d : ℕ) (s s₁ s' : S) → same s s₁ → good (sleep d s₁) s' → good s s')
    (then_same : (d : ℕ) (s s₁ s' : S) → same s s₁ → same (sleep d s₁) s' → same s s') where
  abbrev Tried : S → Result (Unit {0}) OsError × S → Type 0
  Tried s = Ends (λ u s'. good s s') (λ e s'. same s s')

  later :
      (d : ℕ) (s s₁ : S) (r : Result (Unit {0}) OsError × S)
      → same s s₁
      → Tried (sleep d s₁) r
      → Tried s r
  later d s s₁ (ok done, s') v t = then_good d s s₁ s' v t
  later d s s₁ (err e, s') v t = then_same d s s₁ s' v t

  retry_after-Tried :
      (d : ℕ) (s : S) (again : Action S OsError (Unit {0})) (r : Result (Unit {0}) OsError × S)
      → Tried s r
      → ((s₁ : S) → Tried (sleep d s₁) (again (sleep d s₁)))
      → Tried s (retry_after windows (λ s₁. again (sleep d s₁)) r)
  unfolding retry_after
  retry_after-Tried d s again (ok done, s₁) t k = t
  retry_after-Tried d s again (err e, s₁) t k =
      elim (Bool-cases (is_windows_retryable_fs_error windows e)) [
        | inl yes_ ↦ rw (yes_, retry_after) (later d s s₁ (again (sleep d s₁)) t (k s₁))
        | inr no_ ↦ rw (no_, retry_after) t
      ]

  retry_loop-Tried : (ds : List ℕ) (s : S) → Tried s (retry_loop windows sleep op ds s)
  unfolding retry_loop
  retry_loop-Tried [] s = tries s
  retry_loop-Tried (d ∷ ds) s =
      retry_after-Tried d s (retry_loop windows sleep op ds) (op s) (tries s)
        (λ s₁. retry_loop-Tried ds (sleep d s₁))

  pub retry-Tried : (s : S) → Tried s (run_with_windows_fs_retry windows sleep op s)
  unfolding run_with_windows_fs_retry
  retry-Tried s = retry_loop-Tried windows_fs_retry_delays_ms s

module _ (h : RebuildHost) (laws : RebuildLaws h) where
  open laws use {Tree, at}

  abbrev Same : h.State → h.State → Type 0
  Same s s' = (p : FilePath) → at s' p ≡ at s p

  abbrev Moved : FilePath → FilePath → h.State → h.State → Type 0
  Moved from to s s' =
      (at s' to ≡ at s from)
      × (at s' from ≡ none)
      × ((p : FilePath) → p ≢ from → p ≢ to → at s' p ≡ at s p)

  before : (d : ℕ) (s s₁ : h.State) → Same s s₁ → (p : FilePath) → at (h.sleep d s₁) p ≡ at s p
  before d s s₁ v p = laws.sleeps d p s₁ ∙ v p

  pub rename-Tried :
      (from to : FilePath) (s : h.State)
      → Ends (λ u s'. Moved from to s s') (λ e s'. Same s s') ((std_swap_fs_ops h).rename from to s)
  rename-Tried from to s =
      retry-Tried h.windows h.sleep (h.rename from to) (Moved from to) Same
        (λ s.
          Ends-self (h.rename from to s) (λ u s'. Moved from to s s') (λ e s'. Same s s')
            (λ u s' e. laws.moves from to s s' e) (λ e s' q. laws.stays from to s s' e q))
        (λ d s s₁ s' v m. (m.0 ∙ before d s s₁ v from, m.1, λ p a b. m.2 p a b ∙ before d s s₁ v p))
        (λ d s s₁ s' v m p. m p ∙ before d s s₁ v p) s

  pub remove-Tried :
      (dir p : FilePath) (s : h.State)
      → p ≢ dir
      → at ((std_swap_fs_ops h).remove_dir_all dir s).1 p ≡ at s p
  remove-Tried dir p s d =
      Ends-both (λ s'. at s' p ≡ at s p) _
        (retry-Tried h.windows h.sleep (h.remove_dir_all dir) (λ s s'. at s' p ≡ at s p)
          (λ s s'. at s' p ≡ at s p)
          (λ s.
            both-Ends (λ s'. at s' p ≡ at s p) (h.remove_dir_all dir s) (laws.removes dir p s d))
          (λ d s s₁ s' v m. m ∙ (laws.sleeps d p s₁ ∙ v))
          (λ d s s₁ s' v m. m ∙ (laws.sleeps d p s₁ ∙ v)) s)

  abbrev pub std_fs_laws : FsLaws (std_swap_fs_ops h)
  std_fs_laws = record {
    Tree = Tree;
    at = at;
    moves = λ from to s s' e.
        subst (Ends (λ u s'. Moved from to s s') (λ e s'. Same s s')) e (rename-Tried from to s);
    stays = λ from to s s' x e.
        subst (Ends (λ u s'. Moved from to s s') (λ e s'. Same s s')) e (rename-Tried from to s);
    removes = remove-Tried;
  }
