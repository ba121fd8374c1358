-- ===== src/Rebuild/Swap/Contents.antt =====
-- What the swap does to the directories, on every path.
use chroma_go_local.Base.{
  ◌≡◌, ◌≢◌, refl, sym, ◌∙◌, ◌⊎◌, inl, inr, Bool, true, false, Option, none, some, List, ◌∷◌, Result,
  ok, err,
}
use chroma_go_local.Base.Actions.{Ends, resume, mapped, caught, when}
use chroma_go_local.Base.Text.{Text}
use chroma_go_local.Rebuild.Swap.{
  FilePath, SwapFsOps, error_of, format_swap_activation_error, settle_swap, stage_and_swap,
  moved_source, swap_rebuilt_index_dir_with_ops,
}

-- The file system seen as what stands at each path. A rename moves the tree and replaces nothing
-- else; one that fails changes nothing. A removal touches the removed path alone.
pub record FsLaws (ops : SwapFsOps) : Type 1 where
  pub Tree : Type 0
  pub at : ops.Fs → FilePath → Option Tree
  pub moves :
      (from to : FilePath) (s s' : ops.Fs)
      → ops.rename from to s ≡ (ok tt, s')
      → (at s' to ≡ at s from)
        × (at s' from ≡ none)
        × ((p : FilePath) → p ≢ from → p ≢ to → at s' p ≡ at s p)
  pub stays :
      (from to : FilePath) (s s' : ops.Fs) (e : ops.IoError)
      → ops.rename from to s ≡ (err e, s')
      → (p : FilePath) → at s' p ≡ at s p
  pub removes :
      (dir p : FilePath) (s : ops.Fs) → p ≢ dir → at (ops.remove_dir_all dir s).1 p ≡ at s p

module _ (ops : SwapFsOps) (laws : FsLaws ops) (source rebuilt moved : FilePath)
    (source_rebuilt : source ≢ rebuilt) (source_moved : source ≢ moved)
    (rebuilt_moved : rebuilt ≢ moved) where
  open laws use {at, moves, stays, removes}

  -- The old tree waits at the moved path, and the error says that the rollback failed.
  pub record IsReported (e : Text) (s s' : ops.Fs) : Type 0 where
    pub swap_err : ops.IoError
    pub rollback_err : ops.IoError
    pub told : e ≡ format_swap_activation_error ops rebuilt source swap_err (some rollback_err)
    pub waits : at s' moved ≡ at s source

  -- The old tree is back where it was, or the error tells that it is not.
  pub record IsRestored (e : Text) (s s' : ops.Fs) : Type 0 where
    pub old : (at s' source ≡ at s source) ⊎ IsReported e s s'
    pub new : at s' rebuilt ≡ at s rebuilt

  pub record IsSwapped (keep_backup : Bool) (s s' : ops.Fs) : Type 0 where
    pub activated : at s' source ≡ at s rebuilt
    pub kept : keep_backup ≡ true → at s' moved ≡ at s source

  -- The first rename was made: the old tree waits at the moved path.
  record IsStaged (s s₁ : ops.Fs) : Type 0 where
    waiting : at s₁ moved ≡ at s source
    ready : at s₁ rebuilt ≡ at s rebuilt

  roll_back :
      (x : ops.IoError) (s s₁ : ops.Fs) (r : Result (Unit {0}) ops.IoError × ops.Fs)
      → IsStaged s s₁
      → ops.rename moved source s₁ ≡ r
      → IsRestored (format_swap_activation_error ops rebuilt source x (error_of ops r.0)) s r.1
  roll_back x s s₁ (ok done, s₂) v e =
      let (back, gone, rest) = moves moved source s₁ s₂ e in
      record {
        old = inl (back ∙ v.waiting);
        new = rest rebuilt rebuilt_moved (λ q. source_rebuilt (sym q)) ∙ v.ready;
      }
  roll_back x s s₁ (err y, s₂) v e = record {
    old = inr (record {
      swap_err = x;
      rollback_err = y;
      told = refl;
      waits = stays moved source s₁ s₂ y e moved ∙ v.waiting;
    });
    new = stays moved source s₁ s₂ y e rebuilt ∙ v.ready;
  }

  IsStaged-stays :
      (s s₁ s₂ : ops.Fs) (x : ops.IoError)
      → IsStaged s s₁
      → ops.rename rebuilt source s₁ ≡ (err x, s₂)
      → IsStaged s s₂
  IsStaged-stays s s₁ s₂ x v e = record {
    waiting = stays rebuilt source s₁ s₂ x e moved ∙ v.waiting;
    ready = stays rebuilt source s₁ s₂ x e rebuilt ∙ v.ready;
  }

  abbrev Outcome : Bool → ops.Fs → Result (Text × List Text) Text × ops.Fs → Type 0
  Outcome keep_backup s = Ends (λ r s'. IsSwapped keep_backup s s') (λ e s'. IsRestored e s s')

  activated-Outcome :
      (keep_backup : Bool) (s s₂ : ops.Fs)
      → at s₂ source ≡ at s rebuilt
      → at s₂ moved ≡ at s source
      → Outcome keep_backup s (settle_swap ops source rebuilt moved keep_backup (ok tt) s₂)
  unfolding settle_swap resume caught when
  activated-Outcome true s s₂ new old = record { activated = new; kept = λ e. old }
  activated-Outcome false s s₂ new old = record {
    activated = removes moved source s₂ source_moved ∙ new;
    kept = λ e. let bad : ⊥ = cc e in absurd bad;
  }

  settle-Outcome :
      (keep_backup : Bool) (s s₁ : ops.Fs) (r : Result (Unit {0}) ops.IoError × ops.Fs)
      → IsStaged s s₁
      → ops.rename rebuilt source s₁ ≡ r
      → Outcome keep_backup s (settle_swap ops source rebuilt moved keep_backup r.0 r.1)
  unfolding settle_swap resume caught
  settle-Outcome keep_backup s s₁ (ok done, s₂) v e =
      let (new, gone, rest) = moves rebuilt source s₁ s₂ e in
      activated-Outcome keep_backup s s₂ (new ∙ v.ready)
        (rest moved (λ q. rebuilt_moved (sym q)) (λ q. source_moved (sym q)) ∙ v.waiting)
  settle-Outcome keep_backup s s₁ (err x, s₂) v e =
      roll_back x s s₂ _ (IsStaged-stays s s₁ s₂ x v e) refl

  staged-Outcome :
      (keep_backup : Bool) (s : ops.Fs) (r : Result (Unit {0}) ops.IoError × ops.Fs)
      (show : ops.IoError → Text)
      → ops.rename source moved s ≡ r
      → Outcome keep_backup s (
          resume (mapped show r) λ done s₁.
            settle_swap ops source rebuilt moved keep_backup
              (ops.rename rebuilt source s₁).0
              (ops.rename rebuilt source s₁).1)
  unfolding resume mapped
  staged-Outcome keep_backup s (ok done, s₁) show e =
      let (waits, gone, rest) = moves source moved s s₁ e in
      settle-Outcome keep_backup s s₁ _
        (record {
          waiting = waits;
          ready = rest rebuilt (λ q. source_rebuilt (sym q)) rebuilt_moved;
        })
        refl
  staged-Outcome keep_backup s (err x, s₁) show e = record {
    old = inl (stays source moved s s₁ x e source);
    new = stays source moved s s₁ x e rebuilt;
  }

  pub stage_and_swap-Outcome :
      (keep_backup : Bool) (s : ops.Fs)
      → Outcome keep_backup s (stage_and_swap ops source rebuilt moved keep_backup s)
  unfolding stage_and_swap resume caught
  stage_and_swap-Outcome keep_backup s = staged-Outcome keep_backup s _ _ refl

-- The swap is all or nothing. If it returns, the rebuilt tree stands at the source path, and with
-- `keep_backup` the old tree at the backup path. If it fails, the rebuilt tree is where it was,
-- and the old tree is at the source path again, or it waits at the path that it was moved to and
-- the error is the one that reports a failed rollback. A rename moves a tree or changes nothing,
-- a removal touches its own path alone, and the three paths are distinct.
pub swap_all_or_nothing :
    (ops : SwapFsOps) (laws : FsLaws ops) (name suffix : Text) (dir rebuilt : FilePath)
    (keep_backup : Bool) (s : ops.Fs) (source_rebuilt : name ∷ dir ≢ rebuilt)
    (source_moved : name ∷ dir ≢ moved_source dir name keep_backup suffix)
    (rebuilt_moved : rebuilt ≢ moved_source dir name keep_backup suffix)
    → Ends
        (λ r s'.
          IsSwapped ops laws
            (name ∷ dir)
            rebuilt
            (moved_source dir name keep_backup suffix)
            source_rebuilt
            source_moved
            rebuilt_moved
            keep_backup
            s
            s')
        (λ e s'.
          IsRestored ops laws
            (name ∷ dir)
            rebuilt
            (moved_source dir name keep_backup suffix)
            source_rebuilt
            source_moved
            rebuilt_moved
            e
            s
            s')
        (swap_rebuilt_index_dir_with_ops ops (name ∷ dir) rebuilt keep_backup suffix s)
unfolding swap_rebuilt_index_dir_with_ops resume
swap_all_or_nothing ops laws name suffix dir rebuilt keep_backup s a b c =
    stage_and_swap-Outcome ops laws (name ∷ dir) rebuilt (moved_source dir name keep_backup suffix)
      a b c keep_backup s
