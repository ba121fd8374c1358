-- ===== src/Rebuild/Run/Counts.antt =====
-- The numbers in the response of `run_rebuild_collection` of shim/src/lib.rs.
use chroma_go_local.Base.{ℕ, ◌≡◌, refl, Bool, true, false, List, Result, ok, err, subst}
use chroma_go_local.Base.Actions.{Action, Ends, Ends-resume, resume, when}
use chroma_go_local.Base.Text.{Text}
use chroma_go_local.Rebuild.Host.{
  RebuildHost, RebuildCollectionIdentity, EmbeddedRebuildCollectionResponse, skipped, prechecked,
  rebuilt_response, indexes,
}
use chroma_go_local.Rebuild.TempDir.{TempRebuildDirGuard, new, disarm}
use chroma_go_local.Rebuild.Swap.{FilePath}
use chroma_go_local.Rebuild.Run.{
  Plan, records_scanned, fill_index, with_target, build_index, build_and_swap, after_swap, conclude,
  dropped, after_failed_swap, Swapped, rebuild_guarded, rebuild, rebuild_or_precheck,
  rebuild_from_map, rebuild_from_dir, run_rebuild_collection,
}
use chroma_go_local.Rebuild.Reindex.Counted.{reindex-counted}

-- A response that is in order: what was asked for, and every record counted.
pub record IsCounted (precheck : Bool) (r : EmbeddedRebuildCollectionResponse) : Type 0 where
  pub asked : r.precheck ≡ precheck
  pub dry : precheck ≡ true → r.rebuilt ≡ false
  pub would : r.rebuilt ≡ true → r.would_rebuild ≡ true
  pub all_ : r.rebuilt ≡ true → r.vectors_reindexed ≡ r.records_scanned
  pub none_ : r.rebuilt ≡ false → r.vectors_reindexed ≡ 0

module _ (h : RebuildHost) where
  -- Nothing is said of a failure.
  abbrev Good : {A : Type 0} → (A → Type 0) → Result A Text × h.State → Type 0
  Good Q = Ends (λ a s. Q a) (λ e s. Unit {0})

  then_Good :
      {A B : Type 0} (Q : A → Type 0) (Q' : B → Type 0) (m : Result A Text × h.State)
      (k : A → Action h.State Text B)
      → Good Q m
      → ((a : A) (s : h.State) → Q a → Good Q' (k a s))
      → Good Q' (resume m k)
  then_Good Q Q' m k p f = Ends-resume (λ a s. Q a) (λ b s. Q' b) (λ e s. Unit {0}) m k p f

  Good-IsCounted :
      (precheck : Bool) (m : Result EmbeddedRebuildCollectionResponse Text × h.State)
      → Good (IsCounted precheck) m
      → (r : EmbeddedRebuildCollectionResponse) → m.0 ≡ ok r
      → IsCounted precheck r
  Good-IsCounted precheck (ok a, s) v r e = subst (IsCounted precheck) (cc e) v
  Good-IsCounted precheck (err x, s) v r e = let bad : ⊥ = cc e in absurd bad

  any-Good : {A : Type 0} (m : Result A Text × h.State) → Good (λ a. Unit {0}) m
  any-Good (ok a, s) = tt
  any-Good (err e, s) = tt

  -- A step about which nothing is known.
  skip_Good :
      {A B : Type 0} (Q : B → Type 0) (m : Result A Text × h.State) (k : A → Action h.State Text B)
      → ((a : A) (s : h.State) → Good Q (k a s))
      → Good Q (resume m k)
  skip_Good Q m k f = then_Good (λ a. Unit {0}) Q m k (any-Good m) (λ a s u. f a s)

  abbrev Counted : Plan h → ℕ → Type 0
  Counted plan n = n ≡ records_scanned h plan.records

  fill_index-Good :
      (plan : Plan h) (dir : FilePath) (n : ℕ) (i : h.HnswIndex) (s : h.State)
      → Good (Counted plan) (fill_index h plan dir n i s)
  unfolding fill_index records_scanned
  fill_index-Good plan dir n i s = skip_Good (Counted plan) _ _ λ room s₁.
      then_Good (λ out. Counted plan out.1) (Counted plan) _ _
        (reindex-counted (indexes h plan.source_index i) plan.records _ _ s₁)
        λ out s₂ counted.
          skip_Good (Counted plan) _ _
            λ saved s₃. skip_Good (Counted plan) _ _ λ written s₄. counted

  build_and_swap-Good :
      (plan : Plan h) (dir : FilePath) (keep_backup : Bool) (s : h.State)
      → Good (λ out. Counted plan out.0) (build_and_swap h plan dir keep_backup s)
  unfolding build_and_swap build_index with_target
  build_and_swap-Good plan dir keep_backup s =
      then_Good (Counted plan) (λ out. Counted plan out.0) _ _
        (skip_Good (Counted plan) _ _
          λ target s₁. skip_Good (Counted plan) _ _ λ i s₂. fill_index-Good plan dir _ i s₂)
        λ n s₃ counted.
          skip_Good (λ out. Counted plan out.0) _ _
            λ u s₄. skip_Good (λ out. Counted plan out.0) _ _ λ swapped s₅. counted

  after_swap-Good :
      (plan : Plan h) (n : ℕ) (done : Text × List Text) (s : h.State)
      → Counted plan n
      → Good (IsCounted false) (after_swap h plan n done s)
  unfolding after_swap rebuilt_response
  after_swap-Good plan n done s counted = skip_Good (IsCounted false) _ _ λ u s₁. record {
    asked = refl;
    dry = λ e. cc e;
    would = λ e. refl;
    all_ = λ e. counted;
    none_ = λ e. let bad : ⊥ = cc e in absurd bad;
  }

  dropped-Good :
      {A : Type 0} (Q : A → Type 0) (r : Result A Text × h.State) (g : TempRebuildDirGuard)
      → Good Q r
      → Good Q (dropped h (r.0, g, r.1))
  unfolding dropped
  dropped-Good Q (ok a, s) g v = v
  dropped-Good Q (err e, s) g v = tt

  conclude-Good :
      (plan : Plan h) (g : TempRebuildDirGuard) (r : Result (ℕ × Swapped h) Text × h.State)
      → Good (λ out. Counted plan out.0) r
      → Good (IsCounted false) (dropped h (conclude h plan g r))
  unfolding conclude after_failed_swap dropped
  conclude-Good plan g (err e, s) v = tt
  conclude-Good plan g (ok (n, err e), s) v = tt
  conclude-Good plan g (ok (n, ok done), s) v =
      dropped-Good (IsCounted false) (after_swap h plan n done s) (disarm g)
        (after_swap-Good plan n done s v)

  module _ (keep_backup : Bool) where
    rebuild-Good :
        (plan : Plan h) (s : h.State) → Good (IsCounted false) (rebuild h plan keep_backup s)
    unfolding rebuild rebuild_guarded
    rebuild-Good plan s = skip_Good (IsCounted false) _ _ λ dir s₁.
        skip_Good (IsCounted false) _ _
          λ u s₂. conclude-Good plan (new dir) _ (build_and_swap-Good plan dir keep_backup s₂)

    rebuild_or_precheck-Good :
        (precheck : Bool) (plan : Plan h) (s : h.State)
        → Good (IsCounted precheck) (rebuild_or_precheck h precheck keep_backup plan s)
    unfolding rebuild_or_precheck when prechecked
    rebuild_or_precheck-Good true plan s = record {
      asked = refl;
      dry = λ e. refl;
      would = λ e. refl;
      all_ = λ e. let bad : ⊥ = cc e in absurd bad;
      none_ = λ e. refl;
    }
    rebuild_or_precheck-Good false plan s = rebuild-Good plan s

    module _ (precheck : Bool) where
      skipped-IsCounted :
          (identity : RebuildCollectionIdentity) (warnings : List Text)
          → IsCounted precheck (skipped identity precheck warnings)
      unfolding skipped
      skipped-IsCounted identity warnings = record {
        asked = refl;
        dry = λ e. refl;
        would = λ e. let bad : ⊥ = cc e in absurd bad;
        all_ = λ e. let bad : ⊥ = cc e in absurd bad;
        none_ = λ e. refl;
      }

      when-Good :
          (b : Bool) (m k : Action h.State Text EmbeddedRebuildCollectionResponse) (s : h.State)
          → Good (IsCounted precheck) (m s)
          → Good (IsCounted precheck) (k s)
          → Good (IsCounted precheck) (when b m k s)
      unfolding when
      when-Good true m k s p q = p
      when-Good false m k s p q = q

      rebuild_from_dir-Good :
          (identity : RebuildCollectionIdentity) (segments : h.Segments) (c : h.HnswConfig)
          (dir : FilePath) (s : h.State)
          → Good
              (IsCounted precheck)
              (rebuild_from_dir h identity segments c precheck keep_backup dir s)
      unfolding rebuild_from_dir rebuild_from_map
      rebuild_from_dir-Good identity segments c dir s =
          when-Good _ _ _ s
            (when-Good _ _ _ s
              (skip_Good (IsCounted precheck) _ _ λ m s₁.
                when-Good _ _ _ s₁ (skipped-IsCounted identity _) (
                  skip_Good (IsCounted precheck) _ _
                    λ plan s₂. rebuild_or_precheck-Good precheck plan s₂))
              (skipped-IsCounted identity _))
            (skipped-IsCounted identity _)

  -- A response repeats whether a precheck was asked for. A precheck reports no rebuild; a response
  -- that reports a rebuild counts exactly the records that it scanned as reindexed, and one that
  -- does not counts none. This holds for every request, host and outcome.
  pub run_rebuild_collection_counts :
      (root : FilePath) (q : h.Request) (precheck keep_backup : Bool) (s : h.State)
      (r : EmbeddedRebuildCollectionResponse)
      → (run_rebuild_collection h root q precheck keep_backup s).0 ≡ ok r
      → IsCounted precheck r
  unfolding run_rebuild_collection
  run_rebuild_collection_counts root q precheck keep_backup s r e =
      Good-IsCounted precheck _
        (skip_Good (IsCounted precheck) _ _ λ (identity, id) s₁.
          skip_Good (IsCounted precheck) _ _ λ u s₂. skip_Good (IsCounted precheck) _ _ λ v s₃.
            skip_Good (IsCounted precheck) _ _ λ segments s₄.
              skip_Good (IsCounted precheck) _ _
                λ c s₅. rebuild_from_dir-Good keep_backup precheck identity segments c _ s₅)
        r e
