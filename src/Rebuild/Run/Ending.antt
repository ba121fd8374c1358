-- ===== src/Rebuild/Run/Ending.antt =====
-- How a rebuild in shim/src/lib.rs ends: the guard of the temporary directory, after a swap that failed and
-- after one that was made.
use chroma_go_local.Base.{
  ◌≡◌, ◌≢◌, refl, sym, ◌∙◌, ap, ◌⊎◌, inl, inr, Bool, true, Option, List, ◌∷◌, ◌++◌, Result, ok, err,
  Bool-cases, ℕ,
}
use chroma_go_local.Base.Actions.{Ends, Ends-resume, Ends-mono, Ends-mapped, both-Ends, mapped-held}
use chroma_go_local.Base.Text.{Text, text}
use chroma_go_local.Rebuild.Host.{
  RebuildHost, EmbeddedRebuildCollectionResponse, guard_remove, rebuilt_response,
}
use chroma_go_local.Rebuild.Swap.{FilePath}
use chroma_go_local.Rebuild.TempDir.{
  TempRebuildDirGuard, new, disarm, remove_now, drop_guard, remove_now-kept,
}
use chroma_go_local.Rebuild.Run.{Plan, dropped, after_failed_swap, after_swap, conclude, Swapped}
use chroma_go_local.Rebuild.Run.Laws.{RebuildLaws}
use chroma_go_local.Rebuild.Run.Paths.{rebuilt_path, source-rebuilt, rebuilt-moved}
use chroma_go_local.Rebuild.Run.Kept as Kept
use chroma_go_local.Rebuild.Run.Kept.{reset-added, cleanup-added}

module _ (h : RebuildHost) (laws : RebuildLaws h) (name : Text) (dir : FilePath)
    (keep_backup : Bool) (old : Option laws.Tree) where
  open laws use {at}

  abbrev Stays : h.State → Type 0
  Stays = Kept.Stays h laws name dir keep_backup old

  abbrev Waits : h.State → Type 0
  Waits = Kept.Waits h laws name dir keep_backup old

  abbrev IsRollbackError : Text → Type 0
  IsRollbackError = Kept.IsRollbackError h laws name dir keep_backup old

  abbrev OldAfter : EmbeddedRebuildCollectionResponse → h.State → Type 0
  OldAfter = Kept.OldAfter h laws name dir keep_backup old

  abbrev OldAfterError : Text → h.State → Type 0
  OldAfterError = Kept.OldAfterError h laws name dir keep_backup old

  abbrev OldAfterSwap : Swapped h → h.State → Type 0
  OldAfterSwap = Kept.OldAfterSwap h laws name dir keep_backup old

  module _ (x : Text) where
    abbrev rebuilt_dir : FilePath
    rebuilt_dir = rebuilt_path name dir x

    -- The removal of the temporary directory touches neither place.
    guard_remove-at :
        (p : FilePath) (s : h.State)
        → p ≢ rebuilt_dir
        → at (guard_remove h rebuilt_dir s).1 p ≡ at s p
    unfolding guard_remove
    guard_remove-at p s d =
        mapped-held (λ s'. at s' p ≡ at s p) _ _ (laws.removes rebuilt_dir p s d)

    drop-at :
        (g : TempRebuildDirGuard) (p : FilePath) (s : h.State)
        → g.path ≡ rebuilt_dir
        → p ≢ rebuilt_dir
        → at (drop_guard (guard_remove h) g s) p ≡ at s p
    unfolding drop_guard
    drop-at g p s same d = elim (Bool-cases g.active) [
      | inl on ↦ rw (on, same, drop_guard) (guard_remove-at p s d)
      | inr off ↦ rw (off, drop_guard) refl
    ]

    remove_now-at :
        (p : FilePath) (s : h.State)
        → p ≢ rebuilt_dir
        → at (remove_now (guard_remove h) (new rebuilt_dir) s).2 p ≡ at s p
    unfolding new
    remove_now-at p s d =
        ap (λ s'. at s' p) (remove_now-kept (guard_remove h) (new rebuilt_dir) s refl).0
        ∙ guard_remove-at p s d

    remove_now-path :
        (s : h.State) → (remove_now (guard_remove h) (new rebuilt_dir) s).1.path ≡ rebuilt_dir
    unfolding new
    remove_now-path s = (remove_now-kept (guard_remove h) (new rebuilt_dir) s refl).1

    Stays-next :
        (s s' : h.State)
        → ((p : FilePath) → p ≢ rebuilt_dir → at s' p ≡ at s p)
        → Stays s
        → Stays s'
    Stays-next s s' same p = same (name ∷ dir) (source-rebuilt name dir x) ∙ p

    Waits-next :
        (s s' : h.State)
        → ((p : FilePath) → p ≢ rebuilt_dir → at s' p ≡ at s p)
        → Waits s
        → Waits s'
    Waits-next s s' same v = record {
      suffix = v.suffix;
      stands = same _ (λ q. rebuilt-moved name dir x keep_backup v.suffix (sym q)) ∙ v.stands;
    }

    -- After a failed swap: the manager is reset, the directory removed, the guard dropped.
    failed_end : h.State → h.State
    failed_end s =
        let (r, g, s') = remove_now (guard_remove h) (new rebuilt_dir) (h.reset s).1 in
        drop_guard (guard_remove h) g s'

    failed_end-at : (s : h.State) (p : FilePath) → p ≢ rebuilt_dir → at (failed_end s) p ≡ at s p
    unfolding failed_end
    failed_end-at s p d =
        drop-at _ p _ (remove_now-path (h.reset s).1) d
        ∙ (remove_now-at p (h.reset s).1 d ∙ (laws.reset p (at s p)).apply s refl)

    failed_swap-Old :
        (e : Text) (s : h.State)
        → Stays s ⊎ (IsRollbackError e × Waits s)
        → Ends OldAfter OldAfterError (dropped h (after_failed_swap h (new rebuilt_dir) e s))
    unfolding dropped after_failed_swap failed_end
    failed_swap-Old e s (inl p) = inl (Stays-next s (failed_end s) (failed_end-at s) p)
    failed_swap-Old e s (inr (told, v)) = inr (
        inl (
          cleanup-added h laws name dir keep_backup old _ _
              (reset-added h laws name dir keep_backup old e _ told),
          Waits-next s (failed_end s) (failed_end-at s) v,
        ))

    abbrev Later : h.State → Type 0
    Later s = keep_backup ≡ true → Waits s

    reset-Waits : (s : h.State) → Later s → Later (h.reset s).1
    reset-Waits s v keep = record {
      suffix = (v keep).suffix;
      stands = (laws.reset _ old).apply s (v keep).stands;
    }

    -- After a swap that was made: the guard is disarmed.
    after_swap-Old :
        (plan : Plan h) (n : ℕ) (done : Text × List Text) (s : h.State)
        → (keep_backup ≡ true → Waits s)
        → Ends OldAfter OldAfterError (after_swap h plan n done s)
    unfolding after_swap rebuilt_response
    after_swap-Old plan n (backup, warnings) s v =
        Ends-resume (λ u s'. keep_backup ≡ true → Waits s') OldAfter OldAfterError _ _
          (Ends-mapped _ (λ u s'. keep_backup ≡ true → Waits s') OldAfterError _
            (Ends-mono (λ u. Later) (λ u. Later) (λ e. Later)
              (λ e s'.
                OldAfterError (text "failed to reset local segment manager after swap: " ++ e) s')
              (h.reset s) (λ u s' w. w)
              (λ e s' w. inr (inr (record { reason = e; told = refl }, w)))
              (both-Ends Later (h.reset s) (reset-Waits s v))))
          λ u s' w. inr (refl, w)

    dropped-disarmed :
        (r : Result EmbeddedRebuildCollectionResponse Text × h.State)
        → Ends OldAfter OldAfterError r
        → Ends OldAfter OldAfterError (dropped h (r.0, disarm (new rebuilt_dir), r.1))
    unfolding dropped disarm new drop_guard
    dropped-disarmed (ok a, s) v = v
    dropped-disarmed (err e, s) v = v

    pub conclude-Old :
        (plan : Plan h) (r : Result (ℕ × Swapped h) Text × h.State)
        → Ends (λ out s'. OldAfterSwap out.1 s') (λ e s'. Stays s') r
        → Ends OldAfter OldAfterError (dropped h (conclude h plan (new rebuilt_dir) r))
    unfolding conclude dropped new
    conclude-Old plan (err e, s) p =
        inl (Stays-next s _ (λ q d. drop-at (new rebuilt_dir) q s refl d) p)
    conclude-Old plan (ok (n, err e), s) v = failed_swap-Old e s v
    conclude-Old plan (ok (n, ok done), s) v = dropped-disarmed _ (after_swap-Old plan n done s v)
