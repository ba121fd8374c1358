-- ===== src/Rebuild/Run/Kept.antt =====
-- What becomes of the old index in a rebuild of shim/src/lib.rs, up to the swap.
use mathlib.Core.List.{append-nil, append_assoc}
use chroma_go_local.Base.{
  ◌≡◌, sym, ◌∙◌, ap, ◌⊎◌, inl, inr, Bool, true, false, Option, some, List, [], ◌∷◌, ◌++◌, Result,
  ok, err, subst,
}
use chroma_go_local.Base.Actions.{Ends, Ends-resume, Ends-mono, Ends-caught, both-Ends, mapped-held}
use chroma_go_local.Base.Text.{Text, text}
use chroma_go_local.Rebuild.Host.{
  RebuildHost, EmbeddedRebuildCollectionResponse, std_swap_fs_ops, swap_rebuilt_index_dir,
  unique_path_suffix,
}
use chroma_go_local.Rebuild.Retry.{OsError}
use chroma_go_local.Rebuild.Swap.{FilePath, moved_source, format_swap_activation_error}
use chroma_go_local.Rebuild.Swap.Contents.{IsSwapped, IsRestored, swap_all_or_nothing}
use chroma_go_local.Rebuild.Run.{Plan, build_and_swap, add_reset_error, add_cleanup_error, Swapped}
use chroma_go_local.Rebuild.Run.Laws.{RebuildLaws, std_fs_laws}
use chroma_go_local.Rebuild.Run.Building.{build_index-Keep}
use chroma_go_local.Rebuild.Run.Paths.{rebuilt_path, source-rebuilt, source-moved, rebuilt-moved}

module _ (h : RebuildHost) (laws : RebuildLaws h) (name : Text) (dir : FilePath)
    (keep_backup : Bool) (old : Option laws.Tree) where
  open laws use {at}

  -- The old tree stands where the index belongs.
  abbrev pub Stays : h.State → Type 0
  Stays s = at s (name ∷ dir) ≡ old

  -- It waits under the name of a backup, or of a rollback copy.
  pub record Waits (s : h.State) : Type 0 where
    pub suffix : Text
    pub stands : at s (moved_source dir name keep_backup suffix) ≡ old

  -- The error reports a failed rollback.
  pub record IsRollbackError (e : Text) : Type 0 where
    pub rebuilt : FilePath
    pub swap_err : OsError
    pub rollback_err : OsError
    pub rest : Text
    pub told :
        e
        ≡ format_swap_activation_error
            (std_swap_fs_ops h)
            rebuilt
            (name ∷ dir)
            swap_err
            (some rollback_err)
          ++ rest

  -- The error reports that the segment manager was not reset after the swap.
  pub record IsResetError (e : Text) : Type 0 where
    pub reason : Text
    pub told : e ≡ text "failed to reset local segment manager after swap: " ++ reason

  -- A rebuild that returned: nothing was swapped, or the old index waits if it is to be kept.
  abbrev pub OldAfter : EmbeddedRebuildCollectionResponse → h.State → Type 0
  OldAfter response s =
      ((response.rebuilt ≡ false) × Stays s)
      ⊎ ((response.rebuilt ≡ true) × (keep_backup ≡ true → Waits s))

  -- One that failed.
  abbrev pub OldAfterError : Text → h.State → Type 0
  OldAfterError e s =
      Stays s ⊎ ((IsRollbackError e × Waits s) ⊎ (IsResetError e × (keep_backup ≡ true → Waits s)))

  longer : (e more : Text) → IsRollbackError e → IsRollbackError (e ++ more)
  longer e more v = record {
    rebuilt = v.rebuilt;
    swap_err = v.swap_err;
    rollback_err = v.rollback_err;
    rest = v.rest ++ more;
    told = ap (λ t. t ++ more) v.told ∙ append_assoc _ v.rest more;
  }

  pub reset-added :
      (e : Text) (r : Result (Unit {0}) Text)
      → IsRollbackError e
      → IsRollbackError (add_reset_error h e r)
  unfolding add_reset_error
  reset-added e (ok done) v = v
  reset-added e (err m) v = longer e _ v

  pub cleanup-added :
      (e : Text) (r : Result (Unit {0}) Text)
      → IsRollbackError e
      → IsRollbackError (add_cleanup_error h e r)
  unfolding add_cleanup_error
  cleanup-added e (ok done) v = v
  cleanup-added e (err m) v = longer e _ v

  -- After a swap, from its outcome on.
  abbrev pub OldAfterSwap : Swapped h → h.State → Type 0
  OldAfterSwap (ok done) s = keep_backup ≡ true → Waits s
  OldAfterSwap (err e) s = Stays s ⊎ (IsRollbackError e × Waits s)

  module _ (x : Text) where
    abbrev pub rebuilt_dir : FilePath
    rebuilt_dir = rebuilt_path name dir x

    module _ (y : Text) where
      abbrev Activated : h.State → h.State → Type 0
      Activated =
          IsSwapped (std_swap_fs_ops h) (std_fs_laws h laws) (name ∷ dir) rebuilt_dir
            (moved_source dir name keep_backup y) (source-rebuilt name dir x)
            (source-moved name dir keep_backup y) (rebuilt-moved name dir x keep_backup y)
            keep_backup

      abbrev Restored : Text → h.State → h.State → Type 0
      Restored =
          IsRestored (std_swap_fs_ops h) (std_fs_laws h laws) (name ∷ dir) rebuilt_dir
            (moved_source dir name keep_backup y) (source-rebuilt name dir x)
            (source-moved name dir keep_backup y) (rebuilt-moved name dir x keep_backup y)

      Restored-Old :
          (e : Text) (s s' : h.State)
          → Stays s
          → Restored e s s'
          → Stays s' ⊎ (IsRollbackError e × Waits s')
      Restored-Old e s s' p v = elim v.old [
        | inl back ↦ inl (back ∙ p)
        | inr r ↦ inr (
          record {
            rebuilt = rebuilt_dir;
            swap_err = r.swap_err;
            rollback_err = r.rollback_err;
            rest = [];
            told = r.told ∙ sym (append-nil _);
          },
          record { suffix = y; stands = r.waits ∙ p },
        )
      ]

    swap-Old :
        (s : h.State)
        → Stays s
        → Ends
            (λ done s'. keep_backup ≡ true → Waits s')
            (λ e s'. Stays s' ⊎ (IsRollbackError e × Waits s'))
            (swap_rebuilt_index_dir h (name ∷ dir) rebuilt_dir keep_backup s)
    unfolding swap_rebuilt_index_dir
    swap-Old s p =
        let y = unique_path_suffix h s in
        Ends-mono (λ done s'. Activated y s s') (λ done s'. keep_backup ≡ true → Waits s')
          (λ e s'. Restored y e s s') (λ e s'. Stays s' ⊎ (IsRollbackError e × Waits s')) _
          (λ done s' v keep. record { suffix = y; stands = v.kept keep ∙ p })
          (λ e s' v. Restored-Old y e s s' p v)
          (swap_all_or_nothing (std_swap_fs_ops h) (std_fs_laws h laws) name y dir rebuilt_dir
            keep_backup s (source-rebuilt name dir x) (source-moved name dir keep_backup y)
            (rebuilt-moved name dir x keep_backup y))

    caught-Old :
        (r : Result (Text × List Text) Text × h.State)
        → Ends
            (λ done s'. keep_backup ≡ true → Waits s')
            (λ e s'. Stays s' ⊎ (IsRollbackError e × Waits s'))
            r
        → OldAfterSwap r.0 r.1
    caught-Old (ok done, s) v = v
    caught-Old (err e, s) v = v

    -- Up to the swap, and with it.
    pub build_and_swap-Old :
        (plan : Plan h) (s : h.State)
        → plan.source_dir ≡ name ∷ dir
        → Stays s
        → Ends
            (λ out s'. OldAfterSwap out.1 s')
            (λ e s'. Stays s')
            (build_and_swap h plan rebuilt_dir keep_backup s)
    unfolding build_and_swap
    build_and_swap-Old plan s same p =
        Ends-resume (λ n. Stays) (λ out s'. OldAfterSwap out.1 s') (λ e. Stays) _ _
          (both-Ends Stays _ (
            (build_index-Keep h laws (name ∷ dir) old plan rebuilt_dir
                (source-rebuilt name dir x)).apply
              s p))
          λ n s₁ p₁.
            Ends-resume (λ u. Stays) (λ out s'. OldAfterSwap out.1 s') (λ e. Stays) _ _
              (both-Ends Stays _
                (mapped-held Stays _ _ ((laws.reset (name ∷ dir) old).apply s₁ p₁)))
              λ u s₂ p₂.
                Ends-resume (λ r s'. OldAfterSwap r s') (λ out s'. OldAfterSwap out.1 s')
                  (λ e. Stays) _ _
                  (Ends-caught (λ r s'. OldAfterSwap r s') (λ (e : Text). Stays) _
                    (caught-Old _ (
                      subst
                        (λ source.
                          Ends (λ done s'. keep_backup ≡ true → Waits s')
                            (λ e s'. Stays s' ⊎ (IsRollbackError e × Waits s'))
                            (swap_rebuilt_index_dir h source rebuilt_dir keep_backup s₂))
                        (sym same) (swap-Old s₂ p₂))))
                  (λ r s₃ q. q)
