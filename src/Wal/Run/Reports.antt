-- ===== src/Wal/Run/Reports.antt =====
-- What a whole prune run of shim/src/lib.rs reports, in the mode that continues on errors.
use chroma_go_local.Base.{
  ℕ, ◌≡◌, refl, sym, subst, Bool, true, false, not, ◌&&◌, ltb, Option, none, some, List, [], ◌∷◌,
  length, Result, ok, err,
}
use chroma_go_local.Base.Actions.{Action, Ends, Ends-resume, Ends-self, resume, caught, when}
use chroma_go_local.Base.Int.{ℤ}
use chroma_go_local.Base.Text.{Text}
use chroma_go_local.Base.Words.{clamp_u64}
use chroma_go_local.Wal.Policy.{WalPruneExecutionOptions}
use chroma_go_local.Wal.Prune.{
  continue_on_error, WalPruneTarget, EmbeddedWalPruneCollectionResult, Totals,
}
use chroma_go_local.Wal.Prune.Rounds.{StoreLaws}
use chroma_go_local.Wal.Prune.Loop.{no_totals, Reports, tally, IsComplete, prune_targets_total}
use chroma_go_local.Wal.Run.{
  WalHost, EmbeddedWalPruneResponse, Vacuumed, try_vacuum, restore_timeout, run_vacuum, vacuum_step,
  empty_response, prepare, finish, run_explicit_wal_prune,
}

-- A response to the targets and options.
pub record IsResponse (h : WalHost) (options : WalPruneExecutionOptions)
    (targets : List (WalPruneTarget h.CollectionUuid)) (r : EmbeddedWalPruneResponse) : Type 0 where
  pub reports : Reports h.store targets r.collections
  pub totals : r.totals ≡ tally no_totals r.collections
  pub counted : r.collection_count ≡ clamp_u64 (length r.collections)
  pub dry_run : r.dry_run ≡ options.dry_run
  pub requested : r.vacuum_requested ≡ options.vacuum

-- A run that returned such a response, or one whose preparation failed.
abbrev pub IsRun :
    (h : WalHost)
    → WalPruneExecutionOptions
    → List (WalPruneTarget h.CollectionUuid)
    → h.State
    → Result EmbeddedWalPruneResponse Text × h.State
    → Type 0
IsRun h options targets s =
    Ends (λ r s'. IsResponse h options targets r) (λ e s'. prepare h options s ≡ (err e, s'))

module _ (h : WalHost) (options : WalPruneExecutionOptions) (R : Text → h.State → Type 0) where
  open h use {State, CollectionUuid}

  Any : Vacuumed h → State → Type 0
  Any v s = Unit {0}

  -- The VACUUM cannot fail the run.
  try_vacuum-Ends : (r : Result (Unit {0}) Text) (s : State) → Ends Any R (try_vacuum h r s)
  unfolding try_vacuum resume caught Any
  try_vacuum-Ends (ok u) s = tt
  try_vacuum-Ends (err e) s = tt

  restore-Ends :
      (t : Option ℤ) (v : Vacuumed h) (s : State)
      → Ends Any R (resume (restore_timeout h t s) (λ u s'. (ok v, s')))
  unfolding restore_timeout resume caught Any
  restore-Ends none v s = tt
  restore-Ends (some n) v s = tt

  run_vacuum-Ends : (s : State) → Ends Any R (run_vacuum h s)
  unfolding run_vacuum resume caught
  run_vacuum-Ends s = Ends-resume Any Any R _ _ (try_vacuum-Ends _ _) λ v s' u. restore-Ends _ v s'

  when-Ends :
      (b : Bool) (m k : Action State Text (Vacuumed h)) (s : State)
      → Ends Any R (m s)
      → Ends Any R (k s)
      → Ends Any R (when b m k s)
  unfolding when
  when-Ends true m k s p q = p
  when-Ends false m k s p q = q

  vacuum_step-Ends : (n : ℕ) (s : State) → Ends Any R (vacuum_step h options n s)
  unfolding vacuum_step Any
  vacuum_step-Ends n s =
      when-Ends (not options.dry_run && options.vacuum) _ _ s
        (when-Ends (ltb 0 n) _ _ s (run_vacuum-Ends s) tt) tt

  finish-Ends :
      (targets : List (WalPruneTarget CollectionUuid))
      (results : List EmbeddedWalPruneCollectionResult) (s : State)
      → Reports h.store targets results
      → Ends
          (λ r s'. IsResponse h options targets r)
          R
          (finish h options results (tally no_totals results) s)
  unfolding finish
  finish-Ends targets results s v =
      Ends-resume Any (λ r s'. IsResponse h options targets r) R _ _ (vacuum_step-Ends _ s)
        λ outcome s' u. record {
          reports = v;
          totals = refl;
          counted = refl;
          dry_run = refl;
          requested = refl;
        }

  -- The loop, which returns, and what is after it.
  rest-Ends :
      (targets : List (WalPruneTarget CollectionUuid))
      (r : Result (List EmbeddedWalPruneCollectionResult × Totals) Text × State)
      → IsComplete h.store targets r
      → Ends
          (λ r s'. IsResponse h options targets r)
          R
          (resume r (λ (results, totals). finish h options results totals))
  unfolding resume
  rest-Ends targets (ok found, s) v =
      let same : found ≡ (v.results, tally no_totals v.results) = cc v.returned in
      subst (λ q. Ends (λ r s'. IsResponse h options targets r) R (finish h options q.0 q.1 s))
        (sym same) (finish-Ends targets v.results s v.reports)
  rest-Ends targets (err e, s) v = let bad : ⊥ = cc v.returned in absurd bad

-- A run that continues on errors returns, unless its preparation fails: one result for each
-- target, in order, and their totals.
pub run_explicit_wal_prune-IsRun :
    (h : WalHost) (options : WalPruneExecutionOptions) (laws : StoreLaws h.store)
    (targets : List (WalPruneTarget h.CollectionUuid)) (s : h.State)
    → IsRun h options targets s (run_explicit_wal_prune h targets options continue_on_error s)
unfolding run_explicit_wal_prune when empty_response clamp_u64
run_explicit_wal_prune-IsRun h options laws [] s = record {
  reports = tt;
  totals = refl;
  counted = refl;
  dry_run = refl;
  requested = refl;
}
run_explicit_wal_prune-IsRun h options laws (x ∷ xs) s =
    Ends-resume (λ now s'. Unit {0}) (λ r s'. IsResponse h options (x ∷ xs) r)
      (λ e s'. prepare h options s ≡ (err e, s')) _ _
      (Ends-self (prepare h options s) (λ now s'. Unit {0})
        (λ e s'. prepare h options s ≡ (err e, s')) (λ now s' q. tt) (λ e s' q. q))
      λ now s' u.
        rest-Ends h options (λ e s'. prepare h options s ≡ (err e, s')) (x ∷ xs) _
          (prune_targets_total h.store options now laws (x ∷ xs) s')
