-- ===== src/Wal/Prune/Loop.antt =====
-- The loop over the targets: one result for each target, totals that add up, and the purges.
use mathlib.Core.List.{append_assoc, append-nil}
use chroma_go_local.Base.{◌≡◌, refl, sym, ◌∙◌, ap, List, [], ◌∷◌, ◌++◌, arith, Result, ok, err}
use chroma_go_local.Base.Actions.{Ends, Ends-resume, Ends-mono, resume}
use chroma_go_local.Base.Int.{ℤ}
use chroma_go_local.Base.Text.{Text}
use chroma_go_local.Base.Words.{saturating_add}
use chroma_go_local.Wal.Policy.{WalPruneExecutionOptions}
use chroma_go_local.Wal.Prune.{
  WalStore, WalPruneFailureMode, continue_on_error, WalPruneTarget,
  EmbeddedWalPruneCollectionResult, Totals,
}
use chroma_go_local.Wal.Prune.Target.{Round, prune_target, prune_targets}
use chroma_go_local.Wal.Prune.Rounds.{
  StoreLaws, Keeps, IsRound, IsAbort, Bounded, Accounts, IsSound,
}
use chroma_go_local.Wal.Prune.Targets.{prune_target-Good}

-- What a result adds to the totals.
abbrev pub tally_one : Totals → EmbeddedWalPruneCollectionResult → Totals
tally_one t r = record {
  candidate_count_total = saturating_add t.candidate_count_total r.candidate_count;
  candidate_bytes_total = saturating_add t.candidate_bytes_total r.candidate_bytes;
  pruned_count_total = saturating_add t.pruned_count_total r.pruned_count;
  pruned_bytes_total = saturating_add t.pruned_bytes_total r.pruned_bytes;
}

-- The totals that a list of results reports.
abbrev pub tally : Totals → List EmbeddedWalPruneCollectionResult → Totals
tally t [] = t
tally t (r ∷ rs) = tally (tally_one t r) rs

tally_one-eq :
    (t t' : Totals) (r : EmbeddedWalPruneCollectionResult) → Accounts t r t' → t' ≡ tally_one t r
tally_one-eq t t' r a = ground arith

-- One sound result for each target, in order.
abbrev pub Reports :
    (w : WalStore)
    → List (WalPruneTarget w.CollectionUuid)
    → List EmbeddedWalPruneCollectionResult
    → Type 0
Reports w [] [] = Unit {0}
Reports w [] (r ∷ rs) = ⊥
Reports w (x ∷ xs) [] = ⊥
Reports w (x ∷ xs) (r ∷ rs) =
    (r.collection_id ≡ w.show_uuid x.collection_id)
    × (r.name ≡ x.name)
    × IsSound r
    × Reports w xs rs

module _ (w : WalStore) (options : WalPruneExecutionOptions) (mode : WalPruneFailureMode)
    (now_secs : ℤ) (P : w.State → Type 0) (laws : StoreLaws w) (keeps : Keeps w options P) where
  open w use {State, CollectionUuid}

  pub record IsFinished (targets : List (WalPruneTarget CollectionUuid)) (t : Totals)
      (results : List EmbeddedWalPruneCollectionResult)
      (end_ : List EmbeddedWalPruneCollectionResult × Totals) (s : State) : Type 0 where
    pub added : List EmbeddedWalPruneCollectionResult
    pub appended : end_.0 ≡ results ++ added
    pub reports : Reports w targets added
    pub totals : end_.1 ≡ tally t added
    pub held : P s

  abbrev Abort : Text → State → Type 0
  Abort = IsAbort w options mode now_secs P laws keeps

  IsFinished-cons :
      (x : WalPruneTarget CollectionUuid) (xs : List (WalPruneTarget CollectionUuid)) (t : Totals)
      (results : List EmbeddedWalPruneCollectionResult) (r : Round) (s₁ : State)
      (end_ : List EmbeddedWalPruneCollectionResult × Totals) (s : State)
      → IsRound w options mode now_secs P laws keeps x t r s₁
      → IsFinished xs r.1 (results ++ r.0 ∷ []) end_ s
      → IsFinished (x ∷ xs) t results end_ s
  IsFinished-cons x xs t results r s₁ end_ s one more = record {
    added = r.0 ∷ more.added;
    appended = more.appended ∙ append_assoc results (r.0 ∷ []) more.added;
    reports = (one.id, one.name, one.sound, more.reports);
    totals = more.totals ∙ ap (λ u. tally u more.added) (tally_one-eq t r.1 r.0 one.accounts);
    held = more.held;
  }

  prune_targets-IsFinished :
      (targets : List (WalPruneTarget CollectionUuid)) (t : Totals)
      (results : List EmbeddedWalPruneCollectionResult) (s : State)
      → Bounded t
      → P s
      → Ends
          (IsFinished targets t results)
          Abort
          (prune_targets w options mode now_secs targets t results s)
  unfolding resume prune_targets
  prune_targets-IsFinished [] t results s b p = record {
    added = [];
    appended = sym (append-nil results);
    reports = tt;
    totals = refl;
    held = p;
  }
  prune_targets-IsFinished (x ∷ xs) t results s b p =
      Ends-resume (IsRound w options mode now_secs P laws keeps x t) (IsFinished (x ∷ xs) t results)
        Abort (prune_target w options mode now_secs x t s) _
        (prune_target-Good w options mode now_secs P laws keeps x t b s p)
        λ r s₁ one.
          Ends-mono (IsFinished xs r.1 (results ++ r.0 ∷ [])) (IsFinished (x ∷ xs) t results) Abort
            Abort _ (λ end_ s₂ more. IsFinished-cons x xs t results r s₁ end_ s₂ one more)
            (λ e s₂ h. h)
            (prune_targets-IsFinished xs r.1 (results ++ r.0 ∷ []) s₁ one.bounded one.held)

abbrev pub no_totals : Totals
no_totals = record {
  candidate_count_total = 0;
  candidate_bytes_total = 0;
  pruned_count_total = 0;
  pruned_bytes_total = 0;
}

no_totals-Bounded : Bounded no_totals
no_totals-Bounded = omega arith

held_at_end :
    (w : WalStore) (options : WalPruneExecutionOptions) (mode : WalPruneFailureMode) (now_secs : ℤ)
    (P : w.State → Type 0) (laws : StoreLaws w) (keeps : Keeps w options P)
    (targets : List (WalPruneTarget w.CollectionUuid))
    (r : Result (List EmbeddedWalPruneCollectionResult × Totals) Text × w.State)
    → Ends
        (IsFinished w options mode now_secs P laws keeps targets no_totals [])
        (IsAbort w options mode now_secs P laws keeps)
        r
    → P r.1
held_at_end w options mode now_secs P laws keeps targets (ok a, s) h = h.held
held_at_end w options mode now_secs P laws keeps targets (err e, s) h = h.held

-- A property of the world that holds at first, survives the reads, and in a wet run survives
-- every purge of a collection up to at most a cutoff that the store reported for it, holds when
-- the loop over the targets ends, also when a failure aborts it. The store's sequence ids are
-- `i64`, and its candidate query filters by the cutoff.
pub prune_targets_safe :
    (w : WalStore) (options : WalPruneExecutionOptions) (mode : WalPruneFailureMode) (now_secs : ℤ)
    (P : w.State → Type 0) (laws : StoreLaws w) (keeps : Keeps w options P)
    (targets : List (WalPruneTarget w.CollectionUuid)) (s : w.State)
    → P s
    → P (prune_targets w options mode now_secs targets no_totals [] s).1
prune_targets_safe w options mode now_secs P laws keeps targets s p =
    held_at_end w options mode now_secs P laws keeps targets _ (
      prune_targets-IsFinished w options mode now_secs P laws keeps targets no_totals [] s
        no_totals-Bounded p)

-- A loop that returned: its results and totals.
pub record IsComplete (w : WalStore) (targets : List (WalPruneTarget w.CollectionUuid))
    (r : Result (List EmbeddedWalPruneCollectionResult × Totals) Text × w.State) : Type 0 where
  pub results : List EmbeddedWalPruneCollectionResult
  pub returned : r.0 ≡ ok (results, tally no_totals results)
  pub reports : Reports w targets results

always_kept : (w : WalStore) (options : WalPruneExecutionOptions) → Keeps w options (λ s. Unit {0})
always_kept w options = record {
  cutoff_read = λ id s p. tt;
  rows_read = λ id c s p. tt;
  purge = λ id n v s d r l p. tt;
}

IsComplete-of_finished :
    (w : WalStore) (options : WalPruneExecutionOptions) (now_secs : ℤ) (laws : StoreLaws w)
    (targets : List (WalPruneTarget w.CollectionUuid))
    (r : Result (List EmbeddedWalPruneCollectionResult × Totals) Text × w.State)
    → Ends
        (IsFinished w options continue_on_error now_secs
          (λ s. Unit {0})
          laws
          (always_kept w options)
          targets
          no_totals
          [])
        (IsAbort w options continue_on_error now_secs (λ s. Unit {0}) laws (always_kept w options))
        r
    → IsComplete w targets r
IsComplete-of_finished w options now_secs laws targets (ok end_, s) h = record {
  results = h.added;
  returned = λ i. ok (h.appended i, h.totals i);
  reports = h.reports;
}
IsComplete-of_finished w options now_secs laws targets (err e, s) h =
    let bad : ⊥ = cc h.fast in absurd bad

-- The loop in the mode that continues on errors returns, whatever the store answers, with one
-- result for each target in order, none of which reports more rows or bytes pruned than
-- candidates, and with the totals of those results. The store's sequence ids are `i64`, and its
-- candidate query filters by the cutoff.
pub prune_targets_total :
    (w : WalStore) (options : WalPruneExecutionOptions) (now_secs : ℤ) (laws : StoreLaws w)
    (targets : List (WalPruneTarget w.CollectionUuid)) (s : w.State)
    → IsComplete w targets
        (prune_targets w options continue_on_error now_secs targets no_totals [] s)
prune_targets_total w options now_secs laws targets s =
    IsComplete-of_finished w options now_secs laws targets _ (
      prune_targets-IsFinished w options continue_on_error now_secs (λ s. Unit {0}) laws
        (always_kept w options) targets no_totals [] s no_totals-Bounded tt)
