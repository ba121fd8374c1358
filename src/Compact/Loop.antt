-- ===== src/Compact/Loop.antt =====
-- The loop of `run_explicit_compaction` of shim/src/lib.rs and the response: what is reported, and what
-- is purged.
use mathlib.Core.List.{append_assoc, append-nil}
use chroma_go_local.Base.{
  ◌≡◌, refl, sym, ◌∙◌, ap, subst, ◌⊎◌, inl, inr, none, List, [], ◌∷◌, ◌++◌, length, Result, ok, err,
  All,
}
use chroma_go_local.Base.Actions.{Ends, Ends-resume, Ends-mono, Ends-call, resume, when}
use chroma_go_local.Base.Text.{Text}
use chroma_go_local.Base.Words.{clamp_u64}
use chroma_go_local.Compact.{
  Compactor, EmbeddedCompactionCollectionResult, EmbeddedCompactionResponse, CompactionFailureMode,
  fail_fast, continue_on_error, PendingTotals, Target, Round, compact_targets, respond, get_manager,
  run_explicit_compaction,
}
use chroma_go_local.Compact.Rounds.{
  IsReport, tally_one, Compacts, IsRound, IsAbort, compact_target-Ends, any-Compacts,
}

-- The totals that a list of results reports.
abbrev pub tally : PendingTotals → List EmbeddedCompactionCollectionResult → PendingTotals
tally t [] = t
tally t (r ∷ rs) = tally (tally_one t r) rs

-- One report for each target, in order.
abbrev pub Reports :
    (c : Compactor) → List (Target c) → List EmbeddedCompactionCollectionResult → Type 0
Reports c [] [] = Unit {0}
Reports c [] (r ∷ rs) = ⊥
Reports c (x ∷ xs) [] = ⊥
Reports c (x ∷ xs) (r ∷ rs) = IsReport c.show_uuid x r × Reports c xs rs

abbrev pub no_pending : PendingTotals
no_pending = record { before = 0; after = 0 }

-- A response to the targets.
pub record IsResponse (c : Compactor) (targets : List (Target c)) (r : EmbeddedCompactionResponse)
    : Type 0 where
  pub counted : r.collection_count ≡ clamp_u64 (length r.collections)
  pub reports : Reports c targets r.collections
  pub before : r.pending_ops_before_total ≡ (tally no_pending r.collections).before
  pub after : r.pending_ops_after_total ≡ (tally no_pending r.collections).after

-- A result with no error.
abbrev pub IsClean : EmbeddedCompactionCollectionResult → Type 0
IsClean r = r.error ≡ none

module _ (c : Compactor) (P : c.State → Type 0) (keeps : Compacts c P)
    (mode : CompactionFailureMode) where
  open c use {State}

  abbrev End : Type 0
  End = List EmbeddedCompactionCollectionResult × PendingTotals

  record IsFinished (targets : List (Target c)) (t : PendingTotals)
      (results : List EmbeddedCompactionCollectionResult) (end_ : End) (s : State) : Type 0 where
    added : List EmbeddedCompactionCollectionResult
    appended : end_.0 ≡ results ++ added
    reports : Reports c targets added
    totals : end_.1 ≡ tally t added
    fast : mode ≡ fail_fast → All IsClean added
    held : P s

  IsFinished-cons :
      (x : Target c) (xs : List (Target c)) (t : PendingTotals)
      (results : List EmbeddedCompactionCollectionResult) (r : Round c) (s₁ : State) (end_ : End)
      (s : State)
      → IsRound c P mode x t r s₁
      → IsFinished xs r.1 (results ++ r.0 ∷ []) end_ s
      → IsFinished (x ∷ xs) t results end_ s
  IsFinished-cons x xs t results r s₁ end_ s one more = record {
    added = r.0 ∷ more.added;
    appended = more.appended ∙ append_assoc results (r.0 ∷ []) more.added;
    reports = (one.report, more.reports);
    totals = more.totals ∙ ap (λ u. tally u more.added) one.totals;
    fast = λ e. (one.fast e, more.fast e);
    held = more.held;
  }

  compact_targets-Ends :
      (targets : List (Target c)) (t : PendingTotals)
      (results : List EmbeddedCompactionCollectionResult) (s : State)
      → P s
      → Ends
          (IsFinished targets t results)
          (IsAbort c P mode)
          (compact_targets c mode targets t results s)
  unfolding compact_targets resume
  compact_targets-Ends [] t results s p = record {
    added = [];
    appended = sym (append-nil results);
    reports = tt;
    totals = refl;
    fast = λ e. tt;
    held = p;
  }
  compact_targets-Ends (x ∷ xs) t results s p =
      Ends-resume (IsRound c P mode x t) (IsFinished (x ∷ xs) t results) (IsAbort c P mode) _ _
        (compact_target-Ends c P keeps mode x t s p)
        λ r s₁ one.
          Ends-mono (IsFinished xs r.1 (results ++ r.0 ∷ [])) (IsFinished (x ∷ xs) t results)
            (IsAbort c P mode) (IsAbort c P mode) _
            (λ end_ s₂ more. IsFinished-cons x xs t results r s₁ end_ s₂ one more) (λ e s₂ h. h)
            (compact_targets-Ends xs r.1 (results ++ r.0 ∷ []) s₁ one.held)

  record IsGood (targets : List (Target c)) (r : EmbeddedCompactionResponse) (s : State)
      : Type 0 where
    response : IsResponse c targets r
    fast : mode ≡ fail_fast → All IsClean r.collections
    held : P s

  respond-Ends :
      (targets : List (Target c)) (end_ : End) (s : State)
      → IsFinished targets no_pending [] end_ s
      → Ends (IsGood targets) (IsAbort c P mode) (respond c end_ s)
  unfolding respond
  respond-Ends targets end_ s f = record {
    response = record {
      counted = refl;
      reports = subst (Reports c targets) (sym f.appended) f.reports;
      before =
          ap (λ t. t.before) f.totals ∙ ap (λ rs. (tally no_pending rs).before) (sym f.appended);
      after = ap (λ t. t.after) f.totals ∙ ap (λ rs. (tally no_pending rs).after) (sym f.appended);
    };
    fast = λ e. subst (All IsClean) (sym f.appended) (f.fast e);
    held = f.held;
  }

  -- A run fails if the manager is not there, or in the mode that stops at a failure.
  IsRefused : State → Text → State → Type 0
  IsRefused s e s₁ =
      (((x : Text) × (c.get_compaction_manager s ≡ err x)) ⊎ (mode ≡ fail_fast)) × P s₁

  go-Ends :
      (targets : List (Target c)) (s₀ s : State)
      → P s
      → Ends
          (IsGood targets)
          (IsRefused s₀)
          (resume (compact_targets c mode targets no_pending [] s) (respond c))
  unfolding IsRefused
  go-Ends targets s₀ s p =
      Ends-resume (IsFinished targets no_pending []) (IsGood targets) (IsRefused s₀) _ _
        (Ends-mono (IsFinished targets no_pending []) (IsFinished targets no_pending [])
          (IsAbort c P mode) (IsRefused s₀) _ (λ e s₁ h. h) (λ e s₁ h. (inr h.fast, h.held))
          (compact_targets-Ends targets no_pending [] s p))
        λ end_ s₁ f.
          Ends-mono (IsGood targets) (IsGood targets) (IsAbort c P mode) (IsRefused s₀) _
            (λ e s₂ h. h) (λ e s₂ h. (inr h.fast, h.held)) (respond-Ends targets end_ s₁ f)

  run-Ends :
      (targets : List (Target c)) (s : State)
      → P s
      → Ends (IsGood targets) (IsRefused s) (run_explicit_compaction c targets mode s)
  unfolding run_explicit_compaction when get_manager IsRefused clamp_u64
  run-Ends [] s p = record {
    response = record { counted = refl; reports = tt; before = refl; after = refl };
    fast = λ e. tt;
    held = p;
  }
  run-Ends (x ∷ xs) s p =
      Ends-call (IsGood (x ∷ xs)) (IsRefused s) _ (c.get_compaction_manager s, s) _
        (λ u s₁ e. go-Ends (x ∷ xs) s s₁ (subst P (ap (λ r. r.1) e) p))
        (λ e s₁ q. (inl (e, ap (λ r. r.0) q), subst P (ap (λ r. r.1) q) p))

  held_at_end :
      (targets : List (Target c)) (s : State) (r : Result EmbeddedCompactionResponse Text × State)
      → Ends (IsGood targets) (IsRefused s) r
      → P r.1
  unfolding IsRefused
  held_at_end targets s (ok a, s₁) h = h.held
  held_at_end targets s (err e, s₁) h = h.1

  -- A property of the world that holds at first, survives the status reads and the backfills, and
  -- survives the purge of a collection in a state that a successful backfill of that collection has
  -- just left, holds after an explicit compaction, in both modes, also after one that failed.
  pub run_explicit_compaction_safe :
      (targets : List (Target c)) (s : State) → P s → P (run_explicit_compaction c targets mode s).1
  run_explicit_compaction_safe targets s p = held_at_end targets s _ (run-Ends targets s p)

-- An outcome with a response to the targets.
pub record IsAnswered (c : Compactor) (targets : List (Target c))
    (r : Result EmbeddedCompactionResponse Text × c.State) : Type 0 where
  pub response : EmbeddedCompactionResponse
  pub returned : r.0 ≡ ok response
  pub answers : IsResponse c targets response

module _ (c : Compactor) (targets : List (Target c)) (s : c.State) where
  IsAnswered-of :
      c.get_compaction_manager s ≡ ok tt
      → (r : Result EmbeddedCompactionResponse Text × c.State)
      → Ends
          (IsGood c (λ s. Unit {0}) (any-Compacts c) continue_on_error targets)
          (IsRefused c (λ s. Unit {0}) (any-Compacts c) continue_on_error s)
          r
      → IsAnswered c targets r
  unfolding IsRefused
  IsAnswered-of there (ok a, s₁) h = record { response = a; returned = refl; answers = h.response }
  IsAnswered-of there (err e, s₁) (inl (x, q), u) = let bad : ⊥ = cc (there, q) in absurd bad
  IsAnswered-of there (err e, s₁) (inr q, u) = let bad : ⊥ = cc q in absurd bad

  -- With the manager there, a compaction that continues on errors returns, whatever the backfills,
  -- the purges and the status reads answer: one result for each target, in order and with its
  -- names, each with a count or a warning from before and, unless it has an error, from after,
  -- totals that are the saturating sums of the counts, and the number of results.
  pub run_explicit_compaction_total :
      c.get_compaction_manager s ≡ ok tt
      → IsAnswered c targets (run_explicit_compaction c targets continue_on_error s)
  run_explicit_compaction_total there =
      IsAnswered-of there _
        (run-Ends c (λ s. Unit {0}) (any-Compacts c) continue_on_error targets s tt)

  IsClean-of :
      (r : Result EmbeddedCompactionResponse Text × c.State)
      → Ends
          (IsGood c (λ s. Unit {0}) (any-Compacts c) fail_fast targets)
          (IsRefused c (λ s. Unit {0}) (any-Compacts c) fail_fast s)
          r
      → (a : EmbeddedCompactionResponse) → r.0 ≡ ok a
      → IsResponse c targets a × All IsClean a.collections
  IsClean-of (ok b, s₁) h a e =
      subst (λ x. IsResponse c targets x × All IsClean x.collections) (cc e)
        (h.response, h.fast refl)
  IsClean-of (err x, s₁) h a e = let bad : ⊥ = cc e in absurd bad

  pub fail_fast-IsClean :
      (a : EmbeddedCompactionResponse)
      → (run_explicit_compaction c targets fail_fast s).0 ≡ ok a
      → IsResponse c targets a × All IsClean a.collections
  fail_fast-IsClean =
      IsClean-of _ (run-Ends c (λ s. Unit {0}) (any-Compacts c) fail_fast targets s tt)
