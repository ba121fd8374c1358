-- ===== src/Compact/FailFast.antt =====
-- The mode of `run_explicit_compaction` of shim/src/lib.rs that stops at the first failure.
use chroma_go_local.Base.{◌≡◌, refl, ap, subst, List, [], ◌∷◌, Result, ok, err, All}
use chroma_go_local.Base.Actions.{Ends, Ends-resume, Ends-mono, Ends-call, caught, resume, when}
use chroma_go_local.Base.Text.{Text}
use chroma_go_local.Compact.{
  Compactor, EmbeddedCompactionCollectionResult, EmbeddedCompactionResponse, fail_fast, PendingOps,
  PendingTotals, Target, read_pending_ops, compact_logs, settle, fail_or_push, compact_target,
  compact_targets, respond, get_manager, run_explicit_compaction,
}
use chroma_go_local.Compact.Rounds.{request-Ends, any-Compacts}
use chroma_go_local.Compact.Loop.{IsResponse, IsClean, no_pending, fail_fast-IsClean}

-- Target by target: the status is read, the backfill and then the purge are sent, and both
-- succeed, and the status is read again. The two worlds are those before and after.
pub data IsCompacted (c : Compactor) : List (Target c) → c.State → c.State → Type 0 where
  finished : {s : c.State} → IsCompacted c [] s s
  compacted :
      {x : Target c} {xs : List (Target c)} {s s₁ s₂ s' : c.State}
      → c.backfill x.collection_id (c.indexing_status x.database_name x.collection_id s).1
        ≡ (ok (ok tt), s₁)
      → c.purge_logs x.collection_id s₁ ≡ (ok (ok tt), s₂)
      → IsCompacted c xs (c.indexing_status x.database_name x.collection_id s₂).1 s'
      → IsCompacted c (x ∷ xs) s s'

module _ (c : Compactor) where
  open c use {State, CollectionUuid}

  -- Both messages succeeded.
  record IsLogged (id : CollectionUuid) (s s₂ : State) : Type 0 where
    s₁ : State
    backfilled : c.backfill id s ≡ (ok (ok tt), s₁)
    purged : c.purge_logs id s₁ ≡ (ok (ok tt), s₂)

  Fails : Text → State → Type 0
  Fails e s = Unit {0}

  compact_logs-IsLogged :
      (id : CollectionUuid) (s : State) → Ends (λ u. IsLogged id s) Fails (compact_logs c id s)
  unfolding compact_logs Fails
  compact_logs-IsLogged id s =
      Ends-resume (λ u s₁. (c.backfill id s ≡ (ok (ok tt), s₁)) × Unit {0}) (λ u. IsLogged id s)
        Fails _ _
        (request-Ends c (λ s. Unit {0}) (any-Compacts c) "backfill" id (c.backfill id) s tt)
        λ u s₁ (sent, v).
          Ends-mono _ (λ u. IsLogged id s) _ Fails _
            (λ u s₂ (purged, v). record { s₁ = s₁; backfilled = sent; purged = purged })
            (λ e s₂ v. tt)
            (request-Ends c (λ s. Unit {0}) (any-Compacts c) "purge" id (c.purge_logs id) s₁ tt)

  -- The same of the outcome as a value.
  Logged : CollectionUuid → State → Result (Unit {0}) Text → State → Type 0
  Logged id s (ok u) s₂ = IsLogged id s s₂
  Logged id s (err e) s₂ = Unit {0}

  Logged-of :
      (id : CollectionUuid) (s : State) (r : Result (Unit {0}) Text × State)
      → Ends (λ u. IsLogged id s) Fails r
      → Logged id s r.0 r.1
  unfolding Logged
  Logged-of id s (ok u, s₂) h = h
  Logged-of id s (err e, s₂) h = tt

  module _ (x : Target c) (t : PendingTotals) where
    status : State → State
    status s = (c.indexing_status x.database_name x.collection_id s).1

    -- A round that succeeded.
    record IsDone (s s' : State) : Type 0 where
      s₂ : State
      logged : IsLogged x.collection_id (status s) s₂
      read : s' ≡ status s₂

    settle-IsDone :
        (before : PendingOps) (u : PendingTotals) (r : Result (Unit {0}) Text) (s s₂ : State)
        → Logged x.collection_id (status s) r s₂
        → Ends (λ a. IsDone s) Fails (settle c fail_fast x before u r s₂)
    unfolding settle fail_or_push read_pending_ops status Logged Fails resume caught
    settle-IsDone before u (err e) s s₂ h = tt
    settle-IsDone before u (ok done) s s₂ h = record { s₂ = s₂; logged = h; read = refl }

    compact_target-IsDone :
        (s : State) → Ends (λ a. IsDone s) Fails (compact_target c fail_fast x t s)
    unfolding compact_target read_pending_ops status resume caught
    compact_target-IsDone s = settle-IsDone _ _ _ s _ (
        Logged-of x.collection_id (status s) (compact_logs c x.collection_id (status s))
          (compact_logs-IsLogged x.collection_id (status s)))

  compact_targets-IsCompacted :
      (xs : List (Target c)) (t : PendingTotals) (results : List EmbeddedCompactionCollectionResult)
      (s : State)
      → Ends (λ end_. IsCompacted c xs s) Fails (compact_targets c fail_fast xs t results s)
  unfolding compact_targets status
  compact_targets-IsCompacted [] t results s = finished
  compact_targets-IsCompacted (x ∷ xs) t results s =
      Ends-resume (λ a. IsDone x t s) (λ end_. IsCompacted c (x ∷ xs) s) Fails _ _
        (compact_target-IsDone x t s)
        λ a s₁ one.
          Ends-mono (λ end_. IsCompacted c xs s₁) (λ end_. IsCompacted c (x ∷ xs) s) Fails Fails _
            (λ end_ s' more.
              compacted one.logged.backfilled one.logged.purged
                (subst (λ s₃. IsCompacted c xs s₃ s') one.read more))
            (λ e s' h. h) (compact_targets-IsCompacted xs a.1 _ s₁)

  run-IsCompacted :
      (xs : List (Target c)) (s : State)
      → Ends (λ a. IsCompacted c xs s) Fails (run_explicit_compaction c xs fail_fast s)
  unfolding run_explicit_compaction when get_manager respond Fails
  run-IsCompacted [] s = finished
  run-IsCompacted (x ∷ xs) s =
      Ends-call (λ a. IsCompacted c (x ∷ xs) s) Fails _ (c.get_compaction_manager s, s) _
        (λ u s₁ e.
          Ends-resume (λ end_. IsCompacted c (x ∷ xs) s) (λ a. IsCompacted c (x ∷ xs) s) Fails _ _
            (subst
              (λ s₂.
                Ends (λ end_. IsCompacted c (x ∷ xs) s) Fails
                  (compact_targets c fail_fast (x ∷ xs) no_pending [] s₂))
              (ap (λ r. r.1) e) (compact_targets-IsCompacted (x ∷ xs) _ [] s))
            (λ end_ s₂ h. h))
        (λ e s₁ q. tt)

  IsCompacted-of :
      (xs : List (Target c)) (s s' : State) (a : EmbeddedCompactionResponse)
      (r : Result EmbeddedCompactionResponse Text × State)
      → Ends (λ a. IsCompacted c xs s) Fails r
      → r ≡ (ok a, s')
      → IsCompacted c xs s s'
  IsCompacted-of xs s s' a (ok b, s₁) h e = subst (IsCompacted c xs s) (ap (λ r. r.1) e) h
  IsCompacted-of xs s s' a (err x, s₁) h e = let bad : ⊥ = cc e in absurd bad

  -- A compaction that stops at the first failure hides none: if it returns a response, then the
  -- backfill and the purge of each target succeeded, in this order and target by target, with no
  -- other effects than the status reads around them, and the response reports each target in
  -- order, and none with an error.
  pub run_explicit_compaction_fail_fast :
      (targets : List (Target c)) (s s' : State) (a : EmbeddedCompactionResponse)
      → run_explicit_compaction c targets fail_fast s ≡ (ok a, s')
      → IsCompacted c targets s s' × IsResponse c targets a × All IsClean a.collections
  run_explicit_compaction_fail_fast targets s s' a e =
      let (answers, clean) = fail_fast-IsClean c targets s a (ap (λ r. r.0) e) in
      (IsCompacted-of targets s s' a _ (run-IsCompacted targets s) e, answers, clean)
