-- ===== src/Compact/Rounds.antt =====
-- One round of `run_explicit_compaction` of shim/src/lib.rs: what it reports of its collection, and
-- what it asks of the compaction manager.
use chroma_go_local.Base.{
  ℕ, ◌≡◌, refl, ap, subst, not, Option, none, some, is_some, Result, ok, err, String,
}
use chroma_go_local.Base.Actions.{
  Ends, Ends-resume, Ends-caught, Ends-mono, Ends-both, Ends-call, Keep, resume, caught, mapped,
}
use chroma_go_local.Base.Text.{Text}
use chroma_go_local.Compact.{
  Compactor, CompactionTarget, EmbeddedCompactionCollectionResult, CompactionFailureMode, fail_fast,
  continue_on_error, PendingOps, PendingTotals, add_pending, Target, pending_of, read_pending_ops,
  request, compact_logs, Round, settle, compact_target, fail_or_push, failed_result,
}

-- A count or a warning, never both.
abbrev pub IsPending : Option ℕ → Option Text → Type 0
IsPending count warning = is_some count ≡ not (is_some warning)

-- After a failure there is neither.
abbrev pub IsEnd : Option Text → Option ℕ → Option Text → Type 0
IsEnd none count warning = IsPending count warning
IsEnd (some e) count warning = (count ≡ none) × (warning ≡ none)

pub record IsReport {U D : Type 0} (show_uuid : U → Text) (target : CompactionTarget U D)
    (r : EmbeddedCompactionCollectionResult) : Type 0 where
  pub id : r.collection_id ≡ show_uuid target.collection_id
  pub name : r.name ≡ target.name
  pub tenant : r.tenant_id ≡ target.tenant_id
  pub database : r.database_name ≡ target.database_name_raw
  pub before : IsPending r.pending_ops_before r.pending_ops_before_error
  pub after : IsEnd r.error r.pending_ops_after r.pending_ops_after_error

-- What a result adds to the totals.
abbrev pub tally_one : PendingTotals → EmbeddedCompactionCollectionResult → PendingTotals
tally_one t r = record {
  before = add_pending t.before r.pending_ops_before;
  after = add_pending t.after r.pending_ops_after;
}

module _ (c : Compactor) (P : c.State → Type 0) where
  open c use {State, CollectionUuid, DatabaseName}

  -- The state is one that a successful backfill of the collection has just left.
  pub record IsBackfilled (collection_id : CollectionUuid) (s : State) : Type 0 where
    pub from_ : State
    pub done : c.backfill collection_id from_ ≡ (ok (ok tt), s)

  -- `P` survives the reads and the backfills, and a purge right after a successful backfill.
  pub record Compacts : Type 0 where
    pub status : (d : DatabaseName) (id : CollectionUuid) → Keep P (c.indexing_status d id)
    pub backfill : (id : CollectionUuid) → Keep P (c.backfill id)
    pub purge :
        (id : CollectionUuid) (s : State) → IsBackfilled id s → P s → P (c.purge_logs id s).1

  -- The round reported its target, added its counts, and was not stopped by a failure.
  pub record IsRound (mode : CompactionFailureMode) (target : Target c) (t : PendingTotals)
      (r : Round c) (s : State) : Type 0 where
    pub report : IsReport c.show_uuid target r.0
    pub totals : r.1 ≡ tally_one t r.0
    pub fast : mode ≡ fail_fast → r.0.error ≡ none
    pub held : P s

  pub record IsAbort (mode : CompactionFailureMode) (e : Text) (s : State) : Type 0 where
    pub fast : mode ≡ fail_fast
    pub held : P s

module _ (c : Compactor) (P : c.State → Type 0) (keeps : Compacts c P) where
  open c use {State, CollectionUuid}

  IsPending-pending_of :
      (moment : String) (target : Target c) (r : Result ℕ Text)
      → let p = pending_of c moment target r in IsPending p.count p.warning
  unfolding pending_of
  IsPending-pending_of moment target (ok n) = refl
  IsPending-pending_of moment target (err e) = refl

  pub read_pending_ops-Ends :
      (R : Text → State → Type 0) (moment : String) (target : Target c) (s : State)
      → P s
      → Ends (λ p s₁. IsPending p.count p.warning × P s₁) R (read_pending_ops c moment target s)
  unfolding read_pending_ops caught resume
  read_pending_ops-Ends R moment target s p = (
    IsPending-pending_of moment target _,
    (keeps.status target.database_name target.collection_id).apply s p,
  )

  -- What the manager answered to a message that was sent.
  answer-Ends :
      (f : Text → Text) (sent : Result (Result (Unit {0}) Text) Text × State)
      (answer : Result (Unit {0}) Text) (s : State)
      → P s
      → sent ≡ (ok answer, s)
      → Ends (λ u s₁. (sent ≡ (ok (ok tt), s₁)) × P s₁) (λ e s₁. P s₁) (mapped f (answer, s))
  unfolding mapped
  answer-Ends f sent (ok u) s p e = (e, p)
  answer-Ends f sent (err x) s p e = p

  pub request-Ends :
      (message : String) (id : CollectionUuid)
      (send : State → Result (Result (Unit {0}) Text) Text × State) (s : State)
      → P (send s).1
      → Ends
          (λ u s₁. (send s ≡ (ok (ok tt), s₁)) × P s₁)
          (λ e s₁. P s₁)
          (request c message id send s)
  unfolding request
  request-Ends message id send s p =
      Ends-call (λ u s₁. (send s ≡ (ok (ok tt), s₁)) × P s₁) (λ e s₁. P s₁) _ (send s) _
        (λ answer s₁ e. answer-Ends _ (send s) answer s₁ (subst P (ap (λ r. r.1) e) p) e)
        (λ x s₁ e. subst P (ap (λ r. r.1) e) p)

  pub compact_logs-Ends :
      (id : CollectionUuid) (s : State)
      → P s
      → Ends (λ u s₁. P s₁) (λ e s₁. P s₁) (compact_logs c id s)
  unfolding compact_logs
  compact_logs-Ends id s p =
      Ends-resume (λ u s₁. (c.backfill id s ≡ (ok (ok tt), s₁)) × P s₁) (λ u s₁. P s₁)
        (λ e s₁. P s₁) _ _
        (request-Ends "backfill" id (c.backfill id) s ((keeps.backfill id).apply s p))
        λ u s₁ (e, q).
          Ends-mono _ (λ u s₂. P s₂) (λ e s₂. P s₂) (λ e s₂. P s₂) _ (λ u s₂ h. h.1) (λ e s₂ h. h)
            (request-Ends "purge" id (c.purge_logs id) s₁
              (keeps.purge id s₁ (record { from_ = s; done = e }) q))

  failed-Ends :
      (mode : CompactionFailureMode) (target : Target c) (t : PendingTotals) (before : PendingOps)
      (error : Text) (s : State)
      → IsPending before.count before.warning
      → P s
      → Ends (IsRound c P mode target t) (IsAbort c P mode) (
          fail_or_push c mode error
            (
              failed_result c target before error,
              record t { before = add_pending t.before before.count },
            )
            s)
  unfolding fail_or_push add_pending
  failed-Ends fail_fast target t before error s b p = record { fast = refl; held = p }
  failed-Ends continue_on_error target t before error s b p = record {
    report = record {
      id = refl;
      name = refl;
      tenant = refl;
      database = refl;
      before = b;
      after = (refl, refl);
    };
    totals = refl;
    fast = λ e. cc e;
    held = p;
  }

  module _ (mode : CompactionFailureMode) (target : Target c) (t : PendingTotals) where
    settle-Ends :
        (before : PendingOps) (r : Result (Unit {0}) Text) (s : State)
        → IsPending before.count before.warning
        → P s
        → Ends (IsRound c P mode target t) (IsAbort c P mode) (
            settle c mode target before
              (record t { before = add_pending t.before before.count })
              r
              s)
    unfolding settle
    settle-Ends before (err e) s b p = failed-Ends mode target t before e s b p
    settle-Ends before (ok done) s b p =
        Ends-resume (λ a s₁. IsPending a.count a.warning × P s₁) (IsRound c P mode target t)
          (IsAbort c P mode) _ _ (read_pending_ops-Ends (IsAbort c P mode) "after" target s p)
          λ after s₁ (a, q). record {
            report = record {
              id = refl;
              name = refl;
              tenant = refl;
              database = refl;
              before = b;
              after = a;
            };
            totals = refl;
            fast = λ e. refl;
            held = q;
          }

    pub compact_target-Ends :
        (s : State)
        → P s
        → Ends (IsRound c P mode target t) (IsAbort c P mode) (compact_target c mode target t s)
    unfolding compact_target
    compact_target-Ends s p =
        Ends-resume (λ a s₁. IsPending a.count a.warning × P s₁) (IsRound c P mode target t)
          (IsAbort c P mode) _ _ (read_pending_ops-Ends (IsAbort c P mode) "before" target s p)
          λ before s₁ (b, q).
            Ends-resume (λ r s₂. P s₂) (IsRound c P mode target t) (IsAbort c P mode) _ _
              (Ends-caught (λ r s₂. P s₂) (IsAbort c P mode)
                (compact_logs c target.collection_id s₁)
                (Ends-both P _ (compact_logs-Ends target.collection_id s₁ q)))
              λ done s₂ h. settle-Ends before done s₂ b h

pub any-Compacts : (c : Compactor) → Compacts c (λ s. Unit {0})
any-Compacts c = record {
  status = λ d id. record { apply = λ s p. tt };
  backfill = λ id. record { apply = λ s p. tt };
  purge = λ id s b p. tt;
}
