-- ===== src/Compact.antt =====
-- `run_explicit_compaction` of shim/src/lib.rs: its types and the loop over the targets. The
-- frontend, the compaction manager and the clock are the fields of `Compactor`; an error of theirs
-- is its text. The lines that the source prints to stderr are left out.
use chroma_go_local.Base.{
  ℕ, Option, none, some, List, [], ◌∷◌, ◌++◌, length, is_empty, Result, ok, err, map_ok, String,
}
use chroma_go_local.Base.Actions.{Action, pure, fail, ◌>>=◌, ◌>>◌, lift, when, map_err, attempt}
use chroma_go_local.Base.Text.{Text, text}
use chroma_go_local.Base.Words.{saturating_add, clamp_u64}
use chroma_go_local.Ffi.Names.{parse_database_name}
pub mod Rounds
pub mod Loop
pub mod FailFast
pub mod Endpoints

-- A request to the manager can fail to be sent, and it can be answered by an error.
pub record Compactor : Type 1 where
  pub State : Type 0
  pub CollectionUuid : Type 0
  pub DatabaseName : Type 0
  pub show_uuid : CollectionUuid → Text
  pub get_compaction_manager : State → Result (Unit {0}) Text
  -- `num_unindexed_ops` of the status.
  pub indexing_status : DatabaseName → CollectionUuid → Action State Text ℕ
  -- `BackfillMessage` and `PurgeLogsMessage`.
  pub backfill : CollectionUuid → Action State Text (Result (Unit {0}) Text)
  pub purge_logs : CollectionUuid → Action State Text (Result (Unit {0}) Text)
  pub elapsed_ms : State → ℕ

pub record CompactionTarget (Uuid Name : Type 0) : Type 0 where
  pub collection_id : Uuid
  pub name : Text
  pub tenant_id : Text
  pub database_name : Name
  pub database_name_raw : Text

pub record EmbeddedCompactionCollectionResult : Type 0 where
  pub collection_id : Text
  pub name : Text
  pub tenant_id : Text
  pub database_name : Text
  pub pending_ops_before : Option ℕ
  pub pending_ops_after : Option ℕ
  pub pending_ops_before_error : Option Text
  pub pending_ops_after_error : Option Text
  pub error : Option Text

pub record EmbeddedCompactionResponse : Type 0 where
  pub collection_count : ℕ
  pub duration_ms : ℕ
  pub pending_ops_before_total : ℕ
  pub pending_ops_after_total : ℕ
  pub collections : List EmbeddedCompactionCollectionResult

pub data CompactionFailureMode : Type 0 where
  fail_fast continue_on_error : CompactionFailureMode

unfoldable pub compaction_target_from_parts :
    {U D : Type 0} → (Text → Option D) → U → Text → Text → Text → Result (CompactionTarget U D) Text
compaction_target_from_parts new collection_id name tenant_id database_name_raw =
    map_ok
      (λ database_name. record {
        collection_id = collection_id;
        name = name;
        tenant_id = tenant_id;
        database_name = database_name;
        database_name_raw = database_name_raw;
      })
      (parse_database_name new database_name_raw)

-- A count of pending operations, or the warning in its place.
pub record PendingOps : Type 0 where
  pub count : Option ℕ
  pub warning : Option Text

unfoldable pub add_pending : ℕ → Option ℕ → ℕ
add_pending total none = total
add_pending total (some value) = saturating_add total value

-- The two running totals of the loop.
pub record PendingTotals : Type 0 where
  pub before : ℕ
  pub after : ℕ

module _ (c : Compactor) where
  open c use {
    State, CollectionUuid, DatabaseName, show_uuid, get_compaction_manager, indexing_status,
    backfill, purge_logs, elapsed_ms,
  }

  abbrev pub Target : Type 0
  Target = CompactionTarget CollectionUuid DatabaseName

  unfoldable pub pending_of : String → Target → Result ℕ Text → PendingOps
  pending_of moment target (ok num_unindexed_ops) = record {
    count = some num_unindexed_ops;
    warning = none;
  }
  pending_of moment target (err e) = record {
    count = none;
    warning = some (
        text "indexing_status failed "
        ++ (text moment
            ++ (text " compaction for "
                ++ (show_uuid target.collection_id
                    ++ (text " (" ++ (target.name ++ (text "): " ++ e)))))));
  }

  unfoldable pub read_pending_ops : String → Target → Action State Text PendingOps
  read_pending_ops moment target = do
    status ← attempt (indexing_status target.database_name target.collection_id)
    pure (pending_of moment target status)

  -- One message: not sent, refused or done.
  unfoldable pub request :
      String
      → CollectionUuid
      → Action State Text (Result (Unit {0}) Text)
      → Action State Text (Unit {0})
  request message collection_id send = do
    answer ←
        map_err
          (λ e.
            text "failed to send "
            ++ (text message
                ++ (text " message for collection "
                    ++ (show_uuid collection_id ++ (text ": " ++ e)))))
          send
    map_err
        (λ e.
          text message
          ++ (text " failed for collection " ++ (show_uuid collection_id ++ (text ": " ++ e))))
        (lift answer)

  unfoldable pub compact_logs : CollectionUuid → Action State Text (Unit {0})
  compact_logs collection_id = do
    request "backfill" collection_id (backfill collection_id)
    request "purge" collection_id (purge_logs collection_id)

  abbrev pub Round : Type 0
  Round = EmbeddedCompactionCollectionResult × PendingTotals

  abbrev pub failed_result : Target → PendingOps → Text → EmbeddedCompactionCollectionResult
  failed_result target before error = record {
    collection_id = show_uuid target.collection_id;
    name = target.name;
    tenant_id = target.tenant_id;
    database_name = target.database_name_raw;
    pending_ops_before = before.count;
    pending_ops_after = none;
    pending_ops_before_error = before.warning;
    pending_ops_after_error = none;
    error = some error;
  }

  abbrev pub compacted_result :
      Target → PendingOps → PendingOps → EmbeddedCompactionCollectionResult
  compacted_result target before after = record {
    collection_id = show_uuid target.collection_id;
    name = target.name;
    tenant_id = target.tenant_id;
    database_name = target.database_name_raw;
    pending_ops_before = before.count;
    pending_ops_after = after.count;
    pending_ops_before_error = before.warning;
    pending_ops_after_error = after.warning;
    error = none;
  }

  unfoldable pub fail_or_push : CompactionFailureMode → Text → Round → Action State Text Round
  fail_or_push fail_fast error round_ = fail error
  fail_or_push continue_on_error error round_ = pure round_

  -- From the outcome of the two messages on.
  unfoldable pub settle :
      CompactionFailureMode
      → Target
      → PendingOps
      → PendingTotals
      → Result (Unit {0}) Text
      → Action State Text Round
  settle mode target before totals (err error) =
      fail_or_push mode error (failed_result target before error, totals)
  settle mode target before totals (ok done) = do
    after ← read_pending_ops "after" target
    pure (
      compacted_result target before after,
      record totals { after = add_pending totals.after after.count },
    )

  -- One round of the loop.
  unfoldable pub compact_target :
      CompactionFailureMode → Target → PendingTotals → Action State Text Round
  compact_target mode target totals = do
    before ← read_pending_ops "before" target
    done ← attempt (compact_logs target.collection_id)
    settle mode target before (record totals { before = add_pending totals.before before.count })
        done

  unfoldable pub compact_targets :
      CompactionFailureMode
      → List Target
      → PendingTotals
      → List EmbeddedCompactionCollectionResult
      → Action State Text (List EmbeddedCompactionCollectionResult × PendingTotals)
  compact_targets mode [] totals results = pure (results, totals)
  compact_targets mode (target ∷ targets) totals results = do
    (result, totals') ← compact_target mode target totals
    compact_targets mode targets totals' (results ++ result ∷ [])

  abbrev pub empty_response : EmbeddedCompactionResponse
  empty_response = record {
    collection_count = 0;
    duration_ms = 0;
    pending_ops_before_total = 0;
    pending_ops_after_total = 0;
    collections = [];
  }

  unfoldable pub respond :
      List EmbeddedCompactionCollectionResult × PendingTotals
      → Action State Text EmbeddedCompactionResponse
  respond (results, totals) s =
      pure
        (record {
          collection_count = clamp_u64 (length results);
          duration_ms = clamp_u64 (elapsed_ms s);
          pending_ops_before_total = totals.before;
          pending_ops_after_total = totals.after;
          collections = results;
        })
        s

  unfoldable pub get_manager : Action State Text (Unit {0})
  get_manager s =
      map_err (λ e. text "local compaction manager unavailable: " ++ e)
        (lift (get_compaction_manager s)) s

  unfoldable pub run_explicit_compaction :
      List Target → CompactionFailureMode → Action State Text EmbeddedCompactionResponse
  run_explicit_compaction targets mode = when (is_empty targets) (pure empty_response) (do
    get_manager
    end_ ← compact_targets mode targets (record { before = 0; after = 0 }) []
    respond end_)
