-- ===== src/Wal/Run.antt =====
-- The whole of `run_explicit_wal_prune` of shim/src/lib.rs, with the migration of `max_seq_id`,
-- the auto purge setting and the VACUUM that go with it.
use chroma_go_local.Base.{
  ℕ, ◌<◌, min, Bool, true, false, not, ◌&&◌, Option, none, some, List, [], ◌∷◌, ◌++◌, ltb, ◌==◌,
  length, is_empty, Result, ok, err,
}
use chroma_go_local.Base.Actions.{Action, pure, fail, ◌>>=◌, ◌>>◌, lift, when, map_err, attempt}
use chroma_go_local.Base.Int.{ℤ, pos, i64_max}
use chroma_go_local.Base.Text.{Text, text}
use chroma_go_local.Base.Words.{clamp_u64}
use chroma_go_local.Wal.Policy.{WalPruneExecutionOptions}
use chroma_go_local.Wal.Prune.{
  WalStore, WalPruneFailureMode, WalPruneTarget, EmbeddedWalPruneCollectionResult, Totals,
}
use chroma_go_local.Wal.Prune.Target.{prune_targets}
use chroma_go_local.Wal.Prune.Loop.{no_totals}
pub mod Safety
pub mod Reports

-- What the run needs of the registry, the catalogue, the clock and SQLite beside the loop's calls.
pub record WalHost : Type 1 where
  pub store : WalStore
  pub open store use {State, CollectionUuid, Row}
  pub Collection : Type 0
  pub get_sqlite : State → Result (Unit {0}) Text
  pub get_segment_manager : State → Result (Unit {0}) Text
  pub get_sysdb : State → Result (Unit {0}) Text
  pub get_log : State → Result (Unit {0}) Text
  -- `SELECT collection FROM segments WHERE id NOT IN (SELECT segment_id FROM max_seq_id) ...`
  pub fetch_unmigrated : Action State Text (List Row)
  pub collection_column : Row → Result Text Text
  pub uuid_from_str : Text → Result CollectionUuid Text
  pub get_collection_with_segments : CollectionUuid → Action State Text Collection
  pub dimension : Collection → Option ℕ
  pub get_hnsw_writer : Collection → ℕ → Action State Text (Unit {0})
  pub is_sqlite_log : State → Bool
  pub update_legacy_embeddings_queue_config : Action State Text (Unit {0})
  pub unix_seconds : State → Result ℕ Text
  pub elapsed_ms : State → ℕ
  pub read_busy_timeout : Action State Text (Option ℤ)
  pub set_busy_timeout : ℤ → Action State Text (Unit {0})
  pub vacuum : Action State Text (Unit {0})

pub record EmbeddedWalPruneResponse : Type 0 where
  pub collection_count : ℕ
  pub duration_ms : ℕ
  pub dry_run : Bool
  pub vacuum_requested : Bool
  pub vacuum_executed : Bool
  pub warnings : List Text
  pub totals : Totals
  pub collections : List EmbeddedWalPruneCollectionResult

-- `.ok().flatten()`
abbrev pub flatten_ok : Result (Option ℤ) Text → Option ℤ
flatten_ok (ok v) = v
flatten_ok (err e) = none

-- `now_secs`, as an `i64`.
clock_value : Result ℕ Text → Result ℤ Text
clock_value (ok now) = ok (pos (min now i64_max))
clock_value (err e) = err e

module _ (h : WalHost) where
  open h use {
    store, State, CollectionUuid, Row, Collection, get_sqlite, get_segment_manager, get_sysdb,
    get_log, fetch_unmigrated, collection_column, uuid_from_str, get_collection_with_segments,
    dimension, get_hnsw_writer, is_sqlite_log, update_legacy_embeddings_queue_config, unix_seconds,
    elapsed_ms, read_busy_timeout, set_busy_timeout, vacuum,
  }

  -- A registry lookup reads the world and leaves it alone.
  abbrev pub look_up : Text → (State → Result (Unit {0}) Text) → Action State Text (Unit {0})
  look_up label get s = map_err (λ e. label ++ e) (lift (get s)) s

  unfoldable pub parse_collection_ids : List Row → Action State Text (List CollectionUuid)
  parse_collection_ids [] = pure []
  parse_collection_ids (row ∷ rows) = do
    raw ←
        map_err (λ e. text "failed to decode missing max_seq_id row: " ++ e)
          (lift (collection_column row))
    id ←
        map_err (λ e. text "invalid collection id in segments table: " ++ e)
          (lift (uuid_from_str raw))
    ids ← parse_collection_ids rows
    pure (id ∷ ids)

  unfoldable pub get_collection_ids_to_migrate : Action State Text (List CollectionUuid)
  get_collection_ids_to_migrate = do
    rows ← map_err (λ e. text "failed to list segments missing max_seq_id: " ++ e) fetch_unmigrated
    parse_collection_ids rows

  -- A collection with no dimension has no sequence id to write down.
  unfoldable pub open_writer : Collection → Action State Text (Unit {0})
  open_writer collection = elim (dimension collection) [
    | none ↦ pure tt
    | some dim ↦
        map_err (λ e. text "failed to initialize hnsw writer for migration: " ++ e)
          (get_hnsw_writer collection dim)
  ]

  unfoldable pub migrate_each : List CollectionUuid → Action State Text (Unit {0})
  migrate_each [] = pure tt
  migrate_each (id ∷ ids) = do
    collection ←
        map_err (λ e. text "failed to load collection for max_seq_id migration: " ++ e)
          (get_collection_with_segments id)
    open_writer collection
    migrate_each ids

  unfoldable pub trigger_vector_segments_max_seq_id_migration : Action State Text (Unit {0})
  trigger_vector_segments_max_seq_id_migration = do
    ids ← get_collection_ids_to_migrate
    migrate_each ids

  unfoldable pub configure_sqlite_log_auto_purge : Action State Text (Unit {0})
  configure_sqlite_log_auto_purge s =
      when (is_sqlite_log s)
        (map_err (λ e. text "failed to configure sqlite log auto purge: " ++ e)
          update_legacy_embeddings_queue_config)
        (fail (text "expected a sqlite log for wal prune")) s

  -- What the VACUUM came to: whether it ran, and the warnings.
  abbrev pub Vacuumed : Type 0
  Vacuumed = Bool × List Text

  abbrev pub vacuumed : Result (Unit {0}) Text → Vacuumed
  vacuumed (ok done) = (true, [])
  vacuumed (err e) = (false, (text "wal prune completed, but sqlite VACUUM failed: " ++ e) ∷ [])

  unfoldable pub try_vacuum : Result (Unit {0}) Text → Action State Text Vacuumed
  try_vacuum (ok done) = do r ← attempt vacuum; pure (vacuumed r)
  try_vacuum (err e) = pure (
    false,
    (text
            "wal prune completed, but sqlite VACUUM was skipped because busy_timeout configuration failed: "
          ++ e)
        ∷ [],
  )

  unfoldable pub restore_timeout : Option ℤ → Action State Text (Result (Unit {0}) Text)
  restore_timeout none = pure (ok tt)
  restore_timeout (some timeout) = attempt (set_busy_timeout timeout)

  unfoldable pub run_vacuum : Action State Text Vacuumed
  run_vacuum = do
    prev ← attempt read_busy_timeout
    configured ← attempt (set_busy_timeout (pos 5000))
    outcome ← try_vacuum configured
    restored ← restore_timeout (flatten_ok prev)
    pure outcome

  unfoldable pub vacuum_step : WalPruneExecutionOptions → ℕ → Action State Text Vacuumed
  vacuum_step options pruned_count_total =
      when (not options.dry_run && options.vacuum)
        (when (ltb 0 pruned_count_total) run_vacuum (
          pure (
            false,
            text "wal prune completed, but sqlite VACUUM was skipped because no rows were pruned"
                ∷ [],
          )))
        (pure (false, []))

  unfoldable pub empty_response : WalPruneExecutionOptions → EmbeddedWalPruneResponse
  empty_response options = record {
    collection_count = 0;
    duration_ms = 0;
    dry_run = options.dry_run;
    vacuum_requested = options.vacuum;
    vacuum_executed = false;
    warnings = [];
    totals = no_totals;
    collections = [];
  }

  unfoldable pub read_clock : Action State Text ℤ
  unfolding clock_value
  read_clock s =
      map_err (λ e. text "system clock is before UNIX epoch: " ++ e)
        (lift (clock_value (unix_seconds s))) s

  -- Everything before the loop.
  unfoldable pub prepare : WalPruneExecutionOptions → Action State Text ℤ
  prepare options = do
    look_up (text "sqlite db unavailable: ") get_sqlite
    look_up (text "local segment manager unavailable: ") get_segment_manager
    look_up (text "sysdb unavailable: ") get_sysdb
    look_up (text "log unavailable: ") get_log
    trigger_vector_segments_max_seq_id_migration
    when options.dry_run (pure tt) configure_sqlite_log_auto_purge
    read_clock

  -- Everything after it.
  unfoldable pub finish :
      WalPruneExecutionOptions
      → List EmbeddedWalPruneCollectionResult
      → Totals
      → Action State Text EmbeddedWalPruneResponse
  finish options results totals = do
    outcome ← vacuum_step options totals.pruned_count_total
    λ s.
        pure
          (record {
            collection_count = clamp_u64 (length results);
            duration_ms = clamp_u64 (elapsed_ms s);
            dry_run = options.dry_run;
            vacuum_requested = options.vacuum;
            vacuum_executed = outcome.0;
            warnings = outcome.1;
            totals = totals;
            collections = results;
          })
          s

  unfoldable pub run_explicit_wal_prune :
      List (WalPruneTarget CollectionUuid)
      → WalPruneExecutionOptions
      → WalPruneFailureMode
      → Action State Text EmbeddedWalPruneResponse
  run_explicit_wal_prune targets options mode =
      when (is_empty targets) (pure (empty_response options)) (do
        now_secs ← prepare options
        (results, totals) ← prune_targets store options mode now_secs targets no_totals []
        finish options results totals)
