-- ===== src/Rebuild/Run.antt =====
-- `run_rebuild_collection` of shim/src/lib.rs: the checks, the precheck, and the rebuild under the guard of
-- its temporary directory.
use chroma_go_local.Base.{
  ℕ, ◌%◌, suc, Bool, true, false, Option, none, some, List, [], ◌∷◌, ◌++◌, length, ltb, is_empty,
  Result, ok, err, ok_or,
}
use chroma_go_local.Base.Actions.{Action, pure, ◌>>=◌, ◌>>◌, lift, when, map_err, mapped, attempt}
use chroma_go_local.Base as Base
use chroma_go_local.Base.Text.{Text, text}
use chroma_go_local.Base.Words.{clamp_u64, u64_max}
use chroma_go_local.Rebuild.Host.{
  RebuildHost, RebuildCollectionIdentity, EmbeddedRebuildCollectionResponse, skipped, prechecked,
  rebuilt_response, hnsw_metadata_filename, next_power_of_two, load_hnsw_id_map, write_hnsw_id_map,
  unique_path_suffix, build_temp_rebuild_dir, swap_rebuilt_index_dir, indexes, guard_remove,
}
use chroma_go_local.Rebuild.IdMap.{HnswIdMap}
use chroma_go_local.Rebuild.Reindex.{
  RebuildRecord, rebuild_records, sort_by_label, rebuild_required_capacity, reindex, rebuilt_id_map,
}
use chroma_go_local.Rebuild.Swap.{FilePath, display}
use chroma_go_local.Rebuild.TempDir.{TempRebuildDirGuard, new, disarm, remove_now, drop_guard}
pub mod Precheck
pub mod Laws
pub mod Building
pub mod Paths
pub mod Kept
pub mod Ending
pub mod Outcome
pub mod Counts

-- `a.or(b)`
unfoldable pub or_option : {A : Type 0} → Option A → Option A → Option A
or_option none b = b
or_option (some a) b = some a

module _ (h : RebuildHost) where
  open h use {
    State, Request, CollectionUuid, Segments, Schema, HnswConfig, IndexConfig, TargetConfig,
    HnswIndex, get_collection, get_sysdb, get_segment_manager, get_collection_with_segments, schema,
    schema_of_config, hnsw_config_of, vector_segment_id, dimension, exists, to_str, index_config,
    load, create_dir, scale, new_persistent, init, capacity, resize, save, reset, elapsed_ms,
  }

  -- What the steps after the checks share.
  pub record Plan : Type 0 where
    pub identity : RebuildCollectionIdentity
    pub source_dir : FilePath
    pub segment_id : Text
    pub id_map : HnswIdMap
    pub dimensionality : ℕ
    pub hnsw_config : HnswConfig
    pub config : IndexConfig
    pub source_index : HnswIndex
    pub records : List RebuildRecord

  -- `rebuild_records.len() as u64`
  unfoldable pub records_scanned : List RebuildRecord → ℕ
  records_scanned records = length records % suc u64_max

  -- The new index has room for the records.
  unfoldable pub ensure_capacity : HnswIndex → ℕ → Action State Text (Unit {0})
  ensure_capacity index required_capacity s =
      when (ltb (capacity index s) required_capacity)
        (map_err (λ e. text "failed to resize rebuilt hnsw index: " ++ e)
          (resize index (next_power_of_two required_capacity)))
        (pure tt) s

  -- The vectors go into the new index, and it goes to its files; the count of the vectors.
  unfoldable pub fill_index : Plan → FilePath → ℕ → HnswIndex → Action State Text ℕ
  fill_index plan rebuilt_dir required_capacity index = do
    ensure_capacity index required_capacity
    (id_map, vectors_reindexed) ←
        reindex (indexes h plan.source_index index) plan.records
          (rebuilt_id_map (some plan.dimensionality) plan.id_map.max_seq_id) 0
    map_err (λ e. text "failed to persist rebuilt hnsw index: " ++ e) (save index)
    write_hnsw_id_map h (hnsw_metadata_filename ∷ rebuilt_dir) id_map
    pure vectors_reindexed

  unfoldable pub with_target : Plan → FilePath → TargetConfig → Action State Text ℕ
  with_target plan rebuilt_dir target = do
    let required_capacity = rebuild_required_capacity (scale plan.hnsw_config) (length plan.records)
    index ←
        map_err (λ e. text "failed to initialize rebuilt hnsw index: " ++ e)
          (init plan.config target required_capacity plan.segment_id)
    fill_index plan rebuilt_dir required_capacity index

  -- The new index in the temporary directory.
  unfoldable pub build_index : Plan → FilePath → Action State Text ℕ
  build_index plan rebuilt_dir = do
    target ←
        map_err (λ e. text "failed to create hnsw target configuration: " ++ e)
          (lift (new_persistent plan.hnsw_config rebuilt_dir))
    with_target plan rebuilt_dir target

  abbrev pub Swapped : Type 0
  Swapped = Result (Text × List Text) Text

  -- Everything up to the swap, whose own failure is a value.
  unfoldable pub build_and_swap : Plan → FilePath → Bool → Action State Text (ℕ × Swapped)
  build_and_swap plan rebuilt_dir keep_backup = do
    vectors_reindexed ← build_index plan rebuilt_dir
    map_err (λ e. text "failed to reset local segment manager before swap: " ++ e) reset
    swapped ← attempt (swap_rebuilt_index_dir h plan.source_dir rebuilt_dir keep_backup)
    pure (vectors_reindexed, swapped)

  -- How a function ends that owns the guard: the guard is dropped after it.
  abbrev pub Guarded : Type 0 → Type 0
  Guarded A = Result A Text × TempRebuildDirGuard × State

  unfoldable pub dropped : {A : Type 0} → Guarded A → Result A Text × State
  dropped (r, g, s) = (r, drop_guard (guard_remove h) g s)

  -- The second error of a failed swap is added to the first.
  unfoldable pub add_reset_error : Text → Result (Unit {0}) Text → Text
  add_reset_error e (ok done) = e
  add_reset_error e (err reset_err) =
      e ++ (text "; failed to reset local segment manager after swap failure: " ++ reset_err)

  unfoldable pub add_cleanup_error : Text → Result (Unit {0}) Text → Text
  add_cleanup_error e (ok done) = e
  add_cleanup_error e (err cleanup_err) = e ++ (text "; " ++ cleanup_err)

  unfoldable pub after_failed_swap : {A : Type 0} → TempRebuildDirGuard → Text → State → Guarded A
  after_failed_swap g e s =
      let (was_reset, s₁) = reset s in
      let (cleaned, g', s₂) = remove_now (guard_remove h) g s₁ in
      (err (add_cleanup_error (add_reset_error e was_reset) cleaned), g', s₂)

  unfoldable pub after_swap :
      Plan → ℕ → Text × List Text → Action State Text EmbeddedRebuildCollectionResponse
  after_swap plan vectors_reindexed (backup_path, warnings) = do
    map_err (λ e. text "failed to reset local segment manager after swap: " ++ e) reset
    λ s.
        pure
          (rebuilt_response plan.identity (records_scanned plan.records) vectors_reindexed
            (clamp_u64 (elapsed_ms s)) backup_path warnings)
          s

  unfoldable pub conclude :
      Plan
      → TempRebuildDirGuard
      → Result (ℕ × Swapped) Text × State
      → Guarded EmbeddedRebuildCollectionResponse
  conclude plan g (err e, s) = (err e, g, s)
  conclude plan g (ok (vectors_reindexed, err e), s) = after_failed_swap g e s
  conclude plan g (ok (vectors_reindexed, ok done), s) =
      let (r, s') = after_swap plan vectors_reindexed done s in (r, disarm g, s')

  unfoldable pub rebuild_guarded :
      Plan → FilePath → Bool → Action State Text EmbeddedRebuildCollectionResponse
  rebuild_guarded plan rebuilt_dir keep_backup s =
      dropped (conclude plan (new rebuilt_dir) (build_and_swap plan rebuilt_dir keep_backup s))

  unfoldable pub rebuild : Plan → Bool → Action State Text EmbeddedRebuildCollectionResponse
  rebuild plan keep_backup = do
    rebuilt_dir ← (λ s. (build_temp_rebuild_dir h plan.source_dir (unique_path_suffix h s), s))
    map_err
        (λ e.
          text "failed to create temporary rebuild directory "
          ++ (display rebuilt_dir ++ (text ": " ++ e)))
        (create_dir rebuilt_dir)
    rebuild_guarded plan rebuilt_dir keep_backup

  -- The plan is made: a precheck ends here.
  unfoldable pub rebuild_or_precheck :
      Bool → Bool → Plan → Action State Text EmbeddedRebuildCollectionResponse
  rebuild_or_precheck precheck keep_backup plan =
      when precheck (pure (prechecked plan.identity (records_scanned plan.records) []))
        (rebuild plan keep_backup)

  unfoldable pub load_index :
      RebuildCollectionIdentity
      → FilePath
      → Segments
      → HnswConfig
      → HnswIdMap
      → Action State Text Plan
  load_index identity source_dir segments hnsw_config id_map = do
    dimensionality ← lift (
        ok_or (or_option id_map.dimensionality (dimension segments))
          (text "collection dimension is unknown; cannot rebuild"))
    source_dir_str ← lift (
        ok_or (to_str source_dir)
          (text "source index path is not valid UTF-8: " ++ display source_dir))
    source_index ←
        map_err (λ e. text "failed to load source hnsw index: " ++ e)
          (load source_dir_str (index_config dimensionality hnsw_config) hnsw_config
            (vector_segment_id segments))
    pure (record {
      identity = identity;
      source_dir = source_dir;
      segment_id = vector_segment_id segments;
      id_map = id_map;
      dimensionality = dimensionality;
      hnsw_config = hnsw_config;
      config = index_config dimensionality hnsw_config;
      source_index = source_index;
      records = sort_by_label (rebuild_records id_map.id_to_seq_id id_map.id_to_label);
    })

  module _ (identity : RebuildCollectionIdentity) (segments : Segments) (hnsw_config : HnswConfig)
      (precheck keep_backup : Bool) where
    unfoldable pub rebuild_from_map :
        FilePath → HnswIdMap → Action State Text EmbeddedRebuildCollectionResponse
    rebuild_from_map source_dir id_map =
        when (is_empty id_map.id_to_label)
          (pure (
            skipped identity precheck
              (text "index metadata contains no records; rebuild skipped" ∷ [])))
          (do
            plan ← load_index identity source_dir segments hnsw_config id_map
            rebuild_or_precheck precheck keep_backup plan)

    -- A missing directory or a missing metadata file ends the rebuild with a warning.
    unfoldable pub rebuild_from_dir : FilePath → Action State Text EmbeddedRebuildCollectionResponse
    rebuild_from_dir source_dir s =
        when (exists source_dir s)
          (when (exists (hnsw_metadata_filename ∷ source_dir) s)
            (do
              id_map ← load_hnsw_id_map h (hnsw_metadata_filename ∷ source_dir)
              rebuild_from_map source_dir id_map)
            (pure (
              skipped identity precheck (
                (text "hnsw metadata file "
                  ++ (display (hnsw_metadata_filename ∷ source_dir) ++ text " does not exist"))
                ∷ []))))
          (pure (
            skipped identity precheck (
              (text "vector index directory " ++ (display source_dir ++ text " does not exist"))
              ∷ [])))
          s

  -- The schema of the collection, or the one that its configuration gives.
  unfoldable pub reconcile_schema : Segments → Option Schema → Result Schema Text
  reconcile_schema segments (some schema) = ok schema
  reconcile_schema segments none =
      Base.map_err (λ e. text "failed to reconcile collection schema: " ++ e)
        (schema_of_config segments)

  unfoldable pub load_hnsw_config : Segments → Action State Text HnswConfig
  load_hnsw_config segments = do
    reconciled ← lift (reconcile_schema segments (schema segments))
    config ←
        map_err (λ e. text "failed to load hnsw configuration: " ++ e)
          (lift (hnsw_config_of reconciled segments))
    lift (ok_or config (text "collection is missing hnsw configuration"))

  abbrev look_up : Text → (State → Result (Unit {0}) Text) → Action State Text (Unit {0})
  look_up label get s = map_err (λ e. label ++ e) (lift (get s)) s

  unfoldable pub run_rebuild_collection :
      FilePath → Request → Bool → Bool → Action State Text EmbeddedRebuildCollectionResponse
  run_rebuild_collection persist_root request precheck keep_backup = do
    (identity, collection_id) ←
        map_err (λ e. text "get collection failed: " ++ e) (get_collection request)
    look_up (text "sysdb unavailable: ") get_sysdb
    look_up (text "local segment manager unavailable: ") get_segment_manager
    segments ←
        map_err (λ e. text "get collection with segments failed: " ++ e)
          (get_collection_with_segments collection_id)
    hnsw_config ← load_hnsw_config segments
    rebuild_from_dir identity segments hnsw_config precheck keep_backup
        (vector_segment_id segments ∷ persist_root)
