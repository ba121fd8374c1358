-- ===== src/Rebuild/Host.antt =====
-- What `run_rebuild_collection` of shim/src/lib.rs needs around it: the calls that it makes, its response,
-- and its steps on files. The handles of the indexes are dropped without a trace in the model.
use chroma_go_local.Base.{
  ℕ, ◌*◌, ◌^◌, suc, zero, Bool, true, false, Option, List, [], ◌∷◌, ◌++◌, leb, Result, ok, err,
  ok_else, if◌then◌else◌,
}
use chroma_go_local.Base.Actions.{Action, pure, ◌>>=◌, ◌>>◌, lift, map_err}
use chroma_go_local.Base.Text.{Text, text, show_nat, show_u128}
use chroma_go_local.Rebuild.IdMap.{HnswIdMap, validate}
use chroma_go_local.Rebuild.Reindex.{HnswIndexes, show_id_map_error}
use chroma_go_local.Rebuild.Retry.{OsError, run_with_windows_fs_retry}
use chroma_go_local.Rebuild.Swap.{FilePath, display, SwapFsOps, swap_rebuilt_index_dir_with_ops}
use chroma_go_local.Rebuild.TempDir.{RemoveError, not_found, other}

-- The fields of a collection that the response repeats.
pub record RebuildCollectionIdentity : Type 0 where
  pub collection_id : Text
  pub name : Text
  pub tenant_id : Text
  pub database_name : Text

pub record EmbeddedRebuildCollectionResponse : Type 0 where
  pub collection_id : Text
  pub name : Text
  pub tenant_id : Text
  pub database_name : Text
  pub precheck : Bool
  pub would_rebuild : Bool
  pub rebuilt : Bool
  pub records_scanned : ℕ
  pub vectors_reindexed : ℕ
  pub duration_ms : ℕ
  pub backup_path : Text
  pub warnings : List Text

unfoldable pub skipped :
    RebuildCollectionIdentity → Bool → List Text → EmbeddedRebuildCollectionResponse
skipped identity precheck warnings = record {
  collection_id = identity.collection_id;
  name = identity.name;
  tenant_id = identity.tenant_id;
  database_name = identity.database_name;
  precheck = precheck;
  would_rebuild = false;
  rebuilt = false;
  records_scanned = 0;
  vectors_reindexed = 0;
  duration_ms = 0;
  backup_path = [];
  warnings = warnings;
}

unfoldable pub prechecked :
    RebuildCollectionIdentity → ℕ → List Text → EmbeddedRebuildCollectionResponse
prechecked identity records_scanned warnings = record {
  collection_id = identity.collection_id;
  name = identity.name;
  tenant_id = identity.tenant_id;
  database_name = identity.database_name;
  precheck = true;
  would_rebuild = true;
  rebuilt = false;
  records_scanned = records_scanned;
  vectors_reindexed = 0;
  duration_ms = 0;
  backup_path = [];
  warnings = warnings;
}

unfoldable pub rebuilt_response :
    RebuildCollectionIdentity → ℕ → ℕ → ℕ → Text → List Text → EmbeddedRebuildCollectionResponse
rebuilt_response identity records_scanned vectors_reindexed duration_ms backup_path warnings =
    record {
      collection_id = identity.collection_id;
      name = identity.name;
      tenant_id = identity.tenant_id;
      database_name = identity.database_name;
      precheck = false;
      would_rebuild = true;
      rebuilt = true;
      records_scanned = records_scanned;
      vectors_reindexed = vectors_reindexed;
      duration_ms = duration_ms;
      backup_path = backup_path;
      warnings = warnings;
    }

-- The registry, the catalogue, the indexes, the files and the clock. An error is its text, but for
-- the two file operations that the code inspects. `index_config` casts the dimension to `i32`.
pub record RebuildHost : Type 1 where
  pub State : Type 0
  pub Request : Type 0
  pub CollectionUuid : Type 0
  pub Segments : Type 0
  pub Schema : Type 0
  pub HnswConfig : Type 0
  pub IndexConfig : Type 0
  pub TargetConfig : Type 0
  pub HnswIndex : Type 0
  pub Embedding : Type 0
  pub Reader : Type 0
  pub Writer : Type 0
  -- A collection is its identity and its id.
  pub get_collection : Request → Action State Text (RebuildCollectionIdentity × CollectionUuid)
  pub get_sysdb : State → Result (Unit {0}) Text
  pub get_segment_manager : State → Result (Unit {0}) Text
  pub get_collection_with_segments : CollectionUuid → Action State Text Segments
  pub schema : Segments → Option Schema
  pub schema_of_config : Segments → Result Schema Text
  pub hnsw_config_of : Schema → Segments → Result (Option HnswConfig) Text
  pub vector_segment_id : Segments → Text
  pub dimension : Segments → Option ℕ
  pub exists : FilePath → State → Bool
  pub to_str : FilePath → Option Text
  pub open_file : FilePath → Action State Text Reader
  pub decode_id_map : Reader → Action State Text HnswIdMap
  pub index_config : ℕ → HnswConfig → IndexConfig
  pub load : Text → IndexConfig → HnswConfig → Text → Action State Text HnswIndex
  pub index_get : HnswIndex → State → ℕ → Result (Option Embedding) Text
  pub nanos_since_epoch : State → Result ℕ Text
  pub process_id : ℕ
  pub create_dir : FilePath → Action State Text (Unit {0})
  -- A count times the resize factor, rounded up.
  pub scale : HnswConfig → ℕ → ℕ
  pub new_persistent : HnswConfig → FilePath → Result TargetConfig Text
  -- The target configuration comes with its `max_elements`.
  pub init : IndexConfig → TargetConfig → ℕ → Text → Action State Text HnswIndex
  pub capacity : HnswIndex → State → ℕ
  pub resize : HnswIndex → ℕ → Action State Text (Unit {0})
  pub index_add : HnswIndex → ℕ → Embedding → Action State Text (Unit {0})
  pub save : HnswIndex → Action State Text (Unit {0})
  pub create_file : FilePath → Action State Text Writer
  pub encode_id_map : Writer → HnswIdMap → Action State Text (Unit {0})
  pub flush : Writer → Action State Text (Unit {0})
  pub reset : Action State Text (Unit {0})
  pub windows : Bool
  pub sleep : ℕ → State → State
  pub rename : FilePath → FilePath → Action State OsError (Unit {0})
  pub remove_dir_all : FilePath → Action State OsError (Unit {0})
  pub elapsed_ms : State → ℕ

abbrev pub hnsw_metadata_filename : Text
hnsw_metadata_filename = text "index_metadata.pickle"

-- `next_power_of_two`: the doublings of `p` up to `n`, at most `fuel` of them.
unfoldable pub power_from : ℕ → ℕ → ℕ → ℕ
power_from zero p n = p
power_from (suc fuel) p n = let more = power_from fuel (p * 2) n in if leb n p then p else more

-- Above 2 ^ 63 there is none in a `usize`: an optimised build wraps to 0.
unfoldable pub next_power_of_two : ℕ → ℕ
unfolding power_from
next_power_of_two n = if leb n (2 ^ 63) then power_from 63 1 n else 0

unfoldable pub remove_error : OsError → RemoveError
remove_error e = if e.not_found then not_found else other e.shown

module _ (h : RebuildHost) where
  open h use {
    State, HnswIndex, open_file, decode_id_map, create_file, encode_id_map, flush,
    nanos_since_epoch, process_id, windows, sleep, rename, remove_dir_all,
  }

  unfoldable pub load_hnsw_id_map : FilePath → Action State Text HnswIdMap
  load_hnsw_id_map path = do
    file ←
        map_err (λ e. text "failed to open hnsw metadata " ++ (display path ++ (text ": " ++ e)))
          (open_file path)
    id_map ←
        map_err (λ e. text "failed to decode hnsw metadata " ++ (display path ++ (text ": " ++ e)))
          (decode_id_map file)
    map_err
        (λ e. text "invalid hnsw metadata " ++ (display path ++ (text ": " ++ show_id_map_error e)))
        (lift (validate id_map))
    pure id_map

  unfoldable pub write_hnsw_id_map : FilePath → HnswIdMap → Action State Text (Unit {0})
  write_hnsw_id_map path id_map = do
    writer ←
        map_err (λ e. text "failed to create hnsw metadata " ++ (display path ++ (text ": " ++ e)))
          (create_file path)
    map_err (λ e. text "failed to encode hnsw metadata " ++ (display path ++ (text ": " ++ e)))
        (encode_id_map writer id_map)
    map_err (λ e. text "failed to flush hnsw metadata " ++ (display path ++ (text ": " ++ e)))
        (flush writer)

  -- The default of a clock before the epoch is 0.
  unfoldable pub unique_path_suffix : State → Text
  unique_path_suffix s =
      show_u128 (ok_else (nanos_since_epoch s) 0) ++ (text "_" ++ show_nat process_id)

  unfoldable pub build_temp_rebuild_dir : FilePath → Text → Result FilePath Text
  build_temp_rebuild_dir [] suffix = err (text "invalid source index path " ++ display [])
  build_temp_rebuild_dir (stem ∷ dir) suffix = ok ((stem ++ (text ".rebuild." ++ suffix)) ∷ dir)

  -- `StdSwapFsOps`
  abbrev pub std_swap_fs_ops : SwapFsOps
  std_swap_fs_ops = record {
    Fs = State;
    IoError = OsError;
    show_error = λ e. e.shown;
    rename = λ from to. run_with_windows_fs_retry windows sleep (rename from to);
    remove_dir_all = λ path. run_with_windows_fs_retry windows sleep (remove_dir_all path);
  }

  unfoldable pub swap_rebuilt_index_dir :
      FilePath → FilePath → Bool → Action State Text (Text × List Text)
  swap_rebuilt_index_dir source_dir rebuilt_dir keep_backup s =
      swap_rebuilt_index_dir_with_ops std_swap_fs_ops source_dir rebuilt_dir keep_backup
        (unique_path_suffix s) s

  -- The old index, read by label, and the new one, to which vectors are added.
  abbrev pub indexes : HnswIndex → HnswIndex → HnswIndexes
  indexes source rebuilt = record {
    State = State;
    Embedding = h.Embedding;
    source_get = h.index_get source;
    rebuilt_add = h.index_add rebuilt;
  }

  -- `fs::remove_dir_all`, as the guard calls it.
  unfoldable pub guard_remove : FilePath → Action State RemoveError (Unit {0})
  guard_remove path = map_err remove_error (remove_dir_all path)
