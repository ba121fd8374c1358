-- ===== src/Tests/RebuildRun.antt =====
-- The whole rebuild of shim/src/lib.rs, for a collection whose index stands in a file system that is a
-- function.
use chroma_go_local.Base.{
  ℕ, ◌+◌, ◌==◌, sym, ◌∙◌, ◌≡◌, ◌≢◌, refl, ap, true, false, if◌then◌else◌, none, some, [], ◌∷◌,
  Result, ok, err, subst,
}
use chroma_go_local.Base.Actions.{resume, mapped, when}
use chroma_go_local.Base.Maps.{get, text_beq, contains_key}
use chroma_go_local.Base.Text.{Text, text}
use chroma_go_local.Ffi.Boundary.{World, utf8}
use chroma_go_local.Rebuild.Host.{
  RebuildHost, RebuildCollectionIdentity, EmbeddedRebuildCollectionResponse, load_hnsw_id_map,
  prechecked,
}
use chroma_go_local.Rebuild.Retry.{OsError}
use chroma_go_local.Rebuild.Swap.{FilePath}
use chroma_go_local.Rebuild.IdMap.{
  check_ids, check_labels, check_seq_ids, check_max, max_value, check_reverse, check_forward,
  validate,
}
use chroma_go_local.Rebuild.Reindex.{rebuild_records, sort_by_label, insert_by_label}
use chroma_go_local.Rebuild.Run.{
  run_rebuild_collection, load_hnsw_config, reconcile_schema, rebuild_from_dir, rebuild_from_map,
  load_index, rebuild_or_precheck, records_scanned, or_option,
}
use chroma_go_local.Rebuild.Run.Precheck.{Reads, precheck_reads}
use chroma_go_local.Rebuild.Run.Laws.{RebuildLaws, Leaves}
use chroma_go_local.Rebuild.Run.Outcome.{IsKept, rebuild_keeps_old}
use chroma_go_local.Rebuild.Run.Counts.{IsCounted, run_rebuild_collection_counts}
use chroma_go_local.Rebuild.Endpoint.{
  EmbeddedRebuildCollectionPayload, chroma_embedded_rebuild_collection,
}
use chroma_go_local.Rebuild.Endpoint.Safety.{IsSafe, rebuild_collection-IsSafe}
use chroma_go_local.Tests.Rebuilding.{one_map}
use chroma_go_local.Tests.Swapping.{
  path_beq, path_beq-false, Files, rename_files, Renamed, rename_files-Renamed, files,
}

-- The rename, with the errors of the system.
abbrev as_os : Result (Unit {0}) Text × Files → Result (Unit {0}) OsError × Files
as_os (ok done, s) = (ok done, s)
as_os (err e, s) = (
  err (record { raw_os_error = none; permission_denied = false; not_found = false; shown = e }),
  s,
)

abbrev written : FilePath → Text → Files → Files
written dir v s p = if path_beq p dir then some v else s p

abbrev write_at : {E : Type 0} → FilePath → Text → Files → Result (Unit {0}) E × Files
write_at dir v s = (ok tt, written dir v s)

abbrev identity : RebuildCollectionIdentity
identity = record {
  collection_id = text "7";
  name = text "docs";
  tenant_id = text "me";
  database_name = text "one";
}

abbrev directory : FilePath → FilePath
directory [] = []
directory (name ∷ dir) = dir

-- An index, a target configuration and an open file are the directories that they are in.
abbrev host : RebuildHost
host = record {
  State = Files;
  Request = ℕ;
  CollectionUuid = ℕ;
  Segments = ℕ;
  Schema = ℕ;
  HnswConfig = ℕ;
  IndexConfig = ℕ;
  TargetConfig = FilePath;
  HnswIndex = FilePath;
  Embedding = ℕ;
  Reader = ℕ;
  Writer = FilePath;
  get_collection = λ q s. (ok (identity, 7), s);
  get_sysdb = λ s. ok tt;
  get_segment_manager = λ s. ok tt;
  get_collection_with_segments = λ id s. (ok id, s);
  schema = λ c. some 1;
  schema_of_config = λ c. ok 1;
  hnsw_config_of = λ s c. ok (some 2);
  vector_segment_id = λ c. if c == 7 then text "index" else text "other";
  dimension = λ c. some 3;
  exists = λ p s. true;
  to_str = λ p. some (text "index");
  open_file = λ p s. (ok 1, s);
  decode_id_map = λ r s. (ok one_map, s);
  index_config = λ d c. d;
  load = λ p c d i s. (ok [], s);
  index_get = λ i s l. ok (some (100 + l));
  nanos_since_epoch = λ s. ok 5;
  process_id = 9;
  create_dir = λ dir. write_at dir (text "empty");
  scale = λ c n. n + n;
  new_persistent = λ c dir. ok dir;
  init = λ c t n i s. (ok t, s);
  capacity = λ i s. 10;
  resize = λ i n. write_at i (text "resized");
  index_add = λ i l e. write_at i (text "filled");
  save = λ i. write_at i (text "saved");
  create_file = λ p s. (ok (directory p), s);
  encode_id_map = λ w m. write_at w (text "encoded");
  flush = λ w. write_at w (text "rebuilt");
  reset = λ s. (ok tt, s);
  windows = false;
  sleep = λ d s. s;
  rename = λ from to s. as_os (rename_files (path_beq from to) from to s);
  remove_dir_all = λ dir s. (ok tt, λ p. if path_beq p dir then none else s p);
  elapsed_ms = λ s. 1;
}

abbrev RenamedOs : FilePath → FilePath → Files → Result (Unit {0}) OsError × Files → Type 0
RenamedOs from to s (ok done, s') =
    (s' to ≡ s from) × (s' from ≡ none) × ((p : FilePath) → p ≢ from → p ≢ to → s' p ≡ s p)
RenamedOs from to s (err e, s') = (p : FilePath) → s' p ≡ s p

as_os-RenamedOs :
    (from to : FilePath) (s : Files) (r : Result (Unit {0}) Text × Files)
    → Renamed from to s r
    → RenamedOs from to s (as_os r)
as_os-RenamedOs from to s (ok done, s') v = v
as_os-RenamedOs from to s (err e, s') v = v

rename-at :
    (from to : FilePath) (s : Files) (r : Result (Unit {0}) OsError × Files)
    → as_os (rename_files (path_beq from to) from to s) ≡ r
    → RenamedOs from to s r
rename-at from to s r e =
    subst (RenamedOs from to s) e
      (as_os-RenamedOs from to s _ (rename_files-Renamed (path_beq from to) from to s refl))

write-Leaves :
    (dir p : FilePath) (v : Text)
    → p ≢ dir
    → Leaves {E = Text} (λ (s : Files). s p) (write_at dir v)
write-Leaves dir p v d t = record {
  apply = λ s q. let other : path_beq p dir ≡ false = path_beq-false p dir d in rw other q;
}

ok_value : (a b : FilePath) → ◌≡◌ {A = Result FilePath Text} (ok a) (ok b) → b ≡ a
ok_value a b e = cc e

reads : (P : Files → Type 0) → Reads host P
reads P = record {
  collection = λ q. record { apply = λ s p. p };
  segments = λ id. record { apply = λ s p. p };
  open_file = λ path. record { apply = λ s p. p };
  decode = λ r. record { apply = λ s p. p };
  load = λ dir config c id. record { apply = λ s p. p };
}

abbrev host_laws : RebuildLaws host
host_laws = record {
  Tree = Text;
  at = λ s p. s p;
  moves = λ from to s s' e. rename-at from to s _ e;
  stays = λ from to s s' x e. rename-at from to s _ e;
  removes = λ dir p s d. rw (path_beq-false p dir d);
  sleeps = λ d p s. refl;
  reads = λ p t. reads (λ s. s p ≡ t);
  reset = λ p t. record { apply = λ s q. q };
  create_dir = λ dir p d. write-Leaves dir p _ d;
  target_dir = λ t. t;
  targets = λ c dir t e. ok_value dir t e;
  index_dir = λ i. i;
  inits = λ c t n id i s s' e. ok_value t i (ap (λ r. r.0) e);
  init = λ c t n id p d u. record { apply = λ s q. q };
  resize = λ i n p d. write-Leaves i p _ d;
  add = λ i l x p d. write-Leaves i p _ d;
  save = λ i p d. write-Leaves i p _ d;
  writer_dir = λ w. w;
  creates = λ name dir w s s' e. ok_value dir w (ap (λ r. r.0) e);
  create_file = λ name dir p d t. record { apply = λ s q. q };
  encode = λ w m p d. write-Leaves w p _ d;
  flush = λ w p d. write-Leaves w p _ d;
}

abbrev IsOld : Files → Type 0
IsOld s = s (text "index" ∷ []) ≡ some (text "old")

files-IsOld : IsOld files
unfolding path_beq text text_beq
files-IsOld = refl

precheck_reads_example : IsOld (run_rebuild_collection host [] 3 true true files).1
precheck_reads_example = precheck_reads host IsOld (reads IsOld) [] 3 true files files-IsOld

named :
    (q : ℕ) (found : RebuildCollectionIdentity) (id : ℕ) (s₁ s₂ : Files) (segments : ℕ)
    → host.get_collection q files ≡ (ok (found, id), s₁)
    → host.get_collection_with_segments id s₁ ≡ (ok segments, s₂)
    → host.vector_segment_id segments ≡ text "index"
named q found id s₁ s₂ segments e e' =
    let seven : 7 ≡ id = cc e in
    let same : id ≡ segments = cc e' in
    subst (λ c. host.vector_segment_id c ≡ text "index") (seven ∙ same) refl

rebuild_keeps_old_example :
    IsKept host host_laws
      (text "index")
      []
      true
      (some (text "old"))
      (run_rebuild_collection host [] 3 false true files)
rebuild_keeps_old_example =
    rebuild_keeps_old host host_laws (text "index") [] true (some (text "old")) 3 false files
      (named 3) files-IsOld

abbrev payload : EmbeddedRebuildCollectionPayload
payload = record {
  name = text "docs";
  tenant_id = none;
  database_name = none;
  precheck = none;
  keep_backup = none;
}

-- A text that turns the backup off, and others.
abbrev decoded : Text → EmbeddedRebuildCollectionPayload
decoded [] = record payload { keep_backup = some false }
decoded (c ∷ t) = payload

abbrev world : World Files
world = record { last_error = none; poisoned = false; state = files }

decoded_keeps :
    (t : Text) (p : EmbeddedRebuildCollectionPayload)
    → utf8 (text "{}") ≡ utf8 t
    → ◌≡◌ {A = Result EmbeddedRebuildCollectionPayload Text} (ok (decoded t)) (ok p)
    → ¬ (p.keep_backup ≡ some false)
unfolding text
decoded_keeps t p here read asked =
    let same : text "{}" ≡ t = cc here in
    let kept : decoded t ≡ p = cc read in
    let first : decoded (text "{}") ≡ p = subst (λ u. decoded u ≡ p) (sym same) kept in
    let given : payload.keep_backup ≡ p.keep_backup = ap (λ r. r.keep_backup) first in
    let bad : none ≡ some false = given ∙ asked in cc bad

rebuild_collection-IsSafe_example :
    IsSafe host host_laws
      (text "index")
      []
      (some (text "old"))
      (chroma_embedded_rebuild_collection host
        (text "poisoned")
        (λ t. ok (decoded t))
        (λ name. some name)
        (λ tenant database name. ok 3)
        (ok [])
        (λ r. ok (text "{}"))
        false
        (utf8 (text "{}"))
        world).1.state
rebuild_collection-IsSafe_example =
    rebuild_collection-IsSafe host host_laws (text "index") [] (some (text "old"))
      (λ name. some name) (λ tenant database name. ok 3) (text "poisoned") (λ t. ok (decoded t))
      (λ r. ok (text "{}")) false (utf8 (text "{}")) world decoded_keeps
      (λ t p parts found id s₁ s₂ segments here read made.
        named parts.request found id s₁ s₂ segments)
      files-IsOld

abbrev response : EmbeddedRebuildCollectionResponse
response = record {
  collection_id = text "7";
  name = text "docs";
  tenant_id = text "me";
  database_name = text "one";
  precheck = true;
  would_rebuild = true;
  rebuilt = false;
  records_scanned = 1;
  vectors_reindexed = 0;
  duration_ms = 0;
  backup_path = [];
  warnings = [];
}

prechecked_response : (run_rebuild_collection host [] 3 true true files).0 ≡ ok response
unfolding run_rebuild_collection load_hnsw_config reconcile_schema rebuild_from_dir load_hnsw_id_map
    rebuild_from_map load_index rebuild_or_precheck prechecked records_scanned rebuild_records
    sort_by_label insert_by_label or_option validate check_ids check_labels check_seq_ids check_max
    max_value check_reverse check_forward get text_beq contains_key resume mapped when
prechecked_response = refl

run_rebuild_collection_counts_example : IsCounted true response
run_rebuild_collection_counts_example =
    run_rebuild_collection_counts host [] 3 true true files response prechecked_response
