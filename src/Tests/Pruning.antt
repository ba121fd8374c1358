-- ===== src/Tests/Pruning.antt =====
-- The prune run of shim/src/lib.rs on a log that holds the sequence ids 1 and 2 and must keep
-- everything from 3 on. Its state is the bound that it was purged up to.
use chroma_go_local.Base.{
  subst, ℕ, ◌≤◌, max, ◌≡◌, ap, Bool, true, false, ◌&&◌, leb, Option, none, some, List, [], ◌∷◌,
  arith, Result, ok, err, All,
}
use chroma_go_local.Base.Int.{ℤ, pos, IsI64, ltb_ℤ, ◌<ℤ◌, ◌≤ℤ◌}
use chroma_go_local.Base.Text.{Text, text, show_nat}
use chroma_go_local.Wal.Policy.{WalPruneExecutionOptions}
use chroma_go_local.Wal.Prune.{WalStore, WalPruneTarget, fail_fast, continue_on_error}
use chroma_go_local.Wal.Prune.Rounds.{StoreLaws, Keeps, Reported}
use chroma_go_local.Wal.Prune.Target.{prune_targets}
use chroma_go_local.Wal.Prune.Loop.{no_totals, prune_targets_safe, prune_targets_total, IsComplete}
use chroma_go_local.Wal.Run.{WalHost, run_explicit_wal_prune}
use chroma_go_local.Ffi.Boundary.{World, utf8}
use chroma_go_local.Wal.Endpoint.{
  EmbeddedPruneWalCollectionPayload, chroma_embedded_prune_wal_collection,
}
use chroma_go_local.Wal.Endpoint.Safety.{prune_wal_collection_safe}
use chroma_go_local.Wal.Run.Safety.{HostKeeps, run_explicit_wal_prune_safe}

pub data LogRow : Type 0 where
  cutoff_row first_row second_row : LogRow

abbrev pub log_min_seq : LogRow → Result (Option ℤ) Text
log_min_seq cutoff_row = ok (some (pos 3))
log_min_seq first_row = ok none
log_min_seq second_row = ok none

abbrev pub log_seq_id : LogRow → Result ℤ Text
log_seq_id cutoff_row = err (text "no such column")
log_seq_id first_row = ok (pos 1)
log_seq_id second_row = ok (pos 2)

-- Both rows, if the log still holds them and both lie below the cutoff.
abbrev pub log_rows : Bool → List LogRow
log_rows true = first_row ∷ second_row ∷ []
log_rows false = []

abbrev pub store : WalStore
store = record {
  State = ℕ;
  CollectionUuid = ℕ;
  Row = LogRow;
  show_uuid = show_nat;
  fetch_min_seq = λ id s. (ok cutoff_row, s);
  min_seq = log_min_seq;
  fetch_candidates = λ id cutoff s. (ok (log_rows (leb s 1 && ltb_ℤ (pos 2) cutoff)), s);
  seq_id_column = log_seq_id;
  created_at_column = λ row. ok (pos 0);
  estimated_bytes_column = λ row. ok (pos 10);
  purge_logs = λ id n s. (ok tt, max n s);
}

log_seq_id-IsI64 : (row : LogRow) (v : ℤ) → log_seq_id row ≡ ok v → IsI64 v
log_seq_id-IsI64 cutoff_row v e = ground arith
log_seq_id-IsI64 first_row v e = ground arith
log_seq_id-IsI64 second_row v e = ground arith

log_below :
    (b : Bool) (cutoff : ℤ)
    → (b ≡ true → ltb_ℤ (pos 2) cutoff ≡ true)
    → All (λ row. (v : ℤ) → log_seq_id row ≡ ok v → v <ℤ cutoff) (log_rows b)
log_below true cutoff h = (λ v e. ground arith, (λ v e. ground arith, tt))
log_below false cutoff h = tt

log_rows_of :
    (cutoff : ℤ) (s : ℕ) (rows : List LogRow)
    → ◌≡◌ {A = Result (List LogRow) Text}
        (ok (log_rows (leb s 1 && ltb_ℤ (pos 2) cutoff)))
        (ok rows)
    → All (λ row. (v : ℤ) → log_seq_id row ≡ ok v → v <ℤ cutoff) rows
log_rows_of cutoff s rows e =
    let same : log_rows (leb s 1 && ltb_ℤ (pos 2) cutoff) ≡ rows = cc e in
    subst (All (λ row. (v : ℤ) → log_seq_id row ≡ ok v → v <ℤ cutoff)) same
      (log_below (leb s 1 && ltb_ℤ (pos 2) cutoff) cutoff (λ both. ground arith))

pub store-laws : StoreLaws store
store-laws = record {
  seq_id_i64 = log_seq_id-IsI64;
  below_cutoff = λ id cutoff s s' rows e. log_rows_of cutoff s rows (ap (λ r. r.0) e);
}

abbrev pub options : Bool → WalPruneExecutionOptions
options dry_run = record {
  dry_run = dry_run;
  vacuum = true;
  policies = record {
    max_age_seconds = none;
    max_bytes = some 0;
    watermark_high_bytes = none;
    watermark_low_bytes = none;
  };
}

-- Nothing from 3 on is gone.
abbrev pub IsIntact : ℕ → Type 0
IsIntact s = s ≤ 3

log_cutoff :
    (row : LogRow) (v : ℤ)
    → ◌≡◌ {A = Result LogRow Text} (ok cutoff_row) (ok row)
    → log_min_seq row ≡ ok (some v)
    → v ≡ pos 3
log_cutoff cutoff_row v e d = cc d
log_cutoff first_row v e d = cc
log_cutoff second_row v e d = cc

purge-IsIntact :
    (o : WalPruneExecutionOptions) (id n : ℕ) (v : ℤ) (s : ℕ)
    → Reported store o IsIntact id v
    → pos n ≤ℤ v
    → IsIntact s
    → IsIntact (max n s)
purge-IsIntact o id n v s reported le kept =
    let least : v ≡ pos 3 =
      log_cutoff reported.row v (ap (λ r. r.0) reported.fetched) reported.decoded in
    ground arith

store-keeps : (o : WalPruneExecutionOptions) → Keeps store o IsIntact
store-keeps o = record {
  cutoff_read = λ id s p. p;
  rows_read = λ id c s p. p;
  purge = λ id n v s dry reported le p. purge-IsIntact o id n v s reported le p;
}

abbrev target : WalPruneTarget ℕ
target = record {
  collection_id = 7;
  name = text "docs";
  tenant_id = text "default_tenant";
  database_name_raw = text "default_database";
}

prune_targets_safe_example :
    IsIntact
      (prune_targets store
        (options false)
        continue_on_error
        (pos 100)
        (target ∷ target ∷ [])
        no_totals
        []
        0).1
prune_targets_safe_example =
    prune_targets_safe store (options false) continue_on_error (pos 100) IsIntact store-laws
      (store-keeps (options false)) (target ∷ target ∷ []) 0 (omega arith)

prune_targets_total_example :
    IsComplete store
      (target ∷ [])
      (prune_targets store (options false) continue_on_error (pos 100) (target ∷ []) no_totals [] 0)
prune_targets_total_example =
    prune_targets_total store (options false) (pos 100) store-laws (target ∷ []) 0

abbrev pub host : WalHost
host = record {
  store = store;
  Collection = ℕ;
  get_sqlite = λ s. ok tt;
  get_segment_manager = λ s. ok tt;
  get_sysdb = λ s. ok tt;
  get_log = λ s. ok tt;
  fetch_unmigrated = λ s. (ok [], s);
  collection_column = λ row. ok [];
  uuid_from_str = λ t. ok 7;
  get_collection_with_segments = λ id s. (ok id, s);
  dimension = λ c. some 3;
  get_hnsw_writer = λ c d s. (ok tt, s);
  is_sqlite_log = λ s. true;
  update_legacy_embeddings_queue_config = λ s. (ok tt, s);
  unix_seconds = λ s. ok 100;
  elapsed_ms = λ s. 1;
  read_busy_timeout = λ s. (ok (some (pos 0)), s);
  set_busy_timeout = λ v s. (ok tt, s);
  vacuum = λ s. (ok tt, s);
}

pub host-keeps : (o : WalPruneExecutionOptions) → HostKeeps host o IsIntact
host-keeps o = record {
  loop = store-keeps o;
  unmigrated = record { apply = λ s p. p };
  segments = λ id. record { apply = λ s p. p };
  writer = λ c d. record { apply = λ s p. p };
  auto_purge = λ wet. record { apply = λ s p. p };
  busy = λ wet. record { apply = λ s p. p };
  set_busy = λ v wet. record { apply = λ s p. p };
  vacuumed = λ wet asked. record { apply = λ s p. p };
}

run_explicit_wal_prune_safe_example :
    IsIntact (run_explicit_wal_prune host (target ∷ []) (options false) fail_fast 0).1
run_explicit_wal_prune_safe_example =
    run_explicit_wal_prune_safe host (options false) IsIntact (host-keeps (options false))
      store-laws fail_fast (target ∷ []) 0 (omega arith)

abbrev payload : EmbeddedPruneWalCollectionPayload
payload = record {
  name = text "docs";
  tenant_id = none;
  database_name = none;
  dry_run = some true;
  vacuum = none;
  policies = (options true).policies;
}

abbrev pub world : World ℕ
world = record { last_error = none; poisoned = false; state = 0 }

prune_wal_collection_safe_example :
    IsIntact
      (chroma_embedded_prune_wal_collection host
        (λ (q : Text) s. (ok target, s))
        (text "poisoned")
        (λ t. ok payload)
        (λ name. some name)
        (λ tenant database name. ok name)
        (λ r. ok (text "{}"))
        false
        (utf8 (text "{}"))
        world).1.state
prune_wal_collection_safe_example =
    prune_wal_collection_safe host (λ name. some name) (λ tenant database name. ok name)
      (λ (q : Text) s. (ok target, s)) IsIntact store-laws (λ o valid. host-keeps o)
      (λ q. record { apply = λ s p. p }) (text "poisoned") (λ t. ok payload) (λ r. ok (text "{}"))
      false (utf8 (text "{}")) world (omega arith)
