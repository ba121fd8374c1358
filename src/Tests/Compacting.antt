-- ===== src/Tests/Compacting.antt =====
-- The compaction of shim/src/lib.rs on a log that is indexed, and then purged, up to 5. Its state is the
-- two bounds: what is indexed, and what is purged.
use chroma_go_local.Base.{
  ℕ, ◌+◌, ◌≤◌, max, ◌≡◌, refl, ap, ◌∙◌, zero, suc, false, none, some, List, [], ◌∷◌, take, drop,
  Result, ok, All, arith,
}
use chroma_go_local.Base.Actions.{resume, mapped, caught, when}
use chroma_go_local.Base.Text.{Text, text, show_nat}
use chroma_go_local.Base.Words.{saturating_add, clamp_u64}
use chroma_go_local.Ffi.Boundary.{World, utf8}
use chroma_go_local.Ffi.Names.{parse_database_name, resolve_tenant}
use chroma_go_local.Wal.Prune.{WalPruneTarget}
use chroma_go_local.Wal.Targets.{Catalogue, page_size, database_page, collection_page}
use chroma_go_local.Wal.Targets.Kept.{Lists}
use chroma_go_local.Wal.Targets.Complete.{IsListed, IsDatabase, all_entries}
use chroma_go_local.Compact.{
  Compactor, Target, compaction_target_from_parts, run_explicit_compaction, fail_fast,
  continue_on_error, EmbeddedCompactionResponse, compact_targets, compact_target, settle,
  read_pending_ops, pending_of, compact_logs, request, get_manager, respond, add_pending,
}
use chroma_go_local.Compact.Rounds.{Compacts}
use chroma_go_local.Compact.Loop.{
  IsResponse, IsClean, IsAnswered, run_explicit_compaction_safe, run_explicit_compaction_total,
}
use chroma_go_local.Compact.FailFast.{IsCompacted, run_explicit_compaction_fail_fast}
use chroma_go_local.Compact.Endpoints.{
  chroma_embedded_compact_collection, chroma_embedded_compact_all, compaction_page, compact_all,
  targets_of, target_of,
}
use chroma_go_local.Compact.Endpoints.Safety.{
  compaction_endpoints_safe, compact_all_complete, compacted_all,
}

abbrev compactor : Compactor
compactor = record {
  State = ℕ × ℕ;
  CollectionUuid = ℕ;
  DatabaseName = Text;
  show_uuid = show_nat;
  get_compaction_manager = λ s. ok tt;
  indexing_status = λ name id s. (ok 3, s);
  backfill = λ id s. (ok (ok tt), (max 5 s.0, s.1));
  purge_logs = λ id s. (ok (ok tt), (s.0, 5));
  elapsed_ms = λ s. 1;
}

-- Nothing is purged that is not indexed.
abbrev IsIntact : ℕ × ℕ → Type 0
IsIntact s = s.1 ≤ s.0

compactor-Compacts : Compacts compactor IsIntact
compactor-Compacts = record {
  status = λ name id. record { apply = λ s p. p };
  backfill = λ id. record { apply = λ s p. omega arith };
  purge = λ id s b p. let five : max 5 b.from_.0 ≡ s.0 = ap (λ r. r.1.0) b.done in omega arith;
}

abbrev collection : Text → WalPruneTarget ℕ
collection name = record {
  collection_id = 7;
  name = text "docs";
  tenant_id = text "me";
  database_name_raw = name;
}

abbrev target : Text → Target compactor
target name = record {
  collection_id = 7;
  name = text "docs";
  tenant_id = text "me";
  database_name = name;
  database_name_raw = name;
}

run_explicit_compaction_safe_example :
    IsIntact
      (run_explicit_compaction compactor
        (target (text "one") ∷ target (text "two") ∷ [])
        fail_fast
        (0, 0)).1
run_explicit_compaction_safe_example =
    run_explicit_compaction_safe compactor IsIntact compactor-Compacts fail_fast
      (target (text "one") ∷ target (text "two") ∷ []) (0, 0) (omega arith)

run_explicit_compaction_total_example :
    IsAnswered compactor
      (target (text "one") ∷ [])
      (run_explicit_compaction compactor (target (text "one") ∷ []) continue_on_error (0, 0))
run_explicit_compaction_total_example =
    run_explicit_compaction_total compactor (target (text "one") ∷ []) (0, 0) refl

abbrev response : EmbeddedCompactionResponse
response = record {
  collection_count = 1;
  duration_ms = 1;
  pending_ops_before_total = 3;
  pending_ops_after_total = 3;
  collections =
      record {
        collection_id = show_nat 7;
        name = text "docs";
        tenant_id = text "me";
        database_name = text "one";
        pending_ops_before = some 3;
        pending_ops_after = some 3;
        pending_ops_before_error = none;
        pending_ops_after_error = none;
        error = none;
      }
      ∷ [];
}

run_one :
    run_explicit_compaction compactor (target (text "one") ∷ []) fail_fast (0, 0)
    ≡ (ok response, (5, 5))
unfolding run_explicit_compaction compact_targets compact_target settle read_pending_ops pending_of
    compact_logs request get_manager respond add_pending resume mapped caught when saturating_add
    clamp_u64
run_one = refl

run_explicit_compaction_fail_fast_example :
    IsCompacted compactor (target (text "one") ∷ []) (0, 0) (5, 5)
    × IsResponse compactor (target (text "one") ∷ []) response
    × All IsClean response.collections
run_explicit_compaction_fail_fast_example =
    run_explicit_compaction_fail_fast compactor (target (text "one") ∷ []) (0, 0) (5, 5) response
      run_one

abbrev names : List Text
names = text "one" ∷ text "two" ∷ []

abbrev catalogue : Catalogue (ℕ × ℕ) ℕ Text
catalogue = record {
  DatabasesRequest = ℕ;
  CollectionsRequest = Text × ℕ;
  new_name = λ name. some name;
  databases_request = λ tenant limit offset. ok offset;
  list_databases = λ offset s. (ok (take page_size (drop offset names)), s);
  collections_request = λ tenant name limit offset. ok (name, offset);
  list_collections =
      λ (name, offset) s. (ok (take page_size (drop offset (collection name ∷ []))), s);
}

catalogue-Lists : Lists catalogue IsIntact
catalogue-Lists = record {
  databases = λ q. record { apply = λ s p. p };
  collections = λ q. record { apply = λ s p. p };
}

abbrev world : World (ℕ × ℕ)
world = record { last_error = none; poisoned = false; state = (0, 0) }

compaction_endpoints_safe_example :
    IsIntact
      (chroma_embedded_compact_collection compactor
        (λ name. some name)
        (λ (q : Text) s. (ok (collection (text "one")), s))
        (λ t. ok (record { name = text "docs"; tenant_id = none; database_name = none }))
        (λ tenant database name. ok name)
        (λ r. ok (text "{}"))
        false
        (utf8 (text "{}"))
        world).1.state
    × IsIntact
        (chroma_embedded_compact_all compactor catalogue 10
          (λ t. ok (record { tenant_id = none; database_name = none }))
          (λ r. ok (text "{}"))
          false
          (utf8 (text "{}"))
          world).1.state
compaction_endpoints_safe_example =
    compaction_endpoints_safe compactor catalogue 10 IsIntact compactor-Compacts
      (λ (q : Text) s. (ok (collection (text "one")), s)) (λ q. record { apply = λ s p. p })
      catalogue-Lists
      (λ t. ok (record { name = text "docs"; tenant_id = none; database_name = none }))
      (λ t. ok (record { tenant_id = none; database_name = none }))
      (λ tenant database name. ok name) (λ r. ok (text "{}")) false (utf8 (text "{}")) world
      (omega arith)

abbrev page : Text → Text → ℕ → ℕ × ℕ → Result (List (Target compactor)) Text × (ℕ × ℕ)
page = compaction_page compactor catalogue 10 (text "me")

abbrev entries : Text → List (Target compactor)
entries name = target name ∷ []

zero_add : (k : ℕ) → 0 + k ≡ k
zero_add k = omega arith

names-IsListed :
    IsListed catalogue (text "me") 10 (0, 0) (database_page catalogue (text "me")) names
unfolding database_page resume mapped
names-IsListed = record {
  paged = λ k. ap (λ j. (ok (take page_size (drop j names)), (0, 0))) (zero_add k);
  fits = omega arith;
  enough = omega arith;
}

-- The listing of a database with one collection, from any offset.
page-eq :
    (name : Text) (k : ℕ)
    → page name name k (0, 0) ≡ (ok (take page_size (drop k (entries name))), (0, 0))
unfolding compaction_page collection_page targets_of target_of compaction_target_from_parts resume
    mapped parse_database_name
page-eq name zero = refl
page-eq name (suc zero) = refl
page-eq name (suc (suc k)) = refl

IsDatabase-any : (name : Text) → IsDatabase catalogue (text "me") 10 (0, 0) page entries name
unfolding compaction_page collection_page targets_of target_of compaction_target_from_parts resume
    mapped parse_database_name
IsDatabase-any name = record {
  parsed = name;
  valid = refl;
  listed = record {
    paged = λ k.
        page-eq name (0 + k)
        ∙ ap (λ j. (ok (take page_size (drop j (entries name))), (0, 0))) (zero_add k);
    fits = omega arith;
    enough = omega arith;
  };
}

compact_all_complete_example :
    (compact_all compactor catalogue 10
        (record { tenant_id = some (text "me"); database_name = none })
        (0, 0)
      ≡ compacted_all compactor
          (0, 0)
          (all_entries catalogue (text "me") 10 (0, 0) page entries names))
    × (compact_all compactor catalogue 10
          (record { tenant_id = some (text "me"); database_name = some (text "two") })
          (0, 0)
        ≡ compacted_all compactor (0, 0) (entries (text "two")))
unfolding resolve_tenant
compact_all_complete_example =
    compact_all_complete compactor catalogue 10 (0, 0) (some (text "me")) names (text "two") entries
      names-IsListed (IsDatabase-any (text "one"), (IsDatabase-any (text "two"), tt))
      (IsDatabase-any (text "two"))
