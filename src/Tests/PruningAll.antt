-- ===== src/Tests/PruningAll.antt =====
-- A prune of all collections of a tenant, as `chroma_embedded_prune_wal_all` of shim/src/lib.rs makes it.
use chroma_go_local.Base.{false, none, some, ok, arith, length}
use chroma_go_local.Base.Text.{text}
use chroma_go_local.Ffi.Boundary.{utf8}
use chroma_go_local.Wal.Targets.{collection_page}
use chroma_go_local.Wal.Targets.Kept.{Lists}
use chroma_go_local.Wal.Targets.Complete.{all_entries}
use chroma_go_local.Wal.Endpoint.{
  EmbeddedPruneWalAllPayload, chroma_embedded_prune_wal_all, prune_all,
}
use chroma_go_local.Wal.Endpoint.Safety.{prune_wal_all_safe}
use chroma_go_local.Wal.Endpoint.Complete.{IsPruned, prune_all_complete}
use chroma_go_local.Tests.Pruning.{IsIntact, host, options, world, store-laws, host-keeps}
use chroma_go_local.Tests.Listing.{entries, names, catalogue, names-IsListed, IsDatabase-any}

abbrev payload : EmbeddedPruneWalAllPayload
payload = record {
  tenant_id = none;
  database_name = none;
  dry_run = none;
  vacuum = some false;
  policies = (options false).policies;
}

catalogue-Lists : Lists catalogue IsIntact
catalogue-Lists = record {
  databases = λ q. record { apply = λ s p. p };
  collections = λ q. record { apply = λ s p. p };
}

prune_wal_all_safe_example :
    IsIntact
      (chroma_embedded_prune_wal_all host catalogue 10
        (text "poisoned")
        (λ t. ok payload)
        (λ t. t)
        length
        (λ r. ok (text "{}"))
        false
        (utf8 (text "{}"))
        world).1.state
prune_wal_all_safe_example =
    prune_wal_all_safe host catalogue 10 (λ t. t) length IsIntact store-laws
      (λ o valid. host-keeps o) catalogue-Lists (text "poisoned") (λ t. ok payload)
      (λ r. ok (text "{}")) false (utf8 (text "{}")) world (omega arith)

prune_all_complete_example :
    IsPruned host
      (options false)
      (all_entries catalogue (text "me") 10 0 (collection_page catalogue (text "me")) entries names)
      0
      (prune_all host catalogue 10
        (record { tenant_id = text "me"; database_name = none; options = options false })
        0)
    × IsPruned host (options false) (entries (text "two")) 0 (
        prune_all host catalogue 10
          (record {
            tenant_id = text "me";
            database_name = some (text "two");
            options = options false;
          })
          0)
prune_all_complete_example =
    prune_all_complete host catalogue 10 store-laws 0 (text "me") (options false) names (text "two")
      entries names-IsListed (IsDatabase-any (text "one"), (IsDatabase-any (text "two"), tt))
      (IsDatabase-any (text "two"))
