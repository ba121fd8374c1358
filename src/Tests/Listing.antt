-- ===== src/Tests/Listing.antt =====
-- The listing of prune targets in shim/src/lib.rs, for a tenant with two databases that hold one
-- collection each.
use chroma_go_local.Base.{ℕ, ◌+◌, ◌≡◌, refl, ap, none, some, List, [], ◌∷◌, take, drop, ok, arith}
use chroma_go_local.Base.Actions.{resume, mapped}
use chroma_go_local.Base.Text.{Text, text}
use chroma_go_local.Ffi.Names.{parse_database_name}
use chroma_go_local.Wal.Prune.{WalPruneTarget}
use chroma_go_local.Wal.Targets.{
  Catalogue, page_size, database_page, collection_page, list_wal_prune_targets,
}
use chroma_go_local.Wal.Targets.Complete.{
  IsListed, IsDatabase, all_entries, list_wal_prune_targets_complete,
}

abbrev pub entries : Text → List (WalPruneTarget ℕ)
entries name =
    record {
      collection_id = 7;
      name = text "docs";
      tenant_id = text "me";
      database_name_raw = name;
    }
    ∷ []

abbrev pub names : List Text
names = text "one" ∷ text "two" ∷ []

abbrev pub catalogue : Catalogue ℕ ℕ Text
catalogue = record {
  DatabasesRequest = ℕ;
  CollectionsRequest = Text × ℕ;
  new_name = λ name. some name;
  databases_request = λ tenant limit offset. ok offset;
  list_databases = λ offset s. (ok (take page_size (drop offset names)), s);
  collections_request = λ tenant name limit offset. ok (name, offset);
  list_collections = λ (name, offset) s. (ok (take page_size (drop offset (entries name))), s);
}

zero_add : (k : ℕ) → 0 + k ≡ k
zero_add k = omega arith

pub names-IsListed : IsListed catalogue (text "me") 10 0 (database_page catalogue (text "me")) names
unfolding database_page resume mapped
names-IsListed = record {
  paged = λ k. ap (λ j. (ok (take page_size (drop j names)), 0)) (zero_add k);
  fits = omega arith;
  enough = omega arith;
}

pub IsDatabase-any :
    (name : Text)
    → IsDatabase catalogue (text "me") 10 0 (collection_page catalogue (text "me")) entries name
unfolding collection_page resume mapped parse_database_name
IsDatabase-any name = record {
  parsed = name;
  valid = refl;
  listed = record {
    paged = λ k. ap (λ j. (ok (take page_size (drop j (entries name))), 0)) (zero_add k);
    fits = omega arith;
    enough = omega arith;
  };
}

list_wal_prune_targets_complete_example :
    (list_wal_prune_targets catalogue (text "me") 10 none 0 ≡ (
      ok (
          some (
            all_entries catalogue
              (text "me")
              10
              0
              (collection_page catalogue (text "me"))
              entries
              names)),
      0,
    ))
    × (list_wal_prune_targets catalogue (text "me") 10 (some (text "two")) 0
        ≡ (ok (some (entries (text "two"))), 0))
list_wal_prune_targets_complete_example =
    list_wal_prune_targets_complete catalogue (text "me") 10 0 entries names (text "two")
      names-IsListed (IsDatabase-any (text "one"), (IsDatabase-any (text "two"), tt))
      (IsDatabase-any (text "two"))
