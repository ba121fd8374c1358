-- ===== src/Compact/Endpoints.antt =====
-- `chroma_embedded_compact_collection` and `chroma_embedded_compact_all` of shim/src/lib.rs, from the
-- JSON of a request to the response. The frontend's state is the compactor's world. The fuel bounds
-- the pages of a listing.
use chroma_go_local.Base.{ℕ, Bool, Option, none, some, List, [], ◌∷◌, ◌++◌, Result, ok, err, ◌>>=◌}
use chroma_go_local.Base.Actions as Actions
use chroma_go_local.Base.Text.{Text, text}
use chroma_go_local.Ffi.Boundary.{World, CharPtr}
use chroma_go_local.Ffi.Embedded.{called, context_endpoint, lock_poisoned}
use chroma_go_local.Ffi.Names.{resolve_tenant, resolve_database_name_typed}
use chroma_go_local.Wal.Prune.{WalPruneTarget}
use chroma_go_local.Wal.Targets.{Catalogue, collection_page, list_targets}
use chroma_go_local.Wal.Endpoint.{serialize_option}
use chroma_go_local.Compact.{
  Compactor, Target, EmbeddedCompactionResponse, fail_fast, continue_on_error,
  compaction_target_from_parts, run_explicit_compaction,
}
pub mod Safety

pub record EmbeddedCompactCollectionPayload : Type 0 where
  pub name : Text
  pub tenant_id : Option Text
  pub database_name : Option Text

pub record EmbeddedCompactAllPayload : Type 0 where
  pub tenant_id : Option Text
  pub database_name : Option Text

unfoldable pub into_compact_collection :
    {D Q : Type 0}
    → (Text → Option D)
    → (Text → D → Text → Result Q Text)
    → EmbeddedCompactCollectionPayload
    → Result Q Text
into_compact_collection new try_new p = do
  database_name ← resolve_database_name_typed new p.database_name
  try_new (resolve_tenant p.tenant_id) database_name p.name

module _ (c : Compactor) (new : Text → Option c.DatabaseName) where
  open c use {State, CollectionUuid, DatabaseName}

  -- A collection is given by the fields that the source takes from it.
  unfoldable pub target_of : WalPruneTarget CollectionUuid → Result (Target c) Text
  target_of collection =
      compaction_target_from_parts new collection.collection_id collection.name collection.tenant_id
        collection.database_name_raw

  -- The first bad name ends the listing.
  unfoldable pub targets_of : List (WalPruneTarget CollectionUuid) → Result (List (Target c)) Text
  targets_of [] = ok []
  targets_of (collection ∷ collections) = do
    target ← target_of collection
    targets ← targets_of collections
    ok (target ∷ targets)

  module _ {Q : Type 0}
      (get_collection : Q → Actions.Action State Text (WalPruneTarget CollectionUuid)) where
    unfoldable pub compact_one : Q → Actions.Action State Text EmbeddedCompactionResponse
    compact_one request s =
        Actions.resume
          (Actions.mapped (λ e. text "get collection failed: " ++ e) (get_collection request s))
          (λ collection s'.
            Actions.resume (target_of collection, s')
              (λ target. run_explicit_compaction c (target ∷ []) fail_fast))

    unfoldable pub chroma_embedded_compact_collection :
        (Text → Result EmbeddedCompactCollectionPayload Text)
        → (Text → DatabaseName → Text → Result Q Text)
        → (EmbeddedCompactionResponse → Result Text Text)
        → Bool
        → CharPtr
        → World State
        → Option Text × World State
    chroma_embedded_compact_collection from_str try_new to_string =
        context_endpoint (text "compact collection failed: ") from_str
          (into_compact_collection new try_new) (λ request s. called (compact_one request s))
          lock_poisoned (text "compact collection completed but failed to serialize response")
          to_string

module _ (c : Compactor) (lists : Catalogue c.State c.CollectionUuid c.DatabaseName)
    (fuel : ℕ) where
  open c use {State, CollectionUuid, DatabaseName}

  unfoldable pub compaction_page :
      Text → Text → DatabaseName → ℕ → Actions.Action State Text (List (Target c))
  compaction_page tenant_id database_name parsed offset s =
      Actions.resume (collection_page lists tenant_id database_name parsed offset s)
        (λ page s'. (targets_of c lists.new_name page, s'))

  unfoldable pub compact_listed :
      Option (List (Target c)) → Actions.Action State Text (Option EmbeddedCompactionResponse)
  compact_listed none = Actions.pure none
  compact_listed (some targets) = λ s.
      Actions.resume (run_explicit_compaction c targets continue_on_error s)
        (λ response. Actions.pure (some response))

  unfoldable pub compact_all :
      EmbeddedCompactAllPayload → Actions.Action State Text (Option EmbeddedCompactionResponse)
  compact_all p s =
      Actions.resume
        (list_targets lists (resolve_tenant p.tenant_id) fuel
          (compaction_page (resolve_tenant p.tenant_id)) p.database_name s)
        compact_listed

  unfoldable pub chroma_embedded_compact_all :
      (Text → Result EmbeddedCompactAllPayload Text)
      → (EmbeddedCompactionResponse → Result Text Text)
      → Bool
      → CharPtr
      → World State
      → Option Text × World State
  chroma_embedded_compact_all from_str to_string =
      context_endpoint (text "compact all failed: ") from_str (λ p. ok p)
        (λ p s. called (compact_all p s)) lock_poisoned
        (text "compact all completed but failed to serialize response") (serialize_option to_string)
