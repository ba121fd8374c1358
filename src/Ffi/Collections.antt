-- ===== src/Ffi/Collections.antt =====
-- The collection endpoints of shim/src/lib.rs and the payloads that they read. Metadata is a
-- foreign type.
use chroma_go_local.Base.{
  ℕ, Bool, Option, none, some, ◌&&◌, is_none, if◌then◌else◌, Result, ok, err, ◌>>=◌, unwrap_or,
}
use chroma_go_local.Base.Int.{ℤ}
use chroma_go_local.Base.Text.{Text, text}
use chroma_go_local.Ffi.Boundary.{World, CharPtr}
use chroma_go_local.Ffi.Embedded.{Call, code_endpoint, json_endpoint}
use chroma_go_local.Ffi.Names.{
  parse_database_name, parse_collection_id, resolve_tenant, resolve_database_name,
  resolve_database_name_typed,
}

pub record EmbeddedListCollectionsPayload : Type 0 where
  pub tenant_id : Option Text
  pub database_name : Option Text
  pub limit : Option ℕ
  pub offset : Option ℕ

pub record EmbeddedGetCollectionPayload : Type 0 where
  pub name : Text
  pub tenant_id : Option Text
  pub database_name : Option Text

pub record EmbeddedUpdateCollectionPayload (M : Type 0) : Type 0 where
  pub database_name : Option Text
  pub collection_id : Text
  pub new_name : Option Text
  pub new_metadata : Option M

pub record EmbeddedDeleteCollectionPayload : Type 0 where
  pub name : Text
  pub tenant_id : Option Text
  pub database_name : Option Text

pub record EmbeddedForkCollectionPayload : Type 0 where
  pub source_collection_id : Text
  pub target_collection_name : Text
  pub tenant_id : Option Text
  pub database_name : Option Text

unfoldable pub into_list_collections :
    {D Q : Type 0}
    → (Text → Option D)
    → (Text → D → Option ℕ → ℕ → Result Q Text)
    → EmbeddedListCollectionsPayload
    → Result Q Text
into_list_collections new try_new p = do
  database_name ← resolve_database_name_typed new p.database_name
  try_new (resolve_tenant p.tenant_id) database_name p.limit (unwrap_or p.offset 0)

unfoldable pub into_get_collection :
    {D Q : Type 0}
    → (Text → Option D)
    → (Text → D → Text → Result Q Text)
    → EmbeddedGetCollectionPayload
    → Result Q Text
into_get_collection new try_new p = do
  database_name ← resolve_database_name_typed new p.database_name
  try_new (resolve_tenant p.tenant_id) database_name p.name

-- `self.database_name.map(parse_database_name).transpose()`
unfoldable pub parse_optional_name :
    {D : Type 0} → (Text → Option D) → Option Text → Result (Option D) Text
parse_optional_name new none = ok none
parse_optional_name new (some name) = do
  database_name ← parse_database_name new name
  ok (some database_name)

-- The last argument of the foreign constructor, always `None` here, is left to `try_new`.
unfoldable pub into_update_collection :
    {D U M Q : Type 0}
    → (Text → Option D)
    → (Text → Result U Text)
    → (Option D → U → Option Text → Option M → Result Q Text)
    → EmbeddedUpdateCollectionPayload M
    → Result Q Text
into_update_collection new from_str try_new p = do
  database_name ← parse_optional_name new p.database_name
  collection_id ← parse_collection_id from_str (text "collection_id") p.collection_id
  if is_none p.new_name && is_none p.new_metadata
      then err (text "at least one of new_name or new_metadata is required")
      else try_new database_name collection_id p.new_name p.new_metadata

-- A deletion and a fork take the database's name as it is.
unfoldable pub into_delete_collection :
    {Q : Type 0}
    → (Text → Text → Text → Result Q Text)
    → EmbeddedDeleteCollectionPayload
    → Result Q Text
into_delete_collection try_new p =
    try_new (resolve_tenant p.tenant_id) (resolve_database_name p.database_name) p.name

unfoldable pub into_fork_collection :
    {U Q : Type 0}
    → (Text → Result U Text)
    → (Text → Text → U → Text → Result Q Text)
    → EmbeddedForkCollectionPayload
    → Result Q Text
into_fork_collection from_str try_new p = do
  source_collection_id ←
      parse_collection_id from_str (text "source_collection_id") p.source_collection_id
  try_new (resolve_tenant p.tenant_id) (resolve_database_name p.database_name) source_collection_id
      p.target_collection_name

module _ {S Q A : Type 0} where
  unfoldable pub chroma_embedded_list_collections :
      {D : Type 0}
      → (Text → Result EmbeddedListCollectionsPayload Text)
      → (Text → Option D)
      → (Text → D → Option ℕ → ℕ → Result Q Text)
      → (Q → Call S A)
      → (A → Result Text Text)
      → Bool
      → CharPtr
      → World S
      → Option Text × World S
  chroma_embedded_list_collections from_str new try_new list_collections =
      json_endpoint (text "list collections failed: ") from_str (into_list_collections new try_new)
        list_collections

  unfoldable pub chroma_embedded_get_collection :
      {D : Type 0}
      → (Text → Result EmbeddedGetCollectionPayload Text)
      → (Text → Option D)
      → (Text → D → Text → Result Q Text)
      → (Q → Call S A)
      → (A → Result Text Text)
      → Bool
      → CharPtr
      → World S
      → Option Text × World S
  chroma_embedded_get_collection from_str new try_new get_collection =
      json_endpoint (text "get collection failed: ") from_str (into_get_collection new try_new)
        get_collection

  unfoldable pub chroma_embedded_update_collection :
      {D U M : Type 0}
      → (Text → Result (EmbeddedUpdateCollectionPayload M) Text)
      → (Text → Option D)
      → (Text → Result U Text)
      → (Option D → U → Option Text → Option M → Result Q Text)
      → (Q → Call S A)
      → Bool
      → CharPtr
      → World S
      → ℤ × World S
  chroma_embedded_update_collection from_str new parse_id try_new update_collection =
      code_endpoint (text "update collection failed: ") from_str
        (into_update_collection new parse_id try_new) update_collection

  unfoldable pub chroma_embedded_delete_collection :
      (Text → Result EmbeddedDeleteCollectionPayload Text)
      → (Text → Text → Text → Result Q Text)
      → (Q → Call S A)
      → Bool
      → CharPtr
      → World S
      → ℤ × World S
  chroma_embedded_delete_collection from_str try_new delete_collection =
      code_endpoint (text "delete collection failed: ") from_str (into_delete_collection try_new)
        delete_collection

  unfoldable pub chroma_embedded_fork_collection :
      {U : Type 0}
      → (Text → Result EmbeddedForkCollectionPayload Text)
      → (Text → Result U Text)
      → (Text → Text → U → Text → Result Q Text)
      → (Q → Call S A)
      → (A → Result Text Text)
      → Bool
      → CharPtr
      → World S
      → Option Text × World S
  chroma_embedded_fork_collection from_str parse_id try_new fork_collection =
      json_endpoint (text "fork collection failed: ") from_str
        (into_fork_collection parse_id try_new) fork_collection
