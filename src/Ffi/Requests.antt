-- ===== src/Ffi/Requests.antt =====
-- The payloads of the record endpoints of shim/src/lib.rs and the requests made of them. JSON values,
-- metadata, include lists and requests are foreign types; a vector is a list of floats of a
-- foreign type.
use chroma_go_local.Base.{ℕ, Option, none, some, List, map, Result, ok, ◌>>=◌, unwrap_or}
use chroma_go_local.Base.Text.{Text, text}
use chroma_go_local.Ffi.Names.{
  parse_collection_id, resolve_tenant, resolve_database_name, resolve_database_name_typed,
  parse_where_fields,
}

abbrev pub default_query_results : ℕ
default_query_results = 10

pub record EmbeddedCountPayload : Type 0 where
  pub collection_id : Text
  pub tenant_id : Option Text
  pub database_name : Option Text

pub record EmbeddedIndexingStatusPayload : Type 0 where
  pub collection_id : Text
  pub database_name : Option Text

pub record EmbeddedAddPayload (F M : Type 0) : Type 0 where
  pub collection_id : Text
  pub ids : List Text
  pub embeddings : List (List F)
  pub documents : Option (List (Option Text))
  pub uris : Option (List (Option Text))
  pub metadatas : Option (List (Option M))
  pub tenant_id : Option Text
  pub database_name : Option Text

pub record EmbeddedUpdatePayload (F M : Type 0) : Type 0 where
  pub collection_id : Text
  pub ids : List Text
  pub embeddings : Option (List (List F))
  pub documents : Option (List (Option Text))
  pub uris : Option (List (Option Text))
  pub metadatas : Option (List (Option M))
  pub tenant_id : Option Text
  pub database_name : Option Text

pub record EmbeddedUpsertPayload (F M : Type 0) : Type 0 where
  pub collection_id : Text
  pub ids : List Text
  pub embeddings : List (List F)
  pub documents : Option (List (Option Text))
  pub uris : Option (List (Option Text))
  pub metadatas : Option (List (Option M))
  pub tenant_id : Option Text
  pub database_name : Option Text

pub record EmbeddedGetPayload (V : Type 0) : Type 0 where
  pub collection_id : Text
  pub ids : Option (List Text)
  pub where_clause : Option V
  pub where_document : Option V
  pub limit : Option ℕ
  pub offset : Option ℕ
  pub include : Option (List Text)
  pub tenant_id : Option Text
  pub database_name : Option Text

pub record EmbeddedQueryPayload (F V : Type 0) : Type 0 where
  pub collection_id : Text
  pub query_embeddings : List (List F)
  pub n_results : Option ℕ
  pub ids : Option (List Text)
  pub where_clause : Option V
  pub where_document : Option V
  pub include : Option (List Text)
  pub tenant_id : Option Text
  pub database_name : Option Text

-- A batch of records, as the foreign constructors of the writing requests take it.
abbrev pub NewRecords : Type 0 → Type 0 → Type 0 → Type 0 → Type 0
NewRecords U E M Q =
    Text
    → Text
    → U
    → List Text
    → E
    → Option (List (Option Text))
    → Option (List (Option Text))
    → Option (List (Option M))
    → Result Q Text

-- The database's name is checked before the collection's id.
unfoldable pub into_indexing_status :
    {D U : Type 0}
    → (Text → Result U Text)
    → (Text → Option D)
    → EmbeddedIndexingStatusPayload
    → Result (D × U) Text
into_indexing_status from_str new p = do
  database_name ← resolve_database_name_typed new p.database_name
  collection_id ← parse_collection_id from_str (text "collection_id") p.collection_id
  ok (database_name, collection_id)

-- Each embedding of an update is one that is there.
unfoldable pub present : {F : Type 0} → Option (List (List F)) → Option (List (Option (List F)))
present none = none
present (some rows) = some (map some rows)

-- What to include: a list that is checked, or the default of the operation.
unfoldable pub resolve_include :
    {I : Type 0} → (List Text → Result I Text) → I → Option (List Text) → Result I Text
resolve_include try_from default none = ok default
resolve_include try_from default (some values) = try_from values

module _ {U Q : Type 0} (from_str : Text → Result U Text) where
  -- The read level is the default one, which is left to `try_new`.
  unfoldable pub into_count :
      (Text → Text → U → Result Q Text) → EmbeddedCountPayload → Result Q Text
  into_count try_new p = do
    collection_id ← parse_collection_id from_str (text "collection_id") p.collection_id
    try_new (resolve_tenant p.tenant_id) (resolve_database_name p.database_name) collection_id

  module _ {F M : Type 0} where
    unfoldable pub into_add :
        NewRecords U (List (List F)) M Q → EmbeddedAddPayload F M → Result Q Text
    into_add try_new p = do
      collection_id ← parse_collection_id from_str (text "collection_id") p.collection_id
      try_new (resolve_tenant p.tenant_id) (resolve_database_name p.database_name) collection_id
          p.ids p.embeddings p.documents p.uris p.metadatas

    unfoldable pub into_update :
        NewRecords U (Option (List (Option (List F)))) M Q
        → EmbeddedUpdatePayload F M
        → Result Q Text
    into_update try_new p = do
      collection_id ← parse_collection_id from_str (text "collection_id") p.collection_id
      try_new (resolve_tenant p.tenant_id) (resolve_database_name p.database_name) collection_id
          p.ids (present p.embeddings) p.documents p.uris p.metadatas

    unfoldable pub into_upsert :
        NewRecords U (List (List F)) M Q → EmbeddedUpsertPayload F M → Result Q Text
    into_upsert try_new p = do
      collection_id ← parse_collection_id from_str (text "collection_id") p.collection_id
      try_new (resolve_tenant p.tenant_id) (resolve_database_name p.database_name) collection_id
          p.ids p.embeddings p.documents p.uris p.metadatas

  module _ {V W I : Type 0} (null_value : V) (parse : V → V → Result (Option W) Text)
      (try_from : List Text → Result I Text) (default : I) where
    unfoldable pub into_get :
        (Text → Text → U → Option (List Text) → Option W → Option ℕ → ℕ → I → Result Q Text)
        → EmbeddedGetPayload V
        → Result Q Text
    into_get try_new p = do
      collection_id ← parse_collection_id from_str (text "collection_id") p.collection_id
      filter ← parse_where_fields null_value parse p.where_clause p.where_document
      include ← resolve_include try_from default p.include
      try_new (resolve_tenant p.tenant_id) (resolve_database_name p.database_name) collection_id
          p.ids filter p.limit (unwrap_or p.offset 0) include

    unfoldable pub into_query :
        {F : Type 0}
        → (Text → Text → U → Option (List Text) → Option W → List (List F) → ℕ → I → Result Q Text)
        → EmbeddedQueryPayload F V
        → Result Q Text
    into_query try_new p = do
      collection_id ← parse_collection_id from_str (text "collection_id") p.collection_id
      filter ← parse_where_fields null_value parse p.where_clause p.where_document
      include ← resolve_include try_from default p.include
      try_new (resolve_tenant p.tenant_id) (resolve_database_name p.database_name) collection_id
          p.ids filter p.query_embeddings (unwrap_or p.n_results default_query_results) include
