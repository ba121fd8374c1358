-- ===== src/Ffi/Databases.antt =====
-- The database endpoints of shim/src/lib.rs and the payloads that they read.
use chroma_go_local.Base.{ℕ, Bool, Option, Result, ◌>>=◌, unwrap_or}
use chroma_go_local.Base.Int.{ℤ}
use chroma_go_local.Base.Text.{Text, text}
use chroma_go_local.Ffi.Boundary.{World, CharPtr}
use chroma_go_local.Ffi.Embedded.{Call, code_endpoint, json_endpoint}
use chroma_go_local.Ffi.Names.{parse_database_name, resolve_tenant}

pub record EmbeddedCreateDatabasePayload : Type 0 where
  pub name : Text
  pub tenant_id : Option Text

pub record EmbeddedListDatabasesPayload : Type 0 where
  pub tenant_id : Option Text
  pub limit : Option ℕ
  pub offset : Option ℕ

pub record EmbeddedGetDatabasePayload : Type 0 where
  pub name : Text
  pub tenant_id : Option Text

pub record EmbeddedDeleteDatabasePayload : Type 0 where
  pub name : Text
  pub tenant_id : Option Text

module _ {D Q : Type 0} (new : Text → Option D) (try_new : Text → D → Result Q Text) where
  unfoldable pub into_create_database : EmbeddedCreateDatabasePayload → Result Q Text
  into_create_database p = do
    database_name ← parse_database_name new p.name
    try_new (resolve_tenant p.tenant_id) database_name

  unfoldable pub into_get_database : EmbeddedGetDatabasePayload → Result Q Text
  into_get_database p = do
    database_name ← parse_database_name new p.name
    try_new (resolve_tenant p.tenant_id) database_name

unfoldable pub into_list_databases :
    {Q : Type 0}
    → (Text → Option ℕ → ℕ → Result Q Text)
    → EmbeddedListDatabasesPayload
    → Result Q Text
into_list_databases try_new p = try_new (resolve_tenant p.tenant_id) p.limit (unwrap_or p.offset 0)

-- A deletion takes the name as it is.
unfoldable pub into_delete_database :
    {Q : Type 0} → (Text → Text → Result Q Text) → EmbeddedDeleteDatabasePayload → Result Q Text
into_delete_database try_new p = try_new (resolve_tenant p.tenant_id) p.name

module _ {S Q A : Type 0} where
  unfoldable pub chroma_embedded_create_database :
      {D : Type 0}
      → (Text → Result EmbeddedCreateDatabasePayload Text)
      → (Text → Option D)
      → (Text → D → Result Q Text)
      → (Q → Call S A)
      → Bool
      → CharPtr
      → World S
      → ℤ × World S
  chroma_embedded_create_database from_str new try_new create_database =
      code_endpoint (text "create database failed: ") from_str (into_create_database new try_new)
        create_database

  unfoldable pub chroma_embedded_list_databases :
      (Text → Result EmbeddedListDatabasesPayload Text)
      → (Text → Option ℕ → ℕ → Result Q Text)
      → (Q → Call S A)
      → (A → Result Text Text)
      → Bool
      → CharPtr
      → World S
      → Option Text × World S
  chroma_embedded_list_databases from_str try_new list_databases =
      json_endpoint (text "list databases failed: ") from_str (into_list_databases try_new)
        list_databases

  unfoldable pub chroma_embedded_get_database :
      {D : Type 0}
      → (Text → Result EmbeddedGetDatabasePayload Text)
      → (Text → Option D)
      → (Text → D → Result Q Text)
      → (Q → Call S A)
      → (A → Result Text Text)
      → Bool
      → CharPtr
      → World S
      → Option Text × World S
  chroma_embedded_get_database from_str new try_new get_database =
      json_endpoint (text "get database failed: ") from_str (into_get_database new try_new)
        get_database

  unfoldable pub chroma_embedded_delete_database :
      (Text → Result EmbeddedDeleteDatabasePayload Text)
      → (Text → Text → Result Q Text)
      → (Q → Call S A)
      → Bool
      → CharPtr
      → World S
      → ℤ × World S
  chroma_embedded_delete_database from_str try_new delete_database =
      code_endpoint (text "delete database failed: ") from_str (into_delete_database try_new)
        delete_database
