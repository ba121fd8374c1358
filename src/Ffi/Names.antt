-- ===== src/Ffi/Names.antt =====
-- How the requests of embedded mode name a tenant, a database and a collection: the defaults and
-- the checked names of shim/src/lib.rs. `DatabaseName::new` and `CollectionUuid::from_str` are
-- foreign, and so are the `try_new` of the requests.
use chroma_go_local.Base.{Option, ◌++◌, Result, map_err, ok_or, unwrap_or}
use chroma_go_local.Base.Text.{Text, text}

abbrev pub default_tenant : Text
default_tenant = text "default_tenant"

abbrev pub default_database : Text
default_database = text "default_database"

unfoldable pub parse_database_name : {D : Type 0} → (Text → Option D) → Text → Result D Text
parse_database_name new database_name =
    ok_or (new database_name) (text "database_name must be at least 3 characters")

unfoldable pub resolve_database_name : Option Text → Text
resolve_database_name database_name = unwrap_or database_name default_database

unfoldable pub resolve_database_name_typed :
    {D : Type 0} → (Text → Option D) → Option Text → Result D Text
resolve_database_name_typed new database_name =
    parse_database_name new (resolve_database_name database_name)

-- `tenant_id.unwrap_or_else(|| DEFAULT_TENANT.to_string())`
unfoldable pub resolve_tenant : Option Text → Text
resolve_tenant tenant_id = unwrap_or tenant_id default_tenant

-- `CollectionUuid::from_str(..)`, its error behind the field's name.
unfoldable pub parse_collection_id :
    {U : Type 0} → (Text → Result U Text) → Text → Text → Result U Text
parse_collection_id from_str field id =
    map_err (λ e. text "invalid " ++ (field ++ (text ": " ++ e))) (from_str id)

-- `parse_where_fields`: a missing clause is JSON's null, and `parse` is that of `RawWhereFields`.
unfoldable pub parse_where_fields :
    {V W : Type 0}
    → V
    → (V → V → Result (Option W) Text)
    → Option V
    → Option V
    → Result (Option W) Text
parse_where_fields null_value parse where_clause where_document =
    parse (unwrap_or where_clause null_value) (unwrap_or where_document null_value)
