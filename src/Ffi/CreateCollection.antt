-- ===== src/Ffi/CreateCollection.antt =====
-- The creation of a collection in shim/src/lib.rs. Metadata, JSON values, configurations and schemas are
-- foreign types.
use chroma_go_local.Base.{Bool, Option, none, some, ◌++◌, Result, ok, ◌>>=◌, map_err, map_ok}
use chroma_go_local.Base.Text.{Text, text}
use chroma_go_local.Ffi.Boundary.{World, CharPtr}
use chroma_go_local.Ffi.Embedded.{Call, json_endpoint}
use chroma_go_local.Ffi.Names.{resolve_tenant, resolve_database_name_typed}

pub record EmbeddedCreateCollectionPayload (M V : Type 0) : Type 0 where
  pub name : Text
  pub tenant_id : Option Text
  pub database_name : Option Text
  pub metadata : Option M
  pub configuration : Option V
  pub schema : Option V
  pub get_or_create : Bool

-- `Option::map` with a fallible function, then `transpose`.
unfoldable pub transposed : {A B : Type 0} → (A → Result B Text) → Option A → Result (Option B) Text
transposed f none = ok none
transposed f (some a) = map_ok some (f a)

module _ {D M V C K H Q : Type 0} (new : Text → Option D)
    (configuration_from_value : V → Result C Text) (try_into : C → Result K Text)
    (schema_from_value : V → Result H Text)
    (try_new : Text → D → Text → Option M → Option K → Option H → Bool → Result Q Text) where
  -- A configuration is decoded, then converted.
  unfoldable pub parse_configuration : V → Result K Text
  parse_configuration raw = do
    configuration ←
        map_err (λ e. text "invalid configuration payload: " ++ e) (configuration_from_value raw)
    map_err (λ e. text "invalid configuration value: " ++ e) (try_into configuration)

  unfoldable pub parse_schema : V → Result H Text
  parse_schema raw = map_err (λ e. text "invalid schema payload: " ++ e) (schema_from_value raw)

  unfoldable pub into_create_collection : EmbeddedCreateCollectionPayload M V → Result Q Text
  into_create_collection p = do
    database_name ← resolve_database_name_typed new p.database_name
    configuration ← transposed parse_configuration p.configuration
    schema ← transposed parse_schema p.schema
    try_new (resolve_tenant p.tenant_id) database_name p.name p.metadata configuration schema
        p.get_or_create

  unfoldable pub chroma_embedded_create_collection :
      {S A : Type 0}
      → (Text → Result (EmbeddedCreateCollectionPayload M V) Text)
      → (Q → Call S A)
      → (A → Result Text Text)
      → Bool
      → CharPtr
      → World S
      → Option Text × World S
  chroma_embedded_create_collection from_str create_collection =
      json_endpoint (text "create collection failed: ") from_str into_create_collection
        create_collection
