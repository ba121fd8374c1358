-- ===== src/Ffi/Counting.antt =====
-- The two counts of shim/src/lib.rs, which write their answer through an out-pointer: the write is part of the
-- result.
use chroma_go_local.Base.{ℕ, Bool, Option, none, some, Result, ◌>>=◌}
use chroma_go_local.Base.Text.{Text, text}
use chroma_go_local.Ffi.Boundary.{
  World, Ffi, CharPtr, check_not_null, or_return, follow, pure, with_ffi_panic_boundary, success,
  error_invalid_handle, error_null_input, error_config_parse, error_operation_failed,
}
use chroma_go_local.Ffi.Embedded.{Call, parse_json_request, lock_frontend, lock_poisoned, block_on}
use chroma_go_local.Ffi.Names.{resolve_tenant, resolve_database_name_typed}
use chroma_go_local.Ffi.Requests.{EmbeddedCountPayload, into_count}
use chroma_go_local.Ffi.Status.{Written}

pub record EmbeddedCountCollectionsPayload : Type 0 where
  pub tenant_id : Option Text
  pub database_name : Option Text

unfoldable pub into_count_collections :
    {D Q : Type 0}
    → (Text → Option D)
    → (Text → D → Result Q Text)
    → EmbeddedCountCollectionsPayload
    → Result Q Text
into_count_collections new try_new p = do
  database_name ← resolve_database_name_typed new p.database_name
  try_new (resolve_tenant p.tenant_id) database_name

module _ {S P Q : Type 0} (label : Text) (from_str : Text → Result P Text)
    (into_request : P → Result Q Text) (count : Q → Call S ℕ) where
  -- Handle, out-pointer, payload, request, lock, call, write.
  unfoldable pub count_body : Bool → Bool → CharPtr → Ffi S Written Written
  count_body is_null out_is_null request_json w =
      follow (check_not_null is_null (text "handle is null") (error_invalid_handle, none) w) λ a w₁.
        follow (check_not_null out_is_null (text "out_count is null") (error_null_input, none) w₁)
          λ b w₂.
            follow (parse_json_request from_str request_json (error_config_parse, none) w₂)
              λ payload w₃.
                follow (or_return (into_request payload) (error_config_parse, none) w₃)
                  λ request w₄.
                    follow (lock_frontend lock_poisoned (error_operation_failed, none) w₄) λ c w₅.
                      follow (block_on label (error_operation_failed, none) (count request) w₅)
                        λ n. pure (success, some n)

  unfoldable pub count_endpoint : Bool → Bool → CharPtr → World S → Written × World S
  count_endpoint is_null out_is_null request_json =
      with_ffi_panic_boundary (error_operation_failed, none)
        (count_body is_null out_is_null request_json)

unfoldable pub chroma_embedded_count_collections :
    {S D Q : Type 0}
    → (Text → Result EmbeddedCountCollectionsPayload Text)
    → (Text → Option D)
    → (Text → D → Result Q Text)
    → (Q → Call S ℕ)
    → Bool
    → Bool
    → CharPtr
    → World S
    → Written × World S
chroma_embedded_count_collections from_str new try_new count_collections =
    count_endpoint (text "count collections failed: ") from_str (into_count_collections new try_new)
      count_collections

unfoldable pub chroma_embedded_count :
    {S U Q : Type 0}
    → (Text → Result EmbeddedCountPayload Text)
    → (Text → Result U Text)
    → (Text → Text → U → Result Q Text)
    → (Q → Call S ℕ)
    → Bool
    → Bool
    → CharPtr
    → World S
    → Written × World S
chroma_embedded_count from_str parse_id try_new count =
    count_endpoint (text "count records failed: ") from_str (into_count parse_id try_new) count
