-- ===== src/Ffi/Tenants.antt =====
-- The tenant endpoints of shim/src/lib.rs. `from_str` is serde's reading of the request's text,
-- `try_new` the foreign request's constructor, and a `Call` the frontend's method.
use chroma_go_local.Base.{Bool, Option, none, ◌++◌, Result}
use chroma_go_local.Base.Int.{ℤ}
use chroma_go_local.Base.Text.{Text, text}
use chroma_go_local.Ffi.Boundary.{World, CharPtr, with_ffi_panic_boundary}
use chroma_go_local.Ffi.Embedded.{Call, nulls, code_endpoint, request_body, serialize}

pub record EmbeddedCreateTenantPayload : Type 0 where
  pub name : Text

pub record EmbeddedGetTenantPayload : Type 0 where
  pub name : Text

pub record EmbeddedUpdateTenantPayload : Type 0 where
  pub tenant_id : Text
  pub resource_name : Text

module _ {S Q A : Type 0} where
  unfoldable pub chroma_embedded_create_tenant :
      (Text → Result EmbeddedCreateTenantPayload Text)
      → (Text → Result Q Text)
      → (Q → Call S A)
      → Bool
      → CharPtr
      → World S
      → ℤ × World S
  chroma_embedded_create_tenant from_str try_new create_tenant =
      code_endpoint (text "create tenant failed: ") from_str (λ p. try_new p.name) create_tenant

  -- The one endpoint of these that shows the lock's own error, `shown`.
  unfoldable pub chroma_embedded_get_tenant :
      Text
      → (Text → Result EmbeddedGetTenantPayload Text)
      → (Text → Result Q Text)
      → (Q → Call S A)
      → (A → Result Text Text)
      → Bool
      → CharPtr
      → World S
      → Option Text × World S
  chroma_embedded_get_tenant shown from_str try_new get_tenant to_string is_null request_json =
      with_ffi_panic_boundary none (
        request_body nulls (text "embedded frontend lock poisoned: " ++ shown)
          (text "get tenant failed: ") from_str (λ p. try_new p.name) get_tenant
          (λ tenant. serialize (to_string tenant)) is_null request_json)

  unfoldable pub chroma_embedded_update_tenant :
      (Text → Result EmbeddedUpdateTenantPayload Text)
      → (Text → Text → Result Q Text)
      → (Q → Call S A)
      → Bool
      → CharPtr
      → World S
      → ℤ × World S
  chroma_embedded_update_tenant from_str try_new update_tenant =
      code_endpoint (text "update tenant failed: ") from_str
        (λ p. try_new p.tenant_id p.resource_name) update_tenant
