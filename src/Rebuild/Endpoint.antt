-- ===== src/Rebuild/Endpoint.antt =====
-- `chroma_embedded_rebuild_collection` of shim/src/lib.rs, from the JSON of a request to the response. The
-- frontend's state is the host's world.
use chroma_go_local.Base.{
  Bool, true, false, Option, none, some, Result, ◌++◌, map_err, ◌>>=◌, unwrap_or, ok,
}
use chroma_go_local.Base.Text.{Text, text}
use chroma_go_local.Ffi.Boundary.{
  World, CharPtr, check_not_null, or_return, with_ffi_panic_boundary, Ffi, follow,
}
use chroma_go_local.Ffi.Embedded.{
  parse_json_request, lock_frontend, lock_poisoned_by, block_on, called, serialize_with_context,
}
use chroma_go_local.Ffi.Names.{resolve_tenant, resolve_database_name_typed}
use chroma_go_local.Rebuild.Host.{RebuildHost, EmbeddedRebuildCollectionResponse}
use chroma_go_local.Rebuild.Run.{run_rebuild_collection}
use chroma_go_local.Rebuild.Swap.{FilePath}
pub mod Safety

pub record EmbeddedRebuildCollectionPayload : Type 0 where
  pub name : Text
  pub tenant_id : Option Text
  pub database_name : Option Text
  pub precheck : Option Bool
  pub keep_backup : Option Bool

pub record RebuildCollectionRequestParts (Q : Type 0) : Type 0 where
  pub request : Q
  pub precheck : Bool
  pub keep_backup : Bool

-- A backup is kept unless the request says otherwise.
unfoldable pub into_rebuild_collection :
    {D Q : Type 0}
    → (Text → Option D)
    → (Text → D → Text → Result Q Text)
    → EmbeddedRebuildCollectionPayload
    → Result (RebuildCollectionRequestParts Q) Text
into_rebuild_collection new try_new p = do
  database_name ← resolve_database_name_typed new p.database_name
  request ← try_new (resolve_tenant p.tenant_id) database_name p.name
  ok (record {
    request = request;
    precheck = unwrap_or p.precheck false;
    keep_backup = unwrap_or p.keep_backup true;
  })

module _ (h : RebuildHost) where
  open h use {State, Request}

  -- The handle's path, as `to_str` gave it, is read under the lock.
  unfoldable pub run_request :
      Result FilePath Text
      → RebuildCollectionRequestParts Request
      → Ffi State (Option Text) EmbeddedRebuildCollectionResponse
  run_request persist_path parts w =
      follow
        (or_return (map_err (λ e. text "persist path is not valid UTF-8: " ++ e) persist_path) none
          w)
        (λ path. block_on (text "rebuild collection failed: ") none (λ s.
          called (run_rebuild_collection h path parts.request parts.precheck parts.keep_backup s)))

  unfoldable pub rebuild_body :
      {D : Type 0}
      → Text
      → (Text → Result EmbeddedRebuildCollectionPayload Text)
      → (Text → Option D)
      → (Text → D → Text → Result Request Text)
      → Result FilePath Text
      → (EmbeddedRebuildCollectionResponse → Result Text Text)
      → Bool
      → CharPtr
      → Ffi State (Option Text) (Option Text)
  rebuild_body shown from_str new try_new persist_path to_string is_null request_json w =
      follow (check_not_null is_null (text "handle is null") none w) λ checked w₁.
        follow (parse_json_request from_str request_json none w₁) λ payload w₂.
          follow (or_return (into_rebuild_collection new try_new payload) none w₂) λ parts w₃.
            follow (lock_frontend (lock_poisoned_by shown) none w₃) λ locked w₄.
              follow (run_request persist_path parts w₄) λ response.
                serialize_with_context (to_string response)
                  (text "rebuild collection completed but failed to serialize response")

  unfoldable pub chroma_embedded_rebuild_collection :
      {D : Type 0}
      → Text
      → (Text → Result EmbeddedRebuildCollectionPayload Text)
      → (Text → Option D)
      → (Text → D → Text → Result Request Text)
      → Result FilePath Text
      → (EmbeddedRebuildCollectionResponse → Result Text Text)
      → Bool
      → CharPtr
      → World State
      → Option Text × World State
  chroma_embedded_rebuild_collection shown from_str new try_new persist_path to_string is_null
        request_json =
      with_ffi_panic_boundary none
        (rebuild_body shown from_str new try_new persist_path to_string is_null request_json)
