-- ===== src/Ffi/Records.antt =====
-- The deletion of records in shim/src/lib.rs: one body behind two endpoints. JSON values, where
-- clauses and responses are foreign types.
use chroma_go_local.Base.{
  ◌<◌, ℕ, ◌≡◌, Bool, true, Option, none, some, List, ◌==◌, if◌then◌else◌, Result, ok, err, ◌>>=◌,
  ◌>>◌, arith, is_none, is_some,
}
use chroma_go_local.Base.Int.{ℤ}
use chroma_go_local.Base.Text.{Text, text}
use chroma_go_local.Ffi.Boundary.{
  World, Exit, value, returns, panics, follow, pure, fail_with, or_return, check_not_null, Ffi,
  CharPtr, with_ffi_panic_boundary, success, error_operation_failed, json_to_c_string_ptr,
}
use chroma_go_local.Ffi.Embedded.{
  Call, Exits, codes, lock_poisoned, request_body, block_on, resolved, lock_frontend,
  parse_json_request, serialize,
}
use chroma_go_local.Ffi.Names.{
  resolve_tenant, resolve_database_name, parse_collection_id, parse_where_fields,
}

pub record EmbeddedDeleteRecordsPayload (V : Type 0) : Type 0 where
  pub collection_id : Text
  pub ids : Option (List Text)
  pub where_clause : Option V
  pub where_document : Option V
  pub limit : Option ℕ
  pub tenant_id : Option Text
  pub database_name : Option Text

-- The limit needs a filter and must be positive.
unfoldable pub check_limit : {W : Type 0} → Option ℕ → Option W → Result (Unit {0}) Text
check_limit none filter = ok tt
check_limit (some limit) filter =
    if limit == 0
    then err (text "limit must be greater than 0")
    else (if is_none filter
        then err
            (text "limit can only be specified when a where or where_document clause is provided")
        else ok tt)

module _ {V W U Q : Type 0} (from_str : Text → Result U Text) (null_value : V)
    (parse : V → V → Result (Option W) Text)
    (try_new : Text → Text → U → Option (List Text) → Option W → Option ℕ → Result Q Text) where
  unfoldable pub into_delete_records : EmbeddedDeleteRecordsPayload V → Result Q Text
  into_delete_records p = do
    collection_id ← parse_collection_id from_str (text "collection_id") p.collection_id
    filter ← parse_where_fields null_value parse p.where_clause p.where_document
    check_limit p.limit filter
    try_new (resolve_tenant p.tenant_id) (resolve_database_name p.database_name) collection_id p.ids
        filter p.limit

  -- A deletion whose request is accepted has no limit, or a positive one and a filter.
  pub into_delete_records-limit :
      (p : EmbeddedDeleteRecordsPayload V) (request : Q) (limit : ℕ)
      → into_delete_records p ≡ ok request
      → p.limit ≡ some limit
      → (0 < limit)
        × ((filter : W) × (parse_where_fields null_value parse p.where_clause p.where_document
              ≡ ok (some filter)))
  unfolding into_delete_records check_limit parse_collection_id
  into_delete_records-limit p request limit made e = ground arith

-- A body that is called inside another one: its result is a value there, and its panic unwinds on.
unfoldable pub nested : {S R R' : Type 0} → Exit R R × World S → Exit R' R × World S
nested (value r, w) = (value r, w)
nested (returns r, w) = (value r, w)
nested (panics p, w) = (panics p, w)

-- The codes of the shared body, as errors.
abbrev pub refusals : {A : Type 0} → Exits (Result A ℤ)
refusals = record {
  bad_handle = err codes.bad_handle;
  bad_request = err codes.bad_request;
  locked = err codes.locked;
  refused = err codes.refused;
}

module _ {S P Q A : Type 0} (from_str : Text → Result P Text) (into_request : P → Result Q Text)
    (delete : Q → Call S A) where
  unfoldable pub run_embedded_delete_records : Bool → CharPtr → Ffi S (Result A ℤ) (Result A ℤ)
  run_embedded_delete_records is_null request_json =
      request_body refusals lock_poisoned (text "delete records failed: ") from_str into_request
        delete (λ response. pure (ok response)) is_null request_json

  unfoldable pub code_of : Result A ℤ → ℤ
  code_of (ok response) = success
  code_of (err code) = code

  unfoldable pub chroma_embedded_delete_records : Bool → CharPtr → World S → ℤ × World S
  chroma_embedded_delete_records is_null request_json =
      with_ffi_panic_boundary error_operation_failed (λ w.
        follow (nested (run_embedded_delete_records is_null request_json w))
          (λ result. pure (code_of result)))

  unfoldable pub answer_of : (A → Result Text Text) → Result A ℤ → Ffi S (Option Text) (Option Text)
  answer_of to_string (ok response) w = serialize (to_string response) w
  answer_of to_string (err code) w = (returns none, w)

  unfoldable pub chroma_embedded_delete_records_with_response :
      (A → Result Text Text) → Bool → CharPtr → World S → Option Text × World S
  chroma_embedded_delete_records_with_response to_string is_null request_json =
      with_ffi_panic_boundary none (λ w.
        follow (nested (run_embedded_delete_records is_null request_json w)) (answer_of to_string))

  -- The two entry points do the same to the frontend and its lock, whatever the request and the
  -- world. When the newer one answers, the older one returns success; and when the older one does
  -- not, the newer one returns NULL and leaves the same error.
  pub delete_records_agree :
      (to_string : A → Result Text Text) (is_null : Bool) (p : CharPtr) (w : World S)
      → let (code, v) = chroma_embedded_delete_records is_null p w in
        let (answer, v') = chroma_embedded_delete_records_with_response to_string is_null p w in
        (v'.state ≡ v.state)
        × (v'.poisoned ≡ v.poisoned)
        × (is_some answer ≡ true → code ≡ success)
        × (¬ (code ≡ success) → (answer ≡ none) × (v' ≡ v))
  unfolding chroma_embedded_delete_records chroma_embedded_delete_records_with_response
      run_embedded_delete_records nested code_of answer_of serialize with_ffi_panic_boundary
      request_body check_not_null fail_with or_return parse_json_request lock_frontend block_on
      resolved json_to_c_string_ptr
  delete_records_agree to_string is_null p w = ground arith
