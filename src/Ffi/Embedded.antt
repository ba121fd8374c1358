-- ===== src/Ffi/Embedded.antt =====
-- The endpoints of embedded mode in shim/src/lib.rs. Each checks its handle, reads its request,
-- takes the frontend's lock and makes one call of the frontend. A call that panics unwinds through
-- the lock's guard, so the lock stays poisoned.
use chroma_go_local.Base.{
  ℕ, ◌+◌, ◌<◌, Bool, true, false, not, ◌&&◌, ◌||◌, Option, none, some, List, [], ◌∷◌, ◌++◌, ltb,
  ◌==◌, length, is_some, is_none, unwrap_or, if◌then◌else◌, Result, ok, err, ok_or, map_err,
}
use chroma_go_local.Base.Int.{ℤ, pos, negsuc}
use chroma_go_local.Base.Text.{Text, text}
use chroma_go_local.Ffi.LastError.{set_last_error}
use chroma_go_local.Ffi.Boundary.{
  World, Exit, value, returns, panics, PanicPayload, Ffi, ◌>>=◌, ◌>>◌, pure, fail_with,
  check_not_null, or_return, with_ffi_panic_boundary, CharPtr, c_ptr_to_string, success,
  error_invalid_handle, error_null_input, error_config_parse, error_operation_failed,
  json_to_c_string_ptr, json_to_c_string_ptr_with_context,
}
pub mod Locking
pub mod Held
pub mod Session

-- What a frontend call came to, and the state that it left.
pub data Called (A : Type 0) : Type 0 where
  answered : A → Called A
  failed : Text → Called A
  panicked : PanicPayload → Called A

abbrev pub Call : Type 0 → Type 0 → Type 0
Call S A = S → Called A × S

-- What an endpoint returns when it does not succeed.
pub record Exits (R : Type 0) : Type 0 where
  pub bad_handle : R
  pub bad_request : R
  pub locked : R
  pub refused : R

-- `ffi_guard_code!` and the codes that its bodies return.
abbrev pub codes : Exits ℤ
codes = record {
  bad_handle = error_invalid_handle;
  bad_request = error_config_parse;
  locked = error_operation_failed;
  refused = error_operation_failed;
}

-- `ffi_guard_ptr_mut!`: NULL for every failure.
abbrev pub nulls : Exits (Option Text)
nulls = record { bad_handle = none; bad_request = none; locked = none; refused = none }

abbrev pub lock_poisoned : Text
lock_poisoned = text "embedded frontend lock poisoned"

module _ {S R : Type 0} where
  -- `embedded.frontend.lock()`
  unfoldable pub lock_frontend : Text → R → Ffi S R (Unit {0})
  lock_frontend lock_error r w = elim w.poisoned [
    | true ↦ fail_with lock_error r w
    | false ↦ (value tt, w)
  ]

  unfoldable pub resolved : {A : Type 0} → Text → R → World S → Called A × S → Exit R A × World S
  resolved label r w (answered a, s) = (value a, record w { state = s })
  resolved label r w (failed e, s) = fail_with (label ++ e) r (record w { state = s })
  resolved label r w (panicked p, s) = (panics p, record w { state = s; poisoned = true })

  -- `block_on(..)` under the lock: an error is returned behind its label.
  unfoldable pub block_on : {A : Type 0} → Text → R → Call S A → Ffi S R A
  unfolding resolved
  block_on label r call w = resolved label r w (call w.state)

  -- `parse_json_request`, with what serde makes of the text.
  unfoldable pub parse_json_request :
      {P : Type 0} → (Text → Result P Text) → CharPtr → R → Ffi S R P
  parse_json_request from_str request_json r = do
    request_str ← or_return (c_ptr_to_string request_json (text "request_json")) r
    or_return (map_err (λ e. text "invalid request JSON: " ++ e) (from_str request_str)) r

  -- The body of an endpoint with a request: handle, payload, request, lock, call, answer.
  unfoldable pub request_body :
      {P Q A : Type 0}
      → Exits R
      → Text
      → Text
      → (Text → Result P Text)
      → (P → Result Q Text)
      → (Q → Call S A)
      → (A → Ffi S R R)
      → Bool
      → CharPtr
      → Ffi S R R
  request_body x lock_error label from_str into_request call answer is_null request_json = do
    check_not_null is_null (text "handle is null") x.bad_handle
    payload ← parse_json_request from_str request_json x.bad_request
    request ← or_return (into_request payload) x.bad_request
    lock_frontend lock_error x.locked
    a ← block_on label x.refused (call request)
    answer a

  -- The body of an endpoint without one.
  unfoldable pub plain_body :
      {A : Type 0} → Exits R → Text → Call S A → (A → Ffi S R R) → Bool → Ffi S R R
  plain_body x label call answer is_null = do
    check_not_null is_null (text "handle is null") x.bad_handle
    lock_frontend lock_poisoned x.locked
    a ← block_on label x.refused call
    answer a

-- The serialized answer, as the last step of a body.
unfoldable pub serialize : {S : Type 0} → Result Text Text → Ffi S (Option Text) (Option Text)
serialize json w = let (s, w') = json_to_c_string_ptr json w in (value s, w')

-- The same with a context in front of an error, as the maintenance endpoints do.
unfoldable pub serialize_with_context :
    {S : Type 0} → Result Text Text → Text → Ffi S (Option Text) (Option Text)
serialize_with_context json context w =
    let (s, w') = json_to_c_string_ptr_with_context json context w in (value s, w')

module _ {S P Q A : Type 0} (label : Text) (from_str : Text → Result P Text)
    (into_request : P → Result Q Text) (call : Q → Call S A) where
  -- An endpoint that answers with a code.
  unfoldable pub code_endpoint : Bool → CharPtr → World S → ℤ × World S
  code_endpoint is_null request_json = with_ffi_panic_boundary error_operation_failed (
      request_body codes lock_poisoned label from_str into_request call (λ _. pure success) is_null
        request_json)

  -- An endpoint that answers with JSON, or NULL.
  unfoldable pub json_endpoint :
      (A → Result Text Text) → Bool → CharPtr → World S → Option Text × World S
  json_endpoint to_string is_null request_json = with_ffi_panic_boundary none (
      request_body nulls lock_poisoned label from_str into_request call
        (λ a. serialize (to_string a)) is_null request_json)

  -- One that also names the poisoned lock and puts a context before an error of its answer.
  unfoldable pub context_endpoint :
      Text → Text → (A → Result Text Text) → Bool → CharPtr → World S → Option Text × World S
  context_endpoint lock_error context to_string is_null request_json =
      with_ffi_panic_boundary none (
        request_body nulls lock_error label from_str into_request call
          (λ a. serialize_with_context (to_string a) context) is_null request_json)

-- The outcome of an action, as that of a frontend call.
unfoldable pub called : {S A : Type 0} → Result A Text × S → Called A × S
called (ok a, s) = (answered a, s)
called (err e, s) = (failed e, s)

-- `format!("embedded frontend lock poisoned: {e}")`, with what the lock shows of its error.
abbrev pub lock_poisoned_by : Text → Text
lock_poisoned_by shown = text "embedded frontend lock poisoned: " ++ shown
