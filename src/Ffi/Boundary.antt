-- ===== src/Ffi/Boundary.antt =====
-- `with_ffi_panic_boundary` of shim/src/lib.rs, and the steps of the bodies that run inside it: a
-- body may return early, and a call that it makes may panic.
use chroma_go_local.Base.{Bool, true, false, Option, none, some, ◌++◌, Result, ok, err}
use chroma_go_local.Base.Int.{ℤ, pos, negsuc}
use chroma_go_local.Base.Text.{Text, text}
use chroma_go_local.Ffi.LastError.{set_last_error, c_string}

abbrev pub success : ℤ
success = pos 0

abbrev pub error_null_input : ℤ
error_null_input = negsuc 0

abbrev pub error_config_parse : ℤ
error_config_parse = negsuc 2

abbrev pub error_invalid_handle : ℤ
error_invalid_handle = negsuc 4

abbrev pub error_already_stopped : ℤ
error_already_stopped = negsuc 6

abbrev pub error_operation_failed : ℤ
error_operation_failed = negsuc 7

-- What `panic!` was given: text of either kind, or something else.
pub data PanicPayload : Type 0 where
  string str : Text → PanicPayload
  other : PanicPayload

unfoldable pub panic_payload_message : PanicPayload → Text
panic_payload_message (string message) = message
panic_payload_message (str message) = message
panic_payload_message other = text "unknown panic payload"

-- The error slot, the poison flag of the frontend's mutex, and the world behind the frontend.
pub record World (S : Type 0) : Type 0 where
  pub last_error : Option Text
  pub poisoned : Bool
  pub state : S

-- How a step of a body ends: with a value for the next one, with a `return`, or with a panic.
pub data Exit (R A : Type 0) : Type 0 where
  value : A → Exit R A
  returns : R → Exit R A
  panics : PanicPayload → Exit R A

abbrev pub Ffi : Type 0 → Type 0 → Type 0 → Type 0
Ffi S R A = World S → Exit R A × World S

module _ {S R : Type 0} where
  abbrev pub follow : {A B : Type 0} → Exit R A × World S → (A → Ffi S R B) → Exit R B × World S
  follow (value a, w) f = f a w
  follow (returns r, w) f = (returns r, w)
  follow (panics p, w) f = (panics p, w)

  infixl 5 ◌>>=◌ ◌>>◌
  abbrev pub ◌>>=◌ : {A B : Type 0} → Ffi S R A → (A → Ffi S R B) → Ffi S R B
  ◌>>=◌ m f w = follow (m w) f

  abbrev pub ◌>>◌ : {A B : Type 0} → Ffi S R A → Ffi S R B → Ffi S R B
  ◌>>◌ m k w = follow (m w) (λ _. k)

  abbrev pub pure : {A : Type 0} → A → Ffi S R A
  pure a w = (value a, w)

  -- `set_last_error(msg); return r`
  unfoldable pub fail_with : {A : Type 0} → Text → R → Ffi S R A
  fail_with msg r w = (returns r, record w { last_error = set_last_error msg w.last_error })

  -- `if handle.is_null()`
  unfoldable pub check_not_null : Bool → Text → R → Ffi S R (Unit {0})
  check_not_null true msg r = fail_with msg r
  check_not_null false msg r = pure tt

  -- `match result { Ok(v) => v, Err(e) => { set_last_error(e); return r } }`
  unfoldable pub or_return : {A : Type 0} → Result A Text → R → Ffi S R A
  or_return (ok a) r = pure a
  or_return (err e) r = fail_with e r

  caught : R → Exit R R × World S → R × World S
  caught default (value r, w) = (r, w)
  caught default (returns r, w) = (r, w)
  caught default (panics p, w) = (
    default,
    record w {
      last_error =
          set_last_error (text "panic across FFI boundary: " ++ panic_payload_message p)
            w.last_error;
    },
  )

  unfoldable pub with_ffi_panic_boundary : R → Ffi S R R → World S → R × World S
  unfolding caught
  with_ffi_panic_boundary default f w = caught default (f w)

-- `json_to_c_string_ptr`: `json` is what the serializer made of the response; NULL is `none`.
unfoldable pub json_to_c_string_ptr :
    {S : Type 0} → Result Text Text → World S → Option Text × World S
json_to_c_string_ptr (err e) w = (
  none,
  record w {
    last_error = set_last_error (text "failed to serialize response: " ++ e) w.last_error;
  },
)
json_to_c_string_ptr (ok json) w = elim (c_string json) [
  | some s ↦ (some s, w)
  | none ↦ (
    none,
    record w {
      last_error = set_last_error (text "serialized response contains null byte") w.last_error;
    },
  )
]

-- `json_to_c_string_ptr_with_context`: the context goes in front of the error of a failure.
unfoldable pub add_context : {S : Type 0} → Text → Option Text × World S → Option Text × World S
add_context context (some s, w) = (some s, w)
add_context context (none, w) = elim w.last_error [
  | none ↦ (none, record w { last_error = set_last_error context none })
  | some e ↦ (none, record w { last_error = set_last_error (context ++ (text ": " ++ e)) none })
]

unfoldable pub json_to_c_string_ptr_with_context :
    {S : Type 0} → Result Text Text → Text → World S → Option Text × World S
unfolding add_context
json_to_c_string_ptr_with_context json context w = add_context context (json_to_c_string_ptr json w)

-- A `const char *`: NULL, bytes that are no UTF-8, or text.
pub data CharPtr : Type 0 where
  null invalid_utf8 : CharPtr
  utf8 : Text → CharPtr

unfoldable pub c_ptr_to_string : CharPtr → Text → Result Text Text
c_ptr_to_string null arg_name = err (arg_name ++ text " is null")
c_ptr_to_string invalid_utf8 arg_name = err (arg_name ++ text " is not valid UTF-8")
c_ptr_to_string (utf8 s) arg_name = ok s
