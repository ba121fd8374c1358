-- ===== src/Ffi/Embedded/Held.antt =====
-- What an endpoint may do to the frontend's state: what its call does, for a request that was read.
use chroma_go_local.Base.{
  ◌≡◌, sym, refl, none, arith, Bool, true, false, Result, ok, err, Result-cases, Bool-cases, inl,
  inr, subst,
}
use chroma_go_local.Base.Text.{Text}
use chroma_go_local.Ffi.Boundary.{
  follow, World, Exit, value, returns, panics, with_ffi_panic_boundary,
  json_to_c_string_ptr_with_context, json_to_c_string_ptr, add_context, CharPtr, null, invalid_utf8,
  utf8, Ffi, fail_with, or_return, check_not_null, c_ptr_to_string,
}
use chroma_go_local.Ffi.Embedded.{
  Exits, Called, Call, answered, failed, panicked, lock_frontend, resolved, block_on,
  parse_json_request, request_body, nulls, serialize_with_context, context_endpoint, called,
}

module _ {S R P Q A : Type 0} (K : S → Type 0) (x : Exits R) (lock_error label : Text)
    (from_str : Text → Result P Text) (into_request : P → Result Q Text) (call : Q → Call S A)
    (answer : A → Ffi S R R)
    (calls : (p : P) (q : Q) (s : S) → into_request p ≡ ok q → K s → K (call q s).1)
    (answers : (a : A) (w : World S) → (answer a w).1.state ≡ w.state) where
  -- After the call.
  settled-held :
      (w : World S) (r : Called A × S)
      → K r.1
      → K (follow (resolved label x.refused w r) answer).1.state
  unfolding resolved fail_with
  settled-held w (answered a, s) k = subst K (sym (answers a (record w { state = s }))) k
  settled-held w (failed e, s) k = k
  settled-held w (panicked p, s) k = k

  pub request_body-held :
      (is_null : Bool) (p : CharPtr) (w : World S)
      → K w.state
      → K (request_body x lock_error label from_str into_request call answer is_null p w).1.state
  unfolding request_body check_not_null parse_json_request or_return fail_with lock_frontend
      block_on c_ptr_to_string
  request_body-held true p w k = k
  request_body-held false null w k = k
  request_body-held false invalid_utf8 w k = k
  request_body-held false (utf8 t) w k = elim (Result-cases (from_str t)) [
    | inr (e, bad) ↦ rw (bad, request_body) k
    | inl (payload, good) ↦ elim (Result-cases (into_request payload)) [
      | inr (e, bad) ↦ rw (good, bad, request_body) k
      | inl (q, made) ↦ elim (Bool-cases w.poisoned) [
        | inl locked ↦ rw (good, made, locked, request_body) k
        | inr free ↦
            rw (good, made, free, request_body)
              (settled-held w (call q w.state) (calls payload q w.state made k))
      ]
    ]
  ]

-- The panic boundary leaves the frontend's state as its body does.
pub boundary-state :
    {S R : Type 0} (r : R) (w : World S) (out : Exit R R × World S)
    → (with_ffi_panic_boundary r (λ v. out) w).1.state ≡ out.1.state
unfolding with_ffi_panic_boundary
boundary-state r w (value a, v) = refl
boundary-state r w (returns a, v) = refl
boundary-state r w (panics p, v) = refl

pub serialize_with_context-state :
    {S : Type 0} (json : Result Text Text) (context : Text) (w : World S)
    → (serialize_with_context json context w).1.state ≡ w.state
unfolding serialize_with_context json_to_c_string_ptr_with_context json_to_c_string_ptr add_context
serialize_with_context-state json context w = ground arith

module _ {S P Q A : Type 0} (K : S → Type 0) (lock_error label context : Text)
    (from_str : Text → Result P Text) (into_request : P → Result Q Text) (call : Q → Call S A)
    (to_string : A → Result Text Text)
    (calls : (p : P) (q : Q) (s : S) → into_request p ≡ ok q → K s → K (call q s).1) where
  pub context_endpoint-held :
      (is_null : Bool) (p : CharPtr) (w : World S)
      → K w.state
      → K
          (context_endpoint label from_str into_request call lock_error context to_string is_null p
            w).1.state
  unfolding context_endpoint with_ffi_panic_boundary
  context_endpoint-held is_null p w k =
      subst K
        (sym (
          boundary-state none w (
            request_body nulls lock_error label from_str into_request call
              (λ a. serialize_with_context (to_string a) context) is_null p w)))
        (request_body-held K nulls lock_error label from_str into_request call
          (λ a. serialize_with_context (to_string a) context) calls
          (λ a w'. serialize_with_context-state (to_string a) context w') is_null p w k)

-- An action that keeps a predicate does so as a call.
pub called-held : {S A : Type 0} (K : S → Type 0) (r : Result A Text × S) → K r.1 → K (called r).1
unfolding called
called-held K (ok a, s) k = k
called-held K (err e, s) k = k
