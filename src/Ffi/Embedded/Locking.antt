-- ===== src/Ffi/Embedded/Locking.antt =====
-- What an endpoint leaves behind: the error slot agrees with the code that it returns, and a frontend
-- whose lock is poisoned is never called again.
use chroma_go_local.Base.{
  All, ◌∙◌, ◌≡◌, refl, Bool, true, false, List, [], ◌∷◌, arith, Result, ok, is_some,
}
use chroma_go_local.Base.Int.{ℤ, pos, negsuc}
use chroma_go_local.Base.Text.{Text}
use chroma_go_local.Ffi.LastError.{set_last_error}
use chroma_go_local.Ffi.Boundary.{
  PanicPayload, utf8, World, with_ffi_panic_boundary, fail_with, or_return, check_not_null, CharPtr,
  c_ptr_to_string, json_to_c_string_ptr,
}
use chroma_go_local.Ffi.Embedded.{
  Call, panicked, lock_frontend, resolved, block_on, parse_json_request, request_body, serialize,
  code_endpoint, json_endpoint,
}

unfoldable pub is_success : ℤ → Bool
is_success (pos n) = true
is_success (negsuc n) = false

module _ {S : Type 0} where
  -- An answer that is in order: `good` says that the endpoint succeeded.
  abbrev pub Settled : Bool → World S → World S → Type 0
  Settled true w w' = (w'.last_error ≡ w.last_error) × (w.poisoned ≡ false) × (w'.poisoned ≡ false)
  Settled false w w' =
      (is_some w'.last_error ≡ true)
      × (w.poisoned ≡ true → (w'.state ≡ w.state) × (w'.poisoned ≡ true))

  module _ {P Q A : Type 0} (label : Text) (from_str : Text → Result P Text)
      (into_request : P → Result Q Text) (call : Q → Call S A) where
    code_endpoint-Settled :
        (is_null : Bool) (p : CharPtr) (w : World S)
        → let (code, w') = code_endpoint label from_str into_request call is_null p w in
          Settled (is_success code) w w'
    unfolding code_endpoint with_ffi_panic_boundary request_body check_not_null fail_with or_return
        parse_json_request lock_frontend block_on resolved set_last_error is_success c_ptr_to_string
    code_endpoint-Settled is_null p w = ground arith

    json_endpoint-Settled :
        (to_string : A → Result Text Text) (is_null : Bool) (p : CharPtr) (w : World S)
        → let (answer, w') = json_endpoint label from_str into_request call to_string is_null p w in
          Settled (is_some answer) w w'
    unfolding json_endpoint with_ffi_panic_boundary request_body check_not_null fail_with or_return
        parse_json_request lock_frontend block_on resolved set_last_error c_ptr_to_string serialize
        json_to_c_string_ptr
    json_endpoint-Settled to_string is_null p w = ground arith

    -- An endpoint, whether it answers with a code or with JSON: one that succeeds, with the code of
    -- success or an answer other than NULL, leaves the error slot alone and found the lock in
    -- order. One that does not sets the error; and if the lock was poisoned, it leaves the
    -- frontend's state alone and the lock poisoned. This holds for every handle, request, serde
    -- and frontend call.
    pub endpoints-Settled :
        (to_string : A → Result Text Text) (is_null : Bool) (p : CharPtr) (w : World S)
        → let (code, w₁) = code_endpoint label from_str into_request call is_null p w in
          let (answer, w₂) = json_endpoint label from_str into_request call to_string is_null p w in
          Settled (is_success code) w w₁ × Settled (is_some answer) w w₂
    endpoints-Settled to_string is_null p w =
        (code_endpoint-Settled is_null p w, json_endpoint-Settled to_string is_null p w)

    -- The codes of a sequence of requests, each a handle and its text, and the world after them.
    unfoldable pub serve : List (Bool × CharPtr) → World S → List ℤ × World S
    serve [] w = ([], w)
    serve ((is_null, p) ∷ rs) w =
        let (code, w') = code_endpoint label from_str into_request call is_null p w in
        let (codes, w'') = serve rs w' in (code ∷ codes, w'')

    -- One request after a panic.
    code_endpoint-poisoned :
        (is_null : Bool) (p : CharPtr) (w : World S)
        → w.poisoned ≡ true
        → let (code, w') = code_endpoint label from_str into_request call is_null p w in
          (is_success code ≡ false) × (w'.state ≡ w.state) × (w'.poisoned ≡ true)
    unfolding code_endpoint with_ffi_panic_boundary request_body check_not_null fail_with or_return
        parse_json_request lock_frontend block_on resolved set_last_error is_success c_ptr_to_string
    code_endpoint-poisoned is_null p w locked = ground arith

    -- Any requests after a panic.
    pub serve-poisoned :
        (rs : List (Bool × CharPtr)) (w : World S)
        → w.poisoned ≡ true
        → All (λ code. is_success code ≡ false) (serve rs w).0 × ((serve rs w).1.state ≡ w.state)
    unfolding serve
    serve-poisoned [] w locked = (tt, refl)
    serve-poisoned ((is_null, p) ∷ rs) w locked =
        let (failed_one, kept, still) = code_endpoint-poisoned is_null p w locked in
        let (failed_all, rest) =
          serve-poisoned rs (code_endpoint label from_str into_request call is_null p w).1 still in
        ((failed_one, failed_all), rest ∙ kept)

    -- When the lock is in order, a request is read and its call of the frontend panics, then
    -- neither it nor any request after it to this endpoint succeeds, and the frontend's state
    -- stays what the panicking call left.
    pub serve_after_panic :
        (t : Text) (payload : P) (request : Q) (why : PanicPayload) (s : S)
        (rs : List (Bool × CharPtr)) (w : World S)
        → from_str t ≡ ok payload
        → into_request payload ≡ ok request
        → w.poisoned ≡ false
        → call request w.state ≡ (panicked why, s)
        → let (codes, w') = serve ((false, utf8 t) ∷ rs) w in
          All (λ code. is_success code ≡ false) codes × (w'.state ≡ s)
    unfolding serve code_endpoint with_ffi_panic_boundary request_body check_not_null fail_with
        or_return parse_json_request lock_frontend block_on resolved c_ptr_to_string is_success
    serve_after_panic t payload request why s rs w read made unlocked e =
        let (failed_all, rest) =
          serve-poisoned rs (code_endpoint label from_str into_request call false (utf8 t) w).1
            (ground arith) in
        ((ground arith, failed_all), rest ∙ ground arith)
