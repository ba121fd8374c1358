-- ===== src/Ffi/Embedded/Session/Refinement.antt =====
-- The endpoints of shim/src/lib.rs implement the machine of a session.
use chroma_go_local.Base.{
  ◌≡◌, refl, sym, Bool, true, false, inl, inr, Option, none, some, err, Bool-cases, is_some, List,
  [], ◌∷◌, All, Result, ok, Result-cases, subst, arith,
}
use chroma_go_local.Base.Text.{Text}
use chroma_go_local.Ffi.LastError.{has_null, c_string}
use chroma_go_local.Ffi.Boundary.{
  World, CharPtr, null, invalid_utf8, utf8, with_ffi_panic_boundary, fail_with, or_return,
  check_not_null, follow, pure, success, error_operation_failed, c_ptr_to_string,
  json_to_c_string_ptr,
}
use chroma_go_local.Ffi.Embedded.{
  Called, answered, failed, panicked, code_endpoint, json_endpoint, request_body, resolved,
  parse_json_request, lock_frontend, block_on, serialize,
}
use chroma_go_local.Ffi.Embedded.Locking.{is_success}
use chroma_go_local.Ffi.Embedded.Session.{
  Endpoint, Message, seen_code, seen_json, answer_message, answer_one, answer_all, Session, healthy,
  broken, IsRequest, IsShown, as_code, as_json, garbled, Step, rejected, locked, answers, fails,
  crashes, Run, done, next, session_of, session,
}

module _ {S : Type 0} where
  abbrev world_of : Option Text → Bool → S → World S
  world_of slot poisoned s = record { last_error = slot; poisoned = poisoned; state = s }

  module _ (e : Endpoint S) (slot : Option Text) (s : S) where
    -- From the outcome of the call on.
    settled_code : Called e.Answer × S → Bool × World S
    settled_code r = seen_code (
        with_ffi_panic_boundary error_operation_failed
          (λ v.
            follow (resolved e.label error_operation_failed (world_of slot false s) r)
              (λ a. pure success))
          (world_of slot false s))

    settled_json : (e.Answer → Result Text Text) → Called e.Answer × S → Bool × World S
    settled_json to_string r = seen_json (
        with_ffi_panic_boundary none
          (λ v.
            follow (resolved e.label none (world_of slot false s) r) (λ a. serialize (to_string a)))
          (world_of slot false s))

    abbrev IsStep : Bool → CharPtr → Bool → Bool × World S → Type 0
    IsStep is_null p poisoned out = Step e is_null p (session_of poisoned s) out.0 (session out.1)

    settled_code-Step :
        (is_null : Bool) (p : CharPtr) (q : e.Request) (r : Called e.Answer × S)
        → e.to_string ≡ none
        → IsRequest e is_null p q
        → e.call q s ≡ r
        → IsStep is_null p false (settled_code r)
    unfolding settled_code seen_code with_ffi_panic_boundary resolved fail_with is_success session
        session_of
    settled_code-Step is_null p q (answered a, s') kind made h = answers q made h (as_code kind)
    settled_code-Step is_null p q (failed m, s') kind made h = fails q made h
    settled_code-Step is_null p q (panicked why, s') kind made h = crashes q made h

    -- A serializer leaves the mutex and the state alone.
    serialize-session :
        (json : Result Text Text) (s' : S)
        → session (json_to_c_string_ptr json (world_of slot false s')).1 ≡ healthy s'
    unfolding json_to_c_string_ptr session session_of
    serialize-session json s' = ground arith

    shown_text :
        (s : Text) (w : World S)
        → (has_null s ≡ true → is_some (json_to_c_string_ptr (ok s) w).0 ≡ false)
          × (has_null s ≡ false → is_some (json_to_c_string_ptr (ok s) w).0 ≡ true)
    unfolding json_to_c_string_ptr c_string
    shown_text s w = (λ h. ground arith, λ h. ground arith)

    serialize-IsShown :
        (to_string : e.Answer → Result Text Text) (a : e.Answer) (w : World S)
        → e.to_string ≡ some to_string
        → IsShown e a (is_some (json_to_c_string_ptr (to_string a) w).0)
    unfolding json_to_c_string_ptr
    serialize-IsShown to_string a w kind = elim (Result-cases (to_string a)) [
      | inr (x, bad) ↦ rw bad (garbled kind (λ s made. let no_ : ⊥ = cc (bad, made) in absurd no_))
      | inl (s, good) ↦ elim (Bool-cases (has_null s)) [
        | inl null_byte ↦
            rw (good, (shown_text s w).0 null_byte)
              (garbled kind (λ s₁ made.
                let same : s ≡ s₁ = cc (good, made) in
                subst (λ u. has_null u ≡ true) same null_byte))
        | inr clean ↦ rw (good, (shown_text s w).1 clean) (as_json kind good clean)
      ]
    ]

    settled_json-Step :
        (is_null : Bool) (p : CharPtr) (to_string : e.Answer → Result Text Text) (q : e.Request)
        (r : Called e.Answer × S)
        → e.to_string ≡ some to_string
        → IsRequest e is_null p q
        → e.call q s ≡ r
        → IsStep is_null p false (settled_json to_string r)
    unfolding settled_json seen_json with_ffi_panic_boundary resolved fail_with serialize session
        session_of
    settled_json-Step is_null p to_string q (answered a, s') kind made h =
        subst (λ τ. Step e is_null p (healthy s) (settled_json to_string (answered a, s')).0 τ)
          (sym (serialize-session (to_string a) s'))
          (answers q made h (serialize-IsShown to_string a (world_of slot false s') kind))
    settled_json-Step is_null p to_string q (failed m, s') kind made h = fails q made h
    settled_json-Step is_null p to_string q (panicked why, s') kind made h = crashes q made h

    -- Messages that carry no request.
    no_handle : (p : CharPtr) (q : e.Request) → ¬ IsRequest e true p q
    no_handle p q v = let bad : true ≡ false = v.there in cc bad

    no_text :
        (p : CharPtr) → ((t : Text) → ¬ (p ≡ utf8 t)) → (q : e.Request) → ¬ IsRequest e false p q
    no_text p h q v = h v.t v.text_of

    no_payload :
        (t x : Text) → e.from_str t ≡ err x → (q : e.Request) → ¬ IsRequest e false (utf8 t) q
    no_payload t x bad q v =
        let same : t ≡ v.t = cc v.text_of in
        let read : e.from_str t ≡ ok v.payload =
          subst (λ u. e.from_str u ≡ ok v.payload) (sym same) v.read in
        let no_ : ⊥ = cc (read, bad) in absurd no_

    no-IsRequest :
        (t x : Text) (payload : e.Payload)
        → e.from_str t ≡ ok payload
        → e.into_request payload ≡ err x
        → (q : e.Request) → ¬ IsRequest e false (utf8 t) q
    no-IsRequest t x payload good bad q v =
        let same : t ≡ v.t = cc v.text_of in
        let read : e.from_str t ≡ ok v.payload =
          subst (λ u. e.from_str u ≡ ok v.payload) (sym same) v.read in
        let same_payload : payload ≡ v.payload = cc (good, read) in
        let made : e.into_request payload ≡ ok q =
          subst (λ u. e.into_request u ≡ ok q) (sym same_payload) v.made in
        let no_ : ⊥ = cc (made, bad) in absurd no_

    IsRequest-of :
        (t : Text) (payload : e.Payload) (q : e.Request)
        → e.from_str t ≡ ok payload
        → e.into_request payload ≡ ok q
        → IsRequest e false (utf8 t) q
    IsRequest-of t payload q read made = record {
      there = refl;
      t = t;
      text_of = refl;
      payload = payload;
      read = read;
      made = made;
    }

    -- A request that was read: the mutex decides.
    code_read-Step :
        (poisoned : Bool) (t : Text) (payload : e.Payload) (q : e.Request)
        → e.to_string ≡ none
        → e.from_str t ≡ ok payload
        → e.into_request payload ≡ ok q
        → IsStep false (utf8 t) poisoned (
            seen_code (
              code_endpoint e.label e.from_str e.into_request e.call false
                (utf8 t)
                (world_of slot poisoned s)))
    unfolding code_endpoint request_body check_not_null parse_json_request or_return fail_with
        lock_frontend block_on c_ptr_to_string with_ffi_panic_boundary seen_code is_success session
        session_of settled_code
    code_read-Step true t payload q kind read made =
        rw (read, made, code_endpoint, request_body) locked
    code_read-Step false t payload q kind read made =
        rw (read, made, code_endpoint, request_body)
          (settled_code-Step false (utf8 t) q (e.call q s) kind (IsRequest-of t payload q read made)
            refl)

    code-Step :
        (poisoned is_null : Bool) (p : CharPtr)
        → e.to_string ≡ none
        → IsStep is_null p poisoned (
            seen_code (
              code_endpoint e.label e.from_str e.into_request e.call is_null p
                (world_of slot poisoned s)))
    unfolding code_endpoint request_body check_not_null parse_json_request or_return fail_with
        c_ptr_to_string with_ffi_panic_boundary seen_code is_success session session_of
    code-Step poisoned true p kind = rejected (no_handle p)
    code-Step poisoned false null kind = rejected (no_text null (λ t h. cc h))
    code-Step poisoned false invalid_utf8 kind = rejected (no_text invalid_utf8 (λ t h. cc h))
    code-Step poisoned false (utf8 t) kind = elim (Result-cases (e.from_str t)) [
      | inr (x, bad) ↦ rw (bad, code_endpoint, request_body) (rejected (no_payload t x bad))
      | inl (payload, good) ↦ elim (Result-cases (e.into_request payload)) [
        | inr (x, bad) ↦
            rw (good, bad, code_endpoint, request_body)
              (rejected (no-IsRequest t x payload good bad))
        | inl (q, made) ↦ code_read-Step poisoned t payload q kind good made
      ]
    ]

    json_read-Step :
        (to_string : e.Answer → Result Text Text) (poisoned : Bool) (t : Text) (payload : e.Payload)
        (q : e.Request)
        → e.to_string ≡ some to_string
        → e.from_str t ≡ ok payload
        → e.into_request payload ≡ ok q
        → IsStep false (utf8 t) poisoned (
            seen_json (
              json_endpoint e.label e.from_str e.into_request e.call to_string false
                (utf8 t)
                (world_of slot poisoned s)))
    unfolding json_endpoint request_body check_not_null parse_json_request or_return fail_with
        lock_frontend block_on c_ptr_to_string with_ffi_panic_boundary seen_json session session_of
        settled_json
    json_read-Step to_string true t payload q kind read made =
        rw (read, made, json_endpoint, request_body) locked
    json_read-Step to_string false t payload q kind read made =
        rw (read, made, json_endpoint, request_body)
          (settled_json-Step false (utf8 t) to_string q (e.call q s) kind
            (IsRequest-of t payload q read made) refl)

    json-Step :
        (to_string : e.Answer → Result Text Text) (poisoned is_null : Bool) (p : CharPtr)
        → e.to_string ≡ some to_string
        → IsStep is_null p poisoned (
            seen_json (
              json_endpoint e.label e.from_str e.into_request e.call to_string is_null p
                (world_of slot poisoned s)))
    unfolding json_endpoint request_body check_not_null parse_json_request or_return fail_with
        c_ptr_to_string with_ffi_panic_boundary seen_json session session_of
    json-Step to_string poisoned true p kind = rejected (no_handle p)
    json-Step to_string poisoned false null kind = rejected (no_text null (λ t h. cc h))
    json-Step to_string poisoned false invalid_utf8 kind =
        rejected (no_text invalid_utf8 (λ t h. cc h))
    json-Step to_string poisoned false (utf8 t) kind = elim (Result-cases (e.from_str t)) [
      | inr (x, bad) ↦ rw (bad, json_endpoint, request_body) (rejected (no_payload t x bad))
      | inl (payload, good) ↦ elim (Result-cases (e.into_request payload)) [
        | inr (x, bad) ↦
            rw (good, bad, json_endpoint, request_body)
              (rejected (no-IsRequest t x payload good bad))
        | inl (q, made) ↦ json_read-Step to_string poisoned t payload q kind good made
      ]
    ]

  answer_message-Step :
      (e : Endpoint S) (to_string : Option (e.Answer → Result Text Text)) (is_null : Bool)
      (p : CharPtr) (w : World S)
      → e.to_string ≡ to_string
      → let (seen, w') = answer_message e to_string is_null p w in
        Step e is_null p (session w) seen (session w')
  unfolding answer_message session
  answer_message-Step e none is_null p w kind =
      code-Step e w.last_error w.state w.poisoned is_null p kind
  answer_message-Step e (some to_string) is_null p w kind =
      json-Step e w.last_error w.state to_string w.poisoned is_null p kind

  answer_one-Step :
      (m : Message S) (w : World S)
      → let (seen, w') = answer_one m w in Step m.0 m.1 m.2 (session w) seen (session w')
  unfolding answer_one
  answer_one-Step (e, is_null, p) w = answer_message-Step e e.to_string is_null p w refl

  -- The endpoints that take a request and share the body of those that answer with a code, or of
  -- those that answer with JSON, implement the machine: any messages to any of them are a run of
  -- it between the abstractions of the worlds before and after. A message is rejected, with no
  -- effect, only if it carries no request (its handle or text is missing, or the text is not
  -- accepted) or the session is broken. Otherwise it is the call of that request on a healthy
  -- frontend, which answers, fails or panics. It is seen as a success just when it answers and, if
  -- it answers with JSON, the answer has a text with no null byte. One that panics breaks the
  -- session.
  pub answer_all-Run :
      (ms : List (Message S)) (w : World S)
      → let (seen, w') = answer_all ms w in Run ms (session w) seen (session w')
  unfolding answer_all
  answer_all-Run [] w = done
  answer_all-Run (m ∷ ms) w = next (answer_one-Step m w) (answer_all-Run ms (answer_one m w).1)

  -- On the machine alone: a broken session rejects everything.
  broken-Step :
      {e : Endpoint S} {is_null : Bool} {p : CharPtr} {s : S} {σ τ : Session S} {seen : Bool}
      → Step e is_null p σ seen τ
      → σ ≡ broken s
      → (seen ≡ false) × (τ ≡ broken s)
  broken-Step (rejected none_) h = (refl, h)
  broken-Step locked h = (refl, h)
  broken-Step (answers q made e shown) h = let bad : ⊥ = cc h in absurd bad
  broken-Step (fails q made e) h = let bad : ⊥ = cc h in absurd bad
  broken-Step (crashes q made e) h = let bad : ⊥ = cc h in absurd bad

  pub broken-Run :
      {ms : List (Message S)} {s : S} {σ τ : Session S} {seen : List Bool}
      → Run ms σ seen τ
      → σ ≡ broken s
      → All (λ b. b ≡ false) seen × (τ ≡ broken s)
  broken-Run done h = (tt, h)
  broken-Run (next step run) h =
      let (no_, same) = broken-Step step h in
      let (all_no, still) = broken-Run run same in ((no_, all_no), still)
