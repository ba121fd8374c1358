-- ===== src/Ffi/Embedded/Session.antt =====
-- A session with an embedded frontend of shim/src/lib.rs, as its caller may picture it: a machine that is
-- healthy until a call panics, and broken from then on. The endpoints that take a request and
-- answer with a code or with JSON, in any mix and order, implement it.
use chroma_go_local.Base.{
  ◌≡◌, refl, sym, ◌∙◌, Bool, true, false, Bool-cases, inl, inr, Option, none, some, List, [], ◌∷◌,
  All, Result, ok, err, Result-cases, is_some, subst, arith,
}
use chroma_go_local.Base.Int.{ℤ}
use chroma_go_local.Base.Text.{Text}
use chroma_go_local.Ffi.LastError.{has_null}
use chroma_go_local.Ffi.Boundary.{
  World, CharPtr, null, invalid_utf8, utf8, PanicPayload, with_ffi_panic_boundary, fail_with,
  or_return, check_not_null, follow, pure, success, error_operation_failed, c_ptr_to_string,
  json_to_c_string_ptr,
}
use chroma_go_local.Ffi.Embedded.{
  Call, Called, answered, failed, panicked, code_endpoint, json_endpoint, request_body, resolved,
  parse_json_request, lock_frontend, block_on, serialize,
}
use chroma_go_local.Ffi.Embedded.Locking.{is_success}
pub mod Refinement

-- An endpoint with a request: its foreign parts, and how it answers.
pub record Endpoint (S : Type 0) : Type 1 where
  pub Payload : Type 0
  pub Request : Type 0
  pub Answer : Type 0
  pub label : Text
  pub from_str : Text → Result Payload Text
  pub into_request : Payload → Result Request Text
  pub call : Request → Call S Answer
  -- The serializer of one that answers with JSON.
  pub to_string : Option (Answer → Result Text Text)

-- A request to an endpoint: whether the handle is NULL, and the text.
abbrev pub Message : Type 0 → Type 1
Message S = Endpoint S × Bool × CharPtr

module _ {S : Type 0} where
  -- Whether the caller sees a success, and the world after it.
  unfoldable pub seen_code : ℤ × World S → Bool × World S
  seen_code (code, w) = (is_success code, w)

  unfoldable pub seen_json : Option Text × World S → Bool × World S
  seen_json (answer, w) = (is_some answer, w)

  unfoldable pub answer_message :
      (e : Endpoint S)
      → Option (e.Answer → Result Text Text)
      → Bool
      → CharPtr
      → World S
      → Bool × World S
  unfolding seen_code seen_json
  answer_message e none is_null p w =
      seen_code (code_endpoint e.label e.from_str e.into_request e.call is_null p w)
  answer_message e (some to_string) is_null p w =
      seen_json (json_endpoint e.label e.from_str e.into_request e.call to_string is_null p w)

  unfoldable pub answer_one : Message S → World S → Bool × World S
  unfolding answer_message
  answer_one (e, is_null, p) w = answer_message e e.to_string is_null p w

  unfoldable pub answer_all : List (Message S) → World S → List Bool × World S
  answer_all [] w = ([], w)
  answer_all (m ∷ ms) w =
      let (seen, w') = answer_one m w in let (rest, w'') = answer_all ms w' in (seen ∷ rest, w'')

-- The machine. A broken one keeps the state that the panicking call left.
pub data Session (S : Type 0) : Type 0 where
  healthy : S → Session S
  broken : S → Session S

module _ {S : Type 0} where
  -- The request that a message carries: the handle is there, the text is read and accepted.
  pub record IsRequest (e : Endpoint S) (is_null : Bool) (p : CharPtr) (q : e.Request)
      : Type 0 where
    pub there : is_null ≡ false
    pub t : Text
    pub text_of : p ≡ utf8 t
    pub payload : e.Payload
    pub read : e.from_str t ≡ ok payload
    pub made : e.into_request payload ≡ ok q

  -- An answer reaches the caller as a code, or as JSON with no null byte.
  pub data IsShown (e : Endpoint S) (a : e.Answer) : Bool → Type 0 where
    as_code : e.to_string ≡ none → IsShown e a true
    as_json :
        {to_string : e.Answer → Result Text Text} {s : Text}
        → e.to_string ≡ some to_string
        → to_string a ≡ ok s
        → has_null s ≡ false
        → IsShown e a true
    garbled :
        {to_string : e.Answer → Result Text Text}
        → e.to_string ≡ some to_string
        → ((s : Text) → to_string a ≡ ok s → has_null s ≡ true)
        → IsShown e a false

  -- One message: it carries no request, or the session is broken, or the call of its request
  -- answers, fails or panics.
  pub data Step (e : Endpoint S) (is_null : Bool) (p : CharPtr)
      : Session S → Bool → Session S → Type 0 where
    rejected :
        {σ : Session S} → ((q : e.Request) → ¬ IsRequest e is_null p q) → Step e is_null p σ false σ
    locked : {s : S} → Step e is_null p (broken s) false (broken s)
    answers :
        {s s' : S} {a : e.Answer} {seen : Bool} (q : e.Request)
        → IsRequest e is_null p q
        → e.call q s ≡ (answered a, s')
        → IsShown e a seen
        → Step e is_null p (healthy s) seen (healthy s')
    fails :
        {s s' : S} {m : Text} (q : e.Request)
        → IsRequest e is_null p q
        → e.call q s ≡ (failed m, s')
        → Step e is_null p (healthy s) false (healthy s')
    crashes :
        {s s' : S} {why : PanicPayload} (q : e.Request)
        → IsRequest e is_null p q
        → e.call q s ≡ (panicked why, s')
        → Step e is_null p (healthy s) false (broken s')

  -- A run of requests.
  pub data Run : List (Message S) → Session S → List Bool → Session S → Type 1 where
    done : {σ : Session S} → Run [] σ [] σ
    next :
        {m : Message S} {ms : List (Message S)} {σ τ υ : Session S} {seen : Bool} {rest : List Bool}
        → Step m.0 m.1 m.2 σ seen τ
        → Run ms τ rest υ
        → Run (m ∷ ms) σ (seen ∷ rest) υ

  -- The abstraction of a world.
  unfoldable pub session_of : Bool → S → Session S
  session_of true s = broken s
  session_of false s = healthy s

  unfoldable pub session : World S → Session S
  unfolding session_of
  session w = session_of w.poisoned w.state
