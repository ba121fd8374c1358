-- ===== src/Wal/Endpoint.antt =====
-- `chroma_embedded_prune_wal_collection` and `chroma_embedded_prune_wal_all` of shim/src/lib.rs: a prune
-- request for one collection or for all of a tenant, from its JSON to the response. The frontend's
-- state is the host's world. The fuel bounds the pages of a listing.
use chroma_go_local.Base.{
  Bool, true, false, ℕ, guard, leb, map_ok, ◌>>◌, Option, none, some, List, [], ◌∷◌, ◌++◌, Result,
  ok, err, ◌>>=◌, map_err, unwrap_or,
}
use chroma_go_local.Base.Actions as Actions
use chroma_go_local.Base.Text.{Text, text}
use chroma_go_local.Ffi.Boundary.{
  World, Ffi, value, CharPtr, with_ffi_panic_boundary, json_to_c_string_ptr_with_context,
}
use chroma_go_local.Ffi.Embedded.{Called, Call, called, context_endpoint, lock_poisoned_by}
use chroma_go_local.Ffi.Names.{parse_database_name, resolve_tenant, resolve_database_name_typed}
use chroma_go_local.Wal.Policy.{
  WalPrunePolicyPayload, WalPruneExecutionOptions, validate_options, policy_message,
}
use chroma_go_local.Wal.Prune.{WalPruneTarget, fail_fast, continue_on_error}
use chroma_go_local.Wal.Run.{WalHost, EmbeddedWalPruneResponse, run_explicit_wal_prune}
use chroma_go_local.Wal.Targets.{Catalogue, list_wal_prune_targets}
pub mod Safety
pub mod Complete

pub record EmbeddedPruneWalCollectionPayload : Type 0 where
  pub name : Text
  pub tenant_id : Option Text
  pub database_name : Option Text
  pub dry_run : Option Bool
  pub vacuum : Option Bool
  pub policies : WalPrunePolicyPayload

pub record WalPruneCollectionRequestParts (Q : Type 0) : Type 0 where
  pub request : Q
  pub options : WalPruneExecutionOptions

unfoldable pub options_of : EmbeddedPruneWalCollectionPayload → WalPruneExecutionOptions
options_of p = record {
  dry_run = unwrap_or p.dry_run false;
  vacuum = unwrap_or p.vacuum false;
  policies = p.policies;
}

unfoldable pub into_prune_wal_collection :
    {D Q : Type 0}
    → (Text → Option D)
    → (Text → D → Text → Result Q Text)
    → EmbeddedPruneWalCollectionPayload
    → Result (WalPruneCollectionRequestParts Q) Text
into_prune_wal_collection new try_new p = do
  database_name ← resolve_database_name_typed new p.database_name
  request ← try_new (resolve_tenant p.tenant_id) database_name p.name
  valid ← map_err policy_message (validate_options (options_of p))
  ok (record { request = request; options = options_of p })

module _ (h : WalHost) {Q : Type 0}
    (get_collection : Q → Actions.Action h.State Text (WalPruneTarget h.CollectionUuid)) where
  open h use {State}

  unfoldable pub prune_one : WalPruneCollectionRequestParts Q → Call State EmbeddedWalPruneResponse
  prune_one parts s = called (
      Actions.resume
        (Actions.mapped (λ e. text "get collection failed: " ++ e) (get_collection parts.request s))
        (λ target. run_explicit_wal_prune h (target ∷ []) parts.options fail_fast))

  unfoldable pub chroma_embedded_prune_wal_collection :
      {D : Type 0}
      → Text
      → (Text → Result EmbeddedPruneWalCollectionPayload Text)
      → (Text → Option D)
      → (Text → D → Text → Result Q Text)
      → (EmbeddedWalPruneResponse → Result Text Text)
      → Bool
      → CharPtr
      → World State
      → Option Text × World State
  chroma_embedded_prune_wal_collection shown from_str new try_new to_string =
      context_endpoint (text "prune wal collection failed: ") from_str
        (into_prune_wal_collection new try_new) prune_one (lock_poisoned_by shown)
        (text "prune wal collection completed but failed to serialize response") to_string

-- `chroma_embedded_prune_wal_all`: every collection that the listings of a tenant give.
pub record EmbeddedPruneWalAllPayload : Type 0 where
  pub tenant_id : Option Text
  pub database_name : Option Text
  pub dry_run : Option Bool
  pub vacuum : Option Bool
  pub policies : WalPrunePolicyPayload

unfoldable pub all_options_of : EmbeddedPruneWalAllPayload → WalPruneExecutionOptions
all_options_of p = record {
  dry_run = unwrap_or p.dry_run false;
  vacuum = unwrap_or p.vacuum false;
  policies = p.policies;
}

-- `trim` is foreign; the length of a text is in bytes, given by `len`.
unfoldable pub check_tenant : (Text → Text) → (Text → ℕ) → Option Text → Result (Unit {0}) Text
check_tenant trim len none = ok tt
check_tenant trim len (some tenant_id) =
    guard (leb 3 (len (trim tenant_id))) (text "tenant_id must be at least 3 characters")

unfoldable pub check_database :
    {D : Type 0} → (Text → Option D) → Option Text → Result (Unit {0}) Text
check_database new none = ok tt
check_database new (some name) = map_ok (λ parsed. tt) (parse_database_name new name)

unfoldable pub into_options :
    {D : Type 0}
    → (Text → Option D)
    → (Text → Text)
    → (Text → ℕ)
    → EmbeddedPruneWalAllPayload
    → Result WalPruneExecutionOptions Text
into_options new trim len p = do
  check_database new p.database_name
  check_tenant trim len p.tenant_id
  map_err policy_message (validate_options (all_options_of p))
  ok (all_options_of p)

-- What the endpoint takes from its request.
pub record WalPruneAllRequest : Type 0 where
  pub tenant_id : Text
  pub database_name : Option Text
  pub options : WalPruneExecutionOptions

unfoldable pub into_prune_wal_all :
    {D : Type 0}
    → (Text → Option D)
    → (Text → Text)
    → (Text → ℕ)
    → EmbeddedPruneWalAllPayload
    → Result WalPruneAllRequest Text
into_prune_wal_all new trim len p =
    map_ok
      (λ options. record {
        tenant_id = resolve_tenant p.tenant_id;
        database_name = p.database_name;
        options = options;
      })
      (into_options new trim len p)

-- An answer that needs more fuel than was given is NULL.
unfoldable pub serialize_option :
    {A : Type 0} → (A → Result Text Text) → Option A → Result Text Text
serialize_option to_string none = err (text "out of fuel")
serialize_option to_string (some a) = to_string a

module _ (h : WalHost) {D : Type 0} (c : Catalogue h.State h.CollectionUuid D) (fuel : ℕ) where
  unfoldable pub prune_listed :
      WalPruneExecutionOptions
      → Option (List (WalPruneTarget h.CollectionUuid))
      → Actions.Action h.State Text (Option EmbeddedWalPruneResponse)
  prune_listed options none = Actions.pure none
  prune_listed options (some targets) = λ s.
      Actions.resume (run_explicit_wal_prune h targets options continue_on_error s)
        (λ response. Actions.pure (some response))

  unfoldable pub prune_all :
      WalPruneAllRequest → Actions.Action h.State Text (Option EmbeddedWalPruneResponse)
  prune_all request s =
      Actions.resume (list_wal_prune_targets c request.tenant_id fuel request.database_name s)
        (prune_listed request.options)

  unfoldable pub chroma_embedded_prune_wal_all :
      Text
      → (Text → Result EmbeddedPruneWalAllPayload Text)
      → (Text → Text)
      → (Text → ℕ)
      → (EmbeddedWalPruneResponse → Result Text Text)
      → Bool
      → CharPtr
      → World h.State
      → Option Text × World h.State
  chroma_embedded_prune_wal_all shown from_str trim len to_string =
      context_endpoint (text "prune wal all failed: ") from_str
        (into_prune_wal_all c.new_name trim len) (λ request s. called (prune_all request s))
        (lock_poisoned_by shown) (text "prune wal all completed but failed to serialize response")
        (serialize_option to_string)
