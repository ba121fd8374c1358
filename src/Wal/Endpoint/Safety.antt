-- ===== src/Wal/Endpoint/Safety.antt =====
-- From the text of a request down to the log: what a prune request may do to the world.
use chroma_go_local.Base.{◌≡◌, Bool, ℕ, List, Option, some, none, [], ◌∷◌, ◌++◌, arith, Result, ok}
use chroma_go_local.Base.Actions.{Action, Keep, Keep-bind, Keep-map_err, Keep-pure}
use chroma_go_local.Base.Text.{Text, text}
use chroma_go_local.Ffi.Boundary.{World, CharPtr}
use chroma_go_local.Ffi.Embedded.{called, lock_poisoned_by}
use chroma_go_local.Ffi.Embedded.Held.{context_endpoint-held, called-held}
use chroma_go_local.Wal.Policy.{WalPruneExecutionOptions, validate_options}
use chroma_go_local.Wal.Prune.{WalPruneTarget, fail_fast, continue_on_error}
use chroma_go_local.Wal.Prune.Rounds.{StoreLaws}
use chroma_go_local.Wal.Run.{WalHost, EmbeddedWalPruneResponse}
use chroma_go_local.Wal.Run.Safety.{HostKeeps, run_explicit_wal_prune_safe}
use chroma_go_local.Wal.Targets.{Catalogue, list_wal_prune_targets}
use chroma_go_local.Wal.Targets.Kept.{Lists, list_targets-Keep, collection_page-Keep}
use chroma_go_local.Wal.Endpoint.{
  EmbeddedPruneWalCollectionPayload, WalPruneCollectionRequestParts, into_prune_wal_collection,
  prune_one, chroma_embedded_prune_wal_collection, EmbeddedPruneWalAllPayload, WalPruneAllRequest,
  into_options, into_prune_wal_all, prune_listed, prune_all, chroma_embedded_prune_wal_all,
  serialize_option,
}

module _ (h : WalHost) {D Q : Type 0} (new : Text → Option D)
    (try_new : Text → D → Text → Result Q Text)
    (get_collection : Q → Action h.State Text (WalPruneTarget h.CollectionUuid)) where
  -- The options of a request that was accepted are valid.
  into_prune_wal_collection-valid :
      (p : EmbeddedPruneWalCollectionPayload) (parts : WalPruneCollectionRequestParts Q)
      → into_prune_wal_collection new try_new p ≡ ok parts
      → validate_options parts.options ≡ ok tt
  unfolding into_prune_wal_collection
  into_prune_wal_collection-valid p parts e = ground arith

  module _ (P : h.State → Type 0) (laws : StoreLaws h.store)
      (keeps : (o : WalPruneExecutionOptions) → validate_options o ≡ ok tt → HostKeeps h o P)
      (reads : (q : Q) → Keep P (get_collection q)) where
    prune_one-held :
        (parts : WalPruneCollectionRequestParts Q) (s : h.State)
        → validate_options parts.options ≡ ok tt
        → P s
        → P (prune_one h get_collection parts s).1
    unfolding prune_one
    prune_one-held parts s valid p =
        let ran =
          Keep-bind (Keep-map_err (λ e. text "get collection failed: " ++ e) (reads parts.request))
            λ target. record {
              apply = λ s' p'.
                  run_explicit_wal_prune_safe h parts.options P (keeps parts.options valid) laws
                    fail_fast (target ∷ []) s' p';
            } in
        called-held P _ (ran.apply s p)

    -- A property of the world that holds at first, survives the lookup of a collection, and
    -- survives what a prune run may do with any options that pass the validation, holds after the
    -- endpoint, for every handle, text of a request and outcome. The store's sequence ids are
    -- `i64`, and its candidate query filters by the cutoff.
    pub prune_wal_collection_safe :
        (shown : Text) (from_str : Text → Result EmbeddedPruneWalCollectionPayload Text)
        (to_string : EmbeddedWalPruneResponse → Result Text Text) (is_null : Bool) (t : CharPtr)
        (w : World h.State)
        → P w.state
        → P
            (chroma_embedded_prune_wal_collection h get_collection shown from_str new try_new
              to_string is_null t w).1.state
    unfolding chroma_embedded_prune_wal_collection
    prune_wal_collection_safe shown from_str to_string is_null t w p =
        context_endpoint-held P (lock_poisoned_by shown) (text "prune wal collection failed: ")
          (text "prune wal collection completed but failed to serialize response") from_str
          (into_prune_wal_collection new try_new) (prune_one h get_collection) to_string
          (λ payload parts s made k.
            prune_one-held parts s (into_prune_wal_collection-valid payload parts made) k)
          is_null t w p

module _ (h : WalHost) {D : Type 0} (c : Catalogue h.State h.CollectionUuid D) (fuel : ℕ)
    (trim : Text → Text) (len : Text → ℕ) where
  into_prune_wal_all-valid :
      (p : EmbeddedPruneWalAllPayload) (request : WalPruneAllRequest)
      → into_prune_wal_all c.new_name trim len p ≡ ok request
      → validate_options request.options ≡ ok tt
  unfolding into_prune_wal_all into_options
  into_prune_wal_all-valid p request e = ground arith

  module _ (P : h.State → Type 0) (laws : StoreLaws h.store)
      (keeps : (o : WalPruneExecutionOptions) → validate_options o ≡ ok tt → HostKeeps h o P)
      (lists : Lists c P) where
    prune_listed-Keep :
        (options : WalPruneExecutionOptions)
        (targets : Option (List (WalPruneTarget h.CollectionUuid)))
        → validate_options options ≡ ok tt
        → Keep P (prune_listed h c fuel options targets)
    unfolding prune_listed
    prune_listed-Keep options none valid = Keep-pure
    prune_listed-Keep options (some targets) valid =
        Keep-bind
          (record {
            apply =
                run_explicit_wal_prune_safe h options P (keeps options valid) laws continue_on_error
                  targets;
          })
          λ response. Keep-pure

    prune_all-Keep :
        (request : WalPruneAllRequest)
        → validate_options request.options ≡ ok tt
        → Keep P (prune_all h c fuel request)
    unfolding prune_all list_wal_prune_targets
    prune_all-Keep request valid =
        Keep-bind
          (list_targets-Keep c P lists request.tenant_id fuel _
            (collection_page-Keep c P lists request.tenant_id fuel) request.database_name)
          λ targets. prune_listed-Keep request.options targets valid

    -- A property of the world that holds at first, survives the listings, and survives what a
    -- prune run may do with any options that pass the validation, holds after the endpoint that
    -- prunes every collection of a tenant, for every handle, text of a request and outcome. The
    -- store's sequence ids are `i64`, and its candidate query filters by the cutoff.
    pub prune_wal_all_safe :
        (shown : Text) (from_str : Text → Result EmbeddedPruneWalAllPayload Text)
        (to_string : EmbeddedWalPruneResponse → Result Text Text) (is_null : Bool) (t : CharPtr)
        (w : World h.State)
        → P w.state
        → P
            (chroma_embedded_prune_wal_all h c fuel shown from_str trim len to_string is_null t
              w).1.state
    unfolding chroma_embedded_prune_wal_all
    prune_wal_all_safe shown from_str to_string is_null t w p =
        context_endpoint-held P (lock_poisoned_by shown) (text "prune wal all failed: ")
          (text "prune wal all completed but failed to serialize response") from_str
          (into_prune_wal_all c.new_name trim len)
          (λ request s. called (prune_all h c fuel request s)) (serialize_option to_string)
          (λ payload request s made k.
            called-held P _
              ((prune_all-Keep request (into_prune_wal_all-valid payload request made)).apply s k))
          is_null t w p
