-- ===== src/Compact/Endpoints/Safety.antt =====
-- From the text of a compaction request of shim/src/lib.rs down to the logs: what it may do to the world.
use chroma_go_local.Base.{ℕ, ◌≡◌, refl, Bool, Option, none, some, List, [], ◌∷◌, Result, ok, All}
use chroma_go_local.Base.Actions as Actions
use chroma_go_local.Base.Actions.{Action, Keep, Keep-bind, Keep-pure, Keep-lift, Keep-map_err}
use chroma_go_local.Base.Text.{Text, text}
use chroma_go_local.Ffi.Boundary.{World, CharPtr}
use chroma_go_local.Ffi.Embedded.{called, lock_poisoned}
use chroma_go_local.Ffi.Embedded.Held.{context_endpoint-held, called-held}
use chroma_go_local.Ffi.Names.{resolve_tenant}
use chroma_go_local.Wal.Prune.{WalPruneTarget}
use chroma_go_local.Wal.Targets.{Catalogue, database_page}
use chroma_go_local.Wal.Targets.Kept.{Lists, list_targets-Keep, collection_page-Keep}
use chroma_go_local.Wal.Targets.Complete.{
  IsListed, IsDatabase, all_entries, list_targets_every, list_targets_single,
}
use chroma_go_local.Wal.Endpoint.{serialize_option}
use chroma_go_local.Compact.{
  Compactor, Target, CompactionFailureMode, EmbeddedCompactionResponse, fail_fast,
  continue_on_error, run_explicit_compaction,
}
use chroma_go_local.Compact.Rounds.{Compacts}
use chroma_go_local.Compact.Loop.{run_explicit_compaction_safe}
use chroma_go_local.Compact.Endpoints.{
  EmbeddedCompactCollectionPayload, EmbeddedCompactAllPayload, into_compact_collection, target_of,
  compact_one, chroma_embedded_compact_collection, compaction_page, compact_listed, compact_all,
  chroma_embedded_compact_all,
}

module _ (c : Compactor) (lists : Catalogue c.State c.CollectionUuid c.DatabaseName) (fuel : ℕ)
    (P : c.State → Type 0) (compacts : Compacts c P) where
  run-Keep :
      (mode : CompactionFailureMode) (targets : List (Target c))
      → Keep P (run_explicit_compaction c targets mode)
  run-Keep mode targets = record { apply = run_explicit_compaction_safe c P compacts mode targets }

  module _ {Q : Type 0} (get_collection : Q → Action c.State Text (WalPruneTarget c.CollectionUuid))
      (reads : (q : Q) → Keep P (get_collection q)) where
    compact_one-Keep : (q : Q) → Keep P (compact_one c lists.new_name get_collection q)
    unfolding compact_one
    compact_one-Keep q = Keep-bind (Keep-map_err _ (reads q)) λ collection.
        Keep-bind (Keep-lift {r = target_of c lists.new_name collection})
          λ target. run-Keep fail_fast (target ∷ [])

    compact_collection_safe :
        (from_str : Text → Result EmbeddedCompactCollectionPayload Text)
        (try_new : Text → c.DatabaseName → Text → Result Q Text)
        (to_string : EmbeddedCompactionResponse → Result Text Text) (is_null : Bool) (t : CharPtr)
        (w : World c.State)
        → P w.state
        → P
            (chroma_embedded_compact_collection c lists.new_name get_collection from_str try_new
              to_string is_null t w).1.state
    unfolding chroma_embedded_compact_collection
    compact_collection_safe from_str try_new to_string is_null t w p =
        context_endpoint-held P lock_poisoned (text "compact collection failed: ")
          (text "compact collection completed but failed to serialize response") from_str
          (into_compact_collection lists.new_name try_new)
          (λ request s. called (compact_one c lists.new_name get_collection request s)) to_string
          (λ payload request s made k. called-held P _ ((compact_one-Keep request).apply s k))
          is_null t w p

  module _ (kept : Lists lists P) where
    compaction_page-Keep :
        (tenant name : Text) (parsed : c.DatabaseName) (offset : ℕ)
        → Keep P (compaction_page c lists fuel tenant name parsed offset)
    unfolding compaction_page
    compaction_page-Keep tenant name parsed offset =
        Keep-bind (collection_page-Keep lists P kept tenant fuel name parsed offset)
          λ page. Keep-lift

    compact_listed-Keep :
        (targets : Option (List (Target c))) → Keep P (compact_listed c lists fuel targets)
    unfolding compact_listed
    compact_listed-Keep none = Keep-pure
    compact_listed-Keep (some targets) =
        Keep-bind (run-Keep continue_on_error targets) λ response. Keep-pure

    compact_all-Keep : (p : EmbeddedCompactAllPayload) → Keep P (compact_all c lists fuel p)
    unfolding compact_all
    compact_all-Keep p =
        Keep-bind
          (list_targets-Keep lists P kept (resolve_tenant p.tenant_id) fuel _
            (compaction_page-Keep (resolve_tenant p.tenant_id)) p.database_name)
          compact_listed-Keep

    compact_all_safe :
        (from_str : Text → Result EmbeddedCompactAllPayload Text)
        (to_string : EmbeddedCompactionResponse → Result Text Text) (is_null : Bool) (t : CharPtr)
        (w : World c.State)
        → P w.state
        → P (chroma_embedded_compact_all c lists fuel from_str to_string is_null t w).1.state
    unfolding chroma_embedded_compact_all
    compact_all_safe from_str to_string is_null t w p =
        context_endpoint-held P lock_poisoned (text "compact all failed: ")
          (text "compact all completed but failed to serialize response") from_str (λ p. ok p)
          (λ p s. called (compact_all c lists fuel p s)) (serialize_option to_string)
          (λ payload request s made k. called-held P _ ((compact_all-Keep request).apply s k))
          is_null t w p

  -- A property of the world that holds at first, survives the lookup of a collection, the listings,
  -- the status reads and the backfills, and survives the purge of a collection in a state that a
  -- successful backfill of that collection has just left, holds after both compaction endpoints,
  -- that of one collection and that of all of a tenant, for every handle, text of a request and
  -- outcome.
  pub compaction_endpoints_safe :
      {Q : Type 0} (get_collection : Q → Action c.State Text (WalPruneTarget c.CollectionUuid))
      (reads : (q : Q) → Keep P (get_collection q)) (kept : Lists lists P)
      (from_str : Text → Result EmbeddedCompactCollectionPayload Text)
      (all_from_str : Text → Result EmbeddedCompactAllPayload Text)
      (try_new : Text → c.DatabaseName → Text → Result Q Text)
      (to_string : EmbeddedCompactionResponse → Result Text Text) (is_null : Bool) (t : CharPtr)
      (w : World c.State)
      → P w.state
      → P
          (chroma_embedded_compact_collection c lists.new_name get_collection from_str try_new
            to_string is_null t w).1.state
        × P (chroma_embedded_compact_all c lists fuel all_from_str to_string is_null t w).1.state
  compaction_endpoints_safe get_collection reads kept from_str all_from_str try_new to_string
        is_null t w p =
      (
        compact_collection_safe get_collection reads from_str try_new to_string is_null t w p,
        compact_all_safe kept all_from_str to_string is_null t w p,
      )

-- A compaction of the targets that continues on errors.
abbrev pub compacted_all :
    (c : Compactor)
    → c.State
    → List (Target c)
    → Result (Option EmbeddedCompactionResponse) Text × c.State
compacted_all c s targets =
    Actions.resume (run_explicit_compaction c targets continue_on_error s)
      (λ response. Actions.pure (some response))

module _ (c : Compactor) (lists : Catalogue c.State c.CollectionUuid c.DatabaseName)
    (fuel : ℕ) where
  -- When every listing of the tenant answers its entries page by page, all names are valid and a
  -- listing has at most `u32::MAX` entries and fewer than the fuel, then the endpoint's call is the
  -- compaction of all collections of all databases, in the mode that continues on errors; with a
  -- database's name, of those of that database.
  pub compact_all_complete :
      (s : c.State) (tenant_id : Option Text) (names : List Text) (name : Text)
      (entries : Text → List (Target c))
      → IsListed lists
          (resolve_tenant tenant_id)
          fuel
          s
          (database_page lists (resolve_tenant tenant_id))
          names
      → All
          (IsDatabase lists
            (resolve_tenant tenant_id)
            fuel
            s
            (compaction_page c lists fuel (resolve_tenant tenant_id))
            entries)
          names
      → IsDatabase lists
          (resolve_tenant tenant_id)
          fuel
          s
          (compaction_page c lists fuel (resolve_tenant tenant_id))
          entries
          name
      → (compact_all c lists fuel (record { tenant_id = tenant_id; database_name = none }) s
          ≡ compacted_all c s (
              all_entries lists
                (resolve_tenant tenant_id)
                fuel
                s
                (compaction_page c lists fuel (resolve_tenant tenant_id))
                entries
                names))
        × (compact_all c lists fuel (record { tenant_id = tenant_id; database_name = some name }) s
            ≡ compacted_all c s (entries name))
  unfolding compact_all Actions.resume compact_listed
  compact_all_complete s tenant_id names name entries listed valid one =
      let tenant = resolve_tenant tenant_id in
      let page = compaction_page c lists fuel tenant in
      (
        rw (list_targets_every lists tenant fuel s page entries names listed valid, compact_all)
            refl,
        rw (list_targets_single lists tenant fuel s page entries name one, compact_all) refl,
      )
