-- ===== src/Wal/Endpoint/Complete.antt =====
-- What the endpoint of shim/src/lib.rs that prunes every collection of a tenant visits and reports.
use chroma_go_local.Base.{ℕ, ◌≡◌, refl, sym, subst, All, List, Option, some, none, Result, ok, err}
use chroma_go_local.Base.Actions as Actions
use chroma_go_local.Base.Actions.{Ends}
use chroma_go_local.Base.Text.{Text}
use chroma_go_local.Wal.Policy.{WalPruneExecutionOptions}
use chroma_go_local.Wal.Prune.{WalPruneTarget}
use chroma_go_local.Wal.Prune.Rounds.{StoreLaws}
use chroma_go_local.Wal.Run.{WalHost, EmbeddedWalPruneResponse, prepare}
use chroma_go_local.Wal.Run.Reports.{IsResponse, IsRun, run_explicit_wal_prune-IsRun}
use chroma_go_local.Wal.Targets.{Catalogue, database_page, collection_page, list_wal_prune_targets}
use chroma_go_local.Wal.Targets.Complete.{
  IsListed, IsDatabase, all_entries, list_targets_every, list_targets_single,
}
use chroma_go_local.Wal.Endpoint.{prune_listed, prune_all}

-- The listing did not run out, and the run returned a response to the targets, or its preparation
-- failed.
abbrev pub IsPruned :
    (h : WalHost)
    → WalPruneExecutionOptions
    → List (WalPruneTarget h.CollectionUuid)
    → h.State
    → Result (Option EmbeddedWalPruneResponse) Text × h.State
    → Type 0
IsPruned h options targets s =
    Ends (λ o s'. (r : EmbeddedWalPruneResponse) × (o ≡ some r) × IsResponse h options targets r)
      (λ e s'. prepare h options s ≡ (err e, s'))

module _ (h : WalHost) (options : WalPruneExecutionOptions)
    (targets : List (WalPruneTarget h.CollectionUuid)) (s : h.State) where
  shown-IsPruned :
      (r : Result EmbeddedWalPruneResponse Text × h.State)
      → IsRun h options targets s r
      → IsPruned h options targets s (Actions.resume r (λ response. Actions.pure (some response)))
  unfolding Actions.resume
  shown-IsPruned (ok r, s') v = (r, refl, v)
  shown-IsPruned (err e, s') v = v

  listed-IsPruned :
      {D : Type 0} (c : Catalogue h.State h.CollectionUuid D) (fuel : ℕ) (laws : StoreLaws h.store)
      (tenant_id : Text) (database_name : Option Text)
      → list_wal_prune_targets c tenant_id fuel database_name s ≡ (ok (some targets), s)
      → IsPruned h options targets s (
          prune_all h c fuel
            (record { tenant_id = tenant_id; database_name = database_name; options = options })
            s)
  unfolding prune_all prune_listed Actions.resume
  listed-IsPruned c fuel laws tenant_id database_name e =
      subst (λ r. IsPruned h options targets s (Actions.resume r (prune_listed h c fuel options)))
        (sym e) (shown-IsPruned _ (run_explicit_wal_prune-IsRun h options laws targets s))

module _ (h : WalHost) {D : Type 0} (c : Catalogue h.State h.CollectionUuid D) (fuel : ℕ)
    (laws : StoreLaws h.store) where
  -- A prune of a tenant that names no database visits the collections of all its databases, each
  -- once and in the order of the listings, and one that names a database those of that one: unless
  -- the preparation of the run fails, it returns a response with one sound result for each of
  -- these collections, in that order, with their totals and number and the request's flags,
  -- whatever the store answers. Each listing answers a page with its next hundred entries and
  -- changes nothing, the names are valid, a listing has at most `u32::MAX` entries and fewer than
  -- the fuel, the store's sequence ids are `i64`, and its candidate query filters by the cutoff.
  pub prune_all_complete :
      (s : h.State) (tenant_id : Text) (options : WalPruneExecutionOptions) (names : List Text)
      (name : Text) (entries : Text → List (WalPruneTarget h.CollectionUuid))
      → IsListed c tenant_id fuel s (database_page c tenant_id) names
      → All (IsDatabase c tenant_id fuel s (collection_page c tenant_id) entries) names
      → IsDatabase c tenant_id fuel s (collection_page c tenant_id) entries name
      → IsPruned h options
          (all_entries c tenant_id fuel s (collection_page c tenant_id) entries names)
          s
          (prune_all h c fuel
            (record { tenant_id = tenant_id; database_name = none; options = options })
            s)
        × IsPruned h options (entries name) s (
            prune_all h c fuel
              (record { tenant_id = tenant_id; database_name = some name; options = options })
              s)
  unfolding list_wal_prune_targets
  prune_all_complete s tenant_id options names name entries listed valid one = (
    listed-IsPruned h options _ s c fuel laws tenant_id none (
        list_targets_every c tenant_id fuel s (collection_page c tenant_id) entries names listed
          valid),
    listed-IsPruned h options _ s c fuel laws tenant_id (some name)
        (list_targets_single c tenant_id fuel s (collection_page c tenant_id) entries name one),
  )
