-- ===== src/Wal/Targets/Complete.antt =====
-- The targets of a prune of everything: every collection of every database, in order.
use mathlib.Core.List.{append_assoc, append-nil}
use chroma_go_local.Base.{
  ℕ, ◌≤◌, ◌<◌, ◌≡◌, sym, ◌∙◌, ap, none, some, List, [], ◌∷◌, ◌++◌, length, All, Result, ok, arith,
}
use chroma_go_local.Base.Actions.{resume}
use chroma_go_local.Base.Text.{Text}
use chroma_go_local.Base.Words.{u32_max}
use chroma_go_local.Ffi.Names.{parse_database_name}
use chroma_go_local.Wal.Prune.{WalPruneTarget}
use chroma_go_local.Wal.Targets.{
  Catalogue, database_page, collection_page, database_names, go_on, collect_targets,
  list_wal_prune_targets, list_pages, list_targets,
}
use chroma_go_local.Wal.Targets.Pages.{IsPaged, list_pages-eq}

module _ {State CollectionUuid DatabaseName : Type 0}
    (c : Catalogue State CollectionUuid DatabaseName) (tenant_id : Text) (fuel : ℕ)
    (s : State) where
  -- A listing of `all` that pages answer, short enough for the offsets and the fuel.
  pub record IsListed {A : Type 0} (fetch : ℕ → State → Result (List A) Text × State) (all : List A)
      : Type 0 where
    pub paged : IsPaged fetch 0 s all
    pub fits : length all ≤ u32_max
    pub enough : length all < fuel

  module _ {T : Type 0} (page : Text → DatabaseName → ℕ → State → Result (List T) Text × State)
      (entries : Text → List T) where
    -- The database has a valid name, and its collections are listed.
    pub record IsDatabase (name : Text) : Type 0 where
      pub parsed : DatabaseName
      pub valid : parse_database_name c.new_name name ≡ ok parsed
      pub listed : IsListed (page name parsed) (entries name)

    abbrev pub all_entries : List Text → List T
    all_entries [] = []
    all_entries (name ∷ names) = entries name ++ all_entries names

  listing :
      {A : Type 0} (fetch : ℕ → State → Result (List A) Text × State) (found all : List A)
      → IsListed fetch all
      → list_pages fuel fetch 0 found s ≡ (ok (some (found ++ all)), s)
  listing fetch found all v =
      list_pages-eq fetch s fuel 0 found all v.paged (omega (arith, v.fits)) v.enough

  module _ {T : Type 0} (page : Text → DatabaseName → ℕ → State → Result (List T) Text × State)
      (entries : Text → List T) where
    collect_targets-eq :
        (names : List Text) (targets : List T)
        → All (IsDatabase page entries) names
        → collect_targets c tenant_id fuel page names targets s
          ≡ (ok (some (targets ++ all_entries page entries names)), s)
    unfolding collect_targets resume go_on
    collect_targets-eq [] targets v = ap (λ ts. (ok (some ts), s)) (sym (append-nil targets))
    collect_targets-eq (name ∷ names) targets v =
        rw
          (
            v.0.valid,
            listing (page name v.0.parsed) targets (entries name) v.0.listed,
            collect_targets,
          )
          (collect_targets-eq names (targets ++ entries name) v.1
            ∙ ap (λ ts. (ok (some ts), s))
                (append_assoc targets (entries name) (all_entries page entries names)))

    -- All collections of all databases of the tenant, in the order of the listings.
    pub list_targets_every :
        (names : List Text)
        → IsListed (database_page c tenant_id) names
        → All (IsDatabase page entries) names
        → list_targets c tenant_id fuel page none s
          ≡ (ok (some (all_entries page entries names)), s)
    unfolding list_targets database_names resume go_on
    list_targets_every names listed all_valid =
        rw (listing (database_page c tenant_id) [] names listed, list_targets)
          (collect_targets-eq names [] all_valid)

    -- Those of one database.
    pub list_targets_single :
        (name : Text)
        → IsDatabase page entries name
        → list_targets c tenant_id fuel page (some name) s ≡ (ok (some (entries name)), s)
    unfolding list_targets database_names resume go_on
    list_targets_single name one =
        collect_targets-eq (name ∷ []) [] (one, tt)
        ∙ ap (λ ts. (ok (some ts), s)) (append-nil (entries name))

  module _ (entries : Text → List (WalPruneTarget CollectionUuid)) where
    -- Without a database's name, the run visits the collections of all databases of the tenant,
    -- each once, in the order of the listings; with one, those of that database. Each listing
    -- answers a page with its next hundred entries and changes nothing, the names are valid, and
    -- a listing has at most `u32::MAX` entries and fewer than the fuel.
    pub list_wal_prune_targets_complete :
        (names : List Text) (name : Text)
        → IsListed (database_page c tenant_id) names
        → All (IsDatabase (collection_page c tenant_id) entries) names
        → IsDatabase (collection_page c tenant_id) entries name
        → (list_wal_prune_targets c tenant_id fuel none s
            ≡ (ok (some (all_entries (collection_page c tenant_id) entries names)), s))
          × (list_wal_prune_targets c tenant_id fuel (some name) s ≡ (ok (some (entries name)), s))
    unfolding list_wal_prune_targets
    list_wal_prune_targets_complete names name listed all_valid one = (
      list_targets_every (collection_page c tenant_id) entries names listed all_valid,
      list_targets_single (collection_page c tenant_id) entries name one,
    )
