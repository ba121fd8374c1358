-- ===== src/Wal/Targets/Kept.antt =====
-- What the listings of shim/src/lib.rs leave alone: a predicate that every page keeps.
use chroma_go_local.Base.{ℕ, zero, suc, Option, none, some, List, [], ◌∷◌}
use chroma_go_local.Base.Actions.{
  Action, Keep, Keep-bind, Keep-pure, Keep-lift, Keep-map_err, Keep-when,
}
use chroma_go_local.Base.Text.{Text}
use chroma_go_local.Wal.Targets.{
  Catalogue, list_pages, database_page, collection_page, go_on, database_names, collect_targets,
  list_targets,
}

module _ {S : Type 0} (P : S → Type 0) where
  list_pages-Keep :
      {A : Type 0} (fetch : ℕ → Action S Text (List A))
      → ((n : ℕ) → Keep P (fetch n))
      → (fuel offset : ℕ) (found : List A) → Keep P (list_pages fuel fetch offset found)
  unfolding list_pages
  list_pages-Keep fetch k zero offset found = Keep-pure
  list_pages-Keep fetch k (suc fuel) offset found = Keep-bind (k offset) λ page.
      Keep-when (λ e. Keep-pure)
        (λ e. Keep-when (λ d. Keep-pure) (λ d. list_pages-Keep fetch k fuel _ _))

module _ {S U D : Type 0} (c : Catalogue S U D) (P : S → Type 0) where
  -- The two listings keep `P`.
  pub record Lists : Type 0 where
    pub databases : (q : c.DatabasesRequest) → Keep P (c.list_databases q)
    pub collections : (q : c.CollectionsRequest) → Keep P (c.list_collections q)

  module _ (lists : Lists) (tenant_id : Text) (fuel : ℕ) where
    database_page-Keep : (offset : ℕ) → Keep P (database_page c tenant_id offset)
    unfolding database_page
    database_page-Keep offset =
        Keep-bind Keep-lift λ request. Keep-map_err _ (lists.databases request)

    pub collection_page-Keep :
        (name : Text) (parsed : D) (offset : ℕ)
        → Keep P (collection_page c tenant_id name parsed offset)
    unfolding collection_page
    collection_page-Keep name parsed offset =
        Keep-bind Keep-lift λ request. Keep-map_err _ (lists.collections request)

    go_on-Keep :
        {A B : Type 0} (k : A → Action S Text (Option B))
        → ((a : A) → Keep P (k a))
        → (r : Option A) → Keep P (go_on c tenant_id k r)
    unfolding go_on
    go_on-Keep k h none = Keep-pure
    go_on-Keep k h (some a) = h a

    database_names-Keep : (name : Option Text) → Keep P (database_names c tenant_id fuel name)
    unfolding database_names
    database_names-Keep none = list_pages-Keep P _ database_page-Keep fuel 0 []
    database_names-Keep (some name) = Keep-pure

    module _ {T : Type 0} (page : Text → D → ℕ → Action S Text (List T))
        (pages : (name : Text) (parsed : D) (offset : ℕ) → Keep P (page name parsed offset)) where
      collect_targets-Keep :
          (names : List Text) (targets : List T)
          → Keep P (collect_targets c tenant_id fuel page names targets)
      unfolding collect_targets
      collect_targets-Keep [] targets = Keep-pure
      collect_targets-Keep (name ∷ names) targets = Keep-bind Keep-lift λ parsed.
          Keep-bind (list_pages-Keep P _ (pages name parsed) fuel 0 targets)
            (go_on-Keep _ (collect_targets-Keep names))

      pub list_targets-Keep :
          (name : Option Text) → Keep P (list_targets c tenant_id fuel page name)
      unfolding list_targets
      list_targets-Keep name =
          Keep-bind (database_names-Keep name) (go_on-Keep _ (λ ns. collect_targets-Keep ns []))
