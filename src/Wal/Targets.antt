-- ===== src/Wal/Targets.antt =====
-- `list_wal_prune_targets` of shim/src/lib.rs: the collections of a tenant, read page by page. The
-- fuel bounds the pages of one listing; `none` stands for a listing that needs more.
use chroma_go_local.Base.{
  ℕ, zero, suc, ◌<◌, Bool, true, false, Option, none, some, List, [], ◌∷◌, ◌++◌, ltb, length,
  is_empty, Result, ok, err,
}
use chroma_go_local.Base.Actions.{Action, pure, ◌>>=◌, lift, when, map_err}
use chroma_go_local.Base.Text.{Text, text}
use chroma_go_local.Base.Words.{clamp_u32, saturating_add_u32}
use chroma_go_local.Ffi.Names.{parse_database_name}
use chroma_go_local.Wal.Prune.{WalPruneTarget}
pub mod Pages
pub mod Complete
pub mod Kept

abbrev pub page_size : ℕ
page_size = 100

-- The two loops of the source, for any kind of entry: an empty page or a short one is the last.
unfoldable pub list_pages :
    {S A : Type 0} → ℕ → (ℕ → Action S Text (List A)) → ℕ → List A → Action S Text (Option (List A))
list_pages zero fetch offset found = pure none
list_pages (suc fuel) fetch offset found = do
  page ← fetch offset
  when (is_empty page) (pure (some found)) (
      when (ltb (clamp_u32 (length page)) page_size) (pure (some (found ++ page))) (
        list_pages fuel fetch (saturating_add_u32 offset (clamp_u32 (length page)))
          (found ++ page)))

-- The frontend's listings. A listed collection is given as the target made of its fields.
pub record Catalogue (State CollectionUuid DatabaseName : Type 0) : Type 1 where
  pub DatabasesRequest : Type 0
  pub CollectionsRequest : Type 0
  pub new_name : Text → Option DatabaseName
  pub databases_request : Text → ℕ → ℕ → Result DatabasesRequest Text
  pub list_databases : DatabasesRequest → Action State Text (List Text)
  pub collections_request : Text → DatabaseName → ℕ → ℕ → Result CollectionsRequest Text
  pub list_collections :
      CollectionsRequest → Action State Text (List (WalPruneTarget CollectionUuid))

module _ {State CollectionUuid DatabaseName : Type 0}
    (c : Catalogue State CollectionUuid DatabaseName) (tenant_id : Text) where
  open c use {databases_request, list_databases, collections_request, list_collections}

  unfoldable pub database_page : ℕ → Action State Text (List Text)
  database_page offset = do
    request ← lift (databases_request tenant_id page_size offset)
    map_err (λ e. text "list databases failed: " ++ e) (list_databases request)

  unfoldable pub collection_page :
      Text → DatabaseName → ℕ → Action State Text (List (WalPruneTarget CollectionUuid))
  collection_page database_name parsed offset = do
    request ← lift (collections_request tenant_id parsed page_size offset)
    map_err
        (λ e. text "list collections failed for database " ++ (database_name ++ (text ": " ++ e)))
        (list_collections request)

  -- What follows the listing of one database.
  unfoldable pub go_on :
      {A B : Type 0} → (A → Action State Text (Option B)) → Option A → Action State Text (Option B)
  go_on k none = pure none
  go_on k (some a) = k a

  module _ (fuel : ℕ) where
    unfoldable pub database_names : Option Text → Action State Text (Option (List Text))
    database_names (some name) = pure (some (name ∷ []))
    database_names none = list_pages fuel database_page 0 []

    -- The targets of kind `T` that `page` makes of a page of a database's collections.
    module _ {T : Type 0} (page : Text → DatabaseName → ℕ → Action State Text (List T)) where
      unfoldable pub collect_targets : List Text → List T → Action State Text (Option (List T))
      collect_targets [] targets = pure (some targets)
      collect_targets (name ∷ names) targets = do
        parsed ← lift (parse_database_name c.new_name name)
        listed ← list_pages fuel (page name parsed) 0 targets
        go_on (collect_targets names) listed

      unfoldable pub list_targets : Option Text → Action State Text (Option (List T))
      list_targets database_name = do
        names ← database_names database_name
        go_on (λ ns. collect_targets ns []) names

    unfoldable pub list_wal_prune_targets :
        Option Text → Action State Text (Option (List (WalPruneTarget CollectionUuid)))
    list_wal_prune_targets database_name = list_targets collection_page database_name
