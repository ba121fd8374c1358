-- ===== src/Rebuild/Reindex.antt =====
-- The loop of `run_rebuild_collection` of shim/src/lib.rs that copies the live vectors, in the
-- order of their old labels, under new labels from 1 on; and the capacity that it asks for.
use chroma_go_local.Base.{
  ℕ, zero, suc, ◌+◌, ◌<◌, ◌≤◌, min, max, Bool, true, false, ◌||◌, Option, none, some, List, [], ◌∷◌,
  ◌++◌, map, length, ltb, leb, ◌==◌, if◌then◌else◌, Result, ok, err, ok_or,
}
use chroma_go_local.Base.Actions.{Action, pure, fail, ◌>>=◌, ◌>>◌, lift, map_err}
use chroma_go_local.Base.Maps.{get, text_eq}
use chroma_go_local.Base.Text.{Text, text, show_nat}
use chroma_go_local.Base.Words.{saturating_add, u32_max}
use chroma_go_local.Rebuild.IdMap.{
  HnswIdMap, IdMapError, length_mismatch, non_bijective_id, missing_reverse, non_bijective_label,
  missing_forward, unknown_seq_id, max_seq_id_small, duplicate_id, duplicate_label, insert_record,
}
pub mod Rounds
pub mod Labels
pub mod Success
pub mod Counted
pub mod Order
pub mod Valid

-- The text of an error of the id map.
unfoldable pub show_id_map_error : IdMapError → Text
show_id_map_error (length_mismatch a b) =
    text "id_to_label/label_to_id length mismatch: " ++ (show_nat a ++ (text " != " ++ show_nat b))
show_id_map_error (non_bijective_id id label mapped) =
    text "non-bijective mapping for id "
    ++ (id ++ (text ": label " ++ (show_nat label ++ (text " maps to " ++ mapped))))
show_id_map_error (missing_reverse id label) =
    text "missing reverse mapping for id " ++ (id ++ (text " label " ++ show_nat label))
show_id_map_error (non_bijective_label label id mapped) =
    text "non-bijective mapping for label "
    ++ (show_nat label ++ (text ": id " ++ (id ++ (text " maps to " ++ show_nat mapped))))
show_id_map_error (missing_forward label id) =
    text "missing forward mapping for label " ++ (show_nat label ++ (text " id " ++ id))
show_id_map_error (unknown_seq_id id) = text "seq-id mapping references unknown id " ++ id
show_id_map_error (max_seq_id_small m observed) =
    text "max_seq_id "
    ++ (show_nat m ++ (text " is smaller than observed seq id " ++ show_nat observed))
show_id_map_error (duplicate_id id) = text "duplicate id mapping for " ++ id
show_id_map_error (duplicate_label label) = text "duplicate label mapping for " ++ show_nat label

-- A record to copy: its id, its old label and its sequence id.
pub record RebuildRecord : Type 0 where
  pub user_id : Text
  pub label : ℕ
  pub seq_id : Option ℕ

unfoldable pub rebuild_records : List (Text × ℕ) → List (Text × ℕ) → List RebuildRecord
rebuild_records id_to_seq_id [] = []
rebuild_records id_to_seq_id ((id, label) ∷ rest) =
    record { user_id = id; label = label; seq_id = get id id_to_seq_id }
    ∷ rebuild_records id_to_seq_id rest

-- `sort_by_key` on the label, which is stable.
unfoldable pub insert_by_label : RebuildRecord → List RebuildRecord → List RebuildRecord
insert_by_label r [] = r ∷ []
insert_by_label r (x ∷ xs) = if leb r.label x.label then r ∷ x ∷ xs else x ∷ insert_by_label r xs

unfoldable pub sort_by_label : List RebuildRecord → List RebuildRecord
sort_by_label [] = []
sort_by_label (r ∷ rs) = insert_by_label r (sort_by_label rs)

-- `scale` is the rounded product of a count with the resize factor, a float.
unfoldable pub rebuild_required_capacity : (ℕ → ℕ) → ℕ → ℕ
rebuild_required_capacity scale record_count =
    max (max (scale (max record_count 1)) (saturating_add record_count 1)) 100

-- `str::contains`
unfoldable pub is_prefix : Text → Text → Bool
is_prefix [] t = true
is_prefix (a ∷ s) [] = false
is_prefix (a ∷ s) (b ∷ t) = let rest = is_prefix s t in if a == b then rest else false

unfoldable pub contains_text : Text → Text → Bool
contains_text s [] = is_prefix s []
contains_text s (b ∷ t) = is_prefix s (b ∷ t) || contains_text s t

unfoldable pub is_hnsw_label_not_found : Text → Bool
is_hnsw_label_not_found error_message = contains_text (text "Label not found") error_message

-- The two indexes: reading a vector of the old one, and adding one to the new one.
pub record HnswIndexes : Type 1 where
  pub State : Type 0
  pub Embedding : Type 0
  pub source_get : State → ℕ → Result (Option Embedding) Text
  pub rebuilt_add : ℕ → Embedding → Action State Text (Unit {0})

-- `checked_add(1)` on a `u32`.
unfoldable pub next_label : ℕ → Option ℕ
next_label n = if ltb n u32_max then some (n + 1) else none

unfoldable pub missing_embedding : RebuildRecord → Text
missing_embedding r =
    text "source index is inconsistent: missing embedding for label "
    ++ (show_nat r.label ++ (text " referenced by id " ++ r.user_id))

module _ (x : HnswIndexes) where
  open x use {State, Embedding, source_get, rebuilt_add}

  unfoldable pub embedding_of :
      RebuildRecord → Result (Option Embedding) Text → Result Embedding Text
  embedding_of r (ok (some embedding)) = ok embedding
  embedding_of r (ok none) = err (missing_embedding r)
  embedding_of r (err e) =
      if is_hnsw_label_not_found e
      then err (missing_embedding r)
      else err (
          text "failed to read source embedding for label "
          ++ (show_nat r.label ++ (text ": " ++ e)))

  -- One round: the new map, after the vector was added under the next label.
  unfoldable pub reindex_one : RebuildRecord → HnswIdMap → Action State Text HnswIdMap
  reindex_one r m s =
      (do
        embedding ← lift (embedding_of r (source_get s r.label))
        label ← lift (
            ok_or (next_label m.total_elements_added)
              (text "label counter overflow while rebuilding index"))
        added ←
            map_err
              (λ e.
                text "failed to add embedding for label " ++ (show_nat label ++ (text ": " ++ e)))
              (rebuilt_add label embedding)
        map_err
            (λ e.
              text "failed to update rebuilt metadata for id "
              ++ (r.user_id ++ (text ": " ++ show_id_map_error e)))
            (lift (insert_record r.user_id label r.seq_id m)))
        s

  unfoldable pub reindex : List RebuildRecord → HnswIdMap → ℕ → Action State Text (HnswIdMap × ℕ)
  reindex [] m vectors_reindexed = pure (m, vectors_reindexed)
  reindex (r ∷ rs) m vectors_reindexed = do
    m' ← reindex_one r m
    reindex rs m' (saturating_add vectors_reindexed 1)

-- The map that a rebuild starts from: no records, and the old map's dimension and sequence id.
unfoldable pub rebuilt_id_map : Option ℕ → Option ℕ → HnswIdMap
rebuilt_id_map dimensionality max_seq_id = record {
  dimensionality = dimensionality;
  total_elements_added = 0;
  max_seq_id = max_seq_id;
  id_to_label = [];
  label_to_id = [];
  id_to_seq_id = [];
}
