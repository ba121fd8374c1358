-- ===== src/Rebuild/IdMap.antt =====
-- `HnswIdMap` of shim/src/lib.rs: the two directions of the mapping between record ids and labels
-- that `index_metadata.pickle` stores, and the checks on loading it.
use chroma_go_local.Base.{
  ℕ, ◌<◌, ◌≤◌, max, Bool, true, false, not, Option, none, some, List, [], ◌∷◌, map, length, arith,
  ltb, ◌==◌, if◌then◌else◌, Result, ok, err, ◌>>=◌, ◌>>◌, guard,
}
use chroma_go_local.Base.Maps.{Eq, nat_eq, text_eq, text_beq, get, insert, contains_key}
use chroma_go_local.Base.Text.{Text, text}
pub mod Bijection
pub mod Loadable

pub record HnswIdMap : Type 0 where
  pub dimensionality : Option ℕ
  pub total_elements_added : ℕ
  pub max_seq_id : Option ℕ
  pub id_to_label : List (Text × ℕ)
  pub label_to_id : List (ℕ × Text)
  pub id_to_seq_id : List (Text × ℕ)

-- One constructor for each message of `validate` and `insert_record`, with its arguments.
pub data IdMapError : Type 0 where
  length_mismatch : ℕ → ℕ → IdMapError
  non_bijective_id : Text → ℕ → Text → IdMapError
  missing_reverse : Text → ℕ → IdMapError
  non_bijective_label : ℕ → Text → ℕ → IdMapError
  missing_forward : ℕ → Text → IdMapError
  unknown_seq_id : Text → IdMapError
  max_seq_id_small : ℕ → ℕ → IdMapError
  duplicate_id : Text → IdMapError
  duplicate_label : ℕ → IdMapError

-- `match self.label_to_id.get(label)` for one entry.
unfoldable pub check_reverse : Text → ℕ → Option Text → Result (Unit {0}) IdMapError
check_reverse id label none = err (missing_reverse id label)
check_reverse id label (some mapped_id) =
    if text_beq mapped_id id then ok tt else err (non_bijective_id id label mapped_id)

unfoldable pub check_ids : List (ℕ × Text) → List (Text × ℕ) → Result (Unit {0}) IdMapError
check_ids label_to_id [] = ok tt
check_ids label_to_id ((id, label) ∷ rest) =
    check_reverse id label (get label label_to_id) >> check_ids label_to_id rest

unfoldable pub check_forward : ℕ → Text → Option ℕ → Result (Unit {0}) IdMapError
check_forward label id none = err (missing_forward label id)
check_forward label id (some mapped_label) =
    if mapped_label == label then ok tt else err (non_bijective_label label id mapped_label)

unfoldable pub check_labels : List (Text × ℕ) → List (ℕ × Text) → Result (Unit {0}) IdMapError
check_labels id_to_label [] = ok tt
check_labels id_to_label ((label, id) ∷ rest) =
    check_forward label id (get id id_to_label) >> check_labels id_to_label rest

unfoldable pub check_seq_ids : List (Text × ℕ) → List (Text × ℕ) → Result (Unit {0}) IdMapError
check_seq_ids id_to_label [] = ok tt
check_seq_ids id_to_label ((id, seq) ∷ rest) =
    guard (contains_key id id_to_label) (unknown_seq_id id) >> check_seq_ids id_to_label rest

-- `values().copied().max()`
unfoldable pub max_value : List (Text × ℕ) → Option ℕ
max_value [] = none
max_value ((id, seq) ∷ rest) = elim (max_value rest) [ none ↦ some seq | some m ↦ some (max seq m) ]

unfoldable pub check_max : Option ℕ → Option ℕ → Result (Unit {0}) IdMapError
check_max none observed = ok tt
check_max (some max_seq_id) none = ok tt
check_max (some max_seq_id) (some observed) =
    if ltb max_seq_id observed then err (max_seq_id_small max_seq_id observed) else ok tt

unfoldable pub validate : HnswIdMap → Result (Unit {0}) IdMapError
validate m = do
  guard (length m.id_to_label == length m.label_to_id)
      (length_mismatch (length m.id_to_label) (length m.label_to_id))
  check_ids m.label_to_id m.id_to_label
  check_labels m.id_to_label m.label_to_id
  check_seq_ids m.id_to_label m.id_to_seq_id
  check_max m.max_seq_id (max_value m.id_to_seq_id)

unfoldable pub insert_seq : Text → Option ℕ → List (Text × ℕ) → List (Text × ℕ)
insert_seq id none m = m
insert_seq id (some seq) m = insert id seq m

unfoldable pub insert_record : Text → ℕ → Option ℕ → HnswIdMap → Result HnswIdMap IdMapError
unfolding insert_seq
insert_record user_id label seq_id m = do
  guard (not (contains_key user_id m.id_to_label)) (duplicate_id user_id)
  guard (not (contains_key label m.label_to_id)) (duplicate_label label)
  ok (record m {
    id_to_label = insert user_id label m.id_to_label;
    label_to_id = insert label user_id m.label_to_id;
    id_to_seq_id = insert_seq user_id seq_id m.id_to_seq_id;
    total_elements_added = label;
  })
