-- ===== src/Tests/Rebuilding.antt =====
-- The rebuild of shim/src/lib.rs on small maps.
use mathlib.Core.List.Permᴰ
use chroma_go_local.Base.{ℕ, ◌+◌, ◌≡◌, ◌≢◌, refl, true, false, none, some, List, [], ◌∷◌, arith, ok}
use chroma_go_local.Base.Actions.{Ends}
use chroma_go_local.Base.Maps.{text_eq, text_beq, insert, text_beq_iff, get, contains_key}
use chroma_go_local.Base.Text.{Text}
use chroma_go_local.Rebuild.IdMap.{
  check_ids, check_labels, check_seq_ids, check_max, max_value, check_reverse, check_forward,
  HnswIdMap, validate, insert_seq, insert_record,
}
use chroma_go_local.Rebuild.IdMap.Bijection.{
  IsConsistent, validate-IsConsistent, insert_record-IsConsistent,
}
use chroma_go_local.Rebuild.Reindex.{
  RebuildRecord, HnswIndexes, reindex, rebuilt_id_map, rebuild_records, sort_by_label,
}
use chroma_go_local.Rebuild.Reindex.Valid.{reindex_validates}
use chroma_go_local.Rebuild.Reindex.Order.{IsDistinctBy, IsSorted, rebuild_order_free}
use chroma_go_local.Rebuild.Reindex.Success.{IsDistinct, reindex_completes}
use chroma_go_local.Rebuild.Reindex.Labels.{IsReindexed, reindex-IsReindexed}

abbrev empty_map : HnswIdMap
empty_map = record {
  dimensionality = some 3;
  total_elements_added = 0;
  max_seq_id = none;
  id_to_label = [];
  label_to_id = [];
  id_to_seq_id = [];
}

abbrev pub one_map : HnswIdMap
one_map = record {
  dimensionality = some 3;
  total_elements_added = 1;
  max_seq_id = none;
  id_to_label = (97 ∷ [], 1) ∷ [];
  label_to_id = (1, 97 ∷ []) ∷ [];
  id_to_seq_id = (97 ∷ [], 5) ∷ [];
}

abbrev two_map : HnswIdMap
two_map = record {
  dimensionality = some 3;
  total_elements_added = 2;
  max_seq_id = none;
  id_to_label = (97 ∷ [], 1) ∷ (98 ∷ [], 2) ∷ [];
  label_to_id = (1, 97 ∷ []) ∷ (2, 98 ∷ []) ∷ [];
  id_to_seq_id = (97 ∷ [], 5) ∷ (98 ∷ [], 6) ∷ [];
}

empty_map_valid : validate empty_map ≡ ok tt
unfolding validate check_ids check_labels check_seq_ids check_max max_value
empty_map_valid = refl

one_map_valid : validate one_map ≡ ok tt
unfolding validate check_ids check_labels check_seq_ids check_max max_value check_reverse
    check_forward get text_beq contains_key
one_map_valid = refl

validate-IsConsistent_example : IsConsistent one_map
validate-IsConsistent_example = validate-IsConsistent one_map one_map_valid

inserted : insert_record (98 ∷ []) 2 (some 6) one_map ≡ ok two_map
unfolding insert_record insert_seq insert get contains_key text_beq
inserted = refl

insert_record-IsConsistent_example :
    IsConsistent two_map
    × (get (98 ∷ []) two_map.id_to_label ≡ some 2)
    × ((k : Text) → k ≢ 98 ∷ [] → get k two_map.id_to_label ≡ get k one_map.id_to_label)
    × (two_map.total_elements_added ≡ 2)
insert_record-IsConsistent_example =
    insert_record-IsConsistent (98 ∷ []) 2 (some 6) one_map two_map
      (validate-IsConsistent one_map one_map_valid) inserted

-- Every label has a vector; what is added is listed.
abbrev indexes : HnswIndexes
indexes = record {
  State = List (ℕ × ℕ);
  Embedding = ℕ;
  source_get = λ s label. ok (some (100 + label));
  rebuilt_add = λ label embedding s. (ok tt, (label, embedding) ∷ s);
}

abbrev records : List RebuildRecord
records =
    record { user_id = 97 ∷ []; label = 4; seq_id = some 5 }
    ∷ record { user_id = 98 ∷ []; label = 9; seq_id = none }
    ∷ []

reindex-IsReindexed_example :
    Ends {S = List (ℕ × ℕ)} {E = Text}
      (λ out s'. IsReindexed indexes records empty_map 0 out)
      (λ e s'. Unit {0})
      (reindex indexes records empty_map 0 [])
reindex-IsReindexed_example =
    reindex-IsReindexed indexes records empty_map 0 []
      (validate-IsConsistent empty_map empty_map_valid)

records_differ : IsDistinct records
unfolding text_beq
records_differ = (
  (λ e. let same : false ≡ true = (text_beq_iff (97 ∷ []) (98 ∷ [])).1 e in absurd (cc same), tt),
  (tt, tt),
)

reindex_completes_example :
    (out : HnswIdMap × ℕ) × (s' : List (ℕ × ℕ)) × (reindex indexes records
        (rebuilt_id_map (some 3) none)
        0
        []
      ≡ (ok out, s'))
    × IsReindexed indexes records (rebuilt_id_map (some 3) none) 0 out
reindex_completes_example =
    reindex_completes indexes records (some 3) none [] (λ s. (104, refl), (λ s. (109, refl), tt))
      (λ l e s. ((l, e) ∷ s, refl)) records_differ (omega arith)

abbrev limited_map : HnswIdMap
limited_map = record two_map { max_seq_id = some 6 }

limited_map_valid : validate limited_map ≡ ok tt
unfolding validate check_ids check_labels check_seq_ids check_max max_value check_reverse
    check_forward get text_beq contains_key
limited_map_valid = refl

two_map_valid : validate two_map ≡ ok tt
unfolding validate check_ids check_labels check_seq_ids check_max max_value check_reverse
    check_forward get text_beq contains_key
two_map_valid = refl

ids_differ : IsDistinctBy (λ x. x.0) two_map.id_to_label
unfolding text_beq
ids_differ = (
  (λ e. let same : false ≡ true = (text_beq_iff (97 ∷ []) (98 ∷ [])).1 e in absurd (cc same), tt),
  (tt, tt),
)

rebuild_order_free_example :
    (sort_by_label (rebuild_records two_map.id_to_seq_id two_map.id_to_label)
      ≡ sort_by_label (rebuild_records two_map.id_to_seq_id ((98 ∷ [], 2) ∷ (97 ∷ [], 1) ∷ [])))
    × IsSorted
        (sort_by_label (rebuild_records two_map.id_to_seq_id ((98 ∷ [], 2) ∷ (97 ∷ [], 1) ∷ [])))
rebuild_order_free_example =
    rebuild_order_free two_map ((98 ∷ [], 2) ∷ (97 ∷ [], 1) ∷ []) two_map_valid ids_differ
      (Permᴰ.swap refl refl)

reindex_validates_example :
    Ends {S = List (ℕ × ℕ)} {E = Text}
      (λ out s'. (validate out.0 ≡ ok tt) × (out.0.max_seq_id ≡ limited_map.max_seq_id))
      (λ e s'. Unit {0})
      (reindex indexes
        (sort_by_label (rebuild_records limited_map.id_to_seq_id limited_map.id_to_label))
        (rebuilt_id_map (some 3) limited_map.max_seq_id)
        0
        [])
reindex_validates_example = reindex_validates indexes limited_map (some 3) [] limited_map_valid
