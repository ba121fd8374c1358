-- ===== src/Rebuild/IdMap/Bijection.antt =====
-- What `validate` establishes, and that an insertion keeps it.
use chroma_go_local.Base.{
  ℕ, suc, ◌≡◌, ◌≢◌, ◌↔◌, refl, sym, ◌∙◌, ap, true, Option, none, some, List, [], ◌∷◌, length, arith,
  ok, All, is_some, Option-cases, Bool-cases, inl, inr,
}
use chroma_go_local.Base.Maps.{
  nat_eq, text_eq, text_beq, text_beq_iff, get, insert, contains_key, get-insert, length-insert_new,
  All-get,
}
use chroma_go_local.Base.Text.{Text}
use chroma_go_local.Rebuild.IdMap.{
  HnswIdMap, check_reverse, check_ids, check_forward, check_labels, check_seq_ids, validate,
  insert_seq, insert_record,
}

-- The two maps are inverse to one another and of one size, and only known ids have a sequence id.
pub record IsConsistent (m : HnswIdMap) : Type 0 where
  pub same_size : length m.id_to_label ≡ length m.label_to_id
  pub inverse :
      (id : Text) (label : ℕ)
      → (get id m.id_to_label ≡ some label) ↔ (get label m.label_to_id ≡ some id)
  pub known : (id : Text) → get id m.id_to_label ≡ none → get id m.id_to_seq_id ≡ none

pub check_ids-All :
    (rev : List (ℕ × Text)) (fwd : List (Text × ℕ))
    → check_ids rev fwd ≡ ok tt
    → All (λ x. get x.1 rev ≡ some x.0) fwd
unfolding check_ids check_reverse
check_ids-All rev [] h = tt
check_ids-All rev ((id, label) ∷ rest) h = elim (Option-cases (get label rev)) [
  | inl e ↦ absurd (ground arith)
  | inr (mapped, e) ↦
      (ground (arith, text_beq_iff mapped id), check_ids-All rev rest (ground arith))
]

check_labels-All :
    (fwd : List (Text × ℕ)) (rev : List (ℕ × Text))
    → check_labels fwd rev ≡ ok tt
    → All (λ x. get x.1 fwd ≡ some x.0) rev
unfolding check_labels check_forward
check_labels-All fwd [] h = tt
check_labels-All fwd ((label, id) ∷ rest) h = elim (Option-cases (get id fwd)) [
  | inl e ↦ absurd (ground arith)
  | inr (mapped, e) ↦ (ground arith, check_labels-All fwd rest (ground arith))
]

check_seq_ids-All :
    (fwd seqs : List (Text × ℕ))
    → check_seq_ids fwd seqs ≡ ok tt
    → All (λ x. contains_key x.0 fwd ≡ true) seqs
unfolding check_seq_ids
check_seq_ids-All fwd [] h = tt
check_seq_ids-All fwd ((id, seq) ∷ rest) h =
    (ground arith, check_seq_ids-All fwd rest (ground arith))

known_of_All :
    (fwd seqs : List (Text × ℕ)) (id : Text)
    → All (λ x. contains_key x.0 fwd ≡ true) seqs
    → get id fwd ≡ none
    → get id seqs ≡ none
unfolding contains_key
known_of_All fwd seqs id h gone = elim (Option-cases (get id seqs)) [
  | inl e ↦ e
  | inr (v, e) ↦ absurd (ground (arith, All-get (λ k x. is_some (get k fwd) ≡ true) seqs id v h e))
]

-- In a map that `validate` accepts, the two directions have one size and are inverse to one
-- another, and only known ids have a sequence id.
pub validate-IsConsistent : (m : HnswIdMap) → validate m ≡ ok tt → IsConsistent m
unfolding validate
validate-IsConsistent m h = record {
  same_size = ground arith;
  inverse = λ id label. (
    All-get (λ k x. get x m.label_to_id ≡ some k) m.id_to_label id label
        (check_ids-All m.label_to_id m.id_to_label (ground arith)),
    All-get (λ k x. get x m.id_to_label ≡ some k) m.label_to_id label id
        (check_labels-All m.id_to_label m.label_to_id (ground arith)),
  );
  known = λ id.
      known_of_All m.id_to_label m.id_to_seq_id id
        (check_seq_ids-All m.id_to_label m.id_to_seq_id (ground arith));
}

insert_seq-none :
    (k id : Text) (seq : Option ℕ) (m : List (Text × ℕ))
    → k ≢ id
    → get id m ≡ none
    → get id (insert_seq k seq m) ≡ none
unfolding insert_seq
insert_seq-none k id none m ne h = h
insert_seq-none k id (some seq) m ne h = ground (arith, get-insert k id seq m, text_beq_iff k id)

-- The map after an insertion that passed its two checks.
abbrev pub with_record : Text → ℕ → Option ℕ → HnswIdMap → HnswIdMap
with_record id label seq m = record m {
  id_to_label = insert id label m.id_to_label;
  label_to_id = insert label id m.label_to_id;
  id_to_seq_id = insert_seq id seq m.id_to_seq_id;
  total_elements_added = label;
}

module _ (id : Text) (label : ℕ) (seq : Option ℕ) (m : HnswIdMap) where
  pub insert_record-eq-ok :
      (m' : HnswIdMap)
      → insert_record id label seq m ≡ ok m'
      → (get id m.id_to_label ≡ none)
        × (get label m.label_to_id ≡ none)
        × (m' ≡ with_record id label seq m)
  unfolding insert_record contains_key
  insert_record-eq-ok m' h = elim (Option-cases (get id m.id_to_label)) [
    | inr (a, e) ↦ absurd (ground arith)
    | inl new_id ↦ elim (Option-cases (get label m.label_to_id)) [
      | inr (a, e) ↦ absurd (ground arith)
      | inl new_label ↦ (new_id, new_label, ground arith)
    ]
  ]

  with_record-inverse :
      IsConsistent m
      → get id m.id_to_label ≡ none
      → get label m.label_to_id ≡ none
      → (k : Text) (l : ℕ)
      → (get k (insert id label m.id_to_label) ≡ some l)
        ↔ (get l (insert label id m.label_to_id) ≡ some k)
  with_record-inverse v new_id new_label k l =
      rw (get-insert id k label m.id_to_label, get-insert label l id m.label_to_id)
        (
          λ h. ground (arith, text_beq_iff id k, v.inverse k l, v.inverse k label),
          λ h. ground (arith, text_beq_iff id k, v.inverse k l, v.inverse id l),
        )

  with_record-IsConsistent :
      IsConsistent m
      → get id m.id_to_label ≡ none
      → get label m.label_to_id ≡ none
      → IsConsistent (with_record id label seq m)
  with_record-IsConsistent v new_id new_label = record {
    same_size =
        length-insert_new id label m.id_to_label new_id
        ∙ ap suc v.same_size
        ∙ sym (length-insert_new label id m.label_to_id new_label);
    inverse = with_record-inverse v new_id new_label;
    known = known;
  }
    where
      known :
          (k : Text)
          → get k (insert id label m.id_to_label) ≡ none
          → get k (insert_seq id seq m.id_to_seq_id) ≡ none
      known k h = elim (Bool-cases (text_beq id k)) [
        | inl same ↦ absurd (ground (arith, get-insert id k label m.id_to_label))
        | inr other ↦
            insert_seq-none id k seq m.id_to_seq_id (λ e. ground (arith, text_beq_iff id k))
              (v.known k (ground (arith, get-insert id k label m.id_to_label)))
      ]

-- An insertion into a consistent map that succeeds gives a consistent map, in which the id has
-- the label, every other id is as it was, and the label is the number of elements added.
pub insert_record-IsConsistent :
    (id : Text) (label : ℕ) (seq : Option ℕ) (m m' : HnswIdMap)
    → IsConsistent m
    → insert_record id label seq m ≡ ok m'
    → IsConsistent m'
      × (get id m'.id_to_label ≡ some label)
      × ((k : Text) → k ≢ id → get k m'.id_to_label ≡ get k m.id_to_label)
      × (m'.total_elements_added ≡ label)
insert_record-IsConsistent id label seq m m' v h =
    let (new_id, new_label, same) = insert_record-eq-ok id label seq m m' h in
    rw same (
      with_record-IsConsistent id label seq m v new_id new_label,
      ground (arith, get-insert id id label m.id_to_label, text_beq_iff id id),
      λ k other. ground (arith, get-insert id k label m.id_to_label, text_beq_iff id k),
      refl,
    )
