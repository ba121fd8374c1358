-- ===== src/Rebuild/IdMap/Loadable.antt =====
-- Which maps `validate` of shim/src/lib.rs accepts, entry by entry, and that an insertion gives another one.
use chroma_go_local.Base.{
  ℕ, suc, ◌≤◌, max, ◌≡◌, refl, sym, ◌∙◌, ap, subst, true, Bool-cases, Option-cases, inl, inr,
  Option, none, some, List, [], ◌∷◌, length, All, All-map_of, arith, ok, ==_iff,
}
use chroma_go_local.Base.Maps.{
  Eq, nat_eq, text_eq, text_beq_iff, get, insert, contains_key, get-insert, length-insert_new,
}
use chroma_go_local.Base.Text.{Text}
use chroma_go_local.Rebuild.IdMap.{
  HnswIdMap, validate, check_ids, check_reverse, check_labels, check_forward, check_seq_ids,
  check_max, max_value, insert_seq,
}
use chroma_go_local.Rebuild.IdMap.Bijection.{with_record}

-- Each entry is answered by the other map, the ids with a sequence id are known, and the greatest
-- sequence id is at most the recorded one.
pub record IsLoadable (m : HnswIdMap) : Type 0 where
  pub same_size : length m.id_to_label ≡ length m.label_to_id
  pub ids : All (λ x. get x.1 m.label_to_id ≡ some x.0) m.id_to_label
  pub labels : All (λ x. get x.1 m.id_to_label ≡ some x.0) m.label_to_id
  pub seqs : All (λ x. contains_key x.0 m.id_to_label ≡ true) m.id_to_seq_id
  pub top : (b : ℕ) → m.max_seq_id ≡ some b → All (λ x. x.1 ≤ b) m.id_to_seq_id

check_ids-ok :
    (rev : List (ℕ × Text)) (fwd : List (Text × ℕ))
    → All (λ x. get x.1 rev ≡ some x.0) fwd
    → check_ids rev fwd ≡ ok tt
unfolding check_ids check_reverse
check_ids-ok rev [] h = refl
check_ids-ok rev ((id, label) ∷ rest) h =
    rw (h.0, (text_beq_iff id id).1 refl) (check_ids-ok rev rest h.1)

check_labels-ok :
    (fwd : List (Text × ℕ)) (rev : List (ℕ × Text))
    → All (λ x. get x.1 fwd ≡ some x.0) rev
    → check_labels fwd rev ≡ ok tt
unfolding check_labels check_forward
check_labels-ok fwd [] h = refl
check_labels-ok fwd ((label, id) ∷ rest) h =
    rw (h.0, (==_iff label label).1 refl) (check_labels-ok fwd rest h.1)

check_seq_ids-ok :
    (fwd seqs : List (Text × ℕ))
    → All (λ x. contains_key x.0 fwd ≡ true) seqs
    → check_seq_ids fwd seqs ≡ ok tt
unfolding check_seq_ids
check_seq_ids-ok fwd [] h = refl
check_seq_ids-ok fwd ((id, seq) ∷ rest) h = rw h.0 (check_seq_ids-ok fwd rest h.1)

max_value-le :
    (b : ℕ) (seqs : List (Text × ℕ)) (v : ℕ)
    → All (λ x. x.1 ≤ b) seqs
    → max_value seqs ≡ some v
    → v ≤ b
unfolding max_value
max_value-le b [] v h e = let bad : ⊥ = cc e in absurd bad
max_value-le b ((id, seq) ∷ rest) v h e = elim (Option-cases (max_value rest)) [
  | inl gone ↦ ground (arith, h.0)
  | inr (m, found) ↦
      let le : m ≤ b = max_value-le b rest m h.1 found in
      let same : some (max seq m) ≡ some v =
        subst (λ o. elim o [ none ↦ some seq | some m ↦ some (max seq m) ] ≡ some v) found e in
      ground (arith, h.0, le, same)
]

check_max-ok :
    (recorded : Option ℕ) (seqs : List (Text × ℕ))
    → ((b : ℕ) → recorded ≡ some b → All (λ x. x.1 ≤ b) seqs)
    → check_max recorded (max_value seqs) ≡ ok tt
unfolding check_max
check_max-ok none seqs h = refl
check_max-ok (some b) seqs h = elim (Option-cases (max_value seqs)) [
  | inl e ↦ rw e refl
  | inr (v, e) ↦ let le : v ≤ b = max_value-le b seqs v (h b refl) e in rw e (ground (arith, le))
]

pub IsLoadable-validate : (m : HnswIdMap) → IsLoadable m → validate m ≡ ok tt
unfolding validate
IsLoadable-validate m v =
    rw
      (
        (==_iff (length m.id_to_label) (length m.label_to_id)).1 v.same_size,
        check_ids-ok m.label_to_id m.id_to_label v.ids,
        check_labels-ok m.id_to_label m.label_to_id v.labels,
        check_seq_ids-ok m.id_to_label m.id_to_seq_id v.seqs,
        check_max-ok m.max_seq_id m.id_to_seq_id v.top,
        validate,
      )
      refl

-- What holds of all entries and of a new one holds after its insertion.
All-insert :
    {K V : Type 0} ⦃e : Eq K⦄ (P : K × V → Type 0) (k : K) (v : V) (m : List (K × V))
    → P (k, v)
    → All P m
    → All P (insert k v m)
unfolding insert
All-insert P k v [] p h = (p, tt)
All-insert ⦃e = e⦄ P k v ((j, w) ∷ m) p h = elim (Bool-cases (e.beq j k)) [
  | inl same ↦ rw (same, insert) (subst (λ i. P (i, v)) (sym ((e.beq_iff j k).0 same)) p, h.1)
  | inr other ↦ rw (other, insert) (h.0, All-insert P k v m p h.1)
]

module _ (id : Text) (label : ℕ) (seq : Option ℕ) (m : HnswIdMap) (v : IsLoadable m)
    (new_id : get id m.id_to_label ≡ none) (new_label : get label m.label_to_id ≡ none)
    (below : (b q : ℕ) → m.max_seq_id ≡ some b → seq ≡ some q → q ≤ b) where
  rev-kept :
      (x : Text × ℕ)
      → get x.1 m.label_to_id ≡ some x.0
      → get x.1 (insert label id m.label_to_id) ≡ some x.0
  rev-kept x h = ground (arith, get-insert label x.1 id m.label_to_id, ==_iff label x.1)

  fwd-kept :
      (x : ℕ × Text)
      → get x.1 m.id_to_label ≡ some x.0
      → get x.1 (insert id label m.id_to_label) ≡ some x.0
  fwd-kept x h = ground (arith, get-insert id x.1 label m.id_to_label, text_beq_iff id x.1)

  known-kept :
      (x : Text × ℕ)
      → contains_key x.0 m.id_to_label ≡ true
      → contains_key x.0 (insert id label m.id_to_label) ≡ true
  unfolding contains_key
  known-kept x h = ground (arith, get-insert id x.0 label m.id_to_label, text_beq_iff id x.0)

  seqs-All :
      (P : Text × ℕ → Type 0) (s : Option ℕ)
      → ((q : ℕ) → s ≡ some q → P (id, q))
      → All P m.id_to_seq_id
      → All P (insert_seq id s m.id_to_seq_id)
  unfolding insert_seq
  seqs-All P none p h = h
  seqs-All P (some q) p h = All-insert P id q m.id_to_seq_id (p q refl) h

  pub with_record-IsLoadable : IsLoadable (with_record id label seq m)
  unfolding contains_key
  with_record-IsLoadable = record {
    same_size =
        length-insert_new id label m.id_to_label new_id
        ∙ ap suc v.same_size
        ∙ sym (length-insert_new label id m.label_to_id new_label);
    ids =
        All-insert (λ x. get x.1 (insert label id m.label_to_id) ≡ some x.0) id label m.id_to_label
          (ground (arith, get-insert label label id m.label_to_id, ==_iff label label))
          (All-map_of _ _ rev-kept m.id_to_label v.ids);
    labels =
        All-insert (λ x. get x.1 (insert id label m.id_to_label) ≡ some x.0) label id m.label_to_id
          (ground (arith, get-insert id id label m.id_to_label, text_beq_iff id id))
          (All-map_of _ _ fwd-kept m.label_to_id v.labels);
    seqs =
        seqs-All (λ x. contains_key x.0 (insert id label m.id_to_label) ≡ true) seq
          (λ q e. ground (arith, get-insert id id label m.id_to_label, text_beq_iff id id))
          (All-map_of _ _ known-kept m.id_to_seq_id v.seqs);
    top = λ b e. seqs-All (λ x. x.1 ≤ b) seq (λ q s. below b q e s) (v.top b e);
  }
