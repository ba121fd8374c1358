-- ===== src/Rebuild/Reindex/Order.antt =====
-- The order of the records in a rebuild of shim/src/lib.rs: the iteration order of the hash map, which is
-- unspecified, has no part in it.
use mathlib.Core.List.{Permᴰ}
use chroma_go_local.Base.{
  ℕ, ◌≤◌, ◌≡◌, ◌≢◌, refl, sym, ◌∙◌, ap, subst, Bool-cases, inl, inr, some, List, [], ◌∷◌, All, ok,
  arith, leb,
}
use chroma_go_local.Base.Maps.{get, text_eq, nat_eq}
use chroma_go_local.Base.Text.{Text}
use chroma_go_local.Rebuild.IdMap.{HnswIdMap, validate}
use chroma_go_local.Rebuild.IdMap.Bijection.{check_ids-All}
use chroma_go_local.Rebuild.Reindex.{RebuildRecord, rebuild_records, insert_by_label, sort_by_label}

All-Perm : {A : Type 0} (P : A → Type 0) {xs ys : List A} → Permᴰ xs ys → All P xs → All P ys
All-Perm P Permᴰ.nil h = h
All-Perm P (Permᴰ.cons e d) h = (subst P e h.0, All-Perm P d h.1)
All-Perm P (Permᴰ.swap e f) h = (subst P f h.1.0, (subst P e h.0, h.1.1))
All-Perm P (Permᴰ.trans d d') h = All-Perm P d' (All-Perm P d h)

-- No two elements agree in what `f` reads.
abbrev pub IsDistinctBy : {A B : Type 0} → (A → B) → List A → Type 0
IsDistinctBy f [] = Unit {0}
IsDistinctBy f (x ∷ xs) = All (λ y. f x ≢ f y) xs × IsDistinctBy f xs

module _ {A B : Type 0} (f : A → B) where
  IsDistinctBy-Perm : {xs ys : List A} → Permᴰ xs ys → IsDistinctBy f xs → IsDistinctBy f ys
  IsDistinctBy-Perm Permᴰ.nil h = h
  IsDistinctBy-Perm (Permᴰ.cons {b = b} {l₁ = l₁} e d) h = (
    All-Perm (λ y. f b ≢ f y) d (subst (λ x. All (λ y. f x ≢ f y) l₁) e h.0),
    IsDistinctBy-Perm d h.1,
  )
  IsDistinctBy-Perm (Permᴰ.swap {l = l} e g) h = (
    (λ q. h.0.0 (ap f e ∙ (sym q ∙ sym (ap f g))), subst (λ x. All (λ y. f x ≢ f y) l) g h.1.0),
    (subst (λ x. All (λ y. f x ≢ f y) l) e h.0.1, h.1.1),
  )
  IsDistinctBy-Perm (Permᴰ.trans d d') h = IsDistinctBy-Perm d' (IsDistinctBy-Perm d h)

abbrev label_of : RebuildRecord → ℕ
label_of r = r.label

insert_comm :
    (a b : RebuildRecord) (l : List RebuildRecord)
    → a.label ≢ b.label
    → insert_by_label a (insert_by_label b l) ≡ insert_by_label b (insert_by_label a l)
unfolding insert_by_label
insert_comm a b [] d = ground arith
insert_comm a b (x ∷ xs) d = ground (arith, insert_comm a b xs d)

sort-Perm :
    {xs ys : List RebuildRecord}
    → Permᴰ xs ys
    → IsDistinctBy label_of xs
    → sort_by_label xs ≡ sort_by_label ys
unfolding sort_by_label
sort-Perm Permᴰ.nil h = refl
sort-Perm (Permᴰ.cons e d) h = λ i. insert_by_label (e i) (sort-Perm d h.1 i)
sort-Perm (Permᴰ.swap {a} {b} {l = l} e g) h =
    insert_comm a b (sort_by_label l) h.0.0
    ∙ (λ i. insert_by_label (g i) (insert_by_label (e i) (sort_by_label l)))
sort-Perm (Permᴰ.trans d d') h = sort-Perm d h ∙ sort-Perm d' (IsDistinctBy-Perm label_of d h)

-- The records of the entries, entry by entry.
record_of : List (Text × ℕ) → Text × ℕ → RebuildRecord
record_of seqs (id, label) = record { user_id = id; label = label; seq_id = get id seqs }

records-Perm :
    (seqs : List (Text × ℕ)) {es es' : List (Text × ℕ)}
    → Permᴰ es es'
    → Permᴰ (rebuild_records seqs es) (rebuild_records seqs es')
unfolding rebuild_records record_of
records-Perm seqs Permᴰ.nil = Permᴰ.nil
records-Perm seqs (Permᴰ.cons e d) = Permᴰ.cons (ap (record_of seqs) e) (records-Perm seqs d)
records-Perm seqs (Permᴰ.swap e g) = Permᴰ.swap (ap (record_of seqs) e) (ap (record_of seqs) g)
records-Perm seqs (Permᴰ.trans d d') = Permᴰ.trans (records-Perm seqs d) (records-Perm seqs d')

-- A map in which the labels lead back to the ids gives distinct ids distinct labels.
labels_differ :
    (rev : List (ℕ × Text)) (id : Text) (label : ℕ) (es : List (Text × ℕ)) (seqs : List (Text × ℕ))
    → get label rev ≡ some id
    → All (λ x. get x.1 rev ≡ some x.0) es
    → All (λ x. id ≢ x.0) es
    → All (λ r. label ≢ r.label) (rebuild_records seqs es)
unfolding rebuild_records
labels_differ rev id label [] seqs h v d = tt
labels_differ rev id label ((id', label') ∷ es) seqs h v d =
    (λ e. d.0 (cc (h, v.0, e)), labels_differ rev id label es seqs h v.1 d.1)

labels-IsDistinct :
    (rev : List (ℕ × Text)) (es : List (Text × ℕ)) (seqs : List (Text × ℕ))
    → All (λ x. get x.1 rev ≡ some x.0) es
    → IsDistinctBy (λ x. x.0) es
    → IsDistinctBy label_of (rebuild_records seqs es)
unfolding rebuild_records
labels-IsDistinct rev [] seqs v d = tt
labels-IsDistinct rev ((id, label) ∷ es) seqs v d =
    (labels_differ rev id label es seqs v.0 v.1 d.0, labels-IsDistinct rev es seqs v.1 d.1)

-- Each record comes before those with greater labels.
abbrev pub IsSorted : List RebuildRecord → Type 0
IsSorted [] = Unit {0}
IsSorted (r ∷ rs) = All (λ q. r.label ≤ q.label) rs × IsSorted rs

insert-above :
    (n : ℕ) (r : RebuildRecord) (rs : List RebuildRecord)
    → n ≤ r.label
    → All (λ q. n ≤ q.label) rs
    → All (λ q. n ≤ q.label) (insert_by_label r rs)
unfolding insert_by_label
insert-above n r [] h v = (h, tt)
insert-above n r (x ∷ xs) h v = elim (Bool-cases (leb r.label x.label)) [
  | inl le ↦ rw (le, insert_by_label) (h, v)
  | inr gt ↦ rw (gt, insert_by_label) (v.0, insert-above n r xs h v.1)
]

above-le :
    (n m : ℕ) (rs : List RebuildRecord)
    → n ≤ m
    → All (λ q. m ≤ q.label) rs
    → All (λ q. n ≤ q.label) rs
above-le n m [] h v = tt
above-le n m (r ∷ rs) h v = (omega (arith, h, v.0), above-le n m rs h v.1)

insert-IsSorted :
    (r : RebuildRecord) (rs : List RebuildRecord) → IsSorted rs → IsSorted (insert_by_label r rs)
unfolding insert_by_label
insert-IsSorted r [] v = (tt, tt)
insert-IsSorted r (x ∷ xs) v = elim (Bool-cases (leb r.label x.label)) [
  | inl le ↦
      let below : r.label ≤ x.label = ground (arith, le) in
      rw (le, insert_by_label) ((below, above-le r.label x.label xs below v.0), v)
  | inr gt ↦
      let above : x.label ≤ r.label = ground (arith, gt) in
      rw (gt, insert_by_label) (insert-above x.label r xs above v.0, insert-IsSorted r xs v.1)
]

sort-IsSorted : (rs : List RebuildRecord) → IsSorted (sort_by_label rs)
unfolding sort_by_label
sort-IsSorted [] = tt
sort-IsSorted (r ∷ rs) = insert-IsSorted r (sort_by_label rs) (sort-IsSorted rs)

-- A rebuild does not depend on the order in which the hash map of a valid file is iterated: each
-- order `es` of its entries gives the same list of records, sorted by the old labels. The ids of a
-- hash map are distinct.
pub rebuild_order_free :
    (m : HnswIdMap) (es : List (Text × ℕ))
    → validate m ≡ ok tt
    → IsDistinctBy (λ x. x.0) m.id_to_label
    → Permᴰ m.id_to_label es
    → (sort_by_label (rebuild_records m.id_to_seq_id m.id_to_label)
        ≡ sort_by_label (rebuild_records m.id_to_seq_id es))
      × IsSorted (sort_by_label (rebuild_records m.id_to_seq_id es))
unfolding validate
rebuild_order_free m es valid distinct perm = (
  sort-Perm (records-Perm m.id_to_seq_id perm) (
      labels-IsDistinct m.label_to_id m.id_to_label m.id_to_seq_id
        (check_ids-All m.label_to_id m.id_to_label (ground arith)) distinct),
  sort-IsSorted (rebuild_records m.id_to_seq_id es),
)
