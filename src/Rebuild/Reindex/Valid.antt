-- ===== src/Rebuild/Reindex/Valid.antt =====
-- Whether a map that a rebuild of shim/src/lib.rs has made loads again.
use chroma_go_local.Base.{
  ℕ, max, ◌≤◌, ◌≡◌, refl, sym, ◌∙◌, leb, Bool-cases, Option, none, some, List, [], ◌∷◌, All, ok,
  Option-cases, inl, inr, arith,
}
use chroma_go_local.Base.Actions.{Ends, Ends-mono}
use chroma_go_local.Base.Maps.{get, text_eq, All-get}
use chroma_go_local.Base.Text.{Text}
use chroma_go_local.Rebuild.IdMap.{HnswIdMap, validate, check_max, max_value}
use chroma_go_local.Rebuild.IdMap.Bijection.{insert_record-eq-ok}
use chroma_go_local.Rebuild.IdMap.Loadable.{IsLoadable, IsLoadable-validate, with_record-IsLoadable}
use chroma_go_local.Rebuild.Reindex.{
  RebuildRecord, HnswIndexes, rebuild_records, insert_by_label, sort_by_label, reindex,
  rebuilt_id_map,
}
use chroma_go_local.Rebuild.Reindex.Rounds.{IsInserted, reindex-kept}

max_value-All :
    (b : ℕ) (seqs : List (Text × ℕ))
    → ((v : ℕ) → max_value seqs ≡ some v → v ≤ b)
    → All (λ x. x.1 ≤ b) seqs
unfolding max_value
max_value-All b [] h = tt
max_value-All b ((id, seq) ∷ rest) h = elim (Option-cases (max_value rest)) [
  | inl e ↦ (h seq (rw e refl), max_value-All b rest (λ v f. let bad : ⊥ = cc (e, f) in absurd bad))
  | inr (m, e) ↦
      let top : max seq m ≤ b = h (max seq m) (rw e refl) in
      (omega (arith, top), max_value-All b rest (λ v f. ground (arith, e, f, top)))
]

check_max-All :
    (recorded : Option ℕ) (b : ℕ) (seqs : List (Text × ℕ))
    → check_max recorded (max_value seqs) ≡ ok tt
    → recorded ≡ some b
    → All (λ x. x.1 ≤ b) seqs
unfolding check_max
check_max-All none b seqs h e = let bad : ⊥ = cc e in absurd bad
check_max-All (some c) b seqs h e = max_value-All b seqs (λ v found. ground arith)

-- A sequence id that the recorded one covers.
abbrev IsCovered : Option ℕ → RebuildRecord → Type 0
IsCovered recorded r = (b q : ℕ) → recorded ≡ some b → r.seq_id ≡ some q → q ≤ b

records-All :
    (P : RebuildRecord → Type 0) (seqs es : List (Text × ℕ))
    → ((id : Text) (label : ℕ) → P (record { user_id = id; label = label; seq_id = get id seqs }))
    → All P (rebuild_records seqs es)
unfolding rebuild_records
records-All P seqs [] h = tt
records-All P seqs ((id, label) ∷ es) h = (h id label, records-All P seqs es h)

insert_by_label-All :
    (P : RebuildRecord → Type 0) (r : RebuildRecord) (rs : List RebuildRecord)
    → P r
    → All P rs
    → All P (insert_by_label r rs)
unfolding insert_by_label
insert_by_label-All P r [] p h = (p, tt)
insert_by_label-All P r (x ∷ xs) p h = elim (Bool-cases (leb r.label x.label)) [
  | inl le ↦ rw (le, insert_by_label) (p, h)
  | inr gt ↦ rw (gt, insert_by_label) (h.0, insert_by_label-All P r xs p h.1)
]

sort_by_label-All :
    (P : RebuildRecord → Type 0) (rs : List RebuildRecord) → All P rs → All P (sort_by_label rs)
unfolding sort_by_label
sort_by_label-All P [] h = tt
sort_by_label-All P (r ∷ rs) h =
    insert_by_label-All P r (sort_by_label rs) h.0 (sort_by_label-All P rs h.1)

-- The records of a valid map.
records-IsCovered :
    (m : HnswIdMap)
    → validate m ≡ ok tt
    → All (IsCovered m.max_seq_id) (sort_by_label (rebuild_records m.id_to_seq_id m.id_to_label))
unfolding validate
records-IsCovered m valid =
    sort_by_label-All (IsCovered m.max_seq_id) (rebuild_records m.id_to_seq_id m.id_to_label) (
      records-All (IsCovered m.max_seq_id) m.id_to_seq_id m.id_to_label λ id label b q e found.
        All-get (λ k x. x ≤ b) m.id_to_seq_id id q
          (check_max-All m.max_seq_id b m.id_to_seq_id (ground arith) e) found)

-- A map that loads, with the sequence id of the old one.
record IsRebuilt (recorded : Option ℕ) (m : HnswIdMap) : Type 0 where
  loads : IsLoadable m
  top : m.max_seq_id ≡ recorded

insert_record-IsRebuilt :
    (recorded : Option ℕ) (r : RebuildRecord) (m m' : HnswIdMap)
    → IsCovered recorded r
    → IsRebuilt recorded m
    → IsInserted r m m'
    → IsRebuilt recorded m'
insert_record-IsRebuilt recorded r m m' covered v one =
    let (new_id, new_label, same) =
      insert_record-eq-ok r.user_id one.label r.seq_id m m' one.inserted in
    rw same (record {
      loads =
          with_record-IsLoadable r.user_id one.label r.seq_id m v.loads new_id new_label
            (λ b q e. covered b q (sym v.top ∙ e));
      top = v.top;
    })

rebuilt_id_map-IsRebuilt : (d q : Option ℕ) → IsRebuilt q (rebuilt_id_map d q)
unfolding rebuilt_id_map
rebuilt_id_map-IsRebuilt d q = record {
  loads = record { same_size = refl; ids = tt; labels = tt; seqs = tt; top = λ b e. tt };
  top = refl;
}

-- A rebuild of a map that `validate` accepts makes one that `validate` accepts, if it succeeds: what
-- it writes can be loaded, and rebuilt, again. This holds for all indexes and all dimensions.
pub reindex_validates :
    (x : HnswIndexes) (m : HnswIdMap) (dimensionality : Option ℕ) (s : x.State)
    → validate m ≡ ok tt
    → Ends
        (λ out s'. (validate out.0 ≡ ok tt) × (out.0.max_seq_id ≡ m.max_seq_id))
        (λ e s'. Unit {0})
        (reindex x
          (sort_by_label (rebuild_records m.id_to_seq_id m.id_to_label))
          (rebuilt_id_map dimensionality m.max_seq_id)
          0
          s)
reindex_validates x m dimensionality s valid =
    Ends-mono (λ out s'. IsRebuilt m.max_seq_id out.0) _ (λ e s'. Unit {0}) (λ e s'. Unit {0}) _
      (λ out s' v. (IsLoadable-validate out.0 v.loads, v.top)) (λ e s' u. tt)
      (reindex-kept x (IsRebuilt m.max_seq_id) (IsCovered m.max_seq_id)
        (insert_record-IsRebuilt m.max_seq_id) _ _ 0 s (records-IsCovered m valid)
        (rebuilt_id_map-IsRebuilt dimensionality m.max_seq_id))
