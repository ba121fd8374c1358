-- ===== src/Rebuild/Reindex/Success.antt =====
-- When the copy loop of a rebuild succeeds.
use chroma_go_local.Base.{
  ==_iff, ℕ, ◌+◌, ◌≤◌, ◌<◌, ◌≡◌, ◌≢◌, refl, Option, none, some, List, [], ◌∷◌, length, All, arith,
  ok, subst,
}
use chroma_go_local.Base.Actions.{Ends, resume, mapped}
use chroma_go_local.Base.Maps.{insert, get, get-insert, text_eq, nat_eq, text_beq_iff, contains_key}
use chroma_go_local.Base.Text.{Text}
use chroma_go_local.Base.Words.{saturating_add, u32_max}
use chroma_go_local.Rebuild.IdMap.{HnswIdMap, insert_record}
use chroma_go_local.Rebuild.IdMap.Bijection.{IsConsistent, with_record}
use chroma_go_local.Rebuild.Reindex.{
  RebuildRecord, HnswIndexes, next_label, embedding_of, reindex_one, reindex, rebuilt_id_map,
}
use chroma_go_local.Rebuild.Reindex.Labels.{IsReindexed, reindex-IsReindexed}

-- No id occurs twice.
abbrev pub IsDistinct : List RebuildRecord → Type 0
IsDistinct [] = Unit {0}
IsDistinct (r ∷ rs) = All (λ q. r.user_id ≢ q.user_id) rs × IsDistinct rs

-- The labels above the greatest one so far are free, and so are the ids of the records.
record IsOpen (rs : List RebuildRecord) (m : HnswIdMap) : Type 0 where
  labels : (l : ℕ) → m.total_elements_added < l → get l m.label_to_id ≡ none
  ids : All (λ r. get r.user_id m.id_to_label ≡ none) rs

get-insert_other :
    (k j : Text) (v : ℕ) (m : List (Text × ℕ))
    → k ≢ j
    → get j m ≡ none
    → get j (insert k v m) ≡ none
get-insert_other k j v m d h = ground (arith, get-insert k j v m, text_beq_iff k j)

get-insert_above :
    (l l' : ℕ) (v : Text) (m : List (ℕ × Text))
    → l < l'
    → get l' m ≡ none
    → get l' (insert l v m) ≡ none
get-insert_above l l' v m lt h = ground (arith, get-insert l l' v m, ==_iff l l')

ids_open :
    (id : Text) (label : ℕ) (m : List (Text × ℕ)) (rs : List RebuildRecord)
    → All (λ q. id ≢ q.user_id) rs
    → All (λ q. get q.user_id m ≡ none) rs
    → All (λ q. get q.user_id (insert id label m) ≡ none) rs
ids_open id label m [] d h = tt
ids_open id label m (q ∷ rs) d h =
    (get-insert_other id q.user_id label m d.0 h.0, ids_open id label m rs d.1 h.1)

IsOpen-with_record :
    (r : RebuildRecord) (rs : List RebuildRecord) (m : HnswIdMap)
    → IsDistinct (r ∷ rs)
    → IsOpen (r ∷ rs) m
    → IsOpen rs (with_record r.user_id (m.total_elements_added + 1) r.seq_id m)
IsOpen-with_record r rs m d v = record {
  labels = λ l above.
      get-insert_above (m.total_elements_added + 1) l r.user_id m.label_to_id above
        (v.labels l (omega arith));
  ids = ids_open r.user_id (m.total_elements_added + 1) m.id_to_label rs d.0 v.ids.1;
}

module _ (dimensionality max_seq_id : Option ℕ) where
  pub rebuilt_id_map-IsConsistent : IsConsistent (rebuilt_id_map dimensionality max_seq_id)
  unfolding rebuilt_id_map get
  rebuilt_id_map-IsConsistent = record {
    same_size = refl;
    inverse = λ id label. (λ e. cc e, λ e. cc e);
    known = λ id e. refl;
  }

  no_ids :
      (rs : List RebuildRecord)
      → All (λ r. get r.user_id (rebuilt_id_map dimensionality max_seq_id).id_to_label ≡ none) rs
  unfolding rebuilt_id_map get
  no_ids [] = tt
  no_ids (r ∷ rs) = (refl, no_ids rs)

  rebuilt_id_map-IsOpen :
      (rs : List RebuildRecord) → IsOpen rs (rebuilt_id_map dimensionality max_seq_id)
  unfolding rebuilt_id_map get
  rebuilt_id_map-IsOpen rs = record { labels = λ l above. refl; ids = no_ids rs }

  pub rebuilt_id_map-total : (rebuilt_id_map dimensionality max_seq_id).total_elements_added ≡ 0
  unfolding rebuilt_id_map
  rebuilt_id_map-total = refl

module _ (x : HnswIndexes) where
  open x use {State, Embedding, source_get, rebuilt_add}

  -- The old index has a vector for the record, and the new one takes every vector.
  abbrev pub IsReadable : RebuildRecord → Type 0
  IsReadable r = (s : State) → (e : Embedding) × (source_get s r.label ≡ ok (some e))

  abbrev pub TakesAll : Type 0
  TakesAll = (l : ℕ) (e : Embedding) (s : State) → (s' : State) × (rebuilt_add l e s ≡ (ok tt, s'))

  reindex_one-eq-ok :
      (r : RebuildRecord) (m : HnswIdMap) (s s' : State) (e : Embedding)
      → source_get s r.label ≡ ok (some e)
      → rebuilt_add (m.total_elements_added + 1) e s ≡ (ok tt, s')
      → m.total_elements_added < u32_max
      → get r.user_id m.id_to_label ≡ none
      → get (m.total_elements_added + 1) m.label_to_id ≡ none
      → reindex_one x r m s
        ≡ (ok (with_record r.user_id (m.total_elements_added + 1) r.seq_id m), s')
  unfolding reindex_one resume mapped embedding_of next_label insert_record contains_key
  reindex_one-eq-ok r m s s' e got added fits new_id new_label =
      let next : next_label m.total_elements_added ≡ some (m.total_elements_added + 1) =
        ground arith in
      let inserted : insert_record r.user_id (m.total_elements_added + 1) r.seq_id m
          ≡ ok (with_record r.user_id (m.total_elements_added + 1) r.seq_id m) =
        rw (new_id, new_label) in
      rw (got, next, added, inserted, reindex_one)

  reindex-eq-ok :
      (rs : List RebuildRecord) (m : HnswIdMap) (n : ℕ) (s : State)
      → All IsReadable rs
      → TakesAll
      → IsDistinct rs
      → IsOpen rs m
      → m.total_elements_added + length rs ≤ u32_max
      → (out : HnswIdMap × ℕ) × (s' : State) × (reindex x rs m n s ≡ (ok out, s'))
  unfolding reindex resume
  reindex-eq-ok [] m n s reads takes d v fits = ((m, n), s, refl)
  reindex-eq-ok (r ∷ rs) m n s reads takes d v fits =
      let t = m.total_elements_added in
      let (e, got) = reads.0 s in
      let (s', added) = takes (t + 1) e s in
      let one =
        reindex_one-eq-ok r m s s' e got added (omega arith) v.ids.0
          (v.labels (t + 1) (omega arith)) in
      let (out, s₂, rest) =
        reindex-eq-ok rs (with_record r.user_id (t + 1) r.seq_id m) (saturating_add n 1) s' reads.1
          takes d.1 (IsOpen-with_record r rs m d v) (omega arith) in
      (out, s₂, rw one rest)

  -- The copy of a rebuild succeeds, from the empty map that it starts from, when no id occurs
  -- twice, the old index has a vector for every record, the new one takes every vector, and there
  -- are at most as many records as labels. Then the map is consistent, and the records have the
  -- labels 1, 2, ... in their order.
  pub reindex_completes :
      (rs : List RebuildRecord) (dimensionality max_seq_id : Option ℕ) (s : State)
      → All IsReadable rs
      → TakesAll
      → IsDistinct rs
      → length rs ≤ u32_max
      → (out : HnswIdMap × ℕ) × (s' : State) × (reindex x rs
            (rebuilt_id_map dimensionality max_seq_id)
            0
            s
          ≡ (ok out, s'))
        × IsReindexed x rs (rebuilt_id_map dimensionality max_seq_id) 0 out
  reindex_completes rs dimensionality max_seq_id s reads takes d fits =
      let m = rebuilt_id_map dimensionality max_seq_id in
      let (out, s', e) =
        reindex-eq-ok rs m 0 s reads takes d (rebuilt_id_map-IsOpen dimensionality max_seq_id rs)
          (omega (arith, rebuilt_id_map-total dimensionality max_seq_id)) in
      (
        out,
        s',
        e,
        subst (Ends (λ out s'. IsReindexed x rs m 0 out) (λ (e : Text) s'. Unit {0})) e (
            reindex-IsReindexed x rs m 0 s (rebuilt_id_map-IsConsistent dimensionality max_seq_id)),
      )
