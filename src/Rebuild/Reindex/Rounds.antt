-- ===== src/Rebuild/Reindex/Rounds.antt =====
-- One round of the copy loop of shim/src/lib.rs, and all of them: what the insertion keeps.
use chroma_go_local.Base.{
  ℕ, ◌≡◌, some, List, [], ◌∷◌, All, ok, Option-cases, Result-cases, inl, inr,
}
use chroma_go_local.Base.Actions.{Ends, Ends-resume, Ends-call, resume, mapped}
use chroma_go_local.Base.Text.{Text}
use chroma_go_local.Base.Words.{saturating_add}
use chroma_go_local.Rebuild.IdMap.{HnswIdMap, insert_record}
use chroma_go_local.Rebuild.Reindex.{
  RebuildRecord, HnswIndexes, next_label, embedding_of, reindex_one, reindex,
}

-- `m'` is `m` after the insertion of the record under the next label.
pub record IsInserted (r : RebuildRecord) (m m' : HnswIdMap) : Type 0 where
  pub label : ℕ
  pub next : next_label m.total_elements_added ≡ some label
  pub inserted : insert_record r.user_id label r.seq_id m ≡ ok m'

module _ (x : HnswIndexes) where
  pub reindex_one-IsInserted :
      (r : RebuildRecord) (m : HnswIdMap) (s : x.State)
      → Ends (λ m' s'. IsInserted r m m') (λ e s'. Unit {0}) (reindex_one x r m s)
  unfolding reindex_one resume mapped
  reindex_one-IsInserted r m s = elim (Result-cases (embedding_of x r (x.source_get s r.label))) [
    | inr (e, bad) ↦ rw (bad, reindex_one) tt
    | inl (embedding, got) ↦ elim (Option-cases (next_label m.total_elements_added)) [
      | inl none_left ↦ rw (got, none_left, reindex_one) tt
      | inr (label, next) ↦
          rw (got, next, reindex_one)
            (Ends-call (λ m' s'. IsInserted r m m') (λ e s'. Unit {0}) _
              (x.rebuilt_add label embedding s) _
              (λ done s' added. elim (Result-cases (insert_record r.user_id label r.seq_id m)) [
                | inr (e, bad) ↦ rw bad tt
                | inl (m', good) ↦ rw good (record { label = label; next = next; inserted = good })
              ])
              (λ e s' bad. tt))
    ]
  ]

  -- What each insertion of a record with `R` keeps holds after a copy that succeeded.
  pub reindex-kept :
      (P : HnswIdMap → Type 0) (R : RebuildRecord → Type 0)
      → ((r : RebuildRecord) (m m' : HnswIdMap) → R r → P m → IsInserted r m m' → P m')
      → (rs : List RebuildRecord) (m : HnswIdMap) (n : ℕ) (s : x.State) → All R rs
      → P m
      → Ends (λ out s'. P out.0) (λ e s'. Unit {0}) (reindex x rs m n s)
  unfolding reindex
  reindex-kept P R step [] m n s all p = p
  reindex-kept P R step (r ∷ rs) m n s all p =
      Ends-resume (λ m' s'. IsInserted r m m') (λ out s'. P out.0) (λ (e : Text) s'. Unit {0})
        (reindex_one x r m s) _ (reindex_one-IsInserted r m s)
        λ m' s' one.
          reindex-kept P R step rs m' (saturating_add n 1) s' all.1 (step r m m' all.0 p one)
