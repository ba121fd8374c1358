-- ===== src/Rebuild/Reindex/Counted.antt =====
-- The count of a copy in shim/src/lib.rs, as the machine integers that hold it.
use chroma_go_local.Base.{All-any, ℕ, ◌%◌, ◌≤◌, ◌≡◌, suc, Option, some, List, length, ok, arith}
use chroma_go_local.Base.Actions.{Ends, Ends-mono, Ends-and}
use chroma_go_local.Base.Words.{u32_max, u64_max}
use chroma_go_local.Rebuild.IdMap.{HnswIdMap, insert_record}
use chroma_go_local.Rebuild.Reindex.{
  RebuildRecord, HnswIndexes, next_label, reindex, rebuilt_id_map,
}
use chroma_go_local.Rebuild.Reindex.Rounds.{reindex-kept}
use chroma_go_local.Rebuild.Reindex.Labels.{IsReindexed, reindex-IsReindexed}
use chroma_go_local.Rebuild.Reindex.Success.{rebuilt_id_map-IsConsistent, rebuilt_id_map-total}

-- The labels of a copy that succeeded are `u32`.
module _ (x : HnswIndexes) where
  abbrev Fits : HnswIdMap → x.State → Type 0
  Fits m s = m.total_elements_added ≤ u32_max

  insert_record-fits :
      (r : RebuildRecord) (label : ℕ) (m m' : HnswIdMap)
      → next_label m.total_elements_added ≡ some label
      → insert_record r.user_id label r.seq_id m ≡ ok m'
      → m'.total_elements_added ≤ u32_max
  unfolding next_label insert_record
  insert_record-fits r label m m' e h = ground arith

  reindex-Fits :
      (rs : List RebuildRecord) (m : HnswIdMap) (n : ℕ) (s : x.State)
      → m.total_elements_added ≤ u32_max
      → Ends (λ out. Fits out.0) (λ e s'. Unit {0}) (reindex x rs m n s)
  reindex-Fits rs m n s v =
      reindex-kept x (λ m. m.total_elements_added ≤ u32_max) (λ r. Unit {0})
        (λ r m m' u v one. insert_record-fits r one.label m m' one.next one.inserted) rs m n s
        (All-any (λ r. Unit {0}) (λ r. tt) rs) v

  -- A copy into an empty map counts the records.
  pub reindex-counted :
      (rs : List RebuildRecord) (d : Option ℕ) (q : Option ℕ) (s : x.State)
      → Ends
          (λ out s'. out.1 ≡ length rs % suc u64_max)
          (λ e s'. Unit {0})
          (reindex x rs (rebuilt_id_map d q) 0 s)
  reindex-counted rs d q s =
      Ends-mono (λ out s'. IsReindexed x rs (rebuilt_id_map d q) 0 out × Fits out.0 s')
        (λ out s'. out.1 ≡ length rs % suc u64_max) (λ e s'. Unit {0} × Unit {0}) (λ e s'. Unit {0})
        _ (λ out s' (v, fits). omega (arith, v.total, v.counted, fits, rebuilt_id_map-total d q))
        (λ e s' u. tt)
        (Ends-and (λ out s'. IsReindexed x rs (rebuilt_id_map d q) 0 out) (λ out. Fits out.0)
          (λ e s'. Unit {0}) (λ e s'. Unit {0}) (reindex x rs (rebuilt_id_map d q) 0 s)
          (reindex-IsReindexed x rs (rebuilt_id_map d q) 0 s (rebuilt_id_map-IsConsistent d q))
          (reindex-Fits rs (rebuilt_id_map d q) 0 s (omega (arith, rebuilt_id_map-total d q))))
