-- ===== src/Rebuild/Reindex/Labels.antt =====
-- The labels that a rebuild gives out.
use chroma_go_local.Base.{ℕ, ◌+◌, ◌≤◌, ◌≡◌, ◌∙◌, ap, some, List, [], ◌∷◌, length, arith, ok, subst}
use chroma_go_local.Base.Actions.{Ends, Ends-resume, Ends-mono}
use chroma_go_local.Base.Maps.{get, text_eq}
use chroma_go_local.Base.Text.{Text}
use chroma_go_local.Base.Words.{saturating_add, u64_max}
use chroma_go_local.Rebuild.IdMap.{HnswIdMap, insert_record}
use chroma_go_local.Rebuild.IdMap.Bijection.{
  IsConsistent, insert_record-IsConsistent, insert_record-eq-ok,
}
use chroma_go_local.Rebuild.Reindex.Rounds.{IsInserted, reindex_one-IsInserted}
use chroma_go_local.Rebuild.Reindex.{RebuildRecord, HnswIndexes, next_label, reindex_one, reindex}

-- The records got the labels after `n`, in order.
abbrev pub Labelled : ℕ → List RebuildRecord → HnswIdMap → Type 0
Labelled n [] m = Unit {0}
Labelled n (r ∷ rs) m = (get r.user_id m.id_to_label ≡ some (n + 1)) × Labelled (n + 1) rs m

-- What was in the first map is in the second.
abbrev pub Extends : HnswIdMap → HnswIdMap → Type 0
Extends m m' = (k : Text) (l : ℕ) → get k m.id_to_label ≡ some l → get k m'.id_to_label ≡ some l

-- A round that succeeded.
pub record IsAdded (r : RebuildRecord) (m m' : HnswIdMap) : Type 0 where
  pub consistent : IsConsistent m'
  pub labelled : get r.user_id m'.id_to_label ≡ some (m.total_elements_added + 1)
  pub extends : Extends m m'
  pub total : m'.total_elements_added ≡ m.total_elements_added + 1

insert_record-IsAdded :
    (r : RebuildRecord) (label : ℕ) (m m' : HnswIdMap)
    → IsConsistent m
    → next_label m.total_elements_added ≡ some label
    → insert_record r.user_id label r.seq_id m ≡ ok m'
    → IsAdded r m m'
unfolding next_label
insert_record-IsAdded r label m m' v e h =
    let (consistent, labelled, others, total) =
      insert_record-IsConsistent r.user_id label r.seq_id m m' v h in
    let (fresh, fresh_label, same) = insert_record-eq-ok r.user_id label r.seq_id m m' h in
    let same_label : label ≡ m.total_elements_added + 1 = ground arith in
    record {
      consistent = consistent;
      labelled = labelled ∙ ap some same_label;
      extends =
          λ k l found. others k (λ q. let bad : ⊥ = cc (q, found, fresh) in absurd bad) ∙ found;
      total = total ∙ same_label;
    }

module _ (x : HnswIndexes) where
  open x use {State, Embedding, source_get, rebuilt_add}

  reindex_one-IsAdded :
      (r : RebuildRecord) (m : HnswIdMap) (s : State)
      → IsConsistent m
      → Ends (λ m' s'. IsAdded r m m') (λ e s'. Unit {0}) (reindex_one x r m s)
  reindex_one-IsAdded r m s v =
      Ends-mono (λ m' s'. IsInserted r m m') (λ m' s'. IsAdded r m m') (λ e s'. Unit {0})
        (λ e s'. Unit {0}) (reindex_one x r m s)
        (λ m' s' one. insert_record-IsAdded r one.label m m' v one.next one.inserted) (λ e s' h. h)
        (reindex_one-IsInserted x r m s)

  -- A copy of all records that succeeded.
  pub record IsReindexed (rs : List RebuildRecord) (m : HnswIdMap) (n : ℕ) (out : HnswIdMap × ℕ)
      : Type 0 where
    pub consistent : IsConsistent out.0
    pub labelled : Labelled m.total_elements_added rs out.0
    pub extends : Extends m out.0
    pub total : out.0.total_elements_added ≡ m.total_elements_added + length rs
    pub counted : n + length rs ≤ u64_max → out.1 ≡ n + length rs

  IsReindexed-cons :
      (r : RebuildRecord) (rs : List RebuildRecord) (m m' : HnswIdMap) (n : ℕ) (out : HnswIdMap × ℕ)
      → IsAdded r m m'
      → IsReindexed rs m' (saturating_add n 1) out
      → IsReindexed (r ∷ rs) m n out
  unfolding saturating_add
  IsReindexed-cons r rs m m' n out one more = record {
    consistent = more.consistent;
    labelled = (
      more.extends r.user_id _ one.labelled,
      subst (λ k. Labelled k rs out.0) one.total more.labelled,
    );
    extends = λ k l found. more.extends k l (one.extends k l found);
    total = omega (arith, more.total, one.total);
    counted = λ fits. omega (arith, more.counted);
  }

  -- A copy that starts from a consistent map and succeeds keeps it consistent and what it held,
  -- gives the records the labels that follow the number of elements added so far, in order, and
  -- counts them (if the count fits a `u64`).
  pub reindex-IsReindexed :
      (rs : List RebuildRecord) (m : HnswIdMap) (n : ℕ) (s : State)
      → IsConsistent m
      → Ends (λ out s'. IsReindexed rs m n out) (λ e s'. Unit {0}) (reindex x rs m n s)
  unfolding reindex
  reindex-IsReindexed [] m n s v = record {
    consistent = v;
    labelled = tt;
    extends = λ k l found. found;
    total = omega arith;
    counted = λ fits. omega arith;
  }
  reindex-IsReindexed (r ∷ rs) m n s v =
      Ends-resume (λ m' s'. IsAdded r m m') (λ out s'. IsReindexed (r ∷ rs) m n out)
        (λ (e : Text) s'. Unit {0}) (reindex_one x r m s) _ (reindex_one-IsAdded r m s v)
        λ m' s' one.
          Ends-mono (λ out s'. IsReindexed rs m' (saturating_add n 1) out)
            (λ out s'. IsReindexed (r ∷ rs) m n out) (λ e s'. Unit {0}) (λ e s'. Unit {0})
            (reindex x rs m' (saturating_add n 1) s')
            (λ out s₂ more. IsReindexed-cons r rs m m' n out one more) (λ e s₂ h. h)
            (reindex-IsReindexed rs m' (saturating_add n 1) s' one.consistent)
