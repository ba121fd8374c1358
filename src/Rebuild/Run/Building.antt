-- ===== src/Rebuild/Run/Building.antt =====
-- The building of the new index in shim/src/lib.rs touches its own directory alone.
use chroma_go_local.Base.{ℕ, ◌≡◌, ◌≢◌, ◌∙◌, ap, Option, List, [], ◌∷◌, subst}
use chroma_go_local.Base.Actions.{
  Ends, Ends-call, Ends-both, both-Ends, Keep, Keep-bind, Keep-pure, Keep-lift, Keep-map_err,
  Keep-when,
}
use chroma_go_local.Base.Text.{Text}
use chroma_go_local.Rebuild.Host.{RebuildHost, indexes, write_hnsw_id_map, hnsw_metadata_filename}
use chroma_go_local.Rebuild.IdMap.{HnswIdMap}
use chroma_go_local.Rebuild.Reindex.{RebuildRecord, HnswIndexes, reindex_one, reindex}
use chroma_go_local.Rebuild.Swap.{FilePath}
use chroma_go_local.Rebuild.Run.{Plan, build_index, ensure_capacity, fill_index, with_target}
use chroma_go_local.Rebuild.Run.Laws.{RebuildLaws}

-- The copy loop keeps what the additions keep.
module _ (x : HnswIndexes) (P : x.State → Type 0)
    (adds : (label : ℕ) (e : x.Embedding) → Keep P (x.rebuilt_add label e)) where
  reindex_one-Keep : (r : RebuildRecord) (m : HnswIdMap) → Keep P (reindex_one x r m)
  unfolding reindex_one
  reindex_one-Keep r m = record {
    apply = λ s p.
        (Keep-bind Keep-lift λ embedding. Keep-bind Keep-lift λ label.
            Keep-bind (Keep-map_err _ (adds label embedding))
              λ added. Keep-map_err _ Keep-lift).apply
          s p;
  }

  pub reindex-Keep : (rs : List RebuildRecord) (m : HnswIdMap) (n : ℕ) → Keep P (reindex x rs m n)
  unfolding reindex
  reindex-Keep [] m n = Keep-pure
  reindex-Keep (r ∷ rs) m n = Keep-bind (reindex_one-Keep r m) λ m'. reindex-Keep rs m' _

module _ (h : RebuildHost) (laws : RebuildLaws h) (p : FilePath) (t : Option laws.Tree) where
  open laws use {at, target_dir, index_dir, writer_dir}

  abbrev Stands : h.State → Type 0
  Stands s = at s p ≡ t

  ensure_capacity-Keep :
      (i : h.HnswIndex) (n : ℕ) → p ≢ index_dir i → Keep Stands (ensure_capacity h i n)
  unfolding ensure_capacity
  ensure_capacity-Keep i n d = record {
    apply = λ s q.
        (Keep-when (λ small. Keep-map_err _ (laws.resize i _ p d t)) (λ fits. Keep-pure)).apply s q;
  }

  write_hnsw_id_map-Keep :
      (name : Text) (dir : FilePath) (m : HnswIdMap)
      → p ≢ dir
      → Keep Stands (write_hnsw_id_map h (name ∷ dir) m)
  unfolding write_hnsw_id_map
  write_hnsw_id_map-Keep name dir m d = record {
    apply = λ s q. Ends-both Stands _ (
        Ends-call (λ done. Stands) (λ e. Stands) _ (h.create_file (name ∷ dir) s) _
          (λ w s₁ e.
            let same = laws.creates name dir w s s₁ e in
            let away : p ≢ writer_dir w = λ x. d (x ∙ same) in
            let kept : Stands s₁ =
              subst (λ r. Stands r.1) e ((laws.create_file name dir p d t).apply s q) in
            both-Ends Stands _ (
              (Keep-bind (Keep-map_err _ (laws.encode w m p away t))
                  (λ done. Keep-map_err _ (laws.flush w p away t))).apply
                s₁ kept))
          (λ e s₁ x. subst (λ r. Stands r.1) x ((laws.create_file name dir p d t).apply s q)));
  }

  fill_index-Keep :
      (plan : Plan h) (dir : FilePath) (n : ℕ) (i : h.HnswIndex)
      → p ≢ dir
      → p ≢ index_dir i
      → Keep Stands (fill_index h plan dir n i)
  unfolding fill_index
  fill_index-Keep plan dir n i d away = Keep-bind (ensure_capacity-Keep i n away) λ room.
      Keep-bind
        (reindex-Keep (indexes h plan.source_index i) Stands
          (λ label e. laws.add i label e p away t) plan.records _ 0)
        λ filled. Keep-bind (Keep-map_err _ (laws.save i p away t)) λ saved.
          Keep-bind (write_hnsw_id_map-Keep hnsw_metadata_filename dir filled.0 d)
            λ written. Keep-pure

  initialized :
      (plan : Plan h) (dir : FilePath) (target : h.TargetConfig) (s : h.State)
      → p ≢ dir
      → p ≢ target_dir target
      → Stands s
      → Ends (λ count. Stands) (λ e. Stands) (with_target h plan dir target s)
  unfolding with_target
  initialized plan dir target s d away q =
      let kept = (laws.init plan.config target _ plan.segment_id p away t).apply s q in
      Ends-call (λ count. Stands) (λ e. Stands) _ (h.init plan.config target _ plan.segment_id s) _
        (λ i s₁ e.
          let far : p ≢ index_dir i =
            λ x. away (x ∙ laws.inits plan.config target _ plan.segment_id i s s₁ e) in
          both-Ends Stands _
            ((fill_index-Keep plan dir _ i d far).apply s₁ (subst (λ r. Stands r.1) e kept)))
        (λ e s₁ x. subst (λ r. Stands r.1) x kept)

  pub build_index-Keep :
      (plan : Plan h) (dir : FilePath) → p ≢ dir → Keep Stands (build_index h plan dir)
  unfolding build_index
  build_index-Keep plan dir d = record {
    apply = λ s q. Ends-both Stands _ (
        Ends-call (λ count. Stands) (λ e. Stands) _ (h.new_persistent plan.hnsw_config dir, s) _
          (λ target s₁ e.
            let away : p ≢ target_dir target =
              λ x. d (x ∙ laws.targets plan.hnsw_config dir target (ap (λ r. r.0) e)) in
            initialized plan dir target s₁ d away (subst (λ r. Stands r.1) e q))
          (λ e s₁ x. subst (λ r. Stands r.1) x q));
  }
