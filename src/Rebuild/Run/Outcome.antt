-- ===== src/Rebuild/Run/Outcome.antt =====
-- The whole of `run_rebuild_collection` of shim/src/lib.rs: the old index is never lost.
use chroma_go_local.Base.{
  ◌≡◌, refl, sym, ap, ◌∙◌, inl, Bool, true, false, Option, ◌∷◌, Result, ok, err, subst, is_empty,
  arith,
}
use chroma_go_local.Base.Actions.{Action, Ends, resume, mapped, mapped-held, when}
use chroma_go_local.Base.Text.{Text}
use chroma_go_local.Rebuild.Host.{
  RebuildHost, RebuildCollectionIdentity, EmbeddedRebuildCollectionResponse, skipped, prechecked,
  unique_path_suffix, build_temp_rebuild_dir, hnsw_metadata_filename,
}
use chroma_go_local.Rebuild.IdMap.{HnswIdMap}
use chroma_go_local.Rebuild.Swap.{FilePath}
use chroma_go_local.Rebuild.Run.{
  Plan, rebuild_guarded, rebuild, rebuild_or_precheck, load_index, rebuild_from_map,
  rebuild_from_dir, run_rebuild_collection,
}
use chroma_go_local.Rebuild.Run.Precheck.{
  load_hnsw_id_map-Keep, load_index-Keep, load_hnsw_config-Keep,
}
use chroma_go_local.Rebuild.Run.Laws.{RebuildLaws}
use chroma_go_local.Rebuild.Run.Paths.{rebuilt_path, source-rebuilt}
use chroma_go_local.Rebuild.Run.Kept as Kept
use chroma_go_local.Rebuild.Run.Kept.{build_and_swap-Old}
use chroma_go_local.Rebuild.Run.Ending.{conclude-Old}

module _ (h : RebuildHost) (laws : RebuildLaws h) (name : Text) (dir : FilePath)
    (keep_backup : Bool) (old : Option laws.Tree) where
  abbrev Stays : h.State → Type 0
  Stays = Kept.Stays h laws name dir keep_backup old

  -- A run that ended: the old tree was not lost.
  abbrev pub IsKept : Result EmbeddedRebuildCollectionResponse Text × h.State → Type 0
  IsKept =
      Ends (Kept.OldAfter h laws name dir keep_backup old)
        (Kept.OldAfterError h laws name dir keep_backup old)

  -- A step that keeps the old tree in its place, in front of others.
  step-IsKept :
      {A : Type 0} (m : Result A Text × h.State)
      (k : A → Action h.State Text EmbeddedRebuildCollectionResponse)
      → Stays m.1
      → ((a : A) (s : h.State) → m.0 ≡ ok a → Stays s → IsKept (k a s))
      → IsKept (resume m k)
  unfolding resume
  step-IsKept (ok a, s) k p f = f a s refl p
  step-IsKept (err e, s) k p f = inl p

  -- A foreign call in front of others.
  call-IsKept :
      {A : Type 0} (f : Text → Text) (r : Result A Text × h.State)
      (k : A → Action h.State Text EmbeddedRebuildCollectionResponse)
      → Stays r.1
      → ((a : A) (s : h.State) → r ≡ (ok a, s) → Stays s → IsKept (k a s))
      → IsKept (resume (mapped f r) k)
  unfolding resume mapped
  call-IsKept f (ok a, s) k p g = g a s refl p
  call-IsKept f (err e, s) k p g = inl p

  when-IsKept :
      (b : Bool) (m k : Action h.State Text EmbeddedRebuildCollectionResponse) (s : h.State)
      → IsKept (m s)
      → IsKept (k s)
      → IsKept (when b m k s)
  unfolding when
  when-IsKept true m k s p q = p
  when-IsKept false m k s p q = q

  module _ (plan : Plan h) (same : plan.source_dir ≡ name ∷ dir) where
    guarded-IsKept :
        (x : Text) (s : h.State)
        → Stays s
        → IsKept (rebuild_guarded h plan (rebuilt_path name dir x) keep_backup s)
    unfolding rebuild_guarded
    guarded-IsKept x s p =
        conclude-Old h laws name dir keep_backup old x plan _
          (build_and_swap-Old h laws name dir keep_backup old x plan s same p)

    named_temp :
        (x : Text) → build_temp_rebuild_dir h plan.source_dir x ≡ ok (rebuilt_path name dir x)
    unfolding build_temp_rebuild_dir
    named_temp x = ap (λ d. build_temp_rebuild_dir h d x) same

    rebuild-IsKept : (s : h.State) → Stays s → IsKept (rebuild h plan keep_backup s)
    unfolding rebuild resume
    rebuild-IsKept s p =
        let x = unique_path_suffix h s in
        rw (named_temp x, rebuild)
          (step-IsKept _ _
            (mapped-held Stays _ _ (
              (laws.create_dir (rebuilt_path name dir x) (name ∷ dir) (source-rebuilt name dir x)
                  old).apply
                s p))
            (λ u s₁ e q. guarded-IsKept x s₁ q))

    rebuild_or_precheck-IsKept :
        (precheck : Bool) (s : h.State)
        → Stays s
        → IsKept (rebuild_or_precheck h precheck keep_backup plan s)
    unfolding rebuild_or_precheck when prechecked
    rebuild_or_precheck-IsKept true s p = inl (refl, p)
    rebuild_or_precheck-IsKept false s p = rebuild-IsKept s p

  module _ (identity : RebuildCollectionIdentity) (segments : h.Segments) (c : h.HnswConfig)
      (precheck : Bool) where
    load_index-plan :
        (m : HnswIdMap) (s : h.State) (plan : Plan h)
        → (load_index h identity (name ∷ dir) segments c m s).0 ≡ ok plan
        → plan.source_dir ≡ name ∷ dir
    unfolding load_index resume mapped
    load_index-plan m s plan e = ground arith

    map-IsKept :
        (m : HnswIdMap) (s : h.State)
        → Stays s
        → IsKept (rebuild_from_map h identity segments c precheck keep_backup (name ∷ dir) m s)
    unfolding rebuild_from_map skipped
    map-IsKept m s p = when-IsKept (is_empty m.id_to_label) _ _ s (inl (refl, p)) (
        step-IsKept _ _
          ((load_index-Keep h Stays (laws.reads (name ∷ dir) old) identity (name ∷ dir) segments c
              m).apply
            s p)
          (λ plan s₁ e q.
            rebuild_or_precheck-IsKept plan (load_index-plan m s plan e) precheck s₁ q))

    dir-IsKept :
        (s : h.State)
        → Stays s
        → IsKept (rebuild_from_dir h identity segments c precheck keep_backup (name ∷ dir) s)
    unfolding rebuild_from_dir skipped
    dir-IsKept s p =
        when-IsKept (h.exists (name ∷ dir) s) _ _ s
          (when-IsKept (h.exists (hnsw_metadata_filename ∷ name ∷ dir) s) _ _ s
            (step-IsKept _ _
              ((load_hnsw_id_map-Keep h Stays (laws.reads (name ∷ dir) old)
                  (hnsw_metadata_filename ∷ name ∷ dir)).apply
                s p)
              (λ m s₁ e q. map-IsKept m s₁ q))
            (inl (refl, p)))
          (inl (refl, p))

  -- The old index is never lost. Let `name` be the id of the vector segment of the collection that
  -- the request finds, if it finds one, let `old` be what stands in the directory of that segment,
  -- and let each call of the host touch only the directory that it works in, with renames that
  -- move a tree or change nothing. If the rebuild returns and reports no rebuild, `old` stands
  -- there still; if it reports one and the backup is kept, `old` stands under the name of a backup.
  -- If it fails, `old` stands there still; or the error reports a failed rollback, and `old`
  -- stands under the name that it was moved to; or the error reports that the segment manager was
  -- not reset after the swap, and a backup that is kept stands under its name.
  pub rebuild_keeps_old :
      (q : h.Request) (precheck : Bool) (s : h.State)
      → ((identity : RebuildCollectionIdentity) (id : h.CollectionUuid) (s₁ s₂ : h.State)
            (segments : h.Segments)
          → h.get_collection q s ≡ (ok (identity, id), s₁)
          → h.get_collection_with_segments id s₁ ≡ (ok segments, s₂)
          → h.vector_segment_id segments ≡ name)
      → laws.at s (name ∷ dir) ≡ old
      → IsKept (run_rebuild_collection h dir q precheck keep_backup s)
  unfolding run_rebuild_collection
  rebuild_keeps_old q precheck s named p =
      let reads = laws.reads (name ∷ dir) old in
      call-IsKept _ _ _ ((reads.collection q).apply s p) λ (identity, id) s₁ e₁ p₁.
        call-IsKept _ (h.get_sysdb s₁, s₁) _ p₁
          λ u s₂ e₂ p₂.
            call-IsKept _ (h.get_segment_manager s₂, s₂) _ p₂
              λ v s₃ e₃ p₃. call-IsKept _ _ _ ((reads.segments id).apply s₃ p₃) λ segments s₄ e₄ p₄.
                step-IsKept _ _ ((load_hnsw_config-Keep h Stays reads segments).apply s₄ p₄)
                  λ c s₅ e₅ p₅.
                    subst
                      (λ id.
                        IsKept (
                          rebuild_from_dir h identity segments c precheck keep_backup (id ∷ dir)
                            s₅))
                      (sym (
                        named identity id s₁ s₄ segments e₁ (
                          subst (λ s. h.get_collection_with_segments id s ≡ (ok segments, s₄))
                            (sym (ap (λ r. r.1) e₂ ∙ ap (λ r. r.1) e₃)) e₄)))
                      (dir-IsKept identity segments c precheck s₅ p₅)
