-- ===== src/Rebuild/Run/Precheck.antt =====
-- The part of a rebuild in shim/src/lib.rs that only reads: the checks, and the whole of a precheck.
use chroma_go_local.Base.{Bool, true, ◌∷◌}
use chroma_go_local.Base.Actions.{
  Keep, Keep-bind, Keep-pure, Keep-lift, Keep-map_err, Keep-when, when, mapped-held,
}
use chroma_go_local.Base.Text.{Text}
use chroma_go_local.Rebuild.Host.{
  RebuildHost, RebuildCollectionIdentity, hnsw_metadata_filename, load_hnsw_id_map,
}
use chroma_go_local.Rebuild.IdMap.{HnswIdMap}
use chroma_go_local.Rebuild.Swap.{FilePath}
use chroma_go_local.Rebuild.Run.{
  Plan, load_index, rebuild_or_precheck, rebuild_from_map, rebuild_from_dir, load_hnsw_config,
  run_rebuild_collection,
}

module _ (h : RebuildHost) (P : h.State → Type 0) where
  -- `P` survives the reads.
  pub record Reads : Type 0 where
    pub collection : (q : h.Request) → Keep P (h.get_collection q)
    pub segments : (id : h.CollectionUuid) → Keep P (h.get_collection_with_segments id)
    pub open_file : (path : FilePath) → Keep P (h.open_file path)
    pub decode : (r : h.Reader) → Keep P (h.decode_id_map r)
    pub load :
        (dir : Text) (config : h.IndexConfig) (c : h.HnswConfig) (id : Text)
        → Keep P (h.load dir config c id)

module _ (h : RebuildHost) (P : h.State → Type 0) (reads : Reads h P) where
  pub load_hnsw_id_map-Keep : (path : FilePath) → Keep P (load_hnsw_id_map h path)
  unfolding load_hnsw_id_map
  load_hnsw_id_map-Keep path = Keep-bind (Keep-map_err _ (reads.open_file path)) λ file.
      Keep-bind (Keep-map_err _ (reads.decode file))
        λ id_map. Keep-bind (Keep-map_err _ Keep-lift) λ valid. Keep-pure

  pub load_index-Keep :
      (identity : RebuildCollectionIdentity) (dir : FilePath) (segments : h.Segments)
      (c : h.HnswConfig) (m : HnswIdMap)
      → Keep P (load_index h identity dir segments c m)
  unfolding load_index
  load_index-Keep identity dir segments c m = Keep-bind Keep-lift λ dimensionality.
      Keep-bind Keep-lift
        λ dir_str. Keep-bind (Keep-map_err _ (reads.load _ _ _ _)) λ index. Keep-pure

  pub load_hnsw_config-Keep : (segments : h.Segments) → Keep P (load_hnsw_config h segments)
  unfolding load_hnsw_config
  load_hnsw_config-Keep segments =
      Keep-bind Keep-lift λ reconciled. Keep-bind (Keep-map_err _ Keep-lift) λ config. Keep-lift

  -- What a run does beside the reads, in one argument: the rebuild of a plan.
  module _ (precheck keep_backup : Bool)
      (rebuilds : (plan : Plan h) → Keep P (rebuild_or_precheck h precheck keep_backup plan)) where
    module _ (identity : RebuildCollectionIdentity) (segments : h.Segments) (c : h.HnswConfig) where
      rebuild_from_map-Keep :
          (dir : FilePath) (m : HnswIdMap)
          → Keep P (rebuild_from_map h identity segments c precheck keep_backup dir m)
      unfolding rebuild_from_map
      rebuild_from_map-Keep dir m =
          Keep-when (λ none_. Keep-pure)
            (λ some_. Keep-bind (load_index-Keep identity dir segments c m) rebuilds)

      rebuild_from_dir-Keep :
          (dir : FilePath)
          → Keep P (rebuild_from_dir h identity segments c precheck keep_backup dir)
      unfolding rebuild_from_dir
      rebuild_from_dir-Keep dir = record {
        apply = λ s p.
            (Keep-when {b = h.exists dir s}
                (λ there.
                  Keep-when {b = h.exists (hnsw_metadata_filename ∷ dir) s}
                    (λ stored.
                      Keep-bind (load_hnsw_id_map-Keep (hnsw_metadata_filename ∷ dir))
                        (rebuild_from_map-Keep dir))
                    (λ missing. Keep-pure))
                (λ missing. Keep-pure)).apply
              s p;
      }

    run_rebuild_collection-Keep :
        (root : FilePath) (q : h.Request)
        → Keep P (run_rebuild_collection h root q precheck keep_backup)
    unfolding run_rebuild_collection
    run_rebuild_collection-Keep root q =
        Keep-bind (Keep-map_err _ (reads.collection q)) λ (identity, id).
          Keep-bind (record { apply = λ s p. mapped-held P _ _ p })
            λ a.
              Keep-bind (record { apply = λ s p. mapped-held P _ _ p })
                λ b. Keep-bind (Keep-map_err _ (reads.segments id)) λ segments.
                  Keep-bind (load_hnsw_config-Keep segments)
                    λ c. rebuild_from_dir-Keep identity segments c _

  -- A precheck only reads: a property of the world that survives the lookups of the collection and
  -- its segments, the reading of the metadata and the loading of the old index, holds after it,
  -- for every request and outcome.
  pub precheck_reads :
      (root : FilePath) (q : h.Request) (keep_backup : Bool) (s : h.State)
      → P s
      → P (run_rebuild_collection h root q true keep_backup s).1
  unfolding rebuild_or_precheck when
  precheck_reads root q keep_backup s p =
      (run_rebuild_collection-Keep true keep_backup (λ plan. Keep-pure) root q).apply s p
