-- ===== src/Wal/Run/Safety.antt =====
-- What a whole prune run may do to the world.
use chroma_go_local.Base.{
  ℕ, ◌≡◌, true, false, Option, none, some, List, [], ◌∷◌, is_empty, Result, ok, err, arith,
  Option-cases, inl, inr,
}
use chroma_go_local.Base.Actions.{
  Keep, Keep-bind, Keep-pure, Keep-lift, Keep-map_err, Keep-attempt, Keep-when, keeping, when-held,
  mapped-held,
}
use chroma_go_local.Base.Int.{ℤ, pos}
use chroma_go_local.Base.Text.{Text}
use chroma_go_local.Wal.Policy.{WalPruneExecutionOptions}
use chroma_go_local.Wal.Prune.{
  WalPruneFailureMode, WalPruneTarget, EmbeddedWalPruneCollectionResult, Totals,
}
use chroma_go_local.Wal.Prune.Rounds.{StoreLaws, Keeps}
use chroma_go_local.Wal.Prune.Loop.{prune_targets_safe}
use chroma_go_local.Wal.Run.{
  WalHost, parse_collection_ids, get_collection_ids_to_migrate, open_writer, migrate_each,
  trigger_vector_segments_max_seq_id_migration, configure_sqlite_log_auto_purge, try_vacuum,
  restore_timeout, run_vacuum, vacuum_step, look_up, flatten_ok, read_clock, prepare, finish,
  run_explicit_wal_prune,
}

module _ (h : WalHost) (options : WalPruneExecutionOptions) (P : h.State → Type 0) where
  -- `P` survives the migration; the setting and the VACUUM count in a wet run only.
  pub record HostKeeps : Type 0 where
    pub loop : Keeps h.store options P
    pub unmigrated : Keep P h.fetch_unmigrated
    pub segments : (id : h.CollectionUuid) → Keep P (h.get_collection_with_segments id)
    pub writer : (c : h.Collection) (d : ℕ) → Keep P (h.get_hnsw_writer c d)
    pub auto_purge : options.dry_run ≡ false → Keep P h.update_legacy_embeddings_queue_config
    pub busy : options.dry_run ≡ false → Keep P h.read_busy_timeout
    pub set_busy : (v : ℤ) → options.dry_run ≡ false → Keep P (h.set_busy_timeout v)
    pub vacuumed : options.dry_run ≡ false → options.vacuum ≡ true → Keep P h.vacuum

module _ (h : WalHost) (options : WalPruneExecutionOptions) (P : h.State → Type 0)
    (keeps : HostKeeps h options P) where
  open h use {State, CollectionUuid, Row, Collection}

  parse-Keep : (rows : List Row) → Keep P (parse_collection_ids h rows)
  unfolding parse_collection_ids
  parse-Keep [] = search keeping
  parse-Keep (row ∷ rows) =
      Keep-bind (Keep-map_err _ Keep-lift) λ raw.
        Keep-bind (Keep-map_err _ Keep-lift) λ id. Keep-bind (parse-Keep rows) λ ids. Keep-pure

  open_writer-Keep : (c : Collection) → Keep P (open_writer h c)
  unfolding open_writer
  open_writer-Keep c = elim (Option-cases (h.dimension c)) [
    | inl e ↦ rw (e, open_writer) (search keeping)
    | inr (d, e) ↦ rw (e, open_writer) (search (keeping, keeps.writer c d))
  ]

  migrate-Keep : (ids : List CollectionUuid) → Keep P (migrate_each h ids)
  unfolding migrate_each
  migrate-Keep [] = search keeping
  migrate-Keep (id ∷ ids) =
      Keep-bind (Keep-map_err _ (keeps.segments id))
        λ c. Keep-bind (open_writer-Keep c) λ done. migrate-Keep ids

  migration-Keep : Keep P (trigger_vector_segments_max_seq_id_migration h)
  unfolding trigger_vector_segments_max_seq_id_migration get_collection_ids_to_migrate
  migration-Keep =
      Keep-bind (Keep-bind (Keep-map_err _ keeps.unmigrated) λ rows. parse-Keep rows)
        λ ids. migrate-Keep ids

  module _ (wet : options.dry_run ≡ false) where
    configure-Keep : Keep P (configure_sqlite_log_auto_purge h)
    unfolding configure_sqlite_log_auto_purge
    configure-Keep = record {
      apply = λ s p.
          when-held P (h.is_sqlite_log s) _ _ s
            (λ yes_. mapped-held P _ _ ((keeps.auto_purge wet).apply s p)) (λ no_. p);
    }

    try_vacuum-Keep : options.vacuum ≡ true → (r : Result (Unit {0}) Text) → Keep P (try_vacuum h r)
    unfolding try_vacuum
    try_vacuum-Keep go (ok done) = Keep-bind (Keep-attempt (keeps.vacuumed wet go)) λ r. Keep-pure
    try_vacuum-Keep go (err e) = Keep-pure

    restore-Keep : (t : Option ℤ) → Keep P (restore_timeout h t)
    unfolding restore_timeout
    restore-Keep none = Keep-pure
    restore-Keep (some t) = Keep-attempt (keeps.set_busy t wet)

    run_vacuum-Keep : options.vacuum ≡ true → Keep P (run_vacuum h)
    unfolding run_vacuum
    run_vacuum-Keep go = Keep-bind (Keep-attempt (keeps.busy wet)) λ prev.
        Keep-bind (Keep-attempt (keeps.set_busy (pos 5000) wet)) λ configured.
          Keep-bind (try_vacuum-Keep go configured)
            λ outcome. Keep-bind (restore-Keep (flatten_ok prev)) λ restored. Keep-pure

  vacuum_step-Keep : (n : ℕ) → Keep P (vacuum_step h options n)
  unfolding vacuum_step
  vacuum_step-Keep n =
      Keep-when
        (λ go.
          Keep-when (λ some_. run_vacuum-Keep (ground arith) (ground arith)) (λ none_. Keep-pure))
        (λ skip. Keep-pure)

  look_up-Keep :
      (label : Text) (get : State → Result (Unit {0}) Text) → Keep P (look_up h label get)
  look_up-Keep label get = record { apply = λ s p. mapped-held P _ _ p }

  read_clock-Keep : Keep P (read_clock h)
  unfolding read_clock
  read_clock-Keep = record { apply = λ s p. mapped-held P _ _ p }

  prepare-Keep : Keep P (prepare h options)
  unfolding prepare
  prepare-Keep = Keep-bind (look_up-Keep _ h.get_sqlite) λ a.
      Keep-bind (look_up-Keep _ h.get_segment_manager) λ b.
        Keep-bind (look_up-Keep _ h.get_sysdb) λ c. Keep-bind (look_up-Keep _ h.get_log) λ d.
          Keep-bind migration-Keep λ e.
            Keep-bind (Keep-when (λ dry. Keep-pure) (λ wet. configure-Keep wet))
              λ f. read_clock-Keep

  finish-Keep :
      (results : List EmbeddedWalPruneCollectionResult) (totals : Totals)
      → Keep P (finish h options results totals)
  unfolding finish
  finish-Keep results totals =
      Keep-bind (vacuum_step-Keep totals.pruned_count_total) λ outcome. record { apply = λ s p. p }

  -- A property of the world that holds at first, survives the reads and the migration, and in a
  -- wet run the auto purge setting, the VACUUM with its timeouts (the VACUUM itself if it was
  -- asked for) and every purge of a collection up to at most a cutoff that the store reported for
  -- it, holds after a prune run, also after one that failed. The store's sequence ids are `i64`,
  -- and its candidate query filters by the cutoff.
  pub run_explicit_wal_prune_safe :
      (laws : StoreLaws h.store) (mode : WalPruneFailureMode)
      (targets : List (WalPruneTarget CollectionUuid)) (s : State)
      → P s
      → P (run_explicit_wal_prune h targets options mode s).1
  unfolding run_explicit_wal_prune
  run_explicit_wal_prune_safe laws mode targets s p =
      (Keep-when {b = is_empty targets} (λ none_. Keep-pure)
          (λ some_. Keep-bind prepare-Keep λ now_secs.
            Keep-bind
              (record {
                apply = λ s p.
                    prune_targets_safe h.store options mode now_secs P laws keeps.loop targets s p;
              })
              (λ (results, totals). finish-Keep results totals))).apply
        s p
