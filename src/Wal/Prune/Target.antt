-- ===== src/Wal/Prune/Target.antt =====
-- One round of the loop of `run_explicit_wal_prune` (shim/src/lib.rs), and the loop. Every path
-- that goes on to the next target pushes one result; a path that returns fails the whole run.
use chroma_go_local.Base.{
  ℕ, not, ◌&&◌, Option, none, some, List, [], ◌∷◌, ◌++◌, ltb, length, take, first, last, Result, ok,
  err, ok_or, ok_else,
}
use chroma_go_local.Base.Actions.{Action, pure, fail, ◌>>=◌, lift, when, map_err, attempt}
use chroma_go_local.Base.Int.{ℤ, pos, negsuc}
use chroma_go_local.Base.Text.{Text, text, show_int}
use chroma_go_local.Base.Words.{saturating_add, clamp_u64}
use chroma_go_local.Wal.Policy.{WalPruneExecutionOptions}
use chroma_go_local.Wal.Prefix.{
  WalPruneCandidateRow, wal_candidate_total_bytes, wal_prune_prefix_count,
}
use chroma_go_local.Wal.Prune.{
  WalStore, WalPruneFailureMode, fail_fast, continue_on_error, WalPruneTarget,
  EmbeddedWalPruneCollectionResult, Totals, seq_opt_u64, seq_of, find_negative, checked_suc,
  query_collection_safe_seq_cutoff, query_wal_candidate_rows,
}

-- What a round hands on: the pushed result and the totals.
abbrev pub Round : Type 0
Round = EmbeddedWalPruneCollectionResult × Totals

-- `match failure_mode { FailFast => return Err(error), ContinueOnError => push }`
abbrev pub fail_or_push : {S : Type 0} → WalPruneFailureMode → Text → Round → Action S Text Round
fail_or_push fail_fast error round = fail error
fail_or_push continue_on_error error round = pure round

-- The bound for one sequence id: one more.
unfoldable pub bound_of_seq : ℤ → Result ℕ Text
bound_of_seq (pos n) = ok_or (checked_suc n) (text "purge sequence id overflow")
bound_of_seq (negsuc n) = err (text "invalid WAL seq_id for purge: " ++ show_int (negsuc n))

-- The bound handed to `purge_logs`: one more than the last selected sequence id.
unfoldable pub purge_bound : List WalPruneCandidateRow → Result ℕ Text
purge_bound selected = elim (seq_of (last selected)) [
  | none ↦ err (text "internal wal prune error: selected rows empty")
  | some seq ↦ bound_of_seq seq
]

unfoldable pub add_candidates : Totals → ℕ → ℕ → Totals
add_candidates t count bytes = record t {
  candidate_count_total = saturating_add t.candidate_count_total count;
  candidate_bytes_total = saturating_add t.candidate_bytes_total bytes;
}

unfoldable pub add_pruned : Totals → ℕ → ℕ → Totals
add_pruned t count bytes = record t {
  pruned_count_total = saturating_add t.pruned_count_total count;
  pruned_bytes_total = saturating_add t.pruned_bytes_total bytes;
}

module _ (w : WalStore) (options : WalPruneExecutionOptions) (mode : WalPruneFailureMode)
    (now_secs : ℤ) where
  open w use {State, CollectionUuid, show_uuid, purge_logs}

  -- The result of a target that failed before its candidates were known.
  unfoldable pub failed_early :
      WalPruneTarget CollectionUuid → Option ℤ → Text → EmbeddedWalPruneCollectionResult
  failed_early target safe_seq_cutoff error = record {
    collection_id = show_uuid target.collection_id;
    name = target.name;
    tenant_id = target.tenant_id;
    database_name = target.database_name_raw;
    safe_seq_cutoff = ok_else (seq_opt_u64 safe_seq_cutoff "safe_seq_cutoff") none;
    candidate_seq_min = none;
    candidate_seq_max = none;
    pruned_seq_min = none;
    pruned_seq_max = none;
    candidate_count = 0;
    candidate_bytes = 0;
    pruned_count = 0;
    pruned_bytes = 0;
    error = some error;
  }

  -- The purge of the selected rows, if there is one to make: its own failure is a value.
  unfoldable pub purge_selected :
      CollectionUuid → List WalPruneCandidateRow → ℕ → Action State Text (Result (Unit {0}) Text)
  purge_selected collection_id selected prune_prefix =
      when (not options.dry_run && ltb 0 prune_prefix)
        (do
          purge_exclusive ← lift (purge_bound selected)
          attempt (
              map_err
                (λ e.
                  text "purge failed for collection "
                  ++ (show_uuid collection_id ++ (text ": " ++ e)))
                (purge_logs collection_id purge_exclusive)))
        (pure (ok tt))

  -- The result of a target whose purge failed: its candidates count, and nothing is pruned.
  unfoldable pub failed_purge :
      WalPruneTarget CollectionUuid
      → Option ℤ
      → List WalPruneCandidateRow
      → List WalPruneCandidateRow
      → Text
      → EmbeddedWalPruneCollectionResult
  failed_purge target safe_seq_cutoff rows selected error = record {
    collection_id = show_uuid target.collection_id;
    name = target.name;
    tenant_id = target.tenant_id;
    database_name = target.database_name_raw;
    safe_seq_cutoff = ok_else (seq_opt_u64 safe_seq_cutoff "safe_seq_cutoff") none;
    candidate_seq_min = ok_else (seq_opt_u64 (seq_of (first rows)) "candidate_seq_min") none;
    candidate_seq_max = ok_else (seq_opt_u64 (seq_of (last rows)) "candidate_seq_max") none;
    pruned_seq_min = ok_else (seq_opt_u64 (seq_of (first selected)) "pruned_seq_min") none;
    pruned_seq_max = ok_else (seq_opt_u64 (seq_of (last selected)) "pruned_seq_max") none;
    candidate_count = clamp_u64 (length rows);
    candidate_bytes = wal_candidate_total_bytes rows;
    pruned_count = 0;
    pruned_bytes = 0;
    error = some error;
  }

  -- The result of a target that went through.
  unfoldable pub pruned_result :
      WalPruneTarget CollectionUuid
      → Option ℤ
      → List WalPruneCandidateRow
      → List WalPruneCandidateRow
      → Action State Text EmbeddedWalPruneCollectionResult
  pruned_result target safe_seq_cutoff rows selected = do
    cutoff ← lift (seq_opt_u64 safe_seq_cutoff "safe_seq_cutoff")
    candidate_min ← lift (seq_opt_u64 (seq_of (first rows)) "candidate_seq_min")
    candidate_max ← lift (seq_opt_u64 (seq_of (last rows)) "candidate_seq_max")
    pruned_min ← lift (seq_opt_u64 (seq_of (first selected)) "pruned_seq_min")
    pruned_max ← lift (seq_opt_u64 (seq_of (last selected)) "pruned_seq_max")
    pure (record {
      collection_id = show_uuid target.collection_id;
      name = target.name;
      tenant_id = target.tenant_id;
      database_name = target.database_name_raw;
      safe_seq_cutoff = cutoff;
      candidate_seq_min = candidate_min;
      candidate_seq_max = candidate_max;
      pruned_seq_min = pruned_min;
      pruned_seq_max = pruned_max;
      candidate_count = clamp_u64 (length rows);
      candidate_bytes = wal_candidate_total_bytes rows;
      pruned_count = clamp_u64 (length selected);
      pruned_bytes = wal_candidate_total_bytes selected;
      error = none;
    })

  -- From the purge's outcome on.
  unfoldable pub settle :
      WalPruneTarget CollectionUuid
      → Totals
      → Option ℤ
      → List WalPruneCandidateRow
      → List WalPruneCandidateRow
      → Result (Unit {0}) Text
      → Action State Text Round
  settle target totals cutoff rows selected (err message) = fail_or_push mode message (
    failed_purge target cutoff rows selected message,
    add_candidates totals (clamp_u64 (length rows)) (wal_candidate_total_bytes rows),
  )
  settle target totals cutoff rows selected (ok done) = do
    result ← pruned_result target cutoff rows selected
    pure (
      result,
      add_pruned (add_candidates totals (clamp_u64 (length rows)) (wal_candidate_total_bytes rows))
          (clamp_u64 (length selected)) (wal_candidate_total_bytes selected),
    )

  -- From the candidate rows on, none of which has a negative sequence id.
  unfoldable pub prune_rows :
      WalPruneTarget CollectionUuid
      → Totals
      → Option ℤ
      → List WalPruneCandidateRow
      → Action State Text Round
  prune_rows target totals cutoff rows = do
    let prune_prefix = wal_prune_prefix_count rows options.policies now_secs
    purged ← purge_selected target.collection_id (take prune_prefix rows) prune_prefix
    settle target totals cutoff rows (take prune_prefix rows) purged

  unfoldable pub check_rows :
      WalPruneTarget CollectionUuid
      → Totals
      → Option ℤ
      → List WalPruneCandidateRow
      → Action State Text Round
  check_rows target totals cutoff rows = elim (find_negative rows) [
    | none ↦ prune_rows target totals cutoff rows
    | some negative_row ↦
        let error =
          text "negative wal seq_id encountered for collection "
          ++ (show_uuid target.collection_id ++ (text ": " ++ show_int negative_row.seq_id)) in
        fail_or_push mode error (failed_early target cutoff error, totals)
  ]

  unfoldable pub with_rows :
      WalPruneTarget CollectionUuid
      → Totals
      → Option ℤ
      → Result (List WalPruneCandidateRow) Text
      → Action State Text Round
  with_rows target totals cutoff (err error) =
      fail_or_push mode error (failed_early target cutoff error, totals)
  with_rows target totals cutoff (ok rows) = check_rows target totals cutoff rows

  -- No cutoff, no candidates.
  unfoldable pub candidates :
      CollectionUuid → Option ℤ → Action State Text (List WalPruneCandidateRow)
  candidates collection_id none = pure []
  candidates collection_id (some cutoff) = query_wal_candidate_rows w collection_id cutoff

  unfoldable pub with_cutoff :
      WalPruneTarget CollectionUuid → Totals → Result (Option ℤ) Text → Action State Text Round
  with_cutoff target totals (err error) =
      fail_or_push mode error (failed_early target none error, totals)
  with_cutoff target totals (ok cutoff) = do
    rows ← attempt (candidates target.collection_id cutoff)
    with_rows target totals cutoff rows

  -- One round of the loop.
  unfoldable pub prune_target : WalPruneTarget CollectionUuid → Totals → Action State Text Round
  prune_target target totals = do
    cutoff ← attempt (query_collection_safe_seq_cutoff w target.collection_id)
    with_cutoff target totals cutoff

  unfoldable pub prune_targets :
      List (WalPruneTarget CollectionUuid)
      → Totals
      → List EmbeddedWalPruneCollectionResult
      → Action State Text (List EmbeddedWalPruneCollectionResult × Totals)
  prune_targets [] totals results = pure (results, totals)
  prune_targets (target ∷ targets) totals results = do
    (result, totals') ← prune_target target totals
    prune_targets targets totals' (results ++ result ∷ [])
