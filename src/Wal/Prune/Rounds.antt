-- ===== src/Wal/Prune/Rounds.antt =====
-- What a round of the prune loop guarantees, on every path: its result, its totals and the world.
use chroma_go_local.Base.{
  ℕ, ◌≤◌, ◌<◌, ◌≡◌, refl, sym, false, not, ◌&&◌, Option, some, List, length, take, first, last, All,
  All-take, arith, Result, ok, err, inl, inr, Bool-cases, Option-cases, length-take, ltb,
}
use chroma_go_local.Base.Actions.{
  Ends, Ends-resume, mapped, mapped-world, Ends-mono, resume, caught, when,
}
use chroma_go_local.Base.Int.{ℤ, pos, ◌≤ℤ◌, IsI64, ◌<ℤ◌}
use chroma_go_local.Base.Text.{Text}
use chroma_go_local.Base.Words.{u64_max, saturating_add, saturating_add-le, clamp_u64}
use chroma_go_local.Wal.Policy.{WalPruneExecutionOptions}
use chroma_go_local.Wal.Prefix.{WalPruneCandidateRow, wal_prune_prefix_count}
use chroma_go_local.Wal.Prefix.Count.{prefix_count-le}
use chroma_go_local.Wal.Prune.{
  WalStore, WalPruneFailureMode, fail_fast, continue_on_error, WalPruneTarget,
  EmbeddedWalPruneCollectionResult, Totals, find_negative, seq_opt_u64,
}
use chroma_go_local.Wal.Prune.Target.{
  Round, fail_or_push, failed_early, failed_purge, purge_selected, pruned_result, settle,
  prune_rows, check_rows, with_rows, add_candidates, add_pruned,
}
use chroma_go_local.Wal.Prune.Rows.{
  Fetched, Usable, find_negative-Usable, seq_opt_u64-Usable, first-OnSome, last-OnSome,
  total_bytes-take-le, purge_bound-le,
}

pub record Bounded (t : Totals) : Type 0 where
  pub count_fits : t.candidate_count_total ≤ u64_max
  pub bytes_fit : t.candidate_bytes_total ≤ u64_max
  pub pruned_fits : t.pruned_count_total ≤ u64_max
  pub pruned_bytes_fit : t.pruned_bytes_total ≤ u64_max

-- The totals after a round are those before it plus what its result reports.
pub record Accounts (t : Totals) (r : EmbeddedWalPruneCollectionResult) (t' : Totals) : Type 0 where
  pub counts : t'.candidate_count_total ≡ saturating_add t.candidate_count_total r.candidate_count
  pub sizes : t'.candidate_bytes_total ≡ saturating_add t.candidate_bytes_total r.candidate_bytes
  pub pruned : t'.pruned_count_total ≡ saturating_add t.pruned_count_total r.pruned_count
  pub pruned_sizes : t'.pruned_bytes_total ≡ saturating_add t.pruned_bytes_total r.pruned_bytes

-- A result never reports more pruned than there was to prune.
pub record IsSound (r : EmbeddedWalPruneCollectionResult) : Type 0 where
  pub count_le : r.pruned_count ≤ r.candidate_count
  pub bytes_le : r.pruned_bytes ≤ r.candidate_bytes

saturating_add-zero : (a : ℕ) → a ≤ u64_max → saturating_add a 0 ≡ a
unfolding saturating_add
saturating_add-zero a h = omega arith

-- What the store promises: ids are `i64`, and the query filters by the cutoff.
pub record StoreLaws (w : WalStore) : Type 0 where
  pub seq_id_i64 : (row : w.Row) (v : ℤ) → w.seq_id_column row ≡ ok v → IsI64 v
  pub below_cutoff :
      (id : w.CollectionUuid) (cutoff : ℤ) (s s' : w.State) (rows : List w.Row)
      → w.fetch_candidates id cutoff s ≡ (ok rows, s')
      → All (λ row. (v : ℤ) → w.seq_id_column row ≡ ok v → v <ℤ cutoff) rows

module _ (w : WalStore) (options : WalPruneExecutionOptions) (P : w.State → Type 0) where
  open w use {
    State, CollectionUuid, Row, show_uuid, fetch_min_seq, min_seq, fetch_candidates, purge_logs,
  }

  -- In some world that satisfied `P` the cutoff query answered `v` for the collection.
  pub record Reported (id : CollectionUuid) (v : ℤ) : Type 0 where
    pub before : State
    pub after : State
    pub row : Row
    pub held : P before
    pub fetched : fetch_min_seq id before ≡ (ok row, after)
    pub decoded : min_seq row ≡ ok (some v)

  -- `P` survives the reads, and the purges of a wet run up to a reported cutoff.
  pub record Keeps : Type 0 where
    pub cutoff_read : (id : CollectionUuid) (s : State) → P s → P (fetch_min_seq id s).1
    pub rows_read : (id : CollectionUuid) (c : ℤ) (s : State) → P s → P (fetch_candidates id c s).1
    pub purge :
        (id : CollectionUuid) (n : ℕ) (v : ℤ) (s : State)
        → options.dry_run ≡ false
        → Reported id v
        → pos n ≤ℤ v
        → P s
        → P (purge_logs id n s).1

module _ (w : WalStore) (options : WalPruneExecutionOptions) (mode : WalPruneFailureMode)
    (now_secs : ℤ) (P : w.State → Type 0) (laws : StoreLaws w) (keeps : Keeps w options P) where
  open w use {
    State, CollectionUuid, Row, show_uuid, fetch_min_seq, min_seq, fetch_candidates, purge_logs,
  }

  pub record IsRound (target : WalPruneTarget CollectionUuid) (t : Totals) (r : Round) (s : State)
      : Type 0 where
    pub id : r.0.collection_id ≡ show_uuid target.collection_id
    pub name : r.0.name ≡ target.name
    pub accounts : Accounts t r.0 r.1
    pub sound : IsSound r.0
    pub bounded : Bounded r.1
    pub held : P s

  -- A failure ends the run only in the mode that asks for it.
  pub record IsAbort (e : Text) (s : State) : Type 0 where
    pub fast : mode ≡ fail_fast
    pub held : P s

  module _ (target : WalPruneTarget CollectionUuid) (t : Totals) (b : Bounded t) where
    abbrev pub Good : Result Round Text × State → Type 0
    Good = Ends (IsRound target t) IsAbort

    fail_or_push-Good :
        (m : WalPruneFailureMode) (e : Text) (r : Round) (s : State)
        → m ≡ mode
        → IsRound target t r s
        → Good (fail_or_push m e r s)
    fail_or_push-Good fail_fast e r s same h = record { fast = sym same; held = h.held }
    fail_or_push-Good continue_on_error e r s same h = h

    pub failed_early-Good :
        (cutoff : Option ℤ) (e : Text) (s : State)
        → P s
        → Good (fail_or_push mode e (failed_early w options mode now_secs target cutoff e, t) s)
    unfolding failed_early
    failed_early-Good cutoff e s p = fail_or_push-Good mode e _ s refl (record {
      id = refl;
      name = refl;
      accounts = record {
        counts = sym (saturating_add-zero _ b.count_fits);
        sizes = sym (saturating_add-zero _ b.bytes_fit);
        pruned = sym (saturating_add-zero _ b.pruned_fits);
        pruned_sizes = sym (saturating_add-zero _ b.pruned_bytes_fit);
      };
      sound = record { count_le = omega arith; bytes_le = omega arith };
      bounded = b;
      held = p;
    })

    Bounded-add_candidates : (c n : ℕ) → Bounded (add_candidates t c n)
    unfolding add_candidates
    Bounded-add_candidates c n = record {
      count_fits = saturating_add-le _ _;
      bytes_fit = saturating_add-le _ _;
      pruned_fits = b.pruned_fits;
      pruned_bytes_fit = b.pruned_bytes_fit;
    }

    failed_purge-Good :
        (cutoff : Option ℤ) (rows selected : List WalPruneCandidateRow) (e : Text) (s : State)
        → P s
        → Good (settle w options mode now_secs target t cutoff rows selected (err e) s)
    unfolding settle failed_purge add_candidates
    failed_purge-Good cutoff rows selected e s p = fail_or_push-Good mode e _ s refl (record {
      id = refl;
      name = refl;
      accounts = record {
        counts = refl;
        sizes = refl;
        pruned = sym (saturating_add-zero _ b.pruned_fits);
        pruned_sizes = sym (saturating_add-zero _ b.pruned_bytes_fit);
      };
      sound = record { count_le = omega arith; bytes_le = omega arith };
      bounded = Bounded-add_candidates _ _;
      held = p;
    })

    pruned-Good :
        (c : ℤ) (cutoff : Option ℤ) (rows : List WalPruneCandidateRow) (k : ℕ) (s : State)
        → (v : Option ℕ) × (seq_opt_u64 cutoff "safe_seq_cutoff" ≡ ok v)
        → All (Usable c) rows
        → P s
        → Good (settle w options mode now_secs target t cutoff rows (take k rows) (ok tt) s)
    unfolding resume settle pruned_result add_candidates add_pruned clamp_u64
    pruned-Good c cutoff rows k s (v, e) h p =
        let taken = All-take (Usable c) k rows h in
        let (v₁, e₁) =
          seq_opt_u64-Usable c (first rows) "candidate_seq_min" (first-OnSome (Usable c) rows h) in
        let (v₂, e₂) =
          seq_opt_u64-Usable c (last rows) "candidate_seq_max" (last-OnSome (Usable c) rows h) in
        let (v₃, e₃) =
          seq_opt_u64-Usable c (first (take k rows)) "pruned_seq_min"
            (first-OnSome (Usable c) _ taken) in
        let (v₄, e₄) =
          seq_opt_u64-Usable c (last (take k rows)) "pruned_seq_max"
            (last-OnSome (Usable c) _ taken) in
        rw (e, e₁, e₂, e₃, e₄, settle, pruned_result)
          (record {
            id = refl;
            name = refl;
            accounts = record { counts = refl; sizes = refl; pruned = refl; pruned_sizes = refl };
            sound = record {
              count_le = omega (arith, length-take k rows);
              bytes_le = total_bytes-take-le k rows;
            };
            bounded = record {
              count_fits = saturating_add-le _ _;
              bytes_fit = saturating_add-le _ _;
              pruned_fits = saturating_add-le _ _;
              pruned_bytes_fit = saturating_add-le _ _;
            };
            held = p;
          })

    -- The purge of a round keeps `P`, whatever it answers, and its bound always exists.
    purge_selected-held :
        (c : ℤ) (rows : List WalPruneCandidateRow) (k : ℕ) (s : State)
        → k ≤ length rows
        → All (Usable c) rows
        → (0 < k → Reported w options P target.collection_id c)
        → P s
        → Ends
            (λ (r : Result (Unit {0}) Text) s'. P s')
            (λ (e : Text) s'. ⊥)
            (purge_selected w options mode now_secs target.collection_id (take k rows) k s)
    unfolding resume mapped caught when purge_selected
    purge_selected-held c rows k s fit h reported p =
        elim (Bool-cases (not options.dry_run && ltb 0 k)) [
          | inr skip ↦ rw (skip, purge_selected) p
          | inl go ↦
              let dry : options.dry_run ≡ false = ground arith in
              let positive : 0 < k = ground arith in
              let (n, bound, le) =
                purge_bound-le c (take k rows) (All-take (Usable c) k rows h)
                  (omega (arith, length-take k rows)) in
              rw (go, purge_selected, bound, mapped-world)
                (keeps.purge target.collection_id n c s dry (reported positive) le p)
        ]

    settle-Good :
        (c : ℤ) (cutoff : Option ℤ) (rows : List WalPruneCandidateRow) (k : ℕ)
        → (v : Option ℕ) × (seq_opt_u64 cutoff "safe_seq_cutoff" ≡ ok v)
        → All (Usable c) rows
        → (r : Result (Unit {0}) Text) (s : State) → P s
        → Good (settle w options mode now_secs target t cutoff rows (take k rows) r s)
    settle-Good c cutoff rows k conv h (ok done) s p = pruned-Good c cutoff rows k s conv h p
    settle-Good c cutoff rows k conv h (err e) s p =
        failed_purge-Good cutoff rows (take k rows) e s p

    module _ (c : ℤ) (cutoff : Option ℤ)
        (conv : (v : Option ℕ) × (seq_opt_u64 cutoff "safe_seq_cutoff" ≡ ok v)) where
      prune_rows-Good :
          (rows : List WalPruneCandidateRow) (s : State)
          → All (Usable c) rows
          → (0 < length rows → Reported w options P target.collection_id c)
          → P s
          → Good (prune_rows w options mode now_secs target t cutoff rows s)
      unfolding prune_rows
      prune_rows-Good rows s h reported p =
          let k = wal_prune_prefix_count rows options.policies now_secs in
          let fit = prefix_count-le rows options.policies now_secs in
          Ends-resume (λ r s'. P s') (IsRound target t) IsAbort _ _
            (Ends-mono (λ r s'. P s') (λ r s'. P s') (λ e s'. ⊥) IsAbort _ (λ r s' p'. p')
              (λ e s' bad. absurd bad)
              (purge_selected-held c rows k s fit h (λ pos_. reported (omega arith)) p))
            (λ r s' p'. settle-Good c cutoff rows k conv h r s' p')

      check_rows-Good :
          (rows : List WalPruneCandidateRow) (s : State)
          → All (Fetched c) rows
          → (0 < length rows → Reported w options P target.collection_id c)
          → P s
          → Good (check_rows w options mode now_secs target t cutoff rows s)
      unfolding check_rows
      check_rows-Good rows s h reported p = elim (Option-cases (find_negative rows)) [
        | inl e ↦
            rw (e, check_rows) (prune_rows-Good rows s (find_negative-Usable c rows h e) reported p)
        | inr (row, e) ↦ rw (e, check_rows) (failed_early-Good cutoff _ s p)
      ]

      -- The rows that a query handed over, with the error that it may have ended in.
      abbrev pub Handed : Result (List WalPruneCandidateRow) Text → Type 0
      Handed (ok rows) =
          All (Fetched c) rows × (0 < length rows → Reported w options P target.collection_id c)
      Handed (err e) = Unit {0}

      pub with_rows-Good :
          (r : Result (List WalPruneCandidateRow) Text) (s : State)
          → Handed r
          → P s
          → Good (with_rows w options mode now_secs target t cutoff r s)
      unfolding with_rows
      with_rows-Good (ok rows) s h p = check_rows-Good rows s h.0 h.1 p
      with_rows-Good (err e) s h p = failed_early-Good cutoff e s p
