-- ===== src/Wal/Prune/Targets.antt =====
-- The queries of a round, the round as a whole, and the loop over the targets.
use chroma_go_local.Base.{
  ℕ, ◌≡◌, refl, ◌∙◌, ap, Option, none, some, List, [], ◌∷◌, All, All-map_of, arith, Result, ok, err,
  Result-cases, inl, inr, Bool-cases, subst,
}
use chroma_go_local.Base.Actions.{
  Ends, Ends-resume, Ends-mono, Ends-call, resume, mapped, when, caught,
}
use chroma_go_local.Base.Int.{ℤ, pos, negsuc, IsI64, ◌<ℤ◌, ltb_ℤ}
use chroma_go_local.Base.Text.{Text}
use chroma_go_local.Wal.Policy.{WalPruneExecutionOptions}
use chroma_go_local.Wal.Prefix.{WalPruneCandidateRow}
use chroma_go_local.Wal.Prune.{
  WalStore, WalPruneFailureMode, WalPruneTarget, Totals, positive_cutoff,
  query_collection_safe_seq_cutoff, query_wal_candidate_rows, decode_row, decode_rows, seq_opt_u64,
}
use chroma_go_local.Wal.Prune.Target.{Round, with_rows, candidates, with_cutoff, prune_target}
use chroma_go_local.Wal.Prune.Rows.{Fetched}
use chroma_go_local.Wal.Prune.Rounds.{
  StoreLaws, Keeps, Reported, IsRound, IsAbort, Bounded, with_rows-Good, failed_early-Good,
}

module _ (w : WalStore) where
  open w use {State, Row, seq_id_column, created_at_column, estimated_bytes_column}

  decode_row-column :
      (Q : ℤ → Type 0) (row : Row) (s : State)
      → ((v : ℤ) → seq_id_column row ≡ ok v → Q v)
      → Ends (λ r s'. Q r.seq_id × (s' ≡ s)) (λ e s'. s' ≡ s) (decode_row w row s)
  unfolding resume mapped decode_row
  decode_row-column Q row s h = elim (Result-cases (seq_id_column row)) [
    | inr (e, bad) ↦ rw (bad, decode_row)
    | inl (v, seq) ↦ elim (Result-cases (created_at_column row)) [
      | inr (e, bad) ↦ rw (seq, bad, decode_row)
      | inl (created, at) ↦ elim (Result-cases (estimated_bytes_column row)) [
        | inr (e, bad) ↦ rw (seq, at, bad, decode_row)
        | inl (bytes, size) ↦ rw (seq, at, size, decode_row) (h v seq, refl)
      ]
    ]
  ]

  abbrev Decoded : (ℤ → Type 0) → State → List WalPruneCandidateRow → State → Type 0
  Decoded Q s rs s' = All (λ r. Q r.seq_id) rs × (s' ≡ s)

  decode_rows-All :
      (Q : ℤ → Type 0) (rows : List Row) (s : State)
      → All (λ row. (v : ℤ) → seq_id_column row ≡ ok v → Q v) rows
      → Ends (Decoded Q s) (λ e s'. s' ≡ s) (decode_rows w rows s)
  unfolding decode_rows
  decode_rows-All Q [] s h = (tt, refl)
  decode_rows-All Q (row ∷ rows) s h =
      Ends-resume (λ (r : WalPruneCandidateRow) s'. Q r.seq_id × (s' ≡ s)) (Decoded Q s)
        (λ (e : Text) s'. s' ≡ s) (decode_row w row s) _ (decode_row-column Q row s h.0)
        λ r s₁ (q, same).
          Ends-resume (Decoded Q s₁) (Decoded Q s) (λ (e : Text) s'. s' ≡ s) (decode_rows w rows s₁)
            _
            (Ends-mono (Decoded Q s₁) (Decoded Q s₁) (λ e s'. s' ≡ s₁) (λ e s'. s' ≡ s) _
              (λ rs s₂ d. d) (λ e s₂ back. back ∙ same) (decode_rows-All Q rows s₁ h.1))
            λ rs s₂ (qs, back). ((q, qs), back ∙ same)

module _ (w : WalStore) (options : WalPruneExecutionOptions) (mode : WalPruneFailureMode)
    (now_secs : ℤ) (P : w.State → Type 0) (laws : StoreLaws w) (keeps : Keeps w options P) where
  open w use {State, CollectionUuid, Row, show_uuid, fetch_min_seq, min_seq, fetch_candidates}

  -- The cutoff that a query answers is positive, and was reported for the collection.
  abbrev pub Answered : CollectionUuid → Option ℤ → Type 0
  Answered id none = Unit {0}
  Answered id (some c) = Reported w options P id c × (pos 0 <ℤ c)

  positive_cutoff-Answered :
      (id : CollectionUuid) (v : Option ℤ)
      → ((c : ℤ) → v ≡ some c → Reported w options P id c)
      → Answered id (positive_cutoff v)
  unfolding positive_cutoff
  positive_cutoff-Answered id none h = tt
  positive_cutoff-Answered id (some c) h = elim (Bool-cases (ltb_ℤ (pos 0) c)) [
    | inl yes_ ↦ rw yes_ (h c refl, ground arith)
    | inr no_ ↦ rw no_ tt
  ]

  cutoff-Answered :
      (id : CollectionUuid) (s : State)
      → P s
      → Ends (λ v s'. Answered id v × P s') (λ e s'. P s') (query_collection_safe_seq_cutoff w id s)
  unfolding resume mapped query_collection_safe_seq_cutoff
  cutoff-Answered id s p =
      Ends-call (λ v s'. Answered id v × P s') (λ e s'. P s') _ (fetch_min_seq id s) _
        (λ row s' got.
          let here : P s' = subst P (ap (λ x. x.1) got) (keeps.cutoff_read id s p) in
          elim (Result-cases (min_seq row)) [
            | inr (e, bad) ↦ rw bad here
            | inl (v, good) ↦ rw good (
              positive_cutoff-Answered id v (λ c same. record {
                before = s;
                after = s';
                row = row;
                held = p;
                fetched = got;
                decoded = good ∙ ap ok same;
              }),
              here,
            )
          ])
        (λ e s' got. subst P (ap (λ x. x.1) got) (keeps.cutoff_read id s p))

  cutoff-converts :
      (id : CollectionUuid) (cutoff : Option ℤ)
      → Answered id cutoff
      → (v : Option ℕ) × (seq_opt_u64 cutoff "safe_seq_cutoff" ≡ ok v)
  unfolding seq_opt_u64
  cutoff-converts id none h = (none, refl)
  cutoff-converts id (some (pos n)) h = (some n, refl)
  cutoff-converts id (some (negsuc n)) h = absurd (omega (arith, h.1))

  rows-Fetched :
      (id : CollectionUuid) (c : ℤ) (s : State)
      → P s
      → Ends
          (λ rows s'. All (Fetched c) rows × P s')
          (λ e s'. P s')
          (query_wal_candidate_rows w id c s)
  unfolding when query_wal_candidate_rows
  rows-Fetched id c s p = elim (Bool-cases (ltb_ℤ (pos 0) c)) [
    | inr skip ↦ rw (skip, query_wal_candidate_rows) (tt, p)
    | inl go ↦
        rw (go, query_wal_candidate_rows)
          (Ends-call (λ rows s'. All (Fetched c) rows × P s') (λ e s'. P s') _
            (fetch_candidates id c s) _
            (λ rows s' got.
              let here : P s' = subst P (ap (λ x. x.1) got) (keeps.rows_read id c s p) in
              Ends-mono _ _ _ _ (decode_rows w rows s') (λ rs s₂ (d, same). (d, rw same here))
                (λ e s₂ same. rw same here)
                (decode_rows-All w (λ v. IsI64 v × (v <ℤ c)) rows s' (columns rows s' got)))
            (λ e s' got. subst P (ap (λ x. x.1) got) (keeps.rows_read id c s p)))
  ]
    where
      columns :
          (rows : List Row) (s' : State)
          → fetch_candidates id c s ≡ (ok rows, s')
          → All (λ row. (v : ℤ) → w.seq_id_column row ≡ ok v → IsI64 v × (v <ℤ c)) rows
      columns rows s' got =
          All-map_of _ _ (λ row below v e. (laws.seq_id_i64 row v e, below v e)) rows
            (laws.below_cutoff id c s s' rows got)

  module _ (target : WalPruneTarget CollectionUuid) (t : Totals) (b : Bounded t) where
    abbrev pub Good : Result Round Text × State → Type 0
    Good =
        Ends (IsRound w options mode now_secs P laws keeps target t)
          (IsAbort w options mode now_secs P laws keeps)

    queried-Good :
        (c : ℤ) (r : Result (List WalPruneCandidateRow) Text × State)
        → Answered target.collection_id (some c)
        → Ends (λ rows s'. All (Fetched c) rows × P s') (λ e s'. P s') r
        → Good (with_rows w options mode now_secs target t (some c) r.0 r.1)
    queried-Good c (ok rows, s) a (h, p) =
        with_rows-Good w options mode now_secs P laws keeps target t b c (some c)
          (cutoff-converts target.collection_id (some c) a) (ok rows) s (h, λ lt. a.0) p
    queried-Good c (err e, s) a p =
        with_rows-Good w options mode now_secs P laws keeps target t b c (some c)
          (cutoff-converts target.collection_id (some c) a) (err e) s tt p

    with_cutoff-Good :
        (r : Result (Option ℤ) Text) (s : State)
        → Ends {E = Text} (λ v s'. Answered target.collection_id v × P s') (λ e s'. P s') (r, s)
        → Good (with_cutoff w options mode now_secs target t r s)
    unfolding resume caught with_cutoff candidates
    with_cutoff-Good (err e) s p =
        failed_early-Good w options mode now_secs P laws keeps target t b none e s p
    with_cutoff-Good (ok none) s (a, p) =
        with_rows-Good w options mode now_secs P laws keeps target t b (pos 0) none
          (cutoff-converts target.collection_id none a) (ok []) s (tt, λ lt. absurd (omega arith)) p
    with_cutoff-Good (ok (some c)) s (a, p) =
        queried-Good c (query_wal_candidate_rows w target.collection_id c s) a
          (rows-Fetched target.collection_id c s p)

    Answered-Good :
        (r : Result (Option ℤ) Text × State)
        → Ends (λ v s'. Answered target.collection_id v × P s') (λ e s'. P s') r
        → Good (with_cutoff w options mode now_secs target t r.0 r.1)
    Answered-Good (r, s) h = with_cutoff-Good r s h

    -- A round keeps its promises on every path.
    pub prune_target-Good :
        (s : State) → P s → Good (prune_target w options mode now_secs target t s)
    unfolding resume caught prune_target
    prune_target-Good s p =
        Answered-Good (query_collection_safe_seq_cutoff w target.collection_id s)
          (cutoff-Answered target.collection_id s p)
