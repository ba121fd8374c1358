-- ===== src/Wal/Prefix/Age.antt =====
-- The age policy: exactly the leading rows that are older than the cutoff.
use chroma_go_local.Base.{
  ℕ, suc, ◌+◌, ◌≤◌, ◌≡◌, List, [], ◌∷◌, arith, length, drop, take, All, Bool-cases, inl, inr, subst,
  min, All-take, All-drop,
}
use chroma_go_local.Base.Int.{ℤ, ◌<ℤ◌, ltb_ℤ, IsI64, i64_max, add_ℕ, saturating_sub_i64_lem}
use chroma_go_local.Wal.Prefix.{
  WalPruneCandidateRow, age_loop, age_cutoff, wal_prune_prefix_for_max_age,
}

-- The first row, if there is one, is at the cutoff or after it.
abbrev Young : ℤ → List WalPruneCandidateRow → Type 0
Young cutoff [] = Unit {0}
Young cutoff (row ∷ rows) = ¬ (row.created_at_secs <ℤ cutoff)

record IsCutPrefix (cutoff : ℤ) (rows : List WalPruneCandidateRow) (k : ℕ) : Type 0 where
  within : k ≤ length rows
  old : All (λ row. row.created_at_secs <ℤ cutoff) (take k rows)
  maximal : Young cutoff (drop k rows)

age_loop-IsCutPrefix :
    (cutoff : ℤ) (prefix : ℕ) (rows : List WalPruneCandidateRow)
    → (k : ℕ) × (age_loop cutoff prefix rows ≡ prefix + k) × IsCutPrefix cutoff rows k
unfolding age_loop
age_loop-IsCutPrefix cutoff prefix [] =
    (0, omega arith, record { within = omega arith; old = tt; maximal = tt })
age_loop-IsCutPrefix cutoff prefix (row ∷ rows) =
    elim (Bool-cases (ltb_ℤ row.created_at_secs cutoff)) [
      | inl old ↦
          let (k, same, v) = age_loop-IsCutPrefix cutoff (prefix + 1) rows in
          (
            suc k,
            rw old (omega (arith, same)),
            record {
              within = omega (arith, v.within);
              old = (ground arith, v.old);
              maximal = v.maximal;
            },
          )
      | inr young ↦ (
        0,
        rw young (omega arith),
        record { within = omega arith; old = tt; maximal = λ h. ground arith },
      )
    ]

-- A row that is older than the age: its creation and the age are before `now` together. An age
-- above the range of `i64` counts as its end.
abbrev pub IsOld : ℕ → ℤ → WalPruneCandidateRow → Type 0
IsOld max_age_seconds now_secs row =
    add_ℕ row.created_at_secs (min max_age_seconds i64_max) <ℤ now_secs

-- The first row, if there is one, is not.
abbrev pub StartsYoung : ℕ → ℤ → List WalPruneCandidateRow → Type 0
StartsYoung max_age_seconds now_secs [] = Unit {0}
StartsYoung max_age_seconds now_secs (row ∷ rows) = ¬ (IsOld max_age_seconds now_secs row)

-- The longest prefix of old rows.
pub record IsOldPrefix (max_age_seconds : ℕ) (now_secs : ℤ) (rows : List WalPruneCandidateRow)
    (k : ℕ) : Type 0 where
  pub within : k ≤ length rows
  pub old : All (IsOld max_age_seconds now_secs) (take k rows)
  pub maximal : StartsYoung max_age_seconds now_secs (drop k rows)

abbrev pub IsStored : WalPruneCandidateRow → Type 0
IsStored row = IsI64 row.created_at_secs

module _ (max_age_seconds : ℕ) (now_secs : ℤ) where
  All-IsOld :
      (rows : List WalPruneCandidateRow)
      → All IsStored rows
      → All (λ row. row.created_at_secs <ℤ age_cutoff max_age_seconds now_secs) rows
      → All (IsOld max_age_seconds now_secs) rows
  unfolding age_cutoff
  All-IsOld [] stored h = tt
  All-IsOld (row ∷ rows) stored h = (
    (saturating_sub_i64_lem now_secs row.created_at_secs _ stored.0).0 h.0,
    All-IsOld rows stored.1 h.1,
  )

  Young-StartsYoung :
      (rows : List WalPruneCandidateRow)
      → All IsStored rows
      → Young (age_cutoff max_age_seconds now_secs) rows
      → StartsYoung max_age_seconds now_secs rows
  unfolding age_cutoff
  Young-StartsYoung [] stored h = tt
  Young-StartsYoung (row ∷ rows) stored h =
      λ old. h ((saturating_sub_i64_lem now_secs row.created_at_secs _ stored.0).1 old)

  -- A prune by age takes the longest prefix of rows that are older than the age: the sum of their
  -- creation and the age, with no bound, is before `now`. The creation of a row is an `i64`, and
  -- an age above the range of `i64` counts as its end.
  pub max_age-IsOldPrefix :
      (rows : List WalPruneCandidateRow)
      → All IsStored rows
      → IsOldPrefix max_age_seconds now_secs rows
          (wal_prune_prefix_for_max_age rows max_age_seconds now_secs)
  unfolding wal_prune_prefix_for_max_age
  max_age-IsOldPrefix rows stored =
      let (k, same, v) = age_loop-IsCutPrefix (age_cutoff max_age_seconds now_secs) 0 rows in
      subst (IsOldPrefix max_age_seconds now_secs rows) (omega (arith, same)) (record {
        within = v.within;
        old = All-IsOld (take k rows) (All-take IsStored k rows stored) v.old;
        maximal = Young-StartsYoung (drop k rows) (All-drop IsStored k rows stored) v.maximal;
      })
