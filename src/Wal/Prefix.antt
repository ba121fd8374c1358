-- ===== src/Wal/Prefix.antt =====
-- How many of the candidate rows a prune takes: the `wal_prune_prefix_...` functions of
-- shim/src/lib.rs. Rows come oldest first; every policy takes a prefix of them.
use chroma_go_local.Base.{
  ℕ, ◌+◌, ◌-◌, min, Bool, not, ◌||◌, Option, none, some, List, [], ◌∷◌, leb, if◌then◌else◌, length,
  is_empty,
}
use chroma_go_local.Base.Int.{ℤ, ltb_ℤ, i64_max, saturating_sub_i64}
use chroma_go_local.Base.Words.{saturating_add}
use chroma_go_local.Wal.Policy.{WalPrunePolicyPayload, has_policy}
pub mod Age
pub mod Bytes
pub mod Count

pub record WalPruneCandidateRow : Type 0 where
  pub seq_id : ℤ
  pub created_at_secs : ℤ
  pub estimated_bytes : ℕ

-- The fold of `wal_candidate_total_bytes`.
unfoldable pub bytes_from : ℕ → List WalPruneCandidateRow → ℕ
bytes_from acc [] = acc
bytes_from acc (row ∷ rows) = bytes_from (saturating_add acc row.estimated_bytes) rows

unfoldable pub wal_candidate_total_bytes : List WalPruneCandidateRow → ℕ
wal_candidate_total_bytes rows = bytes_from 0 rows

-- The loop of `wal_prune_prefix_for_max_age`.
unfoldable pub age_loop : ℤ → ℕ → List WalPruneCandidateRow → ℕ
age_loop cutoff prefix [] = prefix
age_loop cutoff prefix (row ∷ rows) =
    if ltb_ℤ row.created_at_secs cutoff then age_loop cutoff (prefix + 1) rows else prefix

-- Rows created before this instant are too old.
unfoldable pub age_cutoff : ℕ → ℤ → ℤ
age_cutoff max_age_seconds now_secs = saturating_sub_i64 now_secs (min max_age_seconds i64_max)

unfoldable pub wal_prune_prefix_for_max_age : List WalPruneCandidateRow → ℕ → ℤ → ℕ
wal_prune_prefix_for_max_age rows max_age_seconds now_secs =
    age_loop (age_cutoff max_age_seconds now_secs) 0 rows

-- The loop that the two byte policies share: rows are taken until what is left fits in `limit`.
unfoldable pub bytes_loop : ℕ → ℕ → ℕ → ℕ → List WalPruneCandidateRow → ℕ
bytes_loop total limit removed prefix [] = prefix
bytes_loop total limit removed prefix (row ∷ rows) =
    let removed' = saturating_add removed row.estimated_bytes in
    let rest = bytes_loop total limit removed' (prefix + 1) rows in
    if leb (total - removed') limit then prefix + 1 else rest

unfoldable pub wal_prune_prefix_for_max_bytes : List WalPruneCandidateRow → ℕ → ℕ
wal_prune_prefix_for_max_bytes rows max_bytes =
    let total_bytes = wal_candidate_total_bytes rows in
    if leb total_bytes max_bytes then 0 else bytes_loop total_bytes max_bytes 0 0 rows

unfoldable pub wal_prune_prefix_for_watermark : List WalPruneCandidateRow → ℕ → ℕ → ℕ
wal_prune_prefix_for_watermark rows high_bytes low_bytes =
    let total_bytes = wal_candidate_total_bytes rows in
    if leb total_bytes high_bytes then 0 else bytes_loop total_bytes low_bytes 0 0 rows

limit_by_age : List WalPruneCandidateRow → Option ℕ → ℤ → ℕ → ℕ
limit_by_age rows none now_secs prefix = prefix
limit_by_age rows (some age) now_secs prefix =
    min prefix (wal_prune_prefix_for_max_age rows age now_secs)

limit_by_bytes : List WalPruneCandidateRow → Option ℕ → ℕ → ℕ
limit_by_bytes rows none prefix = prefix
limit_by_bytes rows (some max_bytes) prefix =
    min prefix (wal_prune_prefix_for_max_bytes rows max_bytes)

limit_by_watermark : List WalPruneCandidateRow → Option ℕ → Option ℕ → ℕ → ℕ
limit_by_watermark rows (some high) (some low) prefix =
    min prefix (wal_prune_prefix_for_watermark rows high low)
limit_by_watermark rows (some high) none prefix = prefix
limit_by_watermark rows none low prefix = prefix

unfoldable pub wal_prune_prefix_count : List WalPruneCandidateRow → WalPrunePolicyPayload → ℤ → ℕ
unfolding limit_by_age limit_by_bytes limit_by_watermark
wal_prune_prefix_count rows policies now_secs =
    if is_empty rows || not (has_policy policies)
    then 0
    else limit_by_watermark rows policies.watermark_high_bytes policies.watermark_low_bytes (
        limit_by_bytes rows policies.max_bytes
          (limit_by_age rows policies.max_age_seconds now_secs (length rows)))
