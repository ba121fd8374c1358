-- ===== src/Tests/Prefixes.antt =====
-- Policies and prefixes of shim/src/lib.rs on three rows.
use chroma_go_local.Base.{
  ℕ, ◌≤◌, ◌<◌, ◌≡◌, refl, ◌↔◌, ◌⊎◌, true, false, none, some, List, [], ◌∷◌, arith, ok,
}
use chroma_go_local.Base.Int.{pos}
use chroma_go_local.Wal.Policy.{
  WalPrunePolicyPayload, WalPruneExecutionOptions, validate_options, has_policy,
}
use chroma_go_local.Wal.Policy.Validity.{IsValidPolicy, IsActive, validate_options_iff}
use chroma_go_local.Wal.Prefix.{
  WalPruneCandidateRow, wal_prune_prefix_for_max_age, wal_prune_prefix_for_max_bytes,
  wal_prune_prefix_for_watermark, wal_prune_prefix_count,
}
use chroma_go_local.Wal.Prefix.Age.{IsOldPrefix, max_age-IsOldPrefix}
use chroma_go_local.Wal.Prefix.Bytes.{sum_bytes, IsLeast, max_bytes-IsLeast, watermark_hysteresis}
use chroma_go_local.Wal.Prefix.Count.{IsAllowed, prefix_count_iff}

abbrev row : ℕ → ℕ → WalPruneCandidateRow
row seq time = record { seq_id = pos seq; created_at_secs = pos time; estimated_bytes = 10 }

abbrev rows : List WalPruneCandidateRow
rows = row 1 100 ∷ row 2 200 ∷ row 3 300 ∷ []

abbrev policies : WalPrunePolicyPayload
policies = record {
  max_age_seconds = some 50;
  max_bytes = some 15;
  watermark_high_bytes = none;
  watermark_low_bytes = none;
}

abbrev options : WalPruneExecutionOptions
options = record { dry_run = false; vacuum = false; policies = policies }

sum_bytes_example : sum_bytes rows ≤ 18446744073709551615
unfolding sum_bytes
sum_bytes_example = omega arith

max_bytes-IsLeast_example : IsLeast 15 rows (wal_prune_prefix_for_max_bytes rows 15)
max_bytes-IsLeast_example = max_bytes-IsLeast rows sum_bytes_example 15

watermark_hysteresis_example :
    (sum_bytes rows ≤ 25 → wal_prune_prefix_for_watermark rows 25 10 ≡ 0)
    × (25 < sum_bytes rows → IsLeast 10 rows (wal_prune_prefix_for_watermark rows 25 10))
watermark_hysteresis_example = watermark_hysteresis rows sum_bytes_example 25 10 (omega arith)

max_age-IsOldPrefix_example :
    IsOldPrefix 50 (pos 270) rows (wal_prune_prefix_for_max_age rows 50 (pos 270))
max_age-IsOldPrefix_example = max_age-IsOldPrefix 50 (pos 270) rows (omega arith)

has_policy_example : has_policy policies ≡ true
unfolding has_policy
has_policy_example = refl

prefix_count_iff_example :
    (2 ≤ wal_prune_prefix_count rows policies (pos 270)) ↔ IsAllowed rows (pos 270) 2 policies
prefix_count_iff_example = prefix_count_iff rows policies (pos 270) 2 has_policy_example

validate_options_iff_example :
    (validate_options options ≡ ok tt)
    ↔ (IsValidPolicy options.policies × ((options.dry_run ≡ true) ⊎ IsActive options.policies))
validate_options_iff_example = validate_options_iff options
