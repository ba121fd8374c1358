-- ===== src/Wal/Prefix/Count.antt =====
-- Several policies together: a row goes only if every policy in force lets it go.
use chroma_go_local.Base.{
  ℕ, ◌≤◌, ◌≡◌, ◌↔◌, true, false, Option, none, some, List, [], ◌∷◌, arith, length,
}
use chroma_go_local.Base.Int.{ℤ}
use chroma_go_local.Wal.Policy.{WalPrunePolicyPayload, has_policy}
use chroma_go_local.Wal.Prefix.{
  WalPruneCandidateRow, wal_prune_prefix_for_max_age, wal_prune_prefix_for_max_bytes,
  wal_prune_prefix_for_watermark, wal_prune_prefix_count,
}

module _ (rows : List WalPruneCandidateRow) (now_secs : ℤ) (n : ℕ) where
  -- The policy, if it is in force, lets the first `n` rows go.
  abbrev pub AllowsAge : Option ℕ → Type 0
  AllowsAge none = Unit {0}
  AllowsAge (some age) = n ≤ wal_prune_prefix_for_max_age rows age now_secs

  abbrev pub AllowsBytes : Option ℕ → Type 0
  AllowsBytes none = Unit {0}
  AllowsBytes (some max_bytes) = n ≤ wal_prune_prefix_for_max_bytes rows max_bytes

  abbrev pub AllowsWatermark : Option ℕ → Option ℕ → Type 0
  AllowsWatermark (some high) (some low) = n ≤ wal_prune_prefix_for_watermark rows high low
  AllowsWatermark (some high) none = Unit {0}
  AllowsWatermark none low = Unit {0}

  pub record IsAllowed (p : WalPrunePolicyPayload) : Type 0 where
    pub within : n ≤ length rows
    pub by_age : AllowsAge p.max_age_seconds
    pub by_bytes : AllowsBytes p.max_bytes
    pub by_watermark : AllowsWatermark p.watermark_high_bytes p.watermark_low_bytes

-- With a policy in force the prefix is the longest one that every policy in force allows.
pub prefix_count_iff :
    (rows : List WalPruneCandidateRow) (p : WalPrunePolicyPayload) (now_secs : ℤ) (n : ℕ)
    → has_policy p ≡ true
    → (n ≤ wal_prune_prefix_count rows p now_secs) ↔ IsAllowed rows now_secs n p
unfolding wal_prune_prefix_count
prefix_count_iff [] p now_secs n h = (λ e. ground arith, λ v. ground arith)
prefix_count_iff (row ∷ rows) p now_secs n h = (λ e. ground arith, λ v. ground arith)

pub prefix_count-no_policy :
    (rows : List WalPruneCandidateRow) (p : WalPrunePolicyPayload) (now_secs : ℤ)
    → has_policy p ≡ false
    → wal_prune_prefix_count rows p now_secs ≡ 0
unfolding wal_prune_prefix_count
prefix_count-no_policy rows p now_secs h = ground arith

pub prefix_count-le :
    (rows : List WalPruneCandidateRow) (p : WalPrunePolicyPayload) (now_secs : ℤ)
    → wal_prune_prefix_count rows p now_secs ≤ length rows
unfolding wal_prune_prefix_count
prefix_count-le rows p now_secs = ground arith
