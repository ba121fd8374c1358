-- ===== src/Wal/Policy/Validity.antt =====
-- What the two `validate` methods accept, stated without the order of their checks.
use chroma_go_local.Base.{ℕ, ◌≤◌, ◌<◌, ◌≡◌, ◌↔◌, ◌⊎◌, true, Option, none, some, arith, ok}
use chroma_go_local.Wal.Policy.{
  WalPrunePolicyPayload, WalPruneExecutionOptions, has_policy, validate_policy, validate_options,
}

abbrev pub Positive : Option ℕ → Type 0
Positive none = Unit {0}
Positive (some n) = 0 < n

abbrev pub Ordered : Option ℕ → Option ℕ → Type 0
Ordered none none = Unit {0}
Ordered none (some low) = ⊥
Ordered (some high) none = ⊥
Ordered (some high) (some low) = low ≤ high

abbrev pub Given : Option ℕ → Type 0
Given none = ⊥
Given (some n) = Unit {0}

pub record IsValidPolicy (p : WalPrunePolicyPayload) : Type 0 where
  pub positive_age : Positive p.max_age_seconds
  pub ordered : Ordered p.watermark_high_bytes p.watermark_low_bytes

-- Some limit is in force.
abbrev pub IsActive : WalPrunePolicyPayload → Type 0
IsActive p =
    Given p.max_age_seconds
    ⊎ Given p.max_bytes
    ⊎ (Given p.watermark_high_bytes × Given p.watermark_low_bytes)

pub has_policy_iff : (p : WalPrunePolicyPayload) → (has_policy p ≡ true) ↔ IsActive p
unfolding has_policy
has_policy_iff p = (λ e. ground arith, λ v. ground arith)

pub validate_policy_iff :
    (p : WalPrunePolicyPayload) → (validate_policy p ≡ ok tt) ↔ IsValidPolicy p
unfolding validate_policy
validate_policy_iff p = (λ e. ground arith, λ v. ground arith)

-- The options of a request are accepted exactly when the policy is well formed (a positive age,
-- both watermarks or none, low not above high) and the run is dry or some limit is in force.
pub validate_options_iff :
    (o : WalPruneExecutionOptions)
    → (validate_options o ≡ ok tt)
      ↔ (IsValidPolicy o.policies × ((o.dry_run ≡ true) ⊎ IsActive o.policies))
unfolding validate_options
validate_options_iff o = (
  λ e. ground (arith, validate_policy_iff o.policies, has_policy_iff o.policies),
  λ v. ground (arith, validate_policy_iff o.policies, has_policy_iff o.policies),
)
