-- ===== src/Wal/Policy.antt =====
-- The prune policies of a request and their validation: `WalPrunePolicyPayload` and
-- `WalPruneExecutionOptions` of shim/src/lib.rs.
pub mod Validity
use chroma_go_local.Base.Text.{Text, text}
use chroma_go_local.Base.{
  ℕ, ◌≤◌, ◌<◌, ◌≡◌, refl, ◌↔◌, ◌⊎◌, inl, inr, Bool, true, false, not, ◌&&◌, ◌||◌, Option, none,
  some, arith, ltb, ◌==◌, if◌then◌else◌, is_some, Result, ok, err, ◌>>=◌, ◌>>◌, guard,
}

pub record WalPrunePolicyPayload : Type 0 where
  pub max_age_seconds : Option ℕ
  pub max_bytes : Option ℕ
  pub watermark_high_bytes : Option ℕ
  pub watermark_low_bytes : Option ℕ

-- One constructor for each message of the two `validate` methods.
pub data PolicyError : Type 0 where
  max_age_not_positive watermark_incomplete watermark_order policy_required : PolicyError

unfoldable pub has_policy : WalPrunePolicyPayload → Bool
has_policy p =
    is_some p.max_age_seconds
    || is_some p.max_bytes
    || (is_some p.watermark_high_bytes && is_some p.watermark_low_bytes)

check_max_age : Option ℕ → Result (Unit {0}) PolicyError
check_max_age none = ok tt
check_max_age (some max_age_seconds) =
    if max_age_seconds == 0 then err max_age_not_positive else ok tt

xor_some : Option ℕ → Option ℕ → Bool
xor_some none none = false
xor_some none (some l) = true
xor_some (some h) none = true
xor_some (some h) (some l) = false

check_order : Option ℕ → Option ℕ → Result (Unit {0}) PolicyError
check_order (some high) (some low) = if ltb high low then err watermark_order else ok tt
check_order _ _ = ok tt

unfoldable pub validate_policy : WalPrunePolicyPayload → Result (Unit {0}) PolicyError
unfolding check_max_age xor_some check_order
validate_policy p = do
  check_max_age p.max_age_seconds
  guard (not (xor_some p.watermark_high_bytes p.watermark_low_bytes)) watermark_incomplete
  check_order p.watermark_high_bytes p.watermark_low_bytes

pub record WalPruneExecutionOptions : Type 0 where
  pub dry_run : Bool
  pub vacuum : Bool
  pub policies : WalPrunePolicyPayload

unfoldable pub validate_options : WalPruneExecutionOptions → Result (Unit {0}) PolicyError
validate_options o = do
  validate_policy o.policies
  guard (o.dry_run || has_policy o.policies) policy_required

-- The text that the caller gets.
unfoldable pub policy_message : PolicyError → Text
policy_message max_age_not_positive = text "max_age_seconds must be greater than 0"
policy_message watermark_incomplete = text "wal prune watermark requires both high and low bytes"
policy_message watermark_order =
    text "wal prune watermark low bytes must be less than or equal to high bytes"
policy_message policy_required =
    text "at least one WAL prune policy is required unless dry-run is enabled"
