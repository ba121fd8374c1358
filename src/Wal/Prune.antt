-- ===== src/Wal/Prune.antt =====
-- `run_explicit_wal_prune` of shim/src/lib.rs: its types, and the loop over the targets.
-- SQLite, the log and the clock are the fields of `WalStore`; an error of theirs is its text.
use chroma_go_local.Base.{
  ℕ, ◌+◌, ◌<◌, min, Bool, true, false, not, ◌&&◌, ◌||◌, Option, none, some, List, [], ◌∷◌, ◌++◌,
  ltb, leb, ◌==◌, if◌then◌else◌, length, String, take, first, last, is_empty, is_some, Result, ok,
  err, ok_or, ok_else,
}
use chroma_go_local.Base.Actions.{Action, pure, fail, ◌>>=◌, ◌>>◌, lift, when, map_err, attempt}
use chroma_go_local.Base.Int.{ℤ, pos, negsuc, is_negative, i64_max, pos_part, ◌<ℤ◌, ltb_ℤ}
use chroma_go_local.Base.Text.{Text, text, show_int}
use chroma_go_local.Base.Words.{saturating_add, clamp_u64, u64_max}
use chroma_go_local.Wal.Policy.{WalPruneExecutionOptions}
use chroma_go_local.Wal.Prefix.{
  WalPruneCandidateRow, wal_candidate_total_bytes, wal_prune_prefix_count,
}
pub mod Target
pub mod Rows
pub mod Rounds
pub mod Targets
pub mod Loop

-- The calls that the shim makes of SQLite and of the log while it visits a target.
pub record WalStore : Type 1 where
  pub State : Type 0
  pub CollectionUuid : Type 0
  pub Row : Type 0
  pub show_uuid : CollectionUuid → Text
  -- `SELECT MIN(COALESCE(...)) AS min_seq`, and the decoding of its column.
  pub fetch_min_seq : CollectionUuid → Action State Text Row
  pub min_seq : Row → Result (Option ℤ) Text
  -- `SELECT seq_id, ... WHERE seq_id < ? ORDER BY seq_id ASC`, and the decoding of the columns.
  pub fetch_candidates : CollectionUuid → ℤ → Action State Text (List Row)
  pub seq_id_column : Row → Result ℤ Text
  pub created_at_column : Row → Result ℤ Text
  pub estimated_bytes_column : Row → Result ℤ Text
  -- `Log::purge_logs`: drops what the log holds for the collection below the bound.
  pub purge_logs : CollectionUuid → ℕ → Action State Text (Unit {0})

pub data WalPruneFailureMode : Type 0 where
  fail_fast continue_on_error : WalPruneFailureMode

pub record WalPruneTarget (Uuid : Type 0) : Type 0 where
  pub collection_id : Uuid
  pub name : Text
  pub tenant_id : Text
  pub database_name_raw : Text

pub record EmbeddedWalPruneCollectionResult : Type 0 where
  pub collection_id : Text
  pub name : Text
  pub tenant_id : Text
  pub database_name : Text
  pub safe_seq_cutoff : Option ℕ
  pub candidate_seq_min : Option ℕ
  pub candidate_seq_max : Option ℕ
  pub pruned_seq_min : Option ℕ
  pub pruned_seq_max : Option ℕ
  pub candidate_count : ℕ
  pub candidate_bytes : ℕ
  pub pruned_count : ℕ
  pub pruned_bytes : ℕ
  pub error : Option Text

-- The four running totals of the loop.
pub record Totals : Type 0 where
  pub candidate_count_total : ℕ
  pub candidate_bytes_total : ℕ
  pub pruned_count_total : ℕ
  pub pruned_bytes_total : ℕ

-- `u64::try_from` of an `i64`.
abbrev pub try_u64 {ℓ} : {E : Type ℓ} → ℤ → E → Result ℕ E
try_u64 (pos n) e = ok n
try_u64 (negsuc n) e = err e

unfoldable pub seq_opt_u64 : Option ℤ → String → Result (Option ℕ) Text
seq_opt_u64 none field = ok none
seq_opt_u64 (some (pos n)) field = ok (some n)
seq_opt_u64 (some (negsuc n)) field =
    err (text "negative sequence id for " ++ (text field ++ (text ": " ++ show_int (negsuc n))))

-- `row.seq_id` of an optional row.
abbrev pub seq_of : Option WalPruneCandidateRow → Option ℤ
seq_of none = none
seq_of (some row) = some row.seq_id

-- `candidate_rows.iter().find(|row| row.seq_id < 0)`
unfoldable pub find_negative : List WalPruneCandidateRow → Option WalPruneCandidateRow
find_negative [] = none
find_negative (row ∷ rows) = if is_negative row.seq_id then some row else find_negative rows

-- `checked_add(1)` on a `u64`.
unfoldable pub checked_suc : ℕ → Option ℕ
checked_suc n = if ltb n u64_max then some (n + 1) else none

-- A negative column counts as 0.
unfoldable pub clamp_bytes : ℤ → ℕ
clamp_bytes (pos n) = clamp_u64 n
clamp_bytes (negsuc n) = 0

-- A cutoff counts only if it is positive.
unfoldable pub positive_cutoff : Option ℤ → Option ℤ
positive_cutoff none = none
positive_cutoff (some v) = if ltb_ℤ (pos 0) v then some v else none

module _ (w : WalStore) where
  open w use {
    State, CollectionUuid, Row, show_uuid, fetch_min_seq, min_seq, fetch_candidates, seq_id_column,
    created_at_column, estimated_bytes_column, purge_logs,
  }

  unfoldable pub query_collection_safe_seq_cutoff : CollectionUuid → Action State Text (Option ℤ)
  query_collection_safe_seq_cutoff collection_id = do
    row ← map_err (λ e. text "failed to query safe seq cutoff: " ++ e) (fetch_min_seq collection_id)
    value ← map_err (λ e. text "failed to decode safe seq cutoff: " ++ e) (lift (min_seq row))
    pure (positive_cutoff value)

  unfoldable pub decode_row : Row → Action State Text WalPruneCandidateRow
  decode_row row = do
    seq_id ←
        map_err (λ e. text "failed to decode candidate seq_id: " ++ e) (lift (seq_id_column row))
    created ←
        map_err (λ e. text "failed to decode candidate created_at_secs: " ++ e)
          (lift (created_at_column row))
    bytes ←
        map_err (λ e. text "failed to decode candidate estimated_bytes: " ++ e)
          (lift (estimated_bytes_column row))
    pure
        (record { seq_id = seq_id; created_at_secs = created; estimated_bytes = clamp_bytes bytes })

  -- `collect` into a result stops at the first error.
  unfoldable pub decode_rows : List Row → Action State Text (List WalPruneCandidateRow)
  decode_rows [] = pure []
  decode_rows (row ∷ rows) = do r ← decode_row row; rs ← decode_rows rows; pure (r ∷ rs)

  unfoldable pub query_wal_candidate_rows :
      CollectionUuid → ℤ → Action State Text (List WalPruneCandidateRow)
  query_wal_candidate_rows collection_id safe_seq_cutoff =
      when (ltb_ℤ (pos 0) safe_seq_cutoff)
        (do
          rows ←
              map_err (λ e. text "failed to query wal candidates: " ++ e)
                (fetch_candidates collection_id safe_seq_cutoff)
          decode_rows rows)
        (pure [])
