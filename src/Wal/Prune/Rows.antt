-- ===== src/Wal/Prune/Rows.antt =====
-- Facts about the rows of a round: those that pass the checks have sequence ids that convert.
use chroma_go_local.Base.{
  ℕ, zero, suc, ◌+◌, ◌≤◌, ◌<◌, min, ◌≡◌, refl, false, Option, none, some, List, [], ◌∷◌, length,
  take, first, last, All, arith, ok, String, inl, inr, Bool-cases,
}
use chroma_go_local.Base.Int.{ℤ, pos, negsuc, is_negative, IsI64, ◌<ℤ◌, ◌≤ℤ◌}
use chroma_go_local.Base.Words.{u64_max, saturating_add}
use chroma_go_local.Wal.Prefix.{WalPruneCandidateRow, bytes_from, wal_candidate_total_bytes}
use chroma_go_local.Wal.Prune.{seq_of, seq_opt_u64, find_negative, checked_suc}
use chroma_go_local.Wal.Prune.Target.{purge_bound, bound_of_seq}

-- What the query promises of a row: its id is an `i64` below the cutoff.
abbrev pub Fetched : ℤ → WalPruneCandidateRow → Type 0
Fetched cutoff row = IsI64 row.seq_id × (row.seq_id <ℤ cutoff)

-- The same for an id that is known not to be negative.
abbrev pub Usable : ℤ → WalPruneCandidateRow → Type 0
Usable cutoff row = IsI64 row.seq_id × (row.seq_id <ℤ cutoff) × (is_negative row.seq_id ≡ false)

abbrev pub OnSome {ℓ κ} : {A : Type ℓ} → (A → Type κ) → Option A → Type κ
OnSome P none = Unit
OnSome P (some a) = P a

module _ {ℓ κ} {A : Type ℓ} (P : A → Type κ) where
  pub first-OnSome : (xs : List A) → All P xs → OnSome P (first xs)
  first-OnSome [] h = tt
  first-OnSome (x ∷ xs) h = h.0

  pub last-OnSome : (xs : List A) → All P xs → OnSome P (last xs)
  last-OnSome [] h = tt
  last-OnSome (x ∷ []) h = h.0
  last-OnSome (x ∷ y ∷ xs) h = last-OnSome (y ∷ xs) h.1

  pub last-nonempty : (xs : List A) → All P xs → 0 < length xs → (x : A) × (last xs ≡ some x) × P x
  last-nonempty [] h lt = absurd (omega arith)
  last-nonempty (x ∷ []) h lt = (x, refl, h.0)
  last-nonempty (x ∷ y ∷ xs) h lt = last-nonempty (y ∷ xs) h.1 (omega arith)

pub find_negative-Usable :
    (cutoff : ℤ) (rows : List WalPruneCandidateRow)
    → All (Fetched cutoff) rows
    → find_negative rows ≡ none
    → All (Usable cutoff) rows
unfolding find_negative
find_negative-Usable cutoff [] h e = tt
find_negative-Usable cutoff (row ∷ rows) h e = elim (Bool-cases (is_negative row.seq_id)) [
  | inl neg ↦ absurd (ground arith)
  | inr ok_ ↦ ((h.0.0, h.0.1, ok_), find_negative-Usable cutoff rows h.1 (ground arith))
]

seq_opt_u64-some :
    (z : ℤ) (field : String)
    → is_negative z ≡ false
    → (v : Option ℕ) × (seq_opt_u64 (some z) field ≡ ok v)
unfolding seq_opt_u64
seq_opt_u64-some (pos n) field h = (some n, refl)
seq_opt_u64-some (negsuc n) field h = absurd (ground arith)

pub seq_opt_u64-Usable :
    (cutoff : ℤ) (o : Option WalPruneCandidateRow) (field : String)
    → OnSome (Usable cutoff) o
    → (v : Option ℕ) × (seq_opt_u64 (seq_of o) field ≡ ok v)
unfolding seq_opt_u64
seq_opt_u64-Usable cutoff none field h = (none, refl)
seq_opt_u64-Usable cutoff (some row) field h = seq_opt_u64-some row.seq_id field h.2

pub bytes_from-le :
    (acc : ℕ) (rows : List WalPruneCandidateRow) → acc ≤ u64_max → acc ≤ bytes_from acc rows
unfolding bytes_from saturating_add
bytes_from-le acc [] h = omega arith
bytes_from-le acc (row ∷ rows) h =
    omega (arith, bytes_from-le (min (acc + row.estimated_bytes) u64_max) rows (omega arith))

bytes_from-take :
    (acc k : ℕ) (rows : List WalPruneCandidateRow)
    → acc ≤ u64_max
    → bytes_from acc (take k rows) ≤ bytes_from acc rows
unfolding bytes_from saturating_add
bytes_from-take acc zero rows h = bytes_from-le acc rows h
bytes_from-take acc (suc k) [] h = omega arith
bytes_from-take acc (suc k) (row ∷ rows) h =
    bytes_from-take (min (acc + row.estimated_bytes) u64_max) k rows (omega arith)

pub total_bytes-take-le :
    (k : ℕ) (rows : List WalPruneCandidateRow)
    → wal_candidate_total_bytes (take k rows) ≤ wal_candidate_total_bytes rows
unfolding wal_candidate_total_bytes
total_bytes-take-le k rows = bytes_from-take 0 k rows (omega arith)

bound_of_seq-le :
    (cutoff z : ℤ)
    → IsI64 z
    → z <ℤ cutoff
    → is_negative z ≡ false
    → (n : ℕ) × (bound_of_seq z ≡ ok n) × (pos n ≤ℤ cutoff)
unfolding bound_of_seq checked_suc
bound_of_seq-le cutoff (pos n) small below h = (n + 1, ground arith, omega arith)
bound_of_seq-le cutoff (negsuc n) small below h = absurd (ground arith)

-- The bound of a purge exists and is not above the cutoff.
pub purge_bound-le :
    (cutoff : ℤ) (selected : List WalPruneCandidateRow)
    → All (Usable cutoff) selected
    → 0 < length selected
    → (n : ℕ) × (purge_bound selected ≡ ok n) × (pos n ≤ℤ cutoff)
unfolding purge_bound
purge_bound-le cutoff selected h some_rows =
    let (row, same, usable) = last-nonempty (Usable cutoff) selected h some_rows in
    rw (same, purge_bound) (bound_of_seq-le cutoff row.seq_id usable.0 usable.1 usable.2)
