-- ===== src/Wal/Prefix/Bytes.antt =====
-- The byte policies: how many bytes stay after the prune, and that no smaller prune is enough.
use chroma_go_local.Base.{
  ℕ, zero, suc, ◌+◌, ◌-◌, ◌≤◌, ◌<◌, min, ◌≡◌, refl, List, [], ◌∷◌, arith, length, drop, Bool-cases,
  leb, false, leb→le, leb-gt, inl, inr, subst,
}
use chroma_go_local.Base.Words.{saturating_add, saturating_add-eq-add, u64_max}
use chroma_go_local.Wal.Prefix.{
  WalPruneCandidateRow, bytes_from, wal_candidate_total_bytes, bytes_loop,
  wal_prune_prefix_for_max_bytes, wal_prune_prefix_for_watermark,
}

-- The bytes of the rows, with no end of the range.
unfoldable pub sum_bytes : List WalPruneCandidateRow → ℕ
sum_bytes [] = 0
sum_bytes (row ∷ rows) = row.estimated_bytes + sum_bytes rows

bytes_from-eq-min :
    (acc : ℕ) (rows : List WalPruneCandidateRow)
    → acc ≤ u64_max
    → bytes_from acc rows ≡ min (acc + sum_bytes rows) u64_max
unfolding bytes_from sum_bytes saturating_add
bytes_from-eq-min acc [] h = omega arith
bytes_from-eq-min acc (row ∷ rows) h =
    omega (arith, bytes_from-eq-min (min (acc + row.estimated_bytes) u64_max) rows (omega arith))

pub total_bytes-eq-min :
    (rows : List WalPruneCandidateRow)
    → wal_candidate_total_bytes rows ≡ min (sum_bytes rows) u64_max
unfolding wal_candidate_total_bytes
total_bytes-eq-min rows = omega (arith, bytes_from-eq-min 0 rows (omega arith))

-- A prefix of `k` rows is the shortest that leaves at most `limit` bytes.
pub record IsLeast (limit : ℕ) (rows : List WalPruneCandidateRow) (k : ℕ) : Type 0 where
  pub within : k ≤ length rows
  pub fits : sum_bytes (drop k rows) ≤ limit
  pub needed : (j : ℕ) → j < k → limit < sum_bytes (drop j rows)

IsLeast-cons :
    (limit k : ℕ) (row : WalPruneCandidateRow) (rows : List WalPruneCandidateRow)
    → limit < sum_bytes (row ∷ rows)
    → IsLeast limit rows k
    → IsLeast limit (row ∷ rows) (suc k)
IsLeast-cons limit k row rows h v = record {
  within = omega (arith, v.within);
  fits = v.fits;
  needed = needed;
}
  where
    needed : (j : ℕ) → j < suc k → limit < sum_bytes (drop j (row ∷ rows))
    needed zero lt = h
    needed (suc j) lt = v.needed j (omega arith)

IsLeast-one :
    (limit : ℕ) (row : WalPruneCandidateRow) (rows : List WalPruneCandidateRow)
    → limit < sum_bytes (row ∷ rows)
    → sum_bytes rows ≤ limit
    → IsLeast limit (row ∷ rows) 1
IsLeast-one limit row rows h fits = record { within = omega arith; fits = fits; needed = needed }
  where
    needed : (j : ℕ) → j < 1 → limit < sum_bytes (drop j (row ∷ rows))
    needed zero lt = h
    needed (suc j) lt = absurd (omega arith)

bytes_loop-IsLeast :
    (total limit removed prefix : ℕ) (rows : List WalPruneCandidateRow)
    → total ≡ removed + sum_bytes rows
    → total ≤ u64_max
    → limit < sum_bytes rows
    → (k : ℕ) × (bytes_loop total limit removed prefix rows ≡ prefix + k) × IsLeast limit rows k
unfolding bytes_loop sum_bytes
bytes_loop-IsLeast total limit removed prefix [] e small more = absurd (omega arith)
bytes_loop-IsLeast total limit removed prefix (row ∷ rows) e small more =
    let removed' = removed + row.estimated_bytes in
    rw (saturating_add-eq-add removed row.estimated_bytes (omega arith))
      (elim (Bool-cases (leb (total - removed') limit)) [
        | inl stop ↦ (
          1,
          rw stop refl,
          IsLeast-one limit row rows more (omega (arith, leb→le (total - removed') limit stop)),
        )
        | inr go ↦
            let (k, same, least) =
              bytes_loop-IsLeast total limit removed' (prefix + 1) rows (omega arith) small
                (omega (arith, leb-gt (total - removed') limit go)) in
            (suc k, rw go (omega (arith, same)), IsLeast-cons limit k row rows more least)
      ])

total_bytes-eq-sum :
    (rows : List WalPruneCandidateRow)
    → sum_bytes rows ≤ u64_max
    → wal_candidate_total_bytes rows ≡ sum_bytes rows
total_bytes-eq-sum rows small = omega (arith, total_bytes-eq-min rows)

module _ (rows : List WalPruneCandidateRow) (small : sum_bytes rows ≤ u64_max) where
  loop-IsLeast :
      (limit : ℕ)
      → limit < sum_bytes rows
      → IsLeast limit rows (bytes_loop (sum_bytes rows) limit 0 0 rows)
  loop-IsLeast limit h =
      let (k, same, least) =
        bytes_loop-IsLeast (sum_bytes rows) limit 0 0 rows (omega arith) small h in
      subst (IsLeast limit rows) (omega (arith, same)) least

  -- A prune by `max_bytes` takes the shortest prefix whose removal leaves at most `max_bytes`
  -- bytes (none at all when the rows fit already), if the rows' bytes fit in a `u64`.
  pub max_bytes-IsLeast :
      (max_bytes : ℕ) → IsLeast max_bytes rows (wal_prune_prefix_for_max_bytes rows max_bytes)
  unfolding wal_prune_prefix_for_max_bytes
  max_bytes-IsLeast max_bytes =
      rw (total_bytes-eq-sum rows small) (elim (Bool-cases (leb (sum_bytes rows) max_bytes)) [
        | inl fit ↦ rw fit (record {
          within = omega arith;
          fits = leb→le (sum_bytes rows) max_bytes fit;
          needed = λ j lt. absurd (omega arith);
        })
        | inr over ↦ rw over (loop-IsLeast max_bytes (leb-gt (sum_bytes rows) max_bytes over))
      ])

  -- A prune by watermark takes nothing up to the high mark. Above it, it takes the shortest
  -- prefix whose removal leaves at most the low mark. The rows' bytes fit in a `u64` and the
  -- low mark is not above the high one.
  pub watermark_hysteresis :
      (high low : ℕ)
      → low ≤ high
      → (sum_bytes rows ≤ high → wal_prune_prefix_for_watermark rows high low ≡ 0)
        × (high < sum_bytes rows → IsLeast low rows (wal_prune_prefix_for_watermark rows high low))
  unfolding wal_prune_prefix_for_watermark
  watermark_hysteresis high low order = rw (total_bytes-eq-sum rows small) (
    λ h. ground arith,
    λ h.
        let over : leb (sum_bytes rows) high ≡ false = ground arith in
        rw over (loop-IsLeast low (omega arith)),
  )
