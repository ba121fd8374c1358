-- ===== src/Rebuild/Retry.antt =====
-- `run_with_windows_fs_retry` of shim/src/lib.rs: a file operation is tried again, after longer and
-- longer delays, while its error is one that passes. Whether it is, `is_windows_retryable_fs_error`
-- decides by the platform and the code that the system gave.
use chroma_go_local.Base.{
  ℕ, suc, ◌+◌, ◌≤◌, ◌<◌, ◌≡◌, refl, inl, inr, Bool, true, false, ◌||◌, Option, none, some, List, [],
  ◌∷◌, length, arith, ◌==◌, if◌then◌else◌, Result, ok, err, Bool-cases,
}
use chroma_go_local.Base.Actions.{Action}
use chroma_go_local.Base.Text.{Text}

abbrev pub windows_fs_retry_delays_ms : List ℕ
windows_fs_retry_delays_ms = 10 ∷ 25 ∷ 50 ∷ 100 ∷ 200 ∷ 400 ∷ []

-- What the shim reads of a `std::io::Error`: the raw code, whether its kind is `PermissionDenied` or
-- `NotFound`, and its text.
pub record OsError : Type 0 where
  pub raw_os_error : Option ℕ
  pub permission_denied : Bool
  pub not_found : Bool
  pub shown : Text

unfoldable pub is_lock_code : Option ℕ → Bool
is_lock_code none = false
is_lock_code (some code) = code == 5 || (code == 32 || code == 33)

unfoldable pub is_windows_retryable_fs_error : Bool → OsError → Bool
is_windows_retryable_fs_error windows e =
    if windows then is_lock_code e.raw_os_error || e.permission_denied else false

-- What follows a try: success and a lasting error end the loop.
unfoldable pub retry_after :
    {S : Type 0}
    → Bool
    → (S → Result (Unit {0}) OsError × S)
    → Result (Unit {0}) OsError × S
    → Result (Unit {0}) OsError × S
retry_after windows again (ok done, s) = (ok done, s)
retry_after windows again (err e, s) = elim (is_windows_retryable_fs_error windows e) [
  | true ↦ again s
  | false ↦ (err e, s)
]

module _ {S : Type 0} (windows : Bool) (sleep : ℕ → S → S) (op : Action S OsError (Unit {0})) where
  -- The loop, over the delays that are left; with none left the last try counts.
  unfoldable pub retry_loop : List ℕ → Action S OsError (Unit {0})
  retry_loop [] s = op s
  retry_loop (d ∷ ds) s = retry_after windows (λ s'. retry_loop ds (sleep d s')) (op s)

  unfoldable pub run_with_windows_fs_retry : Action S OsError (Unit {0})
  run_with_windows_fs_retry = retry_loop windows_fs_retry_delays_ms

-- The tries are counted by a reading of the world that only `op` raises.
module _ {S : Type 0} (windows : Bool) (sleep : ℕ → S → S) (op : Action S OsError (Unit {0}))
    (tries : S → ℕ) (one_try : (s : S) → tries (op s).1 ≡ suc (tries s))
    (sleeps : (d : ℕ) (s : S) → tries (sleep d s) ≡ tries s) where
  -- From `n` tries with `k` delays left: at most `k + 1` more, and exactly so when an error that
  -- passes is reported.
  abbrev pub Counted : ℕ → ℕ → Result (Unit {0}) OsError × S → Type 0
  Counted n k (ok done, s) = (n < tries s) × (tries s ≤ n + suc k)
  Counted n k (err e, s) =
      (n < tries s)
      × (tries s ≤ n + suc k)
      × (is_windows_retryable_fs_error windows e ≡ true → tries s ≡ n + suc k)

  Counted-last : (n : ℕ) (r : Result (Unit {0}) OsError × S) → tries r.1 ≡ suc n → Counted n 0 r
  Counted-last n (ok done, s) h = omega arith
  Counted-last n (err e, s) h = (omega arith, omega arith, λ x. omega arith)

  Counted-next :
      (n k : ℕ) (r : Result (Unit {0}) OsError × S) → Counted (suc n) k r → Counted n (suc k) r
  Counted-next n k (ok done, s) h = omega arith
  Counted-next n k (err e, s) h =
      (omega (arith, h.0), omega (arith, h.1), λ x. omega (arith, h.2 x))

  after-Counted :
      (n k d : ℕ) (again : S → Result (Unit {0}) OsError × S) (r : Result (Unit {0}) OsError × S)
      → tries r.1 ≡ suc n
      → ((s : S) → tries s ≡ suc n → Counted (suc n) k (again s))
      → Counted n (suc k) (retry_after windows again r)
  unfolding retry_after
  after-Counted n k d again (ok done, s) h more = omega arith
  after-Counted n k d again (err e, s) h more =
      elim (Bool-cases (is_windows_retryable_fs_error windows e)) [
        | inl passes ↦ rw (passes, retry_after) (Counted-next n k (again s) (more s h))
        | inr lasts ↦
            rw (lasts, retry_after)
              (omega arith, omega arith, λ x. let bad : ⊥ = cc (lasts, x) in absurd bad)
      ]

  loop-Counted :
      (ds : List ℕ) (n : ℕ) (s : S)
      → tries s ≡ n
      → Counted n (length ds) (retry_loop windows sleep op ds s)
  unfolding retry_loop
  loop-Counted [] n s h = Counted-last n (op s) (omega (arith, one_try s))
  loop-Counted (d ∷ ds) n s h =
      after-Counted n (length ds) d _ (op s) (omega (arith, one_try s))
        λ s' h'. loop-Counted ds (suc n) (sleep d s') (omega (arith, sleeps d s'))

  -- The operation is tried at least once and at most seven times, and an error that might pass is
  -- reported after the seventh try only. The tries are counted by a reading of the world that
  -- each try raises by one and no sleep changes.
  pub retry_tries : (s : S) → Counted (tries s) 6 (run_with_windows_fs_retry windows sleep op s)
  unfolding run_with_windows_fs_retry
  retry_tries s = loop-Counted windows_fs_retry_delays_ms (tries s) s refl
