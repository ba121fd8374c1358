-- ===== src/Ffi/Status.antt =====
-- The endpoints of shim/src/lib.rs without a request: heartbeat, batch size, health and reset. A
-- write through an out-pointer is part of the result.
use chroma_go_local.Base.{ℕ, suc, ◌%◌, Bool, Option, none, some, Result}
use chroma_go_local.Base.Int.{ℤ}
use chroma_go_local.Base.Text.{Text, text}
use chroma_go_local.Base.Words.{u64_max}
use chroma_go_local.Ffi.Boundary.{
  World, ◌>>=◌, ◌>>◌, pure, check_not_null, with_ffi_panic_boundary, success, error_invalid_handle,
  error_null_input, error_operation_failed,
}
use chroma_go_local.Ffi.Embedded.{
  Call, codes, nulls, lock_poisoned, lock_frontend, block_on, plain_body, serialize,
}

-- The code, and the value that was written if one was.
abbrev pub Written : Type 0
Written = ℤ × Option ℕ

module _ {S : Type 0} where
  -- The nanoseconds are a wider integer, cut to `u64`.
  unfoldable pub chroma_embedded_heartbeat : Call S ℕ → Bool → Bool → World S → Written × World S
  chroma_embedded_heartbeat heartbeat is_null out_is_null =
      with_ffi_panic_boundary (error_operation_failed, none)
        (do
          check_not_null is_null (text "handle is null") (error_invalid_handle, none)
          check_not_null out_is_null (text "out_heartbeat is null") (error_null_input, none)
          lock_frontend lock_poisoned (error_operation_failed, none)
          nanoseconds ←
              block_on (text "heartbeat failed: ") (error_operation_failed, none) heartbeat
          pure (success, some (nanoseconds % suc u64_max)))

  -- A call that cannot fail, though it may panic: `get_max_batch_size` and `healthcheck`.
  unfoldable pub chroma_embedded_get_max_batch_size :
      Call S ℕ → Bool → Bool → World S → Written × World S
  chroma_embedded_get_max_batch_size get_max_batch_size is_null out_is_null =
      with_ffi_panic_boundary (error_operation_failed, none)
        (do
          check_not_null is_null (text "handle is null") (error_invalid_handle, none)
          check_not_null out_is_null (text "out_max_batch_size is null") (error_null_input, none)
          lock_frontend lock_poisoned (error_operation_failed, none)
          size ← block_on (text "") (error_operation_failed, none) get_max_batch_size
          pure (success, some size))

  unfoldable pub chroma_embedded_healthcheck :
      {A : Type 0} → Call S A → (A → Result Text Text) → Bool → World S → Option Text × World S
  chroma_embedded_healthcheck healthcheck to_string is_null =
      with_ffi_panic_boundary none (
        plain_body nulls (text "") healthcheck (λ response. serialize (to_string response)) is_null)

  unfoldable pub chroma_embedded_reset : {A : Type 0} → Call S A → Bool → World S → ℤ × World S
  chroma_embedded_reset reset is_null =
      with_ffi_panic_boundary error_operation_failed
        (plain_body codes (text "reset failed: ") reset (λ _. pure success) is_null)
