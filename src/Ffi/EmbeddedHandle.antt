-- ===== src/Ffi/EmbeddedHandle.antt =====
-- The start of embedded mode in shim/src/lib.rs, the reader of its handle, and the readers of the library's
-- last error. The handle's mutex and frontend are part of the world: a start puts a fresh mutex
-- there.
use chroma_go_local.Base.{false, Option, none, some, ◌++◌, map_err, ok_or}
use chroma_go_local.Base.Text.{Text, text}
use chroma_go_local.Ffi.LastError.{c_string, last_error_cstring}
use chroma_go_local.Ffi.Boundary.{
  World, Ffi, Exit, value, panics, ◌>>=◌, ◌>>◌, pure, or_return, fail_with, with_ffi_panic_boundary,
  CharPtr, c_ptr_to_string,
}
use chroma_go_local.Ffi.Embedded.{Call, Called, answered, failed, panicked}
use chroma_go_local.Ffi.Server.{
  Config, Launcher, parse_config_from_path, parse_config_from_string, resolve_storage_paths,
}

-- What the callers read of the handle.
pub record EmbeddedHandle : Type 0 where
  pub persist_path : Text

module _ {S : Type 0} (l : Launcher S) (try_from_config : Config l → Call S (Unit {0})) where
  -- The frontend, behind a mutex of its own.
  unfoldable pub new_frontend :
      World S → Called (Unit {0}) × S → Exit (Option EmbeddedHandle) (Unit {0}) × World S
  new_frontend w (answered a, s) = (value tt, record w { state = s; poisoned = false })
  new_frontend w (failed e, s) =
      fail_with (text "failed to initialize embedded frontend: " ++ e) none (record w { state = s })
  new_frontend w (panicked p, s) = (panics p, record w { state = s })

  unfoldable pub start_embedded_with_config :
      Config l → Ffi S (Option EmbeddedHandle) (Option EmbeddedHandle)
  start_embedded_with_config config = do
    or_return (map_err (λ e. text "failed to create tokio runtime: " ++ e) l.create_runtime) none
    let resolved_config = resolve_storage_paths config
    persist_path ←
        or_return
          (ok_or (c_string resolved_config.persist_path) (text "persist_path contains null byte"))
          none
    (λ w. new_frontend w (try_from_config resolved_config w.state))
    pure (some (record { persist_path = persist_path }))

  unfoldable pub chroma_embedded_start : CharPtr → World S → Option EmbeddedHandle × World S
  chroma_embedded_start config_path = with_ffi_panic_boundary none (do
    path ← or_return (c_ptr_to_string config_path (text "config_path")) none
    config ← or_return (parse_config_from_path l path) none
    start_embedded_with_config config)

  unfoldable pub chroma_embedded_start_from_string :
      CharPtr → World S → Option EmbeddedHandle × World S
  chroma_embedded_start_from_string config_yaml = with_ffi_panic_boundary none (do
    yaml ← or_return (c_ptr_to_string config_yaml (text "config_yaml")) none
    config ← or_return (parse_config_from_string l yaml) none
    start_embedded_with_config config)

unfoldable pub chroma_embedded_persist_path :
    {S : Type 0} → Option EmbeddedHandle → World S → Option Text × World S
chroma_embedded_persist_path none = with_ffi_panic_boundary none (pure none)
chroma_embedded_persist_path (some embedded) =
    with_ffi_panic_boundary none (pure (some embedded.persist_path))

-- The message leaves the slot.
unfoldable pub chroma_get_last_error : {S : Type 0} → World S → Option Text × World S
chroma_get_last_error = with_ffi_panic_boundary none (λ w.
    let (message, slot) = last_error_cstring w.last_error in
    (value message, record w { last_error = slot }))
