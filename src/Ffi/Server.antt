-- ===== src/Ffi/Server.antt =====
-- Server mode: configuration, start, the readers of the handle and its stop, in shim/src/lib.rs.
-- A handle argument is NULL or what it points to, as the safety comments demand.
use chroma_go_local.Base.{
  ℕ, zero, suc, Bool, true, false, not, ◌&&◌, Option, none, some, List, [], ◌∷◌, ◌++◌, is_empty,
  ◌==◌, unwrap_or, if◌then◌else◌, Result, ok, err, ok_or, map_err,
}
use chroma_go_local.Base.Int.{ℤ, pos, negsuc}
use chroma_go_local.Base.Text.{Text, text}
use chroma_go_local.Ffi.LastError.{set_last_error, c_string}
use chroma_go_local.Ffi.Boundary.{
  World, Ffi, Exit, value, ◌>>=◌, ◌>>◌, pure, fail_with, check_not_null, or_return,
  with_ffi_panic_boundary, CharPtr, c_ptr_to_string, success, error_invalid_handle,
  error_already_stopped, error_operation_failed,
}
pub mod Config
pub mod Lifecycle

pub record ServerHandle : Type 0 where
  -- Whether `shutdown_tx` still holds its sender.
  pub shutdown_tx : Bool
  pub port : ℕ
  pub listen_address : Text
  pub persist_path : Text
  pub tls_enabled : Bool

-- The sections of Chroma's configuration are foreign structs, of which `rest` is what the shim
-- neither reads nor writes.
pub record SqliteDbConfig (R : Type 0) : Type 0 where
  pub url : Option Text
  pub rest : R

pub record LocalSegmentManagerConfig (R : Type 0) : Type 0 where
  pub persist_path : Option Text
  pub rest : R

pub record FrontendServerConfig (A B C : Type 0) : Type 0 where
  pub port : ℕ
  pub listen_address : Text
  pub persist_path : Text
  pub sqlite_filename : Text
  pub sqlitedb : Option (SqliteDbConfig A)
  pub segment_manager : Option (LocalSegmentManagerConfig B)
  pub rest : C

unfoldable pub starts_with_slash : Text → Bool
starts_with_slash [] = false
starts_with_slash (c ∷ s) = c == 47

unfoldable pub ends_with_slash : Text → Bool
ends_with_slash [] = false
ends_with_slash (c ∷ []) = c == 47
ends_with_slash (c ∷ d ∷ s) = ends_with_slash (d ∷ s)

-- `Path::join` on Unix: an absolute second part replaces the first.
unfoldable pub join_path : Text → Text → Text
join_path root name =
    if starts_with_slash name
    then name
    else if is_empty root
    then name
    else if ends_with_slash root
    then root ++ name
    else root ++ (text "/" ++ name)

-- `get_or_insert`
unfoldable pub get_or_insert : Option Text → Text → Option Text
get_or_insert none d = some d
get_or_insert (some v) d = some v

module _ {A B C : Type 0} where
  -- Paths made of text are valid UTF-8, so the two conversions of the source cannot fail.
  fill_paths :
      FrontendServerConfig A B C
      → Option (SqliteDbConfig A)
      → Option (LocalSegmentManagerConfig B)
      → FrontendServerConfig A B C
  fill_paths c (some sql) (some seg) = record c {
    sqlitedb =
        some
          (record sql { url = get_or_insert sql.url (join_path c.persist_path c.sqlite_filename) });
    segment_manager =
        some (record seg { persist_path = get_or_insert seg.persist_path c.persist_path });
  }
  fill_paths c (some sql) none = c
  fill_paths c none seg = c

  unfoldable pub resolve_storage_paths : FrontendServerConfig A B C → FrontendServerConfig A B C
  unfolding fill_paths
  resolve_storage_paths c = fill_paths c c.sqlitedb c.segment_manager

-- `tls_cert_path` of the extracted `ShimTlsConfig`; a failed extraction counts as the default.
unfoldable pub tls_enabled_of : Result (Option Text) Text → Bool
tls_enabled_of (err e) = false
tls_enabled_of (ok none) = false
tls_enabled_of (ok (some p)) = not (is_empty p)

-- What became of the server task in the first 250 ms.
pub data Startup : Type 0 where
  exited : Startup
  panicked : Text → Startup
  pending : Startup

-- Tokio, figment and the file system, as far as a start needs them. `startup` spawns the server task
-- and waits for it; it may change the world, and if the task ended, the runtime is dropped in it.
pub record Launcher (S : Type 0) : Type 1 where
  pub SqliteRest : Type 0
  pub SegmentRest : Type 0
  pub ServerRest : Type 0
  pub create_runtime : Result (Unit {0}) Text
  pub startup : FrontendServerConfig SqliteRest SegmentRest ServerRest → S → Startup × S
  pub file_exists : Text → Bool
  pub extract_file : Text → Result (FrontendServerConfig SqliteRest SegmentRest ServerRest) Text
  pub extract_string : Text → Result (FrontendServerConfig SqliteRest SegmentRest ServerRest) Text
  pub tls_from_file : Text → Result (Option Text) Text
  pub tls_from_string : Text → Result (Option Text) Text

module _ {S : Type 0} (l : Launcher S) where
  abbrev pub Config : Type 0
  Config = FrontendServerConfig l.SqliteRest l.SegmentRest l.ServerRest

  unfoldable pub parse_config_from_path : Text → Result Config Text
  parse_config_from_path path =
      if l.file_exists path
      then map_err (λ e. text "Config parse error: " ++ e) (l.extract_file path)
      else err (text "Config file not found: " ++ path)

  unfoldable pub parse_config_from_string : Text → Result Config Text
  parse_config_from_string yaml =
      map_err (λ e. text "Config parse error: " ++ e) (l.extract_string yaml)

  -- A task that ended within the timeout fails the start.
  unfoldable pub check_startup :
      World S → Startup × S → Exit (Option ServerHandle) (Unit {0}) × World S
  check_startup w (exited, s) =
      fail_with (text "server exited during startup") none (record w { state = s })
  check_startup w (panicked e, s) =
      fail_with (text "server panicked during startup: " ++ e) none (record w { state = s })
  check_startup w (pending, s) = (value tt, record w { state = s })

  -- The runtime and the texts of the handle, in front of the launch.
  unfoldable pub with_texts :
      Result (Unit {0}) Text
      → Option Text
      → Option Text
      → (Text → Text → Ffi S (Option ServerHandle) (Option ServerHandle))
      → Ffi S (Option ServerHandle) (Option ServerHandle)
  with_texts create_runtime listen_address persist_path launch_with = do
    or_return (map_err (λ e. text "Failed to create tokio runtime: " ++ e) create_runtime) none
    listen_address ←
        or_return (ok_or listen_address (text "listen_address contains null byte")) none
    persist_path ← or_return (ok_or persist_path (text "persist_path contains null byte")) none
    launch_with listen_address persist_path

  unfoldable pub launch :
      Config → Bool → Text → Text → Ffi S (Option ServerHandle) (Option ServerHandle)
  launch resolved tls_enabled listen_address persist_path = do
    (λ w. check_startup w (l.startup resolved w.state))
    pure (
        some (record {
          shutdown_tx = true;
          port = resolved.port;
          listen_address = listen_address;
          persist_path = persist_path;
          tls_enabled = tls_enabled;
        }))

  unfoldable pub start_server_with_config :
      Config → Bool → Ffi S (Option ServerHandle) (Option ServerHandle)
  start_server_with_config config tls_enabled =
      let resolved = resolve_storage_paths config in
      with_texts l.create_runtime (c_string resolved.listen_address)
        (c_string resolved.persist_path) (launch resolved tls_enabled)

  unfoldable pub chroma_server_start : CharPtr → World S → Option ServerHandle × World S
  chroma_server_start config_path = with_ffi_panic_boundary none (do
    path ← or_return (c_ptr_to_string config_path (text "config_path")) none
    config ← or_return (parse_config_from_path path) none
    start_server_with_config config (tls_enabled_of (l.tls_from_file path)))

  unfoldable pub chroma_server_start_from_string : CharPtr → World S → Option ServerHandle × World S
  chroma_server_start_from_string config_yaml = with_ffi_panic_boundary none (do
    yaml ← or_return (c_ptr_to_string config_yaml (text "config_yaml")) none
    config ← or_return (parse_config_from_string yaml) none
    start_server_with_config config (tls_enabled_of (l.tls_from_string yaml)))

-- `-1` for NULL, with the error set.
unfoldable pub chroma_server_port : {S : Type 0} → Option ServerHandle → World S → ℤ × World S
chroma_server_port none =
    with_ffi_panic_boundary (negsuc 0) (fail_with (text "handle is null") (negsuc 0))
chroma_server_port (some server) = with_ffi_panic_boundary (negsuc 0) (pure (pos server.port))

unfoldable pub chroma_server_address :
    {S : Type 0} → Option ServerHandle → World S → Option Text × World S
chroma_server_address none = with_ffi_panic_boundary none (pure none)
chroma_server_address (some server) =
    with_ffi_panic_boundary none (pure (some server.listen_address))

unfoldable pub chroma_server_persist_path :
    {S : Type 0} → Option ServerHandle → World S → Option Text × World S
chroma_server_persist_path none = with_ffi_panic_boundary none (pure none)
chroma_server_persist_path (some server) =
    with_ffi_panic_boundary none (pure (some server.persist_path))

unfoldable pub chroma_server_tls_enabled :
    {S : Type 0} → Option ServerHandle → World S → ℤ × World S
chroma_server_tls_enabled none =
    with_ffi_panic_boundary (negsuc 0) (fail_with (text "handle is null") (negsuc 0))
chroma_server_tls_enabled (some server) =
    with_ffi_panic_boundary (negsuc 0) (pure (if server.tls_enabled then pos 1 else pos 0))

-- The code, and the handle after the call.
abbrev pub Stopped : Type 0
Stopped = ℤ × Option ServerHandle

-- `shutdown_tx.take()`: `send` is the signal on its channel, whose failure is ignored.
unfoldable pub stop_server : {S : Type 0} → (S → S) → ServerHandle → Bool → Ffi S Stopped Stopped
stop_server send server true w =
    (pure (success, some (record server { shutdown_tx = false })))
      (record w { state = send w.state })
stop_server send server false w =
    fail_with (text "server already stopped") (error_already_stopped, some server) w

unfoldable pub chroma_server_stop :
    {S : Type 0} → (S → S) → Option ServerHandle → World S → Stopped × World S
chroma_server_stop send none =
    with_ffi_panic_boundary (error_operation_failed, none)
      (fail_with (text "handle is null") (error_invalid_handle, none))
chroma_server_stop send (some server) =
    with_ffi_panic_boundary (error_operation_failed, some server)
      (stop_server send server server.shutdown_tx)
