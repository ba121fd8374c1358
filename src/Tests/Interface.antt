-- ===== src/Tests/Interface.antt =====
-- The C interface of shim/src/lib.rs on small requests. The frontend's state is a number that its
-- calls raise.
use chroma_go_local.Base.{
  ℕ, ◌+◌, ◌<◌, ◌≡◌, refl, All, true, false, Option, none, some, List, [], ◌∷◌, Result, ok, is_some,
  replicate, unwrap_or,
}
use chroma_go_local.Base.Text.{Text, text}
use chroma_go_local.Ffi.LastError.{
  set_last_error, last_error_cstring, sanitize, has_null, read_after_set,
}
use chroma_go_local.Ffi.Boundary.{World, string, utf8, success, error_already_stopped}
use chroma_go_local.Ffi.Server.{
  ServerHandle, Launcher, FrontendServerConfig, SqliteDbConfig, LocalSegmentManagerConfig, pending,
  resolve_storage_paths, join_path, chroma_server_start, Config, parse_config_from_path,
}
use chroma_go_local.Ffi.Server.Config.{resolve_storage_paths_lem}
use chroma_go_local.Ffi.Server.Lifecycle.{
  stop_times, stop_times_once, Started, IsLaunchable, IsUnread, chroma_server_start-Started,
}
use chroma_go_local.Ffi.Embedded.{Call, answered, panicked, code_endpoint, json_endpoint}
use chroma_go_local.Ffi.Embedded.Locking.{
  Settled, is_success, endpoints-Settled, serve, serve_after_panic,
}
use chroma_go_local.Ffi.Embedded.Session.{Endpoint, Message, Run, answer_all, session}
use chroma_go_local.Ffi.Embedded.Session.Refinement.{answer_all-Run}
use chroma_go_local.Ffi.Records.{
  EmbeddedDeleteRecordsPayload, into_delete_records, into_delete_records-limit, check_limit,
  chroma_embedded_delete_records, chroma_embedded_delete_records_with_response,
  delete_records_agree,
}
use chroma_go_local.Ffi.Names.{parse_collection_id, parse_where_fields}

abbrev world : World ℕ
world = record { last_error = none; poisoned = false; state = 0 }

read_after_set_example :
    (last_error_cstring (set_last_error (97 ∷ 0 ∷ []) none) ≡ (some (sanitize (97 ∷ 0 ∷ [])), none))
    × (has_null (97 ∷ 0 ∷ []) ≡ false
        → last_error_cstring (set_last_error (97 ∷ 0 ∷ []) none) ≡ (some (97 ∷ 0 ∷ []), none))
    × (last_error_cstring (last_error_cstring (set_last_error (97 ∷ 0 ∷ []) none)).1 ≡ (none, none))
read_after_set_example = read_after_set (97 ∷ 0 ∷ []) none

abbrev config : FrontendServerConfig ℕ ℕ ℕ
config = record {
  port = 8000;
  listen_address = text "0.0.0.0";
  persist_path = text "data";
  sqlite_filename = text "chroma.sqlite3";
  sqlitedb = some (record { url = none; rest = 1 });
  segment_manager = some (record { persist_path = none; rest = 2 });
  rest = 3;
}

resolve_storage_paths_lem_example :
    let d = resolve_storage_paths config in
    (resolve_storage_paths d ≡ d)
    × (d.port ≡ config.port)
    × (d.listen_address ≡ config.listen_address)
    × (d.persist_path ≡ config.persist_path)
    × (d.sqlite_filename ≡ config.sqlite_filename)
    × (d.rest ≡ config.rest)
    × ((sql : SqliteDbConfig ℕ) (seg : LocalSegmentManagerConfig ℕ)
        → config.sqlitedb ≡ some sql
        → config.segment_manager ≡ some seg
        → (d.sqlitedb
            ≡ some (record {
              url = some (unwrap_or sql.url (join_path config.persist_path config.sqlite_filename));
              rest = sql.rest;
            }))
          × (d.segment_manager
              ≡ some (record {
                persist_path = some (unwrap_or seg.persist_path config.persist_path);
                rest = seg.rest;
              })))
    × (config.sqlitedb ≡ none → d ≡ config)
    × (config.segment_manager ≡ none → d ≡ config)
resolve_storage_paths_lem_example = resolve_storage_paths_lem config

-- A task that goes on raises the state.
abbrev launcher : Launcher ℕ
launcher = record {
  SqliteRest = ℕ;
  SegmentRest = ℕ;
  ServerRest = ℕ;
  create_runtime = ok tt;
  startup = λ c s. (pending, s + 1);
  file_exists = λ p. true;
  extract_file = λ p. ok config;
  extract_string = λ t. ok config;
  tls_from_file = λ p. ok none;
  tls_from_string = λ t. ok none;
}

chroma_server_start-Started_example :
    let out = chroma_server_start launcher (utf8 (text "config.yaml")) world in
    ((path : Text) (c : Config launcher)
      → utf8 (text "config.yaml") ≡ utf8 path
      → parse_config_from_path launcher path ≡ ok c
      → Started launcher c world out × (IsLaunchable launcher c world.state → is_some out.0 ≡ true))
    × (IsUnread launcher (utf8 (text "config.yaml"))
        → (out.0 ≡ none) × (is_some out.1.last_error ≡ true) × (out.1.state ≡ world.state))
chroma_server_start-Started_example =
    chroma_server_start-Started launcher (utf8 (text "config.yaml")) world

abbrev handle : ServerHandle
handle = record {
  shutdown_tx = true;
  port = 8000;
  listen_address = text "0.0.0.0";
  persist_path = text "data";
  tls_enabled = false;
}

stop_times_once_example :
    ((stop_times (λ s. s + 1) 3 (some handle) world).0
      ≡ success ∷ replicate 2 error_already_stopped)
    × ((stop_times (λ s. s + 1) 3 (some handle) world).1.state ≡ 1)
stop_times_once_example = stop_times_once (λ s. s + 1) 2 handle world refl

-- Requests are their text; a call adds one, and panics on an empty request.
abbrev read : Text → Result Text Text
read t = ok t

abbrev create : Text → Call ℕ ℕ
create [] s = (panicked (string (text "empty")), s + 1)
create (c ∷ t) s = (answered s, s + 1)

endpoints-Settled_example :
    let (code, w₁) =
      code_endpoint (text "create: ") read read create false (utf8 (97 ∷ [])) world in
    let (answer, w₂) =
      json_endpoint
        (text "create: ")
        read
        read
        create
        (λ n. ok (text "{}"))
        false
        (utf8 (97 ∷ []))
        world in
    Settled (is_success code) world w₁ × Settled (is_some answer) world w₂
endpoints-Settled_example =
    endpoints-Settled (text "create: ") read read create (λ n. ok (text "{}")) false
      (utf8 (97 ∷ [])) world

serve_after_panic_example :
    let (codes, w') =
      serve
        (text "create: ")
        read
        read
        create
        ((false, utf8 []) ∷ (false, utf8 (97 ∷ [])) ∷ [])
        world in
    All (λ code. is_success code ≡ false) codes × (w'.state ≡ 1)
serve_after_panic_example =
    serve_after_panic (text "create: ") read read create [] [] [] (string (text "empty")) 1
      ((false, utf8 (97 ∷ [])) ∷ []) world refl refl refl refl

abbrev payload : EmbeddedDeleteRecordsPayload Text
payload = record {
  collection_id = text "7";
  ids = none;
  where_clause = some (text "year = 1999");
  where_document = none;
  limit = some 5;
  tenant_id = none;
  database_name = none;
}

abbrev parse_filter : Text → Text → Result (Option Text) Text
parse_filter filter document = ok (some filter)

-- The request is its limit.
abbrev make :
    Text → Text → Text → Option (List Text) → Option Text → Option ℕ → Result (Option ℕ) Text
make tenant database id ids filter limit = ok limit

limited : into_delete_records read [] parse_filter make payload ≡ ok (some 5)
unfolding into_delete_records check_limit parse_collection_id parse_where_fields
limited = refl

into_delete_records-limit_example :
    (0 < 5)
    × ((filter : Text) × (parse_where_fields [] parse_filter (some (text "year = 1999")) none
          ≡ ok (some filter)))
into_delete_records-limit_example =
    into_delete_records-limit read [] parse_filter make payload (some 5) 5 limited refl

delete_records_agree_example :
    let (code, v) = chroma_embedded_delete_records read read create false (utf8 []) world in
    let (answer, v') =
      chroma_embedded_delete_records_with_response read read create
        (λ n. ok (text "{}"))
        false
        (utf8 [])
        world in
    (v'.state ≡ v.state)
    × (v'.poisoned ≡ v.poisoned)
    × (is_some answer ≡ true → code ≡ success)
    × (¬ (code ≡ success) → (answer ≡ none) × (v' ≡ v))
delete_records_agree_example =
    delete_records_agree read read create (λ n. ok (text "{}")) false (utf8 []) world

-- A creation that answers with a code, and one that answers with JSON.
abbrev created : Endpoint ℕ
created = record {
  Payload = Text;
  Request = Text;
  Answer = ℕ;
  label = text "create: ";
  from_str = read;
  into_request = read;
  call = create;
  to_string = none;
}

abbrev described : Endpoint ℕ
described = record created { to_string = some (λ n. ok (text "{}")) }

abbrev messages : List (Message ℕ)
messages =
    (described, false, utf8 (97 ∷ []))
    ∷ (created, true, utf8 (97 ∷ []))
    ∷ (created, false, utf8 [])
    ∷ (described, false, utf8 (97 ∷ []))
    ∷ []

answer_all-Run_example :
    Run messages
      (session world)
      (answer_all messages world).0
      (session (answer_all messages world).1)
answer_all-Run_example = answer_all-Run messages world
