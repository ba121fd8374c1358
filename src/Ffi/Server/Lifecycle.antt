-- ===== src/Ffi/Server/Lifecycle.antt =====
-- The life of a server handle: what a start gives, and what stops do.
use chroma_go_local.Base.{
  subst, Bool, false, Result, ok, err, Result-cases, ◌⊎◌, inl, inr, sym, ℕ, zero, suc, ◌≡◌, refl,
  ap, true, false, Option, none, some, List, [], ◌∷◌, arith, is_some, replicate,
}
use chroma_go_local.Base.Int.{ℤ}
use chroma_go_local.Base.Text.{Text, text}
use chroma_go_local.Ffi.LastError.{set_last_error, c_string, has_null}
use chroma_go_local.Ffi.Boundary.{
  utf8, null, invalid_utf8, follow, pure, c_ptr_to_string, World, with_ffi_panic_boundary,
  fail_with, or_return, success, error_already_stopped, CharPtr,
}
use chroma_go_local.Ffi.Server.Config.{resolve_storage_paths_lem}
use chroma_go_local.Ffi.Server.{
  tls_enabled_of, ServerHandle, Launcher, Config, Startup, exited, panicked, pending,
  resolve_storage_paths, chroma_server_start, chroma_server_stop, stop_server,
  start_server_with_config, check_startup, with_texts, launch, parse_config_from_path,
}

module _ {S : Type 0} (send : S → S) where
  -- The codes of `n` stops of one handle, and the world after them.
  unfoldable pub stop_times : ℕ → Option ServerHandle → World S → List ℤ × World S
  stop_times zero h w = ([], w)
  stop_times (suc n) h w =
      let ((code, h'), w') = chroma_server_stop send h w in
      let (codes, w'') = stop_times n h' w' in (code ∷ codes, w'')

  -- The world after a stop that came too late.
  abbrev refused : World S → World S
  refused w = record w { last_error = set_last_error (text "server already stopped") w.last_error }

  stopped_times :
      (n : ℕ) (h : ServerHandle) (w : World S)
      → h.shutdown_tx ≡ false
      → ((stop_times n (some h) w).0 ≡ replicate n error_already_stopped)
        × ((stop_times n (some h) w).1.state ≡ w.state)
  unfolding stop_times chroma_server_stop stop_server with_ffi_panic_boundary fail_with
  stopped_times zero h w e = (refl, refl)
  stopped_times (suc n) h w e =
      let (codes, kept) = stopped_times n h (refused w) e in
      rw (e, stop_times, chroma_server_stop, stop_server)
        (ap (λ cs. error_already_stopped ∷ cs) codes, kept)

  -- A handle whose sender is still there sends one shutdown signal, however often it is stopped:
  -- the first stop succeeds, and each later one reports that the server was stopped already.
  pub stop_times_once :
      (n : ℕ) (h : ServerHandle) (w : World S)
      → h.shutdown_tx ≡ true
      → ((stop_times (suc n) (some h) w).0 ≡ success ∷ replicate n error_already_stopped)
        × ((stop_times (suc n) (some h) w).1.state ≡ send w.state)
  unfolding stop_times chroma_server_stop stop_server with_ffi_panic_boundary
  stop_times_once n h w e =
      let (codes, kept) =
        stopped_times n (record h { shutdown_tx = false }) (record w { state = send w.state })
          refl in
      rw (e, stop_times, chroma_server_stop, stop_server) (ap (λ cs. success ∷ cs) codes, kept)

module _ {S : Type 0} (l : Launcher S) where
  -- The task was spawned for the configuration, in the first state, and left this outcome.
  abbrev IsSpawned : Config l → Startup → S → S → Type 0
  IsSpawned config outcome s s' = l.startup (resolve_storage_paths config) s ≡ (outcome, s')

  -- A running server, as its handle describes it.
  pub record IsRunning (config : Config l) (h : ServerHandle) (w w' : World S) : Type 0 where
    pub spawned : IsSpawned config pending w.state w'.state
    pub open_ : h.shutdown_tx ≡ true
    pub port : h.port ≡ config.port
    pub listen_address : h.listen_address ≡ config.listen_address
    pub persist_path : h.persist_path ≡ config.persist_path
    pub slot : w'.last_error ≡ w.last_error

  -- An error to read: nothing was spawned, or a task that has ended by itself.
  abbrev pub IsFailed : Config l → World S → World S → Type 0
  IsFailed config w w' =
      (is_some w'.last_error ≡ true)
      × ((w'.state ≡ w.state)
          ⊎ ((outcome : Startup) × ¬ (outcome ≡ pending)
              × IsSpawned config outcome w.state w'.state))

  abbrev pub Started : Config l → World S → Option ServerHandle × World S → Type 0
  Started config w (none, w') = IsFailed config w w'
  Started config w (some h, w') = IsRunning config h w w'

  -- What a launch needs: a runtime, no null byte in the two texts, and a task that goes on.
  pub record IsLaunchable (config : Config l) (s : S) : Type 0 where
    pub runtime : l.create_runtime ≡ ok tt
    pub address : has_null config.listen_address ≡ false
    pub path : has_null config.persist_path ≡ false
    pub goes_on : (l.startup (resolve_storage_paths config) s).0 ≡ pending

  -- What a start comes to that got as far as its configuration.
  abbrev Outcome : Config l → World S → Option ServerHandle × World S → Type 0
  Outcome config w out = Started config w out × (IsLaunchable config w.state → is_some out.0 ≡ true)

  module _ (config : Config l) (tls : Bool) (w : World S) where
    -- From the outcome of the task on.
    settled :
        (a b : Text) (r : Startup × S)
        → l.startup (resolve_storage_paths config) w.state ≡ r
        → config.listen_address ≡ a
        → config.persist_path ≡ b
        → Outcome config w (
            with_ffi_panic_boundary none
              (λ w'. follow (check_startup l w r) (λ done. pure (
                some (record {
                  shutdown_tx = true;
                  port = (resolve_storage_paths config).port;
                  listen_address = a;
                  persist_path = b;
                  tls_enabled = tls;
                }))))
              w)
    unfolding with_ffi_panic_boundary fail_with check_startup set_last_error
    settled a b (exited, s) e listen persist = (
      (refl, inr (exited, (λ q. let bad : ⊥ = cc q in absurd bad), e)),
      λ v. let bad : ⊥ = cc (e, v.goes_on) in absurd bad,
    )
    settled a b (panicked m, s) e listen persist = (
      (refl, inr (panicked m, (λ q. let bad : ⊥ = cc q in absurd bad), e)),
      λ v. let bad : ⊥ = cc (e, v.goes_on) in absurd bad,
    )
    settled a b (pending, s) e listen persist = (
      record {
        spawned = e;
        open_ = refl;
        port = (resolve_storage_paths_lem config).1;
        listen_address = sym listen;
        persist_path = sym persist;
        slot = refl;
      },
      λ v. refl,
    )

    texts :
        (runtime : Result (Unit {0}) Text) (a b : Option Text)
        → l.create_runtime ≡ runtime
        → c_string config.listen_address ≡ a
        → c_string config.persist_path ≡ b
        → Outcome config w (
            with_ffi_panic_boundary none
              (with_texts l runtime a b (launch l (resolve_storage_paths config) tls))
              w)
    unfolding with_texts launch with_ffi_panic_boundary fail_with or_return set_last_error c_string
    texts (err x) a b e listen persist =
        ((refl, inl refl), λ v. let bad : ⊥ = cc (e, v.runtime) in absurd bad)
    texts (ok u) none b e listen persist =
        ((refl, inl refl), λ v. let bad : ⊥ = ground (arith, listen, v.address) in absurd bad)
    texts (ok u) (some a) none e listen persist =
        ((refl, inl refl), λ v. let bad : ⊥ = ground (arith, persist, v.path) in absurd bad)
    texts (ok u) (some a) (some b) e listen persist =
        settled a b (l.startup (resolve_storage_paths config) w.state) refl (ground (arith, listen))
          (ground (arith, persist))

  read-Outcome :
      (path : Text) (config : Config l) (w : World S)
      → parse_config_from_path l path ≡ ok config
      → Outcome config w (chroma_server_start l (utf8 path) w)
  unfolding chroma_server_start start_server_with_config or_return c_ptr_to_string
  read-Outcome path config w e =
      let lem = resolve_storage_paths_lem config in
      subst
        (λ r. Outcome config w (
          with_ffi_panic_boundary none
            (λ w'.
              follow (or_return r none w')
                (λ c. start_server_with_config l c (tls_enabled_of (l.tls_from_file path))))
            w))
        (sym e)
        (texts config (tls_enabled_of (l.tls_from_file path)) w l.create_runtime _ _ refl
          (ap c_string (sym lem.2)) (ap c_string (sym lem.3)))

  -- The text that is read gives no configuration.
  abbrev pub IsUnread : CharPtr → Type 0
  IsUnread p =
      (path : Text) (config : Config l)
      → p ≡ utf8 path
      → ¬ (parse_config_from_path l path ≡ ok config)

  abbrev IsRejected : World S → Option ServerHandle × World S → Type 0
  IsRejected w (h, w') = (h ≡ none) × (is_some w'.last_error ≡ true) × (w'.state ≡ w.state)

  unread-IsRejected :
      (p : CharPtr) (w : World S) → IsUnread p → IsRejected w (chroma_server_start l p w)
  unfolding chroma_server_start or_return fail_with c_ptr_to_string with_ffi_panic_boundary
      set_last_error
  unread-IsRejected null w u = (refl, refl, refl)
  unread-IsRejected invalid_utf8 w u = (refl, refl, refl)
  unread-IsRejected (utf8 path) w u = elim (Result-cases (parse_config_from_path l path)) [
    | inl (config, e) ↦ absurd (u path config refl e)
    | inr (x, e) ↦
        subst
          (λ r. IsRejected w (
            with_ffi_panic_boundary none
              (λ w'.
                follow (or_return r none w')
                  (λ c. start_server_with_config l c (tls_enabled_of (l.tls_from_file path))))
              w))
          (sym e) (refl, refl, refl)
  ]

  -- A start from a file. If this gives a configuration, the start returns a handle or NULL. A handle
  -- means that the task for the configuration with its paths resolved was spawned and went on, it
  -- has the configuration's port, address and path and still holds its sender, and no error was
  -- set. NULL means that an error can be read, and that nothing was spawned, or a task that ended.
  -- With a runtime, no null byte in the two texts and a task that goes on, it is a handle. If the
  -- file's name or the file cannot be read, NULL comes with an error, and nothing was spawned.
  pub chroma_server_start-Started :
      (p : CharPtr) (w : World S)
      → let out = chroma_server_start l p w in
        ((path : Text) (config : Config l)
          → p ≡ utf8 path
          → parse_config_from_path l path ≡ ok config
          → Started config w out × (IsLaunchable config w.state → is_some out.0 ≡ true))
        × (IsUnread p
            → (out.0 ≡ none) × (is_some out.1.last_error ≡ true) × (out.1.state ≡ w.state))
  chroma_server_start-Started p w = (
    λ path config here e.
        subst (λ q. Outcome config w (chroma_server_start l q w)) (sym here)
          (read-Outcome path config w e),
    unread-IsRejected p w,
  )
