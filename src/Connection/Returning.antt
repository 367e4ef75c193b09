-- ===== src/Connection/Returning.antt =====
-- Conditions under which the functions that open a connection return: room for the requests that they
-- send, an event loop that hands out events, and defaults that are in memory.
use libdomain.Prelude.{
  ltb, ℕ, suc, ◌+◌, ◌≤◌, ◌==◌, ◌≡◌, refl, ◌≢◌, sym, ◌∙◌, ap, true, false, not, ◌&&◌, some, List,
  ◌∷◌, if◌then◌else◌, Ptr, null, ℤ, arith,
}
use libdomain.Ldap.{
  World, Call, call_get_option, call_verto_add_io, call_start_tls, call_unbind, call_sasl_bind,
  call_interactive_bind, opt_desc, opt_result_code, opt_diagnostic_message, is_success,
}
use libdomain.Connection.{
  Connection, ConnectionState, type_openldap, ReturnCode, rc_success, rc_operation_in_progress,
  rc_repeat_last_operation, Handler, Owned, unset, dangling, valid, SaslDefaults, start_tls_handler,
  bind_handler, faulty, M, log, max_requests, enqueue_request, pure, get, put, ◌>>=◌, ◌>>◌,
}
use libdomain.Connection.Ends.{Returns, Returns-bind, Returns-if}
use libdomain.Connection.Waiting.{enqueue_request_lem}
use libdomain.Connection.Bind.{
  add_io, connection_install_handlers, handlers_missing, connection_start_tls, connection_sasl_bind,
  connection_ldap_bind, unbind_and_fail, is_negative, with_defaults, is_connecting, is_in_progress,
  report_and_fail,
}

unset-valid : {A : Type 0} {a : A} → unset ≢ valid a
unset-valid h = cc

dangling-valid : {A : Type 0} {a : A} → dangling ≢ valid a
dangling-valid h = cc

-- Every `verto_add_io` gives an event.
abbrev pub GivesEvents : World → Type 0
GivesEvents w = (past : List Call) → (w (call_verto_add_io ∷ past)).ptr ≢ null

-- Room for `n` more requests, the machine at `ctx` in state `st`, `own` for the machine of the
-- connection, the conditions above, and a schema that is not NULL if the directory is an OpenLDAP one.
pub record Able (ctx own : Ptr) (st : ConnectionState) (n : ℕ) (c : Connection) : Type 0 where
  pub room : c.n_read_requests + n ≤ max_requests
  pub events : GivesEvents c.world
  pub defaults : SaslDefaults
  pub in_memory : c.ldap_defaults ≡ valid defaults
  pub alive : c.machines ctx ≡ some st
  pub current : c.state_machine ≡ own
  pub loadable : c.directory_type ≡ type_openldap → (c.schema == null) ≡ false

module _ (ctx own : Ptr) (st : ConnectionState) where
  pub Able-log :
      (n : ℕ) (k : Call) (c : Connection) → Able ctx own st n c → Able ctx own st n (log k c)
  Able-log n k c h = record {
    room = h.room;
    events = h.events;
    defaults = h.defaults;
    in_memory = h.in_memory;
    alive = h.alive;
    current = h.current;
    loadable = h.loadable;
  }

  pub Able-less : (n : ℕ) (c : Connection) → Able ctx own st (suc n) c → Able ctx own st n c
  Able-less n c h = record {
    room = omega (arith, h.room);
    events = h.events;
    defaults = h.defaults;
    in_memory = h.in_memory;
    alive = h.alive;
    current = h.current;
    loadable = h.loadable;
  }

  abbrev pub After : {A : Type 0} → ℕ → A → Connection → Type 0
  After n a c = Able ctx own st n c

  pub enqueue-Able :
      (n : ℕ) (msgid : ℤ) (handler : Handler) (c : Connection)
      → Able ctx own st (suc n) c
      → Returns (After n) (enqueue_request msgid handler c)
  enqueue-Able n msgid handler c h =
      let room = h.room in
      let fits : ltb c.n_read_requests max_requests ≡ true = ground arith in
      rw (enqueue_request_lem msgid handler c, fits)
        (record {
          room = omega (arith, h.room);
          events = h.events;
          defaults = h.defaults;
          in_memory = h.in_memory;
          alive = h.alive;
          current = h.current;
          loadable = h.loadable;
        })

  add_io-Able : (n : ℕ) (c : Connection) → Able ctx own st n c → Returns (After n) (add_io c)
  add_io-Able n c h =
      let got : ((c.world (call_verto_add_io ∷ c.trace)).ptr == null) ≡ false =
        ground (arith, h.events c.trace) in
      rw got (Able-log n call_verto_add_io c h)

  -- The two event fields do not matter.
  pub events-Able :
      (n : ℕ) (c c' : Connection)
      → Able ctx own st n c
      → c'.n_read_requests ≡ c.n_read_requests
      → c'.world ≡ c.world
      → c'.ldap_defaults ≡ c.ldap_defaults
      → c'.machines ≡ c.machines
      → c'.state_machine ≡ c.state_machine
      → c'.directory_type ≡ c.directory_type
      → c'.schema ≡ c.schema
      → Able ctx own st n c'
  events-Able n c c' h reads world defaults machines current directory schema = record {
    room = omega (arith, h.room, reads);
    events = rw world h.events;
    defaults = h.defaults;
    in_memory = defaults ∙ h.in_memory;
    alive = ap (λ f. f ctx) machines ∙ h.alive;
    current = current ∙ h.current;
    loadable = λ t. ap (λ p. p == null) schema ∙ h.loadable (sym directory ∙ t);
  }

  install-Able :
      (n : ℕ) (c : Connection)
      → Able ctx own st n c
      → Returns (After n) (connection_install_handlers c)
  unfolding connection_install_handlers
  install-Able n c h =
      let c₁ = log (call_get_option opt_desc) c in
      let h₁ = Able-log n (call_get_option opt_desc) c h in
      let failed = Able-log n call_unbind c₁ h₁ in
      Returns-if (After n) (is_success (c.world c₁.trace).code) _ unbind_and_fail c₁
        (λ _.
          Returns-if (After n) (is_negative (c.world c₁.trace).number) unbind_and_fail _ c₁
            (λ _. failed)
            (λ _. Returns-bind (After n) (After n) (add_io c₁) _ (add_io-Able n c₁ h₁) (λ _ c₂ h₂.
              let c₃ = record c₂ { read_event = valid tt } in
              Returns-bind (After n) (After n) (add_io c₃)
                (λ _. do
                  d ← get
                  put (record d { write_event = valid tt; handlers_installed = true })
                  pure rc_success)
                (add_io-Able n c₃ (events-Able n c₂ c₃ h₂ refl refl refl refl refl refl refl))
                (λ _ c₄ h₄.
                  events-Able n c₄ (record c₄ { write_event = valid tt; handlers_installed = true })
                    h₄ refl refl refl refl refl refl refl))))
        (λ _. failed)

  missing-Able :
      (n : ℕ) (c : Connection) → Able ctx own st n c → Returns (After n) (handlers_missing c)
  missing-Able n c h =
      Returns-if (After n) c.handlers_installed (pure false) _ c (λ _. h)
        (λ _.
          Returns-bind (After n) (After n) (connection_install_handlers c) _ (install-Able n c h)
            (λ _ c₁ h₁. h₁))

  -- The end of the three functions below: the handlers, then the request, then the result.
  request-Able :
      (n : ℕ) (msgid : ℤ) (handler : Handler) (rc : ReturnCode) (c : Connection)
      → Able ctx own st (suc n) c
      → Returns (After n) (
          (handlers_missing >>= λ missing.
          if missing then unbind_and_fail else (do enqueue_request msgid handler; pure rc))
            c)
  request-Able n msgid handler rc c h =
      Returns-bind (After (suc n)) (After n) (handlers_missing c) _ (missing-Able (suc n) c h)
        (λ missing c₁ h₁.
          Returns-if (After n) missing unbind_and_fail _ c₁
            (λ _. Able-less n _ (Able-log (suc n) call_unbind c₁ h₁))
            (λ _.
              Returns-bind (After n) (After n) (enqueue_request msgid handler c₁) _
                (enqueue-Able n msgid handler c₁ h₁) (λ _ c₂ h₂. h₂)))

  pub start_tls-Able :
      (n : ℕ) (c : Connection)
      → Able ctx own st (suc n) c
      → Returns (After n) (connection_start_tls c)
  unfolding connection_start_tls
  start_tls-Able n c h =
      let a = c.world (call_start_tls ∷ c.trace) in
      let h₁ = Able-log (suc n) call_start_tls c h in
      Returns-if (After n) (not (is_success a.code)) unbind_and_fail _ (log call_start_tls c)
        (λ _. Able-less n _ (Able-log (suc n) call_unbind _ h₁))
        (λ _. request-Able n a.msgid start_tls_handler rc_success _ h₁)

  -- With the defaults in memory, the functions that read them go on.
  with_defaults-Able :
      (n m : ℕ) (k : SaslDefaults → M ReturnCode) (c : Connection)
      → Able ctx own st n c
      → ((d : SaslDefaults) → Returns (After m) (k d c))
      → Returns (After m) (with_defaults k c)
  with_defaults-Able n m k c h next = on c.ldap_defaults refl
    where
      on :
          (o : Owned SaslDefaults)
          → c.ldap_defaults ≡ o
          → Returns (After m) (
              (elim o as (λ _. M ReturnCode) [ unset ↦ faulty | dangling ↦ faulty | valid d ↦ k d ])
                c)
      on unset e = absurd (unset-valid (sym e ∙ h.in_memory))
      on dangling e = absurd (dangling-valid (sym e ∙ h.in_memory))
      on (valid d) e = next d

  pub sasl_bind-Able :
      (n : ℕ) (c : Connection)
      → Able ctx own st (suc n) c
      → Returns (After n) (connection_sasl_bind c)
  unfolding connection_sasl_bind
  sasl_bind-Able n c h = with_defaults-Able (suc n) n _ c h (λ d.
      let k = call_sasl_bind c.config.bind_dn d.mechanism in
      let a = c.world (k ∷ c.trace) in
      let h₁ = Able-log (suc n) k c h in
      Returns-if (After n) (is_connecting a.code) (pure rc_repeat_last_operation) _ (log k c)
        (λ _. Able-less n _ h₁)
        (λ _.
          Returns-if (After n) (not (is_success a.code)) unbind_and_fail _ (log k c)
            (λ _. Able-less n _ (Able-log (suc n) call_unbind _ h₁))
            (λ _. request-Able n a.msgid bind_handler rc_success _ h₁)))

  report-Able :
      (n : ℕ) (c : Connection) → Able ctx own st n c → Returns (After n) (report_and_fail c)
  report-Able n c h =
      let c₁ = log (call_get_option opt_result_code) c in
      let h₁ = Able-log n (call_get_option opt_result_code) c h in
      let c₂ = log (call_get_option opt_diagnostic_message) c₁ in
      let h₂ = Able-log n (call_get_option opt_diagnostic_message) c₁ h₁ in
      Returns-if (After n) (is_success (c.world c₁.trace).code) _ unbind_and_fail c₁
        (λ _.
          Returns-if (After n) (is_success (c.world c₂.trace).code) unbind_and_fail unbind_and_fail
            c₂ (λ _. Able-log n call_unbind c₂ h₂) (λ _. Able-log n call_unbind c₂ h₂))
        (λ _. Able-log n call_unbind c₁ h₁)

  pub ldap_bind-Able :
      (n : ℕ) (c : Connection)
      → Able ctx own st (suc n) c
      → Returns (After n) (connection_ldap_bind c)
  unfolding connection_ldap_bind
  ldap_bind-Able n c h = with_defaults-Able (suc n) n _ c h (λ d.
      let k = call_interactive_bind d.mechanism in
      let a = c.world (k ∷ c.trace) in
      let h₁ = Able-log (suc n) k c h in
      Returns-if (After n) (is_connecting a.code) (pure rc_repeat_last_operation) _ (log k c)
        (λ _. Able-less n _ h₁)
        (λ _.
          Returns-if (After n) (not (is_success a.code) && not (is_in_progress a.code))
            report_and_fail _ (log k c) (λ _. report-Able n _ (Able-less n _ h₁))
            (λ _.
              request-Able n a.msgid bind_handler
                (if is_in_progress a.code then rc_operation_in_progress else rc_success) _ h₁)))
