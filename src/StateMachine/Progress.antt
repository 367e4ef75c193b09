-- ===== src/StateMachine/Progress.antt =====
-- `csm_next_state` returns, outside the error state, when the connection is able to send: the
-- conditions are those of `Able`, with room for the two requests that a schema takes.
use libdomain.Prelude.{
  null, ◌==◌, ◌≡◌, ℕ, suc, some, update_self, refl, ◌≢◌, Bool, true, false, ◌∷◌, if◌then◌else◌, Ptr,
}
use libdomain.Ldap.{Call, call_table_size, object_classes_by_oid, attribute_types_by_oid}
use libdomain.Connection.{
  Connection, ConnectionState, init, tls_negotiation, transport_ready, bind_in_progress, bound,
  detect_directory, run, error, request_schema, check_schema, ReturnCode, rc_success, BindType,
  bind_interactive, bind_simple, DirectoryType, type_uninitialized, type_unknown,
  type_active_directory, type_openldap, type_free_ipa, M, log, faulty, perform, pure, ◌>>=◌, ◌>>◌,
}
use libdomain.Connection.States.{csm_set_state}
use libdomain.Connection.Ends.{Ends, Returns, Returns-bind, Returns-if}
use libdomain.Connection.Returning.{
  Able, Able-log, Able-less, After, start_tls-Able, sasl_bind-Able, ldap_bind-Able,
}
use libdomain.Connection.Bind.{
  connection_start_tls, connection_ldap_bind, connection_sasl_bind, is_rc_success,
}
use libdomain.Entry.{directory_get_type}
use libdomain.Schema.{ldap_schema_load, ldap_schema_ready, is_nonempty}
use libdomain.StateMachine.{
  go, csm_next_state, from_init, from_transport_ready, from_detect_directory, from_request_schema,
  from_check_schema, from_run, after_bind, after_load, is_uninitialized,
}
use libdomain.StateMachine.Loading.{get_type-Able, schema_load-Fine}

abbrev bind_of : BindType → M ReturnCode
bind_of t = elim t [ bind_interactive ↦ connection_ldap_bind | bind_simple ↦ connection_sasl_bind ]

-- The machine is in some state, with room for `n` requests.
abbrev pub Running : (ctx own : Ptr) → ℕ → {A : Type 0} → A → Connection → Type 0
Running ctx own n a c = (st : ConnectionState) × Able ctx own st n c

module _ (ctx own : Ptr) (n : ℕ) (st : ConnectionState) where
  -- Setting the state of a machine that is in memory.
  set-Running :
      (next : ConnectionState) (rc : ReturnCode) (c : Connection)
      → Able ctx own st n c
      → Returns (Running ctx own n) ((csm_set_state ctx next >> pure rc) c)
  unfolding csm_set_state
  set-Running next rc c h = rw h.alive (
    next,
    record {
      room = h.room;
      events = h.events;
      defaults = h.defaults;
      in_memory = h.in_memory;
      alive = update_self c.machines ctx (some next);
      current = h.current;
      loadable = h.loadable;
    },
  )

  call-Running :
      {A : Type 0} (m : M A) (next : A → ConnectionState) (rc : A → ReturnCode) (c : Connection)
      → Returns (After ctx own st n) (m c)
      → Returns (Running ctx own n) ((m >>= λ a. csm_set_state ctx (next a) >> pure (rc a)) c)
  call-Running m next rc c h =
      Returns-bind (After ctx own st n) (Running ctx own n) (m c)
        (λ a. csm_set_state ctx (next a) >> pure (rc a)) h
        (λ a d g. set-Running (next a) (rc a) d g)

  bind-Able :
      (t : BindType) (c : Connection)
      → Able ctx own st (suc n) c
      → Returns (After ctx own st n) (bind_of t c)
  bind-Able bind_interactive c h = ldap_bind-Able ctx own st n c h
  bind-Able bind_simple c h = sasl_bind-Able ctx own st n c h

  two-less : (c : Connection) → Able ctx own st (suc (suc n)) c → Able ctx own st n c
  two-less c h = Able-less ctx own st n c (Able-less ctx own st (suc n) c h)

  ready-Able :
      (c : Connection) → Able ctx own st n c → Returns (After ctx own st n) (ldap_schema_ready c)
  unfolding ldap_schema_ready
  ready-Able c h = by_type c.directory_type refl
    where
      k : Call
      k = call_table_size object_classes_by_oid

      by_type :
          (t : DirectoryType)
          → c.directory_type ≡ t
          → Returns (After ctx own st n) (
              (elim t as (λ _. M Bool) [
                | type_openldap ↦ if c.schema == null then faulty else (do
                  classes ← perform (call_table_size object_classes_by_oid)
                  if is_nonempty classes.number
                      then (do
                        types ← perform (call_table_size attribute_types_by_oid)
                        pure (is_nonempty types.number))
                      else pure false)
                | _ ↦ pure true
              ])
                c)
      by_type type_openldap e = rw (h.loadable e) (
          Returns-if (After ctx own st n) (is_nonempty (c.world (k ∷ c.trace)).number) _
            (pure false) (log k c)
            (λ _.
              Able-log ctx own st n (call_table_size attribute_types_by_oid) _
                (Able-log ctx own st n k c h))
            (λ _. Able-log ctx own st n k c h))
      by_type type_active_directory e = h
      by_type type_free_ipa e = h
      by_type type_unknown e = h
      by_type type_uninitialized e = h

module _ (ctx own : Ptr) (n : ℕ) where
  abbrev AbleTwice : ConnectionState → Connection → Type 0
  AbleTwice st c = Able ctx own st (suc (suc n)) c

  init-Running : (c : Connection) → AbleTwice init c → Returns (Running ctx own n) (from_init ctx c)
  unfolding from_init
  init-Running c h =
      Returns-if (Running ctx own n) c.config.use_start_tls _ (go ctx transport_ready) c
        (λ _.
          call-Running ctx own n init connection_start_tls
            (λ rc. if is_rc_success rc then tls_negotiation else error) (λ _. rc_success) c
            (start_tls-Able ctx own init n c (Able-less ctx own init (suc n) c h)))
        (λ _. set-Running ctx own n init transport_ready rc_success c (two-less ctx own n init c h))

  detect-Running :
      (c : Connection)
      → AbleTwice detect_directory c
      → Returns (Running ctx own n) (from_detect_directory ctx c)
  unfolding from_detect_directory
  detect-Running c h =
      let st = detect_directory in
      Returns-if (Running ctx own n) (is_uninitialized c.directory_type) _ (go ctx request_schema) c
        (λ _.
          call-Running ctx own n st directory_get_type
            (λ rc. if is_rc_success rc then detect_directory else error) (λ _. rc_success) c
            (get_type-Able ctx own st n c (Able-less ctx own st (suc n) c h)))
        (λ _. set-Running ctx own n st request_schema rc_success c (two-less ctx own n st c h))

  check-Running :
      (c : Connection)
      → AbleTwice check_schema c
      → Returns (Running ctx own n) (from_check_schema ctx c)
  unfolding from_check_schema
  check-Running c h =
      let st = check_schema in
      Returns-bind (After ctx own st n) (Running ctx own n) (ldap_schema_ready c)
        (λ ready. if ready then go ctx run else pure rc_success)
        (ready-Able ctx own n st c (two-less ctx own n st c h))
        (λ ready d g.
          Returns-if (Running ctx own n) ready (go ctx run) (pure rc_success) d
            (λ _. set-Running ctx own n st run rc_success d g) (λ _. (st, g)))

  -- A step outside the error state uses up room for two requests at most.
  pub step-Running :
      (c : Connection) (st : ConnectionState)
      → st ≢ error
      → AbleTwice st c
      → Returns (Running ctx own n) (csm_next_state ctx c)
  unfolding csm_next_state from_run from_transport_ready from_request_schema
  step-Running c init ne h = rw h.alive (init-Running c h)
  step-Running c tls_negotiation ne h = rw h.alive (_, two-less ctx own n _ c h)
  step-Running c transport_ready ne h = rw h.alive (
      call-Running ctx own n transport_ready (bind_of c.bind_type) after_bind (λ rc. rc) c
        (bind-Able ctx own n transport_ready c.bind_type c
          (Able-less ctx own transport_ready (suc n) c h)))
  step-Running c bind_in_progress ne h = rw h.alive (_, two-less ctx own n _ c h)
  step-Running c bound ne h =
      rw h.alive
        (set-Running ctx own n bound detect_directory rc_success c (two-less ctx own n bound c h))
  step-Running c detect_directory ne h = rw h.alive (detect-Running c h)
  step-Running c run ne h = rw h.alive (
      let g = two-less ctx own n run c h in
      (
        run,
        record {
          room = g.room;
          events = g.events;
          defaults = g.defaults;
          in_memory = g.in_memory;
          alive = g.alive;
          current = g.current;
          loadable = g.loadable;
        },
      ))
  step-Running c error ne h = absurd (ne refl)
  step-Running c request_schema ne h = rw h.alive (
      call-Running ctx own n request_schema ldap_schema_load after_load (λ _. rc_success) c
        (schema_load-Fine ctx own request_schema n c h))
  step-Running c check_schema ne h = rw h.alive (check-Running c h)
