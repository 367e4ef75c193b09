-- ===== src/StateMachine/Graph.antt =====
-- The graph of the states that `csm_next_state` walks, as a relation, against the function.
use libdomain.Prelude.{
  ◌≡◌, refl, ◌∙◌, ap, Option, none, some, ◌∷◌, if◌then◌else◌, ltb, update_self, Ptr, inl, inr, ◌==◌,
  null, Bool-cases,
}
use libdomain.Connection.{
  Connection, ConnectionState, init, tls_negotiation, transport_ready, bind_in_progress, bound,
  detect_directory, run, error, request_schema, check_schema, ReturnCode, rc_success, rc_failure,
  rc_missing_attribute, rc_operation_in_progress, rc_repeat_last_operation, bind_interactive,
  bind_simple, DirectoryType, type_uninitialized, type_unknown, type_active_directory,
  type_openldap, type_free_ipa, M, Outcome, done, fault, out_of_fuel, pure, ◌>>=◌, ◌>>◌,
}
use libdomain.Connection.States.{csm_set_state}
use libdomain.Connection.Ends.{Ends, Ends-bind, Ends-if}
use libdomain.Connection.Bind.{
  connection_start_tls, connection_ldap_bind, connection_sasl_bind, connection_close, is_rc_success,
}
use libdomain.Connection.Configure.{connection_configure}
use libdomain.Connection.Bind.Close.{close-On, deleted, On}
use libdomain.Entry.{directory_get_type}
use libdomain.Ldap.{call_table_size, object_classes_by_oid}
use libdomain.Schema.{is_nonempty, ldap_schema_load, ldap_schema_ready}
use libdomain.StateMachine.{
  go, csm_next_state, from_init, from_transport_ready, from_detect_directory, from_request_schema,
  from_check_schema, from_run, from_error, after_bind, after_load, is_uninitialized,
  max_reconnect_attempts,
}

-- One call of the function: the states in which the connection waits for a reply keep themselves,
-- and `run` is entered from `check_schema` alone.
pub data Edge : ConnectionState → ConnectionState → Type 0 where
  starts_tls : Edge init tls_negotiation
  skips_tls : Edge init transport_ready
  tls_refused : Edge init error
  awaits_tls : Edge tls_negotiation tls_negotiation
  binds : Edge transport_ready detect_directory
  binds_on : Edge transport_ready bind_in_progress
  reconnects : Edge transport_ready transport_ready
  bind_refused : Edge transport_ready error
  awaits_bind : Edge bind_in_progress bind_in_progress
  detects : Edge bound detect_directory
  asks_type : Edge detect_directory detect_directory
  type_known : Edge detect_directory request_schema
  type_refused : Edge detect_directory error
  schema_asked : Edge request_schema check_schema
  asks_schema : Edge request_schema request_schema
  schema_refused : Edge request_schema error
  schema_there : Edge check_schema run
  awaits_schema : Edge check_schema check_schema
  runs : Edge run run
  restarts : Edge error init
  gives_up : Edge error error

-- The machine at `ctx` is in a state to which an edge from `st` leads.
pub record Moved (ctx : Ptr) (st : ConnectionState) (rc : ReturnCode) (c : Connection)
    : Type 0 where
  pub next : ConnectionState
  pub there : c.machines ctx ≡ some next
  pub edge : Edge st next

abbrev Anything : {A : Type 0} → A → Connection → Type 0
Anything a c = Unit

ends : {A : Type 0} (o : Outcome A) → Ends Anything o
ends (done a c) = tt
ends fault = tt
ends out_of_fuel = tt

module _ (ctx : Ptr) (st : ConnectionState) where
  -- Setting the state to the end of an edge, and then returning.
  set-Moved :
      (next : ConnectionState) (rc : ReturnCode)
      → Edge st next
      → (c : Connection) → Ends (Moved ctx st) ((csm_set_state ctx next >> pure rc) c)
  unfolding csm_set_state
  set-Moved next rc e c = set (c.machines ctx) refl
    where
      set :
          (m : Option ConnectionState)
          → c.machines ctx ≡ m
          → Ends (Moved ctx st) ((csm_set_state ctx next >> pure rc) c)
      set none h = rw h tt
      set (some x) h = rw h (record { next = next; there = update_self c.machines ctx _; edge = e })

  -- A call of another function, and then the state that depends on its result.
  call-Moved :
      {A : Type 0} (m : M A) (next : A → ConnectionState) (rc : A → ReturnCode)
      → ((a : A) → Edge st (next a))
      → (c : Connection)
      → Ends (Moved ctx st) ((m >>= λ a. csm_set_state ctx (next a) >> pure (rc a)) c)
  call-Moved m next rc e c =
      Ends-bind Anything (Moved ctx st) (m c) (λ a. csm_set_state ctx (next a) >> pure (rc a))
        (ends (m c)) (λ a d h. set-Moved (next a) (rc a) (e a) d)

  stays-Moved :
      (rc : ReturnCode) (c : Connection) → c.machines ctx ≡ some st → Edge st st → Moved ctx st rc c
  stays-Moved rc c at e = record { next = st; there = at; edge = e }

init-Moved : (ctx : Ptr) (c : Connection) → Ends (Moved ctx init) (from_init ctx c)
unfolding from_init
init-Moved ctx c =
    Ends-if (Moved ctx init) c.config.use_start_tls _ (go ctx transport_ready) c
      (λ _.
        call-Moved ctx init connection_start_tls
          (λ rc. if is_rc_success rc then tls_negotiation else error) (λ _. rc_success)
          (λ rc. elim (Bool-cases (is_rc_success rc)) [
            | inl e ↦ rw e starts_tls
            | inr e ↦ rw e tls_refused
          ])
          c)
      (λ _. set-Moved ctx init transport_ready rc_success skips_tls c)

after_bind-Edge : (rc : ReturnCode) → Edge transport_ready (after_bind rc)
after_bind-Edge rc_success = binds
after_bind-Edge rc_failure = bind_refused
after_bind-Edge rc_missing_attribute = bind_refused
after_bind-Edge rc_operation_in_progress = binds_on
after_bind-Edge rc_repeat_last_operation = reconnects

transport_ready-Moved :
    (ctx : Ptr) (c : Connection) → Ends (Moved ctx transport_ready) (from_transport_ready ctx c)
unfolding from_transport_ready
transport_ready-Moved ctx c =
    call-Moved ctx transport_ready
      (elim c.bind_type [
        | bind_interactive ↦ connection_ldap_bind
        | bind_simple ↦ connection_sasl_bind
      ])
      after_bind (λ rc. rc) after_bind-Edge c

detect_directory-Moved :
    (ctx : Ptr) (c : Connection) → Ends (Moved ctx detect_directory) (from_detect_directory ctx c)
unfolding from_detect_directory
detect_directory-Moved ctx c =
    Ends-if (Moved ctx detect_directory) (is_uninitialized c.directory_type) _
      (go ctx request_schema) c
      (λ _.
        call-Moved ctx detect_directory directory_get_type
          (λ rc. if is_rc_success rc then detect_directory else error) (λ _. rc_success)
          (λ rc. elim (Bool-cases (is_rc_success rc)) [
            | inl e ↦ rw e asks_type
            | inr e ↦ rw e type_refused
          ])
          c)
      (λ _. set-Moved ctx detect_directory request_schema rc_success type_known c)

after_load-Edge : (rc : ReturnCode) → Edge request_schema (after_load rc)
after_load-Edge rc_success = schema_asked
after_load-Edge rc_failure = schema_refused
after_load-Edge rc_missing_attribute = schema_refused
after_load-Edge rc_operation_in_progress = asks_schema
after_load-Edge rc_repeat_last_operation = schema_refused

request_schema-Moved :
    (ctx : Ptr) (c : Connection) → Ends (Moved ctx request_schema) (from_request_schema ctx c)
unfolding from_request_schema
request_schema-Moved ctx c =
    call-Moved ctx request_schema ldap_schema_load after_load (λ _. rc_success) after_load-Edge c

-- The test of the schema changes nothing but the trace.
ready-machines : (c : Connection) → Ends (λ _ c'. c'.machines ≡ c.machines) (ldap_schema_ready c)
unfolding ldap_schema_ready
ready-machines c = by_type c.directory_type refl
  where
    by_type :
        (t : DirectoryType)
        → c.directory_type ≡ t
        → Ends (λ _ c'. c'.machines ≡ c.machines) (ldap_schema_ready c)
    by_type type_openldap h = elim (Bool-cases (c.schema == null)) [
      | inl absent ↦ rw (h, absent) tt
      | inr there ↦
          rw (h, there)
            (elim (Bool-cases
              (is_nonempty (c.world (call_table_size object_classes_by_oid ∷ c.trace)).number)) [
                | inl e ↦ rw e refl
                | inr e ↦ rw e refl
              ])
    ]
    by_type type_uninitialized h = rw h refl
    by_type type_unknown h = rw h refl
    by_type type_active_directory h = rw h refl
    by_type type_free_ipa h = rw h refl

check_schema-Moved :
    (ctx : Ptr) (c : Connection)
    → c.machines ctx ≡ some check_schema
    → Ends (Moved ctx check_schema) (from_check_schema ctx c)
unfolding from_check_schema
check_schema-Moved ctx c at =
    Ends-bind (λ _ c'. c'.machines ≡ c.machines) (Moved ctx check_schema) (ldap_schema_ready c)
      (λ ready. if ready then go ctx run else pure rc_success) (ready-machines c)
      (λ ready d same.
        Ends-if (Moved ctx check_schema) ready (go ctx run) (pure rc_success) d
          (λ _. set-Moved ctx check_schema run rc_success schema_there d)
          (λ _.
            stays-Moved ctx check_schema rc_success d (ap (λ f. f ctx) same ∙ at) awaits_schema))

-- Closing keeps the machines; after a configuration, whatever came of it, the state is `init`.
error-Moved :
    (ctx : Ptr) (c : Connection)
    → c.machines ctx ≡ some error
    → Ends (Moved ctx error) (from_error ctx c)
unfolding from_error
error-Moved ctx c at =
    Ends-bind (λ _ c'. On c (deleted c.read_event) (deleted c.write_event) c') (Moved ctx error)
      (connection_close c) _ (close-On c)
      (λ _ d (same, _, _).
        Ends-if (Moved ctx error) (ltb d.n_reconnect_attempts max_reconnect_attempts) _
          (pure rc_success) d
          (λ _.
            Ends-bind Anything (Moved ctx error) (connection_configure d) _
              (ends (connection_configure d))
              (λ _ e _. set-Moved ctx error init rc_success restarts _))
          (λ _. stays-Moved ctx error rc_success d (ap (λ f. f ctx) same.machines ∙ at) gives_up))

-- `csm_next_state`, however the libraries answer: unless it has no defined behaviour, it moves the
-- machine along an edge of the graph.
pub csm_next_state-Edge :
    (ctx : Ptr) (c : Connection) (st : ConnectionState)
    → c.machines ctx ≡ some st
    → Ends (Moved ctx st) (csm_next_state ctx c)
unfolding csm_next_state from_run
csm_next_state-Edge ctx c init at = rw at (init-Moved ctx c)
csm_next_state-Edge ctx c tls_negotiation at =
    rw at (stays-Moved ctx tls_negotiation rc_success c at awaits_tls)
csm_next_state-Edge ctx c transport_ready at = rw at (transport_ready-Moved ctx c)
csm_next_state-Edge ctx c bind_in_progress at =
    rw at (stays-Moved ctx bind_in_progress rc_success c at awaits_bind)
csm_next_state-Edge ctx c bound at =
    rw at (set-Moved ctx bound detect_directory rc_success detects c)
csm_next_state-Edge ctx c detect_directory at = rw at (detect_directory-Moved ctx c)
csm_next_state-Edge ctx c run at = rw at (record { next = run; there = at; edge = runs })
csm_next_state-Edge ctx c error at = rw at (error-Moved ctx c at)
csm_next_state-Edge ctx c request_schema at = rw at (request_schema-Moved ctx c)
csm_next_state-Edge ctx c check_schema at = rw at (check_schema-Moved ctx c at)
