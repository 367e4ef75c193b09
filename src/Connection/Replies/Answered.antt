-- ===== src/Connection/Replies/Answered.antt =====
-- What the answers of the library to an interactive bind and to StartTLS make of the state machine, on
-- every branch of the handlers of their replies.
use libdomain.Prelude.{
  ℕ, ◌+◌, ◌<◌, ◌≡◌, refl, ◌∙◌, Bool, true, false, not, ◌&&◌, some, ◌∷◌, if◌then◌else◌, update,
  update_self, ltb, inl, inr, Bool-cases, arith,
}
use libdomain.Ldap.{
  Answer, LdapCode, ldap_success, local_error, sasl_bind_in_progress, ResultType, res_bind,
  res_extended, opt_result_code, opt_diagnostic_message, call_interactive_bind, call_tls_inplace,
  call_install_tls, call_get_option, is_success,
}
use libdomain.Connection.{
  Connection, ConnectionState, ReturnCode, rc_success, rc_failure, bind_interactive,
  transport_ready, bound, error, valid, SaslDefaults, done, bind_handler, max_requests, log,
  enqueue_request, pure, get_ldap_option, ◌>>◌,
}
use libdomain.Connection.States.{csm_set_state}
use libdomain.Connection.Ends.{Returns, Returns-weaken}
use libdomain.Connection.Waiting.{Waiting, enqueue_request_lem, enqueued-Waiting}
use libdomain.Connection.Bind.{is_in_progress}
use libdomain.Connection.Replies.{
  bind_result, bind_failed, tls_failed, set_machine_state, connection_bind_on_read,
  connection_start_tls_on_read, is_local_error,
}

-- The result is `rc`, and the machine of the connection is in state `st`; the other machines stay.
abbrev pub Goes : ConnectionState → ReturnCode → Connection → ReturnCode → Connection → Type 0
Goes st rc c rc' c' = (rc' ≡ rc) × (c'.machines ≡ update c.machines c.state_machine (some st))

-- The answers to the two options that are read after a failure.
abbrev pub result_code_of : Connection → Answer
result_code_of c = c.world (call_get_option opt_result_code ∷ c.trace)

abbrev pub diagnostic_of : Connection → Answer
diagnostic_of c =
    c.world (call_get_option opt_diagnostic_message ∷ call_get_option opt_result_code ∷ c.trace)

-- The result is a failure. The state is `error` if both options are read and the code among them is not
-- excused; otherwise it stays.
abbrev pub Fails : (Answer → Bool) → Connection → ReturnCode → Connection → Type 0
Fails excused c rc c' =
    (rc ≡ rc_failure)
    × (c'.machines ≡ (
        if is_success (result_code_of c).code
          && is_success (diagnostic_of c).code
          && not (excused (result_code_of c))
        then update c.machines c.state_machine (some error)
        else c.machines))

set-Goes :
    (st x : ConnectionState) (rc : ReturnCode) (c : Connection)
    → c.machines c.state_machine ≡ some x
    → Returns (Goes st rc c) ((set_machine_state st >> pure rc) c)
unfolding csm_set_state
set-Goes st x rc c alive = rw alive (refl, refl)

options-Fails :
    (excused : Answer → Bool) (x : ConnectionState) (c : Connection)
    → c.machines c.state_machine ≡ some x
    → Returns (Fails excused c) (
        (get_ldap_option opt_result_code (pure rc_failure) λ a.
            get_ldap_option opt_diagnostic_message (pure rc_failure) λ _.
              if excused a then pure rc_failure else set_machine_state error >> pure rc_failure)
          c)
unfolding csm_set_state
options-Fails excused x c alive = elim (Bool-cases (is_success (result_code_of c).code)) [
  | inr e ↦ rw e (refl, rw e refl)
  | inl e ↦ elim (Bool-cases (is_success (diagnostic_of c).code)) [
    | inr f ↦ rw (e, f) (refl, rw (e, f) refl)
    | inl f ↦ elim (Bool-cases (excused (result_code_of c))) [
      | inl g ↦ rw (e, f, g) (refl, rw (e, f, g) refl)
      | inr g ↦
          rw (e, f, g)
            (let c₂ =
                log (call_get_option opt_diagnostic_message)
                  (log (call_get_option opt_result_code) c) in
              Returns-weaken (Goes error rc_failure c₂) (Fails excused c) _
                (set-Goes error x rc_failure c₂ alive) (λ rc c' (r, m). (r, m ∙ rw (e, f, g) refl)))
    ]
  ]
]

-- The machine stays, and one more request waits, behind the others, for the next reply to the bind.
pub record Continues (k : ℕ) (c : Connection) (rc : ReturnCode) (c' : Connection) : Type 0 where
  pub succeeds : rc ≡ rc_success
  pub machines : c'.machines ≡ c.machines
  pub more : c'.n_read_requests ≡ c.n_read_requests + 1
  pub slot :
      c'.read_requests c.n_read_requests
      ≡ record { msgid = c.msgid; on_read_operation = some bind_handler }
  pub waiting : Waiting k c'

-- The connection after the second call of the bind, with the message id that it gave.
abbrev pub rebound : SaslDefaults → Connection → Connection
rebound d c =
    let k = call_interactive_bind d.mechanism in
    record (log k c) { msgid = (c.world (k ∷ c.trace)).msgid }

abbrev pub bind_code : SaslDefaults → Connection → LdapCode
bind_code d c = (c.world (call_interactive_bind d.mechanism ∷ c.trace)).code

-- By the result of that call.
abbrev pub ByBind : ℕ → LdapCode → Connection → ReturnCode → Connection → Type 0
ByBind k sasl_bind_in_progress c = Continues k c
ByBind k ldap_success c = Goes bound rc_success c
ByBind k _ c = Fails (λ a. is_success a.result_code) c

-- By the type of the message: any other than `LDAP_RES_BIND` changes nothing.
abbrev pub BindAnswered :
    ℕ → ResultType → SaslDefaults → Connection → ReturnCode → Connection → Type 0
BindAnswered k res_bind d c rc c' = ByBind k (bind_code d c) (rebound d c) rc c'
BindAnswered k _ d c rc c' = (rc ≡ rc_success) × (c' ≡ c)

continue-Continues :
    (k : ℕ) (c : Connection)
    → Waiting k c
    → c.n_read_requests < max_requests
    → Returns (Continues k c) ((enqueue_request c.msgid bind_handler >> pure rc_success) c)
continue-Continues k c w room =
    let fits : ltb c.n_read_requests max_requests ≡ true = ground (arith, room) in
    rw (enqueue_request_lem c.msgid bind_handler c, fits)
      (record {
        succeeds = refl;
        machines = refl;
        more = refl;
        slot = update_self c.read_requests c.n_read_requests _;
        waiting = enqueued-Waiting k c.msgid bind_handler c w room;
      })

second_bind :
    (d : SaslDefaults) (c : Connection)
    → c.bind_type ≡ bind_interactive
    → c.ldap_defaults ≡ valid d
    → bind_result c ≡ done (bind_code d c) (rebound d c)
unfolding bind_result
second_bind d c interactive there = simp (interactive, there)

-- The handler of the replies to an interactive bind, with defaults and a machine in memory and room for a
-- request, returns. For a message of type `LDAP_RES_BIND` the result of the second call of the bind
-- decides: while the bind is in progress, the handler succeeds, the machine stays and one more request waits
-- for its reply, last in the queue; on success, the handler succeeds and the state is `bound`; otherwise it
-- fails, and the state is `error` if both options could be read and the result code of the library is
-- not a success, and stays if not. A message of any other type succeeds and changes nothing.
pub bind_on_read-Answered :
    (k : ℕ) (tag : ResultType) (d : SaslDefaults) (c : Connection) (x : ConnectionState)
    → c.bind_type ≡ bind_interactive
    → c.ldap_defaults ≡ valid d
    → c.machines c.state_machine ≡ some x
    → Waiting k c
    → c.n_read_requests < max_requests
    → Returns (BindAnswered k tag d c) (connection_bind_on_read tag c)
unfolding connection_bind_on_read
bind_on_read-Answered k res_bind d c x interactive there alive w room =
    rw (second_bind d c interactive there) (by_code (bind_code d c))
  where
    e : Connection
    e = rebound d c

    failed : Returns (Fails (λ a. is_success a.result_code) e) (bind_failed e)
    failed = options-Fails (λ a. is_success a.result_code) x e alive

    by_code :
        (code : LdapCode)
        → Returns (ByBind k code e) (
            (if is_in_progress code
                then enqueue_request e.msgid bind_handler >> pure rc_success
                else if is_success code
                then set_machine_state bound >> pure rc_success
                else bind_failed)
              e)
    by_code sasl_bind_in_progress =
        continue-Continues k e (record { from = w.from; bound = w.bound; queued = w.queued }) room
    by_code ldap_success = set-Goes bound x rc_success e alive
    by_code code = failed
bind_on_read-Answered k tag d c x interactive there alive w room = (refl, refl)

-- By the result of `ldap_install_tls`.
abbrev pub ByInstall : LdapCode → Connection → ReturnCode → Connection → Type 0
ByInstall ldap_success = Goes transport_ready rc_success
ByInstall local_error = Goes transport_ready rc_success
ByInstall _ = Fails (λ _. false)

abbrev pub asked_tls : Connection → Connection
asked_tls = log call_tls_inplace

abbrev pub installed_tls : Connection → Connection
installed_tls c = log call_install_tls (asked_tls c)

-- By the type of the message: any other than `LDAP_RES_EXTENDED` changes nothing.
abbrev pub TlsAnswered : ResultType → Connection → ReturnCode → Connection → Type 0
TlsAnswered res_extended c rc c' =
    ((c.world (asked_tls c).trace).flag ≡ true
      → Goes transport_ready rc_success (asked_tls c) rc c')
    × ((c.world (asked_tls c).trace).flag ≡ false
        → ByInstall (c.world (installed_tls c).trace).code (installed_tls c) rc c')
TlsAnswered _ c rc c' = (rc ≡ rc_success) × (c' ≡ c)

by_install :
    (x : ConnectionState) (code : LdapCode) (c : Connection)
    → c.machines c.state_machine ≡ some x
    → Returns (ByInstall code c) (
        (if not (is_success code) && not (is_local_error code)
            then tls_failed
            else set_machine_state transport_ready >> pure rc_success)
          c)
by_install x ldap_success c alive = set-Goes transport_ready x rc_success c alive
by_install x local_error c alive = set-Goes transport_ready x rc_success c alive
by_install x code c alive = options-Fails (λ _. false) x c alive

-- The handler of the reply to StartTLS, with a machine in memory, returns. For a message of type
-- `LDAP_RES_EXTENDED`: if TLS is in place already, or if `ldap_install_tls` gives a success or a local
-- error, the handler succeeds and the transport is ready; otherwise it fails, and the state is `error` if
-- both options could be read, and stays if not. A message of any other type succeeds and changes nothing.
pub start_tls_on_read-Answered :
    (tag : ResultType) (c : Connection) (x : ConnectionState)
    → c.machines c.state_machine ≡ some x
    → Returns (TlsAnswered tag c) (connection_start_tls_on_read tag c)
unfolding connection_start_tls_on_read
start_tls_on_read-Answered res_extended c x alive =
    elim (Bool-cases (c.world (asked_tls c).trace).flag) [
      | inl there ↦ rw there (
          Returns-weaken _ (TlsAnswered res_extended c) _
            (set-Goes transport_ready x rc_success (asked_tls c) alive)
            (λ rc c' g. ((λ _. g), (λ h. absurd (cc)))))
      | inr absent ↦ rw absent (
          Returns-weaken _ (TlsAnswered res_extended c) _
            (by_install x (c.world (installed_tls c).trace).code (installed_tls c) alive)
            (λ rc c' g. ((λ h. absurd (cc)), (λ _. g))))
    ]
start_tls_on_read-Answered tag c x alive = (refl, refl)
