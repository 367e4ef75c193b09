-- ===== src/Connection/Replies.antt =====
-- src/connection.c: `connection_bind_on_read` and `connection_start_tls_on_read`, the handlers of the
-- replies to a bind and to StartTLS, and `connection_optional_transition_on_error`.
pub mod Outcomes
pub mod Answered
use libdomain.Prelude.{
  ℕ, Bool, true, false, not, ◌&&◌, ◌||◌, Option, none, some, if◌then◌else◌, ℤ, pos, Ptr, CString,
}
use libdomain.Ldap.{
  LdapCode, ldap_success, local_error, other_code, Answer, ResultType, res_bind, res_extended,
  opt_result_code, opt_diagnostic_message, call_interactive_bind, call_tls_inplace,
  call_install_tls, is_success,
}
use libdomain.Connection.{
  Connection, ConnectionState, ReturnCode, rc_success, rc_failure, BindType, bind_interactive,
  bind_simple, tls_negotiation, transport_ready, bind_in_progress, bound, error, bind_handler, M,
  pure, get, put, perform, get_ldap_option, enqueue_request, ◌>>=◌, ◌>>◌,
}
use libdomain.Connection.States.{csm_set_state, csm_is_in_state}
use libdomain.Connection.Bind.{with_defaults, is_in_progress}

abbrev pub is_local_error : LdapCode → Bool
is_local_error local_error = true
is_local_error _ = false

-- `csm_set_state (connection->state_machine, ...)`
abbrev pub set_machine_state : ConnectionState → M (Unit {0})
set_machine_state st = do c ← get; csm_set_state c.state_machine st

-- What `rc` holds when the code compares it: the result of the second bind call, or still the
-- message type `LDAP_RES_BIND`, which is 0x61 and so neither of the codes that it is compared with.
unfoldable pub bind_result : M LdapCode
bind_result = do
  c ← get
  elim c.bind_type [
    | bind_interactive ↦ with_defaults λ d. do
      a ← perform (call_interactive_bind d.mechanism)
      d ← get
      put (record d { msgid = a.msgid })
      pure a.code
    | bind_simple ↦ pure (other_code (pos 0x61))
  ]

abbrev pub bind_failed : M ReturnCode
bind_failed = get_ldap_option opt_result_code (pure rc_failure) λ a.
    get_ldap_option opt_diagnostic_message (pure rc_failure) λ _.
      if is_success a.result_code
      then pure rc_failure
      else (do set_machine_state error; pure rc_failure)

unfoldable pub connection_bind_on_read : ResultType → M ReturnCode
unfolding bind_result
connection_bind_on_read res_bind = do
  rc ← bind_result
  c ← get
  if is_in_progress rc
      then (do enqueue_request c.msgid bind_handler; pure rc_success)
      else if is_success rc
      then (do set_machine_state bound; pure rc_success)
      else bind_failed
connection_bind_on_read _ = pure rc_success

abbrev pub tls_failed : M ReturnCode
tls_failed = get_ldap_option opt_result_code (pure rc_failure) λ _.
    get_ldap_option opt_diagnostic_message (pure rc_failure)
      λ _. set_machine_state error >> pure rc_failure

-- `tls_rc`: the result of `ldap_install_tls`, which is called only if TLS is not in place.
abbrev pub install_tls : M LdapCode
install_tls = do
  inplace ← perform call_tls_inplace
  if inplace.flag then pure ldap_success else (do a ← perform call_install_tls; pure a.code)

unfoldable pub connection_start_tls_on_read : ResultType → M ReturnCode
connection_start_tls_on_read res_extended = do
  tls_rc ← install_tls
  if not (is_success tls_rc) && not (is_local_error tls_rc)
      then tls_failed
      else (do set_machine_state transport_ready; pure rc_success)
connection_start_tls_on_read _ = pure rc_success

unfoldable pub connection_optional_transition_on_error : M (Unit {0})
connection_optional_transition_on_error = do
  c ← get
  tls ← csm_is_in_state c.state_machine tls_negotiation
  bind ← csm_is_in_state c.state_machine bind_in_progress
  if tls || bind then csm_set_state c.state_machine error else pure tt
