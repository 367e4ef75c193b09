-- ===== src/Connection/Bind.antt =====
-- src/connection.c: the functions that open the transport and authenticate, each of which sends a
-- request and leaves its handler in the queue, and `connection_close`.
pub mod Close
use libdomain.Prelude.{
  ℕ, ◌==◌, Bool, true, false, not, ◌&&◌, ◌||◌, Option, none, some, if◌then◌else◌, ltb, ℤ, pos,
  negsuc, null, CString, is_some,
}
use libdomain.Ldap.{
  LdapCode, ldap_success, connecting, sasl_bind_in_progress, opt_desc, opt_result_code,
  opt_diagnostic_message, call_start_tls, call_unbind, call_sasl_bind, call_interactive_bind,
  call_memfree, call_talloc_free, call_verto_free, call_verto_add_io, call_verto_del, is_success,
}
use libdomain.Connection.{
  Connection, ReturnCode, rc_success, rc_failure, rc_operation_in_progress,
  rc_repeat_last_operation, Owned, unset, dangling, valid, SaslDefaults, error, start_tls_handler,
  bind_handler, M, pure, get, put, faulty, perform, get_ldap_option, enqueue_request, ◌>>=◌, ◌>>◌,
}
use libdomain.Connection.States.{machine_state, state_eq}

abbrev pub is_rc_success : ReturnCode → Bool
is_rc_success rc_success = true
is_rc_success _ = false

-- `connection->ldap_defaults->...`
abbrev pub with_defaults : {A : Type 0} → (SaslDefaults → M A) → M A
with_defaults k = do
  c ← get
  elim c.ldap_defaults [ unset ↦ faulty | dangling ↦ faulty | valid d ↦ k d ]

-- `ldap_unbind_ext_s (connection->ldap, NULL, NULL); return RETURN_CODE_FAILURE;`
abbrev pub unbind_and_fail : M ReturnCode
unbind_and_fail = perform call_unbind >> pure rc_failure

-- `verto_add_io`, whose event must be there for `verto_set_private`.
abbrev pub add_io : M (Unit {0})
add_io = do ev ← perform call_verto_add_io; if ev.ptr == null then faulty else pure tt

abbrev pub is_negative : ℤ → Bool
is_negative (pos n) = false
is_negative (negsuc n) = true

unfoldable pub connection_install_handlers : M ReturnCode
connection_install_handlers = get_ldap_option opt_desc unbind_and_fail λ fd.
    if is_negative fd.number then unbind_and_fail else do
      add_io
      c ← get
      put (record c { read_event = valid tt })
      add_io
      d ← get
      put (record d { write_event = valid tt; handlers_installed = true })
      pure rc_success

-- `!connection->handlers_installed && connection_install_handlers (...) != RETURN_CODE_SUCCESS`
abbrev pub handlers_missing : M Bool
handlers_missing = do
  c ← get
  if c.handlers_installed
      then pure false
      else (do rc ← connection_install_handlers; pure (not (is_rc_success rc)))

unfoldable pub connection_start_tls : M ReturnCode
connection_start_tls = do
  a ← perform call_start_tls
  if not (is_success a.code) then unbind_and_fail else do
    missing ← handlers_missing
    if missing
        then unbind_and_fail
        else (do enqueue_request a.msgid start_tls_handler; pure rc_success)

abbrev pub is_connecting : LdapCode → Bool
is_connecting connecting = true
is_connecting _ = false

abbrev pub is_in_progress : LdapCode → Bool
is_in_progress sasl_bind_in_progress = true
is_in_progress _ = false

unfoldable pub connection_sasl_bind : M ReturnCode
connection_sasl_bind = with_defaults λ defaults. do
  c ← get
  a ← perform (call_sasl_bind c.config.bind_dn defaults.mechanism)
  if is_connecting a.code
      then pure rc_repeat_last_operation
      else if not (is_success a.code)
      then unbind_and_fail
      else do
        missing ← handlers_missing
        if missing
            then unbind_and_fail
            else (do enqueue_request a.msgid bind_handler; pure rc_success)

-- The branch of `connection_ldap_bind` that starts at the label `error_exit`.
abbrev pub bind_error_exit : M ReturnCode
bind_error_exit = unbind_and_fail

-- The error branch above the label: both options are read for the log, then the label is reached.
abbrev pub report_and_fail : M ReturnCode
report_and_fail =
    get_ldap_option opt_result_code bind_error_exit
      λ _. get_ldap_option opt_diagnostic_message bind_error_exit λ _. bind_error_exit

unfoldable pub connection_ldap_bind : M ReturnCode
connection_ldap_bind = with_defaults λ defaults. do
  a ← perform (call_interactive_bind defaults.mechanism)
  if is_connecting a.code
      then pure rc_repeat_last_operation
      else if not (is_success a.code) && not (is_in_progress a.code)
      then report_and_fail
      else do
        missing ← handlers_missing
        if missing then unbind_and_fail else do
          enqueue_request a.msgid bind_handler
          pure (if is_in_progress a.code then rc_operation_in_progress else rc_success)

-- `if (p) ldap_memfree (p);`
abbrev memfree : Option CString → M (Unit {0})
memfree none = pure tt
memfree (some p) = perform (call_memfree p) >> pure tt

unfoldable pub free_defaults : Owned SaslDefaults → M (Unit {0})
free_defaults unset = pure tt
free_defaults dangling = faulty
free_defaults (valid d) = do memfree d.authcid; memfree d.authzid; memfree d.realm

-- `if (ev) verto_del (ev);` frees the event; the field keeps its address.
unfoldable pub delete_event : Owned (Unit {0}) → M (Owned (Unit {0}))
delete_event unset = pure unset
delete_event dangling = faulty
delete_event (valid _) = do perform call_verto_del; pure dangling

unfoldable pub connection_close : M ReturnCode
unfolding free_defaults delete_event
connection_close = do
  c₀ ← get
  free_defaults c₀.ldap_defaults
  r ← delete_event c₀.read_event
  c₁ ← get
  put (record c₁ { read_event = r })
  w ← delete_event c₀.write_event
  c₂ ← get
  put (record c₂ { write_event = w })
  st ← machine_state c₀.state_machine
  if state_eq st error then pure tt else (do
    perform call_verto_free
    c₃ ← get
    put (record c₃ { event_base = dangling })
    perform call_unbind
    pure tt)
  freed ← perform call_talloc_free
  c₄ ← get
  put (record c₄ { ldap_defaults = unset })
  pure (if is_success freed.code then rc_success else rc_failure)
