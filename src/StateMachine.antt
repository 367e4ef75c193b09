-- ===== src/StateMachine.antt =====
-- src/connection_state_machine.c: `csm_next_state`, which advances the machine at the address `ctx`,
-- and `connection_update` of src/domain.c, the timer callback that drives it.
pub mod Graph
pub mod Loading
pub mod Progress
pub mod Ticks
pub mod Reconnect
mod Tests
use libdomain.Prelude.{
  ℕ, ◌+◌, ◌==◌, ltb, Bool, true, false, ◌||◌, Option, none, some, if◌then◌else◌, Ptr,
}
use libdomain.Connection.{
  Connection, ConnectionState, init, tls_negotiation, transport_ready, bind_in_progress, bound,
  detect_directory, run, error, request_schema, check_schema, ReturnCode, rc_success, rc_failure,
  rc_missing_attribute, rc_operation_in_progress, rc_repeat_last_operation, BindType,
  bind_interactive, bind_simple, DirectoryType, type_uninitialized, M, pure, get, put, ◌>>=◌, ◌>>◌,
}
use libdomain.Connection.States.{machine_state, csm_set_state, state_eq}
use libdomain.Connection.Bind.{
  connection_start_tls, connection_ldap_bind, connection_sasl_bind, connection_close, is_rc_success,
}
use libdomain.Connection.Configure.{connection_configure}
use libdomain.Entry.{directory_get_type}
use libdomain.Schema.{ldap_schema_load, ldap_schema_ready}

abbrev pub max_reconnect_attempts : ℕ
max_reconnect_attempts = 10

-- `csm_set_state (ctx, ...); break;`, which ends in `return RETURN_CODE_SUCCESS`.
abbrev go : Ptr → ConnectionState → M ReturnCode
go ctx state = csm_set_state ctx state >> pure rc_success

from_init : Ptr → M ReturnCode
from_init ctx = do
  c ← get
  if c.config.use_start_tls
      then (do
        rc ← connection_start_tls
        go ctx (if is_rc_success rc then tls_negotiation else error))
      else go ctx transport_ready

-- The inner `switch` on the result of the bind.
abbrev pub after_bind : ReturnCode → ConnectionState
after_bind rc_success = detect_directory
after_bind rc_operation_in_progress = bind_in_progress
after_bind rc_repeat_last_operation = transport_ready
after_bind _ = error

from_transport_ready : Ptr → M ReturnCode
from_transport_ready ctx = do
  c ← get
  rc ← elim c.bind_type [
    | bind_interactive ↦ connection_ldap_bind
    | bind_simple ↦ connection_sasl_bind
  ]
  csm_set_state ctx (after_bind rc)
  pure rc

abbrev is_uninitialized : DirectoryType → Bool
is_uninitialized type_uninitialized = true
is_uninitialized _ = false

from_detect_directory : Ptr → M ReturnCode
from_detect_directory ctx = do
  c ← get
  if is_uninitialized c.directory_type
      then (do
        rc ← directory_get_type
        go ctx (if is_rc_success rc then detect_directory else error))
      else go ctx request_schema

abbrev pub after_load : ReturnCode → ConnectionState
after_load rc_success = check_schema
after_load rc_operation_in_progress = request_schema
after_load _ = error

from_request_schema : Ptr → M ReturnCode
from_request_schema ctx = do rc ← ldap_schema_load; go ctx (after_load rc)

from_check_schema : Ptr → M ReturnCode
from_check_schema ctx = do ready ← ldap_schema_ready; if ready then go ctx run else pure rc_success

from_run : M ReturnCode
from_run = do c ← get; put (record c { n_reconnect_attempts = 0 }); pure rc_success

-- The results of closing and of configuring again are not looked at.
from_error : Ptr → M ReturnCode
from_error ctx = do
  connection_close
  c ← get
  if ltb c.n_reconnect_attempts max_reconnect_attempts
      then (do
        connection_configure
        d ← get
        put (record d { n_reconnect_attempts = d.n_reconnect_attempts + 1 })
        go ctx init)
      else pure rc_success

unfoldable pub csm_next_state : Ptr → M ReturnCode
unfolding from_init from_transport_ready from_detect_directory from_request_schema from_check_schema
    from_run from_error
csm_next_state ctx = do
  st ← machine_state ctx
  elim st [
    | init ↦ from_init ctx
    | tls_negotiation ↦ pure rc_success
    | transport_ready ↦ from_transport_ready ctx
    | bind_in_progress ↦ pure rc_success
    | bound ↦ go ctx detect_directory
    | detect_directory ↦ from_detect_directory ctx
    | request_schema ↦ from_request_schema ctx
    | check_schema ↦ from_check_schema ctx
    | run ↦ from_run
    | error ↦ from_error ctx
  ]

-- `connection_update`; the result is whether the timer event is deleted.
unfoldable pub connection_update : M Bool
connection_update = do
  c ← get
  csm_next_state c.state_machine
  d ← get
  st ← machine_state d.state_machine
  pure (state_eq st run || state_eq st error)
