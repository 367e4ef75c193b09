-- ===== src/StateMachine/Tests.antt =====
-- The theorems on the state machine at concrete connections.
use libdomain.Prelude.{◌≡◌, refl, some, arith}
use libdomain.Connection.{Connection, rc_success, init, error}
use libdomain.Connection.Ends.{Ends, Returns}
use libdomain.Connection.Bind.{connection_close, free_defaults, delete_event}
use libdomain.Connection.Configure.{
  connection_configure, timeouts, search_limit, network, connection_microseconds_to_timeval,
  options, defaults, sasl, tls, reset, new_schema, set_requests, finish,
}
use libdomain.RequestQueue.{request_queue_new}
use libdomain.Connection.States.{csm_init}
use libdomain.Connection.Sample.{idle_in}
use libdomain.StateMachine.{csm_next_state}
use libdomain.StateMachine.Graph.{Moved, csm_next_state-Edge}
use libdomain.StateMachine.Reconnect.{restart-one_attempt, error-gives_up}

csm_next_state-Edge_example : Ends (Moved 9 error) (csm_next_state 9 (idle_in error))
csm_next_state-Edge_example = csm_next_state-Edge 9 (idle_in error) error refl

restart-one_attempt_example :
    Returns
      (λ rc c'. (rc ≡ rc_success) × (c'.machines 9 ≡ some init) × (c'.n_reconnect_attempts ≡ 1))
      (csm_next_state 9 (idle_in error))
unfolding connection_close free_defaults delete_event connection_configure csm_init timeouts
    search_limit network connection_microseconds_to_timeval options defaults sasl tls reset
    new_schema set_requests finish request_queue_new
restart-one_attempt_example =
    restart-one_attempt 9 (idle_in error) _ _ rc_success error refl refl refl (omega arith) refl

-- A connection that was configured without success ten times.
abbrev tired : Connection
tired = record (idle_in error) { n_reconnect_attempts = 10 }

error-gives_up_example :
    Ends
      (λ rc c'.
        (rc ≡ rc_success)
        × (c'.machines 9 ≡ some error)
        × (c'.n_reconnect_attempts ≡ tired.n_reconnect_attempts))
      (csm_next_state 9 tired)
error-gives_up_example = error-gives_up 9 tired refl (omega arith)
