-- ===== src/StateMachine/Reconnect.antt =====
-- `csm_next_state` in the error state: when it starts again, with which count of reconnections, and
-- when it gives up.
use libdomain.Prelude.{ltb, ◌≤◌, ◌<◌, ◌≡◌, refl, ◌∙◌, ap, true, some, Ptr, arith, update_self}
use libdomain.Connection.{
  Connection, ConnectionState, init, error, ReturnCode, rc_success, done, pure,
}
use libdomain.Connection.States.{csm_set_state}
use libdomain.Connection.Ends.{Ends, Ends-bind, Ends-if, Returns}
use libdomain.Connection.Bind.{connection_close}
use libdomain.Connection.Bind.Close.{On, Same, deleted, close-On}
use libdomain.Connection.Configure.{connection_configure}
use libdomain.Connection.Configure.Result.{IsBlank, configure-IsBlank}
use libdomain.StateMachine.{csm_next_state, from_error, max_reconnect_attempts}

-- In the error state with fewer than 10 reconnections counted, if the close returns, the configuration
-- that follows succeeds, and the machine at `ctx` still exists, then the machine is in the state `init`
-- and the count of reconnections is 1, whatever it was before.
pub restart-one_attempt :
    (ctx : Ptr) (c d e : Connection) (r : ReturnCode) (st : ConnectionState)
    → c.machines ctx ≡ some error
    → connection_close c ≡ done r d
    → connection_configure d ≡ done rc_success e
    → c.n_reconnect_attempts < max_reconnect_attempts
    → e.machines ctx ≡ some st
    → Returns
        (λ rc c'. (rc ≡ rc_success) × (c'.machines ctx ≡ some init) × (c'.n_reconnect_attempts ≡ 1))
        (csm_next_state ctx c)
unfolding csm_next_state from_error csm_set_state
restart-one_attempt ctx c d e r st at closed configured few alive =
    let kept : Ends (λ _. On c (deleted c.read_event) (deleted c.write_event)) (done r d) =
      rw closed at (close-On c) in
    let more : ltb d.n_reconnect_attempts max_reconnect_attempts ≡ true =
      ground (arith, kept.0.attempts) in
    let blank : IsBlank e = (rw configured at (configure-IsBlank d)).3 in
    rw (at, closed, more, configured, alive)
      (refl, update_self e.machines ctx _, omega (arith, blank.attempts))

-- In the error state with 10 or more reconnections counted, unless the close has no defined behaviour,
-- the call succeeds, the machine stays in the error state, and the count stays.
pub error-gives_up :
    (ctx : Ptr) (c : Connection)
    → c.machines ctx ≡ some error
    → max_reconnect_attempts ≤ c.n_reconnect_attempts
    → Ends
        (λ rc c'.
          (rc ≡ rc_success)
          × (c'.machines ctx ≡ some error)
          × (c'.n_reconnect_attempts ≡ c.n_reconnect_attempts))
        (csm_next_state ctx c)
unfolding csm_next_state from_error
error-gives_up ctx c at many = rw at (
    Ends-bind (λ _. On c (deleted c.read_event) (deleted c.write_event)) _ (connection_close c) _
      (close-On c)
      (λ _ d (same, _, _).
        Ends-if _ (ltb d.n_reconnect_attempts max_reconnect_attempts) _ (pure rc_success) d
          (λ more. absurd (still_few d same more))
          (λ _. (refl, ap (λ f. f ctx) same.machines ∙ at, same.attempts))))
  where
    still_few :
        (d : Connection) → Same c d → ltb d.n_reconnect_attempts max_reconnect_attempts ≡ true → ⊥
    still_few d same more = ground (arith, same.attempts)
