-- ===== src/StateMachine/Ticks.antt =====
-- The timer of a session: `connection_update` of src/domain.c, tick after tick.
use mathlib.Core.Path.{subst}
use libdomain.Prelude.{
  ℕ, zero, suc, ◌*◌, ◌≡◌, ◌≢◌, refl, Bool, true, false, ◌||◌, if◌then◌else◌, Ptr, arith, sym,
}
use libdomain.Connection.{Connection, ConnectionState, run, error, M, pure, ◌>>=◌}
use libdomain.Connection.States.{machine_state, state_eq}
use libdomain.Connection.Ends.{Returns, Returns-bind}
use libdomain.Connection.Returning.{Able}
use libdomain.StateMachine.{csm_next_state, connection_update}
use libdomain.StateMachine.Progress.{Running, step-Running}

-- The first `k` ticks of the timer, with no other event between them: the event is persistent, so the
-- loop calls the function until it deletes the event.
abbrev pub ticks : ℕ → M (Unit {0})
ticks zero = pure tt
ticks (suc k) = do deleted ← connection_update; if deleted then pure tt else ticks k

-- After a tick: the machine is in memory; unless the event is deleted it is not in the error state, and
-- there is room for `n` requests.
abbrev Ticked : Ptr → ℕ → Bool → Connection → Type 0
Ticked own n deleted c =
    (st : ConnectionState) × Able own own st n c
    × (deleted ≡ (state_eq st run || state_eq st error))

-- The end of a tick.
verdict : Ptr → M Bool
verdict p = do st ← machine_state p; pure (state_eq st run || state_eq st error)

verdict-Ticked :
    (own p : Ptr) (n : ℕ) (st : ConnectionState) (d : Connection)
    → p ≡ own
    → Able own own st n d
    → Returns (Ticked own n) (verdict p d)
unfolding verdict
verdict-Ticked own p n st d e g = rw (e, g.alive) (st, g, refl)

update-Ticked :
    (n : ℕ) (st : ConnectionState) (c : Connection)
    → st ≢ error
    → Able c.state_machine c.state_machine st (suc (suc n)) c
    → Returns (Ticked c.state_machine n) (connection_update c)
unfolding connection_update verdict
update-Ticked n st c ne h =
    let own = c.state_machine in
    Returns-bind (Running own own n) (Ticked own n) (csm_next_state own c) _
      (step-Running own own n c st ne h)
      (λ _ d (next, g). verdict-Ticked own d.state_machine n next d g.current g)

not_deleted : (st : ConnectionState) → (state_eq st run || state_eq st error) ≡ false → st ≢ error
not_deleted st h e =
    let k : (state_eq error run || state_eq error error) ≡ false = rw e at h in absurd (cc)

own-Ticked :
    (own : Ptr) (n : ℕ) (st : ConnectionState) (c : Connection)
    → own ≡ c.state_machine
    → st ≢ error
    → Able own own st (suc (suc n)) c
    → Returns (Ticked own n) (connection_update c)
own-Ticked own n st c e ne =
    subst (λ p. Able p p st (suc (suc n)) c → Returns (Ticked p n) (connection_update c)) (sym e)
      (update-Ticked n st c ne)

any-Able :
    (own : Ptr) (n : ℕ) (st : ConnectionState) (c : Connection)
    → Able own own st n c
    → Able own own st 0 c
any-Able own n st c h = record {
  room = omega (arith, h.room);
  events = h.events;
  defaults = h.defaults;
  in_memory = h.in_memory;
  alive = h.alive;
  current = h.current;
  loadable = h.loadable;
}

abbrev pub twice : ℕ → ℕ
twice zero = zero
twice (suc k) = suc (suc (twice k))

pub twice_lem : (k : ℕ) → twice k ≡ k * 2
twice_lem zero = refl
twice_lem (suc k) = let e = twice_lem k in omega arith

go_on :
    (own : Ptr) (k : ℕ) (rest : M (Unit {0})) (deleted : Bool) (d : Connection)
    → ((next : ConnectionState)
        → next ≢ error
        → Able own own next (twice k) d
        → Returns (Running own own 0) (rest d))
    → Ticked own (twice k) deleted d
    → Returns (Running own own 0) ((if deleted then pure tt else rest) d)
go_on own k rest true d h (next, g, v) = (next, any-Able own (twice k) next d g)
go_on own k rest false d h (next, g, v) = h next (not_deleted next (sym v)) g

-- From a state other than `error`, with room for two requests in each of `k` ticks, the ticks return, and
-- the machine is in memory after them.
pub ticks-Running :
    (own : Ptr) (k : ℕ) (st : ConnectionState) (c : Connection)
    → st ≢ error
    → Able own own st (twice k) c
    → Returns (Running own own 0) (ticks k c)
ticks-Running own zero st c ne h = (st, h)
ticks-Running own (suc k) st c ne h =
    Returns-bind (Ticked own (twice k)) (Running own own 0) (connection_update c)
      (λ deleted. if deleted then pure tt else ticks k)
      (own-Ticked own (twice k) st c (sym h.current) ne h)
      (λ deleted d. go_on own k (ticks k) deleted d (λ next. ticks-Running own k next d))
