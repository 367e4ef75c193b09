-- ===== src/Domain/Session/Driven.antt =====
-- A session of `ld_init` under the timer of `ld_install_default_handlers`, both of src/domain.c.
use libdomain.Prelude.{ℕ}
use libdomain.Connection.{Connection}
use libdomain.Connection.Ends.{Returns}
use libdomain.Connection.Configure.Rule.{Refused}
use libdomain.StateMachine.Progress.{Running}
use libdomain.StateMachine.Ticks.{ticks}
use libdomain.Domain.Session.{Session, no_handle, uninitialised, session}
use libdomain.Domain.Session.Opened.{Opened}

-- The first `k` ticks of a session's timer return, and its machine is in memory after them.
abbrev pub Driven : Connection → ℕ → Session → Connection → Type 0
Driven c₀ k no_handle c = Refused c₀
Driven c₀ k uninitialised c = ⊥
Driven c₀ k (session own) c = Returns (Running c.state_machine c.state_machine 0) (ticks k c)
