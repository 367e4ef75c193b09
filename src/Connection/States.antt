-- ===== src/Connection/States.antt =====
-- src/connection_state_machine.c, its small functions: `csm_init`, `csm_set_state` and
-- `csm_is_in_state`. A state machine is an address, since `connection_configure` replaces the machine
-- of a connection while `csm_next_state` still holds the old one.
use libdomain.Prelude.{Bool, true, false, none, some, update, Ptr}
use libdomain.Connection.{
  ConnectionState, init, tls_negotiation, transport_ready, bind_in_progress, bound,
  detect_directory, run, error, request_schema, check_schema, M, pure, get, put, faulty, ◌>>=◌,
  ◌>>◌,
}

abbrev pub state_eq : ConnectionState → ConnectionState → Bool
state_eq init init = true
state_eq tls_negotiation tls_negotiation = true
state_eq transport_ready transport_ready = true
state_eq bind_in_progress bind_in_progress = true
state_eq bound bound = true
state_eq detect_directory detect_directory = true
state_eq run run = true
state_eq error error = true
state_eq request_schema request_schema = true
state_eq check_schema check_schema = true
state_eq _ _ = false

-- `ctx->state`; a machine that is not in memory cannot be read.
abbrev pub machine_state : Ptr → M ConnectionState
machine_state ctx = do c ← get; elim (c.machines ctx) [ none ↦ faulty | some st ↦ pure st ]

unfoldable pub csm_init : Ptr → M (Unit {0})
csm_init ctx = do c ← get; put (record c { machines = update c.machines ctx (some init) })

unfoldable pub csm_set_state : Ptr → ConnectionState → M (Unit {0})
csm_set_state ctx state = do
  machine_state ctx
  c ← get
  put (record c { machines = update c.machines ctx (some state) })

unfoldable pub csm_is_in_state : Ptr → ConnectionState → M Bool
csm_is_in_state ctx state = do st ← machine_state ctx; pure (state_eq st state)
