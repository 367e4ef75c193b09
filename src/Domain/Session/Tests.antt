-- ===== src/Domain/Session/Tests.antt =====
-- Sessions at concrete configurations.
use libdomain.Prelude.{true, false, Option, none, some, List, [], ◌∷◌, ◌≡◌, refl, pos, codes}
use libdomain.Ldap.{World, update_connection, user_timer, call_verto_add_timeout, Call}
use libdomain.Connection.{Outcome, done, fault, out_of_fuel, error}
use libdomain.Connection.Configure.{connection_configure}
use libdomain.Connection.States.{csm_init}
use libdomain.Connection.Sample.{idle_in, good}
use libdomain.Domain.Config.{LdConfig}
use libdomain.Domain.Session.{
  Session, no_handle, uninitialised, session, ld_init, ld_free, ld_install_handler,
  ld_install_default_handlers,
}
use libdomain.Domain.Session.Opened.{Opened}
use libdomain.Domain.Session.Driven.{Driven}

abbrev sasl : LdConfig
sasl = record {
  host = codes "dc";
  protocol_version = pos 3;
  base_dn = codes "dc=x";
  username = some (codes "u");
  password = some (codes "p");
  simple_bind = false;
  use_tls = true;
  use_sasl = true;
  use_anon = false;
  timeout = pos 0;
  cacertfile = [];
  certfile = [];
  keyfile = [];
}

abbrev result : Outcome Session → Option Session
result (done s c) = some s
result fault = none
result out_of_fuel = none

opens : result (ld_init (some sasl) (idle_in error)) ≡ some (session sasl)
unfolding ld_init connection_configure csm_init
opens = refl

-- There is no memory.
abbrev starving : World
starving past = record good { ptr = 0 }

starves :
    result (ld_init (some sasl) (record (idle_in error) { world = starving })) ≡ some no_handle
unfolding ld_init
starves = refl

without_config : result (ld_init none (idle_in error)) ≡ some uninitialised
unfolding ld_init
without_config = refl

-- The name of a user that is NULL is read.
without_username : result (ld_init (some (record sasl { username = none })) (idle_in error)) ≡ none
unfolding ld_init
without_username = refl

abbrev calls : {A : Type 0} → Outcome A → List Call
calls (done a c) = c.trace
calls fault = []
calls out_of_fuel = []

default_timer :
    calls (ld_install_default_handlers 1 (idle_in error))
    ≡ call_verto_add_timeout update_connection (pos 1000) ∷ []
unfolding ld_install_default_handlers
default_timer = refl

user_timer_installed :
    calls (ld_install_handler 1 (user_timer 3) (pos 20) (idle_in error))
    ≡ call_verto_add_timeout (user_timer 3) (pos 20) ∷ []
unfolding ld_install_handler
user_timer_installed = refl

without_handle :
    (calls (ld_install_default_handlers 0 (idle_in error)) ≡ [])
    × (calls (ld_free 0 (idle_in error)) ≡ [])
unfolding ld_install_default_handlers ld_free
without_handle = (refl, refl)
