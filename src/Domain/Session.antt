-- ===== src/Domain/Session.antt =====
-- src/domain.c: the life of a session, `ld_init` and `ld_free`, and the timers that its user installs.
pub mod Setup
pub mod Opened
pub mod Driven
mod Tests
use libdomain.Prelude.{
  ℕ, ◌==◌, Bool, true, false, Option, none, some, ◌++◌, if◌then◌else◌, ℤ, pos, Ptr, null, CString,
  codes,
}
use libdomain.Ldap.{
  opt_debug_level, TimerCallback, update_connection, call_talloc, call_talloc_free, call_set_option,
  call_malloc, call_free, call_verto_add_timeout,
}
use libdomain.Connection.{
  Connection, Config, BindType, bind_interactive, bind_simple, type_unknown, Request, unset, M,
  pure, get, put, faulty, perform, ◌>>=◌, ◌>>◌,
}
use libdomain.Connection.Bind.{is_rc_success, connection_close}
use libdomain.Connection.Configure.{connection_configure}
use libdomain.Entry.{zero_search_request}
use libdomain.Entry.Table.{allocate}
use libdomain.Domain.Config.{LdConfig}

-- What `ld_init` leaves at `handle`: NULL; memory without any value in it; or a session with its copy of
-- the configuration, whose connection and `config_ctx` are the state of the run.
pub data Session : Type 0 where
  no_handle uninitialised : Session
  session : LdConfig → Session

-- All bytes of a `struct ldap_connection_config_t` zero, with the fields that `ld_init` sets first.
abbrev pub first_config : LdConfig → Config
first_config config = record {
  server = some config.host;
  protocol_version = config.protocol_version;
  sasl_passwd = none;
  bind_passwd = none;
  chase_referrals = false;
  use_start_tls = config.use_tls;
  use_sasl = config.use_sasl;
  bind_type = if config.simple_bind then bind_simple else bind_interactive;
  sasl_mechanism = none;
  tls_ca_cert_file = none;
  tls_ca_cert_path = none;
  tls_cert_file = none;
  tls_key_file = none;
  search_timelimit = pos 0;
  network_timeout = pos 0;
  bind_dn = none;
}

abbrev zero_request : Request
zero_request = record { msgid = pos 0; on_read_operation = none }

-- A new connection, all bytes zero. What is in other memory stays, the static variable
-- `schema_entry_path` of src/ad_schema.c included, and so does `bind_type`, which has no value that is 0
-- and is set before it is read.
abbrev pub zero_connection : LdConfig → Connection → Connection
zero_connection config c = record c {
  config = first_config config;
  handlers_installed = false;
  event_base = unset;
  read_event = unset;
  write_event = unset;
  on_error_operation = none;
  directory_type = type_unknown;
  msgid = pos 0;
  callqueue = null;
  read_requests = λ _. zero_request;
  write_requests = λ _. zero_request;
  search_requests = λ _. zero_search_request;
  n_read_requests = 0;
  n_write_requests = 0;
  n_search_requests = 0;
  n_reconnect_attempts = 0;
  state_machine = null;
  ldap_defaults = unset;
  schema = null;
}

-- The label `error_exit`, where the context exists.
unfoldable pub give_up : M Session
give_up = do perform call_talloc_free; perform call_free; pure no_handle

-- Allocations, and what follows if they succeed.
unfoldable pub needed : ℕ → M Session → M Session
unfolding give_up
needed n rest = do ok ← allocate n; if ok then rest else give_up

-- `ld_talloc_strdup` of a text that may be NULL: the library returns NULL for it, or reads there.
unfoldable pub duplicated : Option CString → M Session → M Session
unfolding needed give_up
duplicated (some text) rest = needed 1 rest
duplicated none rest = do a ← perform call_talloc; if a.ptr == null then give_up else faulty

-- `LDAP_SASL_SIMPLE` is NULL.
abbrev pub mechanism_of : LdConfig → Option CString
mechanism_of config = if config.simple_bind then none else some (codes "GSSAPI")

abbrev pub set_mechanism : LdConfig → M Session → M Session
set_mechanism config next = do
  c ← get
  put (record c {
    config = record c.config {
      sasl_mechanism = mechanism_of config;
      sasl_passwd = config.password;
    };
  })
  next

unfoldable pub sasl_options : LdConfig → M Session → M Session
unfolding needed duplicated
sasl_options config next =
    if config.use_sasl
    then needed 1 (duplicated config.password (set_mechanism config next))
    else next

abbrev pub set_files : LdConfig → M Session → M Session
set_files config next = do
  c ← get
  put (record c {
    config = record c.config {
      tls_ca_cert_file = some config.cacertfile;
      tls_cert_file = some config.certfile;
      tls_key_file = some config.keyfile;
    };
  })
  next

unfoldable pub tls_files : LdConfig → M Session → M Session
unfolding needed
tls_files config next = if config.use_tls then needed 3 (set_files config next) else next

-- `"cn=%s,%s"`
abbrev pub bind_name : (username base_dn : CString) → CString
bind_name username base_dn = codes "cn=" ++ username ++ codes "," ++ base_dn

-- `passwd->bv_val`, with its length.
abbrev pub set_passwd : Option CString → M Session → M Session
set_passwd password next = do
  c ← get
  put (record c { config = record c.config { bind_passwd = password } })
  next

-- The password for a simple bind: no text first, then a copy if there is one.
unfoldable pub copy_password : LdConfig → M Session → M Session
unfolding needed
copy_password config next =
    set_passwd none
      (elim config.password [ none ↦ next | some text ↦ needed 1 (set_passwd (some text) next) ])

abbrev pub set_bind_dn : LdConfig → CString → M Session → M Session
set_bind_dn config username next = do
  c ← get
  put (record c { config = record c.config { bind_dn = some (bind_name username config.base_dn) } })
  next

-- The lines with the user's name, which `"%s"` reads and which may be NULL.
abbrev pub name_bind : LdConfig → M Session → Option CString → M Session
name_bind config next none = faulty
name_bind config next (some username) =
    needed 1 (set_bind_dn config username (needed 1 (copy_password config next)))

-- The parameters of the bind.
unfoldable pub ldap_params : LdConfig → M Session → M Session
unfolding needed copy_password
ldap_params config next = needed 1 (name_bind config next config.username)

-- The last lines.
unfoldable pub start : LdConfig → M Session
unfolding give_up
start config = do
  rc ← connection_configure
  if is_rc_success rc then pure (session config) else give_up

-- The zeroed structs, the fields that the function sets in them, and the debug level.
abbrev pub zero_contexts : LdConfig → M Session → M Session
zero_contexts config next = do
  c ← get
  put (zero_connection config c)
  perform (call_set_option opt_debug_level)
  next

-- The lines after `ld_talloc_new`: the copy of the configuration and the three structs come first.
unfoldable pub set_up : LdConfig → M Session
unfolding needed sasl_options tls_files ldap_params start
set_up config = needed 4 (
    zero_contexts config
      (sasl_options config (tls_files config (ldap_params config (start config)))))

unfoldable pub ld_init : Option LdConfig → M Session
unfolding set_up
ld_init config = do
  handle ← perform call_malloc
  if handle.ptr == null then pure no_handle else elim config [
    | none ↦ pure uninitialised
    | some config ↦ (do
      ctx ← perform call_talloc
      if ctx.ptr == null then (do perform call_free; pure no_handle) else set_up config)
  ]

unfoldable pub ld_free : Ptr → M (Unit {0})
ld_free handle =
    if handle == null
    then pure tt
    else (do connection_close; perform call_talloc_free; perform call_free; pure tt)

-- The milliseconds between two calls of `connection_update`.
abbrev pub connection_update_interval : ℤ
connection_update_interval = pos 1000

unfoldable pub ld_install_handler : Ptr → TimerCallback → ℤ → M (Unit {0})
ld_install_handler handle callback interval =
    if handle == null
    then pure tt
    else (do perform (call_verto_add_timeout callback interval); pure tt)

unfoldable pub ld_install_default_handlers : Ptr → M (Unit {0})
ld_install_default_handlers handle =
    if handle == null
    then pure tt
    else (do perform (call_verto_add_timeout update_connection connection_update_interval); pure tt)

-- `verto_run` and `verto_run_once`, which call the callbacks back, are a parameter.
module _ (verto_run verto_run_once : M (Unit {0})) where
  unfoldable pub ld_exec : Ptr → M (Unit {0})
  ld_exec handle = if handle == null then pure tt else verto_run

  unfoldable pub ld_exec_once : Ptr → M (Unit {0})
  ld_exec_once handle = if handle == null then pure tt else verto_run_once
