-- ===== src/Domain/Session/Setup.antt =====
-- The configuration that `ld_init` of src/domain.c gives a connection.
use libdomain.Prelude.{
  ◌≡◌, refl, Option, Bool, true, false, none, some, if◌then◌else◌, pos, CString,
}
use libdomain.Connection.{Config, bind_interactive, bind_simple}
use libdomain.Domain.Config.{LdConfig}
use libdomain.Domain.Session.{first_config, mechanism_of, bind_name}

-- The configuration of the connection that a user's configuration means.
abbrev pub setup_of : LdConfig → CString → Config
setup_of config username = record {
  server = some config.host;
  protocol_version = config.protocol_version;
  sasl_passwd = if config.use_sasl then config.password else none;
  bind_passwd = config.password;
  chase_referrals = false;
  use_start_tls = config.use_tls;
  use_sasl = config.use_sasl;
  bind_type = if config.simple_bind then bind_simple else bind_interactive;
  sasl_mechanism = if config.use_sasl then mechanism_of config else none;
  tls_ca_cert_file = if config.use_tls then some config.cacertfile else none;
  tls_ca_cert_path = none;
  tls_cert_file = if config.use_tls then some config.certfile else none;
  tls_key_file = if config.use_tls then some config.keyfile else none;
  search_timelimit = pos 0;
  network_timeout = pos 0;
  bind_dn = some (bind_name username config.base_dn);
}

-- The configurations on the way.
abbrev pub with_mechanism : LdConfig → Config → Config
with_mechanism config k =
    if config.use_sasl
    then record k { sasl_mechanism = mechanism_of config; sasl_passwd = config.password }
    else k

abbrev pub with_files : LdConfig → Config → Config
with_files config k =
    if config.use_tls
    then record k {
      tls_ca_cert_file = some config.cacertfile;
      tls_cert_file = some config.certfile;
      tls_key_file = some config.keyfile;
    }
    else k

abbrev pub with_bind_dn : LdConfig → CString → Config → Config
with_bind_dn config username k = record k { bind_dn = some (bind_name username config.base_dn) }

abbrev pub with_passwd : Option CString → Config → Config
with_passwd password k = record k { bind_passwd = password }

pub setup-steps :
    (config : LdConfig) (username : CString)
    → with_passwd config.password (
        with_bind_dn config username
          (with_files config (with_mechanism config (first_config config))))
      ≡ setup_of config username
setup-steps config username = on config.use_sasl config.use_tls
  where
    on :
        (use_sasl use_tls : Bool)
        → let config' = record config { use_sasl = use_sasl; use_tls = use_tls } in
          with_passwd config'.password (
            with_bind_dn config' username
              (with_files config' (with_mechanism config' (first_config config'))))
          ≡ setup_of config' username
    on true true = refl
    on true false = refl
    on false true = refl
    on false false = refl
