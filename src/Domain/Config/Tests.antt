-- ===== src/Domain/Config/Tests.antt =====
-- Configurations at concrete values.
use libdomain.Prelude.{
  true, false, Option, none, some, [], if◌then◌else◌, str_eq, ◌≡◌, refl, pos, codes,
}
use libdomain.Connection.{Outcome, done, fault, out_of_fuel, error}
use libdomain.Connection.Ends.{Returns}
use libdomain.Connection.Sample.{idle_in}
use libdomain.Domain.Config.{
  LdConfig, ConfigFile, ld_create_config, ld_load_config, copied, copied_or_null, copied_or_empty,
  get_config_required_string,
}
use libdomain.Domain.Config.Made.{Made, config_of, settings_of, load-create, load-Made}

-- host = "dc"; port = 389; base_dn = "dc=x"; username = "u"; use_tls = true
abbrev file : ConfigFile
file = record {
  readable = true;
  lookup_string = λ name.
      if str_eq name (codes "host")
      then some (codes "dc")
      else if str_eq name (codes "base_dn")
      then some (codes "dc=x")
      else if str_eq name (codes "username")
      then some (codes "u")
      else none;
  lookup_int = λ name. if str_eq name (codes "port") then some (pos 389) else none;
  lookup_bool = λ name. if str_eq name (codes "use_tls") then some true else none;
}

abbrev result : Outcome (Option LdConfig) → Option (Option LdConfig)
result (done r c) = some r
result fault = none
result out_of_fuel = none

loaded :
    result (ld_load_config file (idle_in error))
    ≡ some (
        some (record {
          host = codes "dc:389";
          protocol_version = pos 3;
          base_dn = codes "dc=x";
          username = some (codes "u");
          password = none;
          simple_bind = false;
          use_tls = true;
          use_sasl = false;
          use_anon = false;
          timeout = pos 0;
          cacertfile = [];
          certfile = [];
          keyfile = [];
        }))
unfolding ld_load_config copied copied_or_null copied_or_empty get_config_required_string
loaded = refl

without_host :
    result (ld_load_config (record file { lookup_string = λ _. none }) (idle_in error)) ≡ some none
unfolding ld_load_config get_config_required_string
without_host = refl

-- `strlen (NULL)`
without_base_dn :
    result (ld_create_config 1 (record (settings_of file) { base_dn = none }) (idle_in error))
    ≡ none
unfolding ld_create_config copied
without_base_dn = refl

load-create_example :
    ld_load_config file (idle_in error) ≡ ld_create_config 1 (settings_of file) (idle_in error)
load-create_example =
    load-create file 1 (codes "dc") (codes "dc=x") (idle_in error) refl refl refl refl

load-Made_example :
    Returns (Made (idle_in error) (config_of file)) (ld_load_config file (idle_in error))
load-Made_example = load-Made file (idle_in error)
