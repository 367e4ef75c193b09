-- ===== src/Domain/Config.antt =====
-- src/domain.c, src/domain_p.h: `ld_config_t` and the two functions that make one. libconfig is a
-- parameter: what it reads in a file.
pub mod Made
mod Tests
use Prim.Native.Nat.{◌/◌}
use libdomain.Prelude.{
  ℕ, zero, suc, ◌+◌, ◌%◌, ◌==◌, Bool, true, false, Option, none, some, List, [], ◌∷◌, ◌++◌,
  if◌then◌else◌, ℤ, pos, negsuc, Ptr, null, CString, codes,
}
use libdomain.Ldap.{call_talloc_free}
use libdomain.Connection.{M, pure, faulty, perform, ◌>>=◌, ◌>>◌}
use libdomain.Entry.Table.{allocate}

-- `struct ld_config_s`; the two functions leave only `username` and `password` NULL.
pub record LdConfig : Type 0 where
  pub host : CString
  pub protocol_version : ℤ
  pub base_dn : CString
  pub username : Option CString
  pub password : Option CString
  pub simple_bind : Bool
  pub use_tls : Bool
  pub use_sasl : Bool
  pub use_anon : Bool
  pub timeout : ℤ
  pub cacertfile : CString
  pub certfile : CString
  pub keyfile : CString

-- The arguments of `ld_create_config` after the context.
pub record Settings : Type 0 where
  pub host : Option CString
  pub port : ℤ
  pub protocol_version : ℤ
  pub base_dn : Option CString
  pub username : Option CString
  pub password : Option CString
  pub simple_bind : Bool
  pub use_tls : Bool
  pub use_sasl : Bool
  pub use_anon : Bool
  pub timeout : ℤ
  pub cacertfile : Option CString
  pub certfile : Option CString
  pub keyfile : Option CString

-- A file as libconfig reads it: whether it can, and the settings that it looks up.
pub record ConfigFile : Type 0 where
  pub readable : Bool
  pub lookup_string : CString → Option CString
  pub lookup_int : CString → Option ℤ
  pub lookup_bool : CString → Option Bool

-- The decimal digits of a number before a text; `k` of them are enough below 10 ^ k.
abbrev pub digits : (k n : ℕ) → CString → CString
digits zero n text = text
digits (suc k) n text =
    let more = digits k (n / 10) ((b'0' + n % 10) ∷ text) in if n == 0 then text else more

-- `"%s:%d"` for a port that is positive, of at most ten digits, and `"%s"` otherwise.
abbrev pub address : CString → ℤ → CString
address host (pos port) = if port == 0 then host else host ++ codes ":" ++ digits 10 port []
address host (negsuc _) = host

-- The copy of a text into the configuration; if it fails, the configuration is freed and the
-- function returns NULL.
unfoldable pub copied : CString → (CString → M (Option LdConfig)) → M (Option LdConfig)
copied text rest = do
  ok ← allocate 1
  if ok then rest text else (do perform call_talloc_free; pure none)

-- The copy of a text unless it is NULL.
unfoldable pub copied_or_null :
    Option CString → (Option CString → M (Option LdConfig)) → M (Option LdConfig)
unfolding copied
copied_or_null none rest = rest none
copied_or_null (some text) rest = copied text λ copy. rest (some copy)

-- The copy of a text, or of the empty string in place of NULL.
unfoldable pub copied_or_empty :
    Option CString → (CString → M (Option LdConfig)) → M (Option LdConfig)
unfolding copied
copied_or_empty none rest = copied [] rest
copied_or_empty (some text) rest = copied text rest

-- A NULL that `strlen` or `"%s"` reads.
abbrev pub not_null : Option CString → (CString → M (Option LdConfig)) → M (Option LdConfig)
not_null none rest = faulty
not_null (some text) rest = rest text

-- The lines after the configuration was allocated.
abbrev pub create_settings : Settings → M (Option LdConfig)
create_settings s = not_null s.host λ host. copied (address host s.port) λ host.
    not_null s.base_dn λ base_dn. copied base_dn λ base_dn. copied_or_null s.username λ username.
      copied_or_null s.password λ password. copied_or_empty s.cacertfile λ cacertfile.
        copied_or_empty s.certfile λ certfile. copied_or_empty s.keyfile λ keyfile. pure (
          some (record {
            host = host;
            protocol_version = s.protocol_version;
            base_dn = base_dn;
            username = username;
            password = password;
            simple_bind = s.simple_bind;
            use_tls = s.use_tls;
            use_sasl = s.use_sasl;
            use_anon = s.use_anon;
            timeout = s.timeout;
            cacertfile = cacertfile;
            certfile = certfile;
            keyfile = keyfile;
          }))

unfoldable pub ld_create_config : Ptr → Settings → M (Option LdConfig)
ld_create_config talloc_ctx s =
    if talloc_ctx == null
    then pure none
    else (do ok ← allocate 1; if ok then create_settings s else pure none)

-- The macro `get_config_required_string`, which returns NULL without freeing the configuration.
unfoldable pub get_config_required_string :
    ConfigFile → CString → (CString → M (Option LdConfig)) → M (Option LdConfig)
get_config_required_string file name rest = elim (file.lookup_string name) [
  | none ↦ pure none
  | some out ↦ rest out
]

-- The macro `get_config_optional_setting`: a setting that is not there leaves the value that `out` has.
abbrev pub get_config_optional_setting : {A : Type 0} → Option A → (out : A) → A
get_config_optional_setting none out = out
get_config_optional_setting (some value) out = value

abbrev pub get_config_optional_int : ConfigFile → CString → (out : ℤ) → ℤ
get_config_optional_int file name out = get_config_optional_setting (file.lookup_int name) out

abbrev pub get_config_optional_bool : ConfigFile → CString → (out : Bool) → Bool
get_config_optional_bool file name out = get_config_optional_setting (file.lookup_bool name) out

-- The lines after the configuration was allocated and the file read. `base_dn` is not NULL where the
-- function asks again.
abbrev pub load_settings : ConfigFile → M (Option LdConfig)
load_settings file = get_config_required_string file (codes "host") λ host.
    copied (address host (get_config_optional_int file (codes "port") (pos 0))) λ host.
      get_config_required_string file (codes "base_dn") λ base_dn. copied base_dn λ base_dn.
        copied_or_null (file.lookup_string (codes "username")) λ username.
          copied_or_null (file.lookup_string (codes "password")) λ password.
            copied_or_empty (file.lookup_string (codes "ca_cert_file")) λ cacertfile.
              copied_or_empty (file.lookup_string (codes "cert_file")) λ certfile.
                copied_or_empty (file.lookup_string (codes "key_file")) λ keyfile. pure (
                  some (record {
                    host = host;
                    protocol_version =
                        get_config_optional_int file (codes "protocol_version") (pos 3);
                    base_dn = base_dn;
                    username = username;
                    password = password;
                    simple_bind = get_config_optional_bool file (codes "simple_bind") false;
                    use_tls = get_config_optional_bool file (codes "use_tls") false;
                    use_sasl = get_config_optional_bool file (codes "use_sasl") false;
                    use_anon = get_config_optional_bool file (codes "use_anon") false;
                    timeout = get_config_optional_int file (codes "timeout") (pos 0);
                    cacertfile = cacertfile;
                    certfile = certfile;
                    keyfile = keyfile;
                  }))

unfoldable pub ld_load_config : ConfigFile → M (Option LdConfig)
ld_load_config file = do
  ok ← allocate 1
  if ok then (if file.readable then load_settings file else pure none) else pure none
