-- ===== src/Domain/Config/Made.antt =====
-- What `ld_create_config` and `ld_load_config` of src/domain.c make.
use Prim.Native.Nat.{◌/◌}
use libdomain.Syntaxes.Validators.{read_digits, is_digit}
use libdomain.Prelude.{
  ℕ, zero, suc, ◌+◌, ◌-◌, ◌*◌, ◌%◌, ◌^◌, ◌<◌, ◌==◌, ◌≡◌, ◌⊎◌, inl, inr, Bool-cases, refl, sym, ◌∙◌,
  Bool, true, false, Option, none, some, [], ◌∷◌, if◌then◌else◌, pos, Ptr, null, CString, codes,
  arith,
}
use libdomain.Connection.{Connection, M, pure, log}
use libdomain.Connection.Ends.{Returns}
use libdomain.Ldap.{call_talloc}
use libdomain.Entry.Memory.{Ample}
use libdomain.Domain.Config.{
  LdConfig, Settings, ConfigFile, ld_create_config, ld_load_config, digits, address, copied,
  copied_or_null, copied_or_empty, get_config_optional_int, get_config_optional_bool,
  get_config_required_string, load_settings,
}

-- The digits that are printed read back as the number, if there are enough of them.
digits-read :
    (k n : ℕ) (text : CString) → n < 10 ^ k → read_digits 0 (digits k n text) ≡ read_digits n text
digits-read zero n text h = let e : n ≡ 0 = omega arith in rw e refl
digits-read (suc k) n text h =
    let smaller : n / 10 < 10 ^ k = omega arith in
    let last : is_digit (b'0' + n % 10) ≡ true = ground arith in
    let whole : n / 10 * 10 + (b'0' + n % 10 - b'0') ≡ n = omega arith in
    elim (Bool-cases (n == 0)) [
      | inl e ↦ let e' : n ≡ 0 = ground arith in rw e' refl
      | inr e ↦ rw e (digits-read k (n / 10) _ smaller ∙ rw (last, whole) refl)
    ]

-- The settings of a file, with the values that stand for those that are not there.
abbrev pub settings_of : ConfigFile → Settings
settings_of file = record {
  host = file.lookup_string (codes "host");
  port = get_config_optional_int file (codes "port") (pos 0);
  protocol_version = get_config_optional_int file (codes "protocol_version") (pos 3);
  base_dn = file.lookup_string (codes "base_dn");
  username = file.lookup_string (codes "username");
  password = file.lookup_string (codes "password");
  simple_bind = get_config_optional_bool file (codes "simple_bind") false;
  use_tls = get_config_optional_bool file (codes "use_tls") false;
  use_sasl = get_config_optional_bool file (codes "use_sasl") false;
  use_anon = get_config_optional_bool file (codes "use_anon") false;
  timeout = get_config_optional_int file (codes "timeout") (pos 0);
  cacertfile = file.lookup_string (codes "ca_cert_file");
  certfile = file.lookup_string (codes "cert_file");
  keyfile = file.lookup_string (codes "key_file");
}

-- A file that libconfig can read and that has a host and a base DN: loading it does the same as creating a
-- configuration from its settings, in a context that is not NULL, however the memory answers.
pub load-create :
    (file : ConfigFile) (talloc_ctx : Ptr) (host base_dn : CString) (c : Connection)
    → (talloc_ctx == null) ≡ false
    → file.readable ≡ true
    → file.lookup_string (codes "host") ≡ some host
    → file.lookup_string (codes "base_dn") ≡ some base_dn
    → ld_load_config file c ≡ ld_create_config talloc_ctx (settings_of file) c
unfolding ld_load_config ld_create_config get_config_required_string
load-create file talloc_ctx host base_dn c ctx readable h b = rw (ctx, readable, h, b) refl

abbrev or_empty : Option CString → CString
or_empty none = []
or_empty (some text) = text

-- The configuration that settings describe, with `host` and `base_dn` in place of theirs.
abbrev pub described : Settings → (host base_dn : CString) → LdConfig
described s host base_dn = record {
  host = address host s.port;
  protocol_version = s.protocol_version;
  base_dn = base_dn;
  username = s.username;
  password = s.password;
  simple_bind = s.simple_bind;
  use_tls = s.use_tls;
  use_sasl = s.use_sasl;
  use_anon = s.use_anon;
  timeout = s.timeout;
  cacertfile = or_empty s.cacertfile;
  certfile = or_empty s.certfile;
  keyfile = or_empty s.keyfile;
}

-- The configuration in a file that can be read, if it has a host and a base DN.
abbrev found_at : ConfigFile → CString → Option LdConfig
found_at file host = elim (file.lookup_string (codes "base_dn")) [
  | none ↦ none
  | some base_dn ↦ some (described (settings_of file) host base_dn)
]

abbrev found : ConfigFile → Option LdConfig
found file = elim (file.lookup_string (codes "host")) [
  | none ↦ none
  | some host ↦ found_at file host
]

-- The configuration in a file.
abbrev pub config_of : ConfigFile → Option LdConfig
config_of file = if file.readable then found file else none

module _ (c₀ : Connection) (want : Option LdConfig) where
  -- A result is what is wanted, or NULL for want of memory.
  abbrev pub Made : Option LdConfig → Connection → Type 0
  Made r c = (r ≡ want) ⊎ ((r ≡ none) × ¬ Ample c₀)

  abbrev Makes : M (Option LdConfig) → Type 0
  Makes m = (c : Connection) → c.world ≡ c₀.world → Returns Made (m c)

  lacking :
      (c : Connection)
      → c.world ≡ c₀.world
      → ((c.world (call_talloc ∷ c.trace)).ptr == null) ≡ true
      → ¬ Ample c₀
  lacking c w lacks ample =
      let e : true ≡ false = sym lacks ∙ rw w (ample (call_talloc ∷ c.trace)) in absurd (cc)

  copied-Makes :
      (text : CString) (rest : CString → M (Option LdConfig))
      → Makes (rest text)
      → Makes (copied text rest)
  unfolding copied
  copied-Makes text rest h c w = elim (Bool-cases ((c.world (call_talloc ∷ c.trace)).ptr == null)) [
    | inl e ↦ rw e (inr (refl, lacking c w e))
    | inr e ↦ rw e (h _ w)
  ]

  copied_or_null-Makes :
      (text : Option CString) (rest : Option CString → M (Option LdConfig))
      → Makes (rest text)
      → Makes (copied_or_null text rest)
  unfolding copied_or_null
  copied_or_null-Makes none rest h = h
  copied_or_null-Makes (some t) rest h = copied-Makes t (λ copy. rest (some copy)) h

  copied_or_empty-Makes :
      (text : Option CString) (rest : CString → M (Option LdConfig))
      → Makes (rest (or_empty text))
      → Makes (copied_or_empty text rest)
  unfolding copied_or_empty
  copied_or_empty-Makes none rest h = copied-Makes [] rest h
  copied_or_empty-Makes (some t) rest h = copied-Makes t rest h

required-Makes :
    (c₀ : Connection) (file : ConfigFile) (name : CString) (want : CString → Option LdConfig)
    (rest : CString → M (Option LdConfig))
    → ((out : CString) → Makes c₀ (want out) (rest out))
    → Makes c₀
        (elim (file.lookup_string name) [ none ↦ none | some out ↦ want out ])
        (get_config_required_string file name rest)
unfolding get_config_required_string
required-Makes c₀ file name want rest h = on (file.lookup_string name)
  where
    on :
        (o : Option CString)
        → Makes c₀
            (elim o [ none ↦ none | some out ↦ want out ])
            (elim o [ none ↦ pure none | some out ↦ rest out ])
    on none = λ c w. inl refl
    on (some out) = h out

-- The lines after the file was read.
settings-Makes : (c₀ : Connection) (file : ConfigFile) → Makes c₀ (found file) (load_settings file)
settings-Makes c₀ file = required-Makes c₀ file (codes "host") (found_at file) _ λ host.
    copied-Makes c₀ (found_at file host) _ _ (
      required-Makes c₀ file (codes "base_dn")
        (λ base_dn. some (described (settings_of file) host base_dn)) _
        λ base_dn.
          let want = some (described (settings_of file) host base_dn) in
          copied-Makes c₀ want base_dn _ (
            copied_or_null-Makes c₀ want _ _ (
              copied_or_null-Makes c₀ want _ _ (
                copied_or_empty-Makes c₀ want _ _ (
                  copied_or_empty-Makes c₀ want _ _
                    (copied_or_empty-Makes c₀ want _ _ (λ c w. inl refl)))))))

-- Loading a file returns whatever the file and the memory are: the result is the configuration in the
-- file, which is none if the file cannot be read or has no host or no base DN, or it is NULL and there was
-- not memory for everything.
pub load-Made :
    (file : ConfigFile) (c : Connection) → Returns (Made c (config_of file)) (ld_load_config file c)
unfolding ld_load_config
load-Made file c = elim (Bool-cases ((c.world (call_talloc ∷ c.trace)).ptr == null)) [
  | inl e ↦ rw e (inr (refl, lacking c (config_of file) c refl e))
  | inr e ↦ rw e (read file.readable)
]
  where
    read :
        (readable : Bool)
        → Returns
            (Made c (if readable then found file else none))
            ((if readable then load_settings file else pure none) (log call_talloc c))
    read true = settings-Makes c file (log call_talloc c) refl
    read false = inl refl
