-- ===== src/Connection/Configure/Rule.antt =====
-- A rule for `connection_configure`: what the lines before `reset` keep, and what the last lines make
-- of it, holds of the whole function.
pub mod Whole
use libdomain.Prelude.{
  ◌==◌, Bool, false, Option, none, some, ◌∷◌, Ptr, null, update, update_self, refl, inl, inr,
  Bool-cases, ◌≡◌, ◌⊎◌, true, List,
}
use libdomain.Ldap.{
  Call, Answer, LdapOption, is_success, call_talloc, call_talloc_free, call_initialize,
  opt_tls_cacertfile, opt_tls_cacertdir, opt_tls_certfile, opt_tls_keyfile, opt_tls_newctx,
  opt_network_timeout, opt_timelimit, opt_sasl_nocanon, opt_sasl_secprops, opt_sasl_realm,
  opt_sasl_authcid, opt_sasl_authzid,
}
use libdomain.Connection.{
  Connection, ConnectionState, init, ReturnCode, rc_failure, Owned, SaslDefaults, unset, dangling,
  valid, M, log, set_ldap_option, get_ldap_option, ◌>>◌,
}
use libdomain.Connection.States.{csm_init}
use libdomain.Connection.Ends.{Returns, Returns-if}
use libdomain.Connection.Configure.{
  search_limit, identity, is_positive, network, timeouts, options, defaults, copy_mechanism,
  mechanism, sasl, tls, reset, finish, connection_configure, fail, fail_machine, fail_defaults,
  set_when, blank_defaults, is_set,
}

-- A call that the libraries answer with NULL or with an error.
abbrev pub Refused : Connection → Type 0
Refused c =
    (past : List Call) × ((((c.world past).ptr == null) ≡ true)
      ⊎ (is_success (c.world past).code ≡ false))

-- `Q` holds of the connection before `reset` however the library answers, and a failure keeps it.
pub record Stable (Q : Connection → Type 0) (P : ReturnCode → Connection → Type 0) : Type 0 where
  pub logged : (k : Call) (c : Connection) → Q c → Q (log k c)
  pub defaulted :
      (d : SaslDefaults) (c : Connection)
      → d.passwd ≡ none
      → Q c
      → Q (record c { ldap_defaults = valid d })
  pub failed :
      (f : Ptr → Option ConnectionState) (d : Owned SaslDefaults) (c : Connection)
      → Q c
      → Refused c
      → P rc_failure (record c { machines = f; ldap_defaults = d })

-- What the lines up to `csm_init` write keeps `Q`.
abbrev pub Started : (Connection → Type 0) → Type 0
Started Q =
    (p : Ptr) (f : Ptr → Option ConnectionState) (c : Connection)
    → Q c
    → Q (record c { handlers_installed = false; state_machine = p; machines = f })

-- The machine of the connection is in memory, in its first state.
abbrev pub Alive : Connection → Type 0
Alive c = c.machines c.state_machine ≡ some init

-- The defaults are in memory, and without a password.
abbrev pub Defaulted : Connection → Type 0
Defaulted c = (d : SaslDefaults) × (c.ldap_defaults ≡ valid d) × (d.passwd ≡ none)

module _ (Q : Connection → Type 0) (P : ReturnCode → Connection → Type 0) (s : Stable Q P) where
  abbrev pub Fine : M ReturnCode → Type 0
  Fine m = (c : Connection) → Q c → Returns P (m c)

  -- The label `error_exit`, after a refusal.
  abbrev pub Fails : M ReturnCode → Type 0
  Fails m = (c : Connection) → Q c → Refused c → Returns P (m c)

  pub fail-Fails : Fails fail
  fail-Fails c q r = s.failed c.machines c.ldap_defaults _ (s.logged call_talloc_free c q) r

  fail_machine-Fails : (m : Ptr) → Fails (fail_machine m)
  fail_machine-Fails m c q r =
      s.failed (update c.machines m none) c.ldap_defaults _ (s.logged call_talloc_free c q) r

  fail_defaults-Fails : (m : Ptr) → Fails (fail_defaults m)
  fail_defaults-Fails m c q r =
      s.failed (update c.machines m none) dangling _ (s.logged call_talloc_free c q) r

  set-Fine : (o : LdapOption) (e n : M ReturnCode) → Fails e → Fine n → Fine (set_ldap_option o e n)
  set-Fine o e n he hn c q =
      Returns-if P _ n e _ (λ _. hn _ (s.logged _ c q)) (λ x. he _ (s.logged _ c q) (_, inr x))

  get-Fine :
      (o : LdapOption) (e : M ReturnCode) (n : Answer → M ReturnCode)
      → Fails e
      → ((a : Answer) → Fine (n a))
      → Fine (get_ldap_option o e n)
  get-Fine o e n he hn c q =
      Returns-if P _ (n _) e _ (λ _. hn _ _ (s.logged _ c q))
        (λ x. he _ (s.logged _ c q) (_, inr x))

  set_when-Fine :
      (b : Bool) (o : LdapOption) (e n : M ReturnCode) → Fails e → Fine n → Fine (set_when b o e n)
  set_when-Fine b o e n he hn c q =
      Returns-if P b (set_ldap_option o e n) n c (λ _. set-Fine o e n he hn c q) (λ _. hn c q)

  option-Fine :
      {A : Type 0} (o : Option A) (m : M ReturnCode) (f : A → M ReturnCode)
      → Fine m
      → ((a : A) → Fine (f a))
      → Fine (elim o [ none ↦ m | some a ↦ f a ])
  option-Fine none m f hm hf = hm
  option-Fine (some a) m f hm hf = hf a

  pub options-Fine : (m : Ptr) (n : M ReturnCode) → Fine n → Fine (options m n)
  unfolding options
  options-Fine m n hn =
      let e = fail_machine m in
      let he = fail_machine-Fails m in set-Fine _ e _ he (set-Fine _ e _ he (set-Fine _ e _ he hn))

  pub tls-Fine : (m : Ptr) (n : M ReturnCode) → Fine n → Fine (tls m n)
  unfolding tls
  tls-Fine m n hn c q =
      let e = fail_defaults m in
      let he = fail_defaults-Fails m in
      let last = set_ldap_option opt_tls_newctx e n in
      let key = set_when (is_set c.config.tls_key_file) opt_tls_keyfile e last in
      let cert = set_when (is_set c.config.tls_cert_file) opt_tls_certfile e key in
      let dir = set_when (is_set c.config.tls_ca_cert_path) opt_tls_cacertdir e cert in
      let h_last = set-Fine opt_tls_newctx e n he hn in
      let h_key = set_when-Fine (is_set c.config.tls_key_file) opt_tls_keyfile e last he h_last in
      let h_cert = set_when-Fine (is_set c.config.tls_cert_file) opt_tls_certfile e key he h_key in
      let h_dir =
        set_when-Fine (is_set c.config.tls_ca_cert_path) opt_tls_cacertdir e cert he h_cert in
      Returns-if P c.config.use_start_tls _ n c
        (λ _.
          set_when-Fine (is_set c.config.tls_ca_cert_file) opt_tls_cacertfile e dir he h_dir c q)
        (λ _. hn c q)

  pub defaults-Fine :
      (m : Ptr) (n : M ReturnCode)
      → ((c : Connection) → Q c → Defaulted c → Returns P (n c))
      → Fine (defaults m n)
  unfolding defaults
  defaults-Fine m n hn c q =
      let q₁ = s.logged call_talloc c q in
      elim (Bool-cases ((c.world (call_talloc ∷ c.trace)).ptr == null)) [
        | inl e ↦ rw e (
            s.failed (update c.machines m none) unset _ (s.logged call_talloc_free _ q₁) (_, inl e))
        | inr e ↦ rw e (hn _ (s.defaulted blank_defaults _ refl q₁) (blank_defaults, refl, refl))
      ]

  mechanism-Fine :
      (m : Ptr) (d : SaslDefaults) (n : M ReturnCode)
      → d.passwd ≡ none
      → Fine n
      → Fine (mechanism m d n)
  unfolding mechanism
  mechanism-Fine m d n blank hn c q =
      option-Fine c.config.sasl_mechanism n (copy_mechanism m d n) hn
        (λ t c q.
          let q₁ = s.logged call_talloc c q in
          elim (Bool-cases ((c.world (call_talloc ∷ c.trace)).ptr == null)) [
            | inl e ↦ rw e (fail_defaults-Fails m _ q₁ (_, inl e))
            | inr e ↦ rw e (hn _ (s.defaulted (record d { mechanism = some t }) _ blank q₁))
          ])
        c q

  identity-Fine : (m : Ptr) (n : M ReturnCode) (a b d : Answer) → Fine n → Fine (identity m n a b d)
  unfolding identity
  identity-Fine m n a b d hn c q =
      let names = record blank_defaults { realm = a.text; authcid = b.text; authzid = d.text } in
      mechanism-Fine m names n refl hn _ (s.defaulted names c refl q)

  pub sasl-Fine : (m : Ptr) (n : M ReturnCode) → Fine n → Fine (sasl m n)
  unfolding sasl
  sasl-Fine m n hn c q =
      let e = fail_defaults m in
      let he = fail_defaults-Fails m in
      let third : Answer → Answer → M ReturnCode =
        λ a b. get_ldap_option opt_sasl_authzid e (identity m n a b) in
      let second : Answer → M ReturnCode = λ a. get_ldap_option opt_sasl_authcid e (third a) in
      let first = get_ldap_option opt_sasl_realm e second in
      let h_third : (a b : Answer) → Fine (third a b) =
        λ a b. get-Fine opt_sasl_authzid e (identity m n a b) he λ d. identity-Fine m n a b d hn in
      let h_first =
        get-Fine opt_sasl_realm e second he
          λ a. get-Fine opt_sasl_authcid e (third a) he (h_third a) in
      let props = set_ldap_option opt_sasl_secprops e first in
      let h_props = set-Fine opt_sasl_secprops e first he h_first in
      Returns-if P c.config.use_sasl _ n c (λ _. set-Fine opt_sasl_nocanon e props he h_props c q)
        (λ _. hn c q)

  network-Fine : (m : Ptr) (n : M ReturnCode) → Fine n → Fine (network m n)
  unfolding network
  network-Fine m n hn c q =
      let q₁ = s.logged call_talloc c q in
      elim (Bool-cases ((c.world (call_talloc ∷ c.trace)).ptr == null)) [
        | inl e ↦ rw e (fail_machine-Fails m _ q₁ (_, inl e))
        | inr e ↦
            rw e (set-Fine opt_network_timeout (fail_machine m) n (fail_machine-Fails m) hn _ q₁)
      ]

  search_limit-Fine : (m : Ptr) (n : M ReturnCode) → Fine n → Fine (search_limit m n)
  unfolding search_limit
  search_limit-Fine m n hn c q =
      let q₁ = s.logged call_talloc c q in
      elim (Bool-cases ((c.world (call_talloc ∷ c.trace)).ptr == null)) [
        | inl e ↦ rw e (fail_machine-Fails m _ q₁ (_, inl e))
        | inr e ↦ rw e (set-Fine opt_timelimit (fail_machine m) n (fail_machine-Fails m) hn _ q₁)
      ]

  pub timeouts-Fine : (m : Ptr) (n : M ReturnCode) → Fine n → Fine (timeouts m n)
  unfolding timeouts
  timeouts-Fine m n hn c q =
      let h = network-Fine m n hn in
      Returns-if P (is_positive c.config.search_timelimit) (search_limit m (network m n))
        (network m n) c (λ _. search_limit-Fine m (network m n) h c q) (λ _. h c q)

  -- From `csm_init` on there is a machine, and from `defaults` on there are defaults without a password.
  abbrev pub AndAlive : Connection → Type 0
  AndAlive c = Q c × Alive c

  pub alive-Stable : Stable AndAlive P
  alive-Stable = record {
    logged = λ k c q. (s.logged k c q.0, q.1);
    defaulted = λ d c blank q. (s.defaulted d c blank q.0, q.1);
    failed = λ f d c q r. s.failed f d c q.0 r;
  }

  abbrev pub AndDefaulted : Connection → Type 0
  AndDefaulted c = Q c × Defaulted c

  pub defaulted-Stable : Stable AndDefaulted P
  defaulted-Stable = record {
    logged = λ k c q. (s.logged k c q.0, q.1);
    defaulted = λ d c blank q. (s.defaulted d c blank q.0, (d, refl, blank));
    failed = λ f d c q r. s.failed f d c q.0 r;
  }
