-- ===== src/Connection/Configure.antt =====
-- src/connection.c: `connection_configure`, with the timeouts and the request arrays that it sets up.
-- Its parts stand in the order of the source; each takes the rest of the function as its last argument
-- and, where it can jump there, what stands at the label `error_exit`.
pub mod Rule
pub mod Result
use libdomain.Prelude.{
  not, ℕ, ◌==◌, Bool, true, false, Option, none, some, if◌then◌else◌, update, ℤ, pos, ltb, leb,
  ◌&&◌, negsuc, Ptr, null, CString,
}
use libdomain.Ldap.{
  Answer, LdapOption, opt_timelimit, opt_network_timeout, opt_protocol_version, opt_referrals,
  opt_connect_async, opt_sasl_nocanon, opt_sasl_secprops, opt_sasl_realm, opt_sasl_authcid,
  opt_sasl_authzid, opt_tls_cacertfile, opt_tls_cacertdir, opt_tls_certfile, opt_tls_keyfile,
  opt_tls_newctx, call_talloc, call_table_new, call_initialize, call_talloc_free,
  call_verto_default, is_success,
}
use libdomain.RequestQueue.{request_queue_new}
use libdomain.Connection.{
  Connection, ReturnCode, rc_success, rc_failure, bind_interactive, bind_simple, type_uninitialized,
  Request, SearchRequest, SaslDefaults, Owned, unset, dangling, valid, M, pure, get, put, perform,
  set_ldap_option, get_ldap_option, max_requests, ◌>>=◌, ◌>>◌,
}
use libdomain.Connection.States.{csm_init}

pub record Timeval : Type 0 where
  pub tv_sec : ℤ
  pub tv_usec : ℤ

-- The fields that `connection_microseconds_to_timeval` writes.
unfoldable pub timeval_of : ℤ → Timeval
timeval_of (negsuc _) = record { tv_sec = negsuc 0; tv_usec = pos 0 }
timeval_of (pos n) = record { tv_sec = pos 0; tv_usec = pos n }

unfoldable pub connection_microseconds_to_timeval : ℤ → M (Option Timeval)
connection_microseconds_to_timeval microseconds = do
  a ← perform call_talloc
  pure (if a.ptr == null then none else some (timeval_of microseconds))

abbrev pub blank_request : Request
blank_request = record { msgid = negsuc 0; on_read_operation = none }

-- The loops of the two functions, as what they leave at each place of the array; `user_data` keeps
-- its value.
unfoldable pub ldap_requests_init : (size : ℕ) → (ℕ → Request) → ℕ → Request
ldap_requests_init size requests i = if ltb i size then blank_request else requests i

unfoldable pub search_requests_init : (size : ℕ) → (ℕ → SearchRequest) → ℕ → SearchRequest
search_requests_init size requests i =
    let r = requests i in
    if ltb i size then record r { msgid = negsuc 0; on_search_operation = none } else r

-- The links of the nodes in the array, which `ldap_requests_init` sets to NULL as well.
abbrev blank_nodes : (size : ℕ) → (Ptr → Ptr) → Ptr → Ptr
blank_nodes size prev p = if leb 1 p && leb p size then null else prev p

-- The label `error_exit`: freeing `talloc_ctx` frees what was allocated on it, here nothing,
-- the machine, or the machine and the defaults.
abbrev fail : M ReturnCode
fail = do perform call_talloc_free; pure rc_failure

abbrev fail_machine : Ptr → M ReturnCode
fail_machine m = do c ← get; put (record c { machines = update c.machines m none }); fail

abbrev fail_defaults : Ptr → M ReturnCode
fail_defaults m = do c ← get; put (record c { ldap_defaults = dangling }); fail_machine m

abbrev set_when : {A : Type 0} → Bool → LdapOption → (error_exit next : M A) → M A
set_when b o error_exit next = if b then set_ldap_option o error_exit next else next

abbrev is_positive : ℤ → Bool
is_positive (pos n) = if n == 0 then false else true
is_positive (negsuc n) = false

abbrev is_set : Option CString → Bool
is_set none = false
is_set (some _) = true

unfoldable pub network : Ptr → M ReturnCode → M ReturnCode
unfolding connection_microseconds_to_timeval
network m next = do
  c ← get
  t ← connection_microseconds_to_timeval c.config.network_timeout
  elim t [
    | none ↦ fail_machine m
    | some _ ↦ set_ldap_option opt_network_timeout (fail_machine m) next
  ]

unfoldable pub search_limit : Ptr → M ReturnCode → M ReturnCode
unfolding connection_microseconds_to_timeval
search_limit m next = do
  c ← get
  t ← connection_microseconds_to_timeval c.config.search_timelimit
  elim t [ none ↦ fail_machine m | some _ ↦ set_ldap_option opt_timelimit (fail_machine m) next ]

unfoldable pub timeouts : Ptr → M ReturnCode → M ReturnCode
unfolding search_limit network
timeouts m next = do
  c ← get
  if is_positive c.config.search_timelimit then search_limit m (network m next) else network m next

unfoldable pub options : Ptr → M ReturnCode → M ReturnCode
options m next =
    let e = fail_machine m in
    set_ldap_option opt_protocol_version e
      (set_ldap_option opt_referrals e (set_ldap_option opt_connect_async e next))

-- `ldap_defaults` is allocated zeroed, and `LDAP_SASL_SIMPLE` is NULL.
abbrev pub blank_defaults : SaslDefaults
blank_defaults = record {
  mechanism = none;
  realm = none;
  authcid = none;
  authzid = none;
  passwd = none;
}

unfoldable pub defaults : Ptr → M ReturnCode → M ReturnCode
defaults m next = do
  a ← perform call_talloc
  c ← get
  if a.ptr == null
      then (do put (record c { ldap_defaults = unset }); fail_machine m)
      else (do put (record c { ldap_defaults = valid blank_defaults }); next)

-- The copy of the configured mechanism; `d` is what the earlier lines put into the defaults.
copy_mechanism : Ptr → SaslDefaults → M ReturnCode → CString → M ReturnCode
copy_mechanism m d next text = do
  a ← perform call_talloc
  c ← get
  if a.ptr == null
      then fail_defaults m
      else (do put (record c { ldap_defaults = valid (record d { mechanism = some text }) }); next)

mechanism : Ptr → SaslDefaults → M ReturnCode → M ReturnCode
unfolding copy_mechanism
mechanism m d next = do
  c ← get
  elim c.config.sasl_mechanism [ none ↦ next | some text ↦ copy_mechanism m d next text ]

-- The three names that the library reports, and the mechanism.
identity : Ptr → M ReturnCode → (realm authcid authzid : Answer) → M ReturnCode
unfolding mechanism
identity m next realm authcid authzid = do
  let d = record blank_defaults {
    realm = realm.text;
    authcid = authcid.text;
    authzid = authzid.text;
  }
  c ← get
  put (record c { ldap_defaults = valid d })
  mechanism m d next

unfoldable pub sasl : Ptr → M ReturnCode → M ReturnCode
unfolding identity
sasl m next = do
  c ← get
  if c.config.use_sasl
      then set_ldap_option opt_sasl_nocanon (fail_defaults m) (
          set_ldap_option opt_sasl_secprops (fail_defaults m) (
            get_ldap_option opt_sasl_realm (fail_defaults m) λ realm.
              get_ldap_option opt_sasl_authcid (fail_defaults m) λ authcid.
                get_ldap_option opt_sasl_authzid (fail_defaults m) (identity m next realm authcid)))
      else next

unfoldable pub tls : Ptr → M ReturnCode → M ReturnCode
tls m next = do
  c ← get
  if c.config.use_start_tls
      then set_when (is_set c.config.tls_ca_cert_file) opt_tls_cacertfile (fail_defaults m) (
          set_when (is_set c.config.tls_ca_cert_path) opt_tls_cacertdir (fail_defaults m) (
            set_when (is_set c.config.tls_cert_file) opt_tls_certfile (fail_defaults m) (
              set_when (is_set c.config.tls_key_file) opt_tls_keyfile (fail_defaults m)
                (set_ldap_option opt_tls_newctx (fail_defaults m) next))))
      else next

-- Two tables, and whether there are both.
abbrev new_tables : M Bool
new_tables = do
  by_oid ← perform call_table_new
  by_name ← perform call_table_new
  pure (not (by_oid.ptr == null) && not (by_name.ptr == null))

-- `ldap_schema_new` of src/schema.c, in a context that is not NULL.
unfoldable pub new_schema : M Ptr
new_schema = do
  a ← perform call_talloc
  if a.ptr == null then pure null else (do
    types ← new_tables
    if types
        then (do
          classes ← new_tables
          if classes then pure a.ptr else (do perform call_talloc_free; pure null))
        else (do perform call_talloc_free; pure null))

-- The lines from `connection->bind_type` to `search_requests_init`: the schema and the queue are
-- new, every counter is 0 and every request slot is blank.
-- `schema` is what the first of the two calls gave.
unfoldable pub set_requests : Ptr → M (Unit {0})
unfolding ldap_requests_init search_requests_init
set_requests schema = do
  a ← perform call_talloc
  c ← get
  let (q, s) = request_queue_new a.ptr max_requests c.store
  put (record c {
    bind_type = c.config.bind_type;
    directory_type = type_uninitialized;
    schema = schema;
    store = record s { prev = blank_nodes max_requests s.prev };
    callqueue = q;
    n_read_requests = 0;
    n_write_requests = 0;
    n_search_requests = 0;
    n_reconnect_attempts = 0;
    read_requests = ldap_requests_init max_requests c.read_requests;
    write_requests = ldap_requests_init max_requests c.write_requests;
    search_requests = search_requests_init max_requests c.search_requests;
  })

unfoldable pub reset : M (Unit {0})
unfolding new_schema set_requests
reset = do schema ← new_schema; set_requests schema

-- The event base, and the move of what was allocated from `talloc_ctx` to the global context.
unfoldable pub finish : Ptr → M ReturnCode
finish m = do
  base ← perform call_verto_default
  c ← get
  if base.ptr == null then (do put (record c { event_base = unset }); fail_defaults m) else (do
    put (record c { event_base = valid tt })
    freed ← perform call_talloc_free
    pure (if is_success freed.code then rc_success else rc_failure))

unfoldable pub connection_configure : M ReturnCode
unfolding timeouts options defaults sasl tls reset finish
connection_configure = do
  ctx ← perform call_talloc
  if ctx.ptr == null then pure rc_failure else do
    config ← get
    i ← perform (call_initialize config.config.server)
    if is_success i.code
        then (do
          a ← perform call_talloc
          c ← get
          put (record c { handlers_installed = false; state_machine = a.ptr })
          if a.ptr == null then fail else (do
            csm_init a.ptr
            timeouts a.ptr
                (options a.ptr (defaults a.ptr (sasl a.ptr (tls a.ptr (reset >> finish a.ptr)))))))
        else fail
