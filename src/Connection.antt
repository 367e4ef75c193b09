-- ===== src/Connection.antt =====
-- src/connection.h, src/connection_state_machine.h, src/directory.h: the connection with all that its
-- functions read and write, and the monad of the functions on it.
pub mod States
pub mod Bind
pub mod Configure
pub mod Waiting
pub mod Ends
pub mod Replies
pub mod Returning
pub mod Prompts
pub mod Sample
mod Tests
use libdomain.Prelude.{
  ℕ, suc, ◌+◌, Bool, true, false, Option, none, some, List, [], ◌∷◌, ltb, if◌then◌else◌, update, ℤ,
  pos, negsuc, Ptr, null, CString,
}
use libdomain.Ldap.{
  LdapCode, Call, Answer, World, LdapOption, call_get_option, call_set_option, is_success,
}
use libdomain.RequestQueue.{Store, QueueCode, request_queue_push}

abbrev pub max_requests : ℕ
max_requests = 8192

-- `enum OperationReturnCode` of src/common.h
pub data ReturnCode : Type 0 where
  rc_success rc_failure rc_missing_attribute rc_operation_in_progress : ReturnCode
  rc_repeat_last_operation : ReturnCode

-- `enum BindType`
pub data BindType : Type 0 where
  bind_interactive bind_simple : BindType

-- `enum LdapDirectoryType`
pub data DirectoryType : Type 0 where
  type_uninitialized type_unknown type_active_directory type_openldap type_free_ipa : DirectoryType

-- `enum LdapConnectionState`
pub data ConnectionState : Type 0 where
  init tls_negotiation transport_ready bind_in_progress bound detect_directory : ConnectionState
  run error request_schema check_schema : ConnectionState

-- The functions that the code stores in `on_read_operation`.
pub data Handler : Type 0 where
  start_tls_handler bind_handler add_handler search_handler modify_handler : Handler
  delete_handler rename_handler whoami_handler directory_handler : Handler

-- `struct ldap_request_t`; its node is its place in the array (`node_of`).
pub record Request : Type 0 where
  pub msgid : ℤ
  pub on_read_operation : Option Handler

-- The functions that the code stores in `on_search_operation`, and those of its users.
pub data SearchCallback : Type 0 where
  print_search schema_attribute_types schema_object_classes schema_subentry : SearchCallback
  user_callback : ℕ → SearchCallback

-- `struct ldap_search_request_t`
pub record SearchRequest : Type 0 where
  pub msgid : ℤ
  pub on_search_operation : Option SearchCallback
  pub user_data : ℕ

-- `struct ldap_sasl_options_t`, `struct ldap_sasl_params_t` and `struct ldap_connection_config_t`, less
-- the fields that the code leaves at 0 or sets to a constant.
pub record Config : Type 0 where
  pub server : Option CString
  pub protocol_version : ℤ
  pub chase_referrals : Bool
  pub use_start_tls : Bool
  pub use_sasl : Bool
  pub bind_type : BindType
  pub sasl_mechanism : Option CString
  pub sasl_passwd : Option CString
  pub tls_ca_cert_file : Option CString
  pub tls_ca_cert_path : Option CString
  pub tls_cert_file : Option CString
  pub tls_key_file : Option CString
  pub search_timelimit : ℤ
  pub network_timeout : ℤ
  pub bind_dn : Option CString
  pub bind_passwd : Option CString

-- `struct ldap_sasl_defaults_t`
pub record SaslDefaults : Type 0 where
  pub mechanism : Option CString
  pub realm : Option CString
  pub authcid : Option CString
  pub authzid : Option CString
  pub passwd : Option CString

-- A pointer to something that the code allocates and frees: NULL, valid, or dangling.
pub data Owned {ℓ} (A : Type ℓ) : Type ℓ where
  unset dangling : Owned A
  valid : A → Owned A

-- `struct ldap_connection_ctx_t`. `machines` is the memory of the state machines: `none` where there
-- is none. `trace` lists the library calls made so far, most recent first; `world` answers them.
pub record Connection : Type 0 where
  pub world : World
  pub trace : List Call
  pub config : Config
  pub handlers_installed : Bool
  pub event_base : Owned (Unit {0})
  pub read_event : Owned (Unit {0})
  pub write_event : Owned (Unit {0})
  pub on_error_operation : Option ℕ
  pub bind_type : BindType
  pub directory_type : DirectoryType
  pub msgid : ℤ
  pub schema : Ptr
  pub store : Store
  pub callqueue : Ptr
  pub read_requests : ℕ → Request
  pub write_requests : ℕ → Request
  pub search_requests : ℕ → SearchRequest
  pub n_read_requests : ℕ
  pub n_write_requests : ℕ
  pub n_search_requests : ℕ
  pub n_reconnect_attempts : ℕ
  pub machines : Ptr → Option ConnectionState
  pub state_machine : Ptr
  pub ldap_defaults : Owned SaslDefaults
  pub schema_entry_path : Option CString

-- A run of a function: a value and the connection after it; `fault` where C has no defined
-- behaviour (a write outside an array, a use of freed memory); or the fuel of a loop ran out.
pub data Outcome {ℓ} (A : Type ℓ) : Type ℓ where
  done : A → Connection → Outcome A
  fault out_of_fuel : Outcome A

abbrev pub M : Type 0 → Type 0
M A = Connection → Outcome A

abbrev pub pure : {A : Type 0} → A → M A
pure a c = done a c

abbrev pub and_then : {A B : Type 0} → Outcome A → (A → M B) → Outcome B
and_then (done a c) f = f a c
and_then fault f = fault
and_then out_of_fuel f = out_of_fuel

infixl 5 ◌>>=◌ ◌>>◌
abbrev pub ◌>>=◌ : {A B : Type 0} → M A → (A → M B) → M B
◌>>=◌ m f c = and_then (m c) f

abbrev pub ◌>>◌ : {A B : Type 0} → M A → M B → M B
m >> k = m >>= λ _. k

abbrev pub get : M Connection
get c = done c c

abbrev pub put : Connection → M (Unit {0})
put c' c = done tt c'

abbrev pub faulty : {A : Type 0} → M A
faulty c = fault

abbrev pub log : Call → Connection → Connection
log k c = record c { trace = k ∷ c.trace }

-- A call of a library function.
abbrev pub perform : Call → M Answer
perform k c = done (c.world (k ∷ c.trace)) (log k c)

-- The macro `get_ldap_option`, with the exit label that it jumps to on an error.
abbrev pub get_ldap_option : {A : Type 0} → LdapOption → (error_exit : M A) → (Answer → M A) → M A
get_ldap_option o error_exit next = do
  a ← perform (call_get_option o)
  if is_success a.code then next a else error_exit

-- The macro `set_ldap_option`, likewise.
abbrev pub set_ldap_option : {A : Type 0} → LdapOption → (error_exit next : M A) → M A
set_ldap_option o error_exit next = do
  a ← perform (call_set_option o)
  if is_success a.code then next else error_exit

-- `&connection->read_requests[i].node`, and `container_of` of it.
abbrev pub node_of : ℕ → Ptr
node_of i = suc i

-- `request_queue_push (connection->callqueue, &connection->read_requests[i].node)`
abbrev pub push_node : ℕ → M QueueCode
push_node i c =
    let (code, s) = request_queue_push c.callqueue (node_of i) c.store in
    done code (record c { store = s })

-- The five lines with which every request function ends: the next slot of `read_requests` takes the
-- message id and the handler, the count goes up, and the slot's node goes into the queue. The code
-- does not compare the count with the size of the array, so the write may fall outside.
unfoldable pub enqueue_request : ℤ → Handler → M (Unit {0})
enqueue_request msgid handler c =
    let n = c.n_read_requests in
    if ltb n max_requests
    then (do
      put (record c {
        read_requests =
            update c.read_requests n (record { msgid = msgid; on_read_operation = some handler });
        n_read_requests = n + 1;
      })
      push_node n
      pure tt)
        c
    else fault
