-- ===== src/Ldap.antt =====
-- The vocabulary of the libraries that the code calls (libldap, talloc, verto, glib): their result
-- codes as far as the code tells them apart, the calls with the arguments that matter, and what a
-- call gives back. The libraries themselves are a parameter: `World` answers a call from the calls
-- made before it, so that any behaviour of a server, of memory and of the event loop is covered.
use libdomain.Prelude.{ℕ, Bool, true, false, Option, List, ℤ, Ptr, CString}

-- What a libldap function returns.
pub data LdapCode : Type 0 where
  ldap_success already_exists local_error connecting sasl_bind_in_progress : LdapCode
  other_code : ℤ → LdapCode

-- What `ldap_result` returns: `LDAP_RES_ANY` is its error, `LDAP_RES_UNSOLICITED` its timeout.
pub data ResultType : Type 0 where
  res_any res_unsolicited res_bind res_search_entry res_search_result res_search_reference :
      ResultType
  res_modify res_add res_delete res_rename res_extended : ResultType
  res_other : ℤ → ResultType

pub data ModOp : Type 0 where
  mod_add mod_delete mod_replace : ModOp

-- `LDAPMod`
pub record LdapMod : Type 0 where
  pub mod_op : ModOp
  pub mod_type : CString
  pub mod_values : List CString

pub data LdapOption : Type 0 where
  opt_timelimit opt_network_timeout opt_protocol_version opt_referrals opt_connect_async :
      LdapOption
  opt_sasl_nocanon opt_sasl_secprops opt_sasl_realm opt_sasl_authcid opt_sasl_authzid : LdapOption
  opt_tls_cacertfile opt_tls_cacertdir opt_tls_certfile opt_tls_keyfile opt_tls_newctx : LdapOption
  opt_result_code opt_diagnostic_message opt_desc opt_debug_level : LdapOption

-- An entry of a search result, and a message chain as `ldap_result` hands it over: its id, the error
-- that `ldap_parse_result` reads in it, and its entries with their attributes.
pub record RawAttribute : Type 0 where
  pub name : CString
  pub values : List CString

pub record RawEntry : Type 0 where
  pub dn : CString
  pub attributes : List RawAttribute

pub record LdapMessage : Type 0 where
  pub id : ℤ
  pub error_code : LdapCode
  pub entries : List RawEntry

-- The callbacks of timer events: `connection_update` and those of the library's users.
pub data TimerCallback : Type 0 where
  update_connection : TimerCallback
  user_timer : ℕ → TimerCallback

-- The tables of a schema, for `g_hash_table_size`.
pub data SchemaTable : Type 0 where
  object_classes_by_oid attribute_types_by_oid : SchemaTable

pub data Call : Type 0 where
  call_talloc call_table_new call_parse_result : Call
  call_initialize : (server : Option CString) → Call
  call_set_option call_get_option : LdapOption → Call
  call_start_tls call_unbind call_whoami call_install_tls call_tls_inplace : Call
  call_sasl_bind : Option CString → Option CString → Call
  call_interactive_bind : Option CString → Call
  call_add call_modify : CString → List LdapMod → Call
  call_delete : CString → Call
  call_rename : (old_dn new_rdn new_parent : CString) → Bool → Call
  call_search : (base filter : CString) → List CString → Call
  call_result : ℤ → Call
  call_memfree : CString → Call
  call_talloc_free call_verto_default call_verto_free call_verto_add_io call_verto_del : Call
  call_table_size : SchemaTable → Call
  call_malloc call_free : Call
  call_verto_add_timeout : TimerCallback → (interval : ℤ) → Call

-- What a call gives back; each call has its own part of this.
pub record Answer : Type 0 where
  pub code : LdapCode
  pub result_code : LdapCode
  pub msgid : ℤ
  pub tag : ResultType
  pub message : LdapMessage
  pub ptr : Ptr
  pub number : ℤ
  pub text : Option CString
  pub flag : Bool

-- The libraries: the answer to the last call of a history, most recent call first.
abbrev pub World : Type 0
World = List Call → Answer

abbrev pub is_success : LdapCode → Bool
is_success ldap_success = true
is_success _ = false
