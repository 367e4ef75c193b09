-- ===== src/Entry/Replies.antt =====
-- src/entry.c and src/directory.c: the functions that `connection_on_read` calls with the reply to a
-- request, against the callbacks that a user of the library installs.
use libdomain.Prelude.{
  ℕ, zero, suc, ◌+◌, Bool, true, false, Option, none, some, List, [], ◌∷◌, if◌then◌else◌, ℤ, int_eq,
  CString, codes, str_eq,
}
use libdomain.Ldap.{
  LdapCode, ldap_success, already_exists, ResultType, res_search_entry, res_search_result,
  res_search_reference, res_modify, res_add, res_delete, res_rename, res_extended, LdapMessage,
  RawAttribute, RawEntry, opt_result_code, opt_diagnostic_message, call_get_option,
  call_parse_result, is_success,
}
use libdomain.Connection.{
  ReturnCode, rc_success, rc_failure, DirectoryType, type_uninitialized, type_unknown,
  type_active_directory, type_openldap, SearchCallback, SearchRequest, M, pure, get, put, perform,
  ◌>>=◌, ◌>>◌,
}
use libdomain.Entry.{connection_remove_search_request}
use libdomain.Entry.Table.{LdEntry, read_entries}

-- The functions behind the pointers `on_error_operation` and `on_search_operation`.
pub record Callbacks : Type 0 where
  pub on_error : ℕ → ResultType → LdapMessage → M (Unit {0})
  pub on_search : SearchCallback → List LdEntry → ℕ → M ReturnCode

abbrev pub is_added : LdapCode → Bool
is_added ldap_success = true
is_added already_exists = true
is_added _ = false

-- The first place below the count with the message id; `n` counts the places left.
abbrev pub find_search : (n i : ℕ) → (ℕ → SearchRequest) → ℤ → Option ℕ
find_search zero i requests msgid = none
find_search (suc n) i requests msgid =
    let rest = find_search n (i + 1) requests msgid in
    if int_eq (requests i).msgid msgid then some i else rest

-- `none` where the type is not recognised by the attribute.
abbrev pub directory_process_attribute : CString → Option DirectoryType
directory_process_attribute name =
    if str_eq name (codes "isGlobalCatalogReady")
    then some type_active_directory
    else if str_eq name (codes "objectClass")
    then some type_openldap
    else none

-- The inner loop, which ends with the first attribute that tells the type, and the outer one.
abbrev pub or_rest : Option DirectoryType → DirectoryType → DirectoryType
or_rest none t = t
or_rest (some t') t = t'

abbrev pub message_type : List RawAttribute → DirectoryType → DirectoryType
message_type [] t = t
message_type (a ∷ rest) t = or_rest (directory_process_attribute a.name) (message_type rest t)

abbrev pub directory_type_of : List RawEntry → DirectoryType → DirectoryType
directory_type_of [] t = t
directory_type_of (m ∷ rest) t = directory_type_of rest (message_type m.attributes t)

abbrev pub or_unknown : DirectoryType → DirectoryType
or_unknown type_uninitialized = type_unknown
or_unknown t = t

abbrev pub directory_reply : LdapMessage → M ReturnCode
directory_reply message = do
  c ← get
  put (record c {
    directory_type = or_unknown (directory_type_of message.entries c.directory_type);
  })
  pure rc_success

module _ (callbacks : Callbacks) where
  -- `if (connection->on_error_operation) ...; return RETURN_CODE_FAILURE;`
  abbrev pub report : ResultType → LdapMessage → M ReturnCode
  report rc message = do
    c ← get
    elim c.on_error_operation [
      | none ↦ pure rc_failure
      | some f ↦ callbacks.on_error f rc message >> pure rc_failure
    ]

  -- The default branch, where the options are read for the log, and the lines behind the `switch`.
  abbrev pub unexpected : ResultType → LdapMessage → M ReturnCode
  unexpected rc message = do
    perform (call_get_option opt_result_code)
    perform (call_get_option opt_diagnostic_message)
    report rc message

  -- The branch of the expected reply: the error code in the message decides.
  abbrev pub parsed : (LdapCode → Bool) → ResultType → LdapMessage → M ReturnCode
  parsed good rc message = do
    perform call_parse_result
    if good message.error_code then pure rc_success else report rc message

  unfoldable pub add_on_read : ResultType → LdapMessage → M ReturnCode
  add_on_read res_add message = parsed is_added res_add message
  add_on_read rc message = unexpected rc message

  unfoldable pub modify_on_read : ResultType → LdapMessage → M ReturnCode
  modify_on_read res_modify message = parsed is_success res_modify message
  modify_on_read rc message = unexpected rc message

  unfoldable pub delete_on_read : ResultType → LdapMessage → M ReturnCode
  delete_on_read res_delete message = parsed is_success res_delete message
  delete_on_read rc message = unexpected rc message

  unfoldable pub rename_on_read : ResultType → LdapMessage → M ReturnCode
  rename_on_read res_rename message = parsed is_success res_rename message
  rename_on_read rc message = unexpected rc message

  -- The callback of the search at place `i` gets the entries, and the search is taken out.
  abbrev pub deliver : ℕ → SearchCallback → ℕ → LdapMessage → M ReturnCode
  deliver i f user_data message = do
    entries ← read_entries message.entries
    elim entries [
      | none ↦ pure rc_failure
      | some es ↦ (do
        rc ← callbacks.on_search f es user_data
        connection_remove_search_request i
        pure rc)
    ]

  abbrev pub search_reply : ResultType → LdapMessage → M ReturnCode
  search_reply rc message = do
    c ← get
    elim (find_search c.n_search_requests 0 c.search_requests message.id) [
      | none ↦ report rc message
      | some i ↦ elim (c.search_requests i).on_search_operation [
        | none ↦ pure rc_failure
        | some f ↦ deliver i f (c.search_requests i).user_data message
      ]
    ]

  unfoldable pub search_on_read : ResultType → LdapMessage → M ReturnCode
  search_on_read res_search_entry message = search_reply res_search_entry message
  search_on_read res_search_result message = search_reply res_search_result message
  search_on_read res_search_reference message = pure rc_success
  search_on_read rc message = unexpected rc message

  unfoldable pub directory_parse_result : ResultType → LdapMessage → M ReturnCode
  directory_parse_result res_search_entry message = directory_reply message
  directory_parse_result res_search_result message = directory_reply message
  directory_parse_result res_search_reference message = pure rc_success
  directory_parse_result rc message = unexpected rc message

unfoldable pub whoami_on_read : ResultType → LdapMessage → M ReturnCode
whoami_on_read res_extended message = perform call_parse_result >> pure rc_success
whoami_on_read rc message = do
  perform (call_get_option opt_result_code)
  perform (call_get_option opt_diagnostic_message)
  pure rc_success
