-- ===== src/Schema.antt =====
-- src/schema.c, src/openldap_schema.c, src/ad_schema.c: the requests that load the schema, by type of
-- directory, and the test that it is there. `g_hash_table_size` is a call of the library.
pub mod Tables
pub mod Parsers
pub mod Callbacks
mod Tests
use libdomain.Prelude.{
  null, ◌==◌, Bool, true, false, none, some, List, [], ◌∷◌, if◌then◌else◌, CString, codes, ℤ, pos,
  negsuc,
}
use libdomain.Ldap.{object_classes_by_oid, attribute_types_by_oid, call_table_size}
use libdomain.Connection.{
  ReturnCode, rc_success, rc_failure, rc_operation_in_progress, type_uninitialized, type_unknown,
  type_active_directory, type_openldap, type_free_ipa, schema_attribute_types,
  schema_object_classes, schema_subentry, M, pure, get, perform, faulty, ◌>>=◌,
}
use libdomain.Connection.Bind.{is_rc_success}
use libdomain.Entry.{search}

abbrev ldap_attribute_types : List CString
ldap_attribute_types = codes "attributetypes" ∷ []

abbrev ldap_object_classes : List CString
ldap_object_classes = codes "objectclasses" ∷ []

abbrev ldap_subschema_subentry : List CString
ldap_subschema_subentry = codes "subschemaSubentry" ∷ []

abbrev subschema_filter : CString
subschema_filter = codes "(objectclass=subschema)"

-- The user data of each search, 0, stands for `connection->schema`, NULL or not.
unfoldable pub schema_load_openldap : M ReturnCode
schema_load_openldap = do
  rc ←
      search (codes "cn=subschema") subschema_filter ldap_attribute_types
        (some schema_attribute_types) 0
  if is_rc_success rc
      then (do
        rc' ←
            search (codes "cn=subschema") subschema_filter ldap_object_classes
              (some schema_object_classes) 0
        if is_rc_success rc' then pure rc_success else pure rc_failure)
      else pure rc_failure

-- The path of the schema entry is asked for first, and the schema itself once it is known.
unfoldable pub schema_load_active_directory : M ReturnCode
schema_load_active_directory = do
  c ← get
  elim c.schema_entry_path [
    | none ↦ (do
      rc ← search [] (codes "(objectclass=*)") ldap_subschema_subentry (some schema_subentry) 0
      if is_rc_success rc then pure rc_operation_in_progress else pure rc_failure)
    | some path ↦ (do
      rc ← search path subschema_filter ldap_attribute_types (some schema_attribute_types) 0
      if is_rc_success rc
          then (do
            rc' ← search path subschema_filter ldap_object_classes (some schema_object_classes) 0
            if is_rc_success rc' then pure rc_success else pure rc_failure)
          else pure rc_failure)
  ]

unfoldable pub ldap_schema_load : M ReturnCode
ldap_schema_load = do
  c ← get
  elim c.directory_type [
    | type_openldap ↦ schema_load_openldap
    | type_active_directory ↦ schema_load_active_directory
    | type_free_ipa ↦ pure rc_failure
    | type_unknown ↦ pure rc_success
    | type_uninitialized ↦ pure rc_success
  ]

-- `g_hash_table_size (...) > 0`, a `guint`.
abbrev pub is_nonempty : ℤ → Bool
is_nonempty (pos n) = if n == 0 then false else true
is_nonempty (negsuc n) = false

-- Both tables are fields of `connection->schema`, which is read if it is NULL too; the second size is
-- asked for only if the first is not 0.
unfoldable pub ldap_schema_ready : M Bool
ldap_schema_ready = do
  c ← get
  elim c.directory_type [
    | type_openldap ↦ if c.schema == null then faulty else (do
      classes ← perform (call_table_size object_classes_by_oid)
      if is_nonempty classes.number
          then (do
            types ← perform (call_table_size attribute_types_by_oid)
            pure (is_nonempty types.number))
          else pure false)
    | _ ↦ pure true
  ]
