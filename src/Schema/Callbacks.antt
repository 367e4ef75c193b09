-- ===== src/Schema/Callbacks.antt =====
-- src/openldap_schema.c and src/ad_schema.c: the callbacks that fill the schema from the replies. The parsers
-- of descriptions are parameters: that of libldap for OpenLDAP, those that src/parsers is compiled to
-- for Active Directory.
pub mod Indexed
pub mod Loads
use libdomain.Prelude.{
  ℕ, zero, suc, ◌+◌, ◌==◌, ◌||◌, Bool, true, false, not, Option, none, some, List, [], ◌∷◌,
  if◌then◌else◌, is_some, is_nil, length, ℤ, pos, int_eq, null, CString,
}
use libdomain.Ldap.{call_talloc, call_talloc_free}
use libdomain.Connection.{
  Connection, ReturnCode, rc_success, rc_failure, Outcome, out_of_fuel, M, pure, get, put, faulty,
  perform, ◌>>=◌, ◌>>◌,
}
use libdomain.Entry.Table.{LdEntry, allocate}
use libdomain.Entry.Attributes.{FilledAttribute, ld_entry_get_attributes}
use libdomain.Schema.Parsers.{parse_attribute_type, parse_object_class}
use libdomain.Schema.Tables.{
  HashTables, LdapAttributeType, LdapObjectClass, LdapSchema, ldap_schema_append_attributetype,
  ldap_schema_append_objectclass,
}

-- What `ldap_str2attributetype` and `ldap_str2objectclass` give back.
pub record Parsed (V : Type 0) : Type 0 where
  pub result : Option V
  pub error_code : ℤ

-- `callback (…) == RETURN_CODE_FAILURE`
abbrev pub is_failure : ReturnCode → Bool
is_failure rc_failure = true
is_failure _ = false

module _ {S : Type 0} (callback : CString → S → M (ReturnCode × S)) where
  abbrev pub read_values : List CString → S → M (ReturnCode × S)
  read_values [] user_data = pure (rc_success, user_data)
  read_values (value ∷ values) user_data = do
    r ← callback value user_data
    if is_failure r.0 then pure (rc_failure, r.1) else read_values values r.1

  -- Where the values are NULL, `continue` comes back to the same attribute.
  abbrev pub read_attributes : (fuel : ℕ) → List FilledAttribute → S → M (ReturnCode × S)
  read_attributes zero attributes user_data = λ _. out_of_fuel
  read_attributes (suc fuel) [] user_data = pure (rc_success, user_data)
  read_attributes (suc fuel) (a ∷ rest) user_data = elim a.values [
    | none ↦ read_attributes fuel (a ∷ rest) user_data
    | some values ↦ (do
      r ← read_values values user_data
      if is_failure r.0 then pure (rc_failure, r.1) else read_attributes fuel rest r.1)
  ]

  -- In both files.
  unfoldable pub ldap_schema_read_entry : LdEntry → S → M (ReturnCode × S)
  ldap_schema_read_entry entry user_data = do
    attributes ← ld_entry_get_attributes entry
    elim attributes [
      | none ↦ pure (rc_success, user_data)
      | some filled ↦ read_attributes (length filled + 1) filled user_data
    ]

  -- NULL in place of the entries is no entry.
  unfoldable pub ldap_schema_callback_common : List LdEntry → S → M (ReturnCode × S)
  ldap_schema_callback_common [] user_data = pure (rc_success, user_data)
  ldap_schema_callback_common (entry ∷ entries) user_data = do
    r ← ldap_schema_read_entry entry user_data
    if is_failure r.0 then pure (rc_failure, r.1) else ldap_schema_callback_common entries r.1

  -- The copies of both in src/ad_schema.c.
  abbrev pub ad_schema_read_entry : LdEntry → S → M (ReturnCode × S)
  ad_schema_read_entry = ldap_schema_read_entry

  abbrev pub ad_schema_callback_common : List LdEntry → S → M (ReturnCode × S)
  ad_schema_callback_common = ldap_schema_callback_common

module _ (types : HashTables LdapAttributeType) (classes : HashTables LdapObjectClass) where
  abbrev pub UserData : Type 0
  UserData = Option (LdapSchema types classes)

  abbrev pub added : Bool × UserData → ReturnCode × UserData
  added (true, schema) = (rc_success, schema)
  added (false, schema) = (rc_failure, schema)

  -- `talloc_get_type_abort` ends the process at a NULL schema. The attribute type is stored through
  -- `reference`, which is not checked.
  unfoldable pub attribute_type_callback :
      (CString → Parsed LdapAttributeType) → CString → UserData → M (ReturnCode × UserData)
  attribute_type_callback ldap_str2attributetype attribute_value none = faulty
  attribute_type_callback ldap_str2attributetype attribute_value (some schema) = do
    reference ← perform call_talloc
    let p = ldap_str2attributetype attribute_value
    if not (is_some p.result) || not (int_eq p.error_code (pos 0))
        then (do perform call_talloc_free; pure (rc_failure, some schema))
        else if reference.ptr == null
        then faulty
        else pure (added (ldap_schema_append_attributetype types classes (some schema) p.result))

  unfoldable pub object_class_callback :
      (CString → Parsed LdapObjectClass) → CString → UserData → M (ReturnCode × UserData)
  object_class_callback ldap_str2objectclass attribute_value none = faulty
  object_class_callback ldap_str2objectclass attribute_value (some schema) = do
    reference ← perform call_talloc
    let p = ldap_str2objectclass attribute_value
    if not (is_some p.result) || not (int_eq p.error_code (pos 0))
        then (do perform call_talloc_free; pure (rc_failure, some schema))
        else if reference.ptr == null
        then faulty
        else pure (added (ldap_schema_append_objectclass types classes (some schema) p.result))

  -- In Active Directory; `error_code` stays 0.
  unfoldable pub ad_attribute_type_callback :
      (CString → Option LdapAttributeType) → CString → UserData → M (ReturnCode × UserData)
  ad_attribute_type_callback parse_attribute_type_description attribute_value schema =
      elim (parse_attribute_type parse_attribute_type_description (some attribute_value)) [
        | none ↦ pure (rc_failure, schema)
        | some a ↦ pure (added (ldap_schema_append_attributetype types classes schema (some a)))
      ]

  unfoldable pub ad_object_class_callback :
      (CString → Option LdapObjectClass) → CString → UserData → M (ReturnCode × UserData)
  ad_object_class_callback parse_object_class_description attribute_value schema =
      elim (parse_object_class parse_object_class_description (some attribute_value)) [
        | none ↦ pure (rc_failure, schema)
        | some o ↦ pure (added (ldap_schema_append_objectclass types classes schema (some o)))
      ]

  -- The path of the schema entry is a variable of the file.
  unfoldable pub subschema_subentry_callback : CString → UserData → M (ReturnCode × UserData)
  subschema_subentry_callback attribute_value schema = do
    ok ← allocate 1
    c ← get
    put (record c { schema_entry_path = if ok then some attribute_value else none })
    pure (
      if ok then (if is_nil attribute_value then rc_failure else rc_success) else rc_failure,
      schema,
    )

  -- The functions that are passed to `search`, of the one file and of the other.
  unfoldable pub attribute_types_search_callback :
      (CString → Parsed LdapAttributeType) → List LdEntry → UserData → M (ReturnCode × UserData)
  attribute_types_search_callback parser entries user_data =
      ldap_schema_callback_common (attribute_type_callback parser) entries user_data

  unfoldable pub object_classes_search_callback :
      (CString → Parsed LdapObjectClass) → List LdEntry → UserData → M (ReturnCode × UserData)
  object_classes_search_callback parser entries user_data =
      ldap_schema_callback_common (object_class_callback parser) entries user_data

  unfoldable pub ad_attribute_types_search_callback :
      (CString → Option LdapAttributeType) → List LdEntry → UserData → M (ReturnCode × UserData)
  ad_attribute_types_search_callback parser entries user_data =
      ad_schema_callback_common (ad_attribute_type_callback parser) entries user_data

  unfoldable pub ad_object_classes_search_callback :
      (CString → Option LdapObjectClass) → List LdEntry → UserData → M (ReturnCode × UserData)
  ad_object_classes_search_callback parser entries user_data =
      ad_schema_callback_common (ad_object_class_callback parser) entries user_data

  unfoldable pub subschema_subentry_search_callback :
      List LdEntry → UserData → M (ReturnCode × UserData)
  subschema_subentry_search_callback entries user_data =
      ad_schema_callback_common subschema_subentry_callback entries user_data
