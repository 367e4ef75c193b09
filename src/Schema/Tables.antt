-- ===== src/Schema/Tables.antt =====
-- src/schema.c and src/schema_p.h: the tables of a schema. GLib's hash tables are a parameter.
pub mod Lookups
use libdomain.Prelude.{
  ℕ, ◌==◌, ◌≡◌, Bool, true, false, not, Option, none, some, List, [], ◌∷◌, if◌then◌else◌, is_some,
  length, Ptr, null, CString, str_eq,
}
use libdomain.Connection.{M, pure, ◌>>=◌}
use libdomain.Entry.Table.{allocate}

-- What the code uses of GLib's hash tables with texts as keys (`g_str_hash`, `g_str_equal`), as GLib
-- documents it. `insert` gives back whether the key was not there before; a value that is there is
-- replaced. `values` is what an iterator comes to, in its order.
pub record HashTables (V : Type 0) : Type 1 where
  pub Table : Type 0
  pub new : Table
  pub insert : CString → V → Table → Table × Bool
  pub lookup : CString → Table → Option V
  pub size : Table → ℕ
  pub values : Table → List V
  pub lookup-new : (k : CString) → lookup k new ≡ none
  pub lookup-insert :
      (k j : CString) (v : V) (t : Table)
      → lookup j (insert k v t).0 ≡ (if str_eq j k then some v else lookup j t)
  pub insert_is_new :
      (k : CString) (v : V) (t : Table) → (insert k v t).1 ≡ not (is_some (lookup k t))
  pub length-values : (t : Table) → length (values t) ≡ size t

-- `LDAPAttributeType` and `LDAPObjectClass`, as far as the tables read them; `number` stands for the rest.
pub record LdapAttributeType : Type 0 where
  pub at_oid : Option CString
  pub at_names : Option (List CString)
  pub number : ℕ

pub record LdapObjectClass : Type 0 where
  pub oc_oid : Option CString
  pub oc_names : Option (List CString)
  pub number : ℕ

-- The loop over the names; `result` is what the insertion before it reports.
module _ {V : Type 0} (g : HashTables V) where
  abbrev pub insert_names : V → List CString → g.Table → Bool → g.Table × Bool
  insert_names v [] table result = (table, result)
  insert_names v (name ∷ names) table result =
      let (table', is_new) = g.insert name v table in insert_names v names table' is_new

module _ (types : HashTables LdapAttributeType) (classes : HashTables LdapObjectClass) where
  -- `struct ldap_schema_t`; `ldap_schema_new` leaves no table NULL.
  pub record LdapSchema : Type 0 where
    pub object_classes_by_oid : classes.Table
    pub object_classes_by_name : classes.Table
    pub attribute_types_by_oid : types.Table
    pub attribute_types_by_name : types.Table

  abbrev pub empty_schema : LdapSchema
  empty_schema = record {
    object_classes_by_oid = classes.new;
    object_classes_by_name = classes.new;
    attribute_types_by_oid = types.new;
    attribute_types_by_name = types.new;
  }

  -- `g_hash_table_new` never gives NULL back, so only the struct can be missing.
  unfoldable pub ldap_schema_new : Ptr → M (Option LdapSchema)
  ldap_schema_new ctx =
      if ctx == null
      then pure none
      else do ok ← allocate 1; pure (if ok then some empty_schema else none)

  -- The array of the values, with room for the NULL at its end.
  unfoldable pub ldap_schema_object_classes : Option LdapSchema → M (Option (List LdapObjectClass))
  ldap_schema_object_classes none = pure none
  ldap_schema_object_classes (some schema) = do
    ok ← allocate 1
    pure (if ok then some (classes.values schema.object_classes_by_oid) else none)

  unfoldable pub ldap_schema_attribute_types :
      Option LdapSchema → M (Option (List LdapAttributeType))
  ldap_schema_attribute_types none = pure none
  ldap_schema_attribute_types (some schema) = do
    ok ← allocate 1
    pure (if ok then some (types.values schema.attribute_types_by_oid) else none)

  unfoldable pub ldap_schema_get_objectclass_by_oid :
      Option LdapSchema → CString → Option LdapObjectClass
  ldap_schema_get_objectclass_by_oid none oid = none
  ldap_schema_get_objectclass_by_oid (some schema) oid =
      classes.lookup oid schema.object_classes_by_oid

  unfoldable pub ldap_schema_get_objectclass_by_name :
      Option LdapSchema → CString → Option LdapObjectClass
  ldap_schema_get_objectclass_by_name none name = none
  ldap_schema_get_objectclass_by_name (some schema) name =
      classes.lookup name schema.object_classes_by_name

  unfoldable pub ldap_schema_get_attributetype_by_oid :
      Option LdapSchema → CString → Option LdapAttributeType
  ldap_schema_get_attributetype_by_oid none oid = none
  ldap_schema_get_attributetype_by_oid (some schema) oid =
      types.lookup oid schema.attribute_types_by_oid

  unfoldable pub ldap_schema_get_attributetype_by_name :
      Option LdapSchema → CString → Option LdapAttributeType
  ldap_schema_get_attributetype_by_name none name = none
  ldap_schema_get_attributetype_by_name (some schema) name =
      types.lookup name schema.attribute_types_by_name

  -- A schema, a type and its list of names may be NULL. What is given back is what the last insertion
  -- reports.
  abbrev pub append_type :
      LdapSchema
      → LdapAttributeType
      → (names : Option (List CString)) (oid : Option CString) → Bool × Option LdapSchema
  append_type schema a none oid = (false, some schema)
  append_type schema a (some names) none = (false, some schema)
  append_type schema a (some names) (some oid) =
      let (by_oid, is_new) = types.insert oid a schema.attribute_types_by_oid in
      let (by_name, result) = insert_names types a names schema.attribute_types_by_name is_new in
      (
        result,
        some (record schema { attribute_types_by_oid = by_oid; attribute_types_by_name = by_name }),
      )

  unfoldable pub ldap_schema_append_attributetype :
      Option LdapSchema → Option LdapAttributeType → Bool × Option LdapSchema
  ldap_schema_append_attributetype none a = (false, none)
  ldap_schema_append_attributetype (some schema) none = (false, some schema)
  ldap_schema_append_attributetype (some schema) (some a) = append_type schema a a.at_names a.at_oid

  abbrev pub append_class :
      LdapSchema
      → LdapObjectClass
      → (names : Option (List CString)) (oid : Option CString) → Bool × Option LdapSchema
  append_class schema o none oid = (false, some schema)
  append_class schema o (some names) none = (false, some schema)
  append_class schema o (some names) (some oid) =
      let (by_oid, is_new) = classes.insert oid o schema.object_classes_by_oid in
      let (by_name, result) = insert_names classes o names schema.object_classes_by_name is_new in
      (
        result,
        some (record schema { object_classes_by_oid = by_oid; object_classes_by_name = by_name }),
      )

  unfoldable pub ldap_schema_append_objectclass :
      Option LdapSchema → Option LdapObjectClass → Bool × Option LdapSchema
  ldap_schema_append_objectclass none o = (false, none)
  ldap_schema_append_objectclass (some schema) none = (false, some schema)
  ldap_schema_append_objectclass (some schema) (some o) = append_class schema o o.oc_names o.oc_oid
