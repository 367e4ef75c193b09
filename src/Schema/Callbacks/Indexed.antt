-- ===== src/Schema/Callbacks/Indexed.antt =====
-- The tables of a schema lead to what belongs to their keys, whatever the replies hold.
use libdomain.Prelude.{
  ◌≡◌, ◌≢◌, refl, sym, ◌∙◌, inl, inr, Bool, true, false, Option, none, some, List, CString, str_eq,
  str_eq-path, Bool-cases,
}
use libdomain.Schema.Tables.{
  HashTables, LdapAttributeType, LdapObjectClass, LdapSchema, insert_names, empty_schema,
  append_type, append_class, ldap_schema_append_attributetype, ldap_schema_append_objectclass,
}
use libdomain.Schema.Tables.Lookups.{mentions, lookup-insert_names}
use libdomain.Schema.Callbacks.{Parsed, UserData, added}

-- Every key of a table leads to something of which `P` holds with the key.
module _ {V : Type 0} (g : HashTables V) where
  abbrev pub Keyed : (CString → V → Type 0) → g.Table → Type 0
  Keyed P t = (k : CString) (v : V) → g.lookup k t ≡ some v → P k v

module _ {V : Type 0} (g : HashTables V) (P : CString → V → Type 0) where
  insert-Keyed :
      (k : CString) (v : V) (t : g.Table) → P k v → Keyed g P t → Keyed g P (g.insert k v t).0
  insert-Keyed k v t p keyed j u found =
      let step = g.lookup-insert k j v t in
      elim (Bool-cases (str_eq j k)) [
        | inl e ↦
            let same : j ≡ k = str_eq-path j k e in
            let it : some v ≡ some u = (rw e at (sym step ∙ found)) in
            let value : v ≡ u = cc in rw (same, ← value) p
        | inr e ↦ keyed j u (rw e at (sym step ∙ found))
      ]

  insert_names-Keyed :
      (v : V) (names : List CString) (t : g.Table) (r : Bool)
      → ((n : CString) → mentions n names ≡ true → P n v)
      → Keyed g P t
      → Keyed g P (insert_names g v names t r).0
  insert_names-Keyed v names t r p keyed j u found =
      let step = lookup-insert_names g v names t r j in
      elim (Bool-cases (mentions j names)) [
        | inl e ↦
            let it : some v ≡ some u = (rw e at (sym step ∙ found)) in
            let value : v ≡ u = cc in rw (← value) (p j e)
        | inr e ↦ keyed j u (rw e at (sym step ∙ found))
      ]

none-some : {A : Type 0} {x : A} → none ≢ some x
none-some h = cc

abbrev pub Named : CString → Option (List CString) → Type 0
Named n names = (ns : List CString) × (names ≡ some ns) × (mentions n ns ≡ true)

-- The functions that the code passes to `ldap_schema_callback_common`, with the parsers that they call.
pub data Loader : Type 0 where
  openldap_types : (CString → Parsed LdapAttributeType) → Loader
  openldap_classes : (CString → Parsed LdapObjectClass) → Loader
  ad_types : (CString → Option LdapAttributeType) → Loader
  ad_classes : (CString → Option LdapObjectClass) → Loader
  ad_subentry : Loader

module _ (types : HashTables LdapAttributeType) (classes : HashTables LdapObjectClass) where
  -- What is found under a number has that number, and what is found under a name has that name.
  pub record IsIndexed (schema : LdapSchema types classes) : Type 0 where
    pub types_by_oid : Keyed types (λ k a. a.at_oid ≡ some k) schema.attribute_types_by_oid
    pub types_by_name : Keyed types (λ k a. Named k a.at_names) schema.attribute_types_by_name
    pub classes_by_oid : Keyed classes (λ k o. o.oc_oid ≡ some k) schema.object_classes_by_oid
    pub classes_by_name : Keyed classes (λ k o. Named k o.oc_names) schema.object_classes_by_name

  pub empty-IsIndexed : IsIndexed (empty_schema types classes)
  empty-IsIndexed = record {
    types_by_oid = λ k v found. absurd (none-some (sym (types.lookup-new k) ∙ found));
    types_by_name = λ k v found. absurd (none-some (sym (types.lookup-new k) ∙ found));
    classes_by_oid = λ k v found. absurd (none-some (sym (classes.lookup-new k) ∙ found));
    classes_by_name = λ k v found. absurd (none-some (sym (classes.lookup-new k) ∙ found));
  }

  -- The schema is there, and is indexed.
  abbrev pub Indexed : UserData types classes → Type 0
  Indexed none = ⊥
  Indexed (some schema) = IsIndexed schema

  added-Indexed :
      (r : Bool × UserData types classes) → Indexed r.1 → Indexed (added types classes r).1
  added-Indexed (true, schema) h = h
  added-Indexed (false, schema) h = h

  append_type-Indexed :
      (schema : LdapSchema types classes) (a : LdapAttributeType) (names : Option (List CString))
      (oid : Option CString)
      → a.at_names ≡ names
      → a.at_oid ≡ oid
      → IsIndexed schema
      → Indexed (append_type types classes schema a names oid).1
  append_type-Indexed schema a none oid en eo h = h
  append_type-Indexed schema a (some names) none en eo h = h
  append_type-Indexed schema a (some names) (some oid) en eo h = record {
    types_by_oid =
        insert-Keyed types (λ k x. x.at_oid ≡ some k) oid a schema.attribute_types_by_oid eo
          h.types_by_oid;
    types_by_name =
        insert_names-Keyed types (λ k x. Named k x.at_names) a names schema.attribute_types_by_name
          (types.insert oid a schema.attribute_types_by_oid).1 (λ n m. (names, en, m))
          h.types_by_name;
    classes_by_oid = h.classes_by_oid;
    classes_by_name = h.classes_by_name;
  }

  pub append_attributetype-Indexed :
      (schema : UserData types classes) (a : Option LdapAttributeType)
      → Indexed schema
      → Indexed (added types classes (ldap_schema_append_attributetype types classes schema a)).1
  unfolding ldap_schema_append_attributetype
  append_attributetype-Indexed none a h = absurd h
  append_attributetype-Indexed (some schema) none h = h
  append_attributetype-Indexed (some schema) (some a) h =
      added-Indexed (append_type types classes schema a a.at_names a.at_oid)
        (append_type-Indexed schema a a.at_names a.at_oid refl refl h)

  append_class-Indexed :
      (schema : LdapSchema types classes) (o : LdapObjectClass) (names : Option (List CString))
      (oid : Option CString)
      → o.oc_names ≡ names
      → o.oc_oid ≡ oid
      → IsIndexed schema
      → Indexed (append_class types classes schema o names oid).1
  append_class-Indexed schema o none oid en eo h = h
  append_class-Indexed schema o (some names) none en eo h = h
  append_class-Indexed schema o (some names) (some oid) en eo h = record {
    types_by_oid = h.types_by_oid;
    types_by_name = h.types_by_name;
    classes_by_oid =
        insert-Keyed classes (λ k x. x.oc_oid ≡ some k) oid o schema.object_classes_by_oid eo
          h.classes_by_oid;
    classes_by_name =
        insert_names-Keyed classes (λ k x. Named k x.oc_names) o names schema.object_classes_by_name
          (classes.insert oid o schema.object_classes_by_oid).1 (λ n m. (names, en, m))
          h.classes_by_name;
  }

  pub append_objectclass-Indexed :
      (schema : UserData types classes) (o : Option LdapObjectClass)
      → Indexed schema
      → Indexed (added types classes (ldap_schema_append_objectclass types classes schema o)).1
  unfolding ldap_schema_append_objectclass
  append_objectclass-Indexed none o h = absurd h
  append_objectclass-Indexed (some schema) none h = h
  append_objectclass-Indexed (some schema) (some o) h =
      added-Indexed (append_class types classes schema o o.oc_names o.oc_oid)
        (append_class-Indexed schema o o.oc_names o.oc_oid refl refl h)
