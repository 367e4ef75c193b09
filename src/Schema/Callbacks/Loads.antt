-- ===== src/Schema/Callbacks/Loads.antt =====
-- The callbacks that fill the schema, from the entries of a reply to the end.
use libdomain.Prelude.{
  Option-cases, ℕ, zero, suc, ◌+◌, ◌<◌, ◌==◌, ◌≡◌, ◌||◌, refl, sym, ◌∙◌, inl, inr, Bool, true,
  false, not, Option, none, some, List, [], ◌∷◌, if◌then◌else◌, is_some, length, pos, int_eq, null,
  CString, arith,
}
use libdomain.Ldap.{call_talloc, call_talloc_free}
use libdomain.Connection.{
  Connection, ReturnCode, rc_success, rc_failure, M, pure, log, perform, faulty, out_of_fuel, ◌>>◌,
}
use libdomain.Connection.Ends.{Ends, Returns, Ends-weaken, Returns-weaken}
use libdomain.Entry.Table.{LdEntry, allocate}
use libdomain.Entry.Attributes.{FilledAttribute, ld_entry_get_attributes}
use libdomain.Entry.Memory.{
  Ample, Full, Runs, Runs-bind, Runs-if, Allocated, FilledAll, allocate-Runs, get_attributes-Runs,
}
use libdomain.Schema.Tables.{
  HashTables, LdapAttributeType, LdapObjectClass, ldap_schema_append_attributetype,
  ldap_schema_append_objectclass,
}
use libdomain.Schema.Parsers.{parse_attribute_type, parse_object_class}
use libdomain.Schema.Callbacks.{
  is_failure, read_values, read_attributes, ldap_schema_read_entry, ldap_schema_callback_common,
  UserData, added, attribute_type_callback, object_class_callback, ad_attribute_type_callback,
  ad_object_class_callback, subschema_subentry_callback, attribute_types_search_callback,
  object_classes_search_callback, ad_attribute_types_search_callback,
  ad_object_classes_search_callback, subschema_subentry_search_callback,
}
use libdomain.Schema.Callbacks.Indexed.{
  Loader, openldap_types, openldap_classes, ad_types, ad_classes, ad_subentry, Indexed,
  append_attributetype-Indexed, append_objectclass-Indexed,
}

-- At an attribute without values the loop never ends: no fuel is enough.
spins :
    {S : Type 0} (callback : CString → S → M (ReturnCode × S)) (fuel : ℕ) (a : FilledAttribute)
    (rest : List FilledAttribute) (user_data : S) (c : Connection)
    → a.values ≡ none
    → read_attributes callback fuel (a ∷ rest) user_data c ≡ out_of_fuel
spins callback zero a rest user_data c e = refl
spins callback (suc fuel) a rest user_data c e = rw e (spins callback fuel a rest user_data c e)

module _ (types : HashTables LdapAttributeType) (classes : HashTables LdapObjectClass) where
  -- The function of the code.
  unfoldable pub callback_of :
      Loader → CString → UserData types classes → M (ReturnCode × UserData types classes)
  callback_of (openldap_types parser) = attribute_type_callback types classes parser
  callback_of (openldap_classes parser) = object_class_callback types classes parser
  callback_of (ad_types parser) = ad_attribute_type_callback types classes parser
  callback_of (ad_classes parser) = ad_object_class_callback types classes parser
  callback_of ad_subentry = subschema_subentry_callback types classes

  module _ (c₀ : Connection) where
    abbrev Kept : ReturnCode × UserData types classes → Connection → Type 0
    Kept r d = (d.world ≡ c₀.world) × Indexed types classes r.1

    -- What stands after the call of the parser in OpenLDAP.
    referenced :
        (bad : Bool) (schema : UserData types classes) (r : ReturnCode × UserData types classes)
        (c : Connection)
        → c.world ≡ c₀.world
        → Indexed types classes schema
        → Indexed types classes r.1
        → Runs c₀ Kept (
            (if bad
                then (perform call_talloc_free >> pure (rc_failure, schema))
                else if (c.world (call_talloc ∷ c.trace)).ptr == null
                then faulty
                else pure r)
              (log call_talloc c))
    referenced bad schema r c w h h' =
        Runs-if c₀ Kept bad _ _ (log call_talloc c) (λ _. ((w, h), (λ _. (w, h))))
          (λ _.
            Runs-if c₀ Kept ((c.world (call_talloc ∷ c.trace)).ptr == null) faulty (pure r)
              (log call_talloc c)
              (λ lacks. (
                tt,
                λ ample.
                    let e : true ≡ false = sym lacks ∙ rw w (ample (call_talloc ∷ c.trace)) in
                    absurd (cc),
              ))
              (λ _. ((w, h'), (λ _. (w, h')))))

    callback-Runs :
        (l : Loader) (value : CString) (schema : UserData types classes) (c : Connection)
        → c.world ≡ c₀.world
        → Indexed types classes schema
        → Runs c₀ Kept (callback_of l value schema c)
    unfolding callback_of attribute_type_callback object_class_callback ad_attribute_type_callback
        ad_object_class_callback subschema_subentry_callback
    callback-Runs (openldap_types parser) value none c w h = absurd h
    callback-Runs (openldap_types parser) value (some schema) c w h =
        let p = parser value in
        referenced (not (is_some p.result) || not (int_eq p.error_code (pos 0))) (some schema)
          (added types classes
            (ldap_schema_append_attributetype types classes (some schema) p.result))
          c w h (append_attributetype-Indexed types classes (some schema) p.result h)
    callback-Runs (openldap_classes parser) value none c w h = absurd h
    callback-Runs (openldap_classes parser) value (some schema) c w h =
        let p = parser value in
        referenced (not (is_some p.result) || not (int_eq p.error_code (pos 0))) (some schema)
          (added types classes
            (ldap_schema_append_objectclass types classes (some schema) p.result))
          c w h (append_objectclass-Indexed types classes (some schema) p.result h)
    callback-Runs (ad_types parser) value schema c w h =
        parsed (parse_attribute_type parser (some value))
      where
        parsed :
            (p : Option LdapAttributeType)
            → Runs c₀ Kept (
                (elim p as (λ _. M (ReturnCode × UserData types classes)) [
                  | none ↦ pure (rc_failure, schema)
                  | some a ↦ pure (
                      added types classes
                        (ldap_schema_append_attributetype types classes schema (some a)))
                ])
                  c)
        parsed none = ((w, h), (λ _. (w, h)))
        parsed (some a) =
            let h' = append_attributetype-Indexed types classes schema (some a) h in
            ((w, h'), (λ _. (w, h')))
    callback-Runs (ad_classes parser) value schema c w h =
        parsed (parse_object_class parser (some value))
      where
        parsed :
            (p : Option LdapObjectClass)
            → Runs c₀ Kept (
                (elim p as (λ _. M (ReturnCode × UserData types classes)) [
                  | none ↦ pure (rc_failure, schema)
                  | some o ↦ pure (
                      added types classes
                        (ldap_schema_append_objectclass types classes schema (some o)))
                ])
                  c)
        parsed none = ((w, h), (λ _. (w, h)))
        parsed (some o) =
            let h' = append_objectclass-Indexed types classes schema (some o) h in
            ((w, h'), (λ _. (w, h')))
    callback-Runs ad_subentry value schema c w h =
        Runs-bind c₀ (Allocated c₀) Kept (allocate 1 c) _ (allocate-Runs c₀ 1 c w)
          (λ ok d (v, _). ((v, h), (λ _. (v, h))))

    values-Runs :
        (l : Loader) (values : List CString) (schema : UserData types classes) (c : Connection)
        → c.world ≡ c₀.world
        → Indexed types classes schema
        → Runs c₀ Kept (read_values (callback_of l) values schema c)
    values-Runs l [] schema c w h = ((w, h), (λ _. (w, h)))
    values-Runs l (value ∷ values) schema c w h =
        Runs-bind c₀ Kept Kept (callback_of l value schema c) _ (callback-Runs l value schema c w h)
          (λ r d (v, h').
            Runs-if c₀ Kept (is_failure r.0) (pure (rc_failure, r.1))
              (read_values (callback_of l) values r.1) d (λ _. ((v, h'), (λ _. (v, h'))))
              (λ _. values-Runs l values r.1 d v h'))

    -- With memory no attribute lacks its values, so that the loop ends within its fuel.
    attributes-Runs :
        (l : Loader) (fuel : ℕ) (attributes : List FilledAttribute)
        (schema : UserData types classes) (c : Connection)
        → c.world ≡ c₀.world
        → Indexed types classes schema
        → (Ample c₀ → Full attributes)
        → length attributes < fuel
        → Runs c₀ Kept (read_attributes (callback_of l) fuel attributes schema c)
    attributes-Runs l zero attributes schema c w h full enough = absurd (omega arith)
    attributes-Runs l (suc fuel) [] schema c w h full enough = ((w, h), (λ _. (w, h)))
    attributes-Runs l (suc fuel) (a ∷ rest) schema c w h full enough =
        elim (Option-cases a.values) [
          | inl e ↦
              rw (e, spins (callback_of l) fuel a rest schema c e)
                (tt, λ ample. let f : false ≡ true = rw e at (full ample).0 in absurd (cc))
          | inr (values, e) ↦ rw e (
              Runs-bind c₀ Kept Kept (read_values (callback_of l) values schema c) _
                (values-Runs l values schema c w h)
                (λ r d (v, h').
                  Runs-if c₀ Kept (is_failure r.0) (pure (rc_failure, r.1))
                    (read_attributes (callback_of l) fuel rest r.1) d
                    (λ _. ((v, h'), (λ _. (v, h'))))
                    (λ _.
                      attributes-Runs l fuel rest r.1 d v h' (λ ample. (full ample).1)
                        (omega arith))))
        ]

    entry-Runs :
        (l : Loader) (entry : LdEntry) (schema : UserData types classes) (c : Connection)
        → c.world ≡ c₀.world
        → Indexed types classes schema
        → Runs c₀ Kept (ldap_schema_read_entry (callback_of l) entry schema c)
    unfolding ldap_schema_read_entry
    entry-Runs l entry schema c w h =
        Runs-bind c₀ (FilledAll c₀) Kept (ld_entry_get_attributes entry c) _
          (get_attributes-Runs c₀ entry c w) (λ r d (v, full). by_attributes r d v full)
      where
        by_attributes :
            (r : Option (List FilledAttribute)) (d : Connection)
            → d.world ≡ c₀.world
            → (Ample c₀ → (as' : List FilledAttribute) × (r ≡ some as') × Full as')
            → Runs c₀ Kept (
                (elim r as (λ _. M (ReturnCode × UserData types classes)) [
                  | none ↦ pure (rc_success, schema)
                  | some filled ↦ read_attributes (callback_of l) (length filled + 1) filled schema
                ])
                  d)
        by_attributes none d v full = ((v, h), (λ _. (v, h)))
        by_attributes (some filled) d v full =
            attributes-Runs l (length filled + 1) filled schema d v h
              (λ ample.
                let (as', e, f) = full ample in let same : as' ≡ filled = cc in rw same at f)
              (omega arith)

    common-Runs :
        (l : Loader) (entries : List LdEntry) (schema : UserData types classes) (c : Connection)
        → c.world ≡ c₀.world
        → Indexed types classes schema
        → Runs c₀ Kept (ldap_schema_callback_common (callback_of l) entries schema c)
    unfolding ldap_schema_callback_common
    common-Runs l [] schema c w h = ((w, h), (λ _. (w, h)))
    common-Runs l (entry ∷ entries) schema c w h =
        Runs-bind c₀ Kept Kept (ldap_schema_read_entry (callback_of l) entry schema c) _
          (entry-Runs l entry schema c w h)
          (λ r d (v, h').
            Runs-if c₀ Kept (is_failure r.0) (pure (rc_failure, r.1))
              (ldap_schema_callback_common (callback_of l) entries r.1) d
              (λ _. ((v, h'), (λ _. (v, h')))) (λ _. common-Runs l entries r.1 d v h'))

  -- The function that is passed to `search`.
  unfoldable pub search_callback_of :
      Loader → List LdEntry → UserData types classes → M (ReturnCode × UserData types classes)
  search_callback_of (openldap_types parser) = attribute_types_search_callback types classes parser
  search_callback_of (openldap_classes parser) = object_classes_search_callback types classes parser
  search_callback_of (ad_types parser) = ad_attribute_types_search_callback types classes parser
  search_callback_of (ad_classes parser) = ad_object_classes_search_callback types classes parser
  search_callback_of ad_subentry = subschema_subentry_search_callback types classes

  search-common :
      (l : Loader) (entries : List LdEntry) (schema : UserData types classes) (c : Connection)
      → search_callback_of l entries schema c
        ≡ ldap_schema_callback_common (callback_of l) entries schema c
  unfolding search_callback_of callback_of attribute_types_search_callback
      object_classes_search_callback ad_attribute_types_search_callback
      ad_object_classes_search_callback subschema_subentry_search_callback
  search-common (openldap_types parser) entries schema c = refl
  search-common (openldap_classes parser) entries schema c = refl
  search-common (ad_types parser) entries schema c = refl
  search-common (ad_classes parser) entries schema c = refl
  search-common ad_subentry entries schema c = refl

  -- Whatever the replies hold and the parsers make of them, the callbacks that fill the schema leave a schema
  -- in which everything stands under its own number and names, for a schema that is not NULL and in which
  -- it was so before: when there is memory for every allocation they return so, and otherwise, if they
  -- return at all. The schema that they leave is not NULL.
  pub load-Indexed :
      (l : Loader) (entries : List LdEntry) (c : Connection) (schema : UserData types classes)
      → Indexed types classes schema
      → let run = search_callback_of l entries schema c in
        Ends (λ r _. Indexed types classes r.1) run
        × (Ample c → Returns (λ r _. Indexed types classes r.1) run)
  load-Indexed l entries c schema h =
      let runs = common-Runs c l entries schema c refl h in
      let run = ldap_schema_callback_common (callback_of l) entries schema c in
      let Good : ReturnCode × UserData types classes → Connection → Type 0 =
        λ r _. Indexed types classes r.1 in
      rw (search-common l entries schema c) (
        Ends-weaken (Kept c) Good run runs.0 (λ r d k. k.1),
        λ ample. Returns-weaken (Kept c) Good run (runs.1 ample) (λ r d k. k.1),
      )
