-- ===== src/Schema/Tables/Lookups.antt =====
-- What is found in a schema after an addition.
use libdomain.Prelude.{
  ◌≡◌, refl, ◌∙◌, ap, inl, inr, Bool, true, false, not, Option, some, List, [], ◌∷◌, if◌then◌else◌,
  is_some, CString, str_eq, Bool-cases, arith,
}
use libdomain.Schema.Tables.{
  HashTables, LdapAttributeType, LdapObjectClass, LdapSchema, insert_names,
  ldap_schema_append_attributetype, ldap_schema_append_objectclass,
  ldap_schema_get_attributetype_by_name, ldap_schema_get_attributetype_by_oid,
  ldap_schema_get_objectclass_by_name, ldap_schema_get_objectclass_by_oid,
}

abbrev pub mentions : CString → List CString → Bool
mentions j [] = false
mentions j (name ∷ names) = if str_eq j name then true else mentions j names

str_eq_refl : (j : CString) → str_eq j j ≡ true
str_eq_refl [] = refl
str_eq_refl (c ∷ j) = ground (arith, str_eq_refl j)

module _ {V : Type 0} (g : HashTables V) where
  pub lookup-insert_names :
      (v : V) (names : List CString) (t : g.Table) (r : Bool) (j : CString)
      → g.lookup j (insert_names g v names t r).0
        ≡ (if mentions j names then some v else g.lookup j t)
  lookup-insert_names v [] t r j = refl
  lookup-insert_names v (name ∷ names) t r j =
      let after = g.insert name v t in
      lookup-insert_names v names after.0 after.1 j ∙ (elim (Bool-cases (mentions j names)) [
        | inl e ↦ rw e (elim (Bool-cases (str_eq j name)) [ inl f ↦ rw f refl | inr f ↦ rw f refl ])
        | inr e ↦ rw e (
            g.lookup-insert name j v t
            ∙ (elim (Bool-cases (str_eq j name)) [ inl f ↦ rw f refl | inr f ↦ rw f refl ]))
      ])

  -- Every name has a value.
  abbrev pub Bound : List CString → g.Table → Type 0
  Bound [] t = Unit
  Bound (name ∷ names) t = (is_some (g.lookup name t) ≡ true) × Bound names t

  insert-Bound :
      (k : CString) (v : V) (names : List CString) (t : g.Table)
      → Bound names t
      → Bound names (g.insert k v t).0
  insert-Bound k v [] t b = tt
  insert-Bound k v (name ∷ names) t (b, bs) = (
    ap is_some (g.lookup-insert k name v t)
        ∙ (elim (Bool-cases (str_eq name k)) [ inl f ↦ rw f refl | inr f ↦ rw f b ]),
    insert-Bound k v names t bs,
  )

  insert_names_again :
      (v : V) (names : List CString) (t : g.Table) (r : Bool)
      → Bound names t
      → r ≡ false
      → (insert_names g v names t r).1 ≡ false
  insert_names_again v [] t r b old = old
  insert_names_again v (name ∷ names) t r (b, bs) old =
      insert_names_again v names (g.insert name v t).0 (g.insert name v t).1
        (insert-Bound name v names t bs) (g.insert_is_new name v t ∙ ap not b)

  Bound-of-mentions :
      (names : List CString) (t : g.Table)
      → ((n : CString) → mentions n names ≡ true → is_some (g.lookup n t) ≡ true)
      → Bound names t
  Bound-of-mentions [] t h = tt
  Bound-of-mentions (name ∷ names) t h = (
    h name (rw (str_eq_refl name) refl),
    Bound-of-mentions names t
        (λ n m. h n (elim (Bool-cases (str_eq n name)) [ inl f ↦ rw f refl | inr f ↦ rw f m ])),
  )

  insert_names-Bound :
      (v : V) (names : List CString) (t : g.Table) (r : Bool)
      → Bound names (insert_names g v names t r).0
  insert_names-Bound v names t r =
      Bound-of-mentions names (insert_names g v names t r).0
        (λ n m. ap is_some (lookup-insert_names v names t r n) ∙ rw m refl)

  -- The pair of tables of one kind, by number and by name, after an addition.
  pub insert_again :
      (v : V) (oid : CString) (names : List CString) (by_oid by_name : g.Table)
      → let oids = (g.insert oid v by_oid).0 in
        let named = (insert_names g v names by_name (g.insert oid v by_oid).1).0 in
        (insert_names g v names named (g.insert oid v oids).1).1 ≡ false
  insert_again v oid names by_oid by_name =
      let oids = (g.insert oid v by_oid).0 in
      let named = (insert_names g v names by_name (g.insert oid v by_oid).1).0 in
      let there : is_some (g.lookup oid oids) ≡ true =
        ap is_some (g.lookup-insert oid oid v by_oid) ∙ rw (str_eq_refl oid) refl in
      insert_names_again v names named (g.insert oid v oids).1
        (insert_names-Bound v names by_name (g.insert oid v by_oid).1)
        (g.insert_is_new oid v oids ∙ ap not there)

-- An addition to a schema: a type with its number and names, or a class.
pub data Item : Type 0 where
  new_type : (a : LdapAttributeType) → Item
  new_class : (o : LdapObjectClass) → Item

abbrev pub oid_of : Item → Option CString
oid_of (new_type a) = a.at_oid
oid_of (new_class o) = o.oc_oid

abbrev pub names_of : Item → Option (List CString)
names_of (new_type a) = a.at_names
names_of (new_class o) = o.oc_names

module _ {A B : Type 0} (b : Bool) where
  first_if :
      (v : A) (x x' : Option A) (y : Option B)
      → x' ≡ (if b then some v else x)
      → ◌≡◌ {A = Option A × Option B} (x', y) (if b then (some v, y) else (x, y))
  first_if v x x' y e = elim (Bool-cases b) [ inl f ↦ rw (e, f) refl | inr f ↦ rw (e, f) refl ]

  second_if :
      (x : Option A) (v : B) (y y' : Option B)
      → y' ≡ (if b then some v else y)
      → ◌≡◌ {A = Option A × Option B} (x, y') (if b then (x, some v) else (x, y))
  second_if x v y y' e = elim (Bool-cases b) [ inl f ↦ rw (e, f) refl | inr f ↦ rw (e, f) refl ]

-- What a key leads to: a type, a class, or both.
abbrev pub Found : Type 0
Found = Option LdapAttributeType × Option LdapObjectClass

abbrev pub with_item : Item → Found → Found
with_item (new_type a) f = (some a, f.1)
with_item (new_class o) f = (f.0, some o)

module _ (types : HashTables LdapAttributeType) (classes : HashTables LdapObjectClass) where
  abbrev pub Schema? : Type 0
  Schema? = Option (LdapSchema types classes)

  -- The function of the code.
  unfoldable pub append : Item → Schema? → Bool × Schema?
  append (new_type a) schema = ldap_schema_append_attributetype types classes schema (some a)
  append (new_class o) schema = ldap_schema_append_objectclass types classes schema (some o)

  unfoldable pub found_by_oid : Schema? → CString → Found
  found_by_oid schema oid = (
    ldap_schema_get_attributetype_by_oid types classes schema oid,
    ldap_schema_get_objectclass_by_oid types classes schema oid,
  )

  unfoldable pub found_by_name : Schema? → CString → Found
  found_by_name schema name = (
    ldap_schema_get_attributetype_by_name types classes schema name,
    ldap_schema_get_objectclass_by_name types classes schema name,
  )

  -- Adding a type or a class that has a number and a list of names: it is found under its number and each
  -- of its names, everything else is found as before, and to add it once more is reported as a failure.
  pub append-Found :
      (item : Item) (oid : CString) (names : List CString) (schema : LdapSchema types classes)
      → oid_of item ≡ some oid
      → names_of item ≡ some names
      → let after = (append item (some schema)).1 in
        ((j : CString)
          → found_by_oid after j ≡ (
              if str_eq j oid
              then with_item item (found_by_oid (some schema) j)
              else found_by_oid (some schema) j))
        × ((j : CString)
            → found_by_name after j ≡ (
                if mentions j names
                then with_item item (found_by_name (some schema) j)
                else found_by_name (some schema) j))
        × ((append item after).0 ≡ false)
  unfolding append found_by_oid found_by_name ldap_schema_append_attributetype
      ldap_schema_append_objectclass ldap_schema_get_attributetype_by_name
      ldap_schema_get_attributetype_by_oid ldap_schema_get_objectclass_by_name
      ldap_schema_get_objectclass_by_oid
  append-Found (new_type a) oid names schema eo en =
      let v : LdapAttributeType = record {
        at_oid = some oid;
        at_names = some names;
        number = a.number;
      } in
      let by_oid = schema.attribute_types_by_oid in
      let by_name = schema.attribute_types_by_name in
      rw (eo, en)
        (
          (λ j.
              first_if (str_eq j oid) v (types.lookup j by_oid)
                (types.lookup j (types.insert oid v by_oid).0)
                (classes.lookup j schema.object_classes_by_oid)
                (types.lookup-insert oid j v by_oid)),
          (λ j.
              first_if (mentions j names) v (types.lookup j by_name)
                (types.lookup j
                  (insert_names types v names by_name (types.insert oid v by_oid).1).0)
                (classes.lookup j schema.object_classes_by_name)
                (lookup-insert_names types v names by_name (types.insert oid v by_oid).1 j)),
          insert_again types v oid names by_oid by_name,
        )
  append-Found (new_class o) oid names schema eo en =
      let v : LdapObjectClass = record {
        oc_oid = some oid;
        oc_names = some names;
        number = o.number;
      } in
      let by_oid = schema.object_classes_by_oid in
      let by_name = schema.object_classes_by_name in
      rw (eo, en)
        (
          (λ j.
              second_if (str_eq j oid) (types.lookup j schema.attribute_types_by_oid) v
                (classes.lookup j by_oid) (classes.lookup j (classes.insert oid v by_oid).0)
                (classes.lookup-insert oid j v by_oid)),
          (λ j.
              second_if (mentions j names) (types.lookup j schema.attribute_types_by_name) v
                (classes.lookup j by_name)
                (classes.lookup j
                  (insert_names classes v names by_name (classes.insert oid v by_oid).1).0)
                (lookup-insert_names classes v names by_name (classes.insert oid v by_oid).1 j)),
          insert_again classes v oid names by_oid by_name,
        )
