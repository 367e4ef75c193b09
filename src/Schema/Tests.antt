-- ===== src/Schema/Tests.antt =====
-- Hash tables as association lists, which have the laws asked of GLib's, and the theorems on schemas at
-- concrete values.
use libdomain.Prelude.{
  suc, ◌≡◌, refl, ap, inl, inr, false, not, Option, none, some, List, [], ◌∷◌, if◌then◌else◌,
  is_some, length, CString, codes, str_eq, str_eq-path, Bool-cases, arith,
}
use libdomain.Connection.{run}
use libdomain.Connection.Ends.{Ends, Returns}
use libdomain.Connection.Sample.{idle_in}
use libdomain.Entry.Memory.{Ample}
use libdomain.Entry.Table.{LdEntry}
use libdomain.Schema.Tables.Lookups.{
  new_type, append, found_by_oid, found_by_name, with_item, mentions, append-Found,
}
use libdomain.Schema.Callbacks.Indexed.{ad_types, Indexed, empty-IsIndexed}
use libdomain.Schema.Callbacks.Loads.{search_callback_of, load-Indexed}
use libdomain.Schema.Tables.{
  HashTables, LdapAttributeType, LdapObjectClass, LdapSchema, empty_schema,
}

module _ {V : Type 0} where
  abbrev insert_pair : CString → V → List (CString × V) → List (CString × V)
  insert_pair k v [] = (k, v) ∷ []
  insert_pair k v ((j, u) ∷ rest) =
      if str_eq k j then (k, v) ∷ rest else (j, u) ∷ insert_pair k v rest

  abbrev lookup_pair : CString → List (CString × V) → Option V
  lookup_pair k [] = none
  lookup_pair k ((j, u) ∷ rest) = if str_eq k j then some u else lookup_pair k rest

  abbrev values_of : List (CString × V) → List V
  values_of [] = []
  values_of ((k, v) ∷ rest) = v ∷ values_of rest

  lookup-insert_pair :
      (k j : CString) (v : V) (t : List (CString × V))
      → lookup_pair j (insert_pair k v t) ≡ (if str_eq j k then some v else lookup_pair j t)
  lookup-insert_pair k j v [] = refl
  lookup-insert_pair k j v ((i, u) ∷ rest) = elim (Bool-cases (str_eq k i)) [
    | inl same ↦ let e : k ≡ i = str_eq-path k i same in ground arith
    | inr other ↦ elim (Bool-cases (str_eq j k)) [
      | inl mine ↦
          let e : j ≡ k = str_eq-path j k mine in
          let not_i : str_eq j i ≡ false = rw e other in
          ground (arith, lookup-insert_pair k j v rest)
      | inr not_k ↦ ground (arith, lookup-insert_pair k j v rest)
    ]
  ]

  length-values_of : (t : List (CString × V)) → length (values_of t) ≡ length t
  length-values_of [] = refl
  length-values_of ((k, v) ∷ rest) = ap suc (length-values_of rest)

abbrev pairs : (V : Type 0) → HashTables V
pairs V = record {
  Table = List (CString × V);
  new = [];
  insert = λ k v t. (insert_pair k v t, not (is_some (lookup_pair k t)));
  lookup = lookup_pair;
  size = length;
  values = values_of;
  lookup-new = λ k. refl;
  lookup-insert = lookup-insert_pair;
  insert_is_new = λ k v t. refl;
  length-values = length-values_of;
}

abbrev name_type : LdapAttributeType
name_type = record {
  at_oid = some (codes "2.5.4.3");
  at_names = some (codes "cn" ∷ codes "commonName" ∷ []);
  number = 1;
}

abbrev nothing_yet : LdapSchema (pairs LdapAttributeType) (pairs LdapObjectClass)
nothing_yet = empty_schema (pairs LdapAttributeType) (pairs LdapObjectClass)

append-Found_example :
    let types = pairs LdapAttributeType in
    let classes = pairs LdapObjectClass in
    let after = (append types classes (new_type name_type) (some nothing_yet)).1 in
    ((j : CString)
      → found_by_oid types classes after j ≡ (
          if str_eq j (codes "2.5.4.3")
          then with_item (new_type name_type) (found_by_oid types classes (some nothing_yet) j)
          else found_by_oid types classes (some nothing_yet) j))
    × ((j : CString)
        → found_by_name types classes after j ≡ (
            if mentions j (codes "cn" ∷ codes "commonName" ∷ [])
            then with_item (new_type name_type) (found_by_name types classes (some nothing_yet) j)
            else found_by_name types classes (some nothing_yet) j))
    × ((append types classes (new_type name_type) after).0 ≡ false)
append-Found_example =
    append-Found (pairs LdapAttributeType) (pairs LdapObjectClass) (new_type name_type)
      (codes "2.5.4.3") (codes "cn" ∷ codes "commonName" ∷ []) nothing_yet refl refl

-- A reply of one entry with one description, which the parser understands.
abbrev reply : List LdEntry
reply =
    record {
      dn = codes "cn=subschema";
      attributes = record { name = codes "attributetypes"; values = codes "( 2.5.4.3 )" ∷ [] } ∷ [];
    }
    ∷ []

load-Indexed_example :
    let types = pairs LdapAttributeType in
    let classes = pairs LdapObjectClass in
    let loads =
      search_callback_of types classes
        (ad_types (λ _. some name_type))
        reply
        (some nothing_yet)
        (idle_in run) in
    Ends (λ r _. Indexed types classes r.1) loads
    × (Ample (idle_in run) → Returns (λ r _. Indexed types classes r.1) loads)
load-Indexed_example =
    load-Indexed (pairs LdapAttributeType) (pairs LdapObjectClass) (ad_types (λ _. some name_type))
      reply (idle_in run) (some nothing_yet)
      (empty-IsIndexed (pairs LdapAttributeType) (pairs LdapObjectClass))
