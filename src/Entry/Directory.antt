-- ===== src/Entry/Directory.antt =====
-- `directory_parse_result` of src/directory.c: the type of the directory after a reply.
use libdomain.Prelude.{
  ◌≡◌, ◌≢◌, ◌⊎◌, inl, inr, refl, List, [], ◌∷◌, CString, codes, str_eq, if◌then◌else◌, Bool-cases,
}
use libdomain.Ldap.{
  ResultType, res_search_entry, res_search_result, LdapMessage, RawAttribute, RawEntry,
}
use libdomain.Connection.{
  Connection, rc_success, DirectoryType, type_uninitialized, type_unknown, type_active_directory,
  type_openldap, type_free_ipa, done,
}
use libdomain.Entry.Replies.{
  Callbacks, directory_parse_result, directory_type_of, message_type, or_unknown,
}

abbrev global_catalog : CString
global_catalog = codes "isGlobalCatalogReady"

abbrev object_class : CString
object_class = codes "objectClass"

-- The type that the reply to the question for one entry means, in place of the two loops: that of the
-- first attribute which tells it.
abbrev type_by_names : List RawAttribute → DirectoryType
type_by_names [] = type_unknown
type_by_names (a ∷ rest) =
    if str_eq a.name global_catalog
    then type_active_directory
    else if str_eq a.name object_class
    then type_openldap
    else type_by_names rest

message_type-by_names :
    (as' : List RawAttribute) → or_unknown (message_type as' type_uninitialized) ≡ type_by_names as'
message_type-by_names [] = refl
message_type-by_names (a ∷ rest) = elim (Bool-cases (str_eq a.name global_catalog)) [
  | inl e ↦ rw e refl
  | inr e ↦ elim (Bool-cases (str_eq a.name object_class)) [
    | inl f ↦ rw (e, f) refl
    | inr f ↦ rw (e, f) (message_type-by_names rest)
  ]
]

-- A reply of one entry, on a connection that does not know its directory: the function succeeds and
-- changes the type alone, to Active Directory or OpenLDAP after the first attribute that is called
-- `isGlobalCatalogReady` or `objectClass`, and to unknown if there is none.
pub parse_result-one_entry :
    (callbacks : Callbacks) (rc : ResultType) (message : LdapMessage) (e : RawEntry)
    (c : Connection)
    → (rc ≡ res_search_entry) ⊎ (rc ≡ res_search_result)
    → message.entries ≡ e ∷ []
    → c.directory_type ≡ type_uninitialized
    → directory_parse_result callbacks rc message c
      ≡ done rc_success (record c { directory_type = type_by_names e.attributes })
unfolding directory_parse_result
parse_result-one_entry callbacks rc message e c (inl h) one new =
    rw (h, one, new, message_type-by_names e.attributes) refl
parse_result-one_entry callbacks rc message e c (inr h) one new =
    rw (h, one, new, message_type-by_names e.attributes) refl

or_unknown-known : (t : DirectoryType) → or_unknown t ≢ type_uninitialized
or_unknown-known type_uninitialized h = cc
or_unknown-known type_unknown h = cc
or_unknown-known type_active_directory h = cc
or_unknown-known type_openldap h = cc
or_unknown-known type_free_ipa h = cc

-- A search result of any number of entries: the function succeeds, changes the type of the directory
-- alone, and leaves it initialized, so that the question is not asked again.
pub parse_result-known :
    (callbacks : Callbacks) (rc : ResultType) (message : LdapMessage) (c : Connection)
    → (rc ≡ res_search_entry) ⊎ (rc ≡ res_search_result)
    → (t : DirectoryType) × (directory_parse_result callbacks rc message c
        ≡ done rc_success (record c { directory_type = t }))
      × (t ≢ type_uninitialized)
unfolding directory_parse_result
parse_result-known callbacks rc message c (inl h) =
    let t = or_unknown (directory_type_of message.entries c.directory_type) in
    (t, rw h refl, or_unknown-known (directory_type_of message.entries c.directory_type))
parse_result-known callbacks rc message c (inr h) =
    let t = or_unknown (directory_type_of message.entries c.directory_type) in
    (t, rw h refl, or_unknown-known (directory_type_of message.entries c.directory_type))
