-- ===== src/Accounts.antt =====
-- src/user.c, src/group.c, src/computer.c, src/organizational_unit.c, src/attribute.c: the operations on entries of src/domain.c
-- for users, groups, computers, organizational units and attributes. `base_dn` is the base of the handle's global
-- configuration.
pub mod Parents
pub mod Members
pub mod Attributes
pub mod Lockout
mod Tests
use libdomain.Prelude.{
  ℕ, ◌==◌, Bool, true, false, Option, none, some, List, [], ◌∷◌, if◌then◌else◌, is_nil, Ptr, null,
  CString, codes,
}
use libdomain.Ldap.{LdapMod, ModOp, mod_add, mod_delete, RawAttribute, call_talloc_free}
use libdomain.Connection.{
  Connection, ReturnCode, rc_failure, DirectoryType, type_active_directory, type_openldap, M, pure,
  get, faulty, perform, ◌>>=◌, ◌>>◌,
}
use libdomain.Entry.{modify}
use libdomain.Entry.Table.{allocate}
use libdomain.Domain.{
  check_handle, check_string, child_dn, new_context, error_exit, free_and_return, ld_add_entry,
  ld_del_entry, ld_mod_entry, ld_rename_entry, ld_mod_entry_attrs,
}

abbrev pub cn : CString
cn = codes "cn"

abbrev pub ou : CString
ou = codes "ou"

-- `parent && strlen (parent) > 0`
abbrev pub filled : Option CString → Option CString
filled none = none
filled (some text) = if is_nil text then none else some text

-- The container of the users, by the type of the directory.
abbrev pub users_of : DirectoryType → CString
users_of type_active_directory = codes "cn=users"
users_of _ = codes "ou=users"

-- `talloc_free (talloc_ctx); return rc;`, which does not look whether it could be freed.
abbrev pub release : ReturnCode → M ReturnCode
release rc = perform call_talloc_free >> pure rc

-- The parent that was given, or `create_user_parent`, which reads the handle without a check; `failed`
-- stands at the label `error_exit`.
abbrev pub in_user_parent :
    Ptr
    → CString
    → Option CString
    → (failed : M ReturnCode) → (CString → M ReturnCode)
    → M ReturnCode
in_user_parent handle base_dn (some parent) failed rest = rest parent
in_user_parent handle base_dn none failed rest = if handle == null then faulty else do
  c ← get
  ok ← allocate 1
  if ok then rest (child_dn (users_of c.directory_type) base_dn) else failed

unfoldable pub ld_add_user :
    Ptr
    → CString
    → (name : Option CString) → List RawAttribute
    → (parent : Option CString) → M ReturnCode
ld_add_user handle base_dn name attrs parent = new_context (
    in_user_parent handle base_dn (filled parent) (release rc_failure)
      λ dn. ld_add_entry handle name (some dn) cn attrs >>= release)

-- Without a parent, the context is not freed.
unfoldable pub ld_del_user : Ptr → CString → (name parent : Option CString) → M ReturnCode
ld_del_user handle base_dn name parent = new_context (
    in_user_parent handle base_dn parent (pure rc_failure)
      λ dn. ld_del_entry handle name (some dn) cn >>= release)

unfoldable pub ld_mod_user :
    Ptr → CString → (name parent : Option CString) → List RawAttribute → M ReturnCode
ld_mod_user handle base_dn name parent attrs = new_context (
    in_user_parent handle base_dn parent (release rc_failure)
      λ dn. ld_mod_entry handle name (some dn) cn attrs >>= release)

unfoldable pub ld_rename_user :
    Ptr → CString → (old_name new_name parent : Option CString) → M ReturnCode
ld_rename_user handle base_dn old_name new_name parent = new_context (
    in_user_parent handle base_dn parent (release rc_failure)
      λ dn. ld_rename_entry handle old_name new_name (some dn) cn >>= release)

-- `parent ? parent : handle ? handle->global_config->base_dn : NULL`
abbrev pub or_base : Ptr → CString → Option CString → Option CString
or_base handle base_dn (some parent) = some parent
or_base handle base_dn none = if handle == null then none else some base_dn

unfoldable pub ld_add_group :
    Ptr
    → CString
    → (name : Option CString) → List RawAttribute
    → (parent : Option CString) → M ReturnCode
ld_add_group handle base_dn name attrs parent =
    ld_add_entry handle name (or_base handle base_dn (filled parent)) cn attrs

unfoldable pub ld_del_group : Ptr → CString → (name parent : Option CString) → M ReturnCode
ld_del_group handle base_dn name parent =
    ld_del_entry handle name (or_base handle base_dn parent) cn

unfoldable pub ld_mod_group :
    Ptr → CString → (name parent : Option CString) → List RawAttribute → M ReturnCode
ld_mod_group handle base_dn name parent attrs =
    ld_mod_entry handle name (or_base handle base_dn parent) cn attrs

unfoldable pub ld_rename_group :
    Ptr → CString → (old_name new_name parent : Option CString) → M ReturnCode
ld_rename_group handle base_dn old_name new_name parent =
    ld_rename_entry handle old_name new_name (or_base handle base_dn parent) cn

unfoldable pub ld_add_ou :
    Ptr
    → CString
    → (name : Option CString) → List RawAttribute
    → (parent : Option CString) → M ReturnCode
ld_add_ou handle base_dn name attrs parent =
    ld_add_entry handle name (or_base handle base_dn (filled parent)) ou attrs

unfoldable pub ld_del_ou : Ptr → CString → (name parent : Option CString) → M ReturnCode
ld_del_ou handle base_dn name parent = ld_del_entry handle name (or_base handle base_dn parent) ou

unfoldable pub ld_mod_ou :
    Ptr → CString → (name parent : Option CString) → List RawAttribute → M ReturnCode
ld_mod_ou handle base_dn name parent attrs =
    ld_mod_entry handle name (or_base handle base_dn parent) ou attrs

unfoldable pub ld_rename_ou :
    Ptr → CString → (old_name new_name parent : Option CString) → M ReturnCode
ld_rename_ou handle base_dn old_name new_name parent =
    ld_rename_entry handle old_name new_name (or_base handle base_dn parent) ou

unfoldable pub ld_add_computer :
    Ptr
    → CString
    → (name : Option CString) → List RawAttribute
    → (parent : Option CString) → M ReturnCode
ld_add_computer handle base_dn name attrs parent =
    ld_add_entry handle name (or_base handle base_dn (filled parent)) cn attrs

-- `create_computer_parent`, whose result may be NULL.
abbrev pub computer_parent : Ptr → CString → Option CString → M (Option CString)
computer_parent handle base_dn (some parent) = pure (some parent)
computer_parent handle base_dn none = do
  ok ← allocate 1
  pure (
      if ok
      then some (child_dn (codes "ou=equipment") (if handle == null then [] else base_dn))
      else none)

unfoldable pub ld_del_computer : Ptr → CString → (name parent : Option CString) → M ReturnCode
ld_del_computer handle base_dn name parent = new_context (do
  dn ← computer_parent handle base_dn parent
  rc ← ld_del_entry handle name dn cn
  free_and_return rc)

unfoldable pub ld_mod_computer :
    Ptr → CString → (name parent : Option CString) → List RawAttribute → M ReturnCode
ld_mod_computer handle base_dn name parent attrs = new_context (do
  dn ← computer_parent handle base_dn parent
  rc ← ld_mod_entry handle name dn cn attrs
  free_and_return rc)

unfoldable pub ld_rename_computer :
    Ptr → CString → (old_name new_name parent : Option CString) → M ReturnCode
ld_rename_computer handle base_dn old_name new_name parent = new_context (do
  dn ← computer_parent handle base_dn parent
  rc ← ld_rename_entry handle old_name new_name dn cn
  free_and_return rc)

-- The attribute that lists the members of a group.
abbrev pub member_of : DirectoryType → Option CString
member_of type_openldap = some (codes "memberuid")
member_of type_active_directory = some (codes "member")
member_of _ = none

-- What `group_member_modify` does once the attribute is known. Six pieces of memory are allocated: the
-- context, the array, the modification, its type, the array of its values and the value.
abbrev pub modify_members :
    (members : Option CString) → (group_dn user_dn : Option CString) → ModOp → M ReturnCode
modify_members none group_dn user_dn mod_operation = pure rc_failure
modify_members (some member) group_dn user_dn mod_operation = check_string group_dn λ this_group_dn.
    check_string user_dn λ this_user_dn. new_context (do
      ok ← allocate 5
      if ok
          then (do
            rc ← modify this_group_dn (
                record { mod_op = mod_operation; mod_type = member; mod_values = this_user_dn ∷ [] }
                ∷ [])
            free_and_return rc)
          else error_exit)

-- The type is read through the handle before the handle is checked.
unfoldable pub group_member_modify :
    Ptr → (group_dn user_dn : Option CString) → ModOp → M ReturnCode
group_member_modify handle group_dn user_dn mod_operation =
    if handle == null
    then faulty
    else do c ← get; modify_members (member_of c.directory_type) group_dn user_dn mod_operation

unfoldable pub ld_group_add_user : Ptr → (group_name user_name : Option CString) → M ReturnCode
ld_group_add_user handle group_name user_name =
    group_member_modify handle group_name user_name mod_add

unfoldable pub ld_group_remove_user : Ptr → (group_name user_name : Option CString) → M ReturnCode
ld_group_remove_user handle group_name user_name =
    group_member_modify handle group_name user_name mod_delete

-- src/attribute.c: the entry `name` of the base, with no prefix.
abbrev attribute_parent : Ptr → CString → Option CString
attribute_parent handle base_dn = some (if handle == null then [] else base_dn)

unfoldable pub ld_add_attributes :
    Ptr → CString → (name : Option CString) → List RawAttribute → M ReturnCode
ld_add_attributes handle base_dn name attrs =
    ld_mod_entry_attrs handle name (attribute_parent handle base_dn) [] attrs mod_add

unfoldable pub ld_del_attributes :
    Ptr → CString → (name : Option CString) → List RawAttribute → M ReturnCode
ld_del_attributes handle base_dn name attrs =
    ld_mod_entry_attrs handle name (attribute_parent handle base_dn) [] attrs mod_delete
