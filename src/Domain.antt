-- ===== src/Domain.antt =====
-- src/domain.c: the operations on entries that a user of the library calls. A handle is an address, and a
-- string may be NULL.
pub mod Requests
pub mod Config
pub mod Session
pub mod Rules
pub mod Operations
pub mod Refusals
pub mod Successes
mod Tests
use libdomain.Prelude.{
  ℕ, suc, ◌+◌, ◌==◌, Bool, true, false, Option, none, some, List, [], ◌∷◌, ◌++◌, if◌then◌else◌,
  length, is_nil, Ptr, null, CString, codes,
}
use libdomain.Ldap.{
  LdapMod, ModOp, mod_add, mod_replace, RawAttribute, call_talloc_free, is_success,
}
use libdomain.Connection.{
  Connection, ReturnCode, rc_success, rc_failure, M, pure, get, put, perform, ◌>>=◌, ◌>>◌,
}
use libdomain.Entry.{add, modify, ld_delete, ld_rename}
use libdomain.Entry.Table.{allocate}

-- The macros `check_handle` and `check_string`.
abbrev pub check_handle : Ptr → M ReturnCode → M ReturnCode
check_handle handle rest = if handle == null then pure rc_failure else rest

abbrev pub check_string : Option CString → (CString → M ReturnCode) → M ReturnCode
check_string none rest = pure rc_failure
check_string (some text) rest = if is_nil text then pure rc_failure else rest text

-- `ld_talloc_free (talloc_ctx, error_exit); return rc;`
abbrev pub free_and_return : ReturnCode → M ReturnCode
free_and_return rc = do
  freed ← perform call_talloc_free
  if is_success freed.code then pure rc else pure rc_failure

-- The label `error_exit` with a context to free.
abbrev pub error_exit : M ReturnCode
error_exit = perform call_talloc_free >> pure rc_failure

-- `ld_talloc_new`, with nothing to free if it fails.
abbrev pub new_context : M ReturnCode → M ReturnCode
new_context rest = do ok ← allocate 1; if ok then rest else pure rc_failure

-- One `ld_talloc_asprintf`.
abbrev pub print : M ReturnCode → M ReturnCode
print rest = do ok ← allocate 1; if ok then rest else error_exit

-- `"%s=%s,%s"`, `"%s=%s"` and `"%s,%s"`
abbrev pub entry_dn : (prefix name parent : CString) → CString
entry_dn prefix name parent = prefix ++ codes "=" ++ name ++ codes "," ++ parent

abbrev pub relative_dn : (prefix name : CString) → CString
relative_dn prefix name = prefix ++ codes "=" ++ name

abbrev pub child_dn : (name parent : CString) → CString
child_dn name parent = name ++ codes "," ++ parent

-- The second loop of `fill_attributes`: for each attribute a struct, its type, an array and the values
-- are allocated.
abbrev pub fill : ModOp → List RawAttribute → List LdapMod → M (Option (List LdapMod))
fill op [] mods = pure (some mods)
fill op (a ∷ rest) mods = do
  ok ← allocate (3 + length a.values)
  if ok
      then fill op rest
          (mods ++ record { mod_op = op; mod_type = a.name; mod_values = a.values } ∷ [])
      else (do perform call_talloc_free; pure none)

unfoldable pub fill_attributes : List RawAttribute → ModOp → M (Option (List LdapMod))
fill_attributes entry_attrs op = do
  ok ← allocate 1
  if ok then fill op entry_attrs [] else pure none

-- NULL in place of the array, which the functions do not look for, is no attribute at all to libldap.
abbrev pub or_null : Option (List LdapMod) → List LdapMod
or_null none = []
or_null (some mods) = mods

unfoldable pub ld_add_entry :
    Ptr → (name parent : Option CString) → (prefix : CString) → List RawAttribute → M ReturnCode
ld_add_entry handle name parent prefix entry_attrs = check_handle handle (
    check_string name λ entry_name. check_string parent λ entry_parent. new_context (
      print (do
        attrs ← fill_attributes entry_attrs mod_add
        rc ← add (entry_dn prefix entry_name entry_parent) (or_null attrs)
        free_and_return rc)))

unfoldable pub ld_del_entry :
    Ptr → (name parent : Option CString) → (prefix : CString) → M ReturnCode
ld_del_entry handle name parent prefix = check_handle handle (
    check_string name λ entry_name. check_string parent λ entry_parent.
      new_context
        (print (do rc ← ld_delete (entry_dn prefix entry_name entry_parent); free_and_return rc)))

unfoldable pub ld_mod_entry :
    Ptr → (name parent : Option CString) → (prefix : CString) → List RawAttribute → M ReturnCode
ld_mod_entry handle name parent prefix entry_attrs = check_handle handle (
    check_string name λ entry_name. check_string parent λ entry_parent. new_context (do
      attrs ← fill_attributes entry_attrs mod_replace
      print (do
        rc ← modify (entry_dn prefix entry_name entry_parent) (or_null attrs)
        free_and_return rc)))

unfoldable pub ld_rename_entry :
    Ptr → (old_name new_name parent : Option CString) → (prefix : CString) → M ReturnCode
ld_rename_entry handle old_name new_name parent prefix = check_handle handle (
    check_string old_name λ entry_old_name. check_string new_name λ entry_new_name.
      check_string parent λ entry_parent. new_context (
        print (
          print (do
            rc ←
                ld_rename (entry_dn prefix entry_old_name entry_parent)
                  (relative_dn prefix entry_new_name) entry_parent true
            free_and_return rc))))

unfoldable pub ld_mod_entry_attrs :
    Ptr
    → (name parent : Option CString) → (prefix : CString) → List RawAttribute
    → ModOp
    → M ReturnCode
ld_mod_entry_attrs handle name parent prefix entry_attrs opcode = check_handle handle (
    check_string name λ entry_name. check_string parent λ entry_parent. new_context (do
      attrs ← fill_attributes entry_attrs opcode
      print (do
        rc ←
            modify
              (if is_nil prefix
                then child_dn entry_name entry_parent
                else entry_dn prefix entry_name entry_parent)
              (or_null attrs)
        free_and_return rc)))

-- A callback is a number, and NULL is `none`.
unfoldable pub ld_install_error_handler : Ptr → Option ℕ → M (Unit {0})
ld_install_error_handler handle none = pure tt
ld_install_error_handler handle (some callback) =
    if handle == null
    then pure tt
    else do c ← get; put (record c { on_error_operation = some callback })
