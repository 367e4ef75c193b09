-- ===== src/Domain/Requests.antt =====
-- The operations of src/domain.c on entries as data, and the requests that they ask for.
use libdomain.Prelude.{
  Bool, true, false, Option, none, some, List, [], ◌∷◌, map, if◌then◌else◌, is_nil, Ptr, CString,
}
use libdomain.Ldap.{
  LdapMod, ModOp, mod_add, mod_replace, RawAttribute, Call, call_add, call_modify, call_delete,
  call_rename,
}
use libdomain.Connection.{ReturnCode, M}
use libdomain.Entry.Enqueue.{Sending, sending_add, sending_modify, sending_delete, sending_rename}
use libdomain.Domain.{
  entry_dn, relative_dn, child_dn, ld_add_entry, ld_del_entry, ld_mod_entry, ld_rename_entry,
  ld_mod_entry_attrs,
}

-- A call of one of the operations.
pub data Operation : Type 0 where
  adding modifying : (name parent : Option CString) → CString → List RawAttribute → Operation
  deleting : (name parent : Option CString) → CString → Operation
  renaming : (old_name new_name parent : Option CString) → CString → Operation
  changing : (name parent : Option CString) → CString → List RawAttribute → ModOp → Operation

-- The function of the code.
unfoldable pub operate : Ptr → Operation → M ReturnCode
operate handle (adding name parent prefix attrs) = ld_add_entry handle name parent prefix attrs
operate handle (modifying name parent prefix attrs) = ld_mod_entry handle name parent prefix attrs
operate handle (deleting name parent prefix) = ld_del_entry handle name parent prefix
operate handle (renaming old new parent prefix) = ld_rename_entry handle old new parent prefix
operate handle (changing name parent prefix attrs op) =
    ld_mod_entry_attrs handle name parent prefix attrs op

-- The modifications that the attributes mean.
abbrev pub mods_of : ModOp → List RawAttribute → List LdapMod
mods_of op attrs = map (λ a. record { mod_op = op; mod_type = a.name; mod_values = a.values }) attrs

-- With a string that is neither NULL nor empty.
abbrev pub given : Option CString → (CString → Option Sending) → Option Sending
given none k = none
given (some text) k = if is_nil text then none else k text

-- The request that an operation is to send, with the modifications `mods`; none if a string is missing.
abbrev pub asked : Operation → List LdapMod → Option Sending
asked (adding name parent prefix attrs) mods =
    given name λ n. given parent λ p. some (sending_add (entry_dn prefix n p) mods)
asked (modifying name parent prefix attrs) mods =
    given name λ n. given parent λ p. some (sending_modify (entry_dn prefix n p) mods)
asked (deleting name parent prefix) mods =
    given name λ n. given parent λ p. some (sending_delete (entry_dn prefix n p))
asked (renaming old new parent prefix) mods = given old λ o.
    given new λ n.
      given parent λ p. some (sending_rename (entry_dn prefix o p) (relative_dn prefix n) p true)
asked (changing name parent prefix attrs op) mods = given name λ n.
    given parent
      λ p. some (sending_modify (if is_nil prefix then child_dn n p else entry_dn prefix n p) mods)

-- The modifications of an operation.
abbrev pub wanted : Operation → List LdapMod
wanted (adding name parent prefix attrs) = mods_of mod_add attrs
wanted (modifying name parent prefix attrs) = mods_of mod_replace attrs
wanted (deleting name parent prefix) = []
wanted (renaming old new parent prefix) = []
wanted (changing name parent prefix attrs op) = mods_of op attrs

-- A call that changes the directory, and those of a history.
abbrev pub is_change : Call → Bool
is_change (call_add dn mods) = true
is_change (call_modify dn mods) = true
is_change (call_delete dn) = true
is_change (call_rename old new parent del) = true
is_change _ = false

abbrev pub changes : List Call → List Call
changes [] = []
changes (k ∷ past) = if is_change k then k ∷ changes past else changes past
