-- ===== src/Accounts/Lockout.antt =====
-- src/user.c: blocking and unblocking a user, by an attribute that depends on the type of the directory.
pub mod Sends
pub mod Unterminated
use libdomain.Prelude.{
  ℕ, ◌+◌, ◌==◌, Bool, true, false, Option, none, some, List, [], ◌∷◌, if◌then◌else◌, length, Ptr,
  null, CString, codes,
}
use libdomain.Ldap.{ModOp, mod_delete, mod_replace, RawAttribute, call_talloc_free}
use libdomain.Connection.{
  Connection, ReturnCode, rc_failure, DirectoryType, type_active_directory, type_openldap, M, pure,
  get, faulty, perform, ◌>>=◌, ◌>>◌,
}
use libdomain.Entry.Table.{allocate}
use libdomain.Domain.{check_handle, check_string, new_context, ld_mod_entry_attrs}
use libdomain.Accounts.{cn, release, in_user_parent}

-- An array of one attribute. What follows it is NULL, or was never written.
pub record Lockout : Type 0 where
  pub attribute : RawAttribute
  pub terminated : Bool

-- `values[0]` and `values[1]` stay NULL without a value.
abbrev pub values_of : Option CString → List CString
values_of none = []
values_of (some value) = value ∷ []

-- The array; then the attribute, its name, the array of values and the value. The label frees the array
-- if there is one.
abbrev pub create_lockout : Lockout → M (Option Lockout)
create_lockout lockout = do
  made ← allocate 1
  if made
      then (do
        ok ← allocate (3 + length lockout.attribute.values)
        if ok then pure (some lockout) else (do perform call_talloc_free; pure none))
      else pure none

-- `attrs[1] = NULL;`
abbrev pub lockout_openldap : Option CString → Lockout
lockout_openldap value = record {
  attribute = record { name = codes "pwdAccountLockedTime"; values = values_of value };
  terminated = true;
}

-- Nothing is written to `attrs[1]`.
abbrev pub lockout_ad : Option CString → Lockout
lockout_ad value = record {
  attribute = record { name = codes "userAccountControl"; values = values_of value };
  terminated = false;
}

unfoldable pub create_lockout_time_attributes_openldap : Option CString → M (Option Lockout)
create_lockout_time_attributes_openldap value = create_lockout (lockout_openldap value)

unfoldable pub create_lockout_time_attributes_ad : Option CString → M (Option Lockout)
create_lockout_time_attributes_ad value = create_lockout (lockout_ad value)

-- `ld_mod_entry_attrs` on such an array. `fill_attributes` reads it as far as NULL, so without one it reads
-- an element that was never written.
abbrev pub mod_lockout :
    Ptr → (name : Option CString) → (dn : CString) → Lockout → ModOp → M ReturnCode
mod_lockout handle name dn lockout op =
    if lockout.terminated
    then ld_mod_entry_attrs handle name (some dn) cn (lockout.attribute ∷ []) op
    else check_handle handle
        (check_string name λ entry_name. check_string (some dn) λ entry_parent. new_context faulty)

-- From the switch on.
abbrev pub with_lockout :
    Ptr → CString → (name parent : Option CString) → M (Option Lockout) → ModOp → M ReturnCode
with_lockout handle base_dn name parent create op = do
  attrs ← create
  elim attrs [
    | none ↦ release rc_failure
    | some lockout ↦
        in_user_parent handle base_dn parent (release rc_failure)
          λ dn. mod_lockout handle name dn lockout op >>= release
  ]

-- The switch of `ld_block_user` and what follows it, by the type of the directory.
abbrev pub block_in : DirectoryType → Ptr → CString → (name parent : Option CString) → M ReturnCode
block_in type_openldap handle base_dn name parent =
    with_lockout handle base_dn name parent
      (create_lockout_time_attributes_openldap (some (codes "000001010000Z"))) mod_replace
block_in type_active_directory handle base_dn name parent =
    with_lockout handle base_dn name parent (create_lockout_time_attributes_ad (some (codes "514")))
      mod_replace
block_in _ handle base_dn name parent = release rc_failure

-- That of `ld_unblock_user`.
abbrev pub unblock_in :
    DirectoryType → Ptr → CString → (name parent : Option CString) → M ReturnCode
unblock_in type_openldap handle base_dn name parent =
    with_lockout handle base_dn name parent (create_lockout_time_attributes_openldap none)
      mod_delete
unblock_in type_active_directory handle base_dn name parent =
    with_lockout handle base_dn name parent (create_lockout_time_attributes_ad (some (codes "512")))
      mod_replace
unblock_in _ handle base_dn name parent = release rc_failure

-- The handle is read without a check.
unfoldable pub ld_block_user : Ptr → CString → (name parent : Option CString) → M ReturnCode
ld_block_user handle base_dn name parent = new_context (
    if handle == null
    then faulty
    else do c ← get; block_in c.directory_type handle base_dn name parent)

unfoldable pub ld_unblock_user : Ptr → CString → (name parent : Option CString) → M ReturnCode
ld_unblock_user handle base_dn name parent = new_context (
    if handle == null
    then faulty
    else do c ← get; unblock_in c.directory_type handle base_dn name parent)
