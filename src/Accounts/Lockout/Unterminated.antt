-- ===== src/Accounts/Lockout/Unterminated.antt =====
-- Blocking and unblocking a user of Active Directory, in src/user.c: the array of the attribute has no NULL
-- at its end.
use libdomain.Prelude.{
  ◌==◌, ◌≡◌, inl, inr, Bool, true, false, Option, none, some, List, is_nil, Ptr, null, CString,
  Bool-cases,
}
use libdomain.Ldap.{Call}
use libdomain.Connection.{Connection, fault, type_active_directory}
use libdomain.Accounts.Lockout.{create_lockout_time_attributes_ad, ld_block_user, ld_unblock_user}
use libdomain.Accounts.Lockout.Sends.{lock}

-- There is always memory.
abbrev pub Ample : Connection → Type 0
Ample c = (past : List Call) → ((c.world past).ptr == null) ≡ false

-- A string that is missing or is not empty.
abbrev pub Sound : Option CString → Type 0
Sound none = Unit
Sound (some text) = is_nil text ≡ false

-- Blocking or unblocking a user in Active Directory, when there is memory for every allocation, has no
-- defined behaviour, whatever the handle, provided that the name is given and the parent is NULL or not
-- empty: the array of attributes is read beyond what was written.
pub active_directory-undefined :
    (blocks : Bool) (h : Ptr) (base name : CString) (parent : Option CString) (c : Connection)
    → Ample c
    → c.directory_type ≡ type_active_directory
    → is_nil name ≡ false
    → Sound parent
    → lock blocks h base (some name) parent c ≡ fault
unfolding lock ld_block_user ld_unblock_user create_lockout_time_attributes_ad
active_directory-undefined true h base name none c ample ad given ok =
    elim (Bool-cases (h == null)) [
      | inl e ↦ simp (ample, ad, e)
      | inr e ↦ simp (ample, ad, given, e)
    ]
active_directory-undefined true h base name (some p) c ample ad given ok =
    elim (Bool-cases (h == null)) [
      | inl e ↦ simp (ample, ad, e)
      | inr e ↦ simp (ample, ad, given, ok, e)
    ]
active_directory-undefined false h base name none c ample ad given ok =
    elim (Bool-cases (h == null)) [
      | inl e ↦ simp (ample, ad, e)
      | inr e ↦ simp (ample, ad, given, e)
    ]
active_directory-undefined false h base name (some p) c ample ad given ok =
    elim (Bool-cases (h == null)) [
      | inl e ↦ simp (ample, ad, e)
      | inr e ↦ simp (ample, ad, given, ok, e)
    ]
