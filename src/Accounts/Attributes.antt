-- ===== src/Accounts/Attributes.antt =====
-- src/attribute.c: adding values to an entry of the base, and taking them away.
use libdomain.Prelude.{
  ◌==◌, ◌≡◌, ◌≢◌, refl, true, false, Bool, Option, some, List, [], if◌then◌else◌, Ptr, null,
  CString, arith,
}
use libdomain.Ldap.{ModOp, mod_add, mod_delete, RawAttribute}
use libdomain.Connection.{Connection, ReturnCode, M}
use libdomain.Connection.Ends.{Ends}
use libdomain.Entry.Enqueue.{sending_modify}
use libdomain.Domain.{child_dn}
use libdomain.Domain.Requests.{changing, given, operate, mods_of}
use libdomain.Domain.Rules.{Does}
use libdomain.Domain.Operations.{operate-Acts}
use libdomain.Accounts.{ld_add_attributes, ld_del_attributes}

-- The function of the code, by what it does with the values.
unfoldable pub change_attributes :
    (adds : Bool) → Ptr → CString → (name : Option CString) → List RawAttribute → M ReturnCode
change_attributes adds h base name attrs =
    if adds then ld_add_attributes h base name attrs else ld_del_attributes h base name attrs

abbrev pub op_of : Bool → ModOp
op_of adds = if adds then mod_add else mod_delete

-- Adding or deleting attributes, with a handle, unless it lacks defined behaviour: it fails and sends no
-- change, or it sends one modification, of the entry whose name is the given one below the base, which
-- adds or deletes the values of the attributes, or changes none, only if the libraries
-- refuse an allocation.
pub change_attributes-Does :
    (adds : Bool) (h : Ptr) (base : CString) (name : Option CString) (attrs : List RawAttribute)
    (c : Connection)
    → h ≢ null
    → Ends
        (Does c (mods_of (op_of adds) attrs) (λ mods.
          given name λ n. given (some base) λ p. some (sending_modify (child_dn n p) mods)))
        (change_attributes adds h base name attrs c)
unfolding change_attributes ld_add_attributes ld_del_attributes operate
change_attributes-Does true h base name attrs c ne =
    let real : (h == null) ≡ false = ground (arith, ne) in
    rw real (operate-Acts c h (changing name (some base) [] attrs mod_add) c (refl, refl))
change_attributes-Does false h base name attrs c ne =
    let real : (h == null) ≡ false = ground (arith, ne) in
    rw real (operate-Acts c h (changing name (some base) [] attrs mod_delete) c (refl, refl))
