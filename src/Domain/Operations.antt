-- ===== src/Domain/Operations.antt =====
-- What the operations on entries of src/domain.c send.
use libdomain.Prelude.{refl, inl, true, Option, some, List, [], if◌then◌else◌, is_nil, Ptr}
use libdomain.Ldap.{LdapMod, mod_add, mod_replace}
use libdomain.Connection.{Connection}
use libdomain.Connection.Ends.{Ends}
use libdomain.Entry.Enqueue.{
  Sending, sending_add, sending_modify, sending_delete, sending_rename, send,
}
use libdomain.Domain.{
  entry_dn, relative_dn, child_dn, or_null, ld_add_entry, ld_del_entry, ld_mod_entry,
  ld_rename_entry, ld_mod_entry_attrs,
}
use libdomain.Domain.Requests.{
  Operation, asked, mods_of, operate, wanted, adding, modifying, deleting, renaming, changing,
}
use libdomain.Domain.Rules.{
  Acts, Does, context-Acts, fill-Acts, handle-Acts, print-Acts, send-Does, string-Acts,
}

module _ (c₀ : Connection) where
  pub operate-Acts :
      (handle : Ptr) (o : Operation) → Acts c₀ (wanted o) (asked o) (operate handle o)
  unfolding operate ld_add_entry ld_del_entry ld_mod_entry ld_rename_entry ld_mod_entry_attrs send
  operate-Acts handle (adding name parent prefix attrs) =
      let w = mods_of mod_add attrs in
      handle-Acts c₀ w _ handle _ (
        string-Acts c₀ w name _ _ λ n. string-Acts c₀ w parent _ _ λ p.
          let r : List LdapMod → Option Sending =
            λ mods. some (sending_add (entry_dn prefix n p) mods) in
          context-Acts c₀ w r _ (
            print-Acts c₀ w r _ (
              fill-Acts c₀ attrs mod_add r _ (λ o offered.
                send-Does c₀ w (or_null o) r (sending_add (entry_dn prefix n p) (or_null o)) offered
                  refl refl))))
  operate-Acts handle (modifying name parent prefix attrs) =
      let w = mods_of mod_replace attrs in
      handle-Acts c₀ w _ handle _ (
        string-Acts c₀ w name _ _ λ n. string-Acts c₀ w parent _ _ λ p.
          let r : List LdapMod → Option Sending =
            λ mods. some (sending_modify (entry_dn prefix n p) mods) in
          context-Acts c₀ w r _ (
            fill-Acts c₀ attrs mod_replace r _ (λ o offered. print-Acts c₀ w r _ (
              send-Does c₀ w (or_null o) r (sending_modify (entry_dn prefix n p) (or_null o))
                offered refl refl))))
  operate-Acts handle (deleting name parent prefix) = handle-Acts c₀ [] _ handle _ (
      string-Acts c₀ [] name _ _ λ n. string-Acts c₀ [] parent _ _ λ p.
        let r : List LdapMod → Option Sending =
          λ mods. some (sending_delete (entry_dn prefix n p)) in
        context-Acts c₀ [] r _ (
          print-Acts c₀ [] r _
            (send-Does c₀ [] [] r (sending_delete (entry_dn prefix n p)) (inl refl) refl refl)))
  operate-Acts handle (renaming old new parent prefix) = handle-Acts c₀ [] _ handle _ (
      string-Acts c₀ [] old _ _ λ m. string-Acts c₀ [] new _ _ λ n.
        string-Acts c₀ [] parent _ _ λ p.
          let s = sending_rename (entry_dn prefix m p) (relative_dn prefix n) p true in
          let r : List LdapMod → Option Sending = λ mods. some s in
          context-Acts c₀ [] r _ (
            print-Acts c₀ [] r _
              (print-Acts c₀ [] r _ (send-Does c₀ [] [] r s (inl refl) refl refl))))
  operate-Acts handle (changing name parent prefix attrs op) =
      let w = mods_of op attrs in
      handle-Acts c₀ w _ handle _ (
        string-Acts c₀ w name _ _ λ n. string-Acts c₀ w parent _ _ λ p.
          let dn = if is_nil prefix then child_dn n p else entry_dn prefix n p in
          let r : List LdapMod → Option Sending = λ mods. some (sending_modify dn mods) in
          context-Acts c₀ w r _ (
            fill-Acts c₀ attrs op r _ (λ o offered.
              print-Acts c₀ w r _
                (send-Does c₀ w (or_null o) r (sending_modify dn (or_null o)) offered refl refl))))

-- Every operation on an entry, however the libraries answer and unless it has no defined behaviour:
-- it fails and sends no change to the directory, or it sends one, which is what its arguments ask for,
-- with the modifications that the attributes mean or, only if the libraries refuse an allocation, with none.
pub operate-Does :
    (handle : Ptr) (o : Operation) (c : Connection)
    → Ends (Does c (wanted o) (asked o)) (operate handle o c)
operate-Does handle o c = operate-Acts c handle o c (refl, refl)
