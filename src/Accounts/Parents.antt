-- ===== src/Accounts/Parents.antt =====
-- Where the operations on users, groups, computers and organizational units look for their entries: the
-- operation on an entry that each of them amounts to.
use libdomain.Prelude.{
  ◌==◌, ◌≡◌, ◌≢◌, refl, sym, ◌∙◌, inl, inr, false, Option, none, some, List, [], ◌∷◌, is_nil, Ptr,
  null, CString, codes, Bool-cases, arith,
}
use libdomain.Ldap.{LdapMod, RawAttribute, call_talloc, call_talloc_free, is_success}
use libdomain.Connection.{Connection, ReturnCode, rc_failure, DirectoryType, M, log, pure, ◌>>=◌}
use libdomain.Connection.Ends.{Ends, Ends-bind, Ends-if, Ends-weaken}
use libdomain.Entry.Enqueue.{Sending}
use libdomain.Domain.{child_dn, new_context, free_and_return}
use libdomain.Domain.Requests.{
  Operation, given, adding, modifying, deleting, renaming, operate, wanted, asked,
}
use libdomain.Domain.Rules.{Does, Acts, context-Acts}
use libdomain.Domain.Operations.{operate-Acts}
use libdomain.Accounts.{
  cn, ou, filled, users_of, release, in_user_parent, or_base, computer_parent, ld_add_user,
  ld_del_user, ld_mod_user, ld_rename_user, ld_add_group, ld_del_group, ld_mod_group,
  ld_rename_group, ld_add_ou, ld_del_ou, ld_mod_ou, ld_rename_ou, ld_add_computer, ld_del_computer,
  ld_mod_computer, ld_rename_computer,
}

pub data Kind : Type 0 where
  user group unit computer : Kind

pub data Act : Type 0 where
  to_add to_modify : (name : Option CString) → List RawAttribute → Act
  to_delete : (name : Option CString) → Act
  to_rename : (old_name new_name : Option CString) → Act

-- The function of the code.
unfoldable pub account : Kind → Act → Ptr → CString → (parent : Option CString) → M ReturnCode
account user (to_add name attrs) h base parent = ld_add_user h base name attrs parent
account user (to_modify name attrs) h base parent = ld_mod_user h base name parent attrs
account user (to_delete name) h base parent = ld_del_user h base name parent
account user (to_rename old new) h base parent = ld_rename_user h base old new parent
account group (to_add name attrs) h base parent = ld_add_group h base name attrs parent
account group (to_modify name attrs) h base parent = ld_mod_group h base name parent attrs
account group (to_delete name) h base parent = ld_del_group h base name parent
account group (to_rename old new) h base parent = ld_rename_group h base old new parent
account unit (to_add name attrs) h base parent = ld_add_ou h base name attrs parent
account unit (to_modify name attrs) h base parent = ld_mod_ou h base name parent attrs
account unit (to_delete name) h base parent = ld_del_ou h base name parent
account unit (to_rename old new) h base parent = ld_rename_ou h base old new parent
account computer (to_add name attrs) h base parent = ld_add_computer h base name attrs parent
account computer (to_modify name attrs) h base parent = ld_mod_computer h base name parent attrs
account computer (to_delete name) h base parent = ld_del_computer h base name parent
account computer (to_rename old new) h base parent = ld_rename_computer h base old new parent

-- Where entries of a kind are added, and where they are looked for afterwards.
abbrev pub added_under : Kind → DirectoryType → CString → CString
added_under user t base = child_dn (users_of t) base
added_under _ t base = base

abbrev pub looked_up_under : Kind → DirectoryType → CString → CString
looked_up_under user t base = child_dn (users_of t) base
looked_up_under computer t base = child_dn (codes "ou=equipment") base
looked_up_under _ t base = base

abbrev pub or_home : CString → Option CString → Option CString
or_home home none = some home
or_home home (some parent) = some parent

abbrev pub prefix_of : Kind → CString
prefix_of unit = ou
prefix_of _ = cn

-- The operation on an entry, for a directory of type `t`.
abbrev pub target : Kind → Act → DirectoryType → CString → Option CString → Operation
target k (to_add name attrs) t base parent =
    adding name (or_home (added_under k t base) (filled parent)) (prefix_of k) attrs
target k (to_modify name attrs) t base parent =
    modifying name (or_home (looked_up_under k t base) parent) (prefix_of k) attrs
target k (to_delete name) t base parent =
    deleting name (or_home (looked_up_under k t base) parent) (prefix_of k)
target k (to_rename old new) t base parent =
    renaming old new (or_home (looked_up_under k t base) parent) (prefix_of k)

none-some : {A : Type 0} {x : A} → none ≢ some x
none-some h = cc

module _ (c₀ : Connection) where
  pub release-Acts :
      (w : List LdapMod) (r : List LdapMod → Option Sending) (m : M ReturnCode)
      → Acts c₀ w r m
      → Acts c₀ w r (m >>= release)
  release-Acts w r m h c q =
      Ends-bind (Does c₀ w r) (Does c₀ w r) (m c) release (h c q) (λ rc d v. v)

  free-Acts :
      (w : List LdapMod) (r : List LdapMod → Option Sending) (m : M ReturnCode)
      → Acts c₀ w r m
      → Acts c₀ w r (m >>= free_and_return)
  free-Acts w r m h c q =
      Ends-bind (Does c₀ w r) (Does c₀ w r) (m c) free_and_return (h c q) (λ rc d v.
        Ends-if (Does c₀ w r) (is_success (d.world (call_talloc_free ∷ d.trace)).code) (pure rc)
          (pure rc_failure) (log call_talloc_free d) (λ _. v)
          (λ _. elim v [ inl (e, same) ↦ inl (refl, same) | inr did ↦ inr did ]))

  -- The parent of a user, while the type of the directory is that of `c₀`.
  user-Acts :
      (w : List LdapMod) (r : Option CString → List LdapMod → Option Sending) (h : Ptr)
      (base : CString) (parent : Option CString) (failed : M ReturnCode)
      (rest : CString → M ReturnCode)
      → h ≢ null
      → Acts c₀ w (r (or_home (child_dn (users_of c₀.directory_type) base) parent)) failed
      → ((dn : CString) → Acts c₀ w (r (some dn)) (rest dn))
      → Ends
          (Does c₀ w (r (or_home (child_dn (users_of c₀.directory_type) base) parent)))
          (new_context (in_user_parent h base parent failed rest) c₀)
  user-Acts w r h base (some parent) failed rest ne hf hr =
      context-Acts c₀ w (r (some parent)) (rest parent) (hr parent) c₀ (refl, refl)
  user-Acts w r h base none failed rest ne hf hr =
      let real : (h == null) ≡ false = ground (arith, ne) in
      let c₁ = log call_talloc c₀ in
      let c₂ = log call_talloc c₁ in
      elim (Bool-cases ((c₀.world c₁.trace).ptr == null)) [
        | inl e ↦ rw e (inl (refl, (refl, refl)))
        | inr e ↦
            rw (e, real)
              (elim (Bool-cases ((c₀.world c₂.trace).ptr == null)) [
                | inl f ↦ rw f (hf c₂ (refl, refl))
                | inr f ↦ rw f (hr (child_dn (users_of c₀.directory_type) base) c₂ (refl, refl))
              ])
      ]

  -- The parent of a computer that is looked up, or NULL when there is no memory for it.
  computer-Acts :
      (w : List LdapMod) (r : Option CString → List LdapMod → Option Sending) (h : Ptr)
      (base : CString) (parent : Option CString) (rest : Option CString → M ReturnCode)
      → h ≢ null
      → ((dn : Option CString) → Acts c₀ w (r dn) (rest dn))
      → ((mods : List LdapMod) → r none mods ≡ none)
      → Acts c₀ w
          (r (or_home (child_dn (codes "ou=equipment") base) parent))
          (new_context (computer_parent h base parent >>= rest))
  computer-Acts w r h base (some parent) rest ne hr lacks =
      context-Acts c₀ w (r (some parent)) (rest (some parent)) (hr (some parent))
  computer-Acts w r h base none rest ne hr lacks =
      let home = some (child_dn (codes "ou=equipment") base) in
      let real : (h == null) ≡ false = ground (arith, ne) in
      context-Acts c₀ w (r home) (computer_parent h base none >>= rest) (λ c q.
        elim (Bool-cases ((c.world (call_talloc ∷ c.trace)).ptr == null)) [
          | inr e ↦ rw (e, real) (hr home _ q)
          | inl e ↦ rw e (fails home _ (hr none _ q))
        ])
    where
      -- Without a parent nothing is asked for, so nothing is sent.
      fails :
          (home : Option CString) (c : Connection)
          → Ends (Does c₀ w (r none)) (rest none c)
          → Ends (Does c₀ w (r home)) (rest none c)
      fails home c e =
          Ends-weaken (Does c₀ w (r none)) (Does c₀ w (r home)) (rest none c) e (λ rc d v. elim v [
            | inl kept ↦ inl kept
            | inr (mods, s, offered, is_asked, sent) ↦
                absurd (none-some (sym (lacks mods) ∙ is_asked))
          ])

pub given-none :
    (text : Option CString) (k : CString → Option Sending)
    → ((t : CString) → k t ≡ none)
    → given text k ≡ none
given-none none k h = refl
given-none (some t) k h = elim (Bool-cases (is_nil t)) [ inl e ↦ rw e refl | inr e ↦ rw e (h t) ]

or_base-eq :
    (h : Ptr) (base : CString) (parent : Option CString)
    → h ≢ null
    → or_base h base parent ≡ or_home base parent
or_base-eq h base none ne = let real : (h == null) ≡ false = ground (arith, ne) in rw real refl
or_base-eq h base (some parent) ne = refl

-- The operations on users, groups, computers and organizational units, with a handle and a parent that
-- may be NULL, unless they lack defined behaviour: each fails and sends no change, or sends one, that of
-- the operation on an entry below the parent, or below the container of its kind if there is none: that
-- of the users for users, the base for groups and organizational units and for a computer that is added,
-- and `ou=equipment` for a computer that is modified, deleted or renamed. The modifications are those that the
-- attributes mean or, only if the libraries refuse an allocation, none.
pub account-Does :
    (k : Kind) (act : Act) (h : Ptr) (base : CString) (parent : Option CString) (c : Connection)
    → h ≢ null
    → let o = target k act c.directory_type base parent in
      Ends (Does c (wanted o) (asked o)) (account k act h base parent c)
unfolding account operate ld_add_user ld_del_user ld_mod_user ld_rename_user ld_add_group
    ld_del_group ld_mod_group ld_rename_group ld_add_ou ld_del_ou ld_mod_ou ld_rename_ou
    ld_add_computer ld_del_computer ld_mod_computer ld_rename_computer
account-Does user (to_add name attrs) h base parent c ne =
    let op : Option CString → Operation = λ p. adding name p cn attrs in
    user-Acts c _ (λ p. asked (op p)) h base (filled parent) _ _ ne (λ d q. inl (refl, q))
      (λ dn. release-Acts c _ (asked (op (some dn))) _ (operate-Acts c h (op (some dn))))
account-Does user (to_modify name attrs) h base parent c ne =
    let op : Option CString → Operation = λ p. modifying name p cn attrs in
    user-Acts c _ (λ p. asked (op p)) h base parent _ _ ne (λ d q. inl (refl, q))
      (λ dn. release-Acts c _ (asked (op (some dn))) _ (operate-Acts c h (op (some dn))))
account-Does user (to_delete name) h base parent c ne =
    let op : Option CString → Operation = λ p. deleting name p cn in
    user-Acts c [] (λ p. asked (op p)) h base parent _ _ ne (λ d q. inl (refl, q))
      (λ dn. release-Acts c [] (asked (op (some dn))) _ (operate-Acts c h (op (some dn))))
account-Does user (to_rename old new) h base parent c ne =
    let op : Option CString → Operation = λ p. renaming old new p cn in
    user-Acts c [] (λ p. asked (op p)) h base parent _ _ ne (λ d q. inl (refl, q))
      (λ dn. release-Acts c [] (asked (op (some dn))) _ (operate-Acts c h (op (some dn))))
account-Does group (to_add name attrs) h base parent c ne =
    rw (or_base-eq h base (filled parent) ne)
      (operate-Acts c h (adding name _ cn attrs) c (refl, refl))
account-Does group (to_modify name attrs) h base parent c ne =
    rw (or_base-eq h base parent ne) (operate-Acts c h (modifying name _ cn attrs) c (refl, refl))
account-Does group (to_delete name) h base parent c ne =
    rw (or_base-eq h base parent ne) (operate-Acts c h (deleting name _ cn) c (refl, refl))
account-Does group (to_rename old new) h base parent c ne =
    rw (or_base-eq h base parent ne) (operate-Acts c h (renaming old new _ cn) c (refl, refl))
account-Does unit (to_add name attrs) h base parent c ne =
    rw (or_base-eq h base (filled parent) ne)
      (operate-Acts c h (adding name _ ou attrs) c (refl, refl))
account-Does unit (to_modify name attrs) h base parent c ne =
    rw (or_base-eq h base parent ne) (operate-Acts c h (modifying name _ ou attrs) c (refl, refl))
account-Does unit (to_delete name) h base parent c ne =
    rw (or_base-eq h base parent ne) (operate-Acts c h (deleting name _ ou) c (refl, refl))
account-Does unit (to_rename old new) h base parent c ne =
    rw (or_base-eq h base parent ne) (operate-Acts c h (renaming old new _ ou) c (refl, refl))
account-Does computer (to_add name attrs) h base parent c ne =
    rw (or_base-eq h base (filled parent) ne)
      (operate-Acts c h (adding name _ cn attrs) c (refl, refl))
account-Does computer (to_modify name attrs) h base parent c ne =
    let op : Option CString → Operation = λ p. modifying name p cn attrs in
    computer-Acts c _ (λ p. asked (op p)) h base parent _ ne
      (λ dn. free-Acts c _ (asked (op dn)) _ (operate-Acts c h (op dn)))
      (λ mods. given-none name _ (λ n. refl)) c (refl, refl)
account-Does computer (to_delete name) h base parent c ne =
    let op : Option CString → Operation = λ p. deleting name p cn in
    computer-Acts c [] (λ p. asked (op p)) h base parent _ ne
      (λ dn. free-Acts c [] (asked (op dn)) _ (operate-Acts c h (op dn)))
      (λ mods. given-none name _ (λ n. refl)) c (refl, refl)
account-Does computer (to_rename old new) h base parent c ne =
    let op : Option CString → Operation = λ p. renaming old new p cn in
    computer-Acts c [] (λ p. asked (op p)) h base parent _ ne
      (λ dn. free-Acts c [] (asked (op dn)) _ (operate-Acts c h (op dn)))
      (λ mods. given-none old _ (λ m. given-none new _ (λ n. refl))) c (refl, refl)
