-- ===== src/Accounts/Lockout/Sends.antt =====
-- What blocking and unblocking a user, in src/user.c, send to the directory.
use libdomain.Prelude.{
  ℕ, zero, suc, ◌+◌, ◌==◌, ◌≡◌, refl, sym, ◌∙◌, ◌⊎◌, inl, inr, Bool, true, false, Option, none,
  some, List, [], ◌∷◌, if◌then◌else◌, is_nil, length, Ptr, null, CString, codes, Bool-cases,
}
use mathlib.Core.Path.{subst}
use libdomain.Ldap.{LdapMod, ModOp, mod_delete, mod_replace, call_talloc, call_talloc_free}
use libdomain.Connection.{
  Connection, ReturnCode, rc_failure, DirectoryType, type_uninitialized, type_unknown,
  type_active_directory, type_openldap, type_free_ipa, M, log, pure, get, faulty, perform, ◌>>=◌,
  ◌>>◌,
}
use libdomain.Connection.Ends.{Ends, Ends-bind, Ends-if}
use libdomain.Entry.Enqueue.{Sending}
use libdomain.Entry.Table.{allocate}
use libdomain.Domain.{check_string, child_dn, new_context}
use libdomain.Domain.Requests.{Operation, changing, operate, wanted, asked}
use libdomain.Domain.Rules.{Does, Acts, Quiet, allocate-Quiet, context-Acts, handle-Acts}
use libdomain.Domain.Operations.{operate-Acts}
use libdomain.Accounts.{cn, users_of, release, in_user_parent}
use libdomain.Accounts.Parents.{or_home, release-Acts}
use libdomain.Accounts.Lockout.{
  Lockout, lockout_openldap, lockout_ad, create_lockout, create_lockout_time_attributes_openldap,
  create_lockout_time_attributes_ad, mod_lockout, with_lockout, block_in, unblock_in, ld_block_user,
  ld_unblock_user,
}

-- The function of the code.
unfoldable pub lock :
    (blocks : Bool) → Ptr → CString → (name parent : Option CString) → M ReturnCode
lock blocks h base name parent =
    if blocks then ld_block_user h base name parent else ld_unblock_user h base name parent

-- What OpenLDAP is asked for: the time from which the account is locked is set to the start of the
-- calendar, which means for good, or is deleted.
abbrev pub locking : (blocks : Bool) → (name parent : Option CString) → Operation
locking true name parent =
    changing name parent cn
      (record { name = codes "pwdAccountLockedTime"; values = codes "000001010000Z" ∷ [] } ∷ [])
      mod_replace
locking false name parent =
    changing name parent cn (record { name = codes "pwdAccountLockedTime"; values = [] } ∷ [])
      mod_delete

-- The modifications and the request in a directory of type `t`.
abbrev pub lock_mods : Bool → DirectoryType → List LdapMod
lock_mods blocks type_openldap = wanted (locking blocks none none)
lock_mods blocks _ = []

abbrev pub lock_request :
    Bool → DirectoryType → CString → (name parent : Option CString) → List LdapMod → Option Sending
lock_request blocks type_openldap base name parent mods =
    asked (locking blocks name (or_home (child_dn (users_of type_openldap) base) parent)) mods
lock_request blocks _ base name parent mods = none

module _ (c₀ : Connection) where
  -- No change since `c₀`, and the type of the directory is the same.
  abbrev Kept : {A : Type 0} → A → Connection → Type 0
  Kept a c = Quiet c₀ a c × (c.directory_type ≡ c₀.directory_type)

  allocate-Kept : (n : ℕ) (c : Connection) → Kept n c → Ends Kept (allocate n c)
  allocate-Kept zero c k = k
  allocate-Kept (suc n) c k =
      Ends-if Kept ((c.world (call_talloc ∷ c.trace)).ptr == null) (pure false) (allocate n)
        (log call_talloc c) (λ _. k) (λ _. allocate-Kept n (log call_talloc c) k)

  abbrev Made : Lockout → Option Lockout → Connection → Type 0
  Made l r c = Kept r c × ((r ≡ none) ⊎ (r ≡ some l))

  create-Made : (l : Lockout) (c : Connection) → Kept l c → Ends (Made l) (create_lockout l c)
  create-Made l c k = Ends-bind Kept (Made l) (allocate 1 c) _ (allocate-Kept 1 c k) (λ made d v.
      Ends-if (Made l) made _ (pure none) d
        (λ _.
          Ends-bind Kept (Made l) (allocate (3 + length l.attribute.values) d) _
            (allocate-Kept (3 + length l.attribute.values) d v)
            (λ ok e u.
              Ends-if (Made l) ok (pure (some l)) (perform call_talloc_free >> pure none) e
                (λ _. (u, inr refl)) (λ _. (u, inl refl))))
        (λ _. (v, inl refl)))

  parent-Does :
      (w : List LdapMod) (r : Option CString → List LdapMod → Option Sending) (h : Ptr)
      (base : CString) (parent : Option CString) (rest : CString → M ReturnCode) (t : DirectoryType)
      → (h == null) ≡ false
      → c₀.directory_type ≡ t
      → ((dn : CString) → Acts c₀ w (r (some dn)) (rest dn))
      → (c : Connection) → Kept w c
      → Ends
          (Does c₀ w (r (or_home (child_dn (users_of t) base) parent)))
          (in_user_parent h base parent (release rc_failure) rest c)
  parent-Does w r h base (some parent) rest t real e hr c (q, same) = hr parent c q
  parent-Does w r h base none rest t real e hr c (q, same) =
      let home = child_dn (users_of c.directory_type) base in
      rw (real, sym (same ∙ e))
        (Ends-bind (Quiet c₀) (Does c₀ w (r (some home))) (allocate 1 c) _ (allocate-Quiet c₀ 1 c q)
          (λ ok d v.
            Ends-if (Does c₀ w (r (some home))) ok (rest home) (release rc_failure) d
              (λ _. hr home d v) (λ _. inl (refl, v))))

  -- From the creation of the attributes on.
  with-Does :
      (w : List LdapMod) (r : Option CString → List LdapMod → Option Sending) (h : Ptr)
      (base : CString) (name parent : Option CString) (l : Lockout) (op : ModOp) (t : DirectoryType)
      → (h == null) ≡ false
      → c₀.directory_type ≡ t
      → ((dn : CString) → Acts c₀ w (r (some dn)) (mod_lockout h name dn l op))
      → (c : Connection) → Kept w c
      → Ends
          (Does c₀ w (r (or_home (child_dn (users_of t) base) parent)))
          (with_lockout h base name parent (create_lockout l) op c)
  with-Does w r h base name parent l op t real e hr c k =
      let R = Does c₀ w (r (or_home (child_dn (users_of t) base) parent)) in
      Ends-bind (Made l) R (create_lockout l c) _ (create-Made l c k) (λ a d (v, made). elim made [
        | inl f ↦ rw f (inl (refl, v.0))
        | inr f ↦ rw f (
            parent-Does w r h base parent (λ dn. mod_lockout h name dn l op >>= release) t real e
              (λ dn. release-Acts c₀ w (r (some dn)) (mod_lockout h name dn l op) (hr dn)) d v)
      ])

  string-Fails :
      (text : Option CString) (rest : CString → M ReturnCode)
      → ((t : CString) → Acts c₀ [] (λ mods. none) (rest t))
      → Acts c₀ [] (λ mods. none) (check_string text rest)
  string-Fails none rest hr c q = inl (refl, q)
  string-Fails (some t) rest hr c q = elim (Bool-cases (is_nil t)) [
    | inl e ↦ rw e (inl (refl, q))
    | inr e ↦ rw e (hr t c q)
  ]

  -- Without NULL at its end, nothing is sent.
  unterminated-Acts :
      (h : Ptr) (name : Option CString) (dn : CString) (value : Option CString) (op : ModOp)
      → Acts c₀ [] (λ mods. none) (mod_lockout h name dn (lockout_ad value) op)
  unterminated-Acts h name dn value op = handle-Acts c₀ [] _ h _ (
      string-Fails name _
        (λ n. string-Fails (some dn) _ (λ p. context-Acts c₀ [] (λ mods. none) _ (λ c q. tt))))

-- The part of the function of the code that depends on the type of the directory.
abbrev lock_in :
    Bool → DirectoryType → Ptr → CString → (name parent : Option CString) → M ReturnCode
lock_in true t h base name parent = block_in t h base name parent
lock_in false t h base name parent = unblock_in t h base name parent

lock_in-Does :
    (blocks : Bool) (h : Ptr) (base : CString) (name parent : Option CString) (c₀ : Connection)
    (t : DirectoryType)
    → (h == null) ≡ false
    → c₀.directory_type ≡ t
    → (c : Connection) → Kept c₀ t c
    → Ends
        (Does c₀ (lock_mods blocks t) (lock_request blocks t base name parent))
        (lock_in blocks t h base name parent c)
unfolding create_lockout_time_attributes_openldap create_lockout_time_attributes_ad operate
lock_in-Does true h base name parent c₀ type_openldap real e c k =
    with-Does c₀ (wanted (locking true none none)) (λ p. asked (locking true name p)) h base name
      parent (lockout_openldap (some (codes "000001010000Z"))) mod_replace type_openldap real e
      (λ dn. operate-Acts c₀ h (locking true name (some dn))) c k
lock_in-Does false h base name parent c₀ type_openldap real e c k =
    with-Does c₀ (wanted (locking false none none)) (λ p. asked (locking false name p)) h base name
      parent (lockout_openldap none) mod_delete type_openldap real e
      (λ dn. operate-Acts c₀ h (locking false name (some dn))) c k
lock_in-Does true h base name parent c₀ type_active_directory real e c k =
    with-Does c₀ [] (λ p mods. none) h base name parent (lockout_ad (some (codes "514")))
      mod_replace type_active_directory real e
      (λ dn. unterminated-Acts c₀ h name dn (some (codes "514")) mod_replace) c k
lock_in-Does false h base name parent c₀ type_active_directory real e c k =
    with-Does c₀ [] (λ p mods. none) h base name parent (lockout_ad (some (codes "512")))
      mod_replace type_active_directory real e
      (λ dn. unterminated-Acts c₀ h name dn (some (codes "512")) mod_replace) c k
lock_in-Does true h base name parent c₀ type_free_ipa real e c k = inl (refl, k.0)
lock_in-Does false h base name parent c₀ type_free_ipa real e c k = inl (refl, k.0)
lock_in-Does true h base name parent c₀ type_unknown real e c k = inl (refl, k.0)
lock_in-Does false h base name parent c₀ type_unknown real e c k = inl (refl, k.0)
lock_in-Does true h base name parent c₀ type_uninitialized real e c k = inl (refl, k.0)
lock_in-Does false h base name parent c₀ type_uninitialized real e c k = inl (refl, k.0)

-- With the context and the reading of the handle.
locked-Does :
    (blocks : Bool) (h : Ptr) (base : CString) (name parent : Option CString) (c : Connection)
    → Ends
        (Does c
          (lock_mods blocks c.directory_type)
          (lock_request blocks c.directory_type base name parent))
        (new_context
          (if h == null
            then faulty
            else get >>= λ d. lock_in blocks d.directory_type h base name parent)
          c)
locked-Does blocks h base name parent c =
    let R =
      Does c (lock_mods blocks c.directory_type)
        (lock_request blocks c.directory_type base name parent) in
    Ends-bind (Kept c) R (allocate 1 c) _ (allocate-Kept c 1 c ((refl, refl), refl)) (λ ok d k.
      Ends-if R ok _ (pure rc_failure) d
        (λ _.
          Ends-if R (h == null) faulty _ d (λ _. tt)
            (λ real.
              subst (λ t. Ends R (lock_in blocks t h base name parent d)) (sym k.1)
                (lock_in-Does blocks h base name parent c c.directory_type real refl d k)))
        (λ _. inl (refl, k.0)))

-- Blocking or unblocking a user, unless it lacks defined behaviour: it fails and sends no change, or, in
-- OpenLDAP, it sends one modification of the entry below the parent, or below the container of the
-- users if that is NULL: it sets `pwdAccountLockedTime` to the time that locks for good, or deletes the
-- attribute, or changes nothing, only if the libraries refuse an allocation. No change is sent in
-- another directory, Active Directory among them.
pub lock-Does :
    (blocks : Bool) (h : Ptr) (base : CString) (name parent : Option CString) (c : Connection)
    → Ends
        (Does c
          (lock_mods blocks c.directory_type)
          (lock_request blocks c.directory_type base name parent))
        (lock blocks h base name parent c)
unfolding lock ld_block_user ld_unblock_user
lock-Does true h base name parent c = locked-Does true h base name parent c
lock-Does false h base name parent c = locked-Does false h base name parent c
