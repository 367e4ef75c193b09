-- ===== src/Domain/Rules.antt =====
-- The rules for the steps of the operations of src/domain.c: which changes of the directory they send.
use libdomain.Prelude.{
  ℕ, zero, suc, ◌+◌, ◌==◌, ◌≡◌, refl, sym, ◌∙◌, ap, ◌⊎◌, Bool, inl, inr, true, false, Option, none,
  some, List, [], ◌∷◌, ◌++◌, if◌then◌else◌, length, is_nil, Ptr, null, CString, Bool-cases, ltb,
  append-nil, append-cons,
}
use libdomain.Ldap.{Call, LdapMod, ModOp, RawAttribute, call_talloc, call_talloc_free, is_success}
use libdomain.Connection.{
  Connection, ReturnCode, rc_failure, M, pure, perform, log, max_requests, ◌>>=◌, ◌>>◌,
}
use libdomain.Connection.Ends.{Ends, Ends-bind, Ends-if, Ends-weaken}
use libdomain.Entry.Enqueue.{Sending, send, send_lem, call_of, answer_to}
use libdomain.Entry.Table.{allocate}
use libdomain.Domain.{
  check_handle, check_string, free_and_return, error_exit, new_context, print, fill,
  fill_attributes, or_null,
}
use libdomain.Domain.Requests.{changes, given, is_change, mods_of}

-- No change since `c₀`, and the same libraries.
abbrev pub Quiet : {A : Type 0} → Connection → A → Connection → Type 0
Quiet c₀ a c = (changes c.trace ≡ changes c₀.trace) × (c.world ≡ c₀.world)

-- The libraries refuse an allocation.
abbrev pub Starved : Connection → Type 0
Starved c = (past : List Call) × (((c.world (call_talloc ∷ past)).ptr == null) ≡ true)

module _ (c₀ : Connection) where
  pub allocate-Quiet : (n : ℕ) (c : Connection) → Quiet c₀ n c → Ends (Quiet c₀) (allocate n c)
  allocate-Quiet zero c q = q
  allocate-Quiet (suc n) c q =
      Ends-if (Quiet c₀) ((c.world (call_talloc ∷ c.trace)).ptr == null) (pure false) (allocate n)
        (log call_talloc c) (λ _. q) (λ _. allocate-Quiet n (log call_talloc c) q)

  -- Allocations fail only if one is refused.
  abbrev Allocated : Bool → Connection → Type 0
  Allocated ok c = Quiet c₀ ok c × (ok ≡ false → Starved c₀)

  allocate-Starved : (n : ℕ) (c : Connection) → Quiet c₀ n c → Ends Allocated (allocate n c)
  allocate-Starved zero c q = (q, λ h. absurd (cc))
  allocate-Starved (suc n) c q =
      Ends-if Allocated ((c.world (call_talloc ∷ c.trace)).ptr == null) (pure false) (allocate n)
        (log call_talloc c) (λ lacks. (q, λ _. (c.trace, rw⁻¹ q.1 lacks)))
        (λ _. allocate-Starved n (log call_talloc c) q)

  -- What `fill_attributes` gives: nothing if there is not the memory, or the modifications.
  abbrev pub Filled : List LdapMod → Option (List LdapMod) → Connection → Type 0
  Filled mods r c = Quiet c₀ r c × (((r ≡ none) × Starved c₀) ⊎ (r ≡ some mods))

  pub fill-Filled :
      (op : ModOp) (attrs : List RawAttribute) (mods : List LdapMod) (c : Connection)
      → Quiet c₀ op c
      → Ends (Filled (mods ++ mods_of op attrs)) (fill op attrs mods c)
  fill-Filled op [] mods c q = (q, inr (ap some (sym (append-nil mods))))
  fill-Filled op (a ∷ rest) mods c q =
      let m : LdapMod = record { mod_op = op; mod_type = a.name; mod_values = a.values } in
      let more = mods ++ m ∷ [] in
      let all = append-cons mods m (mods_of op rest) in
      Ends-bind Allocated (Filled (mods ++ mods_of op (a ∷ rest)))
        (allocate (3 + length a.values) c)
        (λ ok. if ok then fill op rest more else perform call_talloc_free >> pure none)
        (allocate-Starved (3 + length a.values) c q)
        (λ ok d (r, lacks).
          Ends-if (Filled (mods ++ mods_of op (a ∷ rest))) ok (fill op rest more) _ d
            (λ _.
              Ends-weaken (Filled (more ++ mods_of op rest)) _ (fill op rest more d)
                (fill-Filled op rest more d r)
                (λ r' d' (q', got).
                  (q', elim got [ inl no' ↦ inl no' | inr yes' ↦ inr (yes' ∙ ap some all) ])))
            (λ no'. (r, inl (refl, lacks no'))))

  pub attributes-Filled :
      (attrs : List RawAttribute) (op : ModOp) (c : Connection)
      → Quiet c₀ op c
      → Ends (Filled (mods_of op attrs)) (fill_attributes attrs op c)
  unfolding fill_attributes
  attributes-Filled attrs op c q =
      Ends-bind Allocated (Filled (mods_of op attrs)) (allocate 1 c) _ (allocate-Starved 1 c q)
        (λ ok d (r, lacks).
          Ends-if (Filled (mods_of op attrs)) ok (fill op attrs []) (pure none) d
            (λ _. fill-Filled op attrs [] d r) (λ no'. (r, inl (refl, lacks no'))))

  -- The modifications `w`, or none because there was no memory for them.
  abbrev pub Offered : List LdapMod → List LdapMod → Type 0
  Offered w mods = (mods ≡ w) ⊎ ((mods ≡ []) × Starved c₀)

  -- What an operation does: it fails without a change, or it sends one, that of the request that `r`
  -- gives for its modifications.
  abbrev pub Does :
      List LdapMod → (List LdapMod → Option Sending) → ReturnCode → Connection → Type 0
  Does w r rc c =
      ((rc ≡ rc_failure) × Quiet c₀ rc c)
      ⊎ ((mods : List LdapMod) × (s : Sending) × Offered w mods
          × (r mods ≡ some s)
          × (changes c.trace ≡ call_of s ∷ changes c₀.trace))

  abbrev pub Acts : List LdapMod → (List LdapMod → Option Sending) → M ReturnCode → Type 0
  Acts w r m = (c : Connection) → Quiet c₀ w c → Ends (Does w r) (m c)

  pub sent-trace :
      (s : Sending) (c : Connection) → Ends (λ _ d. d.trace ≡ call_of s ∷ c.trace) (send s c)
  sent-trace s c = elim (Bool-cases (is_success (answer_to s c).code)) [
    | inr no' ↦ rw (send_lem s c, no') refl
    | inl yes' ↦ elim (Bool-cases (ltb c.n_read_requests max_requests)) [
      | inl room ↦ rw (send_lem s c, yes', room) refl
      | inr full ↦ rw (send_lem s c, yes', full) tt
    ]
  ]

  -- A request, and the end of the operation.
  pub send-Does :
      (w mods : List LdapMod) (r : List LdapMod → Option Sending) (s : Sending)
      → Offered w mods
      → r mods ≡ some s
      → is_change (call_of s) ≡ true
      → Acts w r (send s >>= free_and_return)
  send-Does w mods r s offered is_asked change c q =
      Ends-bind (λ _ d. d.trace ≡ call_of s ∷ c.trace) (Does w r) (send s c) free_and_return
        (sent-trace s c)
        (λ rc d e.
          let sent : changes d.trace ≡ call_of s ∷ changes c₀.trace =
            ap changes e ∙ with_change ∙ ap (λ ks. call_of s ∷ ks) q.0 in
          let did : (x : ReturnCode) → Does w r x (log call_talloc_free d) =
            λ x. inr (mods, s, offered, is_asked, sent) in
          Ends-if (Does w r) (is_success (d.world (call_talloc_free ∷ d.trace)).code) (pure rc)
            (pure rc_failure) (log call_talloc_free d) (λ _. did rc) (λ _. did rc_failure))
    where
      with_change : changes (call_of s ∷ c.trace) ≡ call_of s ∷ changes c.trace
      with_change = rw change refl

  -- The checks and allocations before.
  pub context-Acts :
      (w : List LdapMod) (r : List LdapMod → Option Sending) (rest : M ReturnCode)
      → Acts w r rest
      → Acts w r (new_context rest)
  context-Acts w r rest h c q =
      Ends-bind (Quiet c₀) (Does w r) (allocate 1 c) _ (allocate-Quiet 1 c q)
        (λ ok d v. Ends-if (Does w r) ok rest (pure rc_failure) d (λ _. h d v) (λ _. inl (refl, v)))

  pub print-Acts :
      (w : List LdapMod) (r : List LdapMod → Option Sending) (rest : M ReturnCode)
      → Acts w r rest
      → Acts w r (print rest)
  print-Acts w r rest h c q =
      Ends-bind (Quiet c₀) (Does w r) (allocate 1 c) _ (allocate-Quiet 1 c q)
        (λ ok d v. Ends-if (Does w r) ok rest error_exit d (λ _. h d v) (λ _. inl (refl, v)))

  pub string-Acts :
      (w : List LdapMod) (text : Option CString) (g : CString → List LdapMod → Option Sending)
      (rest : CString → M ReturnCode)
      → ((t : CString) → Acts w (g t) (rest t))
      → Acts w (λ mods. given text λ t. g t mods) (check_string text rest)
  string-Acts w none g rest h c q = inl (refl, q)
  string-Acts w (some t) g rest h c q = elim (Bool-cases (is_nil t)) [
    | inl e ↦ rw e (inl (refl, q))
    | inr e ↦ rw e (h t c q)
  ]

  -- The attributes, and then the operation with what they give.
  pub fill-Acts :
      (attrs : List RawAttribute) (op : ModOp) (r : List LdapMod → Option Sending)
      (rest : Option (List LdapMod) → M ReturnCode)
      → ((o : Option (List LdapMod))
          → Offered (mods_of op attrs) (or_null o)
          → Acts (mods_of op attrs) r (rest o))
      → Acts (mods_of op attrs) r (fill_attributes attrs op >>= rest)
  fill-Acts attrs op r rest h c q =
      Ends-bind (Filled (mods_of op attrs)) (Does (mods_of op attrs) r) (fill_attributes attrs op c)
        rest (attributes-Filled attrs op c q)
        (λ o d (v, got).
          h o
            (elim got [
              | inl (no', starved) ↦ inr (ap or_null no', starved)
              | inr yes' ↦ inl (ap or_null yes')
            ])
            d v)

  pub handle-Acts :
      (w : List LdapMod) (r : List LdapMod → Option Sending) (handle : Ptr) (rest : M ReturnCode)
      → Acts w r rest
      → Acts w r (check_handle handle rest)
  handle-Acts w r handle rest h c q =
      Ends-if (Does w r) (handle == null) (pure rc_failure) rest c (λ _. inl (refl, q)) (λ _. h c q)
