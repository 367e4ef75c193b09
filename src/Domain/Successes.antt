-- ===== src/Domain/Successes.antt =====
-- The operations of src/domain.c on entries when the libraries do what they are asked.
use libdomain.Prelude.{
  update, update_self, ℕ, zero, suc, ◌+◌, ◌<◌, ◌==◌, ◌≡◌, ◌≢◌, refl, sym, ◌∙◌, ap, inl, inr, true,
  false, Option, none, some, List, [], ◌∷◌, ◌++◌, if◌then◌else◌, length, is_nil, Ptr, null, CString,
  Bool-cases, ltb, append-nil, append-cons, arith,
}
use mathlib.Core.Path.{subst}
use libdomain.Ldap.{
  World, Call, LdapMod, ModOp, mod_add, mod_replace, RawAttribute, call_talloc, call_talloc_free,
  is_success,
}
use libdomain.Connection.{Request, Connection, ReturnCode, rc_success, M, log, max_requests, ◌>>=◌}
use libdomain.Connection.Ends.{Returns, Returns-bind}
use libdomain.Entry.Enqueue.{
  Sending, sending_add, sending_modify, sending_delete, sending_rename, send, send_lem, call_of,
  answer_to, handler_of,
}
use libdomain.Connection.Waiting.{Waiting, Waiting-log, enqueued-Waiting}
use libdomain.Entry.Table.{allocate}
use libdomain.Domain.{
  check_string, free_and_return, fill, fill_attributes, entry_dn, relative_dn, child_dn,
  ld_add_entry, ld_del_entry, ld_mod_entry, ld_rename_entry, ld_mod_entry_attrs,
}
use libdomain.Domain.Requests.{
  Operation, adding, modifying, deleting, renaming, changing, operate, asked, wanted, changes,
  given, is_change, mods_of,
}

-- There is always memory, and no call fails.
abbrev pub Willing : World → Type 0
Willing w =
    (past : List Call) → (((w past).ptr == null) ≡ false) × (is_success (w past).code ≡ true)

pub none-some : {A : Type 0} {x : A} → none ≢ some x
none-some h = cc

-- The operation that began with `c₀` sent the request `s`, and succeeded: the request waits last in the
-- queue, which holds those from place `k` on, with the handler of its reply.
abbrev pub Sends : ℕ → Connection → Sending → ReturnCode → Connection → Type 0
Sends k c₀ s rc c =
    (rc ≡ rc_success)
    × (c.n_read_requests ≡ c₀.n_read_requests + 1)
    × Waiting k c
    × ((c.read_requests c₀.n_read_requests).on_read_operation ≡ some (handler_of s))
    × (changes c.trace ≡ call_of s ∷ changes c₀.trace)

module _ (k : ℕ) (c₀ : Connection) (willing : Willing c₀.world) where
  -- Nothing but allocations since `c₀`.
  abbrev pub Since : Connection → Type 0
  Since c =
      (c.world ≡ c₀.world)
      × (c.n_read_requests ≡ c₀.n_read_requests)
      × Waiting k c
      × (changes c.trace ≡ changes c₀.trace)

  allocate-Since :
      (n : ℕ) (c : Connection) → Since c → Returns (λ ok d. (ok ≡ true) × Since d) (allocate n c)
  allocate-Since zero c s = (refl, s)
  allocate-Since (suc n) c s =
      let memory : ((c.world (call_talloc ∷ c.trace)).ptr == null) ≡ false =
        rw s.0 (willing (call_talloc ∷ c.trace)).0 in
      rw memory
        (allocate-Since n (log call_talloc c) (s.0, s.1, Waiting-log k call_talloc c s.2, s.3))

  abbrev pub Delivers : Sending → M ReturnCode → Type 0
  Delivers s m = (c : Connection) → Since c → Returns (Sends k c₀ s) (m c)

  pub allocate-Delivers :
      (s : Sending) (n : ℕ) (rest other : M ReturnCode)
      → Delivers s rest
      → Delivers s (allocate n >>= λ ok. if ok then rest else other)
  allocate-Delivers s n rest other h c q =
      Returns-bind (λ ok d. (ok ≡ true) × Since d) (Sends k c₀ s) (allocate n c) _
        (allocate-Since n c q) (λ ok d (e, v). rw e (h d v))

  pub string-Delivers :
      (s : Sending) (text : Option CString) (asks : CString → Option Sending)
      (rest : CString → M ReturnCode)
      → ((t : CString) → asks t ≡ some s → Delivers s (rest t))
      → given text asks ≡ some s
      → Delivers s (check_string text rest)
  string-Delivers s none asks rest h e c q = absurd (none-some e)
  string-Delivers s (some t) asks rest h e c q = elim (Bool-cases (is_nil t)) [
    | inl f ↦
        let missing : given (some t) asks ≡ none = rw f refl in absurd (none-some (sym missing ∙ e))
    | inr f ↦ let same : given (some t) asks ≡ asks t = rw f refl in rw f (h t (sym same ∙ e) c q)
  ]

  fill-Since :
      (op : ModOp) (attrs : List RawAttribute) (mods : List LdapMod) (c : Connection)
      → Since c
      → Returns (λ r d. (r ≡ some (mods ++ mods_of op attrs)) × Since d) (fill op attrs mods c)
  fill-Since op [] mods c q = (ap some (sym (append-nil mods)), q)
  fill-Since op (a ∷ rest) mods c q =
      let m : LdapMod = record { mod_op = op; mod_type = a.name; mod_values = a.values } in
      Returns-bind (λ ok d. (ok ≡ true) × Since d)
        (λ r d. (r ≡ some (mods ++ mods_of op (a ∷ rest))) × Since d)
        (allocate (3 + length a.values) c) _ (allocate-Since (3 + length a.values) c q)
        (λ ok d (e, v).
          rw (e, sym (append-cons mods m (mods_of op rest)))
            (fill-Since op rest (mods ++ m ∷ []) d v))

  attributes-Delivers :
      (s : Sending) (attrs : List RawAttribute) (op : ModOp)
      (rest : Option (List LdapMod) → M ReturnCode)
      → Delivers s (rest (some (mods_of op attrs)))
      → Delivers s (fill_attributes attrs op >>= rest)
  unfolding fill_attributes
  attributes-Delivers s attrs op rest h c q =
      Returns-bind (λ r d. (r ≡ some (mods_of op attrs)) × Since d) (Sends k c₀ s)
        (fill_attributes attrs op c) rest
        (Returns-bind (λ ok d. (ok ≡ true) × Since d) _ (allocate 1 c) _ (allocate-Since 1 c q)
          (λ ok d (e, v). rw e (fill-Since op attrs [] d v)))
        (λ r d (e, v). rw e (h d v))

  send-Sends :
      (s : Sending)
      → ltb c₀.n_read_requests max_requests ≡ true
      → is_change (call_of s) ≡ true
      → Delivers s (send s >>= free_and_return)
  send-Sends s room change c (w, n, waits, q) =
      let yes' : is_success (answer_to s c).code ≡ true = rw w (willing (call_of s ∷ c.trace)).1 in
      let room' : ltb c.n_read_requests max_requests ≡ true = rw n room in
      let fits : c.n_read_requests < max_requests = ground (arith, room') in
      let request : Request = record {
        msgid = (answer_to s c).msgid;
        on_read_operation = some (handler_of s);
      } in
      let slot : (update c.read_requests c.n_read_requests request
            c₀.n_read_requests).on_read_operation
          ≡ some (handler_of s) =
        subst
          (λ i.
            (update c.read_requests c.n_read_requests request i).on_read_operation
            ≡ some (handler_of s))
          n
          (ap (λ r. r.on_read_operation) (update_self c.read_requests c.n_read_requests request)) in
      let after : changes (call_of s ∷ c.trace) ≡ call_of s ∷ changes c₀.trace =
        rw (change, q) refl in
      Returns-bind (λ rc d. (d.world ≡ c₀.world) × Sends k c₀ s rc d) (Sends k c₀ s) (send s c)
        free_and_return
        (rw (send_lem s c, yes', room')
          (
            w,
            (
              refl,
              ap (λ i. i + 1) n,
              enqueued-Waiting k (answer_to s c).msgid (handler_of s) (log (call_of s) c)
                  (Waiting-log k (call_of s) c waits) fits,
              slot,
              after,
            ),
          ))
        (λ rc d (v, did).
          let freed : is_success (d.world (call_talloc_free ∷ d.trace)).code ≡ true =
            rw v (willing (call_talloc_free ∷ d.trace)).1 in
          rw freed (did.0, did.1, Waiting-log k call_talloc_free d did.2, did.3, did.4))

  pub send-Delivers :
      (s t : Sending)
      → ltb c₀.n_read_requests max_requests ≡ true
      → is_change (call_of t) ≡ true
      → some t ≡ some s
      → Delivers s (send t >>= free_and_return)
  send-Delivers s t room change e =
      let same : t ≡ s = cc in
      subst (λ x. Delivers x (send t >>= free_and_return)) same (send-Sends t room change)

  -- The operations on entries.
  operate-Delivers :
      (h : Ptr) (o : Operation) (s : Sending)
      → (h == null) ≡ false
      → ltb c₀.n_read_requests max_requests ≡ true
      → asked o (wanted o) ≡ some s
      → Delivers s (operate h o)
  unfolding operate ld_add_entry ld_del_entry ld_mod_entry ld_rename_entry ld_mod_entry_attrs send
  operate-Delivers h (adding name parent prefix attrs) s real room e = rw real (
      string-Delivers s name _ _
        (λ n. string-Delivers s parent _ _ (λ p f. allocate-Delivers s 1 _ _ (
          allocate-Delivers s 1 _ _ (
            attributes-Delivers s attrs mod_add _ (
              send-Delivers s (sending_add (entry_dn prefix n p) (mods_of mod_add attrs)) room refl
                f)))))
        e)
  operate-Delivers h (modifying name parent prefix attrs) s real room e = rw real (
      string-Delivers s name _ _
        (λ n. string-Delivers s parent _ _ (λ p f. allocate-Delivers s 1 _ _ (
          attributes-Delivers s attrs mod_replace _ (
            allocate-Delivers s 1 _ _ (
              send-Delivers s (sending_modify (entry_dn prefix n p) (mods_of mod_replace attrs))
                room refl f)))))
        e)
  operate-Delivers h (deleting name parent prefix) s real room e = rw real (
      string-Delivers s name _ _
        (λ n. string-Delivers s parent _ _ (λ p f. allocate-Delivers s 1 _ _ (
          allocate-Delivers s 1 _ _
            (send-Delivers s (sending_delete (entry_dn prefix n p)) room refl f))))
        e)
  operate-Delivers h (renaming old new parent prefix) s real room e = rw real (
      string-Delivers s old _ _
        (λ m. string-Delivers s new _ _ (λ n. string-Delivers s parent _ _ (λ p f.
          allocate-Delivers s 1 _ _ (
            allocate-Delivers s 1 _ _ (
              allocate-Delivers s 1 _ _ (
                send-Delivers s (sending_rename (entry_dn prefix m p) (relative_dn prefix n) p true)
                  room refl f))))))
        e)
  operate-Delivers h (changing name parent prefix attrs op) s real room e = rw real (
      string-Delivers s name _ _
        (λ n. string-Delivers s parent _ _ (λ p f. allocate-Delivers s 1 _ _ (
          attributes-Delivers s attrs op _ (
            allocate-Delivers s 1 _ _ (
              send-Delivers s
                (sending_modify (if is_nil prefix then child_dn n p else entry_dn prefix n p)
                  (mods_of op attrs))
                room refl f)))))
        e)

-- The operations on entries, when there is memory, no call of the libraries fails and the array has room:
-- with a handle, an operation whose strings are given returns success, after it has sent exactly the
-- one change that it is to send, with all its modifications, and one more request, with the handler of its
-- reply, waits in the queue behind those that waited.
pub operate-Sends :
    (k : ℕ) (h : Ptr) (o : Operation) (s : Sending) (c : Connection)
    → Willing c.world
    → Waiting k c
    → c.n_read_requests < max_requests
    → h ≢ null
    → asked o (wanted o) ≡ some s
    → Returns (Sends k c s) (operate h o c)
operate-Sends k h o s c willing waits room ne e =
    operate-Delivers k c willing h o s (ground (arith, ne)) (ground (arith, room)) e c
      (refl, refl, waits, refl)
