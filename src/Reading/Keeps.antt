-- ===== src/Reading/Keeps.antt =====
-- The rules for functions that keep the tie between the request array and the queue (`Waiting`), and
-- that tie for the functions which the handlers of replies call.
use libdomain.Prelude.{
  ℕ, zero, suc, ◌+◌, ◌≡◌, refl, pos, null, ◌==◌, ◌||◌, ◌&&◌, not, Bool, true, false, Option, none,
  some, List, [], ◌∷◌, ltb, leb, if◌then◌else◌, length, ℤ, CString, Ptr, inl, inr, Bool-cases,
  arith,
}
use libdomain.Ldap.{
  LdapCode, ldap_success, ResultType, res_bind, res_extended, LdapOption, opt_result_code,
  opt_diagnostic_message, Call, call_interactive_bind, call_tls_inplace, call_install_tls,
  call_talloc, other_code, Answer, RawAttribute, RawEntry, is_success,
}
use libdomain.Connection.{
  Connection, ConnectionState, rc_success, rc_failure, tls_negotiation, bind_in_progress, bound,
  error, transport_ready, BindType, bind_interactive, bind_simple, Owned, unset, dangling, valid,
  SaslDefaults, Handler, bind_handler, Outcome, M, fault, pure, get, put, faulty, perform,
  max_requests, enqueue_request, get_ldap_option, ◌>>=◌, ◌>>◌,
}
use libdomain.Connection.Ends.{Halts, Halts-bind}
use libdomain.Connection.Waiting.{Waiting, Waiting-log, enqueue_request_lem, enqueued-Waiting}
use libdomain.Connection.States.{machine_state, csm_set_state, csm_is_in_state}
use libdomain.Connection.Bind.{with_defaults, is_in_progress}
use libdomain.Connection.Replies.{
  bind_result, connection_bind_on_read, connection_start_tls_on_read,
  connection_optional_transition_on_error, set_machine_state, bind_failed, tls_failed, install_tls,
  is_local_error,
}
use libdomain.Entry.{connection_remove_search_request}
use libdomain.Entry.Table.{
  LdEntry, allocate, read_attributes, read_messages, read_entries, ld_entry_new,
}

Halts-test :
    {A : Type 0} (P : A → Connection → Type 0) (b : Bool) (m n : Outcome A)
    → Halts P m
    → Halts P n
    → Halts P (if b then m else n)
Halts-test P true m n h g = h
Halts-test P false m n h g = g

module _ (k : ℕ) where
  -- A function that keeps the tie from place `k` on, and does not run out of fuel.
  abbrev pub Keeps : {A : Type 0} → M A → Type 0
  Keeps m = (c : Connection) → Waiting k c → Halts (λ _. Waiting k) (m c)

  pub Keeps-bind :
      {A B : Type 0} (m : M A) (f : A → M B) → Keeps m → ((a : A) → Keeps (f a)) → Keeps (m >>= f)
  Keeps-bind m f hm hf c w =
      Halts-bind (λ _. Waiting k) (λ _. Waiting k) (m c) f (hm c w) (λ a. hf a)

  pub Keeps-if :
      {A : Type 0} (b : Bool) (m n : M A) → Keeps m → Keeps n → Keeps (if b then m else n)
  Keeps-if true m n hm hn = hm
  Keeps-if false m n hm hn = hn

  pub Keeps-option :
      {A B : Type 0} (o : Option A) (m : M B) (f : A → M B)
      → Keeps m
      → ((a : A) → Keeps (f a))
      → Keeps (elim o as (λ _. M B) [ none ↦ m | some a ↦ f a ])
  Keeps-option none m f hm hf = hm
  Keeps-option (some a) m f hm hf = hf a

  pub Keeps-perform : (call : Call) → Keeps (perform call)
  Keeps-perform call c w = Waiting-log k call c w

  pub Keeps-then : {A B : Type 0} (m : M A) (x : B) → Keeps m → Keeps (m >> pure x)
  Keeps-then m x hm = Keeps-bind m (λ _. pure x) hm (λ _ c w. w)

  pub Keeps-option_call :
      {A : Type 0} (o : LdapOption) (e : M A) (f : Answer → M A)
      → Keeps e
      → ((a : Answer) → Keeps (f a))
      → Keeps (get_ldap_option o e f)
  Keeps-option_call o e f he hf =
      Keeps-bind (perform _) _ (Keeps-perform _)
        (λ a. Keeps-if (is_success a.code) (f a) e (hf a) he)

  -- A write to the other fields.
  pub Waiting-same :
      (c c' : Connection)
      → Waiting k c
      → c'.store ≡ c.store
      → c'.callqueue ≡ c.callqueue
      → c'.n_read_requests ≡ c.n_read_requests
      → Waiting k c'
  Waiting-same c c' w s q n = record {
    from = rw n w.from;
    bound = rw n w.bound;
    queued = rw (s, q, n) w.queued;
  }

  pub Keeps-enqueue : (msgid : ℤ) (h : Handler) → Keeps (enqueue_request msgid h)
  Keeps-enqueue msgid h c w = elim (Bool-cases (ltb c.n_read_requests max_requests)) [
    | inl room ↦
        rw (enqueue_request_lem msgid h c, room) (enqueued-Waiting k msgid h c w (ground arith))
    | inr full ↦ rw (enqueue_request_lem msgid h c, full) tt
  ]

  pub Keeps-state : (m : Ptr) → Keeps (machine_state m)
  Keeps-state m c w =
      Keeps-option (c.machines m) faulty (λ st. pure st) (λ d v. tt) (λ st d v. v) c w

  pub Keeps-is_in_state : (m : Ptr) (st : ConnectionState) → Keeps (csm_is_in_state m st)
  unfolding csm_is_in_state
  Keeps-is_in_state m st = Keeps-bind (machine_state m) _ (Keeps-state m) (λ _ c w. w)

  pub Keeps-set : (m : Ptr) (st : ConnectionState) → Keeps (csm_set_state m st)
  unfolding csm_set_state
  Keeps-set m st =
      Keeps-bind (machine_state m) _ (Keeps-state m) (λ _ c w. Waiting-same c _ w refl refl refl)

  pub Keeps-transition : Keeps connection_optional_transition_on_error
  unfolding connection_optional_transition_on_error
  Keeps-transition c w =
      Keeps-bind _ _ (Keeps-is_in_state c.state_machine tls_negotiation)
        (λ tls.
          Keeps-bind _ _ (Keeps-is_in_state c.state_machine bind_in_progress) (λ bind.
            Keeps-if (tls || bind) _ (pure tt) (Keeps-set c.state_machine error) (λ d v. v)))
        c w

  pub Keeps-machine : (st : ConnectionState) → Keeps (set_machine_state st)
  Keeps-machine st c w = Keeps-set c.state_machine st c w

  pub Keeps-bind_failed : Keeps bind_failed
  Keeps-bind_failed =
      Keeps-option_call opt_result_code (pure rc_failure) _ (λ c w. w)
        (λ a.
          Keeps-option_call opt_diagnostic_message (pure rc_failure) _ (λ c w. w)
            (λ _.
              Keeps-if (is_success a.result_code) (pure rc_failure) _ (λ c w. w)
                (Keeps-then (set_machine_state error) rc_failure (Keeps-machine error))))

  pub Keeps-defaults :
      {A : Type 0} (k' : SaslDefaults → M A)
      → ((d : SaslDefaults) → Keeps (k' d))
      → Keeps (with_defaults k')
  Keeps-defaults {A} k' h c w = on c.ldap_defaults
    where
      on :
          (o : Owned SaslDefaults)
          → Halts
              (λ _. Waiting k)
              ((elim o as (λ _. M A) [ unset ↦ faulty | dangling ↦ faulty | valid d ↦ k' d ]) c)
      on unset = tt
      on dangling = tt
      on (valid d) = h d c w

  pub Keeps-bind_result : Keeps bind_result
  unfolding bind_result
  Keeps-bind_result c w = on c.bind_type
    where
      note_id : Answer → M LdapCode
      note_id a = do d ← get; put (record d { msgid = a.msgid }); pure a.code

      again : SaslDefaults → M LdapCode
      again d = perform (call_interactive_bind d.mechanism) >>= note_id

      on :
          (t : BindType)
          → Halts
              (λ _. Waiting k)
              ((elim t as (λ _. M LdapCode) [
                | bind_interactive ↦ with_defaults again
                | bind_simple ↦ pure (other_code (pos 0x61))
              ])
                c)
      on bind_interactive =
          Keeps-defaults again
            (λ d.
              Keeps-bind (perform (call_interactive_bind d.mechanism)) note_id (Keeps-perform _)
                (λ a c₁ v. Waiting-same c₁ _ v refl refl refl))
            c w
      on bind_simple = w

  pub Keeps-bind_reply : (rc : ResultType) → Keeps (connection_bind_on_read rc)
  unfolding connection_bind_on_read
  Keeps-bind_reply res_bind = Keeps-bind bind_result _ Keeps-bind_result (λ rc c.
      Keeps-if (is_in_progress rc) _ _
        (Keeps-then (enqueue_request c.msgid bind_handler) rc_success
          (Keeps-enqueue c.msgid bind_handler))
        (Keeps-if (is_success rc) _ bind_failed
          (Keeps-then (set_machine_state bound) rc_success (Keeps-machine bound)) Keeps-bind_failed)
        c)
  Keeps-bind_reply rc = λ c w. w

  pub Keeps-install : Keeps install_tls
  Keeps-install = Keeps-bind (perform call_tls_inplace) _ (Keeps-perform _) (λ a.
      Keeps-if a.flag (pure ldap_success) (perform call_install_tls >>= λ b. pure b.code) (λ c w. w)
        (Keeps-bind (perform call_install_tls) (λ b. pure b.code) (Keeps-perform _) (λ _ c w. w)))

  pub Keeps-tls_failed : Keeps tls_failed
  Keeps-tls_failed =
      Keeps-option_call opt_result_code (pure rc_failure) _ (λ c w. w)
        (λ _.
          Keeps-option_call opt_diagnostic_message (pure rc_failure) _ (λ c w. w)
            (λ _. Keeps-then (set_machine_state error) rc_failure (Keeps-machine error)))

  pub Keeps-tls_reply : (rc : ResultType) → Keeps (connection_start_tls_on_read rc)
  unfolding connection_start_tls_on_read
  Keeps-tls_reply res_extended = Keeps-bind install_tls _ Keeps-install (λ rc.
      Keeps-if (not (is_success rc) && not (is_local_error rc)) tls_failed _ Keeps-tls_failed
        (Keeps-then (set_machine_state transport_ready) rc_success (Keeps-machine transport_ready)))
  Keeps-tls_reply rc = λ c w. w

  pub Keeps-allocate : (n : ℕ) → Keeps (allocate n)
  Keeps-allocate zero = λ c w. w
  Keeps-allocate (suc n) =
      Keeps-bind (perform call_talloc) _ (Keeps-perform _)
        (λ a. Keeps-if (a.ptr == null) (pure false) (allocate n) (λ c w. w) (Keeps-allocate n))

  pub Keeps-new : (dn : CString) → Keeps (ld_entry_new dn)
  unfolding ld_entry_new
  Keeps-new dn = Keeps-bind (allocate 2) _ (Keeps-allocate 2) (λ _ c w. w)

  pub Keeps-attributes :
      (as' : List RawAttribute) (e : Option LdEntry) → Keeps (read_attributes as' e)
  Keeps-attributes [] e = λ c w. w
  Keeps-attributes (a ∷ rest) e =
      Keeps-bind (allocate (3 + length a.values)) _ (Keeps-allocate _)
        (λ ok. Keeps-if ok _ (pure none) (Keeps-attributes rest _) (λ c w. w))

  pub Keeps-messages :
      (ms : List RawEntry) (index size : ℕ) (es : List LdEntry)
      → Keeps (read_messages ms index size es)
  Keeps-messages [] index size es = λ c w. w
  Keeps-messages (m ∷ rest) index size es =
      Keeps-bind (if leb size (index + 2) then allocate 1 else pure true) _
        (Keeps-if (leb size (index + 2)) (allocate 1) (pure true) (Keeps-allocate 1) (λ c w. w))
        (λ ok.
          Keeps-if ok _ (pure none)
            (Keeps-bind (ld_entry_new m.dn) _ (Keeps-new m.dn) (λ e.
              Keeps-option e (pure none) _ (λ c w. w)
                (λ entry.
                  Keeps-bind (read_attributes m.attributes (some entry)) _
                    (Keeps-attributes m.attributes (some entry))
                    (λ r.
                      Keeps-option r (pure none) _ (λ c w. w)
                        (λ full. Keeps-messages rest _ _ _)))))
            (λ c w. w))

  pub Keeps-entries : (ms : List RawEntry) → Keeps (read_entries ms)
  unfolding read_entries
  Keeps-entries ms =
      Keeps-bind (allocate 1) _ (Keeps-allocate 1)
        (λ ok. Keeps-if ok _ (pure none) (Keeps-messages ms 0 256 []) (λ c w. w))

  pub Keeps-remove : (i : ℕ) → Keeps (connection_remove_search_request i)
  unfolding connection_remove_search_request
  Keeps-remove i c w =
      Halts-test (λ _. Waiting k) (c.n_search_requests == 0) fault _ tt
        (Halts-test (λ _. Waiting k) (i + 1 == c.n_read_requests) _ _
          (Waiting-same c _ w refl refl refl) (Waiting-same c _ w refl refl refl))
