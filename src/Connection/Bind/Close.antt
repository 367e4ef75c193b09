-- ===== src/Connection/Bind/Close.antt =====
-- What `connection_close` changes, and what its leaving the addresses of the deleted events behind
-- means for a connection that is closed again.
use libdomain.Prelude.{
  ◌≡◌, refl, Option, none, some, Ptr, CString, if◌then◌else◌, inl, inr, Bool-cases, ap, ◌∙◌,
}
use libdomain.Ldap.{
  World, call_memfree, call_verto_del, call_verto_free, call_unbind, call_talloc_free, is_success,
}
use libdomain.Connection.{
  Connection, ConnectionState, ReturnCode, Owned, unset, dangling, valid, SaslDefaults, error,
  Outcome, M, done, fault, and_then, pure, get, put, perform, ◌>>=◌, ◌>>◌,
}
use libdomain.Connection.States.{machine_state, state_eq}
use libdomain.Connection.Ends.{Ends, Ends-bind, Returns-Ends}
use libdomain.Connection.Bind.{
  connection_close, free_defaults, delete_event, memfree, rc_success, rc_failure,
}
use libdomain.Connection.Configure.{connection_configure}
use libdomain.Connection.Configure.Result.{configure-events}

-- The fields of `c₀` that a close leaves as they are.
pub record Same (c₀ c : Connection) : Type 0 where
  pub machines : c.machines ≡ c₀.machines
  pub attempts : c.n_reconnect_attempts ≡ c₀.n_reconnect_attempts
  pub machine : c.state_machine ≡ c₀.state_machine

-- The events on the way: `r` and `w` in the two fields.
abbrev pub On : Connection → Owned (Unit {0}) → Owned (Unit {0}) → Connection → Type 0
On c₀ r w c = Same c₀ c × (c.read_event ≡ r) × (c.write_event ≡ w)

On-log :
    (c₀ : Connection) (r w : Owned (Unit {0})) (k : libdomain.Ldap.Call) (c : Connection)
    → On c₀ r w c
    → On c₀ r w (libdomain.Connection.log k c)
On-log c₀ r w k c (s, r', w') =
    (record { machines = s.machines; attempts = s.attempts; machine = s.machine }, r', w')

memfree-On :
    (c₀ : Connection) (r w : Owned (Unit {0})) (p : Option CString) (c : Connection)
    → On c₀ r w c
    → Ends (λ _. On c₀ r w) (memfree p c)
memfree-On c₀ r w none c q = q
memfree-On c₀ r w (some p) c q = On-log c₀ r w (call_memfree p) c q

free_defaults-On :
    (c₀ : Connection) (r w : Owned (Unit {0})) (d : Owned SaslDefaults) (c : Connection)
    → On c₀ r w c
    → Ends (λ _. On c₀ r w) (free_defaults d c)
unfolding free_defaults
free_defaults-On c₀ r w unset c q = q
free_defaults-On c₀ r w dangling c q = tt
free_defaults-On c₀ r w (valid d) c q =
    let P : Unit {0} → Connection → Type 0 = λ _. On c₀ r w in
    Ends-bind P P (memfree d.authcid c) (λ _. memfree d.authzid >> memfree d.realm)
      (memfree-On c₀ r w d.authcid c q)
      (λ _ c₁ q₁.
        Ends-bind P P (memfree d.authzid c₁) (λ _. memfree d.realm)
          (memfree-On c₀ r w d.authzid c₁ q₁) (λ _ c₂ q₂. memfree-On c₀ r w d.realm c₂ q₂))

-- What a deleted event leaves in its field.
abbrev pub deleted : Owned (Unit {0}) → Owned (Unit {0})
deleted unset = unset
deleted dangling = dangling
deleted (valid _) = dangling

delete_event-On :
    (c₀ : Connection) (r w e : Owned (Unit {0})) (c : Connection)
    → On c₀ r w c
    → Ends (λ e' c'. (e' ≡ deleted e) × On c₀ r w c') (delete_event e c)
unfolding delete_event
delete_event-On c₀ r w unset c q = (refl, q)
delete_event-On c₀ r w dangling c q = tt
delete_event-On c₀ r w (valid _) c q = (refl, On-log c₀ r w call_verto_del c q)

-- The last lines: the event base and the connection to the server go unless the machine is in the
-- error state, then the machine and the defaults.
abbrev ending : ConnectionState → M ReturnCode
ending st = do
  if state_eq st error then pure tt else (do
    perform call_verto_free
    c₃ ← get
    put (record c₃ { event_base = dangling })
    perform call_unbind
    pure tt)
  freed ← perform call_talloc_free
  c₄ ← get
  put (record c₄ { ldap_defaults = unset })
  pure (if is_success freed.code then rc_success else rc_failure)

ending-On :
    (c₀ : Connection) (r w : Owned (Unit {0})) (st : ConnectionState) (c : Connection)
    → On c₀ r w c
    → Ends (λ _. On c₀ r w) (ending st c)
ending-On c₀ r w st c (s, r', w') = elim (Bool-cases (state_eq st error)) [
  | inl e ↦
      rw e (record { machines = s.machines; attempts = s.attempts; machine = s.machine }, r', w')
  | inr e ↦
      rw e (record { machines = s.machines; attempts = s.attempts; machine = s.machine }, r', w')
]

read-On :
    (c₀ : Connection) (r w e : Owned (Unit {0})) (c : Connection)
    → (e ≡ deleted r) × On c₀ r w c
    → On c₀ (deleted r) w (record c { read_event = e })
read-On c₀ r w e c (h, (s, r', w')) =
    (record { machines = s.machines; attempts = s.attempts; machine = s.machine }, h, w')

write-On :
    (c₀ : Connection) (r w e : Owned (Unit {0})) (c : Connection)
    → (e ≡ deleted w) × On c₀ r w c
    → On c₀ r (deleted w) (record c { write_event = e })
write-On c₀ r w e c (h, (s, r', w')) =
    (record { machines = s.machines; attempts = s.attempts; machine = s.machine }, r', h)

state-On :
    (c₀ : Connection) (r w : Owned (Unit {0})) (m : Ptr) (c : Connection)
    → On c₀ r w c
    → Ends (λ _. On c₀ r w) (machine_state m c)
state-On c₀ r w m c q = at (c.machines m) refl
  where
    at : (o : Option ConnectionState) → c.machines m ≡ o → Ends (λ _. On c₀ r w) (machine_state m c)
    at none h = rw h tt
    at (some st) h = rw h q

-- `connection_close`, however the library answers: unless it has no defined behaviour, it keeps the
-- machines and the count of reconnections, and the events that it deletes leave dangling addresses.
pub close-On :
    (c : Connection)
    → Ends (λ _. On c (deleted c.read_event) (deleted c.write_event)) (connection_close c)
unfolding connection_close
close-On c =
    let r = c.read_event in
    let w = c.write_event in
    let before : On c r w c =
      (record { machines = refl; attempts = refl; machine = refl }, refl, refl) in
    Ends-bind (λ _. On c r w) _ (free_defaults c.ldap_defaults c) _
      (free_defaults-On c r w c.ldap_defaults c before)
      (λ _ c₁ q₁.
        Ends-bind (λ e' c'. (e' ≡ deleted r) × On c r w c') _ (delete_event r c₁) _
          (delete_event-On c r w r c₁ q₁)
          (λ e c₂ q₂.
            Ends-bind (λ e' c'. (e' ≡ deleted w) × On c (deleted r) w c') _ (delete_event w _) _
              (delete_event-On c (deleted r) w w _ (read-On c r w e c₂ q₂))
              (λ e₁ c₃ q₃.
                let q₄ = write-On c (deleted r) w e₁ c₃ q₃ in
                Ends-bind (λ _. On c (deleted r) (deleted w)) (λ _. On c (deleted r) (deleted w))
                  (machine_state c.state_machine (record c₃ { write_event = e₁ })) ending
                  (state-On c (deleted r) (deleted w) c.state_machine _ q₄)
                  (ending-On c (deleted r) (deleted w)))))

free_defaults-fault :
    {A : Type 0} (d : Owned SaslDefaults) (k : Unit {0} → M A)
    → ((c : Connection) → k tt c ≡ fault)
    → (c : Connection) → and_then (free_defaults d c) k ≡ fault
unfolding free_defaults
free_defaults-fault unset k h c = h c
free_defaults-fault dangling k h c = refl
free_defaults-fault {A} (valid d) k h c = freed d.authcid d.authzid d.realm
  where
    freed :
        (a b r : Option CString)
        → and_then ((memfree a >>= λ _. memfree b >>= λ _. memfree r) c) k ≡ fault
    freed none none none = h _
    freed none none (some _) = h _
    freed none (some _) none = h _
    freed none (some _) (some _) = h _
    freed (some _) none none = h _
    freed (some _) none (some _) = h _
    freed (some _) (some _) none = h _
    freed (some _) (some _) (some _) = h _

deleting-fault :
    {A : Type 0} (e : Owned (Unit {0})) (f : Owned (Unit {0}) → M A) (c : Connection)
    → e ≡ dangling
    → and_then (delete_event e c) f ≡ fault
unfolding delete_event
deleting-fault e f c h = rw h refl

-- A connection whose read event was deleted before cannot be closed: the second `verto_del` is of
-- freed memory.
dangling-fault : (c : Connection) → c.read_event ≡ dangling → connection_close c ≡ fault
unfolding connection_close
dangling-fault c h =
    free_defaults-fault c.ldap_defaults _ (λ c'. deleting-fault c.read_event _ c' h) c

-- If a connection with a read event is closed and then configured again, and neither lacks defined
-- behaviour, then whether the configuration succeeds or not a further close has no defined behaviour.
pub close-again :
    (c : Connection)
    → c.read_event ≡ valid tt
    → Ends (λ _ c'. connection_close c' ≡ fault) ((connection_close >> connection_configure) c)
close-again c h =
    let Q : ReturnCode → Connection → Type 0 = λ _ c'. connection_close c' ≡ fault in
    Ends-bind (λ _. On c (deleted c.read_event) (deleted c.write_event)) Q (connection_close c)
      (λ _. connection_configure) (close-On c)
      (λ _ c₁ (_, r, _).
        Returns-Ends _ Q (connection_configure c₁) (configure-events c₁)
          (λ _ c₂ (r', _). dangling-fault c₂ (r' ∙ r ∙ ap deleted h)))
