-- ===== src/Connection/Configure/Result.antt =====
-- What `connection_configure` leaves behind: on success a blank request state with every counter 0,
-- and on every branch the event fields as they were.
use libdomain.Prelude.{
  not, ◌&&◌, true, ltb, none, negsuc, ℕ, ◌==◌, ◌≡◌, refl, ◌⊎◌, Bool, [], ◌∷◌, Ptr, null, inl, inr,
  Bool-cases, arith, update_self, ◌<◌,
}
use libdomain.Ldap.{
  Call, call_table_new, call_talloc, call_verto_default, call_talloc_free, is_success,
}
use libdomain.RequestQueue.{Store, request_queue_new}
use libdomain.RequestQueue.Chain.{IsQueue}
use libdomain.RequestQueue.Simple.{IsQueue-at}
use libdomain.Connection.{
  log, Connection, ReturnCode, rc_success, rc_failure, rc_missing_attribute,
  rc_operation_in_progress, rc_repeat_last_operation, Owned, type_uninitialized, max_requests, ◌>>◌,
}
use libdomain.Connection.Ends.{Returns}
use libdomain.Connection.Waiting.{Waiting}
use libdomain.Connection.Configure.{
  connection_configure, reset, set_requests, new_schema, finish, search_requests_init,
  blank_request, blank_nodes, ldap_requests_init,
}
use libdomain.Connection.Configure.Rule.{Refused, Defaulted, Alive, Stable}
use libdomain.Connection.Configure.Rule.Whole.{configure-Fine}

-- Every counter is 0 and the directory is unknown yet; if the queue could be allocated, no request
-- waits.
pub record IsBlank (c : Connection) : Type 0 where
  pub reads : c.n_read_requests ≡ 0
  pub writes : c.n_write_requests ≡ 0
  pub searches : c.n_search_requests ≡ 0
  pub attempts : c.n_reconnect_attempts ≡ 0
  pub directory : c.directory_type ≡ type_uninitialized
  pub slots : (i : ℕ) → i < max_requests → c.read_requests i ≡ blank_request
  pub write_slots : (i : ℕ) → i < max_requests → c.write_requests i ≡ blank_request
  pub search_slots :
      (i : ℕ)
      → i < max_requests
      → ((c.search_requests i).msgid ≡ negsuc 0)
        × ((c.search_requests i).on_search_operation ≡ none)
  pub queue : (c.callqueue ≡ null) ⊎ Waiting 0 c

-- The libraries and the configuration are those of `c₀`.
abbrev pub SameSetup : Connection → Connection → Type 0
SameSetup c₀ c = (c.world ≡ c₀.world) × (c.config ≡ c₀.config)

-- The result of a configuration that began at `c₀`.
abbrev pub Configured : Connection → ReturnCode → Connection → Type 0
Configured c₀ rc_success c = SameSetup c₀ c × Defaulted c × Alive c × IsBlank c
Configured c₀ rc_failure c = Refused c₀
Configured c₀ rc_missing_attribute c = ⊥
Configured c₀ rc_operation_in_progress c = ⊥
Configured c₀ rc_repeat_last_operation c = ⊥

back-Refused : (c₀ c : Connection) → SameSetup c₀ c → Refused c → Refused c₀
back-Refused c₀ c (w, _) (past, r) = (past, rw⁻¹ w r)

setup-Stable : (c₀ : Connection) → Stable (SameSetup c₀) (Configured c₀)
setup-Stable c₀ = record {
  logged = λ k c q. q;
  defaulted = λ d c blank q. q;
  failed = λ f d c q r. back-Refused c₀ c q r;
}

-- The queue is NULL, or empty, with the links set to NULL.
new-IsQueue_or_null :
    (fresh : Ptr) (s : Store)
    → let (q, s') = request_queue_new fresh max_requests s in
      (q ≡ null) ⊎ IsQueue (record s' { prev = blank_nodes max_requests s'.prev }) q max_requests []
unfolding request_queue_new
new-IsQueue_or_null fresh s = elim (Bool-cases (fresh == null)) [
  | inl e ↦ rw e (inl refl)
  | inr e ↦ rw e (
      inr (
        IsQueue-at _ fresh max_requests [] _ (update_self s.queue fresh _) (ground arith) refl tt
          refl refl (omega arith)))
]

-- The lines after `new_schema`.
abbrev base_missing : Connection → Bool
base_missing c = (c.world (call_verto_default ∷ call_talloc ∷ c.trace)).ptr == null

abbrev freed_well : Connection → Bool
freed_well c =
    is_success (c.world (call_talloc_free ∷ call_verto_default ∷ call_talloc ∷ c.trace)).code

requests-Blank :
    (c₀ : Connection) (m schema : Ptr) (c : Connection)
    → (SameSetup c₀ c × Alive c) × Defaulted c
    → Returns (Configured c₀) ((set_requests schema >> finish m) c)
unfolding set_requests finish ldap_requests_init search_requests_init
requests-Blank c₀ m schema c ((q, alive), defaulted) =
    let fresh = (c.world (call_talloc ∷ c.trace)).ptr in
    let made = new-IsQueue_or_null fresh c.store in
    elim (Bool-cases (base_missing c)) [
      | inl e ↦ rw e (back-Refused c₀ c q (_, inl e))
      | inr e ↦ rw e (elim (Bool-cases (freed_well c)) [
        | inl f ↦ rw f (
          q,
          defaulted,
          alive,
          record {
            reads = refl;
            writes = refl;
            searches = refl;
            attempts = refl;
            directory = refl;
            slots = λ i h. ground arith;
            write_slots = λ i h. ground arith;
            search_slots = λ i h.
                let inside : ltb i max_requests ≡ true = ground arith in rw inside (refl, refl);
            queue = elim made [
              | inl none_made ↦ inl none_made
              | inr empty ↦ inr (record { from = omega arith; bound = omega arith; queued = empty })
            ];
          },
        )
        | inr f ↦ rw f (back-Refused c₀ c q (_, inr f))
      ])
    ]

-- `new_schema` calls the libraries alone, so what does not depend on the calls is kept.
schema_new-then :
    (P : ReturnCode → Connection → Type 0) (Q : Connection → Type 0) (m : Ptr)
    → ((k : Call) (c : Connection) → Q c → Q (log k c))
    → ((schema : Ptr) (c : Connection) → Q c → Returns P ((set_requests schema >> finish m) c))
    → (c : Connection) → Q c
    → Returns P ((reset >> finish m) c)
unfolding reset new_schema
schema_new-then P Q m logged h c q =
    let c₁ = log call_talloc c in
    let c₃ = log call_table_new (log call_table_new c₁) in
    let c₅ = log call_table_new (log call_table_new c₃) in
    let q₁ = logged call_talloc c q in
    let q₃ = logged call_table_new _ (logged call_table_new c₁ q₁) in
    let q₅ = logged call_table_new _ (logged call_table_new c₃ q₃) in
    elim (Bool-cases ((c.world c₁.trace).ptr == null)) [
      | inl e ↦ rw e (h null c₁ q₁)
      | inr e ↦ rw e (elim (Bool-cases (both c₁)) [
        | inr f ↦ rw f (h null _ (logged call_talloc_free c₃ q₃))
        | inl f ↦ rw f (elim (Bool-cases (both c₃)) [
          | inr g ↦ rw g (h null _ (logged call_talloc_free c₅ q₅))
          | inl g ↦ rw g (h (c.world c₁.trace).ptr c₅ q₅)
        ])
      ])
    ]
  where
    both : Connection → Bool
    both d =
        not ((d.world (call_table_new ∷ d.trace)).ptr == null)
        && not ((d.world (call_table_new ∷ call_table_new ∷ d.trace)).ptr == null)

last-Blank :
    (c₀ : Connection) (m : Ptr) (c : Connection)
    → (SameSetup c₀ c × Alive c) × Defaulted c
    → Returns (Configured c₀) ((reset >> finish m) c)
last-Blank c₀ m =
    schema_new-then (Configured c₀) (λ c. (SameSetup c₀ c × Alive c) × Defaulted c) m (λ k c q. q)
      (λ schema. requests-Blank c₀ m schema)

-- `connection_configure` returns however the libraries answer. If it succeeds, the configuration is the
-- same, the machine is in its first state, the SASL defaults are in memory and hold no password, every
-- slot of a read, write or search request is blank, their counts and the count of reconnections are 0, the type of the
-- directory is not known, and the queue is NULL or holds nothing, with room for all the slots. Otherwise
-- it returns the failure, and some library call gives NULL or an error.
pub configure-IsBlank : (c : Connection) → Returns (Configured c) (connection_configure c)
configure-IsBlank c =
    configure-Fine (SameSetup c) (Configured c) (setup-Stable c) (λ p f d q. q) (last-Blank c) c
      (refl, refl)

-- The events of a connection.
abbrev EventsAre : Owned (Unit {0}) → Owned (Unit {0}) → Connection → Type 0
EventsAre r w c = (c.read_event ≡ r) × (c.write_event ≡ w)

events-Stable : (r w : Owned (Unit {0})) → Stable (EventsAre r w) (λ _. EventsAre r w)
events-Stable r w = record {
  logged = λ k c q. q;
  defaulted = λ d c blank q. q;
  failed = λ f d c q r. q;
}

last-events :
    (r w : Owned (Unit {0})) (m : Ptr) (c : Connection)
    → (EventsAre r w c × Alive c) × Defaulted c
    → Returns (λ _. EventsAre r w) ((reset >> finish m) c)
unfolding set_requests finish
last-events r w m c ((q, _), _) =
    schema_new-then (λ _. EventsAre r w) (EventsAre r w) m (λ k c q. q)
      (λ schema c q. elim (Bool-cases (base_missing c)) [ inl e ↦ rw e q | inr e ↦ rw e q ]) c q

-- `connection_configure` keeps the fields of the read and the write event on every branch.
pub configure-events :
    (c : Connection) → Returns (λ _. EventsAre c.read_event c.write_event) (connection_configure c)
configure-events c =
    configure-Fine _ _ (events-Stable c.read_event c.write_event) (λ p f d q. q)
      (last-events c.read_event c.write_event) c (refl, refl)
