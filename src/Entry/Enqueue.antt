-- ===== src/Entry/Enqueue.antt =====
-- What the functions of src/entry.c that send a request, and `directory_get_type`, do on every branch:
-- one statement for all of them, over the requests as data.
use libdomain.Prelude.{
  ℕ, zero, suc, ◌+◌, ◌<◌, ◌≤◌, ◌≡◌, refl, ◌≢◌, Bool, true, false, List, [], ◌∷◌, arith,
  if◌then◌else◌, ltb, Bool-cases, inl, inr, update_self, update-ne, CString, codes, some,
}
use libdomain.Ldap.{
  LdapMod, Call, call_add, call_modify, call_delete, call_rename, call_whoami, call_search,
  is_success, Answer,
}
use libdomain.Connection.{
  Connection, ReturnCode, rc_success, rc_failure, Handler, add_handler, modify_handler,
  delete_handler, rename_handler, whoami_handler, directory_handler, M, done, fault, log,
  max_requests, enqueue_request, perform, pure, ◌>>=◌, ◌>>◌,
}
use libdomain.Connection.Ends.{Returns, Returns-weaken}
use libdomain.Connection.Bind.{is_rc_success}
use libdomain.Connection.Waiting.{
  Waiting, Waiting-log, enqueued, enqueue_request_lem, enqueued-Waiting,
}
use libdomain.Entry.{add, modify, ld_delete, ld_rename, whoami, directory_get_type}

pub data Sending : Type 0 where
  sending_add sending_modify : CString → List LdapMod → Sending
  sending_delete : CString → Sending
  sending_rename : (olddn newdn new_parent : CString) → Bool → Sending
  sending_whoami sending_directory : Sending

-- The function of the code, the library call that it makes, and the handler that it leaves.
unfoldable pub send : Sending → M ReturnCode
send (sending_add dn attrs) = add dn attrs
send (sending_modify dn attrs) = modify dn attrs
send (sending_delete dn) = ld_delete dn
send (sending_rename olddn newdn parent del) = ld_rename olddn newdn parent del
send sending_whoami = whoami
send sending_directory = directory_get_type

abbrev pub call_of : Sending → Call
call_of (sending_add dn attrs) = call_add dn attrs
call_of (sending_modify dn attrs) = call_modify dn attrs
call_of (sending_delete dn) = call_delete dn
call_of (sending_rename olddn newdn parent del) = call_rename olddn newdn parent del
call_of sending_whoami = call_whoami
call_of sending_directory = call_search [] (codes "(objectClass=*)") (codes "*" ∷ [])

abbrev pub handler_of : Sending → Handler
handler_of (sending_add dn attrs) = add_handler
handler_of (sending_modify dn attrs) = modify_handler
handler_of (sending_delete dn) = delete_handler
handler_of (sending_rename olddn newdn parent del) = rename_handler
handler_of sending_whoami = whoami_handler
handler_of sending_directory = directory_handler

-- The library's answer to the call of a request.
abbrev pub answer_to : Sending → Connection → Answer
answer_to o c = c.world (call_of o ∷ c.trace)

-- The shape that the functions share.
abbrev request_with : Call → Handler → M ReturnCode
request_with k h = do
  a ← perform k
  if is_success a.code then (do enqueue_request a.msgid h; pure rc_success) else pure rc_failure

request_with-eq :
    (k : Call) (h : Handler) (c : Connection)
    → let a = c.world (k ∷ c.trace) in
      request_with k h c ≡ (
        if is_success a.code
        then (if ltb c.n_read_requests max_requests
            then done rc_success (enqueued a.msgid h (log k c))
            else fault)
        else done rc_failure (log k c))
request_with-eq k h c = elim (Bool-cases (is_success (c.world (k ∷ c.trace)).code)) [
  | inl sent ↦ rw sent (rw enqueue_request_lem (ground arith))
  | inr refused ↦ rw refused
]

-- The outcome of each of the functions, by the library's answer and the room in the array.
pub send_lem :
    (o : Sending) (c : Connection)
    → send o c ≡ (
        if is_success (answer_to o c).code
        then (if ltb c.n_read_requests max_requests
            then done rc_success (enqueued (answer_to o c).msgid (handler_of o) (log (call_of o) c))
            else fault)
        else done rc_failure (log (call_of o) c))
unfolding send add modify ld_delete ld_rename whoami directory_get_type
send_lem (sending_add dn attrs) c = request_with-eq (call_add dn attrs) add_handler c
send_lem (sending_modify dn attrs) c = request_with-eq (call_modify dn attrs) modify_handler c
send_lem (sending_delete dn) c = request_with-eq (call_delete dn) delete_handler c
send_lem (sending_rename olddn newdn parent del) c =
    request_with-eq (call_rename olddn newdn parent del) rename_handler c
send_lem sending_whoami c = request_with-eq call_whoami whoami_handler c
send_lem sending_directory c = request_with-eq (call_of sending_directory) directory_handler c

-- What a request function promises: the call is made; if the library refuses, nothing else changes
-- and the result is a failure; if it accepts, the result is a success, and one more request waits,
-- behind those that waited, with the library's message id and the handler of the operation.
pub record Sent (o : Sending) (k : ℕ) (c c' : Connection) (rc : ReturnCode) : Type 0 where
  pub traced : c'.trace ≡ call_of o ∷ c.trace
  pub waiting : Waiting k c'
  pub refused :
      is_success (answer_to o c).code ≡ false → (rc ≡ rc_failure) × (c' ≡ log (call_of o) c)
  pub accepted :
      is_success (answer_to o c).code ≡ true
      → (rc ≡ rc_success)
        × (c'.n_read_requests ≡ c.n_read_requests + 1)
        × (c'.read_requests c.n_read_requests
            ≡ record { msgid = (answer_to o c).msgid; on_read_operation = some (handler_of o) })
  pub kept : (i : ℕ) → i ≢ c.n_read_requests → c'.read_requests i ≡ c.read_requests i

-- With room in the array, each of the functions `add`, `modify`, `ld_delete`, `ld_rename`, `whoami` and
-- `directory_get_type` returns, after one call of the library.
-- When the library refuses the request, the result is a failure and nothing else changes. When it
-- accepts, the result is a success and one more request waits, last in the array, with the message id
-- that the library gave and the handler of the operation; the other slots keep their requests, and
-- the queue stays tied to the array.
pub send-Sent :
    (o : Sending) (k : ℕ) (c : Connection)
    → Waiting k c
    → c.n_read_requests < max_requests
    → (rc : ReturnCode) × (c' : Connection) × (send o c ≡ done rc c') × Sent o k c c' rc
send-Sent o k c w room = elim (Bool-cases (is_success (answer_to o c).code)) [
  | inl yes' ↦ (
    rc_success,
    enqueued (answer_to o c).msgid (handler_of o) (log (call_of o) c),
    rw send_lem (ground arith),
    record {
      traced = refl;
      waiting = enqueued-Waiting k _ _ (log (call_of o) c) (Waiting-log k _ c w) room;
      refused = λ r. cc;
      accepted = λ _. (refl, refl, update_self c.read_requests c.n_read_requests _);
      kept = λ i ne. update-ne c.read_requests c.n_read_requests i _ ne;
    },
  )
  | inr no' ↦ (
    rc_failure,
    log (call_of o) c,
    rw send_lem (ground arith),
    record {
      traced = refl;
      waiting = Waiting-log k _ c w;
      refused = λ _. (refl, refl);
      accepted = λ a. cc;
      kept = λ i ne. refl;
    },
  )
]

-- The library accepts every call.
abbrev pub AcceptsAll : Connection → Type 0
AcceptsAll c = (t : List Call) → is_success (c.world t).code ≡ true

-- `n` times the same request, up to the first failure.
unfoldable pub send_times : ℕ → Sending → M ReturnCode
send_times zero o = pure rc_success
send_times (suc n) o = do rc ← send o; if is_rc_success rc then send_times n o else pure rc

-- All requests of a run were sent.
abbrev pub AllSent : Sending → ℕ → Connection → ReturnCode → Connection → Type 0
AllSent o n c rc c' = (rc ≡ rc_success) × (c'.n_read_requests ≡ c.n_read_requests + n)

send_times-fits :
    (o : Sending) (n : ℕ) (c : Connection)
    → AcceptsAll c
    → c.n_read_requests + n ≤ max_requests
    → Returns (AllSent o n c) (send_times n o c)
unfolding send_times
send_times-fits o zero c yes' fits = (refl, omega arith)
send_times-fits o (suc n) c yes' fits =
    let c' = enqueued (answer_to o c).msgid (handler_of o) (log (call_of o) c) in
    let room : ltb c.n_read_requests max_requests ≡ true = ground (arith, fits) in
    rw (send_lem o c) (
      rw (yes' (call_of o ∷ c.trace), room)
        (Returns-weaken (AllSent o n c') (AllSent o (suc n) c) (send_times n o c')
          (send_times-fits o n c' yes' (omega (arith, fits)))
          (λ rc d (r, e). (r, omega (arith, e)))))

send_times-full :
    (o : Sending) (d : ℕ) (c : Connection)
    → AcceptsAll c
    → c.n_read_requests + d ≡ max_requests
    → send_times (suc d) o c ≡ fault
unfolding send_times
send_times-full o zero c yes' full = rw send_lem (rw (yes' (call_of o ∷ c.trace)) (ground arith))
send_times-full o (suc d) c yes' left =
    let c' = enqueued (answer_to o c).msgid (handler_of o) (log (call_of o) c) in
    let room : ltb c.n_read_requests max_requests ≡ true = ground arith in
    rw (send_lem o c)
      (rw (yes' (call_of o ∷ c.trace), room) (send_times-full o d c' yes' (omega arith)))

-- When the library accepts every call and `d` slots of the array are left, sending `n` requests with one of
-- the functions `add`, `modify`, `ld_delete`, `ld_rename`, `whoami` and `directory_get_type` succeeds, and
-- adds `n` to the count, as long as `n` is at most `d`; sending one more than `d` writes outside the array.
-- On an idle connection `d` is `max_requests`.
pub send_times-overflow :
    (o : Sending) (d : ℕ) (c : Connection)
    → AcceptsAll c
    → c.n_read_requests + d ≡ max_requests
    → ((n : ℕ) → n ≤ d → Returns (AllSent o n c) (send_times n o c))
      × (send_times (suc d) o c ≡ fault)
send_times-overflow o d c yes' left = (
  (λ n few. send_times-fits o n c yes' (omega (arith, few, left))),
  send_times-full o d c yes' left,
)
