-- ===== src/Connection/Waiting.antt =====
-- The invariant that ties the request array of a connection to its queue: the requests from place `k`
-- up to the count wait in the queue, in the order of their places. Between two runs of
-- `connection_on_read` k is 0.
use libdomain.Prelude.{
  ℕ, zero, suc, ◌+◌, ◌-◌, ◌≤◌, ◌<◌, ◌≡◌, refl, ap, ◌∙◌, ◌⊎◌, inl, inr, false, some, List, [], ◌∷◌,
  ◌++◌, arith, if◌then◌else◌, ltb, update, length, ℤ, Ptr,
}
use libdomain.Ldap.{Call}
use libdomain.RequestQueue.{request_queue_push}
use libdomain.RequestQueue.Chain.{has, IsQueue}
use libdomain.RequestQueue.Simple.{push-append}
use libdomain.Connection.{
  Connection, Handler, max_requests, node_of, enqueue_request, done, fault, log,
}

-- The nodes of `n` places from place `k` on.
abbrev pub nodes : ℕ → ℕ → List Ptr
nodes k zero = []
nodes k (suc n) = node_of k ∷ nodes (suc k) n

pub record Waiting (k : ℕ) (c : Connection) : Type 0 where
  pub from : k ≤ c.n_read_requests
  pub bound : c.n_read_requests ≤ max_requests
  pub queued : IsQueue c.store c.callqueue max_requests (nodes k (c.n_read_requests - k))

pub length-nodes : (k n : ℕ) → length (nodes k n) ≡ n
length-nodes k zero = refl
length-nodes k (suc n) = ap suc (length-nodes (suc k) n)

pub nodes-suc : (k n : ℕ) → nodes k (suc n) ≡ nodes k n ++ node_of (k + n) ∷ []
nodes-suc k zero = ap (λ i. node_of i ∷ []) (omega arith)
nodes-suc k (suc n) =
    ap (λ xs. node_of k ∷ xs)
      (nodes-suc (suc k) n ∙ ap (λ i. nodes (suc k) n ++ node_of i ∷ []) (omega arith))

pub not-has-nodes : (a k n : ℕ) → (a ≤ k) ⊎ (k + n < a) → has a (nodes k n) ≡ false
not-has-nodes a k zero h = refl
not-has-nodes a k (suc n) (inl h) = ground (arith, not-has-nodes a (suc k) n (inl (omega arith)))
not-has-nodes a k (suc n) (inr h) = ground (arith, not-has-nodes a (suc k) n (inr (omega arith)))

-- The connection after `enqueue_request`, within the array.
abbrev pub enqueued : ℤ → Handler → Connection → Connection
enqueued msgid handler c = record c {
  read_requests =
      update c.read_requests c.n_read_requests
        (record { msgid = msgid; on_read_operation = some handler });
  n_read_requests = c.n_read_requests + 1;
  store = (request_queue_push c.callqueue (node_of c.n_read_requests) c.store).1;
}

pub enqueue_request_lem :
    (msgid : ℤ) (handler : Handler) (c : Connection)
    → enqueue_request msgid handler c
      ≡ (if ltb c.n_read_requests max_requests then done tt (enqueued msgid handler c) else fault)
unfolding enqueue_request
enqueue_request_lem msgid handler c = ground arith

-- Within the array, a request that is enqueued waits behind those that waited before.
pub enqueued-Waiting :
    (k : ℕ) (msgid : ℤ) (handler : Handler) (c : Connection)
    → Waiting k c
    → c.n_read_requests < max_requests
    → Waiting k (enqueued msgid handler c)
enqueued-Waiting k msgid handler c w room =
    let n = c.n_read_requests in
    let d = n - k in
    let more : n + 1 - k ≡ suc d = omega (arith, w.from) in
    let last : k + d ≡ n = omega (arith, w.from) in
    let pushed =
      push-append (node_of n) (nodes k d) w.queued (omega arith)
        (not-has-nodes (node_of n) k d (inr (omega arith))) (omega (arith, length-nodes k d)) in
    record {
      from = omega (arith, w.from);
      bound = omega arith;
      queued = rw (more, nodes-suc k d, last) pushed.1;
    }

-- A library call alone changes nothing that the invariant reads.
pub Waiting-log : (k : ℕ) (call : Call) (c : Connection) → Waiting k c → Waiting k (log call c)
Waiting-log k call c w = record { from = w.from; bound = w.bound; queued = w.queued }
