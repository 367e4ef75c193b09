-- ===== src/Reading/Loop.antt =====
-- `connection_on_read` ends within its fuel and leaves a connection whose array of requests and queue
-- agree, from which the next event can be served.
use libdomain.Prelude.{
  ℕ, zero, suc, ◌-◌, ◌≤◌, ◌<◌, ◌==◌, ◌≡◌, refl, ap, Option, none, some, List, ◌∷◌, length, arith,
  is_nil,
}
use libdomain.RequestQueue.{request_queue_pop}
use libdomain.RequestQueue.Chain.{IsQueue}
use libdomain.RequestQueue.Simple.{pop-cons}
use libdomain.Connection.{Connection, Request, max_requests, node_of}
use libdomain.Connection.Waiting.{Waiting, nodes}
use libdomain.Reading.Keeps.{Keeps}

-- What the loop leaves: nothing in the queue, and no more requests without a reply than there were
-- requests; or, after the jump to `error_exit`, the requests that were not taken out yet.
abbrev pub Left : Option (List Request) → Connection → Type 0
Left none c = (j : ℕ) × Waiting j c
Left (some pending) c = Waiting c.n_read_requests c × (length pending ≤ c.n_read_requests)

pub is_nil-nodes : (k n : ℕ) → is_nil (nodes k n) ≡ (n == 0)
is_nil-nodes k zero = refl
is_nil-nodes k (suc n) = ground arith

pub here :
    (k : ℕ) (c : Connection) → Waiting k c → c.n_read_requests ≡ k → Waiting c.n_read_requests c
here k c w e =
    let n = c.n_read_requests in
    let same : nodes n (n - n) ≡ nodes k (n - k) = ap (λ j. nodes j (n - j)) e in
    record { from = omega arith; bound = w.bound; queued = rw same w.queued }

-- The next request that waits is the one at place `k`.
pub pop-Waiting :
    (k : ℕ) (c : Connection)
    → Waiting k c
    → k < c.n_read_requests
    → ((request_queue_pop c.callqueue c.store).0 ≡ node_of k)
      × Waiting (suc k) (record c { store = (request_queue_pop c.callqueue c.store).1 })
pop-Waiting k c w more =
    let n = c.n_read_requests in
    let split : n - k ≡ suc (n - suc k) = omega arith in
    let queue : IsQueue c.store c.callqueue max_requests (node_of k ∷ nodes (suc k) (n - suc k)) =
      rw split at w.queued in
    let (top, rest) = pop-cons queue in
    (top, record { from = omega arith; bound = w.bound; queued = rest })
