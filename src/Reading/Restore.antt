-- ===== src/Reading/Restore.antt =====
-- The lines of `connection_on_read` behind the loop: the requests without a reply wait again.
use libdomain.Prelude.{
  ℕ, zero, suc, ◌+◌, ◌-◌, ◌≤◌, ◌<◌, ◌≡◌, refl, ◌∙◌, sym, ap, inr, Option, none, some, List, [], ◌∷◌,
  ◌++◌, update, update_self, length, arith,
}
use libdomain.RequestQueue.{request_queue_push}
use libdomain.RequestQueue.Chain.{IsQueue}
use libdomain.RequestQueue.Simple.{push-append}
use libdomain.Connection.{Connection, Request, get, put, max_requests, node_of, ◌>>=◌}
use libdomain.Connection.Ends.{Returns, Returns-bind, Returns-weaken}
use libdomain.Connection.Waiting.{Waiting, nodes, length-nodes, nodes-suc, not-has-nodes}
use libdomain.Reading.{requeue, restore}

-- The element at a place of a list.
abbrev pub at : {A : Type 0} → List A → ℕ → Option A
at [] j = none
at (x ∷ xs) zero = some x
at (x ∷ xs) (suc j) = at xs j

-- The `for` loop from place `i` on: the requests take their places and wait in that order behind those
-- of the places before.
record Requeued (pending : List Request) (i : ℕ) (c c' : Connection) : Type 0 where
  queued : IsQueue c'.store c'.callqueue max_requests (nodes 0 (i + length pending))
  before : (j : ℕ) → j < i → c'.read_requests j ≡ c.read_requests j
  placed : (j : ℕ) (r : Request) → at pending j ≡ some r → c'.read_requests (i + j) ≡ r

requeue-nodes :
    (pending : List Request) (i : ℕ) (c : Connection)
    → IsQueue c.store c.callqueue max_requests (nodes 0 i)
    → i + length pending ≤ max_requests
    → Returns (λ _. Requeued pending i c) (requeue pending i c)
unfolding requeue
requeue-nodes [] i c q room =
    let e : i + 0 ≡ i = omega arith in
    record { queued = rw e q; before = λ j lt. refl; placed = λ j r h. cc }
requeue-nodes (r ∷ rest) i c q room =
    let c₁ = record c {
      read_requests = update c.read_requests i r;
      store = (request_queue_push c.callqueue (node_of i) c.store).1;
    } in
    let full : length (nodes 0 i) ≡ i = length-nodes 0 i in
    let out = not-has-nodes (node_of i) 0 i (inr (omega arith)) in
    let pushed =
      (push-append (node_of i) (nodes 0 i) q (omega arith) out (omega (arith, full))).1 in
    let next : i + 1 ≡ suc i = omega arith in
    let zero_plus : 0 + i ≡ i = omega arith in
    let one_more : nodes 0 (i + 1) ≡ nodes 0 i ++ node_of i ∷ [] =
      ap (nodes 0) next ∙ nodes-suc 0 i ∙ ap (λ m. nodes 0 i ++ node_of m ∷ []) zero_plus in
    let sum : i + suc (length rest) ≡ i + 1 + length rest = omega arith in
    Returns-weaken _ _ (requeue rest (i + 1) c₁)
      (requeue-nodes rest (i + 1) c₁ (rw one_more pushed) (omega arith))
      (λ _ c' d. record {
        queued = rw sum d.queued;
        before = λ j lt. d.before j (omega arith) ∙ ground arith;
        placed = placed d;
      })
  where
    placed :
        {c' : Connection}
        → Requeued rest
            (i + 1)
            (record c {
              read_requests = update c.read_requests i r;
              store = (request_queue_push c.callqueue (node_of i) c.store).1;
            })
            c'
        → (j : ℕ) (r' : Request) → at (r ∷ rest) j ≡ some r'
        → c'.read_requests (i + j) ≡ r'
    placed {c'} d zero r' h =
        let e : i + 0 ≡ i = omega arith in
        let same : r ≡ r' = cc in
        rw e (d.before i (omega arith) ∙ update_self c.read_requests i r ∙ same)
    placed {c'} d (suc j) r' h =
        let e : i + suc j ≡ i + 1 + j = omega arith in rw e (d.placed j r' h)

-- The lines behind the loop, on a connection whose requests have all been taken out: the requests
-- without a reply take the first places, in their order, and wait.
pub record Restored (pending : List Request) (c' : Connection) : Type 0 where
  pub waits : Waiting 0 c'
  pub count : c'.n_read_requests ≡ length pending
  pub places : (j : ℕ) (r : Request) → at pending j ≡ some r → c'.read_requests j ≡ r

pub restore-Restored :
    (pending : List Request) (c : Connection)
    → Waiting c.n_read_requests c
    → length pending ≤ c.n_read_requests
    → Returns (λ _. Restored pending) (restore pending c)
restore-Restored pending c w few =
    let n = c.n_read_requests in
    let c₁ = record c { n_read_requests = 0 } in
    let none_out : 0 ≡ n - n = omega arith in
    let nothing : nodes 0 0 ≡ nodes n (n - n) = ap (nodes n) none_out in
    Returns-bind (λ _. Requeued pending 0 c₁) (λ _. Restored pending) (requeue pending 0 c₁)
      (λ _. get >>= λ d. put (record d { n_read_requests = length pending }))
      (requeue-nodes pending 0 c₁ (rw nothing w.queued) (omega (arith, w.bound)))
      (λ _ c₂ r.
        let sum : 0 + length pending ≡ length pending - 0 = omega arith in
        record {
          waits = record {
            from = omega arith;
            bound = omega (arith, w.bound);
            queued = rw (sym sum) r.queued;
          };
          count = refl;
          places = λ j r' h.
              let e : 0 + j ≡ j = omega arith in ap c₂.read_requests (sym e) ∙ r.placed j r' h;
        })
