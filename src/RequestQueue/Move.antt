-- ===== src/RequestQueue/Move.antt =====
-- What `request_queue_move` does to the two lists, on every branch, and to a queue moved onto itself.
use libdomain.Prelude.{
  ℕ, ◌+◌, ◌≤◌, ◌<◌, ◌≡◌, refl, ◌≢◌, ◌⊎◌, inl, inr, is_nil, if◌then◌else◌, List, [], ◌∷◌, ◌++◌,
  arith, length, length-append, Ptr, null,
}
use libdomain.RequestQueue.{
  Store, success, error_full, error_fault, link, reset, request_queue_move,
}
use libdomain.RequestQueue.Chain.{Apart, IsQueue, Chain-append, IsTail-append, Chain-tail_ne}
use libdomain.RequestQueue.Simple.{IsQueue-at}

module _ {s : Store} {from to : Ptr} {cf ct : ℕ} where
  -- The state after `link`, by the two branches.
  move-eq :
      {x : Ptr} {xs ys : List Ptr}
      → IsQueue s from cf (x ∷ xs)
      → IsQueue s to ct ys
      → (s.queue from).tail ≢ null
      → ((s.queue to).size ≢ 0 → (s.queue to).tail ≢ null)
      → length ys + length (x ∷ xs) ≤ ct
      → request_queue_move from to s ≡ (success, reset from (link from to s))
  unfolding request_queue_move
  move-eq i j ft tt' room = ground (arith, i.not_null, j.not_null)

  move_empty :
      (x : Ptr) (xs : List Ptr)
      → from ≢ to
      → IsQueue s from cf (x ∷ xs)
      → IsQueue s to ct []
      → length (x ∷ xs) ≤ ct
      → IsQueue (reset from (link from to s)) to ct (x ∷ xs)
        × IsQueue (reset from (link from to s)) from cf []
  unfolding link reset
  move_empty x xs ne i j room = (
    IsQueue-at _ to ct (x ∷ xs)
        (record (s.queue to) {
          head = (s.queue from).head;
          tail = (s.queue from).tail;
          size = (s.queue from).size;
        })
        (ground arith) j.not_null (ground arith) i.ends i.size j.capacity room,
    IsQueue-at _ from cf [] (record (s.queue from) { head = null; tail = null; size = 0 })
        (ground arith) i.not_null refl tt refl i.capacity (omega arith),
  )

  move_more :
      (x y : Ptr) (xs ys : List Ptr)
      → from ≢ to
      → IsQueue s from cf (x ∷ xs)
      → IsQueue s to ct (y ∷ ys)
      → Apart (y ∷ ys) (x ∷ xs)
      → length (y ∷ ys) + length (x ∷ xs) ≤ ct
      → IsQueue (reset from (link from to s)) to ct (y ∷ ys ++ x ∷ xs)
        × IsQueue (reset from (link from to s)) from cf []
  unfolding link reset
  move_more x y xs ys ne i j apart room =
      let t = (s.queue to).tail in
      let joined =
        Chain-append s.prev t _ (s.queue from).head y ys (x ∷ xs) j.chain j.ends i.chain apart in
      (
        IsQueue-at _ to ct (y ∷ ys ++ x ∷ xs)
            (record (s.queue to) {
              tail = (s.queue from).tail;
              size = (s.queue to).size + (s.queue from).size;
            })
            (ground arith) j.not_null (ground (arith, joined))
            (IsTail-append _ (y ∷ ys) x xs i.ends)
            (omega (arith, i.size, j.size, length-append {0} (y ∷ ys) (x ∷ xs))) j.capacity
            (omega (arith, length-append {0} (y ∷ ys) (x ∷ xs))),
        IsQueue-at _ from cf [] (record (s.queue from) { head = null; tail = null; size = 0 })
            (ground arith) i.not_null refl tt refl i.capacity (omega arith),
      )

  -- Given two different queues that share no node, of which the first is not empty, and room for
  -- both lists within the capacity of the second, `request_queue_move` succeeds, puts the nodes of
  -- the first queue behind those of the second in their order, and leaves the first queue empty.
  pub move-append :
      (x : Ptr) (xs ys : List Ptr)
      → from ≢ to
      → IsQueue s from cf (x ∷ xs)
      → IsQueue s to ct ys
      → Apart ys (x ∷ xs)
      → length ys + length (x ∷ xs) ≤ ct
      → ((request_queue_move from to s).0 ≡ success)
        × IsQueue (request_queue_move from to s).1 to ct (ys ++ x ∷ xs)
        × IsQueue (request_queue_move from to s).1 from cf []
  move-append x xs [] ne i j apart room =
      let (done, emptied) = move_empty x xs ne i j (omega arith) in
      let tail = Chain-tail_ne _ _ _ x xs i.chain i.ends in
      rw (move-eq i j tail (λ n. absurd (n j.size)) room) (refl, done, emptied)
  move-append x xs (y ∷ ys) ne i j apart room =
      let (done, emptied) = move_more x y xs ys ne i j apart room in
      let tail = Chain-tail_ne _ _ _ x xs i.chain i.ends in
      let tail' = Chain-tail_ne _ _ _ y ys j.chain j.ends in
      rw (move-eq i j tail (λ _. tail') room) (refl, done, emptied)

  -- When the two lists together exceed the capacity of the second queue, or when the first queue is
  -- empty, `request_queue_move` changes nothing: it reports the overflow in the first case and a
  -- fault in the second.
  pub move_refused :
      (xs ys : List Ptr)
      → IsQueue s from cf xs
      → IsQueue s to ct ys
      → (xs ≡ []) ⊎ (ct < length ys + length xs)
      → request_queue_move from to s ≡ (if is_nil xs then error_fault else error_full, s)
  unfolding request_queue_move
  move_refused [] ys i j h = ground (arith, i.not_null, j.not_null)
  move_refused (x ∷ xs) ys i j (inl e) = cc
  move_refused (x ∷ xs) [] i j (inr h) =
      ground (arith, i.not_null, j.not_null, Chain-tail_ne _ _ _ x xs i.chain i.ends)
  move_refused (x ∷ xs) (y ∷ ys) i j (inr h) = ground (
    arith,
    i.not_null,
    j.not_null,
    Chain-tail_ne _ _ _ x xs i.chain i.ends,
    Chain-tail_ne _ _ _ y ys j.chain j.ends,
  )

module _ {s : Store} {q : Ptr} {cap : ℕ} where
  -- A queue that holds at most half its capacity and is moved to itself succeeds and loses every
  -- node that it held.
  pub move_self :
      (x : Ptr) (xs : List Ptr)
      → IsQueue s q cap (x ∷ xs)
      → length (x ∷ xs) + length (x ∷ xs) ≤ cap
      → ((request_queue_move q q s).0 ≡ success) × IsQueue (request_queue_move q q s).1 q cap []
  unfolding link reset
  move_self x xs i room =
      let tail = Chain-tail_ne _ _ _ x xs i.chain i.ends in
      rw (move-eq i i tail (λ _. tail) room) (
        refl,
        IsQueue-at _ q cap [] (record (s.queue q) { head = null; tail = null; size = 0 })
            (ground arith) i.not_null refl tt refl i.capacity (omega arith),
      )
