-- ===== src/RequestQueue/Simple.antt =====
-- What `request_queue_new`, `push`, `pop`, `peek` and `empty` do to the list that a queue holds.
use libdomain.Prelude.{
  ℕ, ◌+◌, ◌≤◌, ◌<◌, ◌^◌, ◌≡◌, refl, ◌≢◌, true, false, List, [], ◌∷◌, ◌++◌, arith, ◌==◌, update,
  update_self, update-ne, length, length-append, is_nil, Ptr, null, pos, int_of_uint,
}
use libdomain.RequestQueue.{
  Store, Queue, success, error_full, set_queue, set_prev, request_queue_new, request_queue_push,
  request_queue_pop, request_queue_peek, request_queue_empty,
}
use libdomain.RequestQueue.Chain.{
  has, Chain, IsTail, IsQueue, Chain-frame, Chain-append, IsTail-append, IsTail-IsTail,
  Chain-tail_ne, has-tail,
}

-- The predicate, given the value that the queue's address holds.
pub IsQueue-at :
    (s : Store) (q : Ptr) (cap : ℕ) (xs : List Ptr) (v : Queue)
    → s.queue q ≡ v
    → q ≢ null
    → Chain s.prev v.head xs
    → IsTail v.tail xs
    → v.size ≡ length xs
    → v.capacity ≡ pos cap
    → length xs ≤ cap
    → IsQueue s q cap xs
IsQueue-at s q cap xs v at ne chain ends size capacity bounded = record {
  not_null = ne;
  chain = rw at chain;
  ends = rw at ends;
  size = rw at size;
  capacity = rw at capacity;
  bounded = bounded;
}

-- A queue is not disturbed by a write to another queue or to another queue's nodes.
pub IsQueue-frame :
    {s : Store} (s' : Store) {q : Ptr} {cap : ℕ} (xs : List Ptr)
    → IsQueue s q cap xs
    → s'.queue q ≡ s.queue q
    → ((a : Ptr) → has a xs ≡ true → s'.prev a ≡ s.prev a)
    → IsQueue s' q cap xs
IsQueue-frame {s} s' {q} {cap} xs i same links =
    IsQueue-at s' q cap xs (s.queue q) same i.not_null
      (Chain-frame s.prev s'.prev _ xs i.chain links) i.ends i.size i.capacity i.bounded

-- A new queue is empty and has the capacity asked for, if that fits an `int`.
pub new-IsQueue :
    (fresh : Ptr) (cap : ℕ) (s : Store)
    → fresh ≢ null
    → cap < 2 ^ 31
    → IsQueue (request_queue_new fresh cap s).1 fresh cap []
unfolding request_queue_new
new-IsQueue fresh cap s ne small =
    let got : (fresh == null) ≡ false = ground arith in
    let fits : int_of_uint cap ≡ pos cap = ground arith in
    rw got
      (IsQueue-at _ fresh cap [] _ (update_self s.queue fresh _) ne refl tt refl fits (omega arith))

module _ {s : Store} {q : Ptr} {cap : ℕ} where
  push_empty-eq :
      (node : Ptr)
      → IsQueue s q cap []
      → node ≢ null
      → 0 < cap
      → request_queue_push q node s ≡ (
        success,
        set_queue
            (set_prev s node null)
            q
            (record { head = node; tail = node; size = 1; capacity = pos cap }),
      )
  unfolding request_queue_push
  push_empty-eq node i ne room = ground arith

  push_more-eq :
      (node x : Ptr) (xs : List Ptr)
      → IsQueue s q cap (x ∷ xs)
      → (s.queue q).tail ≢ null
      → node ≢ null
      → length (x ∷ xs) < cap
      → request_queue_push q node s ≡ (
        success,
        set_queue
            (set_prev (set_prev s node null) (s.queue q).tail node)
            q
            (record (s.queue q) { tail = node; size = (s.queue q).size + 1 }),
      )
  unfolding request_queue_push
  push_more-eq node x xs i tail ne room = ground arith

  push_empty :
      (node : Ptr)
      → IsQueue s q cap []
      → node ≢ null
      → 0 < cap
      → ((request_queue_push q node s).0 ≡ success)
        × IsQueue (request_queue_push q node s).1 q cap (node ∷ [])
  push_empty node i ne room = rw (push_empty-eq node i ne room) (
    refl,
    IsQueue-at _ q cap _ _ (update_self s.queue q _) i.not_null
        (refl, ne, refl, update_self s.prev node null) refl refl refl room,
  )

  push_more :
      (node x : Ptr) (xs : List Ptr)
      → IsQueue s q cap (x ∷ xs)
      → node ≢ null
      → has node (x ∷ xs) ≡ false
      → length (x ∷ xs) < cap
      → ((request_queue_push q node s).0 ≡ success)
        × IsQueue (request_queue_push q node s).1 q cap (x ∷ xs ++ node ∷ [])
  push_more node x xs i ne out room =
      let t = (s.queue q).tail in
      let cleared = update s.prev node null in
      let kept =
        Chain-frame s.prev cleared _ (x ∷ xs) i.chain
          (λ a h. update-ne s.prev node a null (λ e. cc)) in
      let joined =
        Chain-append cleared t _ node x xs (node ∷ []) kept i.ends
          (refl, ne, refl, update_self s.prev node null) (λ a h. ground arith) in
      rw (push_more-eq node x xs i (Chain-tail_ne _ _ t x xs i.chain i.ends) ne room) (
        refl,
        IsQueue-at _ q cap _ _ (update_self s.queue q _) i.not_null joined
            (IsTail-append node (x ∷ xs) node [] refl)
            (omega (arith, i.size, length-append {0} (x ∷ xs) (node ∷ []))) i.capacity
            (omega (arith, length-append {0} (x ∷ xs) (node ∷ []))),
      )

  -- On a full queue `request_queue_push` reports the overflow and changes nothing.
  pub push_full :
      (node : Ptr) {xs : List Ptr}
      → IsQueue s q cap xs
      → node ≢ null
      → length xs ≡ cap
      → request_queue_push q node s ≡ (error_full, s)
  unfolding request_queue_push
  push_full node i ne full = ground (arith, i.not_null, i.size, i.capacity)

  pop-eq :
      {x : Ptr} {xs : List Ptr}
      → IsQueue s q cap (x ∷ xs)
      → request_queue_pop q s
        ≡ (x, set_queue s q (record (s.queue q) { head = s.prev x; size = length xs }))
  unfolding request_queue_pop
  pop-eq {x} {xs} i = ground arith

  pub pop-cons :
      {x : Ptr} {xs : List Ptr}
      → IsQueue s q cap (x ∷ xs)
      → ((request_queue_pop q s).0 ≡ x) × IsQueue (request_queue_pop q s).1 q cap xs
  pop-cons {x} {xs} i =
      let (at, ne, out, rest) = i.chain in
      rw (pop-eq i) (
        refl,
        IsQueue-at _ q cap xs _ (update_self s.queue q _) i.not_null rest
            (IsTail-IsTail _ x xs i.ends) refl i.capacity (omega (arith, i.bounded)),
      )

  pub pop-nil : IsQueue s q cap [] → request_queue_pop q s ≡ (null, s)
  unfolding request_queue_pop
  pop-nil i = ground arith

  pub peek_lem :
      (xs : List Ptr) → IsQueue s q cap xs → request_queue_peek q s ≡ (request_queue_pop q s).0
  unfolding request_queue_peek request_queue_pop
  peek_lem [] i = ground arith
  peek_lem (x ∷ xs) i = ground arith

  pub empty_lem : (xs : List Ptr) → IsQueue s q cap xs → request_queue_empty q s ≡ is_nil xs
  unfolding request_queue_empty
  empty_lem [] i = ground arith
  empty_lem (x ∷ xs) i = ground arith

  -- Below its capacity, `request_queue_push` puts a new node behind the nodes that the queue holds.
  pub push-append :
      (node : Ptr) (xs : List Ptr)
      → IsQueue s q cap xs
      → node ≢ null
      → has node xs ≡ false
      → length xs < cap
      → ((request_queue_push q node s).0 ≡ success)
        × IsQueue (request_queue_push q node s).1 q cap (xs ++ node ∷ [])
  push-append node [] i ne out room = push_empty node i ne room
  push-append node (x ∷ xs) i ne out room = push_more node x xs i ne out room

  -- The state that a push makes, whether the queue was empty or not.
  pub push_changes :
      (node : Ptr) (xs : List Ptr)
      → IsQueue s q cap xs
      → node ≢ null
      → length xs < cap
      → (r a : Ptr) → r ≢ q
      → a ≢ node
      → has a xs ≡ false
      → ((request_queue_push q node s).1.queue r ≡ s.queue r)
        × ((request_queue_push q node s).1.prev a ≡ s.prev a)
  push_changes node [] i ne room r a other new out =
      rw (push_empty-eq node i ne room)
        (update-ne s.queue q r _ other, update-ne s.prev node a _ new)
  push_changes node (x ∷ xs) i ne room r a other new out =
      let t = (s.queue q).tail in
      let last = has-tail t x xs i.ends in
      rw (push_more-eq node x xs i (Chain-tail_ne _ _ t x xs i.chain i.ends) ne room)
        (update-ne s.queue q r _ other, ground (arith, last))
