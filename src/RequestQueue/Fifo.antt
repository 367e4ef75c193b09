-- ===== src/RequestQueue/Fifo.antt =====
-- The contract of the queue: a list of nodes, first in first out, within a capacity. `run` calls the
-- operations on memory, `spec` answers from the list alone.
use libdomain.Prelude.{
  ℕ, ◌≡◌, refl, ap, ◌∙◌, ◌≢◌, inl, inr, Bool, false, List, [], ◌∷◌, ◌++◌, arith, ltb, if◌then◌else◌,
  length, is_nil, Bool-cases, Ptr, null,
}
use libdomain.RequestQueue.{
  Store, QueueCode, success, error_full, request_queue_push, request_queue_pop, request_queue_peek,
  request_queue_empty,
}
use libdomain.RequestQueue.Chain.{has, IsQueue}
use libdomain.RequestQueue.Simple.{push-append, push_full, pop-cons, pop-nil, peek_lem, empty_lem}

pub data Op : Type 0 where
  push : Ptr → Op
  pop peek is_empty : Op

pub data Reply : Type 0 where
  code : QueueCode → Reply
  node : Ptr → Reply
  answer : Bool → Reply

-- One call on the queue at `q`.
unfoldable pub call : Ptr → Op → Store → Reply × Store
call q (push n) s = let (c, s') = request_queue_push q n s in (code c, s')
call q pop s = let (n, s') = request_queue_pop q s in (node n, s')
call q peek s = (node (request_queue_peek q s), s)
call q is_empty s = (answer (request_queue_empty q s), s)

unfoldable pub run : Ptr → List Op → Store → List Reply × Store
unfolding call
run q [] s = ([], s)
run q (o ∷ os) s = let (r, s') = call q o s in let (rs, s'') = run q os s' in (r ∷ rs, s'')

abbrev pub first : List Ptr → Ptr
first [] = null
first (x ∷ _) = x

abbrev pub rest : List Ptr → List Ptr
rest [] = []
rest (_ ∷ xs) = xs

-- The contract of one call, on the list of the nodes.
abbrev pub spec : ℕ → Op → List Ptr → Reply × List Ptr
spec cap (push n) xs =
    if ltb (length xs) cap then (code success, xs ++ n ∷ []) else (code error_full, xs)
spec cap pop xs = (node (first xs), rest xs)
spec cap peek xs = (node (first xs), xs)
spec cap is_empty xs = (answer (is_nil xs), xs)

abbrev pub spec_run : ℕ → List Op → List Ptr → List Reply × List Ptr
spec_run cap [] xs = ([], xs)
spec_run cap (o ∷ os) xs =
    let (r, ys) = spec cap o xs in let (rs, zs) = spec_run cap os ys in (r ∷ rs, zs)

-- The caller pushes no NULL, and no node that the queue holds.
abbrev pub Allowed : Op → List Ptr → Type 0
Allowed (push n) xs = (n ≢ null) × (has n xs ≡ false)
Allowed _ xs = Unit

abbrev pub AllAllowed : ℕ → List Op → List Ptr → Type 0
AllAllowed cap [] xs = Unit
AllAllowed cap (o ∷ os) xs = Allowed o xs × AllAllowed cap os (spec cap o xs).1

call-spec :
    {s : Store} {q : Ptr} {cap : ℕ} (o : Op) (xs : List Ptr)
    → IsQueue s q cap xs
    → Allowed o xs
    → ((call q o s).0 ≡ (spec cap o xs).0) × IsQueue (call q o s).1 q cap (spec cap o xs).1
unfolding call
call-spec {s} {q} {cap} (push n) xs i (ne, out) = elim (Bool-cases (ltb (length xs) cap)) [
  | inl room ↦
      let (done, held) = push-append n xs i ne out (ground arith) in rw room (ap code done, held)
  | inr full ↦ rw (full, push_full n i ne (ground (arith, i.bounded))) (refl, i)
]
call-spec pop [] i h = rw (pop-nil i) (refl, i)
call-spec pop (x ∷ xs) i h = let (got, held) = pop-cons i in (ap node got, held)
call-spec peek [] i h = (ap node (peek_lem [] i ∙ ap (λ (r : Ptr × Store). r.0) (pop-nil i)), i)
call-spec peek (x ∷ xs) i h = (ap node (peek_lem (x ∷ xs) i ∙ (pop-cons i).0), i)
call-spec is_empty xs i h = (ap answer (empty_lem xs i), i)

-- Any sequence of pushes, pops, peeks and emptiness tests on a queue answers as the bounded list
-- does, and leaves the queue holding that list, if the calls push no NULL and no node twice.
pub run-spec :
    {s : Store} {q : Ptr} {cap : ℕ} (os : List Op) (xs : List Ptr)
    → IsQueue s q cap xs
    → AllAllowed cap os xs
    → ((run q os s).0 ≡ (spec_run cap os xs).0)
      × IsQueue (run q os s).1 q cap (spec_run cap os xs).1
unfolding run
run-spec [] xs i h = (refl, i)
run-spec {s} {q} {cap} (o ∷ os) xs i (h, hs) =
    let (same, held) = call-spec o xs i h in
    let (sames, helds) = run-spec {s = (call q o s).1} os (spec cap o xs).1 held hs in
    (λ i. same i ∷ sames i, helds)
