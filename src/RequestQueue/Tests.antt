-- ===== src/RequestQueue/Tests.antt =====
-- A run of the queue, and the theorems at concrete queues.
use libdomain.Prelude.{◌≡◌, refl, true, List, [], ◌∷◌, arith, null, pos, inl}
use libdomain.RequestQueue.{
  Store, QueueCode, success, error_full, error_fault, error_invalid_parameter, request_queue_new,
  request_queue_push, request_queue_pop, request_queue_move, request_queue_empty,
}
use libdomain.RequestQueue.Chain.{IsQueue}
use libdomain.RequestQueue.Simple.{new-IsQueue, push-append}
use libdomain.RequestQueue.Move.{move-append, move_refused, move_self}
use libdomain.RequestQueue.Fifo.{
  Op, push, pop, peek, is_empty, code, node, answer, run, spec_run, run-spec,
}

abbrev blank : Store
blank = record {
  queue = λ _. record { head = null; tail = null; size = 0; capacity = pos 0 };
  prev = λ _. null;
}

-- Memory with an empty queue of capacity 2 at address 5, and one of capacity 3 at address 6.
abbrev start : Store
start = (request_queue_new 6 3 (request_queue_new 5 2 blank).1).1

start-IsQueue : IsQueue start 5 2 []
unfolding request_queue_new
start-IsQueue = record {
  not_null = omega arith;
  chain = refl;
  ends = tt;
  size = refl;
  capacity = refl;
  bounded = omega arith;
}

start-IsQueue' : IsQueue start 6 3 []
start-IsQueue' = new-IsQueue 6 3 _ (omega arith) (omega arith)

abbrev ops : List Op
ops = push 10 ∷ push 11 ∷ push 12 ∷ pop ∷ peek ∷ push 12 ∷ pop ∷ pop ∷ pop ∷ is_empty ∷ []

ops_answers :
    (run 5 ops start).0
    ≡ code success
      ∷ code success
      ∷ code error_full
      ∷ node 10
      ∷ node 11
      ∷ code success
      ∷ node 11
      ∷ node 12
      ∷ node null
      ∷ answer true
      ∷ []
unfolding run request_queue_new request_queue_push request_queue_pop request_queue_empty
    libdomain.RequestQueue.request_queue_peek
ops_answers = refl

run-spec_example :
    ((run 5 ops start).0 ≡ (spec_run 2 ops []).0) × IsQueue (run 5 ops start).1 5 2 []
run-spec_example = run-spec ops [] start-IsQueue (
  (omega arith, refl),
  (
    (omega arith, refl),
    ((omega arith, refl), (tt, (tt, ((omega arith, refl), (tt, (tt, (tt, (tt, tt)))))))),
  ),
)

-- 10 and 11 wait in the queue at 5.
abbrev two : Store
two = (request_queue_push 5 11 (request_queue_push 5 10 start).1).1

two-IsQueue : IsQueue two 5 2 (10 ∷ 11 ∷ [])
two-IsQueue =
    let one = (push-append 10 [] start-IsQueue (omega arith) refl (omega arith)).1 in
    (push-append 11 (10 ∷ []) one (omega arith) refl (omega arith)).1

two-IsQueue' : IsQueue two 6 3 []
unfolding request_queue_push request_queue_new
two-IsQueue' = record {
  not_null = omega arith;
  chain = refl;
  ends = tt;
  size = refl;
  capacity = refl;
  bounded = omega arith;
}

move-append_example :
    ((request_queue_move 5 6 two).0 ≡ success)
    × IsQueue (request_queue_move 5 6 two).1 6 3 (10 ∷ 11 ∷ [])
    × IsQueue (request_queue_move 5 6 two).1 5 2 []
move-append_example =
    move-append 10 (11 ∷ []) [] (omega arith) two-IsQueue two-IsQueue' (λ a h. cc) (omega arith)

move_empty : request_queue_move 6 5 two ≡ (error_fault, two)
move_empty = move_refused [] (10 ∷ 11 ∷ []) two-IsQueue' two-IsQueue (inl refl)

-- 10 alone waits in the queue at 5.
abbrev one : Store
one = (request_queue_push 5 10 start).1

move_self_example :
    ((request_queue_move 5 5 one).0 ≡ success) × IsQueue (request_queue_move 5 5 one).1 5 2 []
move_self_example =
    move_self 10 [] (push-append 10 [] start-IsQueue (omega arith) refl (omega arith)).1
      (omega arith)
