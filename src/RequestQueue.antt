-- ===== src/RequestQueue.antt =====
-- src/request_queue.c and src/request_queue.h: the bounded intrusive FIFO of pending requests.
-- Queues and nodes live in memory, so that two queue pointers may be the same queue.
pub mod Chain
pub mod Simple
pub mod Move
pub mod Fifo
mod Tests
use libdomain.Prelude.{
  ℕ, ◌+◌, ◌-◌, Bool, true, false, ◌&&◌, ◌||◌, not, ◌==◌, ltb, if◌then◌else◌, update, Ptr, null, ℤ,
  pos, int_of_uint, reaches, exceeds,
}

-- `struct request_queue`. `size` only grows below `capacity` and only falls above 0, so it is a
-- natural number; `capacity` is the `int` that an `unsigned int` was stored into.
pub record Queue : Type 0 where
  pub head : Ptr
  pub tail : Ptr
  pub size : ℕ
  pub capacity : ℤ

-- `enum RequestQueueErrorCode`
pub data QueueCode : Type 0 where
  success error_full error_invalid_parameter error_fault : QueueCode

-- The memory that the operations touch: every queue, and the `prev` field of every node.
pub record Store : Type 0 where
  pub queue : Ptr → Queue
  pub prev : Ptr → Ptr

abbrev pub set_queue : Store → Ptr → Queue → Store
set_queue s q v = record s { queue = update s.queue q v }

abbrev pub set_prev : Store → Ptr → Ptr → Store
set_prev s p v = record s { prev = update s.prev p v }

-- `request_queue_new`; `fresh` is what `talloc_zero` returns, NULL when memory is exhausted.
unfoldable pub request_queue_new : (fresh : Ptr) → ℕ → Store → Ptr × Store
request_queue_new fresh capacity s = if fresh == null then (null, s) else (
  fresh,
  set_queue s fresh
      (record { head = null; tail = null; size = 0; capacity = int_of_uint capacity }),
)

unfoldable pub request_queue_push : Ptr → Ptr → Store → QueueCode × Store
request_queue_push queue node s =
    if queue == null || node == null
    then (error_invalid_parameter, s)
    else let q = s.queue queue in
      let s₁ = set_prev s node null in
      if reaches q.size q.capacity
      then (error_full, s)
      else if q.size == 0
      then (success, set_queue s₁ queue (record q { head = node; tail = node; size = q.size + 1 }))
      else if q.tail == null
      then (error_fault, s₁)
      else (
        success,
        set_queue (set_prev s₁ q.tail node) queue (record q { tail = node; size = q.size + 1 }),
      )

unfoldable pub request_queue_pop : Ptr → Store → Ptr × Store
request_queue_pop queue s =
    let q = s.queue queue in
    if queue == null
    then (null, s)
    else if q.size == 0
    then (null, s)
    else if q.head == null
    then (null, s)
    else (q.head, set_queue s queue (record q { head = s.prev q.head; size = q.size - 1 }))

unfoldable pub request_queue_peek : Ptr → Store → Ptr
request_queue_peek queue s =
    let q = s.queue queue in if queue == null then null else if q.head == null then null else q.head

unfoldable pub request_queue_empty : Ptr → Store → Bool
request_queue_empty queue s = if queue == null then true else (s.queue queue).size == 0

-- The two branches of `request_queue_move` that link the nodes of `from` behind those of `to`.
link : (from to : Ptr) → Store → Store
link from to s =
    let f = s.queue from in
    let t = s.queue to in
    if ltb 0 t.size
    then set_queue (set_prev s t.tail f.head) to
        (record t { tail = f.tail; size = t.size + f.size })
    else set_queue s to (record t { head = f.head; tail = f.tail; size = f.size })

-- `from->head = from->tail = NULL; from->size = 0;`
reset : Ptr → Store → Store
reset from s = set_queue s from (record (s.queue from) { head = null; tail = null; size = 0 })

unfoldable pub request_queue_move : (from to : Ptr) → Store → QueueCode × Store
unfolding link reset
request_queue_move from to s =
    let f = s.queue from in
    let t = s.queue to in
    if from == null || to == null
    then (error_invalid_parameter, s)
    else if not (f.head == null) && not (f.tail == null)
    then if t.tail == null && ltb 0 t.size
      then (error_fault, s)
      else if exceeds (t.size + f.size) t.capacity
      then (error_full, s)
      else (success, reset from (link from to s))
    else (error_fault, s)
