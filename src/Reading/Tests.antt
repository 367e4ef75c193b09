-- ===== src/Reading/Tests.antt =====
-- The theorems on the callback of the event loop at concrete connections.
use libdomain.Prelude.{
  ℕ, ◌≡◌, ◌+◌, Bool, true, false, List, [], ◌∷◌, if◌then◌else◌, some, refl, pos, arith,
}
use libdomain.Connection.{
  Connection, run, rc_success, whoami_handler, delete_handler, Outcome, done, fault, out_of_fuel,
  pure, enqueue_request, ◌>>◌,
}
use libdomain.Ldap.{call_whoami, res_modify, Call}
use libdomain.Entry.{whoami}
use libdomain.Connection.Ends.{Returns}
use libdomain.Connection.Waiting.{Waiting, enqueued, enqueued-Waiting}
use libdomain.Connection.Sample.{idle_in, idle-Waiting, good}
use libdomain.Entry.Replies.{Callbacks, delete_on_read, whoami_on_read}
use libdomain.RequestQueue.{
  request_queue_empty, request_queue_push, request_queue_new, request_queue_pop,
}
use libdomain.Reading.{connection_on_read, read_loop, requeue}
use libdomain.Reading.Keeps.{Keeps}
use libdomain.Reading.Unanswered.{AllWait, on_read-none_answered}

abbrev silent : Callbacks
silent = record { on_error = λ f rc m c. done tt c; on_search = λ f es data' c. done rc_success c }

-- Callbacks that send a request: on an error, and for the entries of a search.
abbrev asking : Callbacks
asking = record { on_error = λ f rc m. whoami >> pure tt; on_search = λ f es data'. whoami }

-- Two requests wait.
abbrev one : Connection
one = enqueued (pos 7) whoami_handler (idle_in run)

abbrev two : Connection
two = enqueued (pos 8) whoami_handler one

two-Waiting : Waiting 0 two
two-Waiting =
    enqueued-Waiting 0 (pos 8) whoami_handler one
      (enqueued-Waiting 0 (pos 7) whoami_handler (idle_in run) (idle-Waiting run) (omega arith))
      (omega arith)

-- Every reply is of a type that is not expected by the handlers of deletions, which wait in both places.
abbrev unexpected : Connection
unexpected = record two {
  world = λ past. record good { tag = res_modify };
  read_requests = λ i. record { msgid = pos 7; on_read_operation = some delete_handler };
  on_error_operation = some 3;
}

abbrev is_whoami : Call → Bool
is_whoami call_whoami = true
is_whoami _ = false

abbrev whoami_calls : List Call → ℕ
whoami_calls [] = 0
whoami_calls (k ∷ ks) = (if is_whoami k then 1 else 0) + whoami_calls ks

abbrev asked : {A : Type 0} → Outcome A → ℕ
asked (done a c) = whoami_calls c.trace
asked fault = 0
asked out_of_fuel = 0

-- Each of the two errors sent a request.
asked_twice : asked (connection_on_read asking unexpected) ≡ 2
unfolding connection_on_read read_loop requeue delete_on_read whoami whoami_on_read enqueue_request
    request_queue_empty request_queue_push request_queue_new request_queue_pop
asked_twice = refl

on_read-none_answered_example : Returns (AllWait two) (connection_on_read silent two)
on_read-none_answered_example = on_read-none_answered silent two (λ msgid past. refl) two-Waiting
