-- ===== src/Reading.antt =====
-- src/connection.c: `connection_on_read`, the callback of the event loop that takes the requests out of
-- the queue, asks the library for their replies and hands these to the handlers.
pub mod Keeps
pub mod Halting
pub mod Restore
pub mod Loop
pub mod Unanswered
mod Tests
use libdomain.Prelude.{
  ℕ, zero, suc, ◌+◌, ◌-◌, ◌==◌, ltb, Bool, true, false, Option, none, some, List, [], ◌∷◌, ◌++◌,
  if◌then◌else◌, update, length, Ptr, null,
}
use libdomain.Ldap.{
  Answer, ResultType, res_any, res_unsolicited, LdapMessage, opt_result_code,
  opt_diagnostic_message, call_result,
}
use libdomain.RequestQueue.{request_queue_pop, request_queue_empty}
use libdomain.Connection.{
  Connection, ReturnCode, rc_failure, Handler, start_tls_handler, bind_handler, add_handler,
  search_handler, modify_handler, delete_handler, rename_handler, whoami_handler, directory_handler,
  Request, M, done, out_of_fuel, pure, get, put, faulty, perform, get_ldap_option, max_requests,
  push_node, ◌>>=◌, ◌>>◌,
}
use libdomain.Connection.Replies.{
  connection_bind_on_read, connection_start_tls_on_read, connection_optional_transition_on_error,
}
use libdomain.Entry.Replies.{
  Callbacks, add_on_read, modify_on_read, delete_on_read, rename_on_read, search_on_read,
  whoami_on_read, directory_parse_result,
}

-- `container_of (top, struct ldap_request_t, node)`, as a place of the array (see `node_of`).
abbrev pub place_of : Ptr → ℕ
place_of top = top - 1

-- The `for` loop: the requests without a reply fill the array from place `i` on. The
-- link that the copy of a request takes along is overwritten when its node is pushed.
unfoldable pub requeue : List Request → ℕ → M (Unit {0})
requeue [] i = pure tt
requeue (r ∷ rest) i = do
  c ← get
  put (record c { read_requests = update c.read_requests i r })
  push_node i
  requeue rest (i + 1)

-- The lines behind the loop.
abbrev pub restore : List Request → M (Unit {0})
restore pending = do
  c ← get
  put (record c { n_read_requests = 0 })
  requeue pending 0
  d ← get
  put (record d { n_read_requests = length pending })

module _ (callbacks : Callbacks) where
  -- The call of the function behind `on_read_operation`.
  abbrev pub handle : Handler → ResultType → LdapMessage → M ReturnCode
  handle start_tls_handler rc message = connection_start_tls_on_read rc
  handle bind_handler rc message = connection_bind_on_read rc
  handle add_handler rc message = add_on_read callbacks rc message
  handle search_handler rc message = search_on_read callbacks rc message
  handle modify_handler rc message = modify_on_read callbacks rc message
  handle delete_handler rc message = delete_on_read callbacks rc message
  handle rename_handler rc message = rename_on_read callbacks rc message
  handle whoami_handler rc message = whoami_on_read rc message
  handle directory_handler rc message = directory_parse_result callbacks rc message

  -- The default branch of the `switch`.
  abbrev pub answer_request : Request → Answer → M ReturnCode
  answer_request request a = do
    c ← get
    put (record c { msgid = request.msgid })
    elim request.on_read_operation [ none ↦ pure rc_failure | some h ↦ handle h a.tag a.message ]

  -- The branches of the `switch` on the reply to a request. `pending` is the array of the requests
  -- without a reply; the rest of the loop gets it, and `none` is the jump to `error_exit`.
  abbrev pub react :
      Request
      → List Request
      → (List Request → M (Option (List Request)))
      → Answer
      → M (Option (List Request))
  react request pending rest a = elim a.tag [
    | res_any ↦ get_ldap_option opt_result_code (pure none) λ _.
        get_ldap_option opt_diagnostic_message (pure none)
          λ _. connection_optional_transition_on_error >> rest pending
    | res_unsolicited ↦
        if ltb (length pending) max_requests then rest (pending ++ request ∷ []) else faulty
    | _ ↦ answer_request request a >> rest pending
  ]

  -- The `while` loop, with fuel.
  unfoldable pub read_loop : ℕ → List Request → M (Option (List Request))
  read_loop zero pending c = out_of_fuel
  read_loop (suc fuel) pending c =
      let (top, s) = request_queue_pop c.callqueue c.store in
      if request_queue_empty c.callqueue c.store
      then done (some pending) c
      else if top == null
      then done (some pending) (record c { store = s })
      else (do
        let request = c.read_requests (place_of top)
        a ← perform (call_result request.msgid)
        react request pending (read_loop fuel) a)
          (record c { store = s })

  -- One run pops each request of the array at most once, so a round more than the array is long is
  -- enough.
  unfoldable pub connection_on_read : M (Unit {0})
  connection_on_read = do
    p ← read_loop (max_requests + 1) []
    elim p [ none ↦ pure tt | some pending ↦ restore pending ]
