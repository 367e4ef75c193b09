-- ===== src/Entry/SearchRequests.antt =====
-- `search` and `connection_remove_search_request` of src/entry.c: the array of the searches under way.
use libdomain.Prelude.{
  ℕ, zero, suc, ◌+◌, ◌-◌, ◌≤◌, ◌<◌, ◌==◌, ◌≡◌, refl, ◌≢◌, ◌⊎◌, inl, inr, true, ◌&&◌, Option, some,
  List, ◌∷◌, arith, if◌then◌else◌, ltb, leb, update, update_self, Bool-cases, CString,
}
use libdomain.Ldap.{call_search, Answer, is_success}
use libdomain.Connection.{
  Connection, rc_success, rc_failure, SearchCallback, SearchRequest, search_handler, done, log,
  max_requests,
}
use libdomain.Connection.Waiting.{
  Waiting, Waiting-log, enqueued, enqueue_request_lem, enqueued-Waiting,
}
use libdomain.Entry.{
  search, record_search, or_print, shift, zero_search_request, connection_remove_search_request,
}

-- The loop moves each request of the places `i` to `i + m - 1` down by one.
shift_lem :
    (m i : ℕ) (f : ℕ → SearchRequest) (j : ℕ)
    → shift m i f j ≡ (if leb i j && ltb j (i + m) then f (j + 1) else f j)
unfolding shift
shift_lem zero i f j = ground arith
shift_lem (suc m) i f j = ground (arith, shift_lem m (i + 1) (update f i (f (i + 1))) j)

module _ (index : ℕ) (c : Connection) where
  -- The removal is right where the test of the first branch does not come out true by accident: the
  -- place is the last one, or is not the last place of the array of read requests. Then the requests
  -- before the place stay, those behind it move down by one, the last place is cleared, and the count
  -- goes down by one.
  pub remove-shifts :
      index < c.n_search_requests
      → (index + 1 ≡ c.n_search_requests) ⊎ (index + 1 ≢ c.n_read_requests)
      → (c' : Connection) × (connection_remove_search_request index c ≡ done tt c')
        × (c'.n_search_requests + 1 ≡ c.n_search_requests)
        × (c'.search_requests c'.n_search_requests ≡ zero_search_request)
        × ((i : ℕ)
            → i < c'.n_search_requests
            → c'.search_requests i
              ≡ (if ltb i index then c.search_requests i else c.search_requests (i + 1)))
  unfolding connection_remove_search_request
  remove-shifts within h = elim (Bool-cases (index + 1 == c.n_read_requests)) [
    | inl last ↦ (
      record c {
        n_search_requests = c.n_search_requests - 1;
        search_requests = update c.search_requests index zero_search_request;
      },
      ground arith,
      omega arith,
      ground arith,
      λ i lt. ground arith,
    )
    | inr other ↦ (
      record c {
        n_search_requests = c.n_search_requests - 1;
        search_requests =
            update (shift (c.n_search_requests - 1 - index) index c.search_requests)
              (c.n_search_requests - 1) zero_search_request;
      },
      ground arith,
      omega arith,
      update_self (shift (c.n_search_requests - 1 - index) index c.search_requests) _ _,
      λ i lt. ground (arith, shift_lem (c.n_search_requests - 1 - index) index c.search_requests i),
    )
  ]

  -- Where the place is the last one of the array of read requests, but not of the searches, the
  -- removal clears the place in the middle and takes the last place off the count: the last search is
  -- lost, and the cleared place still counts.
  pub remove-loses_last :
      index + 1 ≡ c.n_read_requests
      → index + 1 < c.n_search_requests
      → (c' : Connection) × (connection_remove_search_request index c ≡ done tt c')
        × (c'.n_search_requests + 1 ≡ c.n_search_requests)
        × ((i : ℕ)
            → i < c'.n_search_requests
            → c'.search_requests i
              ≡ (if i == index then zero_search_request else c.search_requests i))
  unfolding connection_remove_search_request
  remove-loses_last last more = (
    record c {
      n_search_requests = c.n_search_requests - 1;
      search_requests = update c.search_requests index zero_search_request;
    },
    ground arith,
    omega arith,
    λ i h. ground arith,
  )

-- The library's answer to the call of a search.
abbrev pub search_answer : (base filter : CString) → List CString → Connection → Answer
search_answer base filter attrs c = c.world (call_search base filter attrs ∷ c.trace)

module _ (base filter : CString) (attrs : List CString) (f : Option SearchCallback) (data' : ℕ)
    (k : ℕ) (c : Connection) where
  -- When the library accepts the search and both arrays have room, `search` succeeds; one more
  -- request waits with the handler of searches, and the last place of the searches holds the same
  -- message id with the callback, which is the printing one if none is given, and the user's data.
  pub search-records :
      Waiting k c
      → c.n_read_requests < max_requests
      → c.n_search_requests + 1 < max_requests
      → is_success (search_answer base filter attrs c).code ≡ true
      → (c' : Connection) × (search base filter attrs f data' c ≡ done rc_success c')
        × Waiting k c'
        × (c'.n_read_requests ≡ c.n_read_requests + 1)
        × (c'.read_requests c.n_read_requests ≡ record {
          msgid = (search_answer base filter attrs c).msgid;
          on_read_operation = some search_handler;
        })
        × (c'.n_search_requests ≡ c.n_search_requests + 1)
        × (c'.search_requests c.n_search_requests ≡ record {
          msgid = (search_answer base filter attrs c).msgid;
          on_search_operation = some (or_print f);
          user_data = data';
        })
  unfolding search record_search
  search-records w room space sent =
      let a = search_answer base filter attrs c in
      let d = enqueued a.msgid search_handler (log (call_search base filter attrs) c) in
      let waits =
        enqueued-Waiting k a.msgid search_handler _
          (Waiting-log k (call_search base filter attrs) c w) room in
      let r : SearchRequest = record {
        msgid = a.msgid;
        on_search_operation = some (or_print f);
        user_data = data';
      } in
      (
        record d {
          search_requests = update d.search_requests d.n_search_requests r;
          n_search_requests = d.n_search_requests + 1;
        },
        rw sent (rw enqueue_request_lem (ground arith)),
        record { from = waits.from; bound = waits.bound; queued = waits.queued },
        refl,
        update_self c.read_requests c.n_read_requests _,
        refl,
        update_self c.search_requests c.n_search_requests r,
      )

  -- When the library accepts the search but the array of the searches is full, `search` reports a
  -- failure although its request has been sent and waits in the queue, with no search to answer.
  pub search-unrecorded :
      Waiting k c
      → c.n_read_requests < max_requests
      → max_requests ≤ c.n_search_requests + 1
      → is_success (search_answer base filter attrs c).code ≡ true
      → (c' : Connection) × (search base filter attrs f data' c ≡ done rc_failure c')
        × Waiting k c'
        × (c'.n_read_requests ≡ c.n_read_requests + 1)
        × (c'.search_requests ≡ c.search_requests)
  unfolding search record_search
  search-unrecorded w room full sent =
      let a = search_answer base filter attrs c in
      (
        enqueued a.msgid search_handler (log (call_search base filter attrs) c),
        rw sent (rw enqueue_request_lem (ground arith)),
        enqueued-Waiting k a.msgid search_handler _
            (Waiting-log k (call_search base filter attrs) c w) room,
        refl,
        refl,
      )
