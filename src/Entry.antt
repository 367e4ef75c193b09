-- ===== src/Entry.antt =====
-- src/entry.c, the functions that send a request: `add`, `search`, `modify`, `ld_delete`, `ld_rename`
-- and `whoami`, and `directory_get_type` of src/directory.c.
pub mod Delivery
pub mod Represented
pub mod Enqueue
pub mod Attributes
pub mod Memory
pub mod Table
pub mod Replies
pub mod Directory
mod Tests
pub mod SearchRequests
use libdomain.Prelude.{
  ℕ, zero, suc, ◌+◌, ◌-◌, ◌==◌, leb, Bool, true, false, Option, none, some, List, [], ◌∷◌,
  if◌then◌else◌, update, CString, codes, ltb, ℤ, pos,
}
use libdomain.Ldap.{
  LdapMod, call_add, call_modify, call_delete, call_rename, call_search, call_whoami, is_success,
}
use libdomain.Connection.{
  Connection, ReturnCode, rc_success, rc_failure, Handler, add_handler, search_handler,
  modify_handler, delete_handler, rename_handler, whoami_handler, directory_handler, SearchCallback,
  SearchRequest, print_search, M, pure, get, put, fault, done, perform, enqueue_request,
  max_requests, ◌>>=◌, ◌>>◌,
}

unfoldable pub add : CString → List LdapMod → M ReturnCode
add dn attrs = do
  a ← perform (call_add dn attrs)
  if is_success a.code
      then (do enqueue_request a.msgid add_handler; pure rc_success)
      else pure rc_failure

unfoldable pub modify : CString → List LdapMod → M ReturnCode
modify dn attrs = do
  a ← perform (call_modify dn attrs)
  if is_success a.code
      then (do enqueue_request a.msgid modify_handler; pure rc_success)
      else pure rc_failure

unfoldable pub ld_delete : CString → M ReturnCode
ld_delete dn = do
  a ← perform (call_delete dn)
  if is_success a.code
      then (do enqueue_request a.msgid delete_handler; pure rc_success)
      else pure rc_failure

unfoldable pub ld_rename : (olddn newdn new_parent : CString) → Bool → M ReturnCode
ld_rename olddn newdn new_parent delete_original = do
  a ← perform (call_rename olddn newdn new_parent delete_original)
  if is_success a.code
      then (do enqueue_request a.msgid rename_handler; pure rc_success)
      else pure rc_failure

unfoldable pub whoami : M ReturnCode
whoami = do
  a ← perform call_whoami
  if is_success a.code
      then (do enqueue_request a.msgid whoami_handler; pure rc_success)
      else pure rc_failure

unfoldable pub directory_get_type : M ReturnCode
directory_get_type = do
  a ← perform (call_search [] (codes "(objectClass=*)") (codes "*" ∷ []))
  if is_success a.code
      then (do enqueue_request a.msgid directory_handler; pure rc_success)
      else pure rc_failure

abbrev or_print : Option SearchCallback → SearchCallback
or_print none = print_search
or_print (some f) = f

-- The slot that `search` fills last.
unfoldable pub record_search : SearchRequest → M ReturnCode
record_search r = do
  c ← get
  put (record c {
    search_requests = update c.search_requests c.n_search_requests r;
    n_search_requests = c.n_search_requests + 1;
  })
  pure rc_success

-- `search`. The request is in the queue before the code looks for room in `search_requests`.
unfoldable pub search :
    (base_dn filter : CString) → List CString → Option SearchCallback → ℕ → M ReturnCode
unfolding record_search
search base_dn filter attrs search_callback user_data = do
  a ← perform (call_search base_dn filter attrs)
  if is_success a.code
      then (do
        enqueue_request a.msgid search_handler
        c ← get
        if leb max_requests (c.n_search_requests + 1)
            then pure rc_failure
            else record_search (record {
              msgid = a.msgid;
              on_search_operation = some (or_print search_callback);
              user_data = user_data;
            }))
      else pure rc_failure

-- All bytes of a `struct ldap_search_request_t` zero.
abbrev pub zero_search_request : SearchRequest
zero_search_request = record { msgid = pos 0; on_search_operation = none; user_data = 0 }

-- The `while` loop: `n` counts the rounds left.
shift : ℕ → ℕ → (ℕ → SearchRequest) → ℕ → SearchRequest
shift zero i f = f
shift (suc n) i f = shift n (i + 1) (update f i (f (i + 1)))

-- `connection_remove_search_request`. With no search at all both branches leave the count -1, which the
-- field here cannot hold: the run ends there, although it is only in the second branch that the source
-- writes outside the array, at place -1. The code calls the function with a place that counts.
unfoldable pub connection_remove_search_request : ℕ → M (Unit {0})
unfolding shift
connection_remove_search_request index c =
    let n = c.n_search_requests in
    if n == 0
    then fault
    else if index + 1 == c.n_read_requests
    then done tt (record c {
      n_search_requests = n - 1;
      search_requests = update c.search_requests index zero_search_request;
    })
    else done tt (record c {
      n_search_requests = n - 1;
      search_requests =
          update (shift (n - 1 - index) index c.search_requests) (n - 1) zero_search_request;
    })
