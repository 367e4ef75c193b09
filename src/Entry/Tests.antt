-- ===== src/Entry/Tests.antt =====
-- The theorems on requests, searches and entries at concrete ones.
use libdomain.Prelude.{
  ℕ, ◌+◌, ◌<◌, ◌==◌, ◌≡◌, refl, inr, none, some, [], ◌∷◌, arith, codes, ltb, if◌then◌else◌, pos,
  ◌≢◌, ◌≤◌,
}
use libdomain.Ldap.{res_search_result, LdapMessage, RawAttribute, RawEntry, ldap_success}
use libdomain.Connection.{
  Connection, ReturnCode, rc_success, rc_failure, run, search_handler, print_search, DirectoryType,
  type_uninitialized, type_active_directory, done, fault,
}
use libdomain.Connection.Ends.{Returns}
use libdomain.Connection.Waiting.{Waiting}
use libdomain.Connection.Sample.{idle_in, idle-Waiting, good}
use libdomain.Entry.{search, zero_search_request, connection_remove_search_request}
use libdomain.Entry.Enqueue.{
  send, sending_whoami, Sent, send-Sent, AllSent, send_times, send_times-overflow,
}
use libdomain.Entry.SearchRequests.{
  remove-shifts, remove-loses_last, search-records, search-unrecorded,
}
use libdomain.Entry.Table.{LdEntry, LdapAttribute, ld_entry_add_attribute}
use libdomain.Entry.Replies.{Callbacks, directory_parse_result}
use libdomain.Entry.Directory.{parse_result-one_entry, parse_result-known}

send-Sent_example :
    (rc : ReturnCode) × (c' : Connection) × (send sending_whoami (idle_in run) ≡ done rc c')
    × Sent sending_whoami 0 (idle_in run) c' rc
send-Sent_example = send-Sent sending_whoami 0 (idle_in run) (idle-Waiting run) (omega arith)

-- One place of the array is left.
abbrev nearly_full : Connection
nearly_full = record (idle_in run) { n_read_requests = 8191 }

send_times-overflow_example :
    ((n : ℕ)
      → n ≤ 1
      → Returns (AllSent sending_whoami n nearly_full) (send_times n sending_whoami nearly_full))
    × (send_times 2 sending_whoami nearly_full ≡ fault)
send_times-overflow_example = send_times-overflow sending_whoami 1 nearly_full (λ t. refl) refl

-- Three searches are under way, and two requests are in the array.
abbrev searching : Connection
searching = record (idle_in run) {
  n_search_requests = 3;
  n_read_requests = 2;
  search_requests =
      λ i. record { msgid = pos i; on_search_operation = some print_search; user_data = 0 };
}

remove-shifts_example :
    (c' : Connection) × (connection_remove_search_request 0 searching ≡ done tt c')
    × (c'.n_search_requests + 1 ≡ 3)
    × (c'.search_requests c'.n_search_requests ≡ zero_search_request)
    × ((i : ℕ)
        → i < c'.n_search_requests
        → c'.search_requests i
          ≡ (if ltb i 0 then searching.search_requests i else searching.search_requests (i + 1)))
remove-shifts_example = remove-shifts 0 searching (omega arith) (inr (omega arith))

remove-loses_last_example :
    (c' : Connection) × (connection_remove_search_request 1 searching ≡ done tt c')
    × (c'.n_search_requests + 1 ≡ 3)
    × ((i : ℕ)
        → i < c'.n_search_requests
        → c'.search_requests i
          ≡ (if i == 1 then zero_search_request else searching.search_requests i))
remove-loses_last_example = remove-loses_last 1 searching refl (omega arith)

search-records_example :
    (c' : Connection) × (search [] [] [] none 4 (idle_in run) ≡ done rc_success c')
    × Waiting 0 c'
    × (c'.n_read_requests ≡ 1)
    × (c'.read_requests 0 ≡ record { msgid = good.msgid; on_read_operation = some search_handler })
    × (c'.n_search_requests ≡ 1)
    × (c'.search_requests 0
        ≡ record { msgid = good.msgid; on_search_operation = some print_search; user_data = 4 })
search-records_example =
    search-records [] [] [] none 4 0 (idle_in run) (idle-Waiting run) (omega arith) (omega arith)
      refl

-- The array of the searches is full.
abbrev full : Connection
full = record (idle_in run) { n_search_requests = 8191 }

full-Waiting : Waiting 0 full
full-Waiting =
    let w = idle-Waiting run in record { from = w.from; bound = w.bound; queued = w.queued }

search-unrecorded_example :
    (c' : Connection) × (search [] [] [] none 4 full ≡ done rc_failure c')
    × Waiting 0 c'
    × (c'.n_read_requests ≡ 1)
    × (c'.search_requests ≡ full.search_requests)
search-unrecorded_example =
    search-unrecorded [] [] [] none 4 0 full full-Waiting (omega arith) (omega arith) refl

abbrev named : RawAttribute
named = record { name = codes "isGlobalCatalogReady"; values = codes "TRUE" ∷ [] }

abbrev entry : LdEntry
entry = record { dn = codes "dc=test"; attributes = [] }

abbrev with_name : LdapAttribute
with_name = record { name = some named.name; values = named.values }

-- The first addition under a name succeeds, the second fails and replaces the value.
abbrev again : LdapAttribute
again = record { name = some (codes "isGlobalCatalogReady"); values = codes "FALSE" ∷ [] }

adds :
    let (rc, once) = ld_entry_add_attribute (some entry) (some (with_name)) in
    let (rc', twice) = ld_entry_add_attribute once (some again) in
    (rc ≡ rc_success)
    × (rc' ≡ rc_failure)
    × (twice
        ≡ some (record entry { attributes = record named { values = codes "FALSE" ∷ [] } ∷ [] }))
unfolding ld_entry_add_attribute
adds = (refl, refl, refl)

without_arguments :
    ((ld_entry_add_attribute none (some again)).0 ≡ rc_failure)
    × ((ld_entry_add_attribute (some entry) none).0 ≡ rc_failure)
    × ((ld_entry_add_attribute (some entry) (some (record again { name = none }))).0 ≡ rc_failure)
unfolding ld_entry_add_attribute
without_arguments = (refl, refl, refl)

abbrev silent : Callbacks
silent = record { on_error = λ f rc m c. done tt c; on_search = λ f es data' c. done rc_success c }

abbrev root : RawEntry
root = record { dn = []; attributes = named ∷ [] }

abbrev root_message : LdapMessage
root_message = record { id = pos 7; error_code = ldap_success; entries = root ∷ [] }

parse_result-one_entry_example :
    directory_parse_result silent res_search_result root_message (idle_in run)
    ≡ done rc_success (record (idle_in run) { directory_type = type_active_directory })
parse_result-one_entry_example =
    parse_result-one_entry silent res_search_result root_message root (idle_in run) (inr refl) refl
      refl

parse_result-known_example :
    (t : DirectoryType) × (directory_parse_result silent res_search_result root_message
        (idle_in run)
      ≡ done rc_success (record (idle_in run) { directory_type = t }))
    × (t ≢ type_uninitialized)
parse_result-known_example =
    parse_result-known silent res_search_result root_message (idle_in run) (inr refl)

-- The reply to the second of the three searches.
abbrev second : LdapMessage
second = record root_message { id = pos 1 }
