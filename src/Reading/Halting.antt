-- ===== src/Reading/Halting.antt =====
-- What every handler of a reply keeps: the tie between the request array and the queue (`Waiting`), if
-- the callbacks of the user keep it. A callback that sends requests by the functions of the code does.
use libdomain.Prelude.{ℕ, refl, Bool, List}
use libdomain.Ldap.{
  LdapCode, ResultType, res_search_entry, res_search_result, res_search_reference, res_modify,
  res_add, res_delete, res_rename, res_extended, LdapMessage, opt_result_code,
  opt_diagnostic_message, call_parse_result, call_get_option, is_success,
}
use libdomain.Connection.{
  rc_success, rc_failure, Handler, start_tls_handler, bind_handler, add_handler, search_handler,
  modify_handler, delete_handler, rename_handler, whoami_handler, directory_handler, SearchCallback,
  pure, perform, ◌>>◌,
}
use libdomain.Entry.{connection_remove_search_request}
use libdomain.Entry.Table.{LdEntry, read_entries}
use libdomain.Entry.Replies.{
  Callbacks, add_on_read, modify_on_read, delete_on_read, rename_on_read, search_on_read,
  whoami_on_read, directory_parse_result, report, unexpected, parsed, search_reply, deliver,
  find_search, directory_reply, is_added,
}
use libdomain.Reading.{handle}
use libdomain.Reading.Keeps.{
  Keeps, Keeps-bind, Keeps-bind_reply, Keeps-entries, Keeps-if, Keeps-option, Keeps-perform,
  Keeps-remove, Keeps-then, Keeps-tls_reply, Waiting-same,
}

-- The callbacks of the user keep the tie, and do not run out of fuel. Those that fill the schema end only
-- where each attribute of an entry has its values: at one without, their loop never ends.
pub record IsLawful (callbacks : Callbacks) : Type 0 where
  pub errors :
      (k f : ℕ) (rc : ResultType) (message : LdapMessage)
      → Keeps k (callbacks.on_error f rc message)
  pub searches :
      (k : ℕ) (f : SearchCallback) (es : List LdEntry) (data' : ℕ)
      → Keeps k (callbacks.on_search f es data')

module _ (callbacks : Callbacks) (lawful : IsLawful callbacks) (k : ℕ) where
  Keeps-report : (rc : ResultType) (m : LdapMessage) → Keeps k (report callbacks rc m)
  Keeps-report rc m c w =
      Keeps-option k c.on_error_operation (pure rc_failure) _ (λ c w. w)
        (λ f. Keeps-then k (callbacks.on_error f rc m) rc_failure (lawful.errors k f rc m)) c w

  Keeps-unexpected : (rc : ResultType) (m : LdapMessage) → Keeps k (unexpected callbacks rc m)
  Keeps-unexpected rc m =
      Keeps-bind k (perform (call_get_option opt_result_code)) _ (Keeps-perform k _) (λ _.
        Keeps-bind k (perform (call_get_option opt_diagnostic_message)) _ (Keeps-perform k _)
          (λ _. Keeps-report rc m))

  Keeps-parsed :
      (good : LdapCode → Bool) (rc : ResultType) (m : LdapMessage)
      → Keeps k (parsed callbacks good rc m)
  Keeps-parsed good rc m =
      Keeps-bind k (perform call_parse_result) _ (Keeps-perform k _)
        (λ _. Keeps-if k (good m.error_code) (pure rc_success) _ (λ c w. w) (Keeps-report rc m))

  Keeps-deliver :
      (i : ℕ) (f : SearchCallback) (data' : ℕ) (m : LdapMessage)
      → Keeps k (deliver callbacks i f data' m)
  Keeps-deliver i f data' m =
      Keeps-bind k (read_entries m.entries) _ (Keeps-entries k m.entries) (λ entries.
        Keeps-option k entries (pure rc_failure) _ (λ c w. w)
          (λ es.
            Keeps-bind k (callbacks.on_search f es data') _ (lawful.searches k f es data')
              (λ rc. Keeps-then k (connection_remove_search_request i) rc (Keeps-remove k i))))

  Keeps-search_reply : (rc : ResultType) (m : LdapMessage) → Keeps k (search_reply callbacks rc m)
  Keeps-search_reply rc m c w =
      Keeps-option k (find_search c.n_search_requests 0 c.search_requests m.id) _ _
        (Keeps-report rc m)
        (λ i.
          Keeps-option k (c.search_requests i).on_search_operation (pure rc_failure) _ (λ c w. w)
            (λ f. Keeps-deliver i f (c.search_requests i).user_data m))
        c w

  Keeps-directory_reply : (m : LdapMessage) → Keeps k (directory_reply m)
  Keeps-directory_reply m c w = Waiting-same k c _ w refl refl refl

  Keeps-add : (rc : ResultType) (m : LdapMessage) → Keeps k (add_on_read callbacks rc m)
  unfolding add_on_read
  Keeps-add res_add m = Keeps-parsed is_added res_add m
  Keeps-add rc m = Keeps-unexpected rc m

  Keeps-modify : (rc : ResultType) (m : LdapMessage) → Keeps k (modify_on_read callbacks rc m)
  unfolding modify_on_read
  Keeps-modify res_modify m = Keeps-parsed is_success res_modify m
  Keeps-modify rc m = Keeps-unexpected rc m

  Keeps-delete : (rc : ResultType) (m : LdapMessage) → Keeps k (delete_on_read callbacks rc m)
  unfolding delete_on_read
  Keeps-delete res_delete m = Keeps-parsed is_success res_delete m
  Keeps-delete rc m = Keeps-unexpected rc m

  Keeps-rename : (rc : ResultType) (m : LdapMessage) → Keeps k (rename_on_read callbacks rc m)
  unfolding rename_on_read
  Keeps-rename res_rename m = Keeps-parsed is_success res_rename m
  Keeps-rename rc m = Keeps-unexpected rc m

  Keeps-search : (rc : ResultType) (m : LdapMessage) → Keeps k (search_on_read callbacks rc m)
  unfolding search_on_read
  Keeps-search res_search_entry m = Keeps-search_reply res_search_entry m
  Keeps-search res_search_result m = Keeps-search_reply res_search_result m
  Keeps-search res_search_reference m = λ c w. w
  Keeps-search rc m = Keeps-unexpected rc m

  Keeps-directory :
      (rc : ResultType) (m : LdapMessage) → Keeps k (directory_parse_result callbacks rc m)
  unfolding directory_parse_result
  Keeps-directory res_search_entry m = Keeps-directory_reply m
  Keeps-directory res_search_result m = Keeps-directory_reply m
  Keeps-directory res_search_reference m = λ c w. w
  Keeps-directory rc m = Keeps-unexpected rc m

  Keeps-whoami : (rc : ResultType) (m : LdapMessage) → Keeps k (whoami_on_read rc m)
  unfolding whoami_on_read
  Keeps-whoami res_extended m =
      Keeps-then k (perform call_parse_result) rc_success (Keeps-perform k _)
  Keeps-whoami rc m =
      Keeps-bind k (perform (call_get_option opt_result_code))
        (λ _. perform (call_get_option opt_diagnostic_message) >> pure rc_success)
        (Keeps-perform k _)
        (λ _.
          Keeps-then k (perform (call_get_option opt_diagnostic_message)) rc_success
            (Keeps-perform k _))

  -- Every handler, on every reply.
  pub Keeps-handle :
      (h : Handler) (rc : ResultType) (m : LdapMessage) → Keeps k (handle callbacks h rc m)
  Keeps-handle start_tls_handler rc m = Keeps-tls_reply k rc
  Keeps-handle bind_handler rc m = Keeps-bind_reply k rc
  Keeps-handle add_handler rc m = Keeps-add rc m
  Keeps-handle search_handler rc m = Keeps-search rc m
  Keeps-handle modify_handler rc m = Keeps-modify rc m
  Keeps-handle delete_handler rc m = Keeps-delete rc m
  Keeps-handle rename_handler rc m = Keeps-rename rc m
  Keeps-handle whoami_handler rc m = Keeps-whoami rc m
  Keeps-handle directory_handler rc m = Keeps-directory rc m
