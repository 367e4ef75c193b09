-- ===== src/Accounts/Members.antt =====
-- `group_member_modify` of src/group.c: the one request by which a user joins or leaves a group.
use libdomain.Prelude.{
  ℕ, ◌==◌, ◌≡◌, ◌≢◌, ◌<◌, refl, inl, true, false, ltb, Option, none, some, List, [], ◌∷◌,
  if◌then◌else◌, Ptr, null, CString, arith,
}
use libdomain.Ldap.{LdapMod, ModOp}
use libdomain.Connection.{Connection, max_requests, ◌>>=◌}
use libdomain.Connection.Waiting.{Waiting}
use libdomain.Connection.Ends.{Ends, Returns, Ends-bind, Ends-if}
use libdomain.Domain.Successes.{
  Willing, Sends, none-some, allocate-Delivers, string-Delivers, send-Delivers,
}
use libdomain.Entry.{modify}
use libdomain.Entry.Enqueue.{Sending, sending_modify, send}
use libdomain.Entry.Table.{allocate}
use libdomain.Domain.{new_context, error_exit, free_and_return}
use libdomain.Domain.Requests.{given}
use libdomain.Domain.Rules.{Does, Acts, Quiet, allocate-Quiet, context-Acts, string-Acts, send-Does}
use libdomain.Accounts.{member_of, modify_members, group_member_modify}

-- The modification of the group: the attribute that lists its members gets or loses the user.
abbrev pub membership : ModOp → CString → CString → CString → Sending
membership op member group user =
    sending_modify group (record { mod_op = op; mod_type = member; mod_values = user ∷ [] } ∷ [])

-- The request for a directory whose groups list their members under `member`, if there is one.
abbrev pub member_request : Option CString → ModOp → (group user : Option CString) → Option Sending
member_request none op group user = none
member_request (some member) op group user =
    given group λ g. given user λ u. some (membership op member g u)

-- Adding a user to a group or removing one, with a handle, unless it lacks defined behaviour: it fails and
-- sends no change, or it sends one, which adds the user to the attribute `memberuid` of the group in
-- OpenLDAP and to `member` in Active Directory, or deletes it there; in other directories it sends none.
pub member_modify-Does :
    (h : Ptr) (group user : Option CString) (op : ModOp) (c : Connection)
    → h ≢ null
    → Ends
        (Does c [] (λ mods. member_request (member_of c.directory_type) op group user))
        (group_member_modify h group user op c)
unfolding group_member_modify send
member_modify-Does h group user op c ne =
    let real : (h == null) ≡ false = ground (arith, ne) in
    rw real (by_member (member_of c.directory_type))
  where
    -- From the allocations on.
    sends :
        (member g u : CString)
        → Acts c []
            (λ mods. some (membership op member g u))
            (new_context (do
              ok ← allocate 5
              if ok
                  then (do
                    rc ←
                        modify g
                          (record { mod_op = op; mod_type = member; mod_values = u ∷ [] } ∷ [])
                    free_and_return rc)
                  else error_exit))
    sends member g u =
        let r : List LdapMod → Option Sending = λ mods. some (membership op member g u) in
        context-Acts c [] r _ (λ d q.
          Ends-bind (Quiet c) (Does c [] r) (allocate 5 d) _ (allocate-Quiet c 5 d q) (λ ok e v.
            Ends-if (Does c [] r) ok _ error_exit e
              (λ _. send-Does c [] [] r (membership op member g u) (inl refl) refl refl e v)
              (λ _. inl (refl, v))))

    by_member :
        (m : Option CString)
        → Ends
            (Does c [] (λ mods. member_request m op group user))
            (modify_members m group user op c)
    by_member none = inl (refl, (refl, refl))
    by_member (some member) =
        string-Acts c [] group (λ g mods. given user λ u. some (membership op member g u)) _
          (λ g.
            string-Acts c [] user (λ u mods. some (membership op member g u)) _ (sends member g))
          c (refl, refl)

-- A user joins or leaves a group, when there is memory, no call of the libraries fails and the array has
-- room: in OpenLDAP or Active Directory, with a handle and with both names given, the function returns
-- success after it has sent exactly that modification of the group, and one more request, with the handler
-- of its reply, waits in the queue behind those that waited.
pub member_modify-Sends :
    (k : ℕ) (h : Ptr) (group user : Option CString) (op : ModOp) (s : Sending) (c : Connection)
    → Willing c.world
    → Waiting k c
    → c.n_read_requests < max_requests
    → h ≢ null
    → member_request (member_of c.directory_type) op group user ≡ some s
    → Returns (Sends k c s) (group_member_modify h group user op c)
unfolding group_member_modify send
member_modify-Sends k h group user op s c willing waits room ne e =
    let real : (h == null) ≡ false = ground (arith, ne) in
    let has_room : ltb c.n_read_requests max_requests ≡ true = ground (arith, room) in
    rw real (by_member (member_of c.directory_type) has_room e)
  where
    by_member :
        (m : Option CString)
        → ltb c.n_read_requests max_requests ≡ true
        → member_request m op group user ≡ some s
        → Returns (Sends k c s) (modify_members m group user op c)
    by_member none r missing = absurd (none-some missing)
    by_member (some member) r asked =
        string-Delivers k c willing s group _ _
          (λ g. string-Delivers k c willing s user _ _ (λ u f.
            allocate-Delivers k c willing s 1 _ _ (
              allocate-Delivers k c willing s 5 _ _
                (send-Delivers k c willing s (membership op member g u) r refl f))))
          asked c (refl, refl, waits, refl)
