-- ===== src/Accounts/Tests.antt =====
-- The theorems on users, groups, computers and organizational units at concrete ones.
use libdomain.Prelude.{none, some, [], codes, arith}
use libdomain.Ldap.{mod_add}
use libdomain.Connection.{run, type_openldap, type_uninitialized, Connection}
use libdomain.Connection.Ends.{Ends, Returns}
use libdomain.Connection.Sample.{idle_in, idle-Waiting}
use libdomain.Connection.Waiting.{Waiting}
use libdomain.Domain.Requests.{wanted, asked}
use libdomain.Domain.Rules.{Does}
use libdomain.Accounts.{group_member_modify}
use libdomain.Entry.Enqueue.{sending_modify}
use libdomain.Domain.{child_dn}
use libdomain.Domain.Requests.{given, mods_of}
use libdomain.Prelude.{true, false, refl, ◌≡◌}
use libdomain.Accounts.Lockout.Sends.{lock, lock_mods, lock_request, lock-Does}
use libdomain.Accounts.Lockout.Unterminated.{active_directory-undefined}
use libdomain.Connection.{type_active_directory, fault}
use libdomain.Accounts.Attributes.{change_attributes, change_attributes-Does}
use libdomain.Accounts.Parents.{computer, to_delete, account, target, account-Does}
use libdomain.Accounts.Members.{member_request, membership, member_modify-Does, member_modify-Sends}
use libdomain.Domain.Successes.{Sends}

change_attributes-Does_example :
    Ends
      (Does (idle_in run) (mods_of mod_add []) (λ mods.
        given
          (some (codes "e"))
          λ n. given (some (codes "dc=test")) λ p. some (sending_modify (child_dn n p) mods)))
      (change_attributes true 3 (codes "dc=test") (some (codes "e")) [] (idle_in run))
change_attributes-Does_example =
    change_attributes-Does true 3 (codes "dc=test") (some (codes "e")) [] (idle_in run)
      (omega arith)

account-Does_example :
    let o =
      target computer (to_delete (some (codes "pc"))) type_uninitialized (codes "dc=test") none in
    Ends
      (Does (idle_in run) (wanted o) (asked o))
      (account computer (to_delete (some (codes "pc"))) 3 (codes "dc=test") none (idle_in run))
account-Does_example =
    account-Does computer (to_delete (some (codes "pc"))) 3 (codes "dc=test") none (idle_in run)
      (omega arith)

abbrev openldap : Connection
openldap = record (idle_in run) { directory_type = type_openldap }

openldap-Waiting : Waiting 0 openldap
openldap-Waiting =
    let w = idle-Waiting run in record { from = w.from; bound = w.bound; queued = w.queued }

member_modify-Does_example :
    Ends
      (Does openldap [] (λ mods.
        member_request (some (codes "memberuid")) mod_add (some (codes "g")) (some (codes "u"))))
      (group_member_modify 3 (some (codes "g")) (some (codes "u")) mod_add openldap)
member_modify-Does_example =
    member_modify-Does 3 (some (codes "g")) (some (codes "u")) mod_add openldap (omega arith)

lock-Does_example :
    Ends
      (Does openldap
        (lock_mods true type_openldap)
        (lock_request true type_openldap (codes "dc=test") (some (codes "u")) none))
      (lock true 3 (codes "dc=test") (some (codes "u")) none openldap)
lock-Does_example = lock-Does true 3 (codes "dc=test") (some (codes "u")) none openldap

-- Active Directory, with libraries that always succeed.
abbrev active_directory : Connection
active_directory = record (idle_in run) { directory_type = type_active_directory }

active_directory-undefined_example :
    lock false 3 (codes "dc=test") (some (codes "u")) none active_directory ≡ fault
active_directory-undefined_example =
    active_directory-undefined false 3 (codes "dc=test") (codes "u") none active_directory
      (λ past. refl) refl refl tt

member_modify-Sends_example :
    Returns
      (Sends 0 openldap (membership mod_add (codes "memberuid") (codes "g") (codes "u")))
      (group_member_modify 3 (some (codes "g")) (some (codes "u")) mod_add openldap)
member_modify-Sends_example =
    member_modify-Sends 0 3 (some (codes "g")) (some (codes "u")) mod_add
      (membership mod_add (codes "memberuid") (codes "g") (codes "u")) openldap
      (λ past. (refl, refl)) openldap-Waiting (omega arith) (omega arith) refl
