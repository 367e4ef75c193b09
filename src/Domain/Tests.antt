-- ===== src/Domain/Tests.antt =====
-- The theorems on the operations of a session at concrete ones.
use libdomain.Prelude.{◌≡◌, refl, inr, some, [], ◌∷◌, codes}
use libdomain.Connection.{run, rc_failure, done}
use libdomain.Connection.Ends.{Ends}
use libdomain.Connection.Sample.{idle_in, idle-Waiting}
use libdomain.Domain.Requests.{Operation, adding, deleting, operate, wanted, asked}
use libdomain.Domain.Rules.{Does}
use libdomain.Domain.Operations.{operate-Does}
use libdomain.Domain.Refusals.{operate-refuses}
use libdomain.Domain.Successes.{Sends, operate-Sends}
use libdomain.Connection.Ends.{Returns}
use libdomain.Entry.Enqueue.{Sending, sending_add}
use libdomain.Ldap.{mod_add}
use libdomain.Prelude.{arith}

abbrev adding_user : Operation
adding_user =
    adding (some (codes "ann")) (some (codes "ou=users")) (codes "cn")
      (record { name = codes "sn"; values = codes "Lee" ∷ [] } ∷ [])

operate-Does_example :
    Ends
      (Does (idle_in run) (wanted adding_user) (asked adding_user))
      (operate 3 adding_user (idle_in run))
operate-Does_example = operate-Does 3 adding_user (idle_in run)

abbrev deleting_nothing : Operation
deleting_nothing = deleting (some []) (some (codes "ou=users")) (codes "cn")

operate-refuses_example : operate 3 deleting_nothing (idle_in run) ≡ done rc_failure (idle_in run)
operate-refuses_example = operate-refuses 3 deleting_nothing (idle_in run) (inr refl)

abbrev adding_ann : Sending
adding_ann =
    sending_add (codes "cn=ann,ou=users")
      (record { mod_op = mod_add; mod_type = codes "sn"; mod_values = codes "Lee" ∷ [] } ∷ [])

operate-Sends_example :
    Returns (Sends 0 (idle_in run) adding_ann) (operate 3 adding_user (idle_in run))
operate-Sends_example =
    operate-Sends 0 3 adding_user adding_ann (idle_in run) (λ past. (refl, refl)) (idle-Waiting run)
      (omega arith) (omega arith) refl
