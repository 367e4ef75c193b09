-- ===== src/Connection/Replies/Outcomes.antt =====
-- What a reply to a simple bind makes of the state machine.
use libdomain.Prelude.{
  ◌≡◌, ◌≢◌, refl, ◌⊎◌, inl, inr, Bool, Option, none, some, if◌then◌else◌, update, pos,
}
use libdomain.Ldap.{
  Answer, LdapCode, other_code, res_bind, opt_result_code, opt_diagnostic_message, call_get_option,
  is_success,
}
use libdomain.Connection.{
  Connection, ConnectionState, ReturnCode, rc_failure, BindType, bind_interactive, bind_simple,
  error, Owned, unset, dangling, valid, SaslDefaults, log, pure, get_ldap_option, ◌>>◌,
}
use libdomain.Connection.States.{csm_set_state}
use libdomain.Connection.Ends.{Ends, Ends-bind, Ends-if, Ends-weaken}
use libdomain.Connection.Replies.{bind_result, set_machine_state, connection_bind_on_read}

simple-interactive : bind_interactive ≢ bind_simple
simple-interactive h = cc

-- The machines and the machine of the connection are those of `c`.
abbrev pub Same : Connection → Connection → Type 0
Same c d = (d.machines ≡ c.machines) × (d.state_machine ≡ c.state_machine)

set-Ends :
    (st : ConnectionState) (rc : ReturnCode) (c d : Connection)
    → Same c d
    → Ends
        (λ rc' c'. (rc' ≡ rc) × (c'.machines ≡ update c.machines c.state_machine (some st)))
        ((set_machine_state st >> pure rc) d)
unfolding csm_set_state
set-Ends st rc c d (ms, m) = on (d.machines d.state_machine) refl
  where
    on :
        (o : Option ConnectionState)
        → d.machines d.state_machine ≡ o
        → Ends
            (λ rc' c'. (rc' ≡ rc) × (c'.machines ≡ update c.machines c.state_machine (some st)))
            ((set_machine_state st >> pure rc) d)
    on none h = rw h tt
    on (some x) h = rw h (refl, rw (ms, m) refl)

abbrev pub Failed : Connection → ReturnCode → Connection → Type 0
Failed c rc c' =
    (rc ≡ rc_failure)
    × ((c'.machines ≡ c.machines) ⊎ (c'.machines ≡ update c.machines c.state_machine (some error)))

-- The failing branches: both options are read, then the state is the error state, or stays.
Failed-Ends :
    (b : Answer → Bool) (c d : Connection)
    → Same c d
    → Ends (Failed c) (
        (get_ldap_option opt_result_code (pure rc_failure) λ a.
            get_ldap_option opt_diagnostic_message
              (pure rc_failure)
              λ _. if b a then pure rc_failure else set_machine_state error >> pure rc_failure)
          d)
Failed-Ends b c d same =
    let d₁ = log (call_get_option opt_result_code) d in
    let d₂ = log (call_get_option opt_diagnostic_message) d₁ in
    let kept : Failed c rc_failure d = (refl, inl same.0) in
    Ends-if (Failed c) (is_success (d.world d₁.trace).code) _ (pure rc_failure) d₁
      (λ _.
        Ends-if (Failed c) (is_success (d.world d₂.trace).code) _ (pure rc_failure) d₂
          (λ _.
            Ends-if (Failed c) (b (d.world d₁.trace)) (pure rc_failure) _ d₂ (λ _. kept)
              (λ _.
                Ends-weaken _ (Failed c) ((set_machine_state error >> pure rc_failure) d₂)
                  (set-Ends error rc_failure c d₂ same) (λ rc c' (e, u). (e, inr u))))
          (λ _. kept))
      (λ _. kept)

-- What `rc` is when it is compared: for a simple bind, the message type.
abbrev Compared : Connection → LdapCode → Connection → Type 0
Compared c rc d = Same c d × (c.bind_type ≡ bind_simple → rc ≡ other_code (pos 0x61))

bind_result-Ends : (c : Connection) → Ends (Compared c) (bind_result c)
unfolding bind_result
bind_result-Ends c = on c.bind_type refl
  where
    second :
        (o : Owned SaslDefaults)
        → c.ldap_defaults ≡ o
        → c.bind_type ≡ bind_interactive
        → Ends (Compared c) (bind_result c)
    second unset h e = rw (e, h) tt
    second dangling h e = rw (e, h) tt
    second (valid d) h e = rw (e, h) ((refl, refl), λ f. absurd (simple-interactive f))

    on : (t : BindType) → c.bind_type ≡ t → Ends (Compared c) (bind_result c)
    on bind_interactive e = second c.ldap_defaults refl e
    on bind_simple e = rw e ((refl, refl), λ _. refl)

-- The reply to a simple bind, whatever the server says in it: the function fails, and the state is never
-- `bound`, since what is compared with `LDAP_SUCCESS` is the type of the message.
pub simple_bind-fails :
    (c : Connection)
    → c.bind_type ≡ bind_simple
    → Ends (Failed c) (connection_bind_on_read res_bind c)
unfolding connection_bind_on_read
simple_bind-fails c simple =
    Ends-bind (Compared c) (Failed c) (bind_result c) _ (bind_result-Ends c)
      (λ rc d (same, code). rw (code simple) (Failed-Ends (λ a. is_success a.result_code) c d same))
