-- ===== src/Connection/Configure/Rule/Whole.antt =====
-- The rule for `connection_configure` as a whole.
use libdomain.Prelude.{◌==◌, Option, some, Ptr, null, update, update_self, inl, inr, Bool-cases}
use libdomain.Ldap.{is_success, call_talloc, call_initialize}
use libdomain.Connection.{Connection, ConnectionState, init, ReturnCode, M, log, ◌>>◌}
use libdomain.Connection.States.{csm_init}
use libdomain.Connection.Ends.{Returns}
use libdomain.Connection.Configure.{
  timeouts, options, defaults, sasl, tls, reset, finish, connection_configure,
}
use libdomain.Connection.Configure.Rule.{
  Stable, Started, Alive, Defaulted, Fine, fail-Fails, options-Fine, tls-Fine, defaults-Fine,
  sasl-Fine, timeouts-Fine, AndAlive, alive-Stable, AndDefaulted, defaulted-Stable,
}

module _ (Q : Connection → Type 0) (P : ReturnCode → Connection → Type 0) (s : Stable Q P) where
  -- The lines from the first timeout on.
  rest-Fine :
      (m : Ptr) (n : M ReturnCode)
      → Fine (AndDefaulted Q P s) P (defaulted-Stable Q P s) n
      → Fine Q P s (timeouts m (options m (defaults m (sasl m (tls m n)))))
  rest-Fine m n hn =
      let after =
        sasl-Fine _ P (defaulted-Stable Q P s) m _ (tls-Fine _ P (defaulted-Stable Q P s) m n hn) in
      timeouts-Fine Q P s m _
        (options-Fine Q P s m _ (defaults-Fine Q P s m _ (λ c q d. after c (q, d))))

module _ (Q : Connection → Type 0) (P : ReturnCode → Connection → Type 0) (s : Stable Q P) where
  -- What holds of the last lines, when the machine and the defaults are there, holds of the whole
  -- function.
  pub configure-Fine :
      Started Q
      → ((m : Ptr) (c : Connection)
          → (Q c × Alive c) × Defaulted c
          → Returns P ((reset >> finish m) c))
      → (c : Connection) → Q c
      → Returns P (connection_configure c)
  unfolding connection_configure csm_init
  configure-Fine started last c q =
      let c₁ = log call_talloc c in
      let c₂ = log (call_initialize c.config.server) c₁ in
      let c₃ = log call_talloc c₂ in
      let q₁ = s.logged call_talloc c q in
      let q₂ = s.logged (call_initialize c.config.server) c₁ q₁ in
      let m = (c.world c₃.trace).ptr in
      let q₃ = λ (f : Ptr → Option ConnectionState). started m f c₃ (s.logged call_talloc c₂ q₂) in
      elim (Bool-cases ((c.world c₁.trace).ptr == null)) [
        | inl e ↦ rw e (s.failed c.machines c.ldap_defaults _ q₁ (_, inl e))
        | inr e ↦ rw e (elim (Bool-cases (is_success (c.world c₂.trace).code)) [
          | inr f ↦ rw f (fail-Fails Q P s _ q₂ (_, inr f))
          | inl f ↦ rw f (elim (Bool-cases (m == null)) [
            | inl g ↦ rw g (fail-Fails Q P s _ (q₃ c.machines) (_, inl g))
            | inr g ↦ rw g (
                rest-Fine (AndAlive Q P s) P (alive-Stable Q P s) m (reset >> finish m) (last m) _
                  (q₃ (update c.machines m (some init)), update_self c.machines m (some init)))
          ])
        ])
      ]
