-- ===== src/Connection/Tests.antt =====
-- The theorems on connections at concrete ones.
use libdomain.Prelude.{◌≡◌, refl, arith}
use libdomain.Ldap.{res_bind, res_extended}
use libdomain.Connection.{
  Connection, bind_interactive, run, error, tls_negotiation, bind_in_progress, fault, ◌>>◌,
}
use libdomain.Connection.Ends.{Ends, Returns}
use libdomain.Connection.Bind.{connection_close}
use libdomain.Connection.Bind.Close.{close-again}
use libdomain.Connection.Configure.{connection_configure}
use libdomain.Connection.Configure.Result.{Configured, configure-IsBlank}
use libdomain.Connection.Replies.{connection_bind_on_read, connection_start_tls_on_read}
use libdomain.Connection.Replies.Outcomes.{Failed, simple_bind-fails}
use libdomain.Connection.Replies.Answered.{
  BindAnswered, TlsAnswered, bind_on_read-Answered, start_tls_on_read-Answered,
}
use libdomain.Connection.Configure.{blank_defaults}
use libdomain.Reading.Keeps.{Waiting-same}
use libdomain.Connection.Sample.{idle_in, idle-Waiting}

configure-IsBlank_example :
    Returns (Configured (idle_in error)) (connection_configure (idle_in error))
configure-IsBlank_example = configure-IsBlank (idle_in error)

close-again_example :
    Ends
      (λ _ c'. connection_close c' ≡ fault)
      ((connection_close >> connection_configure) (idle_in run))
close-again_example = close-again (idle_in run) refl

-- A bind with SASL is on its way.
abbrev binding : Connection
binding = record (idle_in bind_in_progress) { bind_type = bind_interactive }

bind_on_read-Answered_example :
    Returns
      (BindAnswered 0 res_bind blank_defaults binding)
      (connection_bind_on_read res_bind binding)
bind_on_read-Answered_example =
    bind_on_read-Answered 0 res_bind blank_defaults binding bind_in_progress refl refl refl
      (Waiting-same 0 (idle_in bind_in_progress) binding (idle-Waiting bind_in_progress) refl refl
        refl)
      (omega arith)

simple_bind-fails_example :
    Ends
      (Failed (idle_in bind_in_progress))
      (connection_bind_on_read res_bind (idle_in bind_in_progress))
simple_bind-fails_example = simple_bind-fails (idle_in bind_in_progress) refl

start_tls_on_read-Answered_example :
    Returns
      (TlsAnswered res_extended (idle_in tls_negotiation))
      (connection_start_tls_on_read res_extended (idle_in tls_negotiation))
start_tls_on_read-Answered_example =
    start_tls_on_read-Answered res_extended (idle_in tls_negotiation) tls_negotiation refl
