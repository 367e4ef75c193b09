-- ===== src/Domain/Session/Opened.antt =====
-- What `ld_init` of src/domain.c leaves behind.
use libdomain.Prelude.{◌≡◌, Bool, false, CString}
use libdomain.Connection.{Connection, Config, M}
use libdomain.Connection.Ends.{Returns}
use libdomain.Connection.Configure.Rule.{Refused, Defaulted, Alive}
use libdomain.Connection.Configure.Result.{IsBlank}
use libdomain.Domain.Config.{LdConfig}
use libdomain.Domain.Session.{Session, no_handle, uninitialised, session}
use libdomain.Domain.Session.Setup.{setup_of}

-- What is left of a call that began at `c₀`.
abbrev pub Opened : Connection → LdConfig → CString → Session → Connection → Type 0
Opened c₀ config username no_handle c = Refused c₀
Opened c₀ config username uninitialised c = ⊥
Opened c₀ config username (session own) c =
    (own ≡ config)
    × (c.config ≡ setup_of config username)
    × (c.world ≡ c₀.world)
    × Defaulted c
    × Alive c
    × IsBlank c

module _ (c₀ : Connection) (config : LdConfig) (username : CString) where
  abbrev Target : Session → Connection → Type 0
  Target = Opened c₀ config username

  -- A run with the libraries of `c₀`, from a connection with the configuration `k`.
  abbrev Opens : Config → M Session → Type 0
  Opens k m = (c : Connection) → c.world ≡ c₀.world → c.config ≡ k → Returns Target (m c)

  -- Allocations keep the libraries and the configuration, and fail only if one is refused.
  abbrev Kept : Config → Bool → Connection → Type 0
  Kept k ok c = (c.world ≡ c₀.world) × (c.config ≡ k) × (ok ≡ false → Refused c₀)
