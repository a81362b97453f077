-- ===== src/Broker/Revival.antt =====
-- A restart of the daemon, internal/harbor/broker.go: RunDaemon saves the leases when it is told to stop,
-- and loadState reads them back.
use adb_harbor.Prelude.{ℕ, ◌<◌, ◌≡◌, Option, none, some, [], ◌∷◌}
use adb_harbor.Text.{Text}
use adb_harbor.Config.{Config}
use adb_harbor.Map.{Map, get}
use adb_harbor.Broker.{Broker, Lease}
use adb_harbor.Broker.Restart.{revived}

abbrev pub at_pointer : (ℕ → Lease) → Option ℕ → Option Lease
at_pointer heap none = none
at_pointer heap (some p) = some (heap p)

-- The lease on a device.
abbrev pub lease_at : Broker → Text → Option Lease
lease_at b s = at_pointer b.lease_heap (get b.leases s)

-- A lease as a restart leaves it.
abbrev pub revived_option : ℕ → Option Lease → Option Lease
revived_option now none = none
revived_option now (some l) = some (revived now l)

-- Each entry stands under its own serial.
Keyed : (ℕ → Lease) → Map ℕ → Type 0
Keyed heap [] = Unit
Keyed heap ((k, p) ∷ m) = ((heap p).serial ≡ k) × Keyed heap m

-- The map only has pointers below the next one.
abbrev Bounded : Broker → Type 0
Bounded b = (s : Text) (p : ℕ) → get b.leases s ≡ some p → p < b.next_lease

after_restore : ℕ → (ℕ → Lease) → Option ℕ → Option Lease → Option Lease
after_restore now heap none before = before
after_restore now heap (some p) before = some (revived now (heap p))
