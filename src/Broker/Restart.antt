-- ===== src/Broker/Restart.antt =====
-- internal/harbor/broker.go: the state that RunDaemon starts from, and loadState.
use adb_harbor.Prelude.{ℕ, suc, Bool, true, false, Option, none, some, List, [], ◌∷◌}
use adb_harbor.Map.{put}
use adb_harbor.Config.{Config}
use adb_harbor.Broker.{Broker, Lease, Waiter, update}

abbrev pub no_lease : Lease
no_lease = record {
  id = [];
  serial = [];
  session = [];
  holder = [];
  pid = 0;
  acquired_at = 0;
  last_active = 0;
  last_beat = 0;
  running = 0;
  idle_ttl = 0;
  explicit = false;
  expires_at = 0;
  claimed = false;
  baseline = [];
}

abbrev pub no_waiter : Waiter
no_waiter = record {
  id = [];
  serial = [];
  session = [];
  holder = [];
  command = false;
  idle_ttl = 0;
  enqueued = 0;
  last_poll = 0;
  closed = false;
  lease = none;
}

-- The empty broker of RunDaemon, with the content of state.json and whether the disk can be written.
unfoldable pub start : Config → ℕ → List Lease → Bool → Broker
start cfg pid saved disk_ok = record {
  cfg = cfg;
  pid = pid;
  seq = 0;
  lease_heap = λ p. no_lease;
  next_lease = 0;
  waiter_heap = λ w. no_waiter;
  next_waiter = 0;
  leases = [];
  queues = [];
  waiters = [];
  cleaning = [];
  tasks = [];
  history = [];
  saved = saved;
  disk_ok = disk_ok;
  panicked = false;
}

-- A restored lease has no live commands.
unfoldable pub revived : ℕ → Lease → Lease
revived now l = record l { running = 0; claimed = true; last_beat = now }

unfoldable pub restore_lease : ℕ → Broker → Lease → Broker
restore_lease now b l = record b {
  lease_heap = update b.lease_heap b.next_lease (revived now l);
  next_lease = suc b.next_lease;
  leases = put b.leases l.serial b.next_lease;
}

unfoldable pub restore : ℕ → Broker → List Lease → Broker
restore now b [] = b
restore now b (l ∷ ls) = restore now (restore_lease now b l) ls

-- (*Broker).loadState, from a file that holds the leases `saved`, or that cannot be read.
unfoldable pub load_state : ℕ → Broker → Option (List Lease) → Broker
load_state now b none = b
load_state now b (some saved) = restore now b saved
