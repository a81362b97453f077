-- ===== src/Broker/Report.antt =====
-- internal/harbor/broker.go: the read-only handlers handleState and handleDevices, and leaseInfo. The
-- devices that adb lists are an argument.
use adb_harbor.Prelude.{
  ℕ, ◌/◌, false, none, some, Option, List, [], ◌∷◌, ◌++◌, map, any, if◌then◌else◌, length,
}
use adb_harbor.Text.{Text, text, text_eq}
use adb_harbor.Map.{Map, get}
use adb_harbor.Devices.{Device}
use adb_harbor.Protocol.{LeaseInfo, WaiterInfo, StateResp, DeviceInfo, DevicesResp}
use adb_harbor.Broker.{Broker, Lease, Waiter, second, queue, cleaning_at}

-- leaseInfo
unfoldable pub lease_info : Lease → LeaseInfo
lease_info l = record {
  id = l.id;
  serial = l.serial;
  session = l.session;
  holder = l.holder;
  pid = l.pid;
  acquired_at = l.acquired_at;
  last_active = l.last_active;
  running = l.running;
  idle_ttl_sec = l.idle_ttl / second;
  explicit = l.explicit;
  expires_at = if l.explicit then some l.expires_at else none;
}

unfoldable pub waiter_info : Waiter → WaiterInfo
waiter_info wt = record { session = wt.session; holder = wt.holder; enqueued = wt.enqueued }

unfoldable pub lease_infos : Broker → Map ℕ → List LeaseInfo
lease_infos b [] = []
lease_infos b ((s, p) ∷ m) = lease_info (b.lease_heap p) ∷ lease_infos b m

unfoldable pub queue_infos : Broker → Map (List ℕ) → Map (List WaiterInfo)
queue_infos b [] = []
queue_infos b ((s, q) ∷ m) = (s, map (λ w. waiter_info (b.waiter_heap w)) q) ∷ queue_infos b m

-- (*Broker).handleState
unfoldable pub handle_state : Broker → StateResp
handle_state b = record { leases = lease_infos b b.leases; queues = queue_infos b b.queues }

abbrev pub info_at : Broker → Option ℕ → Option LeaseInfo
info_at b none = none
info_at b (some p) = some (lease_info (b.lease_heap p))

unfoldable pub device_info : Broker → Device → DeviceInfo
device_info b d = record {
  serial = d.serial;
  state = d.state;
  model = d.model;
  lease = info_at b (get b.leases d.serial);
  waiting = length (queue b d.serial);
  cleaning = cleaning_at b d.serial;
}

-- The leases of devices that adb does not list.
unfoldable pub disconnected : Broker → List Device → Map ℕ → List DeviceInfo
disconnected b devs [] = []
disconnected b devs ((s, p) ∷ m) =
    let rest = disconnected b devs m in
    if any (λ d. text_eq d.serial s) devs then rest else gone ∷ rest
  where
    gone : DeviceInfo
    gone = record {
      serial = s;
      state = text "disconnected";
      model = [];
      lease = some (lease_info (b.lease_heap p));
      waiting = length (queue b s);
      cleaning = false;
    }

-- (*Broker).handleDevices; `error` is the text of adb's failure, or empty.
unfoldable pub handle_devices : Broker → List Device → Text → DevicesResp
handle_devices b devs error = record {
  devices = map (device_info b) devs ++ disconnected b devs b.leases;
  error = error;
}
