-- ===== src/Broker/Handlers.antt =====
-- internal/harbor/broker.go: the handlers of /v1/acquire, /v1/heartbeat, /v1/end and /v1/release, the
-- proxy's TouchLease and EndLeaseCommand, and leaseByIDLocked. A request that does not decode is
-- `none`; an answer `none` is the status 400.
use adb_harbor.Prelude.{
  ℕ, ◌-◌, ◌*◌, Bool, true, false, not, ◌&&◌, ◌||◌, Option, none, some, [], ◌++◌, ltb, if◌then◌else◌,
  length,
}
use adb_harbor.Text.{Text, text, text_eq, is_empty}
use adb_harbor.Map.{get, find}
use adb_harbor.Protocol.{AcquireReq, AcquireResp, ReleaseReq, ReleaseResp}
use adb_harbor.Broker.{Broker, Lease, second, queue, serial_desc}
use adb_harbor.Broker.Grant.{Acquired, leased, queued, acquire_locked}
use adb_harbor.Broker.Release.{expire}
use adb_harbor.Broker.Waiting.{store_lease}

-- (*Broker).leaseByIDLocked
unfoldable pub lease_by_id : Broker → Text → Option ℕ
lease_by_id b id = find (λ p. text_eq (b.lease_heap p).id id) b.leases

unfoldable pub idle_of : Broker → AcquireReq → ℕ
idle_of b req =
    if ltb 0 req.idle_ttl_sec then req.idle_ttl_sec * second else b.cfg.idle_ttl_sec * second

abbrev pub acquire_resp : Broker → AcquireReq → ℕ → Acquired → AcquireResp
acquire_resp b req now (leased p) = record {
  granted = true;
  lease_id = (b.lease_heap p).id;
  waiter_id = [];
  position = 0;
  holder_desc = [];
}
acquire_resp b req now (queued w) = record {
  granted = false;
  lease_id = [];
  waiter_id = (b.waiter_heap w).id;
  position = length (queue b req.serial);
  holder_desc = serial_desc b req.serial now;
}

-- (*Broker).handleAcquire
unfoldable pub handle_acquire : Broker → Option AcquireReq → ℕ → Option AcquireResp × Broker
handle_acquire b none now = (none, b)
handle_acquire b (some req) now =
    if is_empty req.serial || is_empty req.session
    then (none, b)
    else let (a, b1) = acquire_locked b req now (idle_of b req) in
      (some (acquire_resp b1 req now a), b1)

-- A sign of life: the body of handleHeartbeat and of TouchLease.
unfoldable pub touched : Lease → ℕ → Lease
touched l now = record l { last_active = now; last_beat = now; claimed = true }

-- (*Broker).handleHeartbeat and (*Broker).TouchLease
unfoldable pub touch_lease : Broker → Text → ℕ → Broker
touch_lease b id now = elim (lease_by_id b id) [
  | none ↦ b
  | some p ↦ store_lease b p (touched (b.lease_heap p) now)
]

-- A command has ended; the count stops at 0.
unfoldable pub command_ended : Lease → ℕ → Lease
command_ended l now = record l {
  running = if ltb 0 l.running then l.running - 1 else l.running;
  last_beat = now;
  last_active = now;
  claimed = true;
}

-- (*Broker).handleEnd and (*Broker).EndLeaseCommand
unfoldable pub end_command : Broker → Text → ℕ → Broker
end_command b id now = elim (lease_by_id b id) [
  | none ↦ b
  | some p ↦ store_lease b p (command_ended (b.lease_heap p) now)
]

-- The lease that a release names: by its ID, else by the serial.
unfoldable pub release_target : Broker → ReleaseReq → Option ℕ
release_target b req =
    if not (is_empty req.lease_id)
    then lease_by_id b req.lease_id
    else if not (is_empty req.serial)
    then get b.leases req.serial
    else none

-- !req.Force && req.LeaseID == "" && l.Session != req.Session
unfoldable pub refuses : ReleaseReq → Lease → Bool
refuses req l = not req.force && is_empty req.lease_id && not (text_eq l.session req.session)

abbrev pub refusal : Lease → Text
refusal l =
    text "device held by "
    ++ l.holder
    ++ text " (session "
    ++ l.session
    ++ text "); use --force to override"

-- (*Broker).handleRelease
unfoldable pub handle_release : Broker → Option ReleaseReq → ℕ → Option ReleaseResp × Broker
handle_release b none now = (none, b)
handle_release b (some req) now = elim (release_target b req) [
  | none ↦ (some (record { released = true; message = text "no active lease" }), b)
  | some p ↦
      let l = b.lease_heap p in
      let forced = req.force && not (text_eq l.session req.session) in
      if refuses req l then (some (record { released = false; message = refusal l }), b) else (
        some (record { released = true; message = [] }),
        expire b p (if forced then text "force-released" else text "released") now,
      )
]
