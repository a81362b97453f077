-- ===== src/Broker/Grant.antt =====
-- internal/harbor/broker.go: acquireLocked, grantLocked, explicitTTL.
use adb_harbor.Prelude.{
  ℕ, suc, ◌+◌, ◌*◌, true, false, none, some, [], ◌∷◌, ◌++◌, ltb, if◌then◌else◌,
}
use adb_harbor.Text.{Text, text, text_eq}
use adb_harbor.Map.{get, put}
use adb_harbor.Protocol.{AcquireReq}
use adb_harbor.Broker.{
  Broker, Lease, Waiter, second, update, queue, cleaning_at, new_id, hist, save_state, spawn,
  capture_baseline,
}

-- (*Broker).explicitTTL
unfoldable pub explicit_ttl : Broker → AcquireReq → ℕ
explicit_ttl b req =
    if ltb 0 req.ttl_sec then req.ttl_sec * second else b.cfg.explicit_ttl_sec * second

unfoldable pub fresh_lease : Broker → AcquireReq → ℕ → ℕ → Lease
unfolding explicit_ttl
fresh_lease b req now idle = record {
  id = new_id b (text "lease");
  serial = req.serial;
  session = req.session;
  holder = req.holder;
  pid = req.pid;
  acquired_at = now;
  last_active = now;
  last_beat = now;
  running = if req.command then 1 else 0;
  idle_ttl = idle;
  explicit = req.explicit;
  expires_at = if req.explicit then now + explicit_ttl b req else 0;
  claimed = true;
  baseline = [];
}

abbrev pub capture_if_enabled : Broker → Text → Text → Broker
capture_if_enabled b id serial =
    if b.cfg.cleanup_enabled then spawn b (capture_baseline id serial) else b

-- (*Broker).grantLocked; the new lease is at the old `next_lease`.
unfoldable pub grant : Broker → AcquireReq → ℕ → ℕ → Broker
unfolding fresh_lease hist save_state
grant b req now idle =
    let l = fresh_lease b req now idle in
    let p = b.next_lease in
    let b1 : Broker = record b {
      seq = suc b.seq;
      lease_heap = update b.lease_heap p l;
      next_lease = suc p;
      leases = put b.leases req.serial p;
    } in
    save_state (capture_if_enabled (hist b1 (text "grant") l []) l.id l.serial)

unfoldable pub fresh_waiter : Broker → AcquireReq → ℕ → ℕ → Waiter
fresh_waiter b req now idle = record {
  id = new_id b (text "w");
  serial = req.serial;
  session = req.session;
  holder = req.holder;
  command = req.command;
  idle_ttl = idle;
  enqueued = now;
  last_poll = now;
  closed = false;
  lease = none;
}

-- The two places of acquireLocked that queue; the new waiter is at the old `next_waiter`.
unfoldable pub enqueue : Broker → AcquireReq → ℕ → ℕ → Broker
unfolding fresh_waiter
enqueue b req now idle =
    let wt = fresh_waiter b req now idle in
    let w = b.next_waiter in
    record b {
      seq = suc b.seq;
      waiter_heap = update b.waiter_heap w wt;
      next_waiter = suc w;
      queues = put b.queues req.serial (queue b req.serial ++ w ∷ []);
      waiters = put b.waiters wt.id w;
    }

-- The renewal of a lease by its own session.
unfoldable pub renewed : Broker → AcquireReq → ℕ → ℕ → Lease → Lease
unfolding explicit_ttl
renewed b req now idle l = record l {
  last_active = now;
  last_beat = now;
  idle_ttl = idle;
  claimed = true;
  running = if req.command then suc l.running else l.running;
  explicit = if req.explicit then true else l.explicit;
  expires_at = if req.explicit then now + explicit_ttl b req else l.expires_at;
}

unfoldable pub renew : Broker → AcquireReq → ℕ → ℕ → ℕ → Broker
unfolding renewed
renew b req now idle p = record b {
  lease_heap = update b.lease_heap p (renewed b req now idle (b.lease_heap p));
}

-- The pair of pointers that acquireLocked returns: exactly one of them is not nil.
pub data Acquired : Type 0 where
  leased : ℕ → Acquired
  queued : ℕ → Acquired

-- (*Broker).acquireLocked
unfoldable pub acquire_locked : Broker → AcquireReq → ℕ → ℕ → Acquired × Broker
acquire_locked b req now idle =
    if cleaning_at b req.serial
    then (queued b.next_waiter, enqueue b req now idle)
    else elim (get b.leases req.serial) [
      | none ↦ (leased b.next_lease, grant b req now idle)
      | some p ↦
          if text_eq (b.lease_heap p).session req.session
          then (leased p, renew b req now idle p)
          else (queued b.next_waiter, enqueue b req now idle)
    ]
