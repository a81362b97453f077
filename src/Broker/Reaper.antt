-- ===== src/Broker/Reaper.antt =====
-- internal/harbor/broker.go: the reaper's sweep, and the goroutines of internal/harbor/cleanup.go
-- that it races with (captureBaseline, the end of runCleanup).
use adb_harbor.Prelude.{
  ℕ, ◌+◌, ◌-◌, Bool, not, ◌&&◌, Option, none, some, List, [], ◌∷◌, ltb, ◌==◌, if◌then◌else◌,
}
use adb_harbor.Text.{Text, text}
use adb_harbor.Map.{get, delete, delete_if}
use adb_harbor.Config.{Config}
use adb_harbor.Broker.{
  Broker, Lease, Waiter, Task, capture_baseline, run_cleanup, orphan_beat, stale_waiter,
  unclaimed_grace, save_state,
}
use adb_harbor.Broker.Release.{is_none, expire, grant_next}
use adb_harbor.Broker.Waiting.{store_lease}
use adb_harbor.Broker.Handlers.{lease_by_id}

-- A lease with running commands and no heartbeat for long: the count is reset.
unfoldable pub is_orphaned : Lease → ℕ → Bool
is_orphaned l now = ltb 0 l.running && ltb orphan_beat (now - l.last_beat)

unfoldable pub orphan_reset : Lease → ℕ → Lease
orphan_reset l now = if is_orphaned l now then record l { running = 0; last_active = now } else l

-- now.After(l.ExpiresAt) of an explicit lease; now.Sub(l.LastActive) > l.IdleTTL of another.
unfoldable pub is_over : Lease → ℕ → Bool
is_over l now =
    l.running == 0
    && (if l.explicit then ltb l.expires_at now else ltb (l.last_active + l.idle_ttl) now)

unfoldable pub is_unclaimed : Lease → ℕ → Bool
is_unclaimed l now = not l.claimed && ltb unclaimed_grace (now - l.acquired_at)

abbrev pub over_reason : Lease → Text
over_reason l = if l.explicit then text "expired" else text "idle-released"

-- One round of the reaper's loop over b.leases, at the lease `p`. `now` is the sweep's reading of the
-- clock, `then_` the one that expireLocked makes.
unfoldable pub reap : Broker → ℕ → ℕ → ℕ → Broker
reap b p now then_ =
    let l = b.lease_heap p in
    let l1 = orphan_reset l now in
    let b1 = store_lease b p l1 in
    if is_unclaimed l now
    then expire b p (text "unclaimed") then_
    else if is_over l1 now
    then expire b1 p (over_reason l1) then_
    else b1

-- A round visits a serial that the map holds at that moment. The range's order, and whether it comes
-- to a lease that was granted during the range, are open: the sweep takes the visits as a list.
unfoldable pub visit : Broker → ℕ → Text × ℕ → Broker
visit b now (serial, then_) = elim (get b.leases serial) [ none ↦ b | some p ↦ reap b p now then_ ]

unfoldable pub visits : Broker → ℕ → List (Text × ℕ) → Broker
visits b now [] = b
visits b now (v ∷ vs) = visits (visit b now v) now vs

-- wt.lease != nil && now.Sub(wt.LastPoll) > staleWaiter
unfoldable pub is_forgotten : ℕ → Waiter → Bool
is_forgotten now wt = not (is_none wt.lease) && ltb stale_waiter (now - wt.last_poll)

unfoldable pub gc_waiters : Broker → ℕ → Broker
gc_waiters b now = record b {
  waiters = delete_if (λ w. is_forgotten now (b.waiter_heap w)) b.waiters;
}

-- The body of (*Broker).reaper under the lock.
unfoldable pub sweep : Broker → ℕ → List (Text × ℕ) → Broker
sweep b now vs = gc_waiters (visits b now vs) now

-- (*Broker).reloadConfigIfChanged, when the file has changed.
unfoldable pub reload_config : Broker → Config → Broker
reload_config b cfg = record b { cfg = cfg }

-- captureBaseline from the point where `pm list packages` has ended; `none` when it failed.
unfoldable pub baseline_captured : Broker → Text → Option (List Text) → Broker
baseline_captured b lease_id none = b
baseline_captured b lease_id (some pkgs) = elim (lease_by_id b lease_id) [
  | none ↦ b
  | some p ↦ save_state (store_lease b p (record (b.lease_heap p) { baseline = pkgs }))
]

-- A goroutine `runCleanup` ends.
unfoldable pub end_cleanup : ℕ → List Task → List Task
end_cleanup p [] = []
end_cleanup p (capture_baseline id s ∷ ts) = capture_baseline id s ∷ end_cleanup p ts
end_cleanup p (run_cleanup q ∷ ts) =
    let rest = end_cleanup p ts in if q == p then ts else run_cleanup q ∷ rest

-- The last section of runCleanup for the lease at `p`, with which the goroutine ends.
unfoldable pub cleanup_done : Broker → ℕ → ℕ → Broker
cleanup_done b p now =
    let serial = (b.lease_heap p).serial in
    let b1 : Broker = record b {
      cleaning = delete b.cleaning serial;
      tasks = end_cleanup p b.tasks;
    } in
    save_state (grant_next b1 serial now)
