-- ===== src/Broker/Ids/Steps.antt =====
-- Every section under the lock of internal/harbor/broker.go keeps the IDs of leases apart.
use adb_harbor.Prelude.{
  ℕ, ◌≡◌, refl, arith, ◌||◌, if◌then◌else◌, List, [], ◌∷◌, inl, inr, Bool-cases, true, Option, none,
  some, Option-cases, remove,
}
use adb_harbor.Text.{Text, text, is_empty}
use adb_harbor.Map.{get, delete}
use adb_harbor.Protocol.{AcquireReq, AcquireAnyReq, ReleaseReq}
use adb_harbor.Devices.{Device}
use adb_harbor.Broker.{Broker, Lease, queue}
use adb_harbor.Broker.Release.{expire, set_queue}
use adb_harbor.Broker.Waiting.{
  poll, claim, unregister, pick_up, wait_start, wait_woken, wait_timed_out, drop_waiter, holds,
}
use adb_harbor.Broker.Handlers.{
  handle_acquire, touch_lease, touched, end_command, command_ended, handle_release, lease_by_id,
  release_target, refuses, idle_of,
}
use adb_harbor.Broker.AcquireAny.{
  Inventory, listed, failed, handle_acquire_any, acquire_any, acquire_selected, Selection,
  lease_of_session, stuck_to, explicit_request, selection,
}
use adb_harbor.Broker.Reaper.{
  sweep, visits, visit, reap, orphan_reset, is_over, is_unclaimed, gc_waiters, reload_config,
  baseline_captured, cleanup_done, end_cleanup,
}
use adb_harbor.Broker.Run.{
  Step, acquires, acquires_any, acquires_locally, ticks, wakes_locally, gives_up, waits, wakes,
  times_out, beats, ends, releases, sweeps, reloads, captures, cleans_up, disk,
}
use adb_harbor.Broker.Ids.{
  HasApart, HasSameIds, same, and_then, elsewhere, same-HasApart, one_more-HasApart,
  store-HasSameIds,
}
use adb_harbor.Broker.Ids.Grants.{
  save_state-HasSameIds, set_queue-HasSameIds, grant-HasOneMore, grant_next-HasApart,
  expire-HasApart, either-HasApart, acquire_locked-HasApart,
}

-- handleWait, waitLocal and dropWaiter.
poll-HasSameIds : (b : Broker) (w now : ℕ) → HasSameIds b (poll b w now)
unfolding poll
poll-HasSameIds b w now = elsewhere refl refl refl refl

unregister-HasSameIds : (b : Broker) (w : ℕ) → HasSameIds b (unregister b w)
unfolding unregister
unregister-HasSameIds b w = elsewhere refl refl refl refl

claim-HasSameIds : (b : Broker) (p : ℕ) → HasSameIds b (claim b p)
unfolding claim
claim-HasSameIds b p = store-HasSameIds b p (record (b.lease_heap p) { claimed = true }) refl

pick_up-HasSameIds : (b : Broker) (w : ℕ) → HasSameIds b (pick_up b w).1
unfolding pick_up
pick_up-HasSameIds b w = elim (Option-cases (b.waiter_heap w).lease) [
  | inl e ↦ rw (e, pick_up) (unregister-HasSameIds b w)
  | inr (p, e) ↦
      rw (e, pick_up) (and_then (claim-HasSameIds b p) (unregister-HasSameIds (claim b p) w))
]

wait_start-HasSameIds : (b : Broker) (id : Text) (now : ℕ) → HasSameIds b (wait_start b id now).1
unfolding wait_start
wait_start-HasSameIds b id now = elim (Option-cases (get b.waiters id)) [
  | inl e ↦ rw (e, wait_start) (same b)
  | inr (w, e) ↦ elim (Option-cases ((poll b w now).waiter_heap w).lease) [
    | inl k ↦ rw (e, k, wait_start) (poll-HasSameIds b w now)
    | inr (p, k) ↦
        rw (e, k, wait_start)
          (and_then (poll-HasSameIds b w now) (pick_up-HasSameIds (poll b w now) w))
  ]
]

drop_waiter-HasApart : (b : Broker) (w now : ℕ) → HasApart b → HasApart (drop_waiter b w now)
unfolding drop_waiter
drop_waiter-HasApart b w now h = go (b.waiter_heap w).lease
  where
    serial : Text
    serial = (b.waiter_heap w).serial

    b2 : Broker
    b2 = set_queue (unregister b w) serial (remove w (queue (unregister b w) serial))

    left : HasApart b2
    left =
        same-HasApart
          (and_then (unregister-HasSameIds b w) (set_queue-HasSameIds (unregister b w) serial _)) h

    go :
        (o : Option ℕ)
        → HasApart (elim o as (λ x. Broker) [
          | none ↦ b2
          | some p ↦
              if holds (get b2.leases serial) p then expire b2 p (text "abandoned") now else b2
        ])
    go none = left
    go (some p) =
        either-HasApart (holds (get b2.leases serial) p) _ _
          (expire-HasApart b2 p (text "abandoned") now left) left

-- Heartbeats, ended commands, releases.
touch_lease-HasSameIds : (b : Broker) (id : Text) (now : ℕ) → HasSameIds b (touch_lease b id now)
unfolding touch_lease touched
touch_lease-HasSameIds b id now = elim (Option-cases (lease_by_id b id)) [
  | inl e ↦ rw (e, touch_lease) (same b)
  | inr (p, e) ↦ rw (e, touch_lease) (store-HasSameIds b p (touched (b.lease_heap p) now) refl)
]

end_command-HasSameIds : (b : Broker) (id : Text) (now : ℕ) → HasSameIds b (end_command b id now)
unfolding end_command command_ended
end_command-HasSameIds b id now = elim (Option-cases (lease_by_id b id)) [
  | inl e ↦ rw (e, end_command) (same b)
  | inr (p, e) ↦
      rw (e, end_command) (store-HasSameIds b p (command_ended (b.lease_heap p) now) refl)
]

handle_release-HasApart :
    (b : Broker) (req : Option ReleaseReq) (now : ℕ)
    → HasApart b
    → HasApart (handle_release b req now).1
unfolding handle_release
handle_release-HasApart b none now h = h
handle_release-HasApart b (some req) now h = elim (Option-cases (release_target b req)) [
  | inl e ↦ rw (e, handle_release) h
  | inr (p, e) ↦ elim (Bool-cases (refuses req (b.lease_heap p))) [
    | inl k ↦ rw (e, k, handle_release) h
    | inr k ↦ rw (e, k, handle_release) (expire-HasApart b p _ now h)
  ]
]

-- handleAcquire and handleAcquireAny.
handle_acquire-HasApart :
    (b : Broker) (req : Option AcquireReq) (now : ℕ)
    → HasApart b
    → HasApart (handle_acquire b req now).1
unfolding handle_acquire
handle_acquire-HasApart b none now h = h
handle_acquire-HasApart b (some req) now h =
    elim (Bool-cases (is_empty req.serial || is_empty req.session)) [
      | inl e ↦ rw (e, handle_acquire) h
      | inr e ↦ rw (e, handle_acquire) (acquire_locked-HasApart b req now (idle_of b req) h)
    ]

acquire_selected-HasApart :
    (b : Broker) (req : AcquireAnyReq) (now : ℕ) (sel : Selection)
    → HasApart b
    → HasApart (acquire_selected b req now sel).1
unfolding acquire_selected
acquire_selected-HasApart b req now sel h = elim (Bool-cases (is_empty sel.serial)) [
  | inl e ↦ rw (e, acquire_selected) h
  | inr e ↦
      rw (e, acquire_selected)
        (one_more-HasApart (grant-HasOneMore b (explicit_request req sel.serial) now _) h)
]

acquire_any-HasApart :
    (b : Broker) (req : AcquireAnyReq) (devs : List Device) (now : ℕ)
    → HasApart b
    → HasApart (acquire_any b req devs now).1
unfolding acquire_any stuck_to
acquire_any-HasApart b req devs now h = elim (Option-cases (lease_of_session b req.session)) [
  | inl e ↦ rw (e, acquire_any) (acquire_selected-HasApart b req now (selection b req devs) h)
  | inr (p, e) ↦
      rw (e, acquire_any)
        (same-HasApart (store-HasSameIds b p (stuck_to b req now (b.lease_heap p)) refl) h)
]

handle_acquire_any-HasApart :
    (b : Broker) (req : Option AcquireAnyReq) (inv : Inventory) (now : ℕ)
    → HasApart b
    → HasApart (handle_acquire_any b req inv now).1
unfolding handle_acquire_any
handle_acquire_any-HasApart b none inv now h = h
handle_acquire_any-HasApart b (some req) (failed e) now h =
    elim (Bool-cases (is_empty req.session)) [ inl k ↦ rw k h | inr k ↦ rw k h ]
handle_acquire_any-HasApart b (some req) (listed devs) now h =
    elim (Bool-cases (is_empty req.session)) [
      | inl k ↦ rw k h
      | inr k ↦ rw k (acquire_any-HasApart b req devs now h)
    ]

-- The reaper.
orphan_reset_id : (l : Lease) (now : ℕ) → (orphan_reset l now).id ≡ l.id
unfolding orphan_reset
orphan_reset_id l now = ground arith

reap-HasApart : (b : Broker) (p now later : ℕ) → HasApart b → HasApart (reap b p now later)
unfolding reap
reap-HasApart b p now later h =
    let stored =
      same-HasApart
        (store-HasSameIds b p (orphan_reset (b.lease_heap p) now)
          (orphan_reset_id (b.lease_heap p) now))
        h in
    either-HasApart (is_unclaimed (b.lease_heap p) now) _ _
      (expire-HasApart b p (text "unclaimed") later h)
      (either-HasApart (is_over (orphan_reset (b.lease_heap p) now) now) _ _
        (expire-HasApart _ p _ later stored) stored)

visit-HasApart : (b : Broker) (now : ℕ) (v : Text × ℕ) → HasApart b → HasApart (visit b now v)
unfolding visit
visit-HasApart b now (s, later) h = elim (Option-cases (get b.leases s)) [
  | inl e ↦ rw (e, visit) h
  | inr (p, e) ↦ rw (e, visit) (reap-HasApart b p now later h)
]

visits-HasApart :
    (vs : List (Text × ℕ)) (b : Broker) (now : ℕ) → HasApart b → HasApart (visits b now vs)
unfolding visits
visits-HasApart [] b now h = h
visits-HasApart (v ∷ vs) b now h = visits-HasApart vs (visit b now v) now (visit-HasApart b now v h)

sweep-HasApart :
    (b : Broker) (now : ℕ) (vs : List (Text × ℕ)) → HasApart b → HasApart (sweep b now vs)
unfolding sweep gc_waiters
sweep-HasApart b now vs h =
    same-HasApart (elsewhere refl refl refl refl) (visits-HasApart vs b now h)

baseline_captured-HasSameIds :
    (b : Broker) (id : Text) (pkgs : Option (List Text))
    → HasSameIds b (baseline_captured b id pkgs)
unfolding baseline_captured
baseline_captured-HasSameIds b id none = same b
baseline_captured-HasSameIds b id (some pkgs) = elim (Option-cases (lease_by_id b id)) [
  | inl e ↦ rw (e, baseline_captured) (same b)
  | inr (p, e) ↦
      rw (e, baseline_captured)
        (and_then (store-HasSameIds b p (record (b.lease_heap p) { baseline = pkgs }) refl)
          (save_state-HasSameIds _))
]

cleanup_done-HasApart : (b : Broker) (p now : ℕ) → HasApart b → HasApart (cleanup_done b p now)
unfolding cleanup_done
cleanup_done-HasApart b p now h = same-HasApart (save_state-HasSameIds _) (
    grant_next-HasApart
      (record b {
        cleaning = delete b.cleaning (b.lease_heap p).serial;
        tasks = end_cleanup p b.tasks;
      })
      (b.lease_heap p).serial now (same-HasApart (elsewhere refl refl refl refl) h))

-- A step of the daemon keeps the IDs of its leases apart.
pub Step-HasApart : {b c : Broker} → Step b c → HasApart b → HasApart c
unfolding wait_woken wait_timed_out reload_config
Step-HasApart {b} (acquires req now) h = handle_acquire-HasApart b req now h
Step-HasApart {b} (acquires_any req inv now) h = handle_acquire_any-HasApart b req inv now h
Step-HasApart {b} (acquires_locally req now idle) h = acquire_locked-HasApart b req now idle h
Step-HasApart {b} (ticks w now) h = same-HasApart (poll-HasSameIds b w now) h
Step-HasApart {b} (wakes_locally w k) h = same-HasApart (pick_up-HasSameIds b w) h
Step-HasApart {b} (gives_up w now) h = drop_waiter-HasApart b w now h
Step-HasApart {b} (waits id now) h = same-HasApart (wait_start-HasSameIds b id now) h
Step-HasApart {b} (wakes w k) h = same-HasApart (pick_up-HasSameIds b w) h
Step-HasApart {b} (times_out w now) h = same-HasApart (poll-HasSameIds b w now) h
Step-HasApart {b} (beats id now) h = same-HasApart (touch_lease-HasSameIds b id now) h
Step-HasApart {b} (ends id now) h = same-HasApart (end_command-HasSameIds b id now) h
Step-HasApart {b} (releases req now) h = handle_release-HasApart b req now h
Step-HasApart {b} (sweeps now vs) h = sweep-HasApart b now vs h
Step-HasApart {b} (reloads cfg) h = same-HasApart (elsewhere refl refl refl refl) h
Step-HasApart {b} (captures id pkgs) h = same-HasApart (baseline_captured-HasSameIds b id pkgs) h
Step-HasApart {b} (cleans_up p now k) h = cleanup_done-HasApart b p now h
Step-HasApart {b} (disk works) h = same-HasApart (elsewhere refl refl refl refl) h
