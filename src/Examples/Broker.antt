-- ===== src/Examples/Broker.antt =====
-- A daemon with two sessions that want one device, internal/harbor/broker.go.
use adb_harbor.Prelude.{
  ℕ, ap, ◌∙◌, ◌+◌, ◌*◌, ◌≡◌, ◌≢◌, refl, inl, inr, Bool, true, false, ◌⊎◌, none, some, [], ◌∷◌, mem,
  arith, leb,
}
use adb_harbor.Text.{Text, text, text_eq}
use adb_harbor.Map.{get, put, delete, find, values}
use adb_harbor.Config.{Config, default_config}
use adb_harbor.Devices.{Device}
use adb_harbor.Protocol.{AcquireReq, ReleaseReq}
use adb_harbor.Broker.{Broker, queue, cleaning_at, second, new_id, hist, save_state}
use adb_harbor.Text.Decimal.{decimal}
use adb_harbor.Broker.Grant.{
  acquire_locked, grant, enqueue, fresh_lease, fresh_waiter, explicit_ttl,
}
use adb_harbor.Broker.Release.{expire, wants_cleanup, end_lease, grant_next}
use adb_harbor.Broker.Reaper.{reap, sweep, baseline_captured}
use adb_harbor.Broker.Handlers.{
  handle_acquire, handle_release, end_command, command_ended, lease_by_id, idle_of, release_target,
  refuses,
}
use adb_harbor.Broker.Waiting.{store_lease, position, holds}
use adb_harbor.Broker.AcquireAny.{select_any}
use adb_harbor.Broker.Restart.{start, load_state}
use adb_harbor.Broker.Run.{Reachable, boots, moves, acquires, ends, captures, releases, sweeps}
use adb_harbor.Broker.Valid.{core, cleanups_of, IsValid}
use adb_harbor.Broker.Valid.Reached.{Reachable-Valid}
use adb_harbor.Broker.Valid.AcquireAny.{Selects, select_any-Selects}
use adb_harbor.Broker.Exclusion.{
  AcquireSpec, acquire_locked-AcquireSpec, waits_for_reason, cleanup_is_exclusive,
}
use adb_harbor.Broker.Expiry.{ExpireSpec, expire-ExpireSpec}
use adb_harbor.Broker.Reclaim.{
  IsDue, IsOrphaned, IsLively, sweep-one, reap_orphaned, reap_lively, reclaims_due,
  reclaims_orphaned,
}

-- What a run unfolds.
unfoldable pub runs : Bool
unfolding load_state start handle_acquire acquire_locked grant enqueue fresh_lease fresh_waiter get
    put text_eq idle_of explicit_ttl hist save_state new_id decimal values position
    baseline_captured lease_by_id find handle_release release_target refuses expire end_lease
    wants_cleanup delete grant_next end_command command_ended
runs = true

abbrev pub phone : Text
phone = text "R5"

abbrev first_request : AcquireReq
first_request = record {
  serial = phone;
  session = text "claude-7";
  holder = text "claude-7";
  pid = 7;
  idle_ttl_sec = 0;
  ttl_sec = 0;
  explicit = false;
  command = true;
}

abbrev pub second_request : AcquireReq
second_request = record {
  serial = phone;
  session = text "codex-9";
  holder = text "codex-9";
  pid = 9;
  idle_ttl_sec = 0;
  ttl_sec = 0;
  explicit = false;
  command = true;
}

abbrev cleaning_config : Config
cleaning_config = record default_config { cleanup_enabled = true }

-- The daemon has just started, without a state file.
abbrev fresh : Broker
fresh = load_state 0 (start cleaning_config 1 [] true) none

fresh-Reachable : Reachable fresh
fresh-Reachable = boots cleaning_config 1 0 [] true none

-- The first session has the phone.
abbrev pub taken : Broker
taken = (handle_acquire fresh (some first_request) 1).1

pub taken-Reachable : Reachable taken
taken-Reachable = moves fresh-Reachable (acquires (some first_request) 1)

-- The second session waits for it.
abbrev pub contended : Broker
contended = (handle_acquire taken (some second_request) 2).1

pub contended-Reachable : Reachable contended
contended-Reachable = moves taken-Reachable (acquires (some second_request) 2)

pub contended-held : get contended.leases phone ≡ some 0
unfolding runs
contended-held = refl

pub contended-queued : mem 0 (queue contended phone) ≡ true
unfolding runs
contended-queued = refl

-- The packages on the phone are known, and the first session releases it: the phone is cleaned.
abbrev captured : Broker
captured = baseline_captured contended (text "lease-1-1") (some (text "com.app" ∷ []))

captured-Reachable : Reachable captured
captured-Reachable =
    moves contended-Reachable (captures (text "lease-1-1") (some (text "com.app" ∷ [])))

abbrev release_request : ReleaseReq
release_request = record { serial = phone; lease_id = []; session = text "claude-7"; force = false }

abbrev released : Broker
released = (handle_release captured (some release_request) 3).1

released-Reachable : Reachable released
released-Reachable = moves captured-Reachable (releases (some release_request) 3)

released-cleaned :
    (mem 0 (cleanups_of released.tasks) ≡ true) × ((released.lease_heap 0).serial ≡ phone)
unfolding runs
released-cleaned = (refl, refl)

contended-IsOrphaned : IsOrphaned (contended.lease_heap 0) (90 * second)
unfolding runs
contended-IsOrphaned = record { claimed = refl; running = ground arith; silent = ground arith }

contended-automatic : (contended.lease_heap 0).explicit ≡ false
unfolding runs
contended-automatic = refl

-- The first session's command has ended.
abbrev settled : Broker
settled = end_command taken (text "lease-1-1") 4

settled-Reachable : Reachable settled
settled-Reachable = moves taken-Reachable (ends (text "lease-1-1") 4)

settled-held : get settled.leases phone ≡ some 0
unfolding runs
settled-held = refl

settled-IsDue : IsDue (settled.lease_heap 0) (900 * second)
unfolding runs
settled-IsDue = inr (refl, ground arith)

abbrev a_phone : Device
a_phone = record {
  serial = phone;
  state = text "device";
  model = text "Pixel";
  usb = true;
  transport_id = text "1";
}

taken-IsLively : IsLively (taken.lease_heap 0) (2 * second)
unfolding runs
taken-IsLively = record { claimed = inl refl; busy = inl (ground arith, ground arith) }

Reachable-Valid_example : IsValid released
Reachable-Valid_example = Reachable-Valid released-Reachable

acquire_locked-AcquireSpec_example :
    AcquireSpec second_request
      (core taken)
      (core (acquire_locked taken second_request 2 300).1)
      (acquire_locked taken second_request 2 300).0
acquire_locked-AcquireSpec_example = acquire_locked-AcquireSpec taken second_request 2 300

expire-ExpireSpec_example :
    ExpireSpec phone 0 5
      (wants_cleanup contended (contended.lease_heap 0))
      (core contended)
      (core (expire contended 0 (text "idle") 5))
expire-ExpireSpec_example =
    expire-ExpireSpec contended-Reachable phone 0 contended-held (text "idle") 5

waits_for_reason_example :
    ((contended.waiter_heap 0).lease ≡ none)
    × ((contended.waiter_heap 0).closed ≡ false)
    × (((p : ℕ) × (get contended.leases phone ≡ some p)
          × ((contended.lease_heap p).serial ≡ phone)
          × (text_eq (contended.waiter_heap 0).session (contended.lease_heap p).session ≡ false))
        ⊎ ((p : ℕ) × (mem p (cleanups_of contended.tasks) ≡ true)
            × ((contended.lease_heap p).serial ≡ phone)))
waits_for_reason_example = waits_for_reason contended-Reachable phone 0 contended-queued

-- The reaper has gone over the only lease, 90 seconds in.
abbrev silenced : Broker
silenced = sweep contended (90 * second) ((phone, 90 * second) ∷ [])

silenced-Reachable : Reachable silenced
silenced-Reachable = moves contended-Reachable (sweeps (90 * second) ((phone, 90 * second) ∷ []))

silenced-held :
    (get silenced.leases phone ≡ some 0)
    × (silenced.lease_heap 0 ≡ (reap contended 0 (90 * second) (90 * second)).lease_heap 0)
silenced-held =
    let (leases, heap) = sweep-one contended phone 0 (90 * second) (90 * second) contended-held in
    (
      leases
          ∙ ap (λ (b : Broker). get b.leases phone)
              (reap_orphaned contended 0 (90 * second) (90 * second) contended-IsOrphaned
                contended-automatic)
          ∙ contended-held,
      heap,
    )

cleanup_is_exclusive_example :
    (cleaning_at released phone ≡ true) × (get released.leases phone ≡ none) × (◌≡◌ {A = ℕ} 0 0)
cleanup_is_exclusive_example =
    cleanup_is_exclusive released-Reachable phone 0 0 released-cleaned.0 released-cleaned.0
      released-cleaned.1 released-cleaned.1

reclaims_due_example : get (reap settled 0 (900 * second) (900 * second)).leases phone ≢ some 0
reclaims_due_example =
    reclaims_due settled-Reachable phone 0 (900 * second) (900 * second) settled-held settled-IsDue

reclaims_orphaned_example :
    (get (reap contended 0 (90 * second) (90 * second)).leases phone ≡ some 0)
    × (holds (get (reap silenced 0 (900 * second) (900 * second)).leases phone) 0
        ≡ leb (900 * second) (90 * second + (contended.lease_heap 0).idle_ttl))
reclaims_orphaned_example =
    reclaims_orphaned contended-Reachable silenced-Reachable phone 0 (90 * second) (90 * second)
      (900 * second) (900 * second) contended-held silenced-held.0 contended-IsOrphaned
      contended-automatic silenced-held.1

reap_lively_example :
    reap taken 0 (2 * second) (2 * second) ≡ store_lease taken 0 (taken.lease_heap 0)
reap_lively_example = reap_lively taken 0 (2 * second) (2 * second) taken-IsLively

select_any-Selects_example :
    Selects
      (λ s. none)
      (λ s. false)
      (text "RZ" ∷ [])
      true
      false
      (a_phone ∷ [])
      (select_any (λ s. none) (λ s. false) (text "RZ" ∷ []) true false (a_phone ∷ [])).serial
select_any-Selects_example =
    select_any-Selects (λ s. none) (λ s. false) (text "RZ" ∷ []) true false (a_phone ∷ [])
