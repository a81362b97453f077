-- ===== src/Broker.antt =====
-- internal/harbor/broker.go: the state of the broker. Pointers to leases and waiters are numbers
-- into two heaps, so that a lease shared by the map, its waiters and a goroutine is one object.
-- Times and durations are nanoseconds; a method takes the reading of the clock that it makes.
pub mod Grant
pub mod Waiting
pub mod Release
pub mod Handlers
pub mod AcquireAny
pub mod Reaper
pub mod Restart
pub mod Revival
pub mod Fairness
pub mod GivingUp
pub mod Local
pub mod Ids
pub mod Report
pub mod Daemon
pub mod Run
pub mod Exclusion
pub mod Handoff
pub mod Expiry
pub mod Reclaim
pub mod Valid
use adb_harbor.Prelude.{
  ℕ, suc, ◌+◌, ◌-◌, ◌*◌, ◌/◌, ◌%◌, ◌<◌, Bool, true, false, Option, none, some, List, [], ◌∷◌, ◌++◌,
  map, ◌==◌, ltb, if◌then◌else◌,
}
use adb_harbor.Text.{Text, text, text_eq}
use adb_harbor.Text.Decimal.{decimal}
use adb_harbor.Map.{Map, get, put, delete, values}
use adb_harbor.Config.{Config}

abbrev pub second : ℕ
second = 1_000_000_000

abbrev pub orphan_beat : ℕ
orphan_beat = 60 * second

abbrev pub stale_waiter : ℕ
stale_waiter = 90 * second

abbrev pub unclaimed_grace : ℕ
unclaimed_grace = 20 * second

pub record Lease : Type 0 where
  pub id : Text
  pub serial : Text
  pub session : Text
  pub holder : Text
  pub pid : ℕ
  pub acquired_at : ℕ
  pub last_active : ℕ
  pub last_beat : ℕ
  pub running : ℕ
  pub idle_ttl : ℕ
  pub explicit : Bool
  pub expires_at : ℕ
  pub claimed : Bool
  pub baseline : List Text

-- `closed` tells whether the channel `ch` has been closed; `lease` is a pointer.
pub record Waiter : Type 0 where
  pub id : Text
  pub serial : Text
  pub session : Text
  pub holder : Text
  pub command : Bool
  pub idle_ttl : ℕ
  pub enqueued : ℕ
  pub last_poll : ℕ
  pub closed : Bool
  pub lease : Option ℕ

-- A goroutine that the broker has started and that has not ended: `captureBaseline` of a lease ID
-- and a serial, `runCleanup` of a lease.
pub data Task : Type 0 where
  capture_baseline : Text → Text → Task
  run_cleanup : ℕ → Task

-- A line of history.jsonl, without its time stamp.
pub record Event : Type 0 where
  pub event : Text
  pub serial : Text
  pub session : Text
  pub holder : Text
  pub lease_id : Text
  pub note : Text

-- `saved` is the content of state.json, `disk_ok` whether the data directory can be written, and
-- `panicked` whether a closed channel was closed again. `pid` is the process's own.
pub record Broker : Type 0 where
  pub cfg : Config
  pub pid : ℕ
  pub seq : ℕ
  pub lease_heap : ℕ → Lease
  pub next_lease : ℕ
  pub waiter_heap : ℕ → Waiter
  pub next_waiter : ℕ
  pub leases : Map ℕ
  pub queues : Map (List ℕ)
  pub waiters : Map ℕ
  pub cleaning : Map Bool
  pub tasks : List Task
  pub history : List Event
  pub saved : List Lease
  pub disk_ok : Bool
  pub panicked : Bool

-- A heap after a write.
abbrev pub update {ℓ} : {A : Type ℓ} → (ℕ → A) → ℕ → A → ℕ → A
update h p v q = if p == q then v else h q

abbrev pub or_nil {ℓ} : {A : Type ℓ} → Option (List A) → List A
or_nil none = []
or_nil (some xs) = xs

abbrev pub or_false : Option Bool → Bool
or_false none = false
or_false (some b) = b

-- b.queues[serial]
abbrev pub queue : Broker → Text → List ℕ
queue b serial = or_nil (get b.queues serial)

-- b.cleaning[serial]
abbrev pub cleaning_at : Broker → Text → Bool
cleaning_at b serial = or_false (get b.cleaning serial)

-- (*Broker).newID; the caller writes the new `seq`.
unfoldable pub new_id : Broker → Text → Text
new_id b prefix = prefix ++ text "-" ++ decimal b.pid ++ text "-" ++ decimal (suc b.seq)

-- close(wt.ch)
unfoldable pub close_channel : Broker → ℕ → Broker
close_channel b w = if (b.waiter_heap w).closed then record b { panicked = true } else record b {
  waiter_heap = update b.waiter_heap w (record (b.waiter_heap w) { closed = true });
}

-- Duration.Round(time.Second) and its text, for a duration that is not negative.
unfoldable pub rounded_text : ℕ → Text
rounded_text d =
    let s = (d + second / 2) / second in
    let seconds = decimal (s % 60) ++ text "s" in
    let minutes = decimal (s / 60 % 60) ++ text "m" ++ seconds in
    if ltb s 60
    then seconds
    else if ltb s 3600
    then minutes
    else decimal (s / 3600) ++ text "h" ++ minutes

-- leaseDesc of a lease
unfoldable pub lease_desc : Lease → ℕ → Text
lease_desc l now = l.holder ++ text " for " ++ rounded_text (now - l.acquired_at)

-- (*Broker).serialDescLocked
unfoldable pub serial_desc : Broker → Text → ℕ → Text
serial_desc b serial now = elim (get b.leases serial) [
  | some p ↦ lease_desc (b.lease_heap p) now
  | none ↦ if cleaning_at b serial then text "session cleanup" else text "free"
]

-- (*Broker).hist
unfoldable pub hist : Broker → Text → Lease → Text → Broker
hist b event l note = if b.disk_ok then record b { history = b.history ++ entry ∷ [] } else b
  where
    entry : Event
    entry = record {
      event = event;
      serial = l.serial;
      session = l.session;
      holder = l.holder;
      lease_id = l.id;
      note = note;
    }

-- (*Broker).saveStateLocked
unfoldable pub save_state : Broker → Broker
save_state b = if b.disk_ok then record b { saved = map b.lease_heap (values b.leases) } else b

-- A `go` statement.
abbrev pub spawn : Broker → Task → Broker
spawn b t = record b { tasks = t ∷ b.tasks }
