-- ===== src/Broker/Valid.antt =====
-- What is true of the broker's state between two sections under the lock, over the part of the state
-- that the locking protocol works on.
pub mod Heaps
pub mod Cleaning
pub mod Loops
pub mod Serve
pub mod Handed
pub mod Next
pub mod Operations
pub mod Leases
pub mod Waiters
pub mod AcquireAny
pub mod Reached
use adb_harbor.Prelude.{
  ℕ, ◌<◌, ◌≡◌, Bool, true, false, Option, none, some, List, [], ◌∷◌, mem, NoDup,
}
use adb_harbor.Text.{Text, text_eq}
use adb_harbor.Map.{Map, get}
use adb_harbor.Map.Laws.{Distinct}
use adb_harbor.Broker.{Broker, Lease, Waiter, Task, capture_baseline, run_cleanup, or_nil, or_false}

pub record Core : Type 0 where
  pub lease_heap : ℕ → Lease
  pub next_lease : ℕ
  pub waiter_heap : ℕ → Waiter
  pub next_waiter : ℕ
  pub leases : Map ℕ
  pub queues : Map (List ℕ)
  pub cleaning : Map Bool
  pub panicked : Bool
  pub cleanups : List ℕ

-- The leases of the cleanups under way.
abbrev pub cleanups_of : List Task → List ℕ
cleanups_of [] = []
cleanups_of (capture_baseline id s ∷ ts) = cleanups_of ts
cleanups_of (run_cleanup p ∷ ts) = p ∷ cleanups_of ts

abbrev pub core : Broker → Core
core b = record {
  lease_heap = b.lease_heap;
  next_lease = b.next_lease;
  waiter_heap = b.waiter_heap;
  next_waiter = b.next_waiter;
  leases = b.leases;
  queues = b.queues;
  cleaning = b.cleaning;
  panicked = b.panicked;
  cleanups = cleanups_of b.tasks;
}

abbrev pub line : Core → Text → List ℕ
line c s = or_nil (get c.queues s)

abbrev pub is_cleaning : Core → Text → Bool
is_cleaning c s = or_false (get c.cleaning s)

-- A lease that the map holds stands under its own serial.
abbrev pub IsHeld : Core → Text → ℕ → Type 0
IsHeld c s p = (p < c.next_lease) × ((c.lease_heap p).serial ≡ s)

-- A queued waiter has no lease yet, and its channel is open.
abbrev pub IsQueued : Core → Text → ℕ → Type 0
IsQueued c s w =
    (w < c.next_waiter)
    × ((c.waiter_heap w).serial ≡ s)
    × ((c.waiter_heap w).lease ≡ none)
    × ((c.waiter_heap w).closed ≡ false)

-- The invariant, with an exception to `served` at the serials where `vacant` holds.
pub record ValidBut (vacant : Text → Bool) (c : Core) : Type 0 where
  pub held : (s : Text) (p : ℕ) → get c.leases s ≡ some p → IsHeld c s p
  pub queued : (s : Text) (w : ℕ) → mem w (line c s) ≡ true → IsQueued c s w
  pub no_dup : (s : Text) → NoDup (line c s)
  pub cleaned : (s : Text) → is_cleaning c s ≡ true → get c.leases s ≡ none
  pub served :
      (s : Text)
      → vacant s ≡ false
      → get c.leases s ≡ none
      → is_cleaning c s ≡ false
      → line c s ≡ []
  pub others :
      (s : Text) (p w : ℕ)
      → get c.leases s ≡ some p
      → mem w (line c s) ≡ true
      → text_eq (c.waiter_heap w).session (c.lease_heap p).session ≡ false
  pub distinct : Distinct c.leases
  pub calm : c.panicked ≡ false
  pub job :
      (p : ℕ)
      → mem p c.cleanups ≡ true
      → (p < c.next_lease) × (is_cleaning c (c.lease_heap p).serial ≡ true)
  pub job_once : NoDup c.cleanups
  pub jobs_apart :
      (p q : ℕ)
      → mem p c.cleanups ≡ true
      → mem q c.cleanups ≡ true
      → (c.lease_heap p).serial ≡ (c.lease_heap q).serial
      → p ≡ q
  pub job_of :
      (s : Text)
      → is_cleaning c s ≡ true
      → (p : ℕ) × (mem p c.cleanups ≡ true) × ((c.lease_heap p).serial ≡ s)

abbrev pub Valid : Core → Type 0
Valid = ValidBut (λ s. false)

abbrev pub IsValid : Broker → Type 0
IsValid b = Valid (core b)
