-- ===== src/Broker/Valid/Reached.antt =====
-- The invariant holds in every state that the daemon comes to.
use adb_harbor.Prelude.{
  ℕ, ◌≡◌, refl, inl, inr, Bool, ◌||◌, Option, none, some, List, [], ◌∷◌, arith, Bool-cases,
  if◌then◌else◌,
}
use adb_harbor.Text.{Text, text_eq, is_empty}
use adb_harbor.Text.Laws.{text_eq_iff}
use adb_harbor.Map.{get, put}
use adb_harbor.Map.Laws.{get-put, put-Distinct}
use adb_harbor.Protocol.{AcquireReq, AcquireAnyReq}
use adb_harbor.Config.{Config}
use adb_harbor.Broker.{Broker, Lease}
use adb_harbor.Broker.Handlers.{handle_acquire}
use adb_harbor.Broker.AcquireAny.{Inventory, listed, failed, handle_acquire_any}
use adb_harbor.Broker.Reaper.{reload_config}
use adb_harbor.Broker.Restart.{start, revived, restore_lease, restore, load_state}
use adb_harbor.Broker.Run.{
  Step, acquires, acquires_any, acquires_locally, ticks, wakes_locally, gives_up, waits, wakes,
  times_out, beats, ends, releases, sweeps, reloads, captures, cleans_up, disk, Reachable, boots,
  moves,
}
use adb_harbor.Broker.Valid.{IsValid}
use adb_harbor.Broker.Valid.Operations.{acquire_locked-Valid}
use adb_harbor.Broker.Valid.Leases.{
  touch_lease-Valid, end_command-Valid, baseline_captured-Valid, handle_release-Valid, sweep-Valid,
}
use adb_harbor.Broker.Valid.Waiters.{
  poll-Valid, pick_up-Valid, wait_woken-Valid, wait_start-Valid, wait_timed_out-Valid,
  drop_waiter-Valid, cleanup_done-Valid,
}
use adb_harbor.Broker.Valid.AcquireAny.{acquire_any-Valid}

handle_acquire-Valid :
    (b : Broker) (req : Option AcquireReq) (now : ℕ)
    → IsValid b
    → IsValid (handle_acquire b req now).1
unfolding handle_acquire
handle_acquire-Valid b none now v = v
handle_acquire-Valid b (some req) now v =
    elim (Bool-cases (is_empty req.serial || is_empty req.session)) [
      | inl e ↦ rw e v
      | inr e ↦ rw e (acquire_locked-Valid b req now _ v)
    ]

handle_acquire_any-Valid :
    (b : Broker) (req : Option AcquireAnyReq) (inv : Inventory) (now : ℕ)
    → IsValid b
    → IsValid (handle_acquire_any b req inv now).1
unfolding handle_acquire_any
handle_acquire_any-Valid b none inv now v = v
handle_acquire_any-Valid b (some req) (failed e) now v = elim (Bool-cases (is_empty req.session)) [
  | inl h ↦ rw h v
  | inr h ↦ rw h v
]
handle_acquire_any-Valid b (some req) (listed devs) now v =
    elim (Bool-cases (is_empty req.session)) [
      | inl h ↦ rw h v
      | inr h ↦ rw h (acquire_any-Valid b req devs now v)
    ]

pub Step-Valid : {b c : Broker} → Step b c → IsValid b → IsValid c
Step-Valid {b} (acquires req now) v = handle_acquire-Valid b req now v
Step-Valid {b} (acquires_any req inv now) v = handle_acquire_any-Valid b req inv now v
Step-Valid {b} (acquires_locally req now idle) v = acquire_locked-Valid b req now idle v
Step-Valid {b} (ticks w now) v = poll-Valid b w now v
Step-Valid {b} (wakes_locally w closed) v = pick_up-Valid b w v
Step-Valid {b} (gives_up w now) v = drop_waiter-Valid b w now v
Step-Valid {b} (waits id now) v = wait_start-Valid b id now v
Step-Valid {b} (wakes w closed) v = wait_woken-Valid b w v
Step-Valid {b} (times_out w now) v = wait_timed_out-Valid b w now v
Step-Valid {b} (beats id now) v = touch_lease-Valid b id now v
Step-Valid {b} (ends id now) v = end_command-Valid b id now v
Step-Valid {b} (releases req now) v = handle_release-Valid b req now v
Step-Valid {b} (sweeps now visited) v = sweep-Valid b now visited v
Step-Valid {b} (reloads cfg) v = unfold reload_config in v
Step-Valid {b} (captures id pkgs) v = baseline_captured-Valid b id pkgs v
Step-Valid {b} (cleans_up p now under_way) v = cleanup_done-Valid b p now v under_way
Step-Valid {b} (disk works) v = v

-- While the daemon starts nobody waits and nothing is cleaned.
record IsQuiet (b : Broker) : Type 0 where
  valid : IsValid b
  queues : b.queues ≡ []
  cleaning : b.cleaning ≡ []
  tasks : b.tasks ≡ []

start-IsQuiet :
    (cfg : Config) (pid : ℕ) (saved : List Lease) (works : Bool)
    → IsQuiet (start cfg pid saved works)
unfolding start get
start-IsQuiet cfg pid saved works = record {
  valid = record {
    held = λ s p h. absurd (ground arith);
    queued = λ s w m. absurd (ground arith);
    no_dup = λ s. tt;
    cleaned = λ s h. refl;
    served = λ s f h k. refl;
    others = λ s p w h m. absurd (ground arith);
    distinct = tt;
    calm = refl;
    job = λ p m. absurd (ground arith);
    job_once = tt;
    jobs_apart = λ p q m n e. absurd (ground arith);
    job_of = λ s k. absurd (ground arith);
  };
  queues = refl;
  cleaning = refl;
  tasks = refl;
}

restore_lease-IsQuiet :
    (now : ℕ) (b : Broker) (l : Lease) → IsQuiet b → IsQuiet (restore_lease now b l)
unfolding restore_lease revived get
restore_lease-IsQuiet now b l q = record {
  valid = record {
    held = λ s p h. ground (arith, q.valid.held s p, reads s, text_eq_iff l.serial s);
    queued = λ s w m. absurd (ground (arith, q.queues));
    no_dup = q.valid.no_dup;
    cleaned = λ s h. ground (arith, q.cleaning);
    served = λ s f h k. ground (arith, q.queues);
    others = λ s p w h m. ground (arith, q.queues);
    distinct = put-Distinct b.leases l.serial b.next_lease q.valid.distinct;
    calm = q.valid.calm;
    job = λ p m. ground (arith, q.tasks);
    job_once = q.valid.job_once;
    jobs_apart = λ p r m n e. ground (arith, q.tasks);
    job_of = λ s k. ground (arith, q.cleaning);
  };
  queues = q.queues;
  cleaning = q.cleaning;
  tasks = q.tasks;
}
  where
    reads :
        (s : Text)
        → get (put b.leases l.serial b.next_lease) s
          ≡ (if text_eq l.serial s then some b.next_lease else get b.leases s)
    reads s = get-put b.leases l.serial s b.next_lease

restore-IsQuiet : (now : ℕ) (b : Broker) (ls : List Lease) → IsQuiet b → IsQuiet (restore now b ls)
unfolding restore
restore-IsQuiet now b [] q = q
restore-IsQuiet now b (l ∷ ls) q =
    restore-IsQuiet now (restore_lease now b l) ls (restore_lease-IsQuiet now b l q)

load_state-Valid :
    (now : ℕ) (b : Broker) (file : Option (List Lease))
    → IsQuiet b
    → IsValid (load_state now b file)
unfolding load_state
load_state-Valid now b none q = q.valid
load_state-Valid now b (some ls) q = (restore-IsQuiet now b ls q).valid

-- In every state that the daemon comes to, the broker's invariant holds: a lease stands under its own
-- serial, and no serial twice; who queues for a device stands in line once, with an open channel and
-- without a lease, and is of another session than the holder; a device in cleanup has no lease and one
-- goroutine that cleans it; a device that is neither held nor in cleanup has an empty line; and no
-- closed channel was closed again.
pub Reachable-Valid : {b : Broker} → Reachable b → IsValid b
Reachable-Valid (boots cfg pid now saved works file) =
    load_state-Valid now _ file (start-IsQuiet cfg pid saved works)
Reachable-Valid (moves r st) = Step-Valid st (Reachable-Valid r)
