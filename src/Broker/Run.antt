-- ===== src/Broker/Run.antt =====
-- The broker as a state machine: a step is one section under the lock, of whatever handler, goroutine
-- or client comes next, with the readings of the clock and the outside world's answers as they may
-- be. A step of the environment lets the disk fail or work again.
use adb_harbor.Prelude.{ℕ, ◌≡◌, Bool, true, Option, List, mem}
use adb_harbor.Text.{Text}
use adb_harbor.Config.{Config}
use adb_harbor.Protocol.{AcquireReq, AcquireAnyReq, ReleaseReq}
use adb_harbor.Broker.{Broker, Lease}
use adb_harbor.Broker.Grant.{acquire_locked}
use adb_harbor.Broker.Waiting.{poll, pick_up, wait_start, wait_woken, wait_timed_out, drop_waiter}
use adb_harbor.Broker.Handlers.{handle_acquire, touch_lease, end_command, handle_release}
use adb_harbor.Broker.AcquireAny.{Inventory, handle_acquire_any}
use adb_harbor.Broker.Reaper.{sweep, reload_config, baseline_captured, cleanup_done}
use adb_harbor.Broker.Restart.{start, load_state}
use adb_harbor.Broker.Valid.{cleanups_of}

pub data Step (b : Broker) : Broker → Type 0 where
  acquires : (req : Option AcquireReq) (now : ℕ) → Step b (handle_acquire b req now).1
  acquires_any :
      (req : Option AcquireAnyReq) (inv : Inventory) (now : ℕ)
      → Step b (handle_acquire_any b req inv now).1
  -- AcquireLocalBlocking, and the branches of its waitLocal
  acquires_locally : (req : AcquireReq) (now idle : ℕ) → Step b (acquire_locked b req now idle).1
  ticks : (w now : ℕ) → Step b (poll b w now)
  wakes_locally : (w : ℕ) → (b.waiter_heap w).closed ≡ true → Step b (pick_up b w).1
  gives_up : (w now : ℕ) → Step b (drop_waiter b w now)
  -- handleWait
  waits : (id : Text) (now : ℕ) → Step b (wait_start b id now).1
  wakes : (w : ℕ) → (b.waiter_heap w).closed ≡ true → Step b (wait_woken b w).1
  times_out : (w now : ℕ) → Step b (wait_timed_out b w now).1
  -- heartbeats, ended commands and releases
  beats : (id : Text) (now : ℕ) → Step b (touch_lease b id now)
  ends : (id : Text) (now : ℕ) → Step b (end_command b id now)
  releases : (req : Option ReleaseReq) (now : ℕ) → Step b (handle_release b req now).1
  -- the goroutines of the daemon
  sweeps : (now : ℕ) (visited : List (Text × ℕ)) → Step b (sweep b now visited)
  reloads : (cfg : Config) → Step b (reload_config b cfg)
  captures : (id : Text) (pkgs : Option (List Text)) → Step b (baseline_captured b id pkgs)
  cleans_up : (p now : ℕ) → mem p (cleanups_of b.tasks) ≡ true → Step b (cleanup_done b p now)
  disk : (works : Bool) → Step b (record b { disk_ok = works })

-- The states that a daemon comes to: it starts, reads the state file, and takes steps.
pub data Reachable : Broker → Type 0 where
  boots :
      (cfg : Config) (pid now : ℕ) (saved : List Lease) (works : Bool) (file : Option (List Lease))
      → Reachable (load_state now (start cfg pid saved works) file)
  moves : {b c : Broker} → Reachable b → Step b c → Reachable c
