-- ===== src/Shim/FailOpen.antt =====
-- The shim of internal/harbor/shim.go fails open: it keeps a command from running only when a device
-- stayed with another session until the deadline.
use adb_harbor.Prelude.{◌≡◌, refl, Bool, true, false, not, List, if◌then◌else◌, false≢true}
use adb_harbor.Text.{Text, text, text_eq, is_empty}
use adb_harbor.Config.{Config}
use adb_harbor.Protocol.{AcquireReq}
use adb_harbor.AdbArgs.{parse_invocation}
use adb_harbor.Shim.{
  Acquisition, acquired, wait_timeout, lease_error, Surroundings, Outcome, no_adb, unlocked, leased,
  gave_up, exec_env, target, shim_request, after_acquisition, is_free_command, run_shim,
}

-- What the shim may do with a command, when a real adb is found: it runs adb without a lease; it runs adb
-- under the lease that the broker gave for the device; or it gives up, and then it did ask for the device
-- and waited for it until the deadline.
pub data FailsOpen (cfg : Config) (s : Surroundings) (acquire : AcquireReq → Acquisition)
    (args : List Text) : Outcome → Type 0 where
  runs_unlocked : FailsOpen cfg s acquire args (unlocked (exec_env cfg s))
  runs_leased :
      (id : Text)
      → acquire (shim_request s (target s (parse_invocation args))) ≡ acquired id
      → FailsOpen cfg s acquire args (leased id (exec_env cfg s))
  gives_up :
      is_free_command cfg (parse_invocation args) ≡ false
      → is_empty (target s (parse_invocation args)) ≡ false
      → s.daemon_up ≡ true
      → s.observer ≡ false
      → acquire (shim_request s (target s (parse_invocation args))) ≡ wait_timeout
      → FailsOpen cfg s acquire args gave_up

module _ (cfg : Config) (s : Surroundings) (acquire : AcquireReq → Acquisition)
    (args : List Text) where
  -- The cascade of tests, by what each finds.
  tested :
      (found off free blank up observing : Bool) (a : Acquisition)
      → found ≡ true
      → is_free_command cfg (parse_invocation args) ≡ free
      → is_empty (target s (parse_invocation args)) ≡ blank
      → s.daemon_up ≡ up
      → s.observer ≡ observing
      → acquire (shim_request s (target s (parse_invocation args))) ≡ a
      → FailsOpen cfg s acquire args (
          if not found
          then no_adb
          else if off
          then unlocked (exec_env cfg s)
          else if free
          then unlocked (exec_env cfg s)
          else if blank
          then unlocked (exec_env cfg s)
          else if not up
          then unlocked (exec_env cfg s)
          else if observing
          then unlocked (exec_env cfg s)
          else after_acquisition (exec_env cfg s) a)
  unfolding after_acquisition
  tested false off free blank up o a t f b u v e = absurd (false≢true t)
  tested true true free blank up o a t f b u v e = runs_unlocked
  tested true false true blank up o a t f b u v e = runs_unlocked
  tested true false false true up o a t f b u v e = runs_unlocked
  tested true false false false false o a t f b u v e = runs_unlocked
  tested true false false false true true a t f b u v e = runs_unlocked
  tested true false false false true false (acquired id) t f b u v e = runs_leased id e
  tested true false false false true false lease_error t f b u v e = runs_unlocked
  tested true false false false true false wait_timeout t f b u v e = gives_up f b u v e

  -- When a real adb is found, the shim fails open: it runs the command with or without a lease, unless the
  -- command needs a device, the device is known, the broker runs, the caller is no observer, and the wait
  -- for the lease timed out.
  pub run_shim-FailsOpen :
      s.real_found ≡ true → FailsOpen cfg s acquire args (run_shim cfg s acquire args)
  unfolding run_shim
  run_shim-FailsOpen found =
      tested s.real_found (text_eq s.off_variable (text "1")) _ _ _ _ _ found refl refl refl refl
        refl
