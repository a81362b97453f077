-- ===== src/Shim.antt =====
-- internal/harbor/shim.go: RunShim, what the shim does with one adb command line; and
-- internal/harbor/client.go: AcquireBlocking, how it waits for a lease. What the shim finds outside, the
-- environment, the devices and the broker's answers, is an argument.
pub mod FailOpen
pub mod Waiting
pub mod Codes
pub mod RealAdb
pub mod Search
use adb_harbor.Prelude.{
  ℕ, Bool, true, false, not, ◌&&◌, ◌||◌, ◌==◌, Option, none, some, List, [], ◌∷◌, if◌then◌else◌,
}
use adb_harbor.Text.{Text, text, text_eq, is_empty}
use adb_harbor.Config.{Config, client_server_port}
use adb_harbor.Devices.{Device}
use adb_harbor.Devices.Sole.{resolve_sole_device}
use adb_harbor.Protocol.{AcquireReq, AcquireResp, WaitResp}
use adb_harbor.AdbArgs.{AdbInvocation, parse_invocation, needs_device, is_exempt_read_only}
use adb_harbor.Wire.{env_with_server_port}

-- The results of AcquireBlocking.
pub data Acquisition : Type 0 where
  acquired : (lease_id : Text) → Acquisition
  wait_timeout lease_error : Acquisition

-- One round of the inner loop: the deadline has passed, or the broker answers the poll (`none` for an error
-- of the call).
pub data Poll : Type 0 where
  too_late : Poll
  answered : Option WaitResp → Poll

-- How the inner loop ends: with the result of the function, by the break, or not yet, when the answers
-- that are given end before it does.
pub data Polled : Type 0 where
  returns : Acquisition → Polled
  breaks polling : Polled

unfoldable pub poll_loop : List Poll → Polled
poll_loop [] = polling
poll_loop (too_late ∷ polls) = returns wait_timeout
poll_loop (answered none ∷ polls) = returns lease_error
poll_loop (answered (some wr) ∷ polls) =
    let rest = poll_loop polls in
    if wr.granted then returns (acquired wr.lease_id) else if wr.expired then breaks else rest

-- One round of the outer loop: the answer to the acquire, and the polls that follow it.
pub record Round : Type 0 where
  pub answer : Option AcquireResp
  pub polls : List Poll

abbrev or_again : Polled → Option Acquisition → Option Acquisition
or_again (returns a) again = some a
or_again breaks again = again
or_again polling again = none

-- AcquireBlocking; `none` while it waits.
unfoldable pub acquire_blocking : List Round → Option Acquisition
unfolding poll_loop
acquire_blocking [] = none
acquire_blocking (r ∷ rounds) =
    let again = acquire_blocking rounds in
    elim (r.answer) [
      | none ↦ some lease_error
      | some ar ↦
          if ar.granted then some (acquired ar.lease_id) else or_again (poll_loop r.polls) again
    ]

-- What the shim finds outside. `devices` is empty when adb cannot list them.
pub record Surroundings : Type 0 where
  pub real_found : Bool
  pub environ : List Text
  pub server_port_variable : Text
  pub off_variable : Text
  pub serial_variable : Text
  pub devices : List Device
  pub daemon_up : Bool
  pub session : Text
  pub observer : Bool
  pub holder : Text
  pub pid : ℕ
  pub idle_sec : ℕ

-- What becomes of the command: there is no real adb; adb runs without a lease; adb runs under a lease, whose
-- command is ended afterwards; or the shim gives up with the exit code 75.
pub data Outcome : Type 0 where
  no_adb : Outcome
  unlocked : (env : List Text) → Outcome
  leased : (lease_id : Text) (env : List Text) → Outcome
  gave_up : Outcome

unfoldable pub exec_env : Config → Surroundings → List Text
exec_env cfg s =
    if not (client_server_port cfg == 0) && is_empty s.server_port_variable
    then env_with_server_port s.environ (client_server_port cfg)
    else s.environ

-- The device that the command targets; empty when it cannot be told.
unfoldable pub target : Surroundings → AdbInvocation → Text
target s inv =
    if not (is_empty inv.serial)
    then inv.serial
    else if not (is_empty s.serial_variable)
    then s.serial_variable
    else resolve_sole_device inv.use_usb inv.use_emulator inv.transport_id s.devices

unfoldable pub shim_request : Surroundings → Text → AcquireReq
shim_request s serial = record {
  serial = serial;
  session = s.session;
  holder = s.holder;
  pid = s.pid;
  idle_ttl_sec = s.idle_sec;
  ttl_sec = 0;
  explicit = false;
  command = true;
}

unfoldable pub after_acquisition : List Text → Acquisition → Outcome
after_acquisition env (acquired id) = leased id env
after_acquisition env wait_timeout = gave_up
after_acquisition env lease_error = unlocked env

-- The commands that need no lease, by what they are.
unfoldable pub is_free_command : Config → AdbInvocation → Bool
is_free_command cfg inv = not (needs_device inv) || is_exempt_read_only inv cfg.exempt_shell

-- RunShim, with what AcquireBlocking gives for a request.
unfoldable pub run_shim : Config → Surroundings → (AcquireReq → Acquisition) → List Text → Outcome
unfolding exec_env target shim_request after_acquisition is_free_command
run_shim cfg s acquire args =
    let env = exec_env cfg s in
    let inv = parse_invocation args in
    let serial = target s inv in
    if not s.real_found
    then no_adb
    else if text_eq s.off_variable (text "1")
    then unlocked env
    else if is_free_command cfg inv
    then unlocked env
    else if is_empty serial
    then unlocked env
    else if not s.daemon_up
    then unlocked env
    else if s.observer
    then unlocked env
    else after_acquisition env (acquire (shim_request s serial))
