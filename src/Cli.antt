-- ===== src/Cli.antt =====
-- internal/harbor/cli.go: what the commands of adbharbor show and decide, from the daemon's reports. Flags are parsed
-- by Go's library, times are printed by it, and calls of the daemon are arguments.
pub mod Reports
pub mod Commands
pub mod Doctor
pub mod Held
use adb_harbor.Prelude.{
  ℕ, suc, ◌-◌, ◌==◌, ltb, Bool, true, false, not, ◌||◌, Option, none, some, List, [], ◌∷◌, ◌++◌,
  if◌then◌else◌,
}
use adb_harbor.Text.{Text, text, text_eq, is_empty}
use adb_harbor.Text.Decimal.{decimal}
use adb_harbor.Config.{Config, load_raw_config}
use adb_harbor.Protocol.{LeaseInfo, WaiterInfo, DeviceInfo, AcquireAnyResp, ReleaseResp}
use adb_harbor.Broker.{rounded_text}

-- runningSuffix
unfoldable pub running_suffix : ℕ → Text
running_suffix n = if ltb 0 n then text ", " ++ decimal n ++ text " running" else []

-- serialArg, of the flag -s and the other arguments
unfoldable pub serial_arg : Text → List Text → Option Text
serial_arg flag (arg ∷ args) = if is_empty flag then some arg else some flag
serial_arg flag [] = if is_empty flag then none else some flag

-- The results of CmdCleanup: it shows whether the cleanup is enabled, saves a configuration, or refuses the
-- argument.
pub data CleanupCommand : Type 0 where
  shows : (enabled : Bool) → CleanupCommand
  saves : Config → CleanupCommand
  refuses_argument : CleanupCommand

unfoldable pub toggled : Config → Text → CleanupCommand
unfolding text_eq
toggled cfg arg =
    if text_eq arg (text "on") || text_eq arg (text "enable")
    then saves (record cfg { cleanup_enabled = true })
    else if text_eq arg (text "off") || text_eq arg (text "disable")
    then saves (record cfg { cleanup_enabled = false })
    else refuses_argument

-- CmdCleanup
unfoldable pub cmd_cleanup : (Text → Config → Config) → Option Text → List Text → CleanupCommand
unfolding toggled
cmd_cleanup decode file [] = shows (load_raw_config decode file).cleanup_enabled
cmd_cleanup decode file (arg ∷ args) = toggled (load_raw_config decode file) arg

-- The lease column of CmdDevices; the age of a lease is rounded to seconds.
abbrev held_cell : ℕ → LeaseInfo → Text
held_cell now l =
    l.holder
    ++ text " ("
    ++ rounded_text (now - l.acquired_at)
    ++ running_suffix l.running
    ++ text ")"

abbrev held_or : ℕ → Text → Option LeaseInfo → Text
held_or now free none = free
held_or now free (some l) = held_cell now l

unfoldable pub lease_cell : ℕ → DeviceInfo → Text
lease_cell now d = held_or now (if d.cleaning then text "session cleanup" else text "free") d.lease

unfoldable pub queue_cell : DeviceInfo → Text
queue_cell d = if ltb 0 d.waiting then decimal d.waiting ++ text " waiting" else text "-"

-- A row of CmdDevices, with its tabs.
unfoldable pub device_row : ℕ → DeviceInfo → Text
unfolding lease_cell queue_cell
device_row now d =
    d.serial
    ++ text "\t"
    ++ d.state
    ++ text "\t"
    ++ d.model
    ++ text "\t"
    ++ lease_cell now d
    ++ text "\t"
    ++ queue_cell d
    ++ text "\n"

-- The lines for the waiters in CmdWho, from the number `i` on.
unfoldable pub who_queue : ℕ → List WaiterInfo → Text
who_queue i [] = []
who_queue i (w ∷ ws) =
    text "  queue[" ++ decimal i ++ text "]: " ++ w.holder ++ text "\n" ++ who_queue (suc i) ws

-- What CmdWho prints for a lease; `kitchen` is the format of the time.
unfoldable pub who_held : (ℕ → Text) → Text → List WaiterInfo → LeaseInfo → Text
unfolding who_queue
who_held kitchen serial waiters l =
    serial
    ++ text " is held by "
    ++ l.holder
    ++ text " (session "
    ++ l.session
    ++ text ") since "
    ++ kitchen l.acquired_at
    ++ text ", "
    ++ decimal l.running
    ++ text " command(s) running\n"
    ++ who_queue 1 waiters

-- CmdWho, from the daemon's leases and the waiters of the device
unfoldable pub who : (ℕ → Text) → Text → List WaiterInfo → List LeaseInfo → Text
unfolding who_held
who kitchen serial waiters [] = serial ++ text " is free\n"
who kitchen serial waiters (l ∷ ls) =
    let rest = who kitchen serial waiters ls in
    if text_eq l.serial serial then who_held kitchen serial waiters l else rest

-- How cmdAcquireAny ends: a serial on the standard output, or the exit code 75 with a message.
pub data AnyResult : Type 0 where
  prints : (serial : Text) → AnyResult
  exits_75 : (message : Text) → AnyResult

unfoldable pub any_result : AcquireAnyResp → AnyResult
any_result resp = if not resp.granted then exits_75 resp.message else prints resp.serial

-- The expiry that CmdAcquire and cmdAcquireAny announce, in seconds.
unfoldable pub announced_ttl : Config → ℕ → ℕ
announced_ttl cfg ttl = if ttl == 0 then cfg.explicit_ttl_sec else ttl

-- CmdRelease behind the call: nothing, or the error's text.
unfoldable pub release_error : ReleaseResp → Option Text
release_error resp = if not resp.released then some resp.message else none

-- The lines of CmdStatus for the waiters of a lease's device, from the number `i` on.
unfoldable pub status_queue : ℕ → ℕ → List WaiterInfo → Text
status_queue now i [] = []
status_queue now i (w ∷ ws) =
    text "    queue["
    ++ decimal i
    ++ text "]: "
    ++ w.holder
    ++ text " (waiting "
    ++ rounded_text (now - w.enqueued)
    ++ text ")\n"
    ++ status_queue now (suc i) ws

-- The end of a lease's line: when it expires, where it is explicit, or the idle time that it is given. `until` prints
-- the time up to the expiry, which may have passed.
unfoldable pub status_end : (ℕ → Text) → LeaseInfo → Text
status_end until l = elim (if l.explicit then l.expires_at else none) [
  | some at ↦ text "  expires=" ++ until at
  | none ↦ text "  idle-ttl=" ++ decimal l.idle_ttl_sec ++ text "s"
]

unfoldable pub status_lease : (ℕ → Text) → ℕ → List WaiterInfo → LeaseInfo → Text
unfolding status_queue status_end
status_lease until now waiters l =
    l.serial
    ++ text "  held by "
    ++ l.holder
    ++ text "  session="
    ++ l.session
    ++ text "  age="
    ++ rounded_text (now - l.acquired_at)
    ++ text "  running="
    ++ decimal l.running
    ++ status_end until l
    ++ text "\n"
    ++ status_queue now 1 waiters

unfoldable pub status_leases : (ℕ → Text) → ℕ → (Text → List WaiterInfo) → List LeaseInfo → Text
unfolding status_lease
status_leases until now waiters [] = []
status_leases until now waiters (l ∷ ls) =
    status_lease until now (waiters l.serial) l ++ status_leases until now waiters ls

-- CmdStatus, from the daemon's leases and the waiters of each device
unfoldable pub status : (ℕ → Text) → ℕ → (Text → List WaiterInfo) → List LeaseInfo → Text
unfolding status_leases
status until now waiters [] = text "no active leases\n"
status until now waiters (l ∷ ls) = status_leases until now waiters (l ∷ ls)
