-- ===== src/Cli/Commands.antt =====
-- internal/harbor/cli.go: CmdAcquire, cmdAcquireAny and CmdRelease behind the parse of their flags, and the list of
-- CmdDevices. Calls of the daemon, the session and its holder are arguments; a time to live is not negative.
use adb_harbor.Prelude.{
  ℕ, ◌/◌, Bool, true, false, not, ◌||◌, Option, none, some, List, [], ◌∷◌, ◌++◌, if◌then◌else◌,
}
use adb_harbor.Text.{Text, text, is_empty}
use adb_harbor.Config.{Config}
use adb_harbor.Protocol.{
  AcquireReq, AcquireAnyReq, AcquireAnyResp, DeviceInfo, ReleaseReq, ReleaseResp,
}
use adb_harbor.Broker.{second}
use adb_harbor.Shim.{Acquisition, acquired, wait_timeout, lease_error}
use adb_harbor.Cli.{AnyResult, any_result, announced_ttl, device_row, release_error}

-- What a command runs as: DetectSession, HolderDesc of a session, and os.Getpid().
pub record Runner : Type 0 where
  pub detected : Text
  pub holder_of : Text → Text
  pub pid : ℕ

-- *sessionFlag, or the session that is detected.
unfoldable pub session_or : Runner → Text → Text
session_or who flag = if is_empty flag then who.detected else flag

-- The request of CmdAcquire; `ttl` is *ttl in nanoseconds.
unfoldable pub acquire_request : Runner → (serial session : Text) (ttl : ℕ) → AcquireReq
acquire_request who serial session ttl = record {
  serial = serial;
  session = session;
  holder = who.holder_of session;
  pid = who.pid;
  idle_ttl_sec = 0;
  ttl_sec = ttl / second;
  explicit = true;
  command = false;
}

-- The request of cmdAcquireAny
unfoldable pub any_request :
    Runner → (session : Text) (ttl : ℕ) (usb emulator : Bool) → AcquireAnyReq
any_request who session ttl usb emulator = record {
  session = session;
  holder = who.holder_of session;
  pid = who.pid;
  ttl_sec = ttl / second;
  usb = usb;
  emulator = emulator;
}

-- How CmdAcquire ends: it has no serial; the daemon cannot be had; the wait or the call fails; or the device is held
-- for so many seconds, as it announces.
pub data AcquireResult : Type 0 where
  needs_serial no_daemon timed_out call_failed : AcquireResult
  holds : (serial session lease : Text) (seconds : ℕ) → AcquireResult

abbrev told : Config → (serial session : Text) (ttl : ℕ) → Acquisition → AcquireResult
told cfg serial session ttl (acquired id) =
    holds serial session id (announced_ttl cfg (ttl / second))
told cfg serial session ttl wait_timeout = timed_out
told cfg serial session ttl lease_error = call_failed

-- CmdAcquire without `--any`; `acquire` is AcquireBlocking with the wait of the configuration.
unfoldable pub cmd_acquire :
    Runner
    → Config
    → (daemon : Bool) → (AcquireReq → Acquisition)
    → (serial flag : Text) (ttl : ℕ) → AcquireResult
unfolding session_or acquire_request
cmd_acquire who cfg daemon acquire serial flag ttl =
    let session = session_or who flag in
    if is_empty serial
    then needs_serial
    else if not daemon
    then no_daemon
    else told cfg serial session ttl (acquire (acquire_request who serial session ttl))

abbrev any_told : Option AcquireAnyResp → Option AnyResult
any_told none = none
any_told (some resp) = some (any_result resp)

-- cmdAcquireAny; none is an error.
unfoldable pub cmd_acquire_any :
    Runner
    → (daemon : Bool) → (AcquireAnyReq → Option AcquireAnyResp)
    → (usb emulator : Bool) (ttl : ℕ) (flag : Text) → Option AnyResult
unfolding session_or any_request
cmd_acquire_any who daemon ask usb emulator ttl flag =
    if not daemon
    then none
    else any_told (ask (any_request who (session_or who flag) ttl usb emulator))

-- How CmdRelease ends.
pub data ReleaseResult : Type 0 where
  lacks_serial no_broker unanswered : ReleaseResult
  denied : (message : Text) → ReleaseResult
  gives_back : (serial : Text) → ReleaseResult

unfoldable pub release_request : (serial session : Text) (force : Bool) → ReleaseReq
release_request serial session force = record {
  serial = serial;
  lease_id = [];
  session = session;
  force = force;
}

abbrev pub denied_or : Text → Option Text → ReleaseResult
denied_or serial none = gives_back serial
denied_or serial (some message) = denied message

abbrev pub release_told : Text → Option ReleaseResp → ReleaseResult
release_told serial none = unanswered
release_told serial (some resp) = denied_or serial (release_error resp)

-- CmdRelease; `force` is that of the command `force-release`, and `flag` that of `--force`.
unfoldable pub cmd_release :
    (daemon : Bool)
    → (ReleaseReq → Option ReleaseResp)
    → (force flag : Bool) (serial session : Text) → ReleaseResult
unfolding release_request
cmd_release daemon ask force flag serial session =
    if is_empty serial
    then lacks_serial
    else if not daemon
    then no_broker
    else release_told serial (ask (release_request serial session (force || flag)))

-- Where sort.Slice puts a device: in front of the first one whose serial is not less. `less` is the order of Go's
-- strings.
unfoldable pub insert_device : (Text → Text → Bool) → DeviceInfo → List DeviceInfo → List DeviceInfo
insert_device less d [] = d ∷ []
insert_device less d (e ∷ ds) =
    let rest = insert_device less d ds in if less e.serial d.serial then e ∷ rest else d ∷ e ∷ ds

unfoldable pub sort_devices : (Text → Text → Bool) → List DeviceInfo → List DeviceInfo
unfolding insert_device
sort_devices less [] = []
sort_devices less (d ∷ ds) = insert_device less d (sort_devices less ds)

unfoldable pub device_rows : ℕ → List DeviceInfo → Text
device_rows now [] = []
device_rows now (d ∷ ds) = device_row now d ++ device_rows now ds

-- The table of CmdDevices, before it is aligned.
unfoldable pub devices_table : (Text → Text → Bool) → ℕ → List DeviceInfo → Text
unfolding sort_devices device_rows
devices_table less now ds =
    text "SERIAL\tSTATE\tMODEL\tLEASE\tQUEUE\n" ++ device_rows now (sort_devices less ds)
