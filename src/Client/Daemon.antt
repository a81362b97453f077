-- ===== src/Client/Daemon.antt =====
-- internal/harbor/client.go: EnsureDaemon and CmdStop, and stopQuietly of internal/harbor/install.go. Whether the daemon
-- answers, what can be opened and started, and the clock are arguments; times are nanoseconds.
use adb_harbor.Prelude.{
  ℕ, zero, suc, ◌+◌, ◌*◌, ◌-◌, Bool, not, ◌&&◌, leb, ltb, Option, none, some, [], ◌∷◌, ◌++◌,
  if◌then◌else◌,
}
use adb_harbor.Text.{Text, text}
use adb_harbor.Text.Decimal.{decimal}
use adb_harbor.Broker.{second}

-- The results of EnsureDaemon: the daemon answers; it could not be started; or it did not come up in time.
pub data Ensured : Type 0 where
  up not_started not_up : Ensured

-- What EnsureDaemon finds. `pings i` is the answer to its call `i` of Ping, and `starts` tells whether the directory,
-- the path of the program, the log file and the new process could all be had.
pub record Launch : Type 0 where
  pub pings : ℕ → Bool
  pub starts : Bool
  pub clock : ℕ → ℕ

-- The loop that waits for the daemon, from its round `i` on, on fuel; the clock is read first for the deadline, and
-- then in each round.
unfoldable pub await_daemon : Launch → ℕ → ℕ → ℕ → Option Ensured
await_daemon w deadline zero i = none
await_daemon w deadline (suc fuel) i =
    let rest = await_daemon w deadline fuel (suc i) in
    if ltb (w.clock (suc i)) deadline
    then if w.pings (suc i) then some up else rest
    else some not_up

-- EnsureDaemon
unfoldable pub ensure_daemon : Launch → ℕ → Option Ensured
unfolding await_daemon
ensure_daemon w fuel =
    let waited = await_daemon w (w.clock 0 + 3 * second) fuel 0 in
    if w.pings 0 then some up else if not w.starts then some not_started else waited

-- fmt.Sscanf of a number in front of a text, as the code uses it: 0 where there is none, or a sign.
unfoldable pub digits_from : ℕ → Text → ℕ
digits_from n [] = n
digits_from n (c ∷ s) =
    let rest = digits_from (n * 10 + (c - 48)) s in if leb 48 c && leb c 57 then rest else n

unfoldable pub scan_pid : Text → ℕ
unfolding digits_from
scan_pid s = digits_from 0 s

-- The content of the file that RunDaemon writes its process ID to.
unfoldable pub pid_file : ℕ → Text
pid_file pid = decimal pid ++ text "\n"

-- What CmdStop does: it says that no daemon runs, it does nothing, or it sends SIGTERM to a process.
pub data Stop : Type 0 where
  not_running nothing : Stop
  signals : (pid : ℕ) → Stop

unfoldable pub signal_if : (ℕ → Bool) → ℕ → Stop
signal_if there pid = if leb pid 1 then nothing else if there pid then signals pid else not_running

-- CmdStop, of what the file holds, if it can be read; `there` tells where the signal can be sent.
unfoldable pub cmd_stop : (ℕ → Bool) → Option Text → Stop
unfolding scan_pid signal_if
cmd_stop there none = not_running
cmd_stop there (some file) = signal_if there (scan_pid file)

-- stopQuietly: the process that it interrupts, if any.
unfoldable pub stop_quietly : Option Text → Option ℕ
unfolding scan_pid
stop_quietly none = none
stop_quietly (some file) = let pid = scan_pid file in if leb pid 1 then none else some pid
