-- ===== src/Lib.antt =====
-- AdbHarbor arbitrates Android devices between coding agents: a broker daemon leases each device to one
-- session at a time and queues the others, and a shim and a proxy in front of adb take the leases.
--
-- The parts and their files:
--   internal/harbor/broker.go, the daemon: Broker.antt (its state and helpers), Broker/Grant.antt
--     (acquireLocked, grantLocked), Broker/Release.antt (expireLocked, grantNextLocked),
--     Broker/Waiting.antt (handleWait, waitLocal, dropWaiter), Broker/Handlers.antt (the handlers of
--     acquire, heartbeat, end and release), Broker/AcquireAny.antt (handleAcquireAny),
--     Broker/Reaper.antt (the reaper, and the sections of cleanup.go's goroutines), Broker/Restart.antt
--     (RunDaemon's first state, loadState), Broker/Report.antt (handleState, handleDevices),
--     Broker/Daemon.antt (RunDaemon's start, its end, and the handlers behind its paths).
--     Broker/Run.antt makes a step relation of them, one step for each section under the lock.
--     Broker/Valid.antt is the invariant and the modules below it show that each section keeps it;
--     Broker/Exclusion.antt, Broker/Handoff.antt, Broker/Expiry.antt, Broker/Reclaim.antt and
--     Broker/Revival.antt say what a client may rely on, and Broker/Fairness.antt, Broker/GivingUp.antt
--     what becomes of who waits. Broker/Local.antt and Broker/Local/Ends.antt: AcquireLocalBlocking.
--     Broker/Ids.antt and the modules below it: the IDs of leases, and leaseByIDLocked.
--   internal/harbor/cleanup.go, the session cleanup: Cleanup.antt, Cleanup/Removal.antt.
--   internal/harbor/config.go, protocol.go and paths.go: Config.antt, Protocol.antt, Paths.antt.
--   internal/harbor/devices.go, and how shim.go and proxy.go resolve a request without a serial:
--     Devices.antt, Devices/Sole.antt, Devices/Agree.antt.
--   internal/harbor/adbargs.go, the adb command line: AdbArgs.antt, AdbArgs/RoundTrip.antt.
--   internal/harbor/proxy.go, the host protocol's frames and requests: Wire.antt, Wire/Frames.antt,
--     Wire/Requests.antt; one connection of the proxy: Proxy.antt, Proxy/Cases.antt, Proxy/Brokered.antt,
--     Proxy/Relay.antt (relayTransportStatus), Proxy/Readahead.antt (readaheadConn and its watcher),
--     Proxy/Takeover.antt (runProxy's port, ensureRealServer, dialUpstream), Proxy/Callers.antt
--     (sessionForConn, and the session that the shim would find).
--   internal/harbor/session.go, who calls: Session.antt, Session/Keys.antt, Session/Process.antt (psInfo).
--   internal/harbor/shim.go, RunShim, and internal/harbor/client.go, AcquireBlocking: Shim.antt,
--     Shim/FailOpen.antt, Shim/Waiting.antt; AcquireBlocking against the handlers that answer it:
--     Client.antt, Client/Waits.antt, Client/Leases.antt; the search for the real adb: Shim/RealAdb.antt,
--     Shim/Search.antt; the exit codes of the shim: Shim/Codes.antt; EnsureDaemon and CmdStop:
--     Client/Daemon.antt, Client/Starting.antt; `call` and selfPath: Client/Calls.antt.
--   internal/harbor/runs.go, the submitted runs: Runs.antt, Runs/Outcome.antt (executeRun),
--     Runs/Store.antt (IDs, loadRun, the makers of a run), Runs/Listing.antt, Runs/Tail.antt,
--     Runs/Submit.antt (CmdSubmit, with the files of the runs).
--   internal/harbor/observe.go, the listener that shows the runs: Observe.antt, Observe/Ports.antt,
--     Observe/Bearer.antt, Observe/Waiting.antt, Observe/Answers.antt, Observe/Server.antt.
--   the adb commands that the harbor runs itself, in internal/harbor/devices.go, cleanup.go, runs.go and
--     proxy.go: Adb.antt.
--   internal/harbor/install.go: the shell's rc file in Install.antt and Install/Restore.antt; CmdInstall and
--     CmdUninstall on a file system in Install/Commands.antt, Install/Frames.antt, Install/Installing.antt,
--     Install/Undo.antt.
--   internal/harbor/peer.go, the process behind a connection: Peer.antt, Peer/Found.antt.
--   internal/harbor/expose.go, the address of a tunnel: Expose.antt, Expose/Public.antt; runExpose:
--     Expose/Run.antt.
--   internal/harbor/cli.go, what the commands show and decide: Cli.antt, Cli/Commands.antt, Cli/Doctor.antt;
--     what they say against what the broker has: Cli/Reports.antt, Cli/Held.antt.
--   cmd/adbharbor/main.go, the choice of a command: Main.antt.
--   Go's strings and maps: Text.antt, Map.antt. Runs on concrete input: Examples.antt.
--
-- How the code is modelled. Pointers to leases and waiters are numbers into two heaps of the broker's
-- record, so that a lease in the map, in its waiters and in a cleanup goroutine is one object that each
-- of them sees change. Times and durations are nanoseconds, natural numbers, and configured durations
-- are not negative; a function takes the readings of the clock that the code makes. A goroutine that
-- the broker starts is an entry of `tasks`. Closing a closed channel would panic: the model sets
-- `panicked`. A range over a map has no fixed order in Go: the reaper's sweep takes the list of its
-- visits as an argument, with the reading of the clock that each makes. The state file is the list of
-- leases last written, and writing it works only while `disk_ok` holds, which a step of the environment
-- may change. The history has no time stamps. Strings are lists of bytes, and blanks, upper case and
-- the keys that are sanitized are ASCII.
--
-- expireLocked and what it calls take one reading of the clock and one configuration for their section, where the
-- code reads them several times. The descriptions of a device's state show no negative duration. The save at the end
-- of executeRun, whose error the code ignores, succeeds in the model.
--
-- Numbers that only an int's width bounds are not cut off, except in strconv.Atoi. A timeout in seconds
-- is one whose nanoseconds fit a Duration. In Runs/Listing.antt runs of the same time stay in the order
-- of the directory, which Go's sort leaves open.
--
-- The fuel of decimal numbers is one more than the number, and a number has no more digits than that; an
-- int has no more than 16 hexadecimal ones. The wait of Observe/Waiting.antt is on fuel, and ends on three
-- rounds for each second and one more. The wait of Client/Starting.antt is on fuel too, and ends on 31: three
-- seconds in steps of a tenth, and one more. The walks of session.go have the code's own bound of 25
-- processes, and the loops of runProxy and ensureRealServer theirs of 10 and 30.
--
-- A file system is a function from paths to files, in which a path stands for the file that it leads to; a
-- write fails before it begins, or succeeds.
--
-- Not modelled: sockets, HTTP and JSON, starting processes, signals, the parse of flags, the alignment of
-- tables, and log output. What adb, ps, pm, lsof and a tunnel print, what files hold, which writes and commands
-- succeed, and what the MCP library passes on are arguments. The goroutines of the proxy that copy bytes both
-- ways are not modelled.
pub mod Prelude
pub mod Text
pub mod Map
pub mod Config
pub mod Protocol
pub mod Devices
pub mod Broker
pub mod AdbArgs
pub mod Wire
pub mod Cleanup
pub mod Session
pub mod Shim
pub mod Runs
pub mod Observe
pub mod Install
pub mod Paths
pub mod Proxy
pub mod Peer
pub mod Client
pub mod Expose
pub mod Cli
pub mod Adb
pub mod Main
mod Examples
