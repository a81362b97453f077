-- ===== src/Broker/Daemon.antt =====
-- internal/harbor/broker.go: RunDaemon, from its start to the signal that ends it, and the handlers behind the paths
-- that it serves. A call of /v1/wait that blocks goes on with the steps of handleWait's select.
use adb_harbor.Prelude.{
  ℕ, ◌≡◌, inl, inr, subst, not, ◌||◌, ◌==◌, Bool, Option, none, some, List, [], ◌∷◌, if◌then◌else◌,
  arith, Bool-cases,
}
use adb_harbor.Text.{Text}
use adb_harbor.Config.{Config}
use adb_harbor.Devices.{Device}
use adb_harbor.Protocol.{
  AcquireReq, AcquireResp, AcquireAnyReq, AcquireAnyResp, ReleaseReq, ReleaseResp, StateResp,
  DevicesResp,
}
use adb_harbor.Client.Daemon.{pid_file}
use adb_harbor.Broker.{Broker, Lease, save_state}
use adb_harbor.Broker.Handlers.{handle_acquire, touch_lease, end_command, handle_release}
use adb_harbor.Broker.AcquireAny.{Inventory, handle_acquire_any}
use adb_harbor.Broker.Waiting.{WaitStart, wait_start}
use adb_harbor.Broker.Report.{handle_state, handle_devices}
use adb_harbor.Broker.Reaper.{reload_config}
use adb_harbor.Broker.Restart.{start, load_state}
use adb_harbor.Broker.Run.{
  Reachable, boots, moves, acquires, acquires_any, waits, beats, ends, releases, reloads,
}
use adb_harbor.Broker.Valid.{IsValid}
use adb_harbor.Broker.Valid.Reached.{Reachable-Valid}

-- What RunDaemon finds: whether the directory and the lock's file can be had, the lock is free, and the socket can be
-- listened on; its process ID, the configuration, what state.json holds, and whether the disk can be written.
pub record Setting : Type 0 where
  pub makes_dirs : Bool
  pub opens_lock : Bool
  pub lock_is_free : Bool
  pub listens : Bool
  pub pid : ℕ
  pub cfg : Config
  pub file : Option (List Lease)
  pub saved : List Lease
  pub writes : Bool
  pub now : ℕ

-- How the start ends: with an error, or serving, with the content of the file with the process ID and whether the
-- proxy is run.
pub data Started : Type 0 where
  fails already_running : Started
  serving : (broker : Broker) (pid_content : Text) (proxy : Bool) → Started

-- RunDaemon up to its server.
unfoldable pub run_daemon : Setting → Started
unfolding pid_file
run_daemon s =
    if not s.makes_dirs || not s.opens_lock
    then fails
    else if not s.lock_is_free
    then already_running
    else if not s.listens
    then fails
    else serving (load_state s.now (start s.cfg s.pid s.saved s.writes) s.file) (pid_file s.pid)
        s.cfg.proxy_enabled

-- The goroutine that a signal wakes: it saves the state.
unfoldable pub on_signal : Broker → Broker
on_signal b = save_state b

-- A request, by its path, with its body: none where it cannot be decoded.
pub data Call : Type 0 where
  ping state : Call
  acquire : (req : Option AcquireReq) → Call
  acquire_any : (req : Option AcquireAnyReq) (inv : Inventory) → Call
  wait : (id : Text) → Call
  heartbeat end : (id : Option Text) → Call
  release : (req : Option ReleaseReq) → Call
  devices : (listed : List Device) (error : Text) → Call

pub data Reply : Type 0 where
  pong : (pid : ℕ) → Reply
  acquire_reply : Option AcquireResp → Reply
  any_reply : Option AcquireAnyResp → Reply
  wait_reply : WaitStart → Reply
  done : Reply
  release_reply : Option ReleaseResp → Reply
  state_reply : StateResp → Reply
  devices_reply : DevicesResp → Reply

abbrev or_zero_value : Option Text → Text
or_zero_value none = []
or_zero_value (some id) = id

-- (*Broker).handlePing
unfoldable pub handle_ping : Broker → Reply
handle_ping b = pong b.pid

-- (*Broker).handleHeartbeat, of the lease's ID; a body that cannot be decoded leaves it empty.
unfoldable pub handle_heartbeat : Broker → Option Text → ℕ → Reply × Broker
handle_heartbeat b id now = (done, touch_lease b (or_zero_value id) now)

-- (*Broker).handleEnd, of the lease's ID, likewise
unfoldable pub handle_end : Broker → Option Text → ℕ → Reply × Broker
handle_end b id now = (done, end_command b (or_zero_value id) now)

abbrev changed : Broker → ℕ → Option ℕ → Config → Broker × ℕ
changed b seen none cfg = (b, seen)
changed b seen (some mtime) cfg = if mtime == seen then (b, seen) else (reload_config b cfg, mtime)

-- (*Broker).reloadConfigIfChanged, with the time of the file that was seen last, b.cfgMTime, the time of the file now, if
-- there is one, and what LoadConfig gives.
unfoldable pub reload_config_if_changed :
    Broker → (seen : ℕ) → (mtime : Option ℕ) → Config → Broker × ℕ
reload_config_if_changed b seen mtime cfg = changed b seen mtime cfg

-- A configuration that is looked at leads from a reachable state to one.
pub reload_config_if_changed-Reachable :
    {b : Broker} (seen : ℕ) (mtime : Option ℕ) (cfg : Config)
    → Reachable b
    → Reachable (reload_config_if_changed b seen mtime cfg).0
unfolding reload_config_if_changed
reload_config_if_changed-Reachable seen none cfg h = h
reload_config_if_changed-Reachable {b = b} seen (some mtime) cfg h =
    elim (Bool-cases (mtime == seen)) [ inl e ↦ rw e h | inr e ↦ rw e (moves h (reloads cfg)) ]

-- The handlers of the mux.
unfoldable pub serve : Broker → Call → ℕ → Reply × Broker
unfolding handle_ping handle_heartbeat handle_end
serve b ping now = (handle_ping b, b)
serve b state now = (state_reply (handle_state b), b)
serve b (acquire req) now = let (r, c) = handle_acquire b req now in (acquire_reply r, c)
serve b (acquire_any req inv) now =
    let (r, c) = handle_acquire_any b req inv now in (any_reply r, c)
serve b (wait id) now = let (r, c) = wait_start b id now in (wait_reply r, c)
serve b (heartbeat id) now = handle_heartbeat b id now
serve b (end id) now = handle_end b id now
serve b (release req) now = let (r, c) = handle_release b req now in (release_reply r, c)
serve b (devices listed error) now = (devices_reply (handle_devices b listed error), b)

-- The requests of a time, one after the other, each with the time at which it is served.
unfoldable pub serve_all : Broker → List (Call × ℕ) → Broker
unfolding serve
serve_all b [] = b
serve_all b ((r, now) ∷ rs) = serve_all (serve b r now).1 rs

-- A request leads from a reachable state to one.
pub serve-Reachable : {b : Broker} (r : Call) (now : ℕ) → Reachable b → Reachable (serve b r now).1
unfolding serve
serve-Reachable ping now h = h
serve-Reachable state now h = h
serve-Reachable (acquire req) now h = moves h (acquires req now)
serve-Reachable (acquire_any req inv) now h = moves h (acquires_any req inv now)
serve-Reachable (wait id) now h = moves h (waits id now)
serve-Reachable (heartbeat id) now h = moves h (beats (or_zero_value id) now)
serve-Reachable (end id) now h = moves h (ends (or_zero_value id) now)
serve-Reachable (release req) now h = moves h (releases req now)
serve-Reachable (devices listed error) now h = h

serve_all-Reachable : (rs : List (Call × ℕ)) {b : Broker} → Reachable b → Reachable (serve_all b rs)
unfolding serve_all
serve_all-Reachable [] h = h
serve_all-Reachable ((r, now) ∷ rs) h = serve_all-Reachable rs (serve-Reachable r now h)

run_daemon-Reachable :
    (s : Setting) (b : Broker) (content : Text) (proxy : Bool)
    → run_daemon s ≡ serving b content proxy
    → Reachable b
unfolding run_daemon
run_daemon-Reachable s b content proxy e =
    subst Reachable (ground (arith, e)) (boots s.cfg s.pid s.now s.saved s.writes s.file)

-- A daemon that RunDaemon starts is well-formed after any requests, in any order and at any times, whatever the state
-- file holds.
pub serve_all-Valid :
    (s : Setting) (b : Broker) (content : Text) (proxy : Bool) (rs : List (Call × ℕ))
    → run_daemon s ≡ serving b content proxy
    → IsValid (serve_all b rs)
serve_all-Valid s b content proxy rs e =
    Reachable-Valid (serve_all-Reachable rs (run_daemon-Reachable s b content proxy e))
