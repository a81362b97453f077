-- ===== src/Examples/Commands.antt =====
-- Runs of the commands of internal/harbor/cli.go, client.go, runs.go and expose.go.
use adb_harbor.Prelude.{
  Bool, ℕ, ◌*◌, ◌≡◌, refl, true, false, ◌==◌, ◌&&◌, leb, Option, none, some, [], ◌∷◌, arith,
  if◌then◌else◌,
}
use adb_harbor.Text.{Text, is_empty, text, text_eq, split, to_lower}
use adb_harbor.Map.{get}
use adb_harbor.Config.{default_config}
use adb_harbor.Broker.{Broker, second}
use adb_harbor.Broker.Handlers.{handle_acquire, lease_by_id}
use adb_harbor.Broker.Restart.{start, restore, load_state}
use adb_harbor.Broker.Run.{acquires}
use adb_harbor.Broker.Ids.Lookup.{and_one, none_yet, lease_by_id-held}
use adb_harbor.Client.Daemon.{Launch, Ensured, ensure_daemon}
use adb_harbor.Client.Starting.{Ticks, EnsureSpec, ensure_daemon-ends}
use adb_harbor.Cli.Reports.{who_now, who_is, who-who_is}
use adb_harbor.Cli.Commands.{Runner, acquire_request}
use adb_harbor.Runs.Listing.{Entry, list_runs, is_newest_first, count, count_in, list_runs-count}
use adb_harbor.Wire.{is_observer_proc}
use adb_harbor.Text.Atoi.{atoi}
use adb_harbor.Text.Decimal.{decimal, digits_rev}
use adb_harbor.Session.{find_agent, matches_agent, detect_session_observer}
use adb_harbor.Peer.{peer_pid}
use adb_harbor.Proxy.Callers.{
  session_for_conn, caller_of, named_session, session_for_conn-detect_session_observer,
}
use adb_harbor.Expose.Run.{Site, snippet, mcp_url}
use adb_harbor.Runs.{Run, World, output, failure}
use adb_harbor.Runs.Store.{Submission}
use adb_harbor.Runs.Submit.{Library}
use adb_harbor.Protocol.{AcquireReq}
use adb_harbor.Examples.Broker.{runs, phone, contended, contended-Reachable}

-- The daemon answers the third ping after the start.
abbrev launch : Launch
launch = record { pings = λ i. i == 3; starts = true; clock = λ i. i * second }

launch-Ticks : Ticks launch.clock
launch-Ticks = (omega arith, λ i. omega arith)

ensure_daemon-ends_example :
    (r : Ensured) × (ensure_daemon launch 31 ≡ some r) × EnsureSpec launch r
ensure_daemon-ends_example = ensure_daemon-ends launch launch-Ticks

who-who_is_example :
    who_now (λ t. text "9:00AM") phone contended
    ≡ who_is (λ t. text "9:00AM") phone contended (get contended.leases phone)
who-who_is_example = who-who_is contended-Reachable (λ t. text "9:00AM") phone

abbrev terminal : Runner
terminal = record { detected = text "claude-7"; holder_of = λ s. s; pid = 7 }

abbrev broker : Broker
broker = start default_config 1 [] true

-- A shell of an agent has started an adb.
abbrev table : ℕ → Option (Text × ℕ)
table pid =
    if pid == 50
    then some (text "adb", 40)
    else if pid == 40
    then some (text "zsh", 30)
    else if pid == 30
    then some (text "claude", 1)
    else none

abbrev lsof : ℕ → Option Text
lsof port = some (text "p50\ncadb\n")

lsof-adb : peer_pid 7 (text "p50\ncadb\n") ≡ some (50, text "adb")
unfolding peer_pid split to_lower atoi
lsof-adb = refl

adb-plain :
    (is_observer_proc (text "adb") default_config.observer_procs ≡ false)
    × (matches_agent (text "adb") default_config.agent_procs ≡ false)
unfolding is_observer_proc matches_agent
adb-plain = (refl, refl)

shell-claude : find_agent table default_config 24 40 ≡ some (text "claude-30", false)
unfolding find_agent decimal digits_rev
shell-claude = refl

session_for_conn-detect_session_observer_example :
    (session_for_conn table default_config 7 lsof (some 4000)
      ≡ caller_of (text "adb") (text "claude-30", false))
    × (detect_session_observer table default_config (text "mine") [] 40 ≡ (
        if is_empty (text "mine") && is_empty []
        then (text "claude-30", false)
        else (named_session (text "mine") [], false)))
session_for_conn-detect_session_observer_example =
    session_for_conn-detect_session_observer table default_config 7 4000 50 40 lsof
      (text "p50\ncadb\n") (text "adb") (text "adb") (text "mine") [] (text "claude-30", false) refl
      lsof-adb (omega arith) refl adb-plain.0 adb-plain.0 adb-plain.1 shell-claude

abbrev site : Site
site = record {
  installed = λ bin. true;
  daemon = true;
  address = some (text "127.0.0.1:7437");
  token = some (text "tok");
  starts = true;
  lines = text "to http://127.0.0.1:7437" ∷ text "at https://a-b.example.com." ∷ [];
}

abbrev message : Text
message = snippet (λ s. s) (mcp_url (text "https://a-b.example.com")) (text "tok")

abbrev queued : Run
queued = record {
  id = text "ab";
  status = text "queued";
  package_name = text "com.app";
  activity = text ".Main";
  apk = text "/a.apk";
  serial = [];
  error = [];
  created_at = 9;
}

abbrev submission : Submission
submission = record { absolute = λ p. some p; exists = λ p. true; new_id = text "ab"; now = 9 }

abbrev world : World
world = record {
  saves = true;
  acquire = λ req.
      some
        (record { granted = true; serial = text "R5"; lease_id = text "lease-1-1"; message = [] });
  acquire_error = [];
  install = λ s a. output [];
  launch = λ s c. failure (text "no activity");
  screencap = λ s. output [];
  write_screenshot = λ b. output [];
}

-- The run as it ends here, and JSON for the two.
abbrev ended : Run
ended = record queued {
  status = text "failed";
  serial = text "R5";
  error = text "launch: no activity";
}

abbrev library : Library
library = record {
  unicode = record {
    runes = λ s. s;
    is_letter = λ c. leb 97 c && leb c 122;
    is_digit = λ c. leb 48 c && leb c 57;
    ascii_kept = λ c s small m. m;
    slash = refl;
    dot = refl;
  };
  runs_dir = text "/h/runs";
  encode = λ r. r.status;
  parse = λ bytes. if text_eq bytes (text "queued") then some queued else some ended;
}

-- A request of the daemon since its start from an empty state file.
abbrev one_request : AcquireReq
one_request = acquire_request terminal phone (text "claude-7") (1800 * second)

abbrev since : Broker
since =
    (handle_acquire (load_state 0 (start default_config 1 [] true) (some [])) (some one_request)
      1).1

since-held : get since.leases phone ≡ some 0
unfolding runs acquire_request restore
since-held = refl

lease_by_id-held_example : lease_by_id since (since.lease_heap 0).id ≡ some 0
lease_by_id-held_example =
    lease_by_id-held default_config 1 0 [] true [] tt tt
      (and_one none_yet (acquires (some one_request) 1)) phone 0 since-held

abbrev run_dir : Entry
run_dir = record { name = queued.id; is_dir = true }

-- Every file is there.
abbrev files : Text → Option Text
files path = some path

list_runs-count_example :
    (is_newest_first
        (list_runs library.unicode (text "/h/runs") files library.parse (some (run_dir ∷ [])))
      ≡ true)
    × ((p : Run → Bool)
        → count p
            (list_runs library.unicode (text "/h/runs") files library.parse (some (run_dir ∷ [])))
          ≡ count_in library.unicode (text "/h/runs") files library.parse p (run_dir ∷ []))
list_runs-count_example =
    list_runs-count library.unicode (text "/h/runs") files library.parse (run_dir ∷ [])
