-- ===== src/Examples/Clients.antt =====
-- Runs of internal/harbor/shim.go and internal/harbor/runs.go.
use adb_harbor.Prelude.{refl, true, false, some, [], ◌∷◌}
use adb_harbor.Text.{text}
use adb_harbor.Config.{default_config}
use adb_harbor.Protocol.{AcquireReq}
use adb_harbor.Shim.{Acquisition, acquired, Surroundings, run_shim}
use adb_harbor.Shim.FailOpen.{FailsOpen, run_shim-FailsOpen}
use adb_harbor.Runs.{Run, World, output}

abbrev terminal : Surroundings
terminal = record {
  real_found = true;
  environ = [];
  server_port_variable = [];
  off_variable = [];
  serial_variable = text "R5";
  devices = [];
  daemon_up = true;
  session = text "claude-7";
  observer = false;
  holder = text "claude-7";
  pid = 7;
  idle_sec = 0;
}

abbrev broker_grants : AcquireReq → Acquisition
broker_grants req = acquired (text "lease-1-1")

run_shim-FailsOpen_example :
    FailsOpen default_config terminal broker_grants
      (text "install" ∷ text "a.apk" ∷ [])
      (run_shim default_config terminal broker_grants (text "install" ∷ text "a.apk" ∷ []))
run_shim-FailsOpen_example =
    run_shim-FailsOpen default_config terminal broker_grants (text "install" ∷ text "a.apk" ∷ [])
      refl

abbrev good_world : World
good_world = record {
  saves = true;
  acquire = λ req.
      some
        (record { granted = true; serial = text "R5"; lease_id = text "lease-1-1"; message = [] });
  acquire_error = [];
  install = λ s a. output [];
  launch = λ s c. output [];
  screencap = λ s. output (137 ∷ 80 ∷ 78 ∷ 71 ∷ []);
  write_screenshot = λ b. output [];
}

abbrev submitted : Run
submitted = record {
  id = text "ab";
  status = text "queued";
  package_name = text "com.app";
  activity = text ".Main";
  apk = text "a.apk";
  serial = [];
  error = [];
  created_at = 0;
}
