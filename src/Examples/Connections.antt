-- ===== src/Examples/Connections.antt =====
-- Runs of internal/harbor/proxy.go, install.go, expose.go, peer.go and of shim.go's search for adb.
use adb_harbor.Prelude.{
  ◌≡◌, refl, true, false, none, some, List, [], ◌∷◌, ◌++◌, arith, drop, if◌then◌else◌,
}
use adb_harbor.Text.{Text, text, text_eq, has_prefix, split, join, trim_right_byte, one_of}
use adb_harbor.Config.{default_config}
use adb_harbor.Devices.{Device}
use adb_harbor.Wire.{write_msg}
use adb_harbor.Proxy.{Surroundings, granted, proxy_conn}
use adb_harbor.Proxy.Brokered.{balanced, proxy_conn-balanced}
use adb_harbor.Proxy.Readahead.{
  Conn, Round, reads, fine, timed_out, broken, watch, delivered, read, blocked, read_all,
  read_all-watch, read-blocks,
}
use adb_harbor.Shim.RealAdb.{Machine, resolve_real_adb}
use adb_harbor.Shim.Search.{IsForeign, resolve_real_adb-IsForeign}

abbrev phone : Device
phone = record {
  serial = text "R5";
  state = text "device";
  model = text "Pixel";
  usb = true;
  transport_id = text "1";
}

abbrev client : Surroundings
client = record {
  dials = true;
  takes_request = true;
  takes_service = true;
  takes_status = true;
  takes_id = true;
  server_bytes = text "OKAY";
  devices = phone ∷ [];
  session = text "claude-7";
  process = text "adb";
  observer = false;
  acquire = λ req. granted (text "lease-1-1");
}

-- A client that asks for the phone, and then for a shell on it.
abbrev sent : Text
sent = write_msg (text "host:transport:R5") ++ write_msg (text "shell:id")

proxy_conn-balanced_example : balanced none (proxy_conn default_config client sent) ≡ true
proxy_conn-balanced_example = proxy_conn-balanced default_config client sent

abbrev two_reads : List Round
two_reads =
    reads (text "00") fine false
    ∷ reads (text "y") timed_out false
    ∷ reads (text "08") fine false
    ∷ reads (text "x") broken false
    ∷ []

abbrev after_watch : Conn
after_watch = record {
  prefix = (watch [] two_reads).prefix;
  waiting = text "shell:id";
  closed = false;
}

read_all-watch_example :
    let (got, left) = read_all (4 ∷ 5 ∷ []) after_watch in
    got ++ left ≡ [] ++ delivered two_reads ++ text "shell:id"
read_all-watch_example = read_all-watch [] two_reads (text "shell:id") false (4 ∷ 5 ∷ [])

read-blocks_example :
    (read 4 (record { prefix = text "00"; waiting = []; closed = false })).0 ≡ blocked (text "00")
read-blocks_example = read-blocks 4 (text "00") refl (omega arith)

abbrev mac : Machine
mac = record {
  resolve = λ p. some p;
  stat = λ p. true;
  runnable = λ p. true;
  join = λ ps. join ps (text "/");
  rel = λ a b.
      if has_prefix b (text "/h/.adbharbor/") then some (drop 14 b) else some (text "../.." ++ b);
  self_path = some (text "/h/.adbharbor/bin/adbharbor");
  data_dir = text "/h/.adbharbor";
  bin_dir = text "/h/.adbharbor/bin";
  path_dirs = text "/h/.adbharbor/bin" ∷ text "/opt/bin" ∷ [];
  home = none;
  android_home = [];
  sdk_root = [];
}

mac-found : resolve_real_adb mac [] ≡ some (text "/opt/bin/adb")
unfolding resolve_real_adb text_eq trim_right_byte split has_prefix one_of join
mac-found = refl

resolve_real_adb-IsForeign_example : IsForeign mac (text "/opt/bin/adb")
resolve_real_adb-IsForeign_example =
    resolve_real_adb-IsForeign mac [] (text "/opt/bin/adb") (text "/opt/bin/adb") mac-found refl
