-- ===== src/Config.antt =====
-- internal/harbor/config.go: the configuration and its defaults. Durations and ports are numbers
-- that are not negative.
use adb_harbor.Prelude.{ℕ, Bool, true, false, Option, none, some, List, [], ◌∷◌, if◌then◌else◌}
use adb_harbor.Text.{Text, text, is_empty}

pub record Config : Type 0 where
  pub real_adb : Text
  pub idle_ttl_sec : ℕ
  pub wait_sec : ℕ
  pub explicit_ttl_sec : ℕ
  pub agent_procs : List Text
  pub proxy_enabled : Bool
  pub proxy_port : ℕ
  pub adb_server_port : ℕ
  pub exempt_shell : List Text
  pub observer_procs : List Text
  pub cleanup_enabled : Bool
  pub protected_packages : List Text
  pub deny_serials : List Text
  pub mcp_port : ℕ

abbrev pub default_config : Config
default_config = record {
  real_adb = [];
  idle_ttl_sec = 300;
  wait_sec = 600;
  explicit_ttl_sec = 900;
  agent_procs =
      text "claude"
      ∷ text "node"
      ∷ text "bun"
      ∷ text "deno"
      ∷ text "codex"
      ∷ text "gemini"
      ∷ text "aider"
      ∷ text "goose"
      ∷ text "amp"
      ∷ text "cursor"
      ∷ text "copilot"
      ∷ [];
  proxy_enabled = true;
  proxy_port = 5037;
  adb_server_port = 5038;
  exempt_shell =
      text "getprop"
      ∷ text "dumpsys"
      ∷ text "pm list"
      ∷ text "pm path"
      ∷ text "settings get"
      ∷ text "wm size"
      ∷ text "wm density"
      ∷ text "cmd package list"
      ∷ text "ime list"
      ∷ text "getenforce"
      ∷ text "echo"
      ∷ text "uptime"
      ∷ [];
  observer_procs = text "scrcpy" ∷ [];
  cleanup_enabled = false;
  protected_packages =
      text "android"
      ∷ text "com.android."
      ∷ text "com.google."
      ∷ text "com.samsung."
      ∷ text "com.sec."
      ∷ [];
  deny_serials = text "RZGL41JKGFT" ∷ [];
  mcp_port = 7437;
}

-- (*Config).ClientServerPort; 0 leaves the environment alone.
unfoldable pub client_server_port : Config → ℕ
client_server_port c = if c.proxy_enabled then c.adb_server_port else 0

-- What json.Unmarshal makes of a configuration, given the bytes of a file.
abbrev or_kept : (Text → Config → Config) → Option Text → Config → Config
or_kept decode none c = c
or_kept decode (some bytes) c = decode bytes c

-- LoadRawConfig; `file` is what the configuration file holds.
unfoldable pub load_raw_config : (Text → Config → Config) → Option Text → Config
load_raw_config decode file = or_kept decode file default_config

-- LoadConfig; `adb_variable` is ADB_HARBOR_ADB.
unfoldable pub load_config : (Text → Config → Config) → Option Text → Text → Config
unfolding load_raw_config
load_config decode file adb_variable =
    let cfg = load_raw_config decode file in
    if is_empty adb_variable then cfg else record cfg { real_adb = adb_variable }
