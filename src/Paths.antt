-- ===== src/Paths.antt =====
-- internal/harbor/paths.go: where the data directory is, and the names in it. filepath.Join is an argument.
use adb_harbor.Prelude.{Option, none, some, List, [], ◌∷◌, if◌then◌else◌}
use adb_harbor.Text.{Text, text, is_empty}

-- The result of os.UserHomeDir, or an error.
unfoldable pub home_dir : (List Text → Text) → Option Text → Text
home_dir join none = text ".adbharbor"
home_dir join (some home) = join (home ∷ text ".adbharbor" ∷ [])

-- Dir; `variable` is ADB_HARBOR_DIR.
unfoldable pub dir : (List Text → Text) → Text → Option Text → Text
unfolding home_dir
dir join variable home = if is_empty variable then home_dir join home else variable

-- The functions below take filepath.Join and what Dir gives.
unfoldable pub bin_dir : (List Text → Text) → Text → Text
bin_dir join d = join (d ∷ text "bin" ∷ [])

unfoldable pub socket_path : (List Text → Text) → Text → Text
socket_path join d = join (d ∷ text "harbor.sock" ∷ [])

unfoldable pub config_path : (List Text → Text) → Text → Text
config_path join d = join (d ∷ text "config.json" ∷ [])

unfoldable pub state_path : (List Text → Text) → Text → Text
state_path join d = join (d ∷ text "state.json" ∷ [])

unfoldable pub log_path : (List Text → Text) → Text → Text
log_path join d = join (d ∷ text "daemon.log" ∷ [])

unfoldable pub history_path : (List Text → Text) → Text → Text
history_path join d = join (d ∷ text "history.jsonl" ∷ [])

unfoldable pub pid_path : (List Text → Text) → Text → Text
pid_path join d = join (d ∷ text "daemon.pid" ∷ [])

unfoldable pub lock_path : (List Text → Text) → Text → Text
lock_path join d = join (d ∷ text "daemon.lock" ∷ [])

unfoldable pub mcp_token_path : (List Text → Text) → Text → Text
mcp_token_path join d = join (d ∷ text "mcp_token" ∷ [])

unfoldable pub mcp_port_path : (List Text → Text) → Text → Text
mcp_port_path join d = join (d ∷ text "mcp.port" ∷ [])

unfoldable pub runs_dir : (List Text → Text) → Text → Text
runs_dir join d = join (d ∷ text "runs" ∷ [])
