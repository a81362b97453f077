-- ===== src/Cli/Doctor.antt =====
-- internal/harbor/cli.go: CmdDoctor. The file system, the daemon, the ports and the devices are arguments.
use adb_harbor.Prelude.{
  Bool, not, ◌&&◌, Option, none, some, List, [], ◌∷◌, ◌++◌, if◌then◌else◌, length,
}
use adb_harbor.Text.{Text, text, is_empty, contains}
use adb_harbor.Text.Decimal.{decimal}
use adb_harbor.Config.{Config}
use adb_harbor.Devices.{Device}
use adb_harbor.Shim.RealAdb.{Machine, is_self, resolve_real_adb}

-- What CmdDoctor finds: the error's texts of EnsureDaemon, if any, whether the proxy's port is listened on, the
-- address of observeAddr, the session, the devices that are listed, and whether exec.LookPath finds an adb.
pub record Checkup : Type 0 where
  pub machine : Machine
  pub cfg : Config
  pub data_dir : Text
  pub bin_dir : Text
  pub socket_path : Text
  pub token_path : Text
  pub version : Text
  pub resolve_error : Text
  pub daemon_error : Option Text
  pub proxy_answers : Bool
  pub observe : Option Text
  pub session : Text
  pub devices : Option (List Device)
  pub looks_up : Bool

-- The first adb on PATH that can be run, empty if there is none. `runnable` is the test of the loop.
unfoldable pub found_on_path : Machine → List Text → Text
found_on_path m [] = []
found_on_path m (dir ∷ dirs) =
    let p = m.join (dir ∷ text "adb" ∷ []) in
    let rest = found_on_path m dirs in if m.runnable p then p else rest

abbrev line : Text → Text
line s = s ++ (10 ∷ [])

abbrev dash : Text
dash = text " " ++ (226 ∷ 128 ∷ 148 ∷ []) ++ text " "

unfoldable pub real_adb_line : Checkup → Option Text → Text
real_adb_line c none = line (text "  real adb:    MISSING" ++ dash ++ c.resolve_error)
real_adb_line c (some real) = line (text "  real adb:    " ++ real)

unfoldable pub path_adb_line : Checkup → Text → Text
path_adb_line c found =
    if is_empty found
    then line (text "  PATH adb:    none found")
    else if is_self c.machine found
    then line (text "  PATH adb:    " ++ found ++ text " (harbor shim" ++ dash ++ text "good)")
    else line (
        text "  PATH adb:    "
        ++ found
        ++ text " (NOT the shim"
        ++ dash
        ++ text "open a new shell or check PATH order)")

unfoldable pub daemon_line : Checkup → Option Text → Text
daemon_line c none = line (text "  daemon:      running on " ++ c.socket_path)
daemon_line c (some error) = line (text "  daemon:      NOT RUNNING" ++ dash ++ error)

unfoldable pub proxy_line : Checkup → Text
proxy_line c =
    if c.cfg.proxy_enabled
    then (if c.proxy_answers
        then line (
            text "  adb port:    "
            ++ decimal c.cfg.proxy_port
            ++ text " brokered by harbor (real server on "
            ++ decimal c.cfg.adb_server_port
            ++ text ")")
        else line (
            text "  adb port:    "
            ++ decimal c.cfg.proxy_port
            ++ text " NOT listening"
            ++ dash
            ++ text "proxy down, clients bypass the broker"))
    else line (text "  adb port:    proxy disabled (only PATH-shim commands are brokered)")

unfoldable pub observe_line : Checkup → Option Text → Text
observe_line c none = line (text "  observe:     not listening")
observe_line c (some addr) =
    line (text "  observe:     " ++ addr ++ text " /mcp  (bearer in " ++ c.token_path ++ text ")")

abbrev devices_counted : Option (List Device) → Text
devices_counted none = []
devices_counted (some ds) =
    line (text "  devices:     " ++ decimal (length ds) ++ text " connected")

unfoldable pub devices_line : Checkup → Option Text → Text
devices_line c none = []
devices_line c (some real) = devices_counted c.devices

unfoldable pub path_note : Checkup → Text → Text
path_note c found =
    if c.looks_up
      && not (is_empty found)
      && not (is_self c.machine found)
      && not (contains found c.bin_dir)
    then line (text "\nnote: this shell resolves adb outside the harbor; `exec zsh` to reload PATH")
    else []

-- CmdDoctor
unfoldable pub doctor : Checkup → Text
unfolding real_adb_line path_adb_line daemon_line proxy_line observe_line devices_line path_note
    found_on_path
doctor c =
    let real = resolve_real_adb c.machine c.cfg.real_adb in
    let found = found_on_path c.machine c.machine.path_dirs in
    line (text "adbharbor " ++ c.version)
    ++ line (text "  data dir:    " ++ c.data_dir)
    ++ real_adb_line c real
    ++ path_adb_line c found
    ++ daemon_line c c.daemon_error
    ++ proxy_line c
    ++ observe_line c c.observe
    ++ line (text "  session:     " ++ c.session)
    ++ devices_line c real
    ++ path_note c found
