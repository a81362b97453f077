-- ===== src/Adb.antt =====
-- The adb commands that the harbor runs itself: ListDevices of internal/harbor/devices.go, listPackages and
-- uninstallPackage of internal/harbor/cleanup.go, adbCmd, adbRun and adbOutput of internal/harbor/runs.go, and those of
-- internal/harbor/proxy.go. `environ` is os.Environ(); a command without an environment of its own has that one.
use adb_harbor.Prelude.{ℕ, Bool, ◌&&◌, Option, none, some, List, [], ◌∷◌, ◌++◌, if◌then◌else◌, ltb}
use adb_harbor.Text.{Text, text, contains, is_empty, trim_space}
use adb_harbor.Config.{Config, client_server_port}
use adb_harbor.Devices.{Device, parse_devices}
use adb_harbor.Wire.{env_with_server_port}

pub record AdbCall : Type 0 where
  pub program : Text
  pub args : List Text
  pub env : List Text

-- if serverPort > 0 { cmd.Env = envWithServerPort(os.Environ(), serverPort) }
unfoldable pub env_for : List Text → ℕ → List Text
env_for environ port = if ltb 0 port then env_with_server_port environ port else environ

-- The command of ListDevices
unfoldable pub list_devices_call : Text → List Text → ℕ → AdbCall
unfolding env_for
list_devices_call real environ port = record {
  program = real;
  args = text "devices" ∷ text "-l" ∷ [];
  env = env_for environ port;
}

abbrev parsed : Option Text → Option (List Device)
parsed none = none
parsed (some out) = some (parse_devices out)

-- ListDevices; `output` is what a command prints, or an error.
unfoldable pub list_devices :
    Text → List Text → ℕ → (output : AdbCall → Option Text) → Option (List Device)
unfolding list_devices_call
list_devices real environ port output =
    if is_empty real then none else parsed (output (list_devices_call real environ port))

-- The command of listPackages
unfoldable pub list_packages_call : Text → List Text → ℕ → Text → AdbCall
unfolding env_for
list_packages_call real environ port serial = record {
  program = real;
  args = text "-s" ∷ serial ∷ text "shell" ∷ text "pm" ∷ text "list" ∷ text "packages" ∷ [];
  env = env_for environ port;
}

-- The command of uninstallPackage
unfoldable pub uninstall_call : Text → List Text → ℕ → Text → Text → AdbCall
unfolding env_for
uninstall_call real environ port serial pkg = record {
  program = real;
  args = text "-s" ∷ serial ∷ text "uninstall" ∷ pkg ∷ [];
  env = env_for environ port;
}

-- The result of uninstallPackage, by whether the command ends without an error, and its output.
unfoldable pub uninstall_result : Bool → Text → Bool
uninstall_result ends_well out = ends_well && contains out (text "Success")

-- adbCmd
unfoldable pub adb_cmd : Config → List Text → Text → List Text → AdbCall
unfolding env_for
adb_cmd cfg environ serial args = record {
  program = cfg.real_adb;
  args = text "-s" ∷ serial ∷ args;
  env = env_for environ (client_server_port cfg);
}

-- adbRun, by the error of the command, if any, and its output: the error that it gives.
unfoldable pub adb_run : Option Text → Text → Option Text
adb_run none out = none
adb_run (some error) out = some (error ++ text ": " ++ trim_space out)

-- The command of ensureRealServer
unfoldable pub start_server_call : Config → List Text → AdbCall
start_server_call cfg environ = record {
  program = cfg.real_adb;
  args = text "start-server" ∷ [];
  env = env_with_server_port environ cfg.adb_server_port;
}

-- The command of runProxy that ends the server on the proxy's own port.
unfoldable pub kill_server_call : Config → List Text → AdbCall
kill_server_call cfg environ = record {
  program = cfg.real_adb;
  args = text "kill-server" ∷ [];
  env = env_with_server_port environ cfg.proxy_port;
}
