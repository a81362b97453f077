-- ===== src/Main.antt =====
-- cmd/adbharbor/main.go: which command the arguments of the program name, and its exit status. The commands
-- themselves are arguments, by whether they fail.
use adb_harbor.Prelude.{ℕ, Bool, true, false, List, [], ◌∷◌, if◌then◌else◌}
use adb_harbor.Text.{Text, text, text_eq, one_of}
use adb_harbor.Shim.RealAdb.{base}

pub data Command : Type 0 where
  run_shim : (args : List Text) → Command
  print_usage print_version : Command
  daemon stop uninstall devices status doctor : Command
  install who acquire cleanup submit expose : (args : List Text) → Command
  release : (args : List Text) (force : Bool) → Command
  unknown : (name : Text) → Command

-- The switch of main on the first argument.
unfoldable pub named_command : Text → List Text → Command
unfolding one_of text_eq
named_command name args =
    if text_eq name (text "daemon")
    then daemon
    else if text_eq name (text "stop")
    then stop
    else if text_eq name (text "install")
    then install args
    else if text_eq name (text "uninstall")
    then uninstall
    else if text_eq name (text "devices")
    then devices
    else if text_eq name (text "status")
    then status
    else if text_eq name (text "who")
    then who args
    else if text_eq name (text "acquire")
    then acquire args
    else if text_eq name (text "release")
    then release args false
    else if text_eq name (text "force-release")
    then release args true
    else if text_eq name (text "cleanup")
    then cleanup args
    else if text_eq name (text "doctor")
    then doctor
    else if text_eq name (text "submit")
    then submit args
    else if text_eq name (text "expose")
    then expose args
    else if text_eq name (text "shim")
    then run_shim args
    else if one_of name (text "version" ∷ text "--version" ∷ text "-v" ∷ [])
    then print_version
    else if one_of name (text "help" ∷ text "--help" ∷ text "-h" ∷ [])
    then print_usage
    else unknown name

abbrev by_arguments : List Text → Command
by_arguments [] = print_usage
by_arguments (name ∷ args) = named_command name args

-- main, of os.Args
unfoldable pub command_for : Text → List Text → Command
unfolding base named_command
command_for program args =
    if text_eq (base program) (text "adb") then run_shim args else by_arguments args

-- The status that main exits with; `fails` tells of the commands that return an error, and `shim_code` is the result
-- of RunShim.
unfoldable pub exit_status : (fails : Command → Bool) → (shim_code : List Text → ℕ) → Command → ℕ
exit_status fails shim_code (run_shim args) = shim_code args
exit_status fails shim_code print_usage = 0
exit_status fails shim_code print_version = 0
exit_status fails shim_code (unknown name) = 2
exit_status fails shim_code command = if fails command then 1 else 0
