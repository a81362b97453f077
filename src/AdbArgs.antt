-- ===== src/AdbArgs.antt =====
-- internal/harbor/adbargs.go: the global flags of an adb command line, and which commands need a
-- device or are read-only.
pub mod RoundTrip
use adb_harbor.Prelude.{Bool, true, false, not, ◌&&◌, ◌||◌, List, [], ◌∷◌, if◌then◌else◌, any}
use adb_harbor.Text.{Text, text, text_eq, is_empty, has_prefix, one_of, join, trim_space}

pub record AdbInvocation : Type 0 where
  pub serial : Text
  pub transport_id : Text
  pub use_usb : Bool
  pub use_emulator : Bool
  pub command : Text
  pub rest : List Text

abbrev pub bare_invocation : AdbInvocation
bare_invocation = record {
  serial = [];
  transport_id = [];
  use_usb = false;
  use_emulator = false;
  command = [];
  rest = [];
}

-- Global adb flags that consume a value.
abbrev pub value_flags : List Text
value_flags = text "-s" ∷ text "-t" ∷ text "-H" ∷ text "-P" ∷ text "-L" ∷ text "--one-device" ∷ []

-- Commands that never target a specific device.
abbrev pub deviceless_cmds : List Text
deviceless_cmds =
    text ""
    ∷ text "help"
    ∷ text "--help"
    ∷ text "version"
    ∷ text "--version"
    ∷ text "devices"
    ∷ text "start-server"
    ∷ text "kill-server"
    ∷ text "connect"
    ∷ text "disconnect"
    ∷ text "pair"
    ∷ text "mdns"
    ∷ text "keygen"
    ∷ text "reconnect"
    ∷ text "host-features"
    ∷ []

-- The cases of the switch on a flag.
pub data FlagKind : Type 0 where
  serial_flag transport_flag usb_flag emulator_flag value_flag other_flag : FlagKind

unfoldable pub flag_kind : Text → FlagKind
flag_kind a =
    if text_eq a (text "-s")
    then serial_flag
    else if text_eq a (text "-t")
    then transport_flag
    else if text_eq a (text "-d")
    then usb_flag
    else if text_eq a (text "-e")
    then emulator_flag
    else if one_of a value_flags
    then value_flag
    else other_flag

unfoldable pub is_flag : Text → Bool
is_flag a = has_prefix a (text "-")

-- The loop of ParseInvocation. A flag that wants a value and stands last is passed over.
unfoldable pub parse_loop : AdbInvocation → List Text → AdbInvocation
parse_loop inv [] = inv
parse_loop inv (a ∷ []) =
    if not (is_flag a) then record inv { command = a; rest = [] } else elim (flag_kind a) [
      | usb_flag ↦ record inv { use_usb = true }
      | emulator_flag ↦ record inv { use_emulator = true }
      | _ ↦ inv
    ]
parse_loop inv (a ∷ v ∷ args) = elim (is_flag a) [
  | false ↦ record inv { command = a; rest = v ∷ args }
  | true ↦ elim (flag_kind a) [
    | serial_flag ↦ parse_loop (record inv { serial = v }) args
    | transport_flag ↦ parse_loop (record inv { transport_id = v }) args
    | usb_flag ↦ parse_loop (record inv { use_usb = true }) (v ∷ args)
    | emulator_flag ↦ parse_loop (record inv { use_emulator = true }) (v ∷ args)
    | value_flag ↦ parse_loop inv args
    | other_flag ↦ parse_loop inv (v ∷ args)
  ]
]

-- ParseInvocation
unfoldable pub parse_invocation : List Text → AdbInvocation
parse_invocation args = parse_loop bare_invocation args

-- (ADBInvocation).NeedsDevice
unfoldable pub needs_device : AdbInvocation → Bool
needs_device inv = not (one_of inv.command deviceless_cmds)

-- (ADBInvocation).IsExemptReadOnly
unfoldable pub is_exempt_read_only : AdbInvocation → List Text → Bool
is_exempt_read_only inv prefixes =
    if not (text_eq inv.command (text "shell")) && not (text_eq inv.command (text "exec-out"))
    then false
    else let cmd = trim_space (join inv.rest (text " ")) in
      if is_empty cmd then false else any (has_prefix cmd) prefixes
