-- ===== src/Devices.antt =====
-- internal/harbor/devices.go: the parser of `adb devices -l`; and the resolution of a request without
-- a serial, resolveSoleDevice of internal/harbor/shim.go and soleOnlineSerial of
-- internal/harbor/proxy.go. Running adb is not modelled: its output is an argument.
pub mod Sole
pub mod Agree
use adb_harbor.Prelude.{ℕ, Bool, true, false, ◌||◌, List, [], ◌∷◌, if◌then◌else◌}
use adb_harbor.Text.{Text, text, is_empty, has_prefix, trim_prefix, trim_space, split, fields}

pub record Device : Type 0 where
  pub serial : Text
  pub state : Text
  pub model : Text
  pub transport_id : Text
  pub usb : Bool

-- One word of a line behind the first two.
unfoldable pub read_field : Device → Text → Device
unfolding has_prefix trim_prefix
read_field d f =
    if has_prefix f (text "model:")
    then record d { model = trim_prefix f (text "model:") }
    else if has_prefix f (text "transport_id:")
    then record d { transport_id = trim_prefix f (text "transport_id:") }
    else if has_prefix f (text "usb:")
    then record d { usb = true }
    else d

unfoldable pub read_fields : Device → List Text → Device
unfolding read_field
read_fields d [] = d
read_fields d (f ∷ fs) = read_fields (read_field d f) fs

-- The device of a line's words, put before the devices of the later lines.
unfoldable pub add_device : List Text → List Device → List Device
unfolding read_fields
add_device (serial ∷ state ∷ fs) devs = read_fields bare fs ∷ devs
  where
    bare : Device
    bare = record { serial = serial; state = state; model = []; transport_id = []; usb = false }
add_device _ devs = devs

unfoldable pub is_noise : Text → Bool
unfolding has_prefix
is_noise line =
    is_empty line || has_prefix line (text "List of devices") || has_prefix line (text "*")

unfoldable pub parse_lines : List Text → List Device
unfolding trim_space is_noise add_device fields
parse_lines [] = []
parse_lines (l ∷ ls) =
    let rest = parse_lines ls in
    let line = trim_space l in if is_noise line then rest else add_device (fields line) rest

-- ListDevices from the point where adb has ended.
unfoldable pub parse_devices : Text → List Device
unfolding parse_lines split
parse_devices out = parse_lines (split out 10)
