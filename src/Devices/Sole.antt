-- ===== src/Devices/Sole.antt =====
-- resolveSoleDevice of internal/harbor/shim.go, soleOnlineSerial of internal/harbor/proxy.go.
use adb_harbor.Prelude.{Bool, not, ◌&&◌, ◌||◌, List, [], ◌∷◌, if◌then◌else◌, keep}
use adb_harbor.Text.{Text, text, text_eq, is_empty}
use adb_harbor.Devices.{Device}

abbrev pub is_online : Device → Bool
is_online d = text_eq d.state (text "device")

-- A device that an invocation with -d, -e or -t may mean.
unfoldable pub is_candidate : Bool → Bool → Text → Device → Bool
is_candidate use_usb use_emulator transport_id d =
    is_online d
    && not (use_usb && not d.usb)
    && not (use_emulator && d.usb)
    && (is_empty transport_id || text_eq d.transport_id transport_id)

abbrev pub sole_serial : List Device → Text
sole_serial [] = []
sole_serial (d ∷ []) = d.serial
sole_serial (d ∷ e ∷ ds) = []

-- resolveSoleDevice; the empty text when there is not exactly one.
unfoldable pub resolve_sole_device : Bool → Bool → Text → List Device → Text
unfolding is_candidate
resolve_sole_device use_usb use_emulator transport_id devs =
    sole_serial (keep (is_candidate use_usb use_emulator transport_id) devs)

-- The loop of soleOnlineSerial; `sole` is the serial found so far.
unfoldable pub sole_loop : Text → List Device → Text
sole_loop sole [] = sole
sole_loop sole (d ∷ ds) =
    let rest = sole_loop (if is_online d then d.serial else sole) ds in
    if is_online d && not (is_empty sole) then [] else rest

-- (*Broker).soleOnlineSerial
unfoldable pub sole_online_serial : List Device → Text
unfolding sole_loop
sole_online_serial devs = sole_loop [] devs
