-- ===== src/Devices/Agree.antt =====
-- The shim and the proxy agree on a request without a serial: resolveSoleDevice of
-- internal/harbor/shim.go without constraints is soleOnlineSerial of internal/harbor/proxy.go.
use adb_harbor.Prelude.{◌≡◌, refl, true, false, List, [], ◌∷◌, arith, keep, All}
use adb_harbor.Text.{Text, is_empty}
use adb_harbor.Devices.{Device}
use adb_harbor.Devices.Sole.{
  is_online, is_candidate, sole_serial, resolve_sole_device, sole_loop, sole_online_serial,
}

-- The serial found so far counts only if no other device is online.
only : Text → List Device → Text
only sole [] = sole
only sole (d ∷ ds) = []

sole_loop-found :
    (sole : Text) (ds : List Device)
    → is_empty sole ≡ false
    → sole_loop sole ds ≡ only sole (keep is_online ds)
unfolding sole_loop only
sole_loop-found sole [] h = refl
sole_loop-found sole (d ∷ ds) h = ground (arith, sole_loop-found sole ds h)

only-sole_serial : (d : Device) (ds : List Device) → only d.serial ds ≡ sole_serial (d ∷ ds)
unfolding only
only-sole_serial d [] = refl
only-sole_serial d (e ∷ ds) = refl

-- Every device that is online has a serial.
abbrev pub HasSerial : Device → Type 0
HasSerial d = is_online d ≡ true → is_empty d.serial ≡ false

sole_loop-sole_serial :
    (ds : List Device) → All HasSerial ds → sole_loop [] ds ≡ sole_serial (keep is_online ds)
unfolding sole_loop
sole_loop-sole_serial [] h = refl
sole_loop-sole_serial (d ∷ ds) h = ground (
  arith,
  sole_loop-sole_serial ds h.1,
  sole_loop-found d.serial ds,
  h.0,
  only-sole_serial d (keep is_online ds),
)

keep-is_candidate : (ds : List Device) → keep (is_candidate false false []) ds ≡ keep is_online ds
unfolding is_candidate
keep-is_candidate [] = refl
keep-is_candidate (d ∷ ds) = ground (arith, keep-is_candidate ds)

-- When every online device has a serial, the proxy resolves a request without a serial to the same device
-- as the shim resolves an invocation without constraints, and to none in the same cases.
pub sole_online_serial-resolve_sole_device :
    (devs : List Device)
    → All HasSerial devs
    → sole_online_serial devs ≡ resolve_sole_device false false [] devs
unfolding sole_online_serial resolve_sole_device
sole_online_serial-resolve_sole_device devs h =
    rw (keep-is_candidate devs) (sole_loop-sole_serial devs h)
