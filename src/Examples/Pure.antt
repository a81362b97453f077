-- ===== src/Examples/Pure.antt =====
-- Runs of internal/harbor/adbargs.go, session.go, cleanup.go and of the pure parts of proxy.go and shim.go.
use adb_harbor.Prelude.{◌≡◌, refl, true, false, not, ◌&&◌, some, List, [], ◌∷◌, ◌++◌, arith}
use adb_harbor.Text.{Text, text, one_of, join, text_eq, has_prefix, trim_prefix}
use adb_harbor.Config.{default_config}
use adb_harbor.Devices.{Device}
use adb_harbor.Devices.Sole.{resolve_sole_device, sole_online_serial}
use adb_harbor.Devices.Agree.{sole_online_serial-resolve_sole_device}
use adb_harbor.AdbArgs.{
  bare_invocation, parse_invocation, is_exempt_read_only, is_flag, flag_kind, value_flag,
}
use adb_harbor.AdbArgs.RoundTrip.{
  Flag, serial, usb, valued, write_flags, meaning, parse_invocation-write_flags,
}
use adb_harbor.Broker.{Broker, Lease}
use adb_harbor.Broker.Restart.{no_lease, start}
use adb_harbor.Cleanup.{cleanup_outcome, is_protected_package}
use adb_harbor.Cleanup.Removal.{cleanup_outcome_iff}
use adb_harbor.Wire.{write_msg, read_msg, message, parse_transport, TransportReq, is_exempt_service}
use adb_harbor.Wire.Frames.{read_msg-write_msg}
use adb_harbor.Wire.Requests.{exempt_agree}

abbrev flags : List Flag
flags = serial (text "R5") ∷ usb ∷ valued (text "-H") (text "box") ∷ []

flags-named : (is_flag (text "-H") ≡ true) × (flag_kind (text "-H") ≡ value_flag)
unfolding is_flag flag_kind has_prefix text_eq one_of
flags-named = (refl, refl)

shell-command : is_flag (text "shell") ≡ false
unfolding is_flag has_prefix
shell-command = refl

parse_invocation-write_flags_example :
    parse_invocation (write_flags flags (text "shell" ∷ text "id" ∷ [])) ≡ record bare_invocation {
      serial = text "R5";
      use_usb = true;
      command = text "shell";
      rest = text "id" ∷ [];
    }
unfolding meaning
parse_invocation-write_flags_example =
    parse_invocation-write_flags flags (text "shell") (text "id" ∷ []) (tt, (tt, (flags-named, tt)))
      shell-command

abbrev lease_with_baseline : Lease
lease_with_baseline = record no_lease { baseline = text "com.old" ∷ [] }

abbrev cleaned_broker : Broker
cleaned_broker = start default_config 1 [] true

abbrev installed : List Text
installed = text "com.old" ∷ text "com.new" ∷ []

cleanup_outcome_iff_example :
    (one_of
        (text "com.new")
        (cleanup_outcome cleaned_broker lease_with_baseline (some installed) (λ p. true)).0
      ≡ (one_of (text "com.new") installed
          && not (one_of (text "com.new") (text "com.old" ∷ []))
          && not (is_protected_package (text "com.new") cleaned_broker.cfg.protected_packages)
          && true))
    × (one_of
          (text "com.new")
          (cleanup_outcome cleaned_broker lease_with_baseline (some installed) (λ p. true)).1
        ≡ (one_of (text "com.new") installed
            && not (one_of (text "com.new") (text "com.old" ∷ []))
            && not (is_protected_package (text "com.new") cleaned_broker.cfg.protected_packages)
            && false))
cleanup_outcome_iff_example =
    cleanup_outcome_iff cleaned_broker lease_with_baseline installed (λ p. true) (text "com.new")

read_msg-write_msg_example :
    read_msg (write_msg (text "host:version") ++ text "0000")
    ≡ message (text "host:version") (text "0000")
read_msg-write_msg_example = read_msg-write_msg (text "host:version") (text "0000") (omega arith)

abbrev asked : TransportReq
asked = record { serial = text "R5"; tport = true }

asked-read : parse_transport (text "host:tport:serial:R5") ≡ some asked
unfolding parse_transport has_prefix trim_prefix
asked-read = refl

exempt_agree_example :
    (is_exempt_read_only
        (record bare_invocation { command = text "shell"; rest = text "getprop" ∷ [] })
        (text "getprop" ∷ [])
      ≡ is_exempt_service
          (text "shell," ++ text "v2" ++ 58 ∷ join (text "getprop" ∷ []) (text " "))
          (text "getprop" ∷ []))
    × (is_exempt_read_only
          (record bare_invocation { command = text "exec-out"; rest = text "getprop" ∷ [] })
          (text "getprop" ∷ [])
        ≡ is_exempt_service
            (text "exec:" ++ join (text "getprop" ∷ []) (text " "))
            (text "getprop" ∷ []))
exempt_agree_example =
    exempt_agree bare_invocation (text "v2") (text "getprop" ∷ []) (text "getprop" ∷ []) refl

abbrev some_env : List Text
some_env = text "HOME=/" ∷ text "ANDROID_ADB_SERVER_PORT=1" ∷ []

abbrev online : List Device
online =
    record {
      serial = text "R5";
      state = text "device";
      model = [];
      usb = true;
      transport_id = text "1";
    }
    ∷ []

sole_online_serial-resolve_sole_device_example :
    sole_online_serial online ≡ resolve_sole_device false false [] online
sole_online_serial-resolve_sole_device_example =
    sole_online_serial-resolve_sole_device online ((λ _. refl), tt)
