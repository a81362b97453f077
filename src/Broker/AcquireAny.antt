-- ===== src/Broker/AcquireAny.antt =====
-- internal/harbor/broker.go: handleAcquireAny, selectAcquireAny and deniedSerial.
use adb_harbor.Prelude.{
  ℕ, suc, ◌+◌, ◌*◌, Bool, true, false, not, ◌&&◌, ◌||◌, Option, none, some, List, [], ◌∷◌, ◌++◌,
  ltb, if◌then◌else◌, any,
}
use adb_harbor.Text.{Text, text, text_eq, is_empty, has_prefix, join}
use adb_harbor.Text.Decimal.{decimal}
use adb_harbor.Map.{get, find}
use adb_harbor.Protocol.{AcquireReq, AcquireAnyReq, AcquireAnyResp}
use adb_harbor.Devices.{Device}
use adb_harbor.Broker.{Broker, Lease, second, cleaning_at}
use adb_harbor.Broker.Grant.{explicit_ttl, grant}
use adb_harbor.Broker.Waiting.{store_lease}

-- deniedSerial
unfoldable pub denied_serial : Text → List Text → Bool
denied_serial serial deny = any (λ s. not (is_empty s) && text_eq s serial) deny

-- The --usb and --emulator constraints.
unfoldable pub is_excluded : Bool → Bool → Device → Bool
is_excluded usb emu d =
    let is_emu = has_prefix d.serial (text "emulator-") in
    (usb && (is_emu || not d.usb)) || (emu && not is_emu)

-- The results of selectAcquireAny.
pub record Selection : Type 0 where
  pub serial : Text
  pub busy : List Text
  pub denied : ℕ

abbrev pub busy_text : Device → Text → Text
busy_text d holder = d.serial ++ text " (held by " ++ holder ++ text ")"

abbrev pub cleaning_text : Device → Text
cleaning_text d = d.serial ++ text " (session cleanup)"

-- A matching device: held by somebody, in cleanup, or free.
abbrev after_match : Device → Selection → Option Text → Bool → Selection
after_match d rest (some holder) cleaned = record rest { busy = busy_text d holder ∷ rest.busy }
after_match d rest none true = record rest { busy = cleaning_text d ∷ rest.busy }
after_match d rest none false = record { serial = d.serial; busy = []; denied = 0 }

-- selectAcquireAny; the held devices and those in cleanup are given as functions of a serial.
module _ (held : Text → Option Text) (cleaning : Text → Bool) (deny : List Text)
    (usb emu : Bool) where
  unfoldable pub select_any : List Device → Selection
  unfolding denied_serial is_excluded
  select_any [] = record { serial = []; busy = []; denied = 0 }
  select_any (d ∷ ds) =
      let rest = select_any ds in
      if not (text_eq d.state (text "device"))
      then rest
      else if denied_serial d.serial deny
      then record rest { denied = suc rest.denied }
      else if is_excluded usb emu d
      then rest
      else after_match d rest (held d.serial) (cleaning d.serial)

-- The lease of the session that a range over b.leases finds first.
unfoldable pub lease_of_session : Broker → Text → Option ℕ
lease_of_session b session = find (λ p. text_eq (b.lease_heap p).session session) b.leases

abbrev pub explicit_request : AcquireAnyReq → Text → AcquireReq
explicit_request req serial = record {
  serial = serial;
  session = req.session;
  holder = req.holder;
  pid = req.pid;
  idle_ttl_sec = 0;
  ttl_sec = req.ttl_sec;
  explicit = true;
  command = false;
}

unfoldable pub stuck_to : Broker → AcquireAnyReq → ℕ → Lease → Lease
unfolding explicit_ttl
stuck_to b req now l = record l {
  last_active = now;
  last_beat = now;
  claimed = true;
  explicit = true;
  expires_at = now + explicit_ttl b (explicit_request req []);
}

abbrev pub any_granted : Text → Text → AcquireAnyResp
any_granted serial id = record { granted = true; serial = serial; lease_id = id; message = [] }

abbrev pub any_refused : Text → AcquireAnyResp
any_refused message = record { granted = false; serial = []; lease_id = []; message = message }

abbrev is_nil : List Text → Bool
is_nil [] = true
is_nil (x ∷ xs) = false

-- The message when no device is free.
unfoldable pub refusal_message : Selection → Text
refusal_message s =
    if not (is_nil s.busy)
    then text "all matching devices busy: " ++ join s.busy (text ", ")
    else if ltb 0 s.denied
    then text "no matching device connected (" ++ decimal s.denied ++ text " denied by config)"
    else text "no matching device connected"

-- The part of handleAcquireAny behind the sticky lease.
unfoldable pub acquire_selected : Broker → AcquireAnyReq → ℕ → Selection → AcquireAnyResp × Broker
acquire_selected b req now sel =
    if is_empty sel.serial
    then (any_refused (refusal_message sel), b)
    else let b1 = grant b (explicit_request req sel.serial) now (b.cfg.idle_ttl_sec * second) in
      (any_granted sel.serial (b1.lease_heap b.next_lease).id, b1)

abbrev pub holder_at : Broker → Text → Option Text
holder_at b serial = elim (get b.leases serial) [
  | none ↦ none
  | some p ↦ some (b.lease_heap p).holder
]

unfoldable pub selection : Broker → AcquireAnyReq → List Device → Selection
selection b req devs =
    select_any (holder_at b) (cleaning_at b) b.cfg.deny_serials req.usb req.emulator devs

-- What `adb devices -l` gave before the lock was taken: the devices or an error's text.
pub data Inventory : Type 0 where
  listed : List Device → Inventory
  failed : Text → Inventory

unfoldable pub acquire_any : Broker → AcquireAnyReq → List Device → ℕ → AcquireAnyResp × Broker
acquire_any b req devs now = elim (lease_of_session b req.session) [
  | some p ↦
      let l = stuck_to b req now (b.lease_heap p) in (any_granted l.serial l.id, store_lease b p l)
  | none ↦ acquire_selected b req now (selection b req devs)
]

-- (*Broker).handleAcquireAny
unfoldable pub handle_acquire_any :
    Broker → Option AcquireAnyReq → Inventory → ℕ → Option AcquireAnyResp × Broker
handle_acquire_any b none inv now = (none, b)
handle_acquire_any b (some req) (failed e) now =
    if is_empty req.session then (none, b) else (some (any_refused e), b)
handle_acquire_any b (some req) (listed devs) now =
    let (r, b1) = acquire_any b req devs now in
    if is_empty req.session then (none, b) else (some r, b1)
