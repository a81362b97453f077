-- ===== src/Wire.antt =====
-- internal/harbor/proxy.go: the pure part of the ADB server proxy, which frames and reads the requests
-- of ADB's host protocol, and env for the adb child processes. A connection's incoming bytes are a
-- Text; relaying bytes between sockets is not modelled.
pub mod Frames
pub mod Requests
use mathlib.Core.List.{reverse}
use adb_harbor.Prelude.{
  ℕ, zero, suc, ◌+◌, ◌-◌, ◌*◌, ◌/◌, ◌%◌, ◌==◌, ltb, leb, Bool, true, false, not, ◌&&◌, ◌||◌, Option,
  none, some, List, [], ◌∷◌, ◌++◌, if◌then◌else◌, length, take, drop, any, keep,
}
use adb_harbor.Text.{
  Text, text, text_eq, is_empty, has_prefix, trim_prefix, contains, is_space, trim_space, cut,
  one_of,
}
use adb_harbor.Text.Decimal.{decimal}

-- A hexadecimal digit of the verb %x.
unfoldable pub digit : ℕ → ℕ
digit d = if ltb d 10 then d + 48 else d + 87

-- The digits of `n`, least first, on fuel: an int has at most 16.
unfoldable pub hex_rev : ℕ → ℕ → Text
unfolding digit
hex_rev zero n = []
hex_rev (suc f) n =
    let rest = hex_rev f (n / 16) in if ltb n 16 then digit n ∷ [] else digit (n % 16) ∷ rest

-- Zeros behind the digits up to a width.
unfoldable pub pad : ℕ → Text → Text
pad zero s = s
pad (suc k) [] = 48 ∷ pad k []
pad (suc k) (c ∷ s) = c ∷ pad k s

-- fmt.Sprintf("%04x", n)
unfoldable pub hex4 : ℕ → Text
unfolding hex_rev pad
hex4 n = reverse (pad 4 (hex_rev 16 n))

-- The bytes that writeMsg writes.
unfoldable pub write_msg : Text → Text
unfolding hex4
write_msg msg = hex4 (length msg) ++ msg

-- The bytes that writeFail writes.
unfoldable pub write_fail : Text → Text
unfolding write_msg
write_fail msg = text "FAIL" ++ write_msg msg

-- What the scanner makes of a digit of the verb %x.
unfoldable pub digit_value : ℕ → Option ℕ
digit_value c =
    if leb 48 c && leb c 57
    then some (c - 48)
    else if leb 97 c && leb c 102
    then some (c - 87)
    else if leb 65 c && leb c 70
    then some (c - 55)
    else none

-- The value of the longest run of digits, onto the digits read so far.
unfoldable pub scan_digits : ℕ → Text → ℕ
unfolding digit_value
scan_digits n [] = n
scan_digits n (c ∷ s) = elim (digit_value c) [ none ↦ n | some d ↦ scan_digits (n * 16 + d) s ]

-- A number has at least one digit.
unfoldable pub scan_number : Text → Option ℕ
unfolding scan_digits
scan_number [] = none
scan_number (c ∷ s) = elim (digit_value c) [ none ↦ none | some d ↦ some (scan_digits d s) ]

-- The number that fmt.Sscanf reads, with whether it has a minus sign. Blanks before it are skipped, but
-- a newline is an error.
unfoldable pub scan_signed : Text → Option (Bool × ℕ)
unfolding scan_number is_space
scan_signed [] = none
scan_signed (c ∷ s) =
    let later = scan_signed s in
    if c == 10
    then none
    else if is_space c
    then later
    else if c == 45
    then elim (scan_number s) [ none ↦ none | some n ↦ some (true, n) ]
    else if c == 43
    then elim (scan_number s) [ none ↦ none | some n ↦ some (false, n) ]
    else elim (scan_number (c ∷ s)) [ none ↦ none | some n ↦ some (false, n) ]

-- The results of readMsg: a message with the bytes that remain on the connection, or an error.
pub data Read : Type 0 where
  message : (msg rest : Text) → Read
  short bad_length unreasonable : Read

-- readMsg from the point where the length is known.
unfoldable pub read_body : Text → Bool × ℕ → Read
read_body s (negative, n) =
    if (negative && not (n == 0)) || ltb 1048576 n
    then unreasonable
    else if ltb (length s) n
    then short
    else message (take n s) (drop n s)

-- readMsg
unfoldable pub read_msg : Text → Read
unfolding scan_signed read_body
read_msg s =
    if ltb (length s) 4
    then short
    else elim (scan_signed (take 4 s)) [ none ↦ bad_length | some n ↦ read_body (drop 4 s) n ]

-- An empty serial lets the server choose.
pub record TransportReq : Type 0 where
  pub serial : Text
  pub tport : Bool

-- What stands before a serial in a request for its device.
abbrev pub transport_header : Bool → Text
transport_header true = text "host:tport:serial:"
transport_header false = text "host:transport:"

-- The last two cases of parseTransport.
unfoldable pub server_choice : Text → Option TransportReq
unfolding one_of
server_choice req =
    if one_of req
      (text "host:transport-any" ∷ text "host:transport-usb" ∷ text "host:transport-local" ∷ [])
    then some (record { serial = []; tport = false })
    else if one_of req
        (text "host:tport:any" ∷ text "host:tport:usb" ∷ text "host:tport:local" ∷ [])
    then some (record { serial = []; tport = true })
    else none

-- parseTransport
unfoldable pub parse_transport : Text → Option TransportReq
unfolding has_prefix trim_prefix server_choice
parse_transport req =
    if has_prefix req (transport_header false)
    then some (record { serial = trim_prefix req (transport_header false); tport = false })
    else if has_prefix req (transport_header true)
    then some (record { serial = trim_prefix req (transport_header true); tport = true })
    else server_choice req

-- isObserverProc
unfoldable pub is_observer_proc : Text → List Text → Bool
unfolding text_eq contains
is_observer_proc name observers =
    any (λ o. text_eq name o || (leb 5 (length o) && contains name o)) observers

-- The part of isExemptService behind the first colon.
unfoldable pub is_exempt_command : Text → Text → List Text → Bool
is_exempt_command family cmd prefixes =
    if not (text_eq family (text "shell")) && not (text_eq family (text "exec"))
    then false
    else let trimmed = trim_space cmd in
      if is_empty trimmed then false else any (has_prefix trimmed) prefixes

-- The family of a service: what stands before the first comma.
unfoldable pub family_of : Text → Text
unfolding cut
family_of head = elim (cut head 44) [ none ↦ head | some (family, _) ↦ family ]

-- isExemptService
unfoldable pub is_exempt_service : Text → List Text → Bool
unfolding cut family_of is_exempt_command
is_exempt_service svc prefixes = elim (cut svc 58) [
  | none ↦ false
  | some (head, cmd) ↦ is_exempt_command (family_of head) cmd prefixes
]

abbrev pub port_variable : Text
port_variable = text "ANDROID_ADB_SERVER_PORT="

abbrev pub names_port : Text → Bool
names_port e = has_prefix e port_variable

-- envWithServerPort
unfoldable pub env_with_server_port : List Text → ℕ → List Text
env_with_server_port env port =
    keep (λ e. not (names_port e)) env ++ (port_variable ++ decimal port) ∷ []
