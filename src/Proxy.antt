-- ===== src/Proxy.antt =====
-- internal/harbor/proxy.go: one connection of the ADB server proxy. What the client and the real server send
-- are Texts, the bytes in order; which writes and dials succeed, who the client is, and what the broker says
-- are given by the surroundings.
pub mod Relay
pub mod Cases
pub mod Brokered
pub mod Readahead
pub mod Takeover
pub mod Callers
use adb_harbor.Prelude.{
  ℕ, zero, suc, ◌+◌, ◌-◌, ◌==◌, ltb, leb, Bool, true, false, not, ◌&&◌, ◌||◌, Option, none, some,
  List, [], ◌∷◌, ◌++◌, if◌then◌else◌, length, take, drop,
}
use adb_harbor.Text.{Text, text, text_eq, is_empty, cut}
use adb_harbor.Config.{Config}
use adb_harbor.Devices.{Device}
use adb_harbor.Devices.Sole.{sole_online_serial}
use adb_harbor.Protocol.{AcquireReq}
use adb_harbor.Wire.{
  read_msg, Read, message, short, bad_length, unreasonable, write_msg, write_fail, scan_signed,
  parse_transport, TransportReq, is_exempt_service,
}

-- What relayTransportStatus does: whether the conversation goes on, the bytes that it writes to the client, and
-- the bytes of the server that are not read.
pub record Relayed : Type 0 where
  pub goes_on : Bool
  pub sent : Text
  pub rest : Text

-- io.CopyN of the length that four digits say; nothing when they say none that is accepted.
unfoldable pub copy_message : Text → Text → Text × Text
copy_message digits bytes = elim (scan_signed digits) [
  | none ↦ ([], bytes)
  | some (negative, n) ↦
      if not negative && ltb 0 n && leb n 1048576 then (take n bytes, drop n bytes) else ([], bytes)
]

-- relayTransportStatus behind a status that is not OKAY.
unfoldable pub relay_failure : Text → Text → Relayed
unfolding copy_message
relay_failure status bytes =
    if ltb (length bytes) 4
    then record { goes_on = false; sent = status; rest = [] }
    else let (copied, rest) = copy_message (take 4 bytes) (drop 4 bytes) in
      record { goes_on = false; sent = status ++ (take 4 bytes ++ copied); rest = rest }

-- relayTransportStatus behind OKAY: a transport ID of 8 bytes when the request asks for it.
unfoldable pub relay_okay : Bool → (status : Text) (bytes : Text) (client_takes : Bool) → Relayed
relay_okay false status bytes client_takes = record { goes_on = true; sent = status; rest = bytes }
relay_okay true status bytes client_takes =
    if ltb (length bytes) 8
    then record { goes_on = false; sent = status; rest = [] }
    else if client_takes
    then record { goes_on = true; sent = status ++ take 8 bytes; rest = drop 8 bytes }
    else record { goes_on = false; sent = status; rest = drop 8 bytes }

-- relayTransportStatus; `takes_status` and `takes_id` say whether the client takes those writes.
unfoldable pub relay_transport_status :
    Bool → (takes_status takes_id : Bool) (bytes : Text) → Relayed
unfolding relay_failure relay_okay
relay_transport_status tport takes_status takes_id bytes =
    if ltb (length bytes) 4
    then record { goes_on = false; sent = []; rest = [] }
    else if not takes_status
    then record { goes_on = false; sent = []; rest = drop 4 bytes }
    else if text_eq (take 4 bytes) (text "OKAY")
    then relay_okay tport (take 4 bytes) (drop 4 bytes) takes_id
    else relay_failure (take 4 bytes) (drop 4 bytes)

-- firstLine
unfoldable pub first_line : Text → Text
unfolding cut
first_line s =
    let line = elim (cut s 10) as (λ o. Text) [ none ↦ s | some (before, after) ↦ before ] in
    if ltb 80 (length line) then take 80 line else line

-- The answer of AcquireLocalBlocking: a lease's ID, or an error's text.
pub data Local : Type 0 where
  granted : (id : Text) → Local
  refused : (error : Text) → Local

pub record Surroundings : Type 0 where
  -- dialUpstream succeeds; the server takes the first and the second message; the client takes the
  -- status and the transport ID.
  pub dials : Bool
  pub takes_request : Bool
  pub takes_service : Bool
  pub takes_status : Bool
  pub takes_id : Bool
  pub server_bytes : Text
  pub devices : List Device
  -- sessionForConn
  pub session : Text
  pub process : Text
  pub observer : Bool
  pub acquire : AcquireReq → Local

-- What the proxy does, in order: it dials the server, writes a request or a service to it, writes bytes to the
-- client, acquires a lease by a request or is refused one, pipes the rest both ways, ends the lease's command.
pub data Action : Type 0 where
  dials_server : Action
  requests : (bytes : Text) → Action
  serves : (service : Text) → Action
  answers : (bytes : Text) → Action
  acquires : (req : AcquireReq) (id : Text) → Action
  pipes : Action
  ends_command : (id : Text) → Action

-- The message to a client whose wait for a lease ended without one.
unfoldable pub busy_message : Text → Text → Text
busy_message serial error =
    text "adbharbor: device "
    ++ serial
    ++ text " is busy ("
    ++ error
    ++ text "); see `adbharbor who -s "
    ++ serial
    ++ text "`"

-- A service that the proxy passes on without a lease.
unfoldable pub pass_on : Surroundings → Text → List Action
pass_on w svc = if w.takes_service then serves svc ∷ pipes ∷ [] else []

-- A service under the lease `id`, granted to a request. The heartbeats that go on meanwhile are not part of the order.
unfoldable pub serve_leased : Surroundings → AcquireReq → (id svc : Text) → List Action
serve_leased w req id svc =
    if w.takes_service
    then acquires req id ∷ serves svc ∷ pipes ∷ ends_command id ∷ []
    else acquires req id ∷ ends_command id ∷ []

unfoldable pub lease_request : Surroundings → Text → AcquireReq
lease_request w serial = record {
  serial = serial;
  session = w.session;
  holder = w.session ++ text " (" ++ w.process ++ text ")";
  pid = 0;
  idle_ttl_sec = 0;
  ttl_sec = 0;
  explicit = false;
  command = true;
}

-- A service for which the broker was asked, by a request.
unfoldable pub after_acquire : Surroundings → AcquireReq → (svc : Text) → Local → List Action
unfolding serve_leased busy_message
after_acquire w req svc (granted id) = serve_leased w req id svc
after_acquire w req svc (refused error) = answers (write_fail (busy_message req.serial error)) ∷ []

-- The second round of proxyConn's loop: `svc` is the service for the device `serial`.
unfoldable pub device_service : Config → Surroundings → Text → Text → List Action
unfolding pass_on lease_request after_acquire
device_service cfg w serial svc =
    let req = lease_request w serial in
    if is_empty serial || is_exempt_service svc cfg.exempt_shell
    then pass_on w svc
    else if w.observer
    then pass_on w svc
    else after_acquire w req svc (w.acquire req)

abbrev pub unavailable : Text
unavailable = text "adbharbor: real adb server unavailable"

-- The serial of a transport, or the only online device's.
unfoldable pub transport_serial : Surroundings → TransportReq → Text
transport_serial w t = if is_empty t.serial then sole_online_serial w.devices else t.serial

-- The second message of the client.
unfoldable pub read_service : Config → Surroundings → (serial : Text) → Read → List Action
unfolding device_service
read_service cfg w serial (message svc rest) = device_service cfg w serial svc
read_service cfg w serial short = []
read_service cfg w serial bad_length = []
read_service cfg w serial unreasonable = []

-- What follows a status that was relayed.
unfoldable pub after_status : Config → Surroundings → TransportReq → Relayed → Text → List Action
unfolding read_service transport_serial
after_status cfg w t r input =
    if r.goes_on then read_service cfg w (transport_serial w t) (read_msg input) else []

-- A request for a transport.
unfoldable pub transport : Config → Surroundings → TransportReq → Text → Text → List Action
unfolding relay_transport_status after_status
transport cfg w t req input =
    if not w.dials
    then answers (write_fail unavailable) ∷ []
    else if not w.takes_request
    then dials_server ∷ []
    else let r = relay_transport_status t.tport w.takes_status w.takes_id w.server_bytes in
      dials_server ∷ requests (write_msg req) ∷ answers r.sent ∷ after_status cfg w t r input

-- Another request to the host.
unfoldable pub relay_request : Surroundings → Text → List Action
relay_request w req =
    if not w.dials
    then answers (write_fail unavailable) ∷ []
    else if w.takes_request
    then dials_server ∷ requests (write_msg req) ∷ pipes ∷ []
    else dials_server ∷ []

unfoldable pub by_kind :
    Config → Surroundings → (req : Text) (input : Text) → Option TransportReq → List Action
unfolding transport relay_request
by_kind cfg w req input (some t) = transport cfg w t req input
by_kind cfg w req input none = relay_request w req

unfoldable pub first_request : Config → Surroundings → Read → List Action
unfolding by_kind parse_transport
first_request cfg w (message req rest) = by_kind cfg w req rest (parse_transport req)
first_request cfg w short = []
first_request cfg w bad_length = []
first_request cfg w unreasonable = []

-- proxyConn, of a client that sends the bytes `input`. Its loop has two rounds at most: behind a transport
-- every branch returns.
unfoldable pub proxy_conn : Config → Surroundings → Text → List Action
unfolding first_request read_msg
proxy_conn cfg w input = first_request cfg w (read_msg input)
