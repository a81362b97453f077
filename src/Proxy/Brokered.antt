-- ===== src/Proxy/Brokered.antt =====
-- What proxyConn of internal/harbor/proxy.go guarantees of every connection: leases and services.
use adb_harbor.Prelude.{
  ◌≡◌, refl, Bool, true, false, ◌&&◌, ◌||◌, Option, none, some, List, [], ◌∷◌, if◌then◌else◌,
}
use adb_harbor.Text.{Text, text_eq, is_empty}
use adb_harbor.Text.Laws.{text_eq_refl}
use adb_harbor.Config.{Config}
use adb_harbor.Devices.Sole.{sole_online_serial}
use adb_harbor.Wire.{Read, message, read_msg, TransportReq, parse_transport}
use adb_harbor.Proxy.{
  Surroundings, Action, dials_server, requests, serves, answers, acquires, pipes, ends_command,
  Local, granted, refused, lease_request, transport_serial, proxy_conn,
}
use adb_harbor.Proxy.Cases.{
  device_service-cases, proxy_conn-keeps, pass_on-cases, serve_leased-cases,
}

-- A lease is acquired while none is held, and its command is ended, once, before the connection ends; `held`
-- is the lease that is held.
unfoldable pub balanced : (held : Option Text) → List Action → Bool
balanced none [] = true
balanced (some id) [] = false
balanced none (acquires req id ∷ rest) = balanced (some id) rest
balanced (some j) (acquires req id ∷ rest) = false
balanced none (ends_command id ∷ rest) = false
balanced (some j) (ends_command id ∷ rest) = text_eq j id && balanced none rest
balanced h (dials_server ∷ rest) = balanced h rest
balanced h (requests bytes ∷ rest) = balanced h rest
balanced h (serves svc ∷ rest) = balanced h rest
balanced h (answers bytes ∷ rest) = balanced h rest
balanced h (pipes ∷ rest) = balanced h rest

-- The device that a client's first message asks for, when that is a request for a transport: the one that it names, or
-- the only one that is online; empty when there is none.
abbrev device_of : Surroundings → Option TransportReq → Text
device_of w none = []
device_of w (some t) = if is_empty t.serial then sole_online_serial w.devices else t.serial

abbrev device_in : Surroundings → Read → Text
device_in w (message req rest) = device_of w (parse_transport req)
device_in w other = []

abbrev pub asked_device : Surroundings → Text → Text
asked_device w input = device_in w (read_msg input)

-- Whether the broker's answer is this lease.
abbrev pub grants : Local → Text → Bool
grants (granted j) id = text_eq j id
grants (refused error) id = false

-- A service goes to the server only while a lease is held that the broker granted to the connection's session for the
-- device, or if it is exempt.
unfoldable pub guarded :
    Surroundings → (device : Text) (exempt : Text → Bool) (held : Bool) → List Action → Bool
guarded w device exempt held [] = true
guarded w device exempt held (acquires req id ∷ rest) =
    guarded w device exempt
      (text_eq req.serial device && text_eq req.session w.session && grants (w.acquire req) id) rest
guarded w device exempt held (ends_command id ∷ rest) = guarded w device exempt false rest
guarded w device exempt held (serves svc ∷ rest) =
    (held || exempt svc) && guarded w device exempt held rest
guarded w device exempt held (dials_server ∷ rest) = guarded w device exempt held rest
guarded w device exempt held (requests bytes ∷ rest) = guarded w device exempt held rest
guarded w device exempt held (answers bytes ∷ rest) = guarded w device exempt held rest
guarded w device exempt held (pipes ∷ rest) = guarded w device exempt held rest

abbrev IsBalanced : List Action → Type 0
IsBalanced actions = balanced none actions ≡ true

-- On every connection, whatever the client and the server send and whatever fails, the proxy acquires a lease
-- only while it holds none, and ends the command of each lease that it acquires, exactly once, before the
-- connection is over.
pub proxy_conn-balanced :
    (cfg : Config) (w : Surroundings) (input : Text) → balanced none (proxy_conn cfg w input) ≡ true
unfolding balanced
proxy_conn-balanced cfg w input =
    proxy_conn-keeps IsBalanced refl (λ rest q. q) (λ b rest q. q) (λ b rest q. q) (λ rest q. q) cfg
      w input
      (λ t k svc.
        device_service-cases IsBalanced w cfg (transport_serial w t) svc
          (λ e. pass_on-cases IsBalanced w svc refl refl)
          (λ e. pass_on-cases IsBalanced w svc refl refl)
          (λ id a.
            serve_leased-cases IsBalanced w svc (lease_request w (transport_serial w t)) id
              (rw (text_eq_refl id) refl) (rw (text_eq_refl id) refl))
          (λ bytes. refl))
