-- ===== src/Proxy/Cases.antt =====
-- The branches of proxyConn, internal/harbor/proxy.go, for any property of what it does.
use adb_harbor.Prelude.{
  ◌≡◌, refl, Bool, true, false, not, ◌||◌, Option, none, some, List, [], ◌∷◌, if◌then◌else◌,
}
use adb_harbor.Text.{Text, is_empty}
use adb_harbor.Config.{Config}
use adb_harbor.Protocol.{AcquireReq}
use adb_harbor.Wire.{
  Read, message, short, bad_length, unreasonable, read_msg, TransportReq, parse_transport,
  is_exempt_service, write_msg, write_fail,
}
use adb_harbor.Proxy.{
  Local, granted, refused, Surroundings, Action, dials_server, requests, serves, answers, acquires,
  pipes, ends_command, Relayed, pass_on, serve_leased, lease_request, after_acquire, device_service,
  read_service, by_kind, transport_serial, after_status, transport, relay_request,
  relay_transport_status, unavailable, first_request, proxy_conn,
}

-- A property of all the traces that a connection may have, from the parts they are made of.
module _ (P : List Action → Type 0) (w : Surroundings) (cfg : Config) where
  pub device_service-cases :
      (serial svc : Text)
      → (is_empty serial || is_exempt_service svc cfg.exempt_shell ≡ true → P (pass_on w svc))
      → (w.observer ≡ true → P (pass_on w svc))
      → ((id : Text)
          → w.acquire (lease_request w serial) ≡ granted id
          → P (serve_leased w (lease_request w serial) id svc))
      → ((bytes : Text) → P (answers bytes ∷ []))
      → P (device_service cfg w serial svc)
  unfolding device_service
  device_service-cases serial svc free watching leased refusal =
      by_tests (is_empty serial || is_exempt_service svc cfg.exempt_shell) w.observer
        (w.acquire (lease_request w serial)) free watching refl
    where
      by_tests :
          (skip observes : Bool) (l : Local)
          → (skip ≡ true → P (pass_on w svc))
          → (observes ≡ true → P (pass_on w svc))
          → w.acquire (lease_request w serial) ≡ l
          → P (
              if skip
              then pass_on w svc
              else if observes
              then pass_on w svc
              else after_acquire w (lease_request w serial) svc l)
      by_tests true o l f g a = f refl
      by_tests false true l f g a = g refl
      by_tests false false (granted id) f g a = leased id a
      by_tests false false (refused error) f g a = refusal _

-- The bytes that a client sends begin with a request for this transport.
pub data Asks (sent : Text) (t : TransportReq) : Type 0 where
  asks :
      (req rest : Text)
      → read_msg sent ≡ message req rest
      → parse_transport req ≡ some t
      → Asks sent t

-- What every connection keeps: a property of action lists that the actions before a service do not spoil.
module _ (Q : List Action → Type 0) (nil : Q [])
    (dialled : (rest : List Action) → Q rest → Q (dials_server ∷ rest))
    (requested : (bytes : Text) (rest : List Action) → Q rest → Q (requests bytes ∷ rest))
    (answered : (bytes : Text) (rest : List Action) → Q rest → Q (answers bytes ∷ rest))
    (piped : (rest : List Action) → Q rest → Q (pipes ∷ rest)) (cfg : Config) (w : Surroundings)
    (sent : Text)
    (served : (t : TransportReq)
      → Asks sent t
      → (svc : Text) → Q (device_service cfg w (transport_serial w t) svc)) where
  pub read_service-keeps :
      (t : TransportReq)
      → Asks sent t
      → (r : Read) → Q (read_service cfg w (transport_serial w t) r)
  unfolding read_service
  read_service-keeps t k (message svc rest) = served t k svc
  read_service-keeps t k short = nil
  read_service-keeps t k bad_length = nil
  read_service-keeps t k unreasonable = nil

  pub after_status-keeps :
      (t : TransportReq)
      → Asks sent t
      → (r : Relayed) (input : Text) → Q (after_status cfg w t r input)
  unfolding after_status
  after_status-keeps t k r input = by_test r.goes_on
    where
      by_test :
          (on : Bool)
          → Q (if on then read_service cfg w (transport_serial w t) (read_msg input) else [])
      by_test true = read_service-keeps t k (read_msg input)
      by_test false = nil

  pub transport-keeps :
      (t : TransportReq) → Asks sent t → (req input : Text) → Q (transport cfg w t req input)
  unfolding transport
  transport-keeps t k req input =
      by_tests w.dials w.takes_request (write_fail unavailable) (write_msg req) relayed.sent
        (after_status-keeps t k relayed input)
    where
      relayed : Relayed
      relayed = relay_transport_status t.tport w.takes_status w.takes_id w.server_bytes

      by_tests :
          (dials takes : Bool) (fail bytes passed : Text) {rest : List Action}
          → Q rest
          → Q (
              if not dials
              then answers fail ∷ []
              else if not takes
              then dials_server ∷ []
              else dials_server ∷ requests bytes ∷ answers passed ∷ rest)
      by_tests false takes f s r q = answered f [] nil
      by_tests true false f s r q = dialled [] nil
      by_tests true true f s r q = dialled _ (requested s _ (answered r _ q))

  pub relay_request-keeps : (req : Text) → Q (relay_request w req)
  unfolding relay_request
  relay_request-keeps req =
      by_tests w.dials w.takes_request (write_fail unavailable) (write_msg req)
    where
      by_tests :
          (dials takes : Bool) (fail bytes : Text)
          → Q (
              if not dials
              then answers fail ∷ []
              else if takes
              then dials_server ∷ requests bytes ∷ pipes ∷ []
              else dials_server ∷ [])
      by_tests false k f s = answered f [] nil
      by_tests true true f s = dialled _ (requested s _ (piped [] nil))
      by_tests true false f s = dialled [] nil

  pub by_kind-keeps :
      (req input : Text) (o : Option TransportReq)
      → ((t : TransportReq) → o ≡ some t → Asks sent t)
      → Q (by_kind cfg w req input o)
  unfolding by_kind
  by_kind-keeps req input (some t) k = transport-keeps t (k t refl) req input
  by_kind-keeps req input none k = relay_request-keeps req

  pub first_request-keeps : (r : Read) → read_msg sent ≡ r → Q (first_request cfg w r)
  unfolding first_request
  first_request-keeps (message req rest) e =
      by_kind-keeps req rest (parse_transport req) (λ t f. asks req rest e f)
  first_request-keeps short e = nil
  first_request-keeps bad_length e = nil
  first_request-keeps unreasonable e = nil

  pub proxy_conn-keeps : Q (proxy_conn cfg w sent)
  unfolding proxy_conn
  proxy_conn-keeps = first_request-keeps (read_msg sent) refl

-- The two ways to serve, by whether the server takes the service.
module _ (Q : List Action → Type 0) (w : Surroundings) (svc : Text) where
  pub pass_on-cases : Q (serves svc ∷ pipes ∷ []) → Q [] → Q (pass_on w svc)
  unfolding pass_on
  pass_on-cases taken lost = by_test w.takes_service
    where
      by_test : (takes : Bool) → Q (if takes then serves svc ∷ pipes ∷ [] else [])
      by_test true = taken
      by_test false = lost

  pub serve_leased-cases :
      (req : AcquireReq) (id : Text)
      → Q (acquires req id ∷ serves svc ∷ pipes ∷ ends_command id ∷ [])
      → Q (acquires req id ∷ ends_command id ∷ [])
      → Q (serve_leased w req id svc)
  unfolding serve_leased
  serve_leased-cases req id taken lost = by_test w.takes_service
    where
      by_test :
          (takes : Bool)
          → Q (
              if takes
              then acquires req id ∷ serves svc ∷ pipes ∷ ends_command id ∷ []
              else acquires req id ∷ ends_command id ∷ [])
      by_test true = taken
      by_test false = lost
