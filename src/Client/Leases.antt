-- ===== src/Client/Leases.antt =====
-- What AcquireBlocking, internal/harbor/client.go, gets from the broker of internal/harbor/broker.go.
use adb_harbor.Prelude.{
  ℕ, ◌≡◌, refl, subst, inl, inr, Bool, true, false, ◌||◌, Option, none, some, List, [], ◌∷◌,
  if◌then◌else◌, All, Bool-cases,
}
use adb_harbor.Text.{is_empty}
use adb_harbor.Protocol.{AcquireReq, AcquireResp}
use adb_harbor.Broker.{Broker}
use adb_harbor.Broker.Grant.{Acquired, leased, queued, acquire_locked}
use adb_harbor.Broker.Handlers.{handle_acquire, acquire_resp, idle_of}
use adb_harbor.Broker.Run.{Reachable, moves, acquires}
use adb_harbor.Broker.Local.Ends.{ClaimedIf, acquired-ClaimedIf}
use adb_harbor.Shim.{
  Acquisition, Poll, Polled, returns, breaks, polling, poll_loop, Round, acquire_blocking,
}
use adb_harbor.Client.{Turn, poll_broker, Try, then_rounds, by_answer, ask_broker}
use adb_harbor.Client.Waits.{
  IsTurn, IsTry, HasIf, AcquisitionSpec, PolledSpec, PolledWell, poll_broker-PolledWell,
}

-- How AcquireBlocking ends against the broker.
abbrev AnswerSpec : Option Acquisition → Broker → Type 0
AnswerSpec none b = Unit
AnswerSpec (some a) b = AcquisitionSpec a b

pub record AsksWell (rounds : List Round) (b : Broker) : Type 0 where
  pub reached : Reachable b
  pub spec : AnswerSpec (acquire_blocking rounds) b

-- A round without a lease at once, by how its polls end.
then_rounds-AsksWell :
    (ar : AcquireResp) (polls : List Poll) (b : Broker) (rounds : List Round) (c : Broker)
    → ar.granted ≡ false
    → PolledWell polls b
    → (Reachable b → AsksWell rounds c)
    → AsksWell (then_rounds ar (polls, b) (rounds, c)).0 (then_rounds ar (polls, b) (rounds, c)).1
unfolding acquire_blocking
then_rounds-AsksWell ar polls b rounds c g p next = by_end (poll_loop polls) refl
  where
    by_end :
        (end : Polled)
        → poll_loop polls ≡ end
        → AsksWell
            (then_rounds ar (polls, b) (rounds, c)).0
            (then_rounds ar (polls, b) (rounds, c)).1
    by_end (returns a) e = record {
      reached = rw e p.reached;
      spec = rw (e, g, acquire_blocking, e) (subst (λ t. PolledSpec t b) e p.spec);
    }
    by_end breaks e = record {
      reached = rw e (next p.reached).reached;
      spec = rw (e, g, acquire_blocking, e) (next p.reached).spec;
    }
    by_end polling e = record { reached = rw e p.reached; spec = rw (e, g, acquire_blocking, e) tt }

abbrev AnsweredSpec : Option AcquireResp → Broker → Type 0
AnsweredSpec none b = Unit
AnsweredSpec (some ar) b = HasIf ar.granted ar.lease_id b

acquire_resp-AnsweredSpec :
    (b : Broker) (req : AcquireReq) (now : ℕ) (a : Acquired)
    → ClaimedIf a b
    → AnsweredSpec (some (acquire_resp b req now a)) b
unfolding ClaimedIf
acquire_resp-AnsweredSpec b req now (leased p) k = (p, refl, k)
acquire_resp-AnsweredSpec b req now (queued w) k = tt

handle_acquire-AnsweredSpec :
    (b : Broker) (req : AcquireReq) (now : ℕ)
    → AnsweredSpec (handle_acquire b (some req) now).0 (handle_acquire b (some req) now).1
unfolding handle_acquire
handle_acquire-AnsweredSpec b req now =
    elim (Bool-cases (is_empty req.serial || is_empty req.session)) [
      | inl e ↦ rw (e, handle_acquire) tt
      | inr e ↦
          rw (e, handle_acquire)
            (acquire_resp-AnsweredSpec (acquire_locked b req now (idle_of b req)).1 req now
              (acquire_locked b req now (idle_of b req)).0
              (acquired-ClaimedIf b req now (idle_of b req)))
    ]

ungranted :
    (granted : Bool) (at_once later : List Round × Broker)
    → granted ≡ false
    → AsksWell later.0 later.1
    → AsksWell (if granted then at_once else later).0 (if granted then at_once else later).1
ungranted false at_once later g h = h
ungranted true at_once later g h = absurd (cc)

by_answer-AsksWell :
    (answer : Option AcquireResp) (b : Broker) (turns : List Turn)
    (next : Broker → List Round × Broker)
    → Reachable b
    → AnsweredSpec answer b
    → All IsTurn turns
    → ((c : Broker) → Reachable c → AsksWell (next c).0 (next c).1)
    → AsksWell (by_answer answer b turns next).0 (by_answer answer b turns next).1
unfolding acquire_blocking
by_answer-AsksWell none b turns next r s o more = record { reached = r; spec = tt }
by_answer-AsksWell (some ar) b turns next r s o more = elim (Bool-cases ar.granted) [
  | inl g ↦ record {
    reached = rw g r;
    spec = rw (g, acquire_blocking) (subst (λ t. HasIf t ar.lease_id b) g s);
  }
  | inr g ↦
      let polled = poll_broker-PolledWell turns b ar.waiter_id r o in
      let after : List Poll × Broker = poll_broker b ar.waiter_id turns in
      let ended =
        then_rounds-AsksWell ar after.0 after.1 (next after.1).0 (next after.1).1 g polled
          (more after.1) in
      ungranted ar.granted (record { answer = some ar; polls = [] } ∷ [], b)
        (then_rounds ar after (next after.1)) g ended
]

ask_broker-AsksWell :
    (tries : List Try) (b : Broker) (req : AcquireReq)
    → Reachable b
    → All IsTry tries
    → AsksWell (ask_broker b req tries).0 (ask_broker b req tries).1
unfolding ask_broker acquire_blocking
ask_broker-AsksWell [] b req r o = record { reached = r; spec = tt }
ask_broker-AsksWell (t ∷ tries) b req r o =
    let before : Broker = t.before b in
    by_answer-AsksWell (handle_acquire before (some req) t.now).0
      (handle_acquire before (some req) t.now).1 t.turns (λ c. ask_broker c req tries)
      (moves (o.0.0 b r) (acquires (some req) t.now)) (handle_acquire-AnsweredSpec before req t.now)
      o.0.1 (λ c k. ask_broker-AsksWell tries c req k o.1)

-- AcquireBlocking against the daemon's handlers, among any other steps of the daemon: the daemon stays in a state that
-- it can come to, and a lease ID that AcquireBlocking returns is that of a lease that the broker has made and marked as
-- claimed; the broker may have ended that lease since.
pub acquire_blocking-AsksWell :
    {b : Broker}
    → Reachable b
    → (req : AcquireReq) (tries : List Try) → All IsTry tries
    → AsksWell (ask_broker b req tries).0 (ask_broker b req tries).1
acquire_blocking-AsksWell {b} r req tries o = ask_broker-AsksWell tries b req r o
