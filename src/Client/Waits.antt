-- ===== src/Client/Waits.antt =====
-- A call of /v1/wait and the inner loop of AcquireBlocking, internal/harbor/client.go, against the broker.
use adb_harbor.Prelude.{
  ℕ, ◌≡◌, refl, subst, inl, inr, Bool, true, false, List, [], ◌∷◌, All, arith, Bool-cases,
  Option-cases, ==_refl,
}
use adb_harbor.Text.{Text}
use adb_harbor.Map.{get}
use adb_harbor.Protocol.{WaitResp}
use adb_harbor.Broker.{Broker}
use adb_harbor.Broker.Waiting.{
  WaitStart, answered, blocked, wait_start, wait_woken, wait_timed_out, pick_up, pick_up_resp,
  claim, unregister, poll,
}
use adb_harbor.Broker.Run.{Reachable, moves, waits, wakes, times_out}
use adb_harbor.Shim.{
  Acquisition, acquired, wait_timeout, lease_error, Poll, Polled, returns, breaks, polling,
  poll_loop,
}
use adb_harbor.Client.{
  WaitCall, select_branch, after_start, serve_wait, Turn, late, fails, calls, then_polls,
  poll_broker, Try,
}

-- What others do leads from a state that the daemon comes to into one.
abbrev pub IsOther : (Broker → Broker) → Type 0
IsOther f = (b : Broker) → Reachable b → Reachable (f b)

abbrev pub IsTurn : Turn → Type 0
IsTurn late = Unit
IsTurn fails = Unit
IsTurn (calls c) = IsOther c.before × IsOther c.meanwhile

abbrev pub IsTry : Try → Type 0
IsTry t = IsOther t.before × All IsTurn t.turns

-- A lease that the broker has made, with this ID, marked as claimed.
abbrev pub HasLease : Text → Broker → Type 0
HasLease id b = (p : ℕ) × ((b.lease_heap p).id ≡ id) × ((b.lease_heap p).claimed ≡ true)

abbrev pub HasIf : Bool → Text → Broker → Type 0
HasIf true id b = HasLease id b
HasIf false id b = Unit

abbrev pub RespSpec : WaitResp → Broker → Type 0
RespSpec resp b = HasIf resp.granted resp.lease_id b

-- Where a lease is picked up.
pub picked-RespSpec :
    (b : Broker) (w : ℕ) → RespSpec (pick_up_resp (pick_up b w).1 (pick_up b w).0) (pick_up b w).1
unfolding pick_up claim unregister
picked-RespSpec b w = elim (Option-cases (b.waiter_heap w).lease) [
  | inl e ↦ rw (e, pick_up) tt
  | inr (p, e) ↦ rw (e, pick_up) (p, refl, ground (arith, ==_refl p))
]

abbrev pub StartSpec : WaitStart → Broker → Type 0
StartSpec (answered resp) b = RespSpec resp b
StartSpec (blocked w) b = Unit

pub started-StartSpec :
    (b : Broker) (id : Text) (now : ℕ) → StartSpec (wait_start b id now).0 (wait_start b id now).1
unfolding wait_start
started-StartSpec b id now = elim (Option-cases (get b.waiters id)) [
  | inl e ↦ rw (e, wait_start) tt
  | inr (w, e) ↦ elim (Option-cases ((poll b w now).waiter_heap w).lease) [
    | inl k ↦ rw (e, k, wait_start) tt
    | inr (p, k) ↦ rw (e, k, wait_start) (picked-RespSpec (poll b w now) w)
  ]
]

-- A state that the daemon comes to, and what an answer promises there.
pub record Served (resp : WaitResp) (b : Broker) : Type 0 where
  pub reached : Reachable b
  pub lease : RespSpec resp b

pub selected-Served :
    (b : Broker) (w later : ℕ)
    → Reachable b
    → Served (select_branch b w later).0 (select_branch b w later).1
unfolding select_branch wait_woken wait_timed_out
selected-Served b w later r = elim (Bool-cases (b.waiter_heap w).closed) [
  | inl c ↦
      rw (c, select_branch) (record { reached = moves r (wakes w c); lease = picked-RespSpec b w })
  | inr c ↦ rw (c, select_branch) (record { reached = moves r (times_out w later); lease = tt })
]

pub after_start-Served :
    (s : WaitStart) (b : Broker) (c : WaitCall)
    → Reachable b
    → StartSpec s b
    → IsOther c.meanwhile
    → Served (after_start s b c).0 (after_start s b c).1
after_start-Served (answered resp) b c r s o = record { reached = r; lease = s }
after_start-Served (blocked w) b c r s o = selected-Served (c.meanwhile b) w c.later (o b r)

pub serve_wait-Served :
    (b : Broker) (id : Text) (c : WaitCall)
    → Reachable b
    → IsTurn (calls c)
    → Served (serve_wait b id c).0 (serve_wait b id c).1
unfolding serve_wait
serve_wait-Served b id c r o =
    let before : Broker = c.before b in
    after_start-Served (wait_start before id c.now).0 (wait_start before id c.now).1 c
      (moves (o.0 b r) (waits id c.now)) (started-StartSpec before id c.now) o.1

-- What a result of AcquireBlocking promises.
abbrev pub AcquisitionSpec : Acquisition → Broker → Type 0
AcquisitionSpec (acquired id) b = HasLease id b
AcquisitionSpec wait_timeout b = Unit
AcquisitionSpec lease_error b = Unit

abbrev pub PolledSpec : Polled → Broker → Type 0
PolledSpec (returns a) b = AcquisitionSpec a b
PolledSpec breaks b = Unit
PolledSpec polling b = Unit

pub record PolledWell (polls : List Poll) (b : Broker) : Type 0 where
  pub reached : Reachable b
  pub spec : PolledSpec (poll_loop polls) b

pub then_polls-PolledWell :
    (resp : WaitResp) (b : Broker) (polls : List Poll) (c : Broker)
    → Served resp b
    → PolledWell polls c
    → PolledWell (then_polls (resp, b) (polls, c)).0 (then_polls (resp, b) (polls, c)).1
unfolding poll_loop
then_polls-PolledWell resp b polls c s k = elim (Bool-cases resp.granted) [
  | inl g ↦ record {
    reached = rw g s.reached;
    spec = rw g (subst (λ t. HasIf t resp.lease_id b) g s.lease);
  }
  | inr g ↦ elim (Bool-cases resp.expired) [
    | inl e ↦ record { reached = rw (g, e) s.reached; spec = rw (g, e) tt }
    | inr e ↦ record { reached = rw (g, e) k.reached; spec = rw (g, e) k.spec }
  ]
]

pub poll_broker-PolledWell :
    (turns : List Turn) (b : Broker) (id : Text)
    → Reachable b
    → All IsTurn turns
    → PolledWell (poll_broker b id turns).0 (poll_broker b id turns).1
unfolding poll_broker poll_loop
poll_broker-PolledWell [] b id r o = record { reached = r; spec = tt }
poll_broker-PolledWell (late ∷ turns) b id r o = record { reached = r; spec = tt }
poll_broker-PolledWell (fails ∷ turns) b id r o = record { reached = r; spec = tt }
poll_broker-PolledWell (calls c ∷ turns) b id r o =
    let s = serve_wait-Served b id c r o.0 in
    let next : Broker = (serve_wait b id c).1 in
    then_polls-PolledWell (serve_wait b id c).0 next (poll_broker next id turns).0
      (poll_broker next id turns).1 s (poll_broker-PolledWell turns next id s.reached o.1)
