-- ===== src/Broker/Local/Ends.antt =====
-- How AcquireLocalBlocking, internal/harbor/broker.go, ends.
use adb_harbor.Prelude.{
  ℕ, Option, none, some, ◌≡◌, refl, ap, ◌∙◌, inl, inr, true, List, [], ◌∷◌, All, arith, Bool-cases,
  Option-cases, ==_refl,
}
use adb_harbor.Text.{text_eq}
use adb_harbor.Map.{get}
use adb_harbor.Protocol.{AcquireReq}
use adb_harbor.Broker.{Broker, cleaning_at}
use adb_harbor.Broker.Grant.{
  Acquired, leased, queued, acquire_locked, grant, renew, renewed, fresh_lease,
}
use adb_harbor.Broker.Waiting.{poll, pick_up, drop_waiter, claim, unregister}
use adb_harbor.Broker.Run.{Reachable, moves, acquires_locally, ticks, wakes_locally, gives_up}
use adb_harbor.Broker.Valid.{Core, core}
use adb_harbor.Broker.Handlers.{idle_of}
use adb_harbor.Broker.Exclusion.{core-grant, AcquireSpec, granted, acquire_locked-AcquireSpec}
use adb_harbor.Broker.GivingUp.{IsGone, drop_waiter-IsGone}
use adb_harbor.Broker.Local.{
  Happening, others, woken, tick, deadline, client_gone, LocalResult, got, dropped, timed_out,
  aborted, still_waiting, wake, wait_local, LocalRound, after_acquire, local_round, or_again,
  local_loop, acquire_local_blocking,
}

-- What the others do leads from a state that the daemon comes to into one.
abbrev pub IsOthers : Happening → Type 0
IsOthers (others f) = (b : Broker) → Reachable b → Reachable (f b)
IsOthers woken = Unit
IsOthers (tick now) = Unit
IsOthers (deadline now) = Unit
IsOthers (client_gone now) = Unit

abbrev pub IsRound : LocalRound → Type 0
IsRound r = All IsOthers r.script

-- The waiter `w` gave up: nothing is left of it.
pub data LeavesNothing (w : ℕ) : Broker → Type 0 where
  gone :
      (b : Broker) (now : ℕ)
      → IsGone w (b.waiter_heap w).serial (b.waiter_heap w).lease (core (drop_waiter b w now))
      → LeavesNothing w (drop_waiter b w now)

-- The end of a wait, by the waiter that the last round queued, if any. Without one: a lease of the request's session,
-- which holds the device. With one: the lease that this waiter was handed; an error, after which nothing is left of
-- this waiter; or that it was dropped without a lease. Or none yet. The leases are marked as picked up.
pub data LocalSpec (req : AcquireReq) : Option ℕ → LocalResult → Broker → Type 0 where
  at_once :
      {b : Broker} (p : ℕ)
      → get b.leases req.serial ≡ some p
      → (b.lease_heap p).session ≡ req.session
      → (b.lease_heap p).claimed ≡ true
      → LocalSpec req none (got p) b
  handed :
      {b : Broker} (w p : ℕ)
      → (b.waiter_heap w).lease ≡ some p
      → (b.lease_heap p).claimed ≡ true
      → LocalSpec req (some w) (got p) b
  expires : {b : Broker} {w : ℕ} → LeavesNothing w b → LocalSpec req (some w) timed_out b
  aborts : {b : Broker} {w : ℕ} → LeavesNothing w b → LocalSpec req (some w) aborted b
  loses : {b : Broker} (w : ℕ) → (b.waiter_heap w).lease ≡ none → LocalSpec req (some w) dropped b
  waits : {b : Broker} {o : Option ℕ} → LocalSpec req o still_waiting b

-- An end in a state that the daemon comes to.
pub record EndsWell (req : AcquireReq) (o : Option ℕ) (result : LocalResult) (b : Broker)
    : Type 0 where
  pub reached : Reachable b
  pub spec : LocalSpec req o result b

abbrev pub queued_by : Acquired → Option ℕ
queued_by (leased p) = none
queued_by (queued w) = some w

-- The waiter of the round, or of the rounds behind it where the round's waiter was dropped.
abbrev pub or_later : LocalResult → (this later : Option ℕ) → Option ℕ
or_later dropped this later = later
or_later other this later = this

-- The waiter that the last of the rounds queues, if it queues one.
unfoldable pub last_queued : Broker → AcquireReq → ℕ → List LocalRound → Option ℕ
last_queued b req idle [] = none
last_queued b req idle (x ∷ xs) =
    let (result, c) = local_round b req idle x in
    or_later result (queued_by (acquire_locked b req x.now idle).0) (last_queued c req idle xs)

given_up : {b : Broker} → Reachable b → (w now : ℕ) → LeavesNothing w (drop_waiter b w now)
given_up {b} r w now = gone b now (drop_waiter-IsGone r w now)

module _ (req : AcquireReq) where
  wake-LocalSpec : (b : Broker) (w : ℕ) → LocalSpec req (some w) (wake b w).0 (wake b w).1
  unfolding wake pick_up claim unregister
  wake-LocalSpec b w = elim (Option-cases (b.waiter_heap w).lease) [
    | inl e ↦ rw (e, wake) (loses w e)
    | inr (p, e) ↦ rw (e, wake) (handed w p e (ground (arith, ==_refl p)))
  ]

  wake-reached :
      {b : Broker}
      → Reachable b
      → (w : ℕ) → (b.waiter_heap w).closed ≡ true
      → Reachable (wake b w).1
  unfolding wake
  wake-reached {b} r w c = moves r (wakes_locally w c)

  wait_local-EndsWell :
      (hs : List Happening) (b : Broker) (w : ℕ)
      → Reachable b
      → All IsOthers hs
      → EndsWell req (some w) (wait_local b w hs).0 (wait_local b w hs).1
  unfolding wait_local
  wait_local-EndsWell [] b w r o = record { reached = r; spec = waits }
  wait_local-EndsWell (others f ∷ hs) b w r o = wait_local-EndsWell hs (f b) w (o.0 b r) o.1
  wait_local-EndsWell (woken ∷ hs) b w r o = elim (Bool-cases (b.waiter_heap w).closed) [
    | inl c ↦
        rw (c, wait_local) (record { reached = wake-reached r w c; spec = wake-LocalSpec b w })
    | inr c ↦ rw (c, wait_local) (wait_local-EndsWell hs b w r o.1)
  ]
  wait_local-EndsWell (tick now ∷ hs) b w r o =
      wait_local-EndsWell hs (poll b w now) w (moves r (ticks w now)) o.1
  wait_local-EndsWell (deadline now ∷ hs) b w r o = record {
    reached = moves r (gives_up w now);
    spec = expires (given_up r w now);
  }
  wait_local-EndsWell (client_gone now ∷ hs) b w r o = record {
    reached = moves r (gives_up w now);
    spec = aborts (given_up r w now);
  }

-- The lease of a direct grant is claimed at once.
unfoldable pub ClaimedIf : Acquired → Broker → Type 0
ClaimedIf (leased p) c = (c.lease_heap p).claimed ≡ true
ClaimedIf (queued w) c = Unit

module _ (b : Broker) (req : AcquireReq) (now idle : ℕ) where
  granted-claimed : ((grant b req now idle).lease_heap b.next_lease).claimed ≡ true
  granted-claimed =
      ap (λ (c : Core). (c.lease_heap b.next_lease).claimed) (core-grant b req now idle)
      ∙ rw (==_refl b.next_lease) (unfold fresh_lease in refl)

  renewed-claimed : (p : ℕ) → ((renew b req now idle p).lease_heap p).claimed ≡ true
  unfolding renew renewed
  renewed-claimed p = rw (==_refl p) refl

  pub acquired-ClaimedIf :
      ClaimedIf (acquire_locked b req now idle).0 (acquire_locked b req now idle).1
  unfolding acquire_locked ClaimedIf
  acquired-ClaimedIf = elim (Bool-cases (cleaning_at b req.serial)) [
    | inl c ↦ rw (c, acquire_locked) tt
    | inr c ↦ elim (Option-cases (get b.leases req.serial)) [
      | inl e ↦ rw (c, e, acquire_locked) granted-claimed
      | inr (p, e) ↦ elim (Bool-cases (text_eq (b.lease_heap p).session req.session)) [
        | inl k ↦ rw (c, e, k, acquire_locked) (renewed-claimed p)
        | inr k ↦ rw (c, e, k, acquire_locked) tt
      ]
    ]
  ]

module _ (req : AcquireReq) where
  after_acquire-EndsWell :
      {b : Broker} {before : Core}
      → Reachable b
      → (a : Acquired) (hs : List Happening) → ClaimedIf a b
      → AcquireSpec req before (core b) a
      → All IsOthers hs
      → EndsWell req (queued_by a) (after_acquire a b hs).0 (after_acquire a b hs).1
  unfolding ClaimedIf
  after_acquire-EndsWell r (leased p) hs k (granted q l) o = record {
    reached = r;
    spec = at_once p l.held l.session k;
  }
  after_acquire-EndsWell {b} r (queued w) hs k s o = wait_local-EndsWell req hs b w r o

  local_round-EndsWell :
      {b : Broker}
      → Reachable b
      → (idle : ℕ) (x : LocalRound) → IsRound x
      → EndsWell req
          (queued_by (acquire_locked b req x.now idle).0)
          (local_round b req idle x).0
          (local_round b req idle x).1
  unfolding local_round
  local_round-EndsWell {b} r idle x o =
      after_acquire-EndsWell (moves r (acquires_locally req x.now idle))
        (acquire_locked b req x.now idle).0 x.script (acquired-ClaimedIf b req x.now idle)
        (acquire_locked-AcquireSpec b req x.now idle) o

  or_again-EndsWell :
      (result : LocalResult) (b : Broker) (this later : Option ℕ) (rest : LocalResult × Broker)
      → EndsWell req this result b
      → (Reachable b → EndsWell req later rest.0 rest.1)
      → EndsWell req
          (or_later result this later)
          (or_again result b rest).0
          (or_again result b rest).1
  or_again-EndsWell (got p) b this later rest e more = e
  or_again-EndsWell timed_out b this later rest e more = e
  or_again-EndsWell aborted b this later rest e more = e
  or_again-EndsWell still_waiting b this later rest e more = e
  or_again-EndsWell dropped b this later rest e more = more e.reached

  local_loop-EndsWell :
      (xs : List LocalRound) (b : Broker) (idle : ℕ)
      → Reachable b
      → All IsRound xs
      → EndsWell req
          (last_queued b req idle xs)
          (local_loop b req idle xs).0
          (local_loop b req idle xs).1
  unfolding local_loop last_queued
  local_loop-EndsWell [] b idle r o = record { reached = r; spec = waits }
  local_loop-EndsWell (x ∷ xs) b idle r o =
      let next : Broker = (local_round b req idle x).1 in
      or_again-EndsWell (local_round b req idle x).0 next
        (queued_by (acquire_locked b req x.now idle).0) (last_queued next req idle xs)
        (local_loop next req idle xs) (local_round-EndsWell r idle x o.0)
        (λ k. local_loop-EndsWell xs next idle k o.1)

-- AcquireLocalBlocking, among any other steps of the daemon, leads to a state that the daemon comes to, and ends in one
-- of these ways. Its last acquireLocked queued nobody: it returns a lease, under which the request's session holds the
-- device. It queued a waiter: it returns the lease that this very waiter was handed, which others may have ended since;
-- or it returns an error, after the deadline or when the client has gone, and then this very waiter is in no line and
-- its device is not under a lease that was granted to it. A lease that it returns is marked as claimed. Or it has not
-- ended yet.
pub acquire_local_blocking-EndsWell :
    {b : Broker}
    → Reachable b
    → (req : AcquireReq) (rounds : List LocalRound) → All IsRound rounds
    → EndsWell req
        (last_queued b req (idle_of b req) rounds)
        (acquire_local_blocking b req rounds).0
        (acquire_local_blocking b req rounds).1
unfolding acquire_local_blocking
acquire_local_blocking-EndsWell {b} r req rounds o =
    local_loop-EndsWell req rounds b (idle_of b req) r o
