-- ===== src/Shim/Waiting.antt =====
-- What AcquireBlocking of internal/harbor/client.go takes from the broker's answers.
use adb_harbor.Prelude.{
  ◌≡◌, refl, ◌⊎◌, inl, inr, true, false, none, some, List, [], ◌∷◌, arith, Bool-cases, Option-cases,
}
use adb_harbor.Text.{Text}
use adb_harbor.Protocol.{AcquireResp, WaitResp}
use adb_harbor.Shim.{
  Acquisition, acquired, Poll, too_late, answered, Polled, returns, breaks, polling, poll_loop,
  Round, acquire_blocking,
}

-- An answer to a poll grants the lease.
pub data PollGrants (id : Text) : List Poll → Type 0 where
  now :
      {wr : WaitResp} {polls : List Poll}
      → wr.granted ≡ true
      → wr.lease_id ≡ id
      → PollGrants id (answered (some wr) ∷ polls)
  next :
      {wr : WaitResp} {polls : List Poll}
      → wr.granted ≡ false
      → wr.expired ≡ false
      → PollGrants id polls
      → PollGrants id (answered (some wr) ∷ polls)

-- The broker grants the lease: by its answer to an acquire, or to a poll after it; in the rounds before, it
-- has dropped the waiter.
pub data Grants (id : Text) : List Round → Type 0 where
  at_once :
      {ar : AcquireResp} {r : Round} {rounds : List Round}
      → r.answer ≡ some ar
      → ar.granted ≡ true
      → ar.lease_id ≡ id
      → Grants id (r ∷ rounds)
  by_poll :
      {ar : AcquireResp} {r : Round} {rounds : List Round}
      → r.answer ≡ some ar
      → ar.granted ≡ false
      → PollGrants id r.polls
      → Grants id (r ∷ rounds)
  again :
      {ar : AcquireResp} {r : Round} {rounds : List Round}
      → r.answer ≡ some ar
      → ar.granted ≡ false
      → poll_loop r.polls ≡ breaks
      → Grants id rounds
      → Grants id (r ∷ rounds)

poll_loop-PollGrants :
    (id : Text) (polls : List Poll) → poll_loop polls ≡ returns (acquired id) → PollGrants id polls
unfolding poll_loop
poll_loop-PollGrants id [] h = absurd (cc)
poll_loop-PollGrants id (too_late ∷ polls) h = absurd (cc)
poll_loop-PollGrants id (answered none ∷ polls) h = absurd (cc)
poll_loop-PollGrants id (answered (some wr) ∷ polls) h = elim (Bool-cases (wr.granted)) [
  | inl g ↦ now g (ground arith)
  | inr g ↦ elim (Bool-cases (wr.expired)) [
    | inl e ↦ absurd (ground arith)
    | inr e ↦ next g e (poll_loop-PollGrants id polls (ground arith))
  ]
]

Polled-cases : (p : Polled) → ((a : Acquisition) × (p ≡ returns a)) ⊎ ((p ≡ breaks) ⊎ (p ≡ polling))
Polled-cases (returns a) = inl (a, refl)
Polled-cases breaks = inr (inl refl)
Polled-cases polling = inr (inr refl)

-- AcquireBlocking returns a lease only if the broker granted that very lease, by the answer to an acquire
-- or to a poll after it, and every acquire before that one was answered with a waiter that the broker
-- then dropped.
pub acquire_blocking-Grants :
    (id : Text) (rounds : List Round)
    → acquire_blocking rounds ≡ some (acquired id)
    → Grants id rounds
unfolding acquire_blocking
acquire_blocking-Grants id [] h = absurd (cc)
acquire_blocking-Grants id (r ∷ rounds) h = elim (Option-cases (r.answer)) [
  | inl e ↦ absurd (ground (arith, e))
  | inr (ar, e) ↦ elim (Bool-cases (ar.granted)) [
    | inl g ↦ at_once e g (ground arith)
    | inr g ↦ elim (Polled-cases (poll_loop r.polls)) [
      | inl (a, p) ↦ by_poll e g (poll_loop-PollGrants id r.polls (ground arith))
      | inr (inl p) ↦ again e g p (acquire_blocking-Grants id rounds (ground arith))
      | inr (inr p) ↦ absurd (ground arith)
    ]
  ]
]
