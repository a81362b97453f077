-- ===== src/Broker/Local.antt =====
-- internal/harbor/broker.go: AcquireLocalBlocking and waitLocal, how the proxy waits for a device. What its select
-- receives, and what the other goroutines do to the broker between two sections, is a script.
pub mod Ends
use adb_harbor.Prelude.{
  ℕ, suc, ◌*◌, ◌≡◌, refl, sym, ap, subst, ◌∙◌, inl, inr, Bool, true, false, Option, none, some,
  List, [], ◌∷◌, ltb, if◌then◌else◌, All, arith, Bool-cases, Option-cases, ==_refl,
}
use adb_harbor.Protocol.{AcquireReq}
use adb_harbor.Broker.{Broker, second, update}
use adb_harbor.Broker.Grant.{
  Acquired, leased, queued, acquire_locked, grant, renew, renewed, fresh_lease,
}
use adb_harbor.Broker.Handlers.{idle_of}
use adb_harbor.Broker.Waiting.{poll, pick_up, drop_waiter, claim, unregister}
use adb_harbor.Broker.Run.{Step, Reachable, moves, acquires_locally, ticks, wakes_locally, gives_up}

-- One round of waitLocal's select, or what others do to the broker before the next one.
pub data Happening : Type 0 where
  others : (Broker → Broker) → Happening
  -- The waiter's channel, the ticker, the deadline's timer, and the client's connection.
  woken : Happening
  tick deadline client_gone : (now : ℕ) → Happening

-- The results of waitLocal and AcquireLocalBlocking: a lease, nil without an error, an error, or none yet when the
-- script ends.
pub data LocalResult : Type 0 where
  got : (p : ℕ) → LocalResult
  dropped timed_out aborted still_waiting : LocalResult

abbrev lease_or_nil : Option ℕ → LocalResult
lease_or_nil none = dropped
lease_or_nil (some p) = got p

-- The branch of the channel.
unfoldable pub wake : Broker → ℕ → LocalResult × Broker
wake b w = let (l, c) = pick_up b w in (lease_or_nil l, c)

-- waitLocal; the channel is received from when it is closed.
unfoldable pub wait_local : Broker → ℕ → List Happening → LocalResult × Broker
unfolding wake
wait_local b w [] = (still_waiting, b)
wait_local b w (others f ∷ hs) = wait_local (f b) w hs
wait_local b w (woken ∷ hs) =
    let later = wait_local b w hs in if (b.waiter_heap w).closed then wake b w else later
wait_local b w (tick now ∷ hs) = wait_local (poll b w now) w hs
wait_local b w (deadline now ∷ hs) = (timed_out, drop_waiter b w now)
wait_local b w (client_gone now ∷ hs) = (aborted, drop_waiter b w now)

-- One round of the loop of AcquireLocalBlocking: the clock at acquireLocked, and the script of the wait.
pub record LocalRound : Type 0 where
  pub now : ℕ
  pub script : List Happening

abbrev after_acquire : Acquired → Broker → List Happening → LocalResult × Broker
after_acquire (leased p) b script = (got p, b)
after_acquire (queued w) b script = wait_local b w script

-- The round, up to its end.
unfoldable pub local_round : Broker → AcquireReq → ℕ → LocalRound → LocalResult × Broker
unfolding wait_local
local_round b req idle r =
    let (a, c) = acquire_locked b req r.now idle in after_acquire a c r.script

-- What follows a round: a waiter that was dropped without a lease acquires again.
abbrev or_again : LocalResult → Broker → LocalResult × Broker → LocalResult × Broker
or_again (got p) b rest = (got p, b)
or_again dropped b rest = rest
or_again timed_out b rest = (timed_out, b)
or_again aborted b rest = (aborted, b)
or_again still_waiting b rest = (still_waiting, b)

unfoldable pub local_loop : Broker → AcquireReq → ℕ → List LocalRound → LocalResult × Broker
unfolding local_round
local_loop b req idle [] = (still_waiting, b)
local_loop b req idle (r ∷ rs) =
    let (result, c) = local_round b req idle r in or_again result c (local_loop c req idle rs)

-- AcquireLocalBlocking
unfoldable pub acquire_local_blocking : Broker → AcquireReq → List LocalRound → LocalResult × Broker
unfolding local_loop
acquire_local_blocking b req rs = local_loop b req (idle_of b req) rs
