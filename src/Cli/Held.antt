-- ===== src/Cli/Held.antt =====
-- What `acquire` and `release` of internal/harbor/cli.go tell, and what the broker of internal/harbor/broker.go does.
use adb_harbor.Prelude.{
  ℕ, ◌+◌, ◌*◌, ◌/◌, ◌<◌, ◌↔◌, refl, inr, Bool, true, false, not, none, some, arith,
}
use adb_harbor.Text.{Text, text_eq}
use adb_harbor.Map.{get}
use adb_harbor.Broker.{Broker, second}
use adb_harbor.Broker.Grant.{fresh_lease, explicit_ttl}
use adb_harbor.Broker.Handlers.{idle_of}
use adb_harbor.Broker.Reclaim.{IsDue}
use adb_harbor.Cli.{announced_ttl}
use adb_harbor.Cli.Commands.{Runner, acquire_request, ReleaseResult, denied}

-- A lease that `acquire` is granted at once expires when the command announces, where the client and the broker have
-- the same configuration, and not before, if no command runs under it.
pub acquire_request-expiry :
    (who : Runner) (b : Broker) (serial session : Text) (ttl now t : ℕ)
    → let l =
        fresh_lease b
          (acquire_request who serial session ttl)
          now
          (idle_of b (acquire_request who serial session ttl)) in
      IsDue l t ↔ (now + announced_ttl b.cfg (ttl / second) * second < t)
unfolding acquire_request fresh_lease explicit_ttl announced_ttl
acquire_request-expiry who b serial session ttl now t = (
  λ (d : IsDue
        (fresh_lease b (acquire_request who serial session ttl) now
          (idle_of b (acquire_request who serial session ttl)))
        t).
      ground (arith, d),
  λ h. inr (refl, ground (arith, h)),
)

-- Another session has the device.
unfoldable pub is_held_by_other : Broker → Text → Text → Bool
is_held_by_other b serial session = elim (get b.leases serial) [
  | none ↦ false
  | some p ↦ not (text_eq (b.lease_heap p).session session)
]

abbrev pub is_denied : ReleaseResult → Bool
is_denied (denied message) = true
is_denied other = false
