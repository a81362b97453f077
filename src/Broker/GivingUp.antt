-- ===== src/Broker/GivingUp.antt =====
-- dropWaiter, internal/harbor/broker.go: what is left of a client that gives up.
use adb_harbor.Prelude.{
  ℕ, ◌<◌, ◌≡◌, ◌≢◌, refl, ap, inl, inr, Bool, false, not, Option, some, arith, Bool-cases,
  Option-cases, if◌then◌else◌, mem, mem-keep, ==_refl, remove, mem-remove,
}
use adb_harbor.Text.{Text, text, text_eq}
use adb_harbor.Text.Laws.{text_eq_iff}
use adb_harbor.Map.{get}
use adb_harbor.Broker.{Broker, queue}
use adb_harbor.Broker.Release.{set_queue, expire, wants_cleanup, is_stale}
use adb_harbor.Broker.Waiting.{drop_waiter, unregister, holds}
use adb_harbor.Broker.Expiry.{ExpireSpec, cleans, hands_on, frees, expire_cases, polling}
use adb_harbor.Broker.Run.{Reachable}
use adb_harbor.Broker.Valid.{Core, core, line, IsValid}
use adb_harbor.Broker.Valid.Serve.{queue-set_queue}
use adb_harbor.Broker.Valid.Waiters.{leave_line-Valid, holds-get}
use adb_harbor.Broker.Valid.Reached.{Reachable-Valid}

-- The waiter `w` of the device `s` is in no line, and the device is not under the lease `p`.
pub record IsGone (w : ℕ) (s : Text) (p : Option ℕ) (c : Core) : Type 0 where
  pub no_line : (t : Text) → mem w (line c t) ≡ false
  pub no_lease : (q : ℕ) → p ≡ some q → get c.leases s ≢ some q

-- Who is in no line is in none after a lease has ended.
module _ (w : ℕ) (s : Text) (p now : ℕ) (b c : Core)
    (absent : (t : Text) → mem w (line b t) ≡ false) where
  elsewhere_absent :
      mem w (line c s) ≡ false
      → ((t : Text) → text_eq s t ≡ false → line c t ≡ line b t)
      → (t : Text) → mem w (line c t) ≡ false
  elsewhere_absent here other t =
      ground (arith, text_eq_iff s t, other t, here, absent t, ap (λ q. mem w (line c q)))

  polling_absent : mem w (polling b now s) ≡ false
  polling_absent =
      ground (arith, mem-keep (λ x. not (is_stale now (b.waiter_heap x))) w (line b s), absent s)

  expired-IsGone :
      (wants : Bool) → p < b.next_lease → ExpireSpec s p now wants b c → IsGone w s (some p) c
  expired-IsGone wants small (cleans e x) = record {
    no_line = elsewhere_absent (rw x.line_of (absent s)) (λ t n. (x.elsewhere t n).1);
    no_lease = λ q e f. ground (arith, x.free);
  }
  expired-IsGone wants small (hands_on head rest e q x) = record {
    no_line =
        elsewhere_absent
          (rw x.line_of ground (
            arith,
            q,
            polling_absent,
            mem-keep (λ y. not (text_eq (b.waiter_heap y).session (b.waiter_heap head).session)) w
                rest,
          ))
          (λ t n. (x.elsewhere t n).1);
    no_lease = λ q e f. ground (arith, x.lease, small);
  }
  expired-IsGone wants small (frees e q x) = record {
    no_line = elsewhere_absent (rw x.line_of refl) (λ t n. (x.elsewhere t n).1);
    no_lease = λ q e f. ground (arith, x.free);
  }

module _ (b : Broker) (v : IsValid b) (w now : ℕ) where
  device : Text
  device = (b.waiter_heap w).serial

  left : Broker
  left = set_queue (unregister b w) device (remove w (queue b device))

  left-Valid : IsValid left
  unfolding left unregister
  left-Valid = leave_line-Valid (unregister b w) device w v

  left-queue :
      (t : Text)
      → queue left t ≡ (if text_eq device t then remove w (queue b device) else queue b t)
  unfolding left unregister
  left-queue t = queue-set_queue (unregister b w) device (remove w (queue b device)) t

  left-absent : (t : Text) → mem w (queue left t) ≡ false
  unfolding device
  left-absent t = elim (Bool-cases (text_eq device t)) [
    | inl e ↦
        rw (left-queue t, e, mem-remove w w (queue b device) (v.no_dup device), ==_refl w)
          (ground arith)
    | inr e ↦
        rw (left-queue t, e)
          (elim (Bool-cases (mem w (queue b t))) [
            | inl m ↦ ground (arith, (v.queued t w m).1, text_eq_iff device t)
            | inr m ↦ m
          ])
  ]

  dropped-IsGone : IsGone w device (b.waiter_heap w).lease (core (drop_waiter b w now))
  unfolding drop_waiter device left unregister
  dropped-IsGone = elim (Option-cases (b.waiter_heap w).lease) [
    | inl e ↦ rw (e, drop_waiter) (record { no_line = left-absent; no_lease = λ q f. cc })
    | inr (p, e) ↦ elim (Bool-cases (holds (get left.leases device) p)) [
      | inl h ↦
          let g = holds-get (get left.leases device) p h in
          rw (e, h, drop_waiter)
            (expired-IsGone w device p now (core left) (core (expire left p (text "abandoned") now))
              left-absent (wants_cleanup left (left.lease_heap p)) (left-Valid.held device p g).0
              (expire_cases left left-Valid device p g (text "abandoned") now))
      | inr h ↦
          rw (e, h, drop_waiter)
            (record { no_line = left-absent; no_lease = λ q f k. ground (arith, ==_refl p) })
    ]
  ]

-- In every state that the daemon comes to, a client that gives up is afterwards in no line, and the lease that it
-- was granted meanwhile, if any, is not on its device.
pub drop_waiter-IsGone :
    {b : Broker}
    → Reachable b
    → (w now : ℕ)
    → IsGone w (b.waiter_heap w).serial (b.waiter_heap w).lease (core (drop_waiter b w now))
unfolding device
drop_waiter-IsGone {b} r w now = dropped-IsGone b (Reachable-Valid r) w now
