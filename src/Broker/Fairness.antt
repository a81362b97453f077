-- ===== src/Broker/Fairness.antt =====
-- Waiters of one device, internal/harbor/broker.go: they come nearer to it with each lease that ends, and who
-- gives up is out of the line and leaves no lease behind.
use adb_harbor.Prelude.{
  ℕ, suc, ◌+◌, ◌≤◌, ◌<◌, ◌≡◌, ap, subst, ◌∙◌, ◌⊎◌, inl, inr, Bool, true, false, not, ◌||◌, ◌&&◌,
  some, List, [], ◌∷◌, arith, Bool-cases, mem, mem-keep, ◌==◌, ==_iff, keep,
}
use adb_harbor.Text.{Text, text_eq}
use adb_harbor.Map.{get}
use adb_harbor.Broker.{Broker, queue}
use adb_harbor.Broker.Release.{expire, wants_cleanup, is_stale}
use adb_harbor.Broker.Waiting.{position_in}
use adb_harbor.Broker.Expiry.{ExpireSpec, cleans, hands_on, frees, expire-ExpireSpec, polling}
use adb_harbor.Broker.Handoff.{IsHandedOn}
use adb_harbor.Broker.Run.{Reachable}
use adb_harbor.Broker.Valid.{Core, core, line}

-- The position counts from the number that it is given.
position_in-from :
    (q : List ℕ) (w i : ℕ) → mem w q ≡ true → position_in q w i ≡ position_in q w 0 + i
position_in-from [] w i h = cc
position_in-from (x ∷ q) w i h =
    ground (arith, position_in-from q w (suc i), position_in-from q w 1)

position_in-pos : (q : List ℕ) (w : ℕ) → mem w q ≡ true → 0 < position_in q w 0
position_in-pos [] w h = cc
position_in-pos (x ∷ q) w h = ground (arith, position_in-from q w 1, position_in-pos q w)

-- Who is kept in a line is not moved back.
position_in-keep :
    (p : ℕ → Bool) (q : List ℕ) (w : ℕ)
    → mem w (keep p q) ≡ true
    → position_in (keep p q) w 0 ≤ position_in q w 0
position_in-keep p [] w h = omega arith
position_in-keep p (x ∷ q) w h = ground (
  arith,
  position_in-keep p q w,
  position_in-from q w 1,
  position_in-from (keep p q) w 1,
  mem-keep p w q,
  ==_iff x w,
  ap p,
)

-- The waiter `w` of the device `s`, when a lease on it ends: it gets the new lease, or comes nearer to it.
abbrev pub IsNearer : Text → ℕ → Core → Core → Type 0
IsNearer s w b c =
    (((c.waiter_heap w).lease ≡ some b.next_lease) × (get c.leases s ≡ some b.next_lease))
    ⊎ ((mem w (line c s) ≡ true) × (position_in (line c s) w 0 < position_in (line b s) w 0))

module _ (s : Text) (w head : ℕ) (rest : List ℕ) (now : ℕ) (b c : Core) where
  others : ℕ → Bool
  others x = not (text_eq (b.waiter_heap x).session (b.waiter_heap head).session)

  IsHandedOn-IsNearer :
      IsHandedOn s head rest b c
      → polling b now s ≡ head ∷ rest
      → mem w (polling b now s) ≡ true
      → IsNearer s w b c
  unfolding others
  IsHandedOn-IsNearer x e m = elim (Bool-cases served) [
    | inl g ↦ inl ((x.granted w g).0, x.lease)
    | inr g ↦ inr (rw x.line_of (stays g), rw x.line_of (nearer g))
  ]
    where
      served : Bool
      served =
          head == w
          || (mem w rest && text_eq (b.waiter_heap w).session (b.waiter_heap head).session)

      in_rest : mem w (head ∷ rest) ≡ true
      in_rest = subst (λ q. mem w q ≡ true) e m

      stays : served ≡ false → mem w (keep others rest) ≡ true
      stays g = ground (arith, g, in_rest, mem-keep others w rest)

      nearer : served ≡ false → position_in (keep others rest) w 0 < position_in (line b s) w 0
      nearer g = ground (
        arith,
        g,
        in_rest,
        position_in-keep others rest w (stays g),
        position_in-from rest w 1,
        mem-keep others w rest,
        position_in-keep (λ y. not (is_stale now (b.waiter_heap y))) (line b s) w m,
        ap (λ q. position_in q w 0) e,
      )

-- In every state that the daemon comes to, when a lease ends and its device is not to be cleaned, each waiter of
-- that device that has polled lately gets the device under the new lease, or stays in line, nearer to its head
-- than before.
pub expire-IsNearer :
    {b : Broker}
    → Reachable b
    → (s : Text) (p w : ℕ) (reason : Text) (now : ℕ) → get b.leases s ≡ some p
    → wants_cleanup b (b.lease_heap p) ≡ false
    → mem w (queue b s) ≡ true
    → is_stale now (b.waiter_heap w) ≡ false
    → IsNearer s w (core b) (core (expire b p reason now))
expire-IsNearer {b} r s p w reason now h clean m polls =
    by_case (wants_cleanup b (b.lease_heap p)) clean (expire-ExpireSpec r s p h reason now)
  where
    in_polling : mem w (polling (core b) now s) ≡ true
    in_polling =
        mem-keep (λ y. not (is_stale now (b.waiter_heap y))) w (queue b s)
        ∙ ground (arith, m, polls)

    by_case :
        (wants : Bool)
        → wants ≡ false
        → ExpireSpec s p now wants (core b) (core (expire b p reason now))
        → IsNearer s w (core b) (core (expire b p reason now))
    by_case wants f (cleans e x) = cc
    by_case wants f (hands_on head rest e q x) =
        IsHandedOn-IsNearer s w head rest now (core b) (core (expire b p reason now)) x q in_polling
    by_case wants f (frees e q x) = absurd (ground (arith, in_polling, q))
