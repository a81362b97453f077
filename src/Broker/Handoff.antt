-- ===== src/Broker/Handoff.antt =====
-- Where a device goes when its lease ends: expireLocked and grantNextLocked, and dropWaiter.
use adb_harbor.Prelude.{
  ℕ, ◌+◌, ◌≡◌, refl, ap, ◌∙◌, true, false, not, ◌||◌, ◌&&◌, none, some, List, ◌∷◌, arith,
  if◌then◌else◌, mem, ◌==◌, keep,
}
use adb_harbor.Text.{Text, text_eq}
use adb_harbor.Text.Laws.{text_eq_refl}
use adb_harbor.Map.{get}
use adb_harbor.Map.Laws.{get-put}
use adb_harbor.Broker.{Broker, queue, cleaning_at}
use adb_harbor.Broker.Release.{grant_next, alive, drop_stale, lease_for, remaining, hand_over}
use adb_harbor.Broker.Valid.{Core, core, line, ValidBut}
use adb_harbor.Broker.Valid.Cleaning.{only}
use adb_harbor.Broker.Valid.Loops.{commands, commands-congr, IsDropped}
use adb_harbor.Broker.Valid.Next.{after_drop, handed}
use adb_harbor.Broker.Valid.Handed.{remaining-congr, IsHanded}

-- After a lease on `s` has ended in the state `b`, with `head` the first of the line that still polls,
-- and `rest` the others: the device is the head's, under a new lease.
pub record IsHandedOn (s : Text) (head : ℕ) (rest : List ℕ) (b c : Core) : Type 0 where
  pub lease : get c.leases s ≡ some b.next_lease
  pub session : (c.lease_heap b.next_lease).session ≡ (b.waiter_heap head).session
  pub unclaimed : (c.lease_heap b.next_lease).claimed ≡ false
  pub running :
      (c.lease_heap b.next_lease).running
      ≡ (if (b.waiter_heap head).command then 1 else 0)
        + commands b.waiter_heap (b.waiter_heap head).session rest
  pub line_of :
      line c s
      ≡ keep (λ w. not (text_eq (b.waiter_heap w).session (b.waiter_heap head).session)) rest
  pub granted :
      (w : ℕ)
      → (head == w
          || (mem w rest && text_eq (b.waiter_heap w).session (b.waiter_heap head).session))
        ≡ true
      → ((c.waiter_heap w).lease ≡ some b.next_lease) × ((c.waiter_heap w).closed ≡ true)
  pub elsewhere :
      (t : Text) → text_eq s t ≡ false → (get c.leases t ≡ get b.leases t) × (line c t ≡ line b t)

module _ (b : Broker) (s : Text) (now : ℕ) (v : ValidBut (only s) (core b))
    (free : get b.leases s ≡ none) (clean : cleaning_at b s ≡ false) (head : ℕ) (rest : List ℕ)
    (e : alive b now (queue b s) ≡ head ∷ rest) where
  abbrev facts : IsDropped now (queue b s) b (drop_stale b now (queue b s))
  facts = after_drop b s now v free clean

  abbrev given :
      IsHanded s now head rest
        (drop_stale b now (queue b s))
        (core (hand_over (drop_stale b now (queue b s)) s now head rest))
  given = handed b s now v free clean head rest e

  same_session :
      (w : ℕ) → ((drop_stale b now (queue b s)).waiter_heap w).session ≡ (b.waiter_heap w).session
  same_session w = ground (arith, facts.waiter w)

  same_command :
      (w : ℕ) → ((drop_stale b now (queue b s)).waiter_heap w).command ≡ (b.waiter_heap w).command
  same_command w = ground (arith, facts.waiter w)

  left_in_line :
      remaining
        (drop_stale b now (queue b s))
        ((drop_stale b now (queue b s)).waiter_heap head).session
        rest
      ≡ keep (λ w. not (text_eq (b.waiter_heap w).session (b.waiter_heap head).session)) rest
  left_in_line =
      ap (λ x. remaining (drop_stale b now (queue b s)) x rest) (same_session head)
      ∙ remaining-congr (drop_stale b now (queue b s)) b (b.waiter_heap head).session rest
          same_session
      ∙ (unfold remaining in refl)

  counted :
      commands
        (drop_stale b now (queue b s)).waiter_heap
        ((drop_stale b now (queue b s)).waiter_heap head).session
        rest
      ≡ commands b.waiter_heap (b.waiter_heap head).session rest
  counted =
      ap (λ x. commands (drop_stale b now (queue b s)).waiter_heap x rest) (same_session head)
      ∙ commands-congr (drop_stale b now (queue b s)).waiter_heap b.waiter_heap
          (b.waiter_heap head).session rest (λ w m. (same_session w, same_command w))

  hand_over-IsHandedOn :
      IsHandedOn s head rest
        (core b)
        (core (hand_over (drop_stale b now (queue b s)) s now head rest))
  unfolding lease_for
  hand_over-IsHandedOn = record {
    lease = ground (
      arith,
      given.leases,
      facts.frame.leases,
      facts.frame.next_lease,
      get-put b.leases s s b.next_lease,
      text_eq_refl s,
    );
    session = ground (arith, given.lease b.next_lease, facts.frame.next_lease, same_session head);
    unclaimed = ground (arith, given.lease b.next_lease, facts.frame.next_lease);
    running =
        ground
          (arith, given.lease b.next_lease, facts.frame.next_lease, counted, same_command head);
    line_of = ground (arith, given.line_of s, text_eq_refl s, left_in_line);
    granted = λ w j.
        ground (arith, given.waiter w, facts.frame.next_lease, same_session w, same_session head);
    elsewhere = λ t n. (
      ground (
        arith,
        given.leases,
        facts.frame.leases,
        facts.frame.next_lease,
        get-put b.leases s t b.next_lease,
      ),
      ground (arith, given.line_of t, facts.frame.queues),
    );
  }

  pub grant_next-IsHandedOn : IsHandedOn s head rest (core b) (core (grant_next b s now))
  unfolding grant_next
  grant_next-IsHandedOn = rw (e, grant_next) hand_over-IsHandedOn
