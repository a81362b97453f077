-- ===== src/Broker/Valid/Handed.antt =====
-- What grantNextLocked does to the state, told at once: `hand_over` when the line has a head, and the
-- waiters dropped as stale before it.
use adb_harbor.Prelude.{
  ℕ, suc, ◌+◌, ◌≡◌, refl, ap, ◌∙◌, false, ◌&&◌, ◌||◌, List, [], ◌∷◌, arith, ◌==◌, if◌then◌else◌,
  mem, NoDup,
}
use adb_harbor.Text.{Text, text_eq}
use adb_harbor.Map.{put}
use adb_harbor.Broker.{Broker, queue}
use adb_harbor.Broker.Release.{share, remaining, set_queue, start_lease, lease_for, hand_over}
use adb_harbor.Broker.Valid.{Core, core, line, cleanups_of}
use adb_harbor.Broker.Valid.Serve.{core-hist, core-capture_if_enabled, queue-set_queue}
use adb_harbor.Broker.Valid.Loops.{
  IsShared, share-IsShared, commands, commands-congr, with_running, awarded_waiter,
  HaveOpenChannels,
}

pub record IsHanded (s0 : Text) (now head : ℕ) (rest : List ℕ) (b : Broker) (c : Core)
    : Type 0 where
  pub next_lease : c.next_lease ≡ suc b.next_lease
  pub next_waiter : c.next_waiter ≡ b.next_waiter
  pub cleaning : c.cleaning ≡ b.cleaning
  pub panicked : c.panicked ≡ b.panicked
  pub cleanups : c.cleanups ≡ cleanups_of b.tasks
  pub leases : c.leases ≡ put b.leases s0 b.next_lease
  pub lease :
      (q : ℕ)
      → c.lease_heap q ≡ (
          if b.next_lease == q
          then with_running (lease_for b s0 now (b.waiter_heap head)) (
              (lease_for b s0 now (b.waiter_heap head)).running
              + commands b.waiter_heap (b.waiter_heap head).session rest)
          else b.lease_heap q)
  pub line_of :
      (t : Text)
      → line c t
        ≡ (if text_eq s0 t then remaining b (b.waiter_heap head).session rest else queue b t)
  pub waiter :
      (w : ℕ)
      → c.waiter_heap w ≡ (
          if head == w
            || (mem w rest && text_eq (b.waiter_heap w).session (b.waiter_heap head).session)
          then awarded_waiter b.next_lease (b.waiter_heap w)
          else b.waiter_heap w)

pub remaining-congr :
    (b c : Broker) (session : Text) (ws : List ℕ)
    → ((w : ℕ) → (b.waiter_heap w).session ≡ (c.waiter_heap w).session)
    → remaining b session ws ≡ remaining c session ws
unfolding remaining
remaining-congr b c session [] e = refl
remaining-congr b c session (w ∷ ws) e = ground (arith, e w, remaining-congr b c session ws e)

-- The state in which the second loop starts.
record IsStarted (s0 : Text) (now head : ℕ) (b c : Broker) : Type 0 where
  next_lease : c.next_lease ≡ suc b.next_lease
  next_waiter : c.next_waiter ≡ b.next_waiter
  cleaning : c.cleaning ≡ b.cleaning
  panicked : c.panicked ≡ b.panicked
  tasks : c.tasks ≡ b.tasks
  leases : c.leases ≡ put b.leases s0 b.next_lease
  queues : c.queues ≡ b.queues
  lease :
      (q : ℕ)
      → c.lease_heap q
        ≡ (if b.next_lease == q then lease_for b s0 now (b.waiter_heap head) else b.lease_heap q)
  waiter :
      (w : ℕ)
      → c.waiter_heap w
        ≡ (if head == w then awarded_waiter b.next_lease (b.waiter_heap w) else b.waiter_heap w)

start_lease-IsStarted :
    (b : Broker) (s0 : Text) (now head : ℕ)
    → (b.waiter_heap head).closed ≡ false
    → IsStarted s0 now head b (start_lease b s0 now head)
unfolding start_lease
start_lease-IsStarted b s0 now head o = record {
  next_lease = ground arith;
  next_waiter = ground arith;
  cleaning = ground arith;
  panicked = ground arith;
  tasks = ground arith;
  leases = ground arith;
  queues = ground arith;
  lease = λ q. ground arith;
  waiter = λ w. ground arith;
}

-- Writing one line leaves all else.
record IsRequeued (s0 : Text) (ws : List ℕ) (b c : Broker) : Type 0 where
  next_lease : c.next_lease ≡ b.next_lease
  next_waiter : c.next_waiter ≡ b.next_waiter
  cleaning : c.cleaning ≡ b.cleaning
  panicked : c.panicked ≡ b.panicked
  tasks : c.tasks ≡ b.tasks
  leases : c.leases ≡ b.leases
  lease_heap : c.lease_heap ≡ b.lease_heap
  waiter_heap : c.waiter_heap ≡ b.waiter_heap
  line_of : (t : Text) → queue c t ≡ (if text_eq s0 t then ws else queue b t)

set_queue-IsRequeued :
    (b : Broker) (s0 : Text) (ws : List ℕ) → IsRequeued s0 ws b (set_queue b s0 ws)
set_queue-IsRequeued b s0 [] = record {
  next_lease = refl;
  next_waiter = refl;
  cleaning = refl;
  panicked = refl;
  tasks = refl;
  leases = refl;
  lease_heap = refl;
  waiter_heap = refl;
  line_of = queue-set_queue b s0 [];
}
set_queue-IsRequeued b s0 (w ∷ ws) = record {
  next_lease = refl;
  next_waiter = refl;
  cleaning = refl;
  panicked = refl;
  tasks = refl;
  leases = refl;
  lease_heap = refl;
  waiter_heap = refl;
  line_of = queue-set_queue b s0 (w ∷ ws);
}

pub hand_over-IsHanded :
    (b : Broker) (s0 : Text) (now head : ℕ) (rest : List ℕ)
    → NoDup (head ∷ rest)
    → HaveOpenChannels b (head ∷ rest)
    → IsHanded s0 now head rest b (core (hand_over b s0 now head rest))
unfolding hand_over
hand_over-IsHanded b s0 now head rest d o =
    rw (core-capture_if_enabled, core-hist)
      (record {
        next_lease = out.next_lease ∙ loop.frame.next_lease ∙ first.next_lease;
        next_waiter = out.next_waiter ∙ loop.frame.next_waiter ∙ first.next_waiter;
        cleaning = out.cleaning ∙ loop.frame.cleaning ∙ first.cleaning;
        panicked = out.panicked ∙ loop.frame.panicked ∙ first.panicked;
        cleanups = ap cleanups_of (out.tasks ∙ loop.frame.tasks ∙ first.tasks);
        leases = out.leases ∙ loop.frame.leases ∙ first.leases;
        lease = λ q.
            ground
              (arith, out.lease_heap, loop.lease q, first.lease q, first.lease b.next_lease, count);
        line_of = λ t. ground (arith, out.line_of t, loop.frame.queues, first.queues, left);
        waiter = λ w. ground (arith, out.waiter_heap, loop.waiter w, first.waiter w, d.0);
      })
  where
    session : Text
    session = (b.waiter_heap head).session

    b1 : Broker
    b1 = start_lease b s0 now head

    first : IsStarted s0 now head b b1
    first = start_lease-IsStarted b s0 now head (o head (ground arith))

    loop : IsShared b.next_lease session rest b1 (share b1 b.next_lease session rest)
    loop =
        share-IsShared b.next_lease session b1 rest d.1
          (λ x m. ground (arith, first.waiter x, o x, d.0))

    left : remaining b1 session rest ≡ remaining b session rest
    left = remaining-congr b1 b session rest (λ w. ground (arith, first.waiter w))

    count : commands b1.waiter_heap session rest ≡ commands b.waiter_heap session rest
    count =
        commands-congr b1.waiter_heap b.waiter_heap session rest
          (λ w m. ground (arith, first.waiter w))

    out :
        IsRequeued s0
          (remaining b1 session rest)
          (share b1 b.next_lease session rest)
          (set_queue (share b1 b.next_lease session rest) s0 (remaining b1 session rest))
    out = set_queue-IsRequeued (share b1 b.next_lease session rest) s0 (remaining b1 session rest)
