-- ===== src/Broker/Valid/Next.antt =====
-- grantNextLocked and expireLocked keep the invariant.
use adb_harbor.Prelude.{
  ℕ, suc, ◌+◌, ◌≡◌, refl, sym, subst, ◌∙◌, ap, inl, inr, false, not, ◌&&◌, none, some, List, [],
  ◌∷◌, arith, ==_iff, mem, NoDup, Bool-cases, mem-keep, NoDup-keep,
}
use adb_harbor.Text.{Text, text_eq}
use adb_harbor.Text.Laws.{text_eq_refl}
use adb_harbor.Map.{get, delete}
use adb_harbor.Map.Laws.{get-delete}
use adb_harbor.Broker.{Broker, Lease, queue, cleaning_at, save_state}
use adb_harbor.Broker.Release.{
  alive, drop_stale, remaining, lease_for, hand_over, grant_next, is_stale, expire, end_lease,
  wants_cleanup,
}
use adb_harbor.Broker.Valid.{Core, core, is_cleaning, cleanups_of, IsHeld, ValidBut, Valid, IsValid}
use adb_harbor.Broker.Valid.Cleaning.{only, delete_lease-Valid, start_cleaning-Valid}
use adb_harbor.Broker.Valid.Loops.{IsDropped, drop_stale-IsDropped, commands, with_running}
use adb_harbor.Broker.Valid.Serve.{IsServed, served_nobody, served_somebody, core-hist}
use adb_harbor.Broker.Valid.Handed.{IsHanded, hand_over-IsHanded}

pub core-save_state : (b : Broker) → core (save_state b) ≡ core b
unfolding save_state
core-save_state b = elim (Bool-cases b.disk_ok) [ inl h ↦ rw h | inr h ↦ rw h ]

pub mem-alive :
    (b : Broker) (now w : ℕ) (q : List ℕ)
    → mem w (alive b now q) ≡ (mem w q && not (is_stale now (b.waiter_heap w)))
unfolding alive
mem-alive b now w q = mem-keep _ w q

pub NoDup-alive : (b : Broker) (now : ℕ) (q : List ℕ) → NoDup q → NoDup (alive b now q)
unfolding alive
NoDup-alive b now q = NoDup-keep _ q

pub mem-remaining :
    (b : Broker) (session : Text) (w : ℕ) (ws : List ℕ)
    → mem w (remaining b session ws) ≡ (mem w ws && not (text_eq (b.waiter_heap w).session session))
unfolding remaining
mem-remaining b session w ws = mem-keep _ w ws

module _ (b : Broker) (s0 : Text) (now : ℕ) (v : ValidBut (only s0) (core b))
    (free : get b.leases s0 ≡ none) (clean : cleaning_at b s0 ≡ false) where
  abbrev pub dropped : Broker
  dropped = drop_stale b now (queue b s0)

  pub after_drop : IsDropped now (queue b s0) b dropped
  after_drop =
      drop_stale-IsDropped now b (queue b s0) (v.no_dup s0) (λ w m. ground (arith, v.queued s0 w m))

  nobody-Valid :
      alive b now (queue b s0) ≡ []
      → Valid (core (record dropped { queues = delete dropped.queues s0 }))
  nobody-Valid e =
      served_nobody s0 v served after_drop.frame.leases after_drop.lease_heap
        after_drop.frame.next_lease
    where
      served : IsServed s0 [] (core b) (core (record dropped { queues = delete dropped.queues s0 }))
      served = record {
        next_waiter = after_drop.frame.next_waiter;
        cleaning = after_drop.frame.cleaning;
        panicked = after_drop.frame.panicked;
        cleanups = ap cleanups_of after_drop.frame.tasks;
        line_of = λ s. ground (arith, get-delete dropped.queues s0 s, after_drop.frame.queues);
        waiter = λ w m. ground (arith, after_drop.waiter w);
        kept_mem = λ w m. cc;
        kept_once = tt;
      }

  module _ (head : ℕ) (rest : List ℕ) (e : alive b now (queue b s0) ≡ head ∷ rest) where
    pub alive_once : NoDup (head ∷ rest)
    alive_once = rw e at (NoDup-alive b now (queue b s0) (v.no_dup s0))

    pub alive_mem :
        (w : ℕ) → mem w (head ∷ rest) ≡ (mem w (queue b s0) && not (is_stale now (b.waiter_heap w)))
    alive_mem w = rw e at (mem-alive b now w (queue b s0))

    pub handed : IsHanded s0 now head rest dropped (core (hand_over dropped s0 now head rest))
    handed =
        hand_over-IsHanded dropped s0 now head rest alive_once
          (λ w m. ground (arith, alive_mem w, after_drop.waiter w, v.queued s0 w))

    abbrev pub kept : List ℕ
    kept = remaining dropped (dropped.waiter_heap head).session rest

    pub mem-kept :
        (w : ℕ)
        → mem w kept ≡ (
            mem w rest
            && not (text_eq (dropped.waiter_heap w).session (dropped.waiter_heap head).session))
    mem-kept w = mem-remaining dropped _ w rest

    handed-Valid : Valid (core (hand_over dropped s0 now head rest))
    handed-Valid =
        served_somebody s0 given v served clean
          (handed.leases ∙ rw (after_drop.frame.leases, after_drop.frame.next_lease))
          (handed.next_lease ∙ ap suc after_drop.frame.next_lease)
          (λ p. ground (arith, handed.lease p, after_drop.lease_heap, after_drop.frame.next_lease))
          given_serial (λ w m. ground (arith, mem-kept w, given_session, after_drop.waiter w))
      where
        given : Lease
        given = with_running (lease_for dropped s0 now (dropped.waiter_heap head)) (
            (lease_for dropped s0 now (dropped.waiter_heap head)).running
            + commands dropped.waiter_heap (dropped.waiter_heap head).session rest)

        given_serial : given.serial ≡ s0
        given_serial = unfold lease_for in refl

        given_session : given.session ≡ (dropped.waiter_heap head).session
        given_session = unfold lease_for in refl

        served : IsServed s0 kept (core b) (core (hand_over dropped s0 now head rest))
        served = record {
          next_waiter = handed.next_waiter ∙ after_drop.frame.next_waiter;
          cleaning = handed.cleaning ∙ after_drop.frame.cleaning;
          panicked = handed.panicked ∙ after_drop.frame.panicked;
          cleanups = handed.cleanups ∙ ap cleanups_of after_drop.frame.tasks;
          line_of = λ s. ground (arith, handed.line_of s, after_drop.frame.queues);
          waiter = λ w m. ground (
            arith,
            handed.waiter w,
            after_drop.waiter w,
            mem-kept w,
            alive_mem w,
            alive_once.0,
            ==_iff head w,
          );
          kept_mem = λ w m. ground (arith, mem-kept w, alive_mem w);
          kept_once = unfold remaining in NoDup-keep _ rest alive_once.1;
        }

  pub grant_next-Valid : Valid (core (grant_next b s0 now))
  unfolding grant_next
  grant_next-Valid = go (alive b now (queue b s0)) refl
    where
      go : (al : List ℕ) → alive b now (queue b s0) ≡ al → Valid (core (grant_next b s0 now))
      go [] e = rw (e, grant_next) (nobody-Valid e)
      go (head ∷ rest) e = rw (e, grant_next) (handed-Valid head rest e)

-- A lease of the map ends: its device goes to cleanup or to the next session.
module _ (b : Broker) (v : IsValid b) (s0 : Text) (p : ℕ) (h : get b.leases s0 ≡ some p)
    (reason : Text) (now : ℕ) where
  abbrev pub over : Broker
  over = end_lease b p reason now

  pub over-core : core over ≡ record (core b) { leases = delete b.leases s0 }
  unfolding end_lease
  over-core = core-hist _ _ _ _ ∙ rw (v.held s0 p h).1 refl

  pub over-ValidBut : ValidBut (only s0) (core over)
  over-ValidBut = subst (ValidBut (only s0)) (sym over-core) (delete_lease-Valid v s0)

  pub over_free : get over.leases s0 ≡ none
  over_free =
      ap (λ (c : Core). get c.leases s0) over-core
      ∙ get-delete b.leases s0 s0
      ∙ rw (text_eq_refl s0)

  pub over_cleaning : cleaning_at over s0 ≡ cleaning_at b s0
  over_cleaning = ap (λ (c : Core). is_cleaning c s0) over-core

  over-IsHeld : IsHeld (core over) s0 p
  over-IsHeld = subst (λ (c : Core). IsHeld c s0 p) (sym over-core) (v.held s0 p h)

  pub not_cleaning : cleaning_at b s0 ≡ false
  not_cleaning = elim (Bool-cases (cleaning_at b s0)) [ inl e ↦ cc (v.cleaned s0 e) | inr e ↦ e ]

  pub expire-Valid : IsValid (expire b p reason now)
  unfolding expire
  expire-Valid =
      subst Valid (sym (core-save_state _)) (elim (Bool-cases (wants_cleanup b (b.lease_heap p))) [
        | inl e ↦
            rw (e, (v.held s0 p h).1)
              (start_cleaning-Valid s0 p over-ValidBut over_free (over_cleaning ∙ not_cleaning)
                over-IsHeld.0 over-IsHeld.1)
        | inr e ↦
            rw (e, (v.held s0 p h).1)
              (grant_next-Valid over s0 now over-ValidBut over_free (over_cleaning ∙ not_cleaning))
      ])
