-- ===== src/Broker/Expiry.antt =====
-- What expireLocked does to the device of a lease that ends, on each of its branches.
use adb_harbor.Prelude.{
  ℕ, ◌≡◌, refl, sym, ap, subst, ◌∙◌, inl, inr, Bool, true, false, not, none, some, List, [], ◌∷◌,
  arith, Bool-cases, mem, ==_refl, keep,
}
use adb_harbor.Text.{Text, text_eq}
use adb_harbor.Text.Laws.{text_eq_refl}
use adb_harbor.Map.{get, put, delete}
use adb_harbor.Map.Laws.{get-put, get-delete}
use adb_harbor.Broker.{Broker, queue, cleaning_at, run_cleanup, or_nil}
use adb_harbor.Broker.Release.{
  expire, end_lease, wants_cleanup, grant_next, alive, drop_stale, is_stale,
}
use adb_harbor.Broker.Handoff.{IsHandedOn, grant_next-IsHandedOn}
use adb_harbor.Broker.Run.{Reachable}
use adb_harbor.Broker.Valid.{Core, core, line, is_cleaning, IsValid}
use adb_harbor.Broker.Valid.Next.{
  core-save_state, after_drop, over-core, over-ValidBut, over_free, over_cleaning, not_cleaning,
}
use adb_harbor.Broker.Valid.Reached.{Reachable-Valid}

-- The waiters that still poll, in order.
abbrev pub polling : Core → ℕ → Text → List ℕ
polling c now s = keep (λ w. not (is_stale now (c.waiter_heap w))) (line c s)

-- The leases and the lines of the devices other than `s`.
abbrev pub AreKept : Text → Core → Core → Type 0
AreKept s b c =
    (t : Text) → text_eq s t ≡ false → (get c.leases t ≡ get b.leases t) × (line c t ≡ line b t)

pub record IsCleaned (s : Text) (p : ℕ) (b c : Core) : Type 0 where
  pub free : get c.leases s ≡ none
  pub cleaning : is_cleaning c s ≡ true
  pub job : mem p c.cleanups ≡ true
  pub line_of : line c s ≡ line b s
  pub elsewhere : AreKept s b c

pub record IsFree (s : Text) (b c : Core) : Type 0 where
  pub free : get c.leases s ≡ none
  pub idle : is_cleaning c s ≡ false
  pub line_of : line c s ≡ []
  pub elsewhere : AreKept s b c

pub data ExpireSpec (s : Text) (p now : ℕ) (wants : Bool) (b c : Core) : Type 0 where
  cleans : wants ≡ true → IsCleaned s p b c → ExpireSpec s p now wants b c
  hands_on :
      (head : ℕ) (rest : List ℕ)
      → wants ≡ false
      → polling b now s ≡ head ∷ rest
      → IsHandedOn s head rest b c
      → ExpireSpec s p now wants b c
  frees : wants ≡ false → polling b now s ≡ [] → IsFree s b c → ExpireSpec s p now wants b c

module _ (b : Broker) (v : IsValid b) (s : Text) (p : ℕ) (h : get b.leases s ≡ some p)
    (reason : Text) (now : ℕ) where
  abbrev ended : Broker
  ended = end_lease b p reason now

  ended-core : core ended ≡ record (core b) { leases = delete b.leases s }
  ended-core = over-core b v s p h reason now

  free_then : get ended.leases s ≡ none
  free_then = over_free b v s p h reason now

  clean_then : cleaning_at ended s ≡ false
  clean_then = over_cleaning b v s p h reason now ∙ not_cleaning b v s p h reason now

  alive_then : alive ended now (queue ended s) ≡ polling (core b) now s
  unfolding alive
  alive_then = ap (λ (c : Core). polling c now s) ended-core

  elsewhere_leases : (t : Text) → text_eq s t ≡ false → get ended.leases t ≡ get b.leases t
  elsewhere_leases t n =
      ap (λ (c : Core). get c.leases t) ended-core ∙ get-delete b.leases s t ∙ rw n refl

  cleans-IsCleaned : IsCleaned s p (core b) (
      core (record ended {
        cleaning = put ended.cleaning s true;
        tasks = run_cleanup p ∷ ended.tasks;
      }))
  cleans-IsCleaned = record {
    free = free_then;
    cleaning = ground (arith, get-put ended.cleaning s s true, text_eq_refl s);
    job = ground (arith, ==_refl p);
    line_of = ap (λ (c : Core). line c s) ended-core;
    elsewhere = λ t n. (elsewhere_leases t n, ap (λ (c : Core). line c t) ended-core);
  }

  hands_on-IsHandedOn :
      (head : ℕ) (rest : List ℕ)
      → polling (core b) now s ≡ head ∷ rest
      → IsHandedOn s head rest (core b) (core (grant_next ended s now))
  hands_on-IsHandedOn head rest e =
      let x : IsHandedOn s head rest (record (core b) { leases = delete b.leases s })
          (core (grant_next ended s now)) =
        subst (λ (c : Core). IsHandedOn s head rest c (core (grant_next ended s now))) ended-core
          (grant_next-IsHandedOn ended s now (over-ValidBut b v s p h reason now) free_then
            clean_then head rest (alive_then ∙ e)) in
      record {
        lease = x.lease;
        session = x.session;
        unclaimed = x.unclaimed;
        running = x.running;
        line_of = x.line_of;
        granted = x.granted;
        elsewhere =
            λ t n. ((x.elsewhere t n).0 ∙ get-delete b.leases s t ∙ rw n, (x.elsewhere t n).1);
      }

  frees-IsFree : polling (core b) now s ≡ [] → IsFree s (core b) (core (grant_next ended s now))
  unfolding grant_next
  frees-IsFree e =
      let facts =
        after_drop ended s now (over-ValidBut b v s p h reason now) free_then clean_then in
      rw (alive_then ∙ e, grant_next)
        (record {
          free = rw facts.frame.leases free_then;
          idle = rw facts.frame.cleaning clean_then;
          line_of =
              ground (
                arith,
                get-delete (drop_stale ended now (queue ended s)).queues s s,
                text_eq_refl s,
              );
          elsewhere = λ t n. (
            ap (λ m. get m t) facts.frame.leases ∙ elsewhere_leases t n,
            ground (
              arith,
              get-delete (drop_stale ended now (queue ended s)).queues s t,
              ap (λ m. or_nil (get m t)) facts.frame.queues,
              ap (λ (c : Core). line c t) ended-core,
            ),
          );
        })

  pub expire_cases :
      ExpireSpec s p now (wants_cleanup b (b.lease_heap p)) (core b) (core (expire b p reason now))
  unfolding expire
  expire_cases =
      subst (ExpireSpec s p now (wants_cleanup b (b.lease_heap p)) (core b))
        (sym (core-save_state _))
        (elim (Bool-cases (wants_cleanup b (b.lease_heap p))) [
          | inl e ↦ rw (e, (v.held s p h).1) (cleans refl cleans-IsCleaned)
          | inr e ↦ rw (e, (v.held s p h).1) (split (polling (core b) now s) refl)
        ])
    where
      split :
          (q : List ℕ)
          → polling (core b) now s ≡ q
          → ExpireSpec s p now false (core b) (core (grant_next ended s now))
      split [] e = frees refl e (frees-IsFree e)
      split (head ∷ rest) e = hands_on head rest refl e (hands_on-IsHandedOn head rest e)

-- In every state that the daemon comes to, a lease on `s` that ends leaves the device in one of three
-- ways. Cleanup is enabled and the lease has a baseline: the device is cleaned, and its line stays.
-- Otherwise somebody in line still polls: the first of those gets the device under a new lease, which
-- all who wait with the same session share and which counts their commands, the others stay in line in
-- their order. Otherwise the device is free and nobody is in line. Other devices keep their leases and
-- their lines.
pub expire-ExpireSpec :
    {b : Broker}
    → Reachable b
    → (s : Text) (p : ℕ) → get b.leases s ≡ some p
    → (reason : Text) (now : ℕ)
    → ExpireSpec s p now (wants_cleanup b (b.lease_heap p)) (core b) (core (expire b p reason now))
expire-ExpireSpec {b} r s p h reason now = expire_cases b (Reachable-Valid r) s p h reason now
