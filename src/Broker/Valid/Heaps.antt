-- ===== src/Broker/Valid/Heaps.antt =====
-- The invariant under the writes that the operations are made of.
use adb_harbor.Prelude.{
  ℕ, suc, ◌≡◌, refl, ◌⊎◌, Bool, true, false, none, some, [], ◌∷◌, ◌++◌, arith, if◌then◌else◌, mem,
  mem-append, NoDup-snoc, Bool-cases, sym, ◌∙◌,
}
use adb_harbor.Text.{Text, text_eq}
use adb_harbor.Text.Laws.{text_eq_iff, text_eq_sym}
use adb_harbor.Map.{get, put}
use adb_harbor.Map.Laws.{get-put, put-Distinct}
use adb_harbor.Broker.{Lease, Waiter, update}
use adb_harbor.Broker.Valid.{Core, line, is_cleaning, ValidBut, Valid}

module _ {vacant : Text → Bool} {c : Core} (v : ValidBut vacant c) where
  -- A write to a lease that keeps its serial and session.
  pub set_lease-Valid :
      (p : ℕ) (l : Lease)
      → l.serial ≡ (c.lease_heap p).serial
      → l.session ≡ (c.lease_heap p).session
      → ValidBut vacant (record c { lease_heap = update c.lease_heap p l })
  set_lease-Valid p l es ex = record {
    held = λ s q h. ground (arith, v.held s q h);
    queued = v.queued;
    no_dup = v.no_dup;
    cleaned = v.cleaned;
    served = v.served;
    others = λ s q w h m. ground (arith, v.others s q w h m);
    distinct = v.distinct;
    calm = v.calm;
    job = λ q m. ground (arith, v.job q m);
    job_once = v.job_once;
    jobs_apart = λ q r m n e. v.jobs_apart q r m n (keeps q ∙ e ∙ sym (keeps r));
    job_of = λ s k. let (q, m, e) = v.job_of s k in (q, m, sym (keeps q) ∙ e);
  }
    where
      keeps : (q : ℕ) → (c.lease_heap q).serial ≡ (update c.lease_heap p l q).serial
      keeps q = ground arith

  -- A write to a waiter that keeps what the protocol reads.
  pub set_waiter-Valid :
      (x : ℕ) (wt : Waiter)
      → wt.serial ≡ (c.waiter_heap x).serial
      → wt.session ≡ (c.waiter_heap x).session
      → wt.lease ≡ (c.waiter_heap x).lease
      → wt.closed ≡ (c.waiter_heap x).closed
      → ValidBut vacant (record c { waiter_heap = update c.waiter_heap x wt })
  set_waiter-Valid x wt es ex el ec = record {
    held = v.held;
    queued = λ s w m. ground (arith, v.queued s w m);
    no_dup = v.no_dup;
    cleaned = v.cleaned;
    served = v.served;
    others = λ s p w h m. ground (arith, v.others s p w h m);
    distinct = v.distinct;
    calm = v.calm;
    job = v.job;
    job_once = v.job_once;
    jobs_apart = v.jobs_apart;
    job_of = v.job_of;
  }

-- A new lease on a device that is free.
pub add_lease-Valid :
    {c : Core} (v : Valid c) (s0 : Text) (l : Lease)
    → get c.leases s0 ≡ none
    → is_cleaning c s0 ≡ false
    → l.serial ≡ s0
    → Valid (record c {
      lease_heap = update c.lease_heap c.next_lease l;
      next_lease = suc c.next_lease;
      leases = put c.leases s0 c.next_lease;
    })
add_lease-Valid {c} v s0 l free clean es = record {
  held = λ s p h. ground (arith, v.held s p, get-put c.leases s0 s c.next_lease, text_eq_iff s0 s);
  queued = v.queued;
  no_dup = v.no_dup;
  cleaned =
      λ s h. ground (arith, v.cleaned s h, get-put c.leases s0 s c.next_lease, text_eq_iff s0 s);
  served = λ s _ h k. ground (arith, v.served s refl, get-put c.leases s0 s c.next_lease);
  others = λ s p w h m. ground (
    arith,
    v.served s0 refl free clean,
    v.held s p,
    v.others s p w,
    get-put c.leases s0 s c.next_lease,
    text_eq_iff s0 s,
  );
  distinct = put-Distinct c.leases s0 c.next_lease v.distinct;
  calm = v.calm;
  job = λ p m. ground (arith, v.job p m);
  job_once = v.job_once;
  jobs_apart = λ p q m n e. ground (arith, v.jobs_apart p q m n, v.job p m, v.job q n);
  job_of = λ s k. let (p, m, e) = v.job_of s k in (p, m, ground (arith, v.job p m));
}

-- A new waiter at the end of a line, for a device that is in cleanup or held by another session.
pub add_waiter-Valid :
    {c : Core} (v : Valid c) (s0 : Text) (wt : Waiter)
    → (is_cleaning c s0 ≡ true)
      ⊎ ((p : ℕ) × (get c.leases s0 ≡ some p)
          × (text_eq (c.lease_heap p).session wt.session ≡ false))
    → wt.serial ≡ s0
    → wt.lease ≡ none
    → wt.closed ≡ false
    → Valid (record c {
      waiter_heap = update c.waiter_heap c.next_waiter wt;
      next_waiter = suc c.next_waiter;
      queues = put c.queues s0 (line c s0 ++ c.next_waiter ∷ []);
    })
add_waiter-Valid {c} v s0 wt busy es el ec = record {
  held = v.held;
  queued = λ s w m. ground (
    arith,
    v.queued s w,
    v.queued s0 w,
    reads s,
    mem-append w (line c s0) (c.next_waiter ∷ []),
    text_eq_iff s0 s,
  );
  no_dup = λ s. ground (
    arith,
    v.no_dup s,
    v.no_dup s0,
    v.queued s0 c.next_waiter,
    reads s,
    NoDup-snoc c.next_waiter (line c s0),
    Bool-cases (mem c.next_waiter (line c s0)),
  );
  cleaned = v.cleaned;
  served =
      λ s _ h k. ground (arith, v.served s refl h k, v.cleaned s0, reads s, text_eq_iff s0 s, busy);
  others = λ s p w h m. ground (
    arith,
    v.others s p w h,
    v.queued s w,
    v.cleaned s0,
    reads s,
    mem-append w (line c s0) (c.next_waiter ∷ []),
    text_eq_iff s0 s,
    text_eq_sym wt.session (c.lease_heap p).session,
    busy,
  );
  distinct = v.distinct;
  calm = v.calm;
  job = v.job;
  job_once = v.job_once;
  jobs_apart = v.jobs_apart;
  job_of = v.job_of;
}
  where
    reads :
        (s : Text)
        → get (put c.queues s0 (line c s0 ++ c.next_waiter ∷ [])) s
          ≡ (if text_eq s0 s then some (line c s0 ++ c.next_waiter ∷ []) else get c.queues s)
    reads s = get-put c.queues s0 s (line c s0 ++ c.next_waiter ∷ [])
