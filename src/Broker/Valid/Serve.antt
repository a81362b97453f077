-- ===== src/Broker/Valid/Serve.antt =====
-- grantNextLocked keeps the invariant: the device of a lease or a cleanup that has ended goes to the
-- head of its line, or is free with nobody in line.
use adb_harbor.Prelude.{
  ℕ, suc, ◌≡◌, ◌∙◌, inl, inr, true, false, not, ◌&&◌, some, List, [], ◌∷◌, arith, ◌==◌,
  if◌then◌else◌, mem, NoDup, Bool-cases,
}
use adb_harbor.Text.{Text, text_eq}
use adb_harbor.Text.Laws.{text_eq_iff}
use adb_harbor.Map.{get, put}
use adb_harbor.Map.Laws.{get-put, get-delete, put-Distinct}
use adb_harbor.Broker.{Broker, Lease, queue, hist}
use adb_harbor.Broker.Grant.{capture_if_enabled}
use adb_harbor.Broker.Release.{set_queue}
use adb_harbor.Broker.Valid.{Core, core, line, is_cleaning, ValidBut, Valid, IsQueued}
use adb_harbor.Broker.Valid.Cleaning.{only}

pub core-hist : (b : Broker) (e : Text) (l : Lease) (n : Text) → core (hist b e l n) ≡ core b
unfolding hist
core-hist b e l n = elim (Bool-cases b.disk_ok) [ inl h ↦ rw h | inr h ↦ rw h ]

pub core-capture_if_enabled : (b : Broker) (id s : Text) → core (capture_if_enabled b id s) ≡ core b
core-capture_if_enabled b id s = elim (Bool-cases b.cfg.cleanup_enabled) [
  | inl h ↦ rw h
  | inr h ↦ rw h
]

pub queue-set_queue :
    (b : Broker) (s : Text) (ws : List ℕ) (t : Text)
    → queue (set_queue b s ws) t ≡ (if text_eq s t then ws else queue b t)
queue-set_queue b s [] t = ground (arith, get-delete b.queues s t)
queue-set_queue b s (w ∷ ws) t = ground (arith, get-put b.queues s t (w ∷ ws))

-- What changes at most when a line is served: the waiters of `line b s0` that are not kept.
pub record IsServed (s0 : Text) (kept : List ℕ) (b c : Core) : Type 0 where
  pub next_waiter : c.next_waiter ≡ b.next_waiter
  pub cleaning : c.cleaning ≡ b.cleaning
  pub panicked : c.panicked ≡ b.panicked
  pub cleanups : c.cleanups ≡ b.cleanups
  pub line_of : (s : Text) → line c s ≡ (if text_eq s0 s then kept else line b s)
  pub waiter :
      (w : ℕ) → (mem w (line b s0) && not (mem w kept)) ≡ false → c.waiter_heap w ≡ b.waiter_heap w
  pub kept_mem : (w : ℕ) → mem w kept ≡ true → mem w (line b s0) ≡ true
  pub kept_once : NoDup kept

module _ {b c : Core} {s0 : Text} {kept : List ℕ} (v : ValidBut (only s0) b)
    (f : IsServed s0 kept b c) where
  -- Who is still in line was in line, and is untouched.
  still :
      (s : Text) (w : ℕ)
      → mem w (line c s) ≡ true
      → (mem w (line b s) ≡ true) × (c.waiter_heap w ≡ b.waiter_heap w)
  still s w m = elim (Bool-cases (text_eq s0 s)) [
    | inl e ↦ ground (arith, f.line_of s, f.waiter w, f.kept_mem w, text_eq_iff s0 s)
    | inr e ↦ ground (arith, f.line_of s, f.waiter w, v.queued s w, v.queued s0 w, text_eq_iff s0 s)
  ]

  still-IsQueued : (s : Text) (w : ℕ) → mem w (line c s) ≡ true → IsQueued c s w
  still-IsQueued s w m = ground (arith, still s w m, v.queued s w, f.next_waiter)

  still-NoDup : (s : Text) → NoDup (line c s)
  still-NoDup s = ground (arith, f.line_of s, v.no_dup s, f.kept_once)

-- Nobody is left in line.
pub served_nobody :
    {b c : Core} (s0 : Text) (v : ValidBut (only s0) b)
    → IsServed s0 [] b c
    → c.leases ≡ b.leases
    → c.lease_heap ≡ b.lease_heap
    → c.next_lease ≡ b.next_lease
    → Valid c
served_nobody {b} {c} s0 v f el eh en = record {
  held = λ s p h. ground (arith, v.held s p);
  queued = still-IsQueued v f;
  no_dup = still-NoDup v f;
  cleaned = λ s h. ground (arith, v.cleaned s, f.cleaning);
  served = λ s _ h k. ground (arith, f.line_of s, v.served s, f.cleaning);
  others = λ s p w h m. ground (arith, still v f s w m, v.others s p w);
  distinct = rw el v.distinct;
  calm = f.panicked ∙ v.calm;
  job = λ p m. ground (arith, v.job p, f.cleanups, f.cleaning);
  job_once = rw f.cleanups v.job_once;
  jobs_apart = λ p q m n e. ground (arith, v.jobs_apart p q, f.cleanups);
  job_of = λ s k.
      let (p, m, e) = v.job_of s (ground (arith, f.cleaning)) in
      (p, ground (arith, f.cleanups), ground arith);
}

-- A new lease is there, and those left in line are of other sessions.
pub served_somebody :
    {b c : Core} {kept : List ℕ} (s0 : Text) (l : Lease) (v : ValidBut (only s0) b)
    → IsServed s0 kept b c
    → is_cleaning b s0 ≡ false
    → c.leases ≡ put b.leases s0 b.next_lease
    → c.next_lease ≡ suc b.next_lease
    → ((p : ℕ) → c.lease_heap p ≡ (if b.next_lease == p then l else b.lease_heap p))
    → l.serial ≡ s0
    → ((w : ℕ) → mem w kept ≡ true → text_eq (b.waiter_heap w).session l.session ≡ false)
    → Valid c
served_somebody {b} {c} s0 l v f clean el en eh es eo = record {
  held = λ s p h. ground (arith, v.held s p, eh p, reads s, text_eq_iff s0 s);
  queued = still-IsQueued v f;
  no_dup = still-NoDup v f;
  cleaned = λ s h. ground (arith, v.cleaned s, f.cleaning, reads s, text_eq_iff s0 s);
  served = λ s _ h k. ground (arith, f.line_of s, v.served s, f.cleaning, reads s);
  others = λ s p w h m.
      ground (arith, still v f s w m, v.others s p w, v.held s p, f.line_of s, eo w, eh p, reads s);
  distinct = rw el (put-Distinct b.leases s0 b.next_lease v.distinct);
  calm = f.panicked ∙ v.calm;
  job = λ p m. ground (arith, v.job p, f.cleanups, f.cleaning, eh p);
  job_once = rw f.cleanups v.job_once;
  jobs_apart =
      λ p q m n e. ground (arith, v.jobs_apart p q, v.job p, v.job q, f.cleanups, eh p, eh q);
  job_of = λ s k.
      let (p, m, e) = v.job_of s (ground (arith, f.cleaning)) in
      (p, ground (arith, f.cleanups), ground (arith, v.job p, eh p));
}
  where
    reads :
        (s : Text) → get c.leases s ≡ (if text_eq s0 s then some b.next_lease else get b.leases s)
    reads s = rw el (get-put b.leases s0 s b.next_lease)
