-- ===== src/Broker/Valid/Cleaning.antt =====
-- A lease that ends, and a cleanup that starts and ends: the invariant.
use adb_harbor.Prelude.{
  ℕ, ◌<◌, ◌≡◌, refl, ap, inl, inr, Bool, true, false, none, some, ◌∷◌, arith, if◌then◌else◌, mem,
  Bool-cases, ==_iff, ==_refl, remove, mem-remove, mem-remove_le, NoDup-remove,
}
use adb_harbor.Text.{Text, text_eq}
use adb_harbor.Text.Laws.{text_eq_iff}
use adb_harbor.Map.{get, put, delete}
use adb_harbor.Map.Laws.{get-put, get-delete, delete-Distinct}
use adb_harbor.Broker.Valid.{Core, is_cleaning, ValidBut, Valid}

-- The device alone, for the exception to `served`.
abbrev pub only : Text → Text → Bool
only s0 s = text_eq s0 s

-- A lease leaves the map: its device is free, and may have a line.
pub delete_lease-Valid :
    {c : Core} (v : Valid c) (s0 : Text)
    → ValidBut (only s0) (record c { leases = delete c.leases s0 })
delete_lease-Valid {c} v s0 = record {
  held = λ s p h. ground (arith, v.held s p, get-delete c.leases s0 s);
  queued = v.queued;
  no_dup = v.no_dup;
  cleaned = λ s h. ground (arith, v.cleaned s h, get-delete c.leases s0 s);
  served = λ s f h k. ground (arith, v.served s refl, get-delete c.leases s0 s);
  others = λ s p w h m. ground (arith, v.others s p w, get-delete c.leases s0 s);
  distinct = delete-Distinct c.leases s0 v.distinct;
  calm = v.calm;
  job = v.job;
  job_once = v.job_once;
  jobs_apart = v.jobs_apart;
  job_of = v.job_of;
}

-- A free device is taken for cleanup, which a goroutine starts for the lease at `p`.
pub start_cleaning-Valid :
    {c : Core} (s0 : Text) (p : ℕ) (v : ValidBut (only s0) c)
    → get c.leases s0 ≡ none
    → is_cleaning c s0 ≡ false
    → p < c.next_lease
    → (c.lease_heap p).serial ≡ s0
    → Valid (record c { cleaning = put c.cleaning s0 true; cleanups = p ∷ c.cleanups })
start_cleaning-Valid {c} s0 p v free clean lt es = record {
  held = v.held;
  queued = v.queued;
  no_dup = v.no_dup;
  cleaned = λ s h. ground (arith, v.cleaned s, reads s, text_eq_iff s0 s, free);
  served = λ s _ h k. ground (arith, v.served s, reads s, text_eq_iff s0 s);
  others = v.others;
  distinct = v.distinct;
  calm = v.calm;
  job = λ q m. ground (
    arith,
    v.job q,
    reads (c.lease_heap q).serial,
    ==_iff p q,
    text_eq_iff s0 (c.lease_heap q).serial,
  );
  job_once = (ground (arith, v.job p, Bool-cases (mem p c.cleanups)), v.job_once);
  jobs_apart =
      λ q r m n e. ground (arith, v.jobs_apart q r, v.job q, v.job r, ==_iff p q, ==_iff p r);
  job_of = λ s k. elim (Bool-cases (text_eq s0 s)) [
    | inl e ↦ (p, ground (arith, ==_refl p), ground (arith, text_eq_iff s0 s))
    | inr e ↦ let (q, m, h) = v.job_of s (ground (arith, reads s)) in (q, ground arith, h)
  ];
}
  where
    reads :
        (s : Text)
        → get (put c.cleaning s0 true) s ≡ (if text_eq s0 s then some true else get c.cleaning s)
    reads s = get-put c.cleaning s0 s true

-- The cleanup for the lease at `p` ends: the device is free, and may have a line.
pub stop_cleaning-Valid :
    {c : Core} (v : Valid c) (p : ℕ)
    → mem p c.cleanups ≡ true
    → ValidBut (only (c.lease_heap p).serial) (record c {
      cleaning = delete c.cleaning (c.lease_heap p).serial;
      cleanups = remove p c.cleanups;
    })
stop_cleaning-Valid {c} v p here = record {
  held = v.held;
  queued = v.queued;
  no_dup = v.no_dup;
  cleaned = λ s h. ground (arith, v.cleaned s, reads s);
  served = λ s f h k. ground (arith, v.served s refl h, reads s);
  others = v.others;
  distinct = v.distinct;
  calm = v.calm;
  job = λ q m. ground (
    arith,
    mem-remove p q c.cleanups v.job_once,
    v.job q,
    v.jobs_apart p q here,
    reads (c.lease_heap q).serial,
    ==_iff q p,
    text_eq_iff s0 (c.lease_heap q).serial,
  );
  job_once = NoDup-remove p c.cleanups v.job_once;
  jobs_apart = λ q r m n e.
      v.jobs_apart q r (mem-remove_le p q c.cleanups m) (mem-remove_le p r c.cleanups n) e;
  job_of = λ s k.
      let (q, m, h) = v.job_of s (ground (arith, reads s)) in
      (
        q,
        ground (
          arith,
          mem-remove p q c.cleanups v.job_once,
          reads s,
          ==_iff q p,
          text_eq_iff s0 s,
          ap (λ x. (c.lease_heap x).serial),
        ),
        h,
      );
}
  where
    s0 : Text
    s0 = (c.lease_heap p).serial

    reads :
        (s : Text)
        → get (delete c.cleaning s0) s ≡ (if text_eq s0 s then none else get c.cleaning s)
    reads s = get-delete c.cleaning s0 s
