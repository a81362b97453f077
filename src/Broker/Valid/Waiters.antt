-- ===== src/Broker/Valid/Waiters.antt =====
-- The sections of a waiting client, handleAcquireAny and the end of a cleanup: the invariant.
use adb_harbor.Prelude.{
  ℕ, ◌≡◌, refl, sym, subst, inl, inr, true, Option, none, some, List, [], ◌∷◌, arith, Bool-cases,
  Option-cases, if◌then◌else◌, mem, NoDup, remove, mem-remove_le, NoDup-remove,
}
use adb_harbor.Text.{Text, text_eq}
use adb_harbor.Text.Laws.{text_eq_iff, text_eq_refl}
use adb_harbor.Map.{Map, get, put, delete}
use adb_harbor.Map.Laws.{get-delete}
use adb_harbor.Broker.{Broker, queue, or_nil, Task, capture_baseline, run_cleanup}
use adb_harbor.Broker.Release.{set_queue}
use adb_harbor.Broker.Waiting.{
  poll, claim, unregister, pick_up, wait_start, wait_woken, wait_timed_out, drop_waiter, holds,
}
use adb_harbor.Broker.Reaper.{cleanup_done, end_cleanup}
use adb_harbor.Broker.Valid.{Core, core, line, cleanups_of, ValidBut, Valid, IsValid}
use adb_harbor.Broker.Valid.Heaps.{set_lease-Valid, set_waiter-Valid}
use adb_harbor.Broker.Valid.Cleaning.{stop_cleaning-Valid, only}
use adb_harbor.Broker.Valid.Serve.{queue-set_queue}
use adb_harbor.Broker.Valid.Next.{core-save_state, grant_next-Valid, expire-Valid}

pub poll-Valid : (b : Broker) (w now : ℕ) → IsValid b → IsValid (poll b w now)
unfolding poll
poll-Valid b w now v =
    set_waiter-Valid v w (record (b.waiter_heap w) { last_poll = now }) refl refl refl refl

claim-Valid : (b : Broker) (p : ℕ) → IsValid b → IsValid (claim b p)
unfolding claim
claim-Valid b p v = set_lease-Valid v p (record (b.lease_heap p) { claimed = true }) refl refl

pub pick_up-Valid : (b : Broker) (w : ℕ) → IsValid b → IsValid (pick_up b w).1
unfolding pick_up unregister
pick_up-Valid b w v = elim (Option-cases (b.waiter_heap w).lease) [
  | inl e ↦ rw (e, pick_up) v
  | inr (p, e) ↦ rw (e, pick_up) (claim-Valid b p v)
]

pub wait_woken-Valid : (b : Broker) (w : ℕ) → IsValid b → IsValid (wait_woken b w).1
unfolding wait_woken
wait_woken-Valid b w v = pick_up-Valid b w v

pub wait_start-Valid :
    (b : Broker) (id : Text) (now : ℕ) → IsValid b → IsValid (wait_start b id now).1
unfolding wait_start
wait_start-Valid b id now v = elim (Option-cases (get b.waiters id)) [
  | inl e ↦ rw (e, wait_start) v
  | inr (w, e) ↦ elim (Option-cases ((poll b w now).waiter_heap w).lease) [
    | inl k ↦ rw (e, k, wait_start) (poll-Valid b w now v)
    | inr (p, k) ↦ rw (e, k, wait_start) (pick_up-Valid (poll b w now) w (poll-Valid b w now v))
  ]
]

pub wait_timed_out-Valid : (b : Broker) (w now : ℕ) → IsValid b → IsValid (wait_timed_out b w now).1
unfolding wait_timed_out
wait_timed_out-Valid b w now v = poll-Valid b w now v

-- A line gets shorter.
shorter-Valid :
    (c : Core) (s0 : Text) (kept : List ℕ) (qs : Map (List ℕ))
    → Valid c
    → ((s : Text) → or_nil (get qs s) ≡ (if text_eq s0 s then kept else line c s))
    → ((w : ℕ) → mem w kept ≡ true → mem w (line c s0) ≡ true)
    → (line c s0 ≡ [] → kept ≡ [])
    → NoDup kept
    → Valid (record c { queues = qs })
shorter-Valid c s0 kept qs v reads inside none_left once = record {
  held = v.held;
  queued =
      λ s w m. ground (arith, reads s, inside w, v.queued s w, v.queued s0 w, text_eq_iff s0 s);
  no_dup = λ s. ground (arith, reads s, v.no_dup s, once);
  cleaned = v.cleaned;
  served = λ s _ h k. ground (arith, reads s, v.served s refl h k, none_left, text_eq_iff s0 s);
  others = λ s p w h m. ground (arith, reads s, inside w, v.others s p w h, text_eq_iff s0 s);
  distinct = v.distinct;
  calm = v.calm;
  job = v.job;
  job_once = v.job_once;
  jobs_apart = v.jobs_apart;
  job_of = v.job_of;
}

remove-nil : (w : ℕ) (q : List ℕ) → q ≡ [] → remove w q ≡ []
remove-nil w q e = rw e (unfold remove in refl)

-- A waiter leaves its line.
pub leave_line-Valid :
    (b : Broker) (s0 : Text) (w : ℕ) → IsValid b → IsValid (set_queue b s0 (remove w (queue b s0)))
leave_line-Valid b s0 w v = go (remove w (queue b s0)) refl
  where
    shorter :
        (qs : Map (List ℕ))
        → ((s : Text)
            → or_nil (get qs s) ≡ (if text_eq s0 s then remove w (queue b s0) else queue b s))
        → IsValid (record b { queues = qs })
    shorter qs reads =
        shorter-Valid (core b) s0 (remove w (queue b s0)) qs v reads
          (λ x m. mem-remove_le w x (queue b s0) m) (remove-nil w (queue b s0))
          (NoDup-remove w (queue b s0) (v.no_dup s0))

    go : (ws : List ℕ) → remove w (queue b s0) ≡ ws → IsValid (set_queue b s0 ws)
    go [] e = shorter (delete b.queues s0) (λ s. rw e (queue-set_queue b s0 [] s))
    go (x ∷ ws) e = shorter (put b.queues s0 (x ∷ ws)) (λ s. rw e (queue-set_queue b s0 (x ∷ ws) s))

pub holds-get : (o : Option ℕ) (p : ℕ) → holds o p ≡ true → o ≡ some p
holds-get none p h = cc
holds-get (some q) p h = ground arith

-- A client that gives up leaves its line; if it was granted the device meanwhile, the device goes on.
pub drop_waiter-Valid : (b : Broker) (w now : ℕ) → IsValid b → IsValid (drop_waiter b w now)
unfolding drop_waiter
drop_waiter-Valid b w now v = elim (Option-cases (b.waiter_heap w).lease) [
  | inl e ↦ rw (e, drop_waiter) v2
  | inr (p, e) ↦ elim (Bool-cases (holds (get b2.leases s0) p)) [
    | inl h ↦
        rw (e, h, drop_waiter) (expire-Valid b2 v2 s0 p (holds-get (get b2.leases s0) p h) _ now)
    | inr h ↦ rw (e, h, drop_waiter) v2
  ]
]
  where
    s0 : Text
    s0 = (b.waiter_heap w).serial

    b1 : Broker
    b1 = unregister b w

    b2 : Broker
    b2 = set_queue b1 s0 (remove w (queue b1 s0))

    v2 : IsValid b2
    v2 = leave_line-Valid b1 s0 w (unfold unregister in v)

cleanups-end_cleanup :
    (p : ℕ) (ts : List Task) → cleanups_of (end_cleanup p ts) ≡ remove p (cleanups_of ts)
unfolding end_cleanup remove
cleanups-end_cleanup p [] = refl
cleanups-end_cleanup p (capture_baseline id s ∷ ts) = cleanups-end_cleanup p ts
cleanups-end_cleanup p (run_cleanup q ∷ ts) = ground (arith, cleanups-end_cleanup p ts)

-- A cleanup that is under way ends, and its device goes on.
pub cleanup_done-Valid :
    (b : Broker) (p now : ℕ)
    → IsValid b
    → mem p (cleanups_of b.tasks) ≡ true
    → IsValid (cleanup_done b p now)
unfolding cleanup_done
cleanup_done-Valid b p now v here = subst Valid (sym (core-save_state _)) (
    grant_next-Valid b1 s0 now
      (subst
        (λ js.
          ValidBut (only s0) (record (core b) { cleaning = delete b.cleaning s0; cleanups = js }))
        (sym (cleanups-end_cleanup p b.tasks)) (stop_cleaning-Valid v p here))
      (v.cleaned s0 (v.job p here).1) (rw (get-delete b.cleaning s0 s0, text_eq_refl s0)))
  where
    s0 : Text
    s0 = (b.lease_heap p).serial

    b1 : Broker
    b1 = record b { cleaning = delete b.cleaning s0; tasks = end_cleanup p b.tasks }
