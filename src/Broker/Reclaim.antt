-- ===== src/Broker/Reclaim.antt =====
-- When the reaper takes a lease away, and when it leaves one alone.
use adb_harbor.Prelude.{
  ℕ, ◌+◌, ◌≤◌, ◌<◌, ◌≡◌, ◌≢◌, refl, ap, ◌∙◌, ◌⊎◌, inl, inr, true, false, Option, none, some, leb,
  ◌==◌, [], ◌∷◌, arith, Bool-cases, if◌then◌else◌, ==_refl,
}
use adb_harbor.Text.{Text}
use adb_harbor.Map.{get}
use adb_harbor.Broker.{Broker, Lease, orphan_beat, unclaimed_grace}
use adb_harbor.Broker.Release.{expire}
use adb_harbor.Broker.Waiting.{store_lease, holds}
use adb_harbor.Broker.Reaper.{
  is_orphaned, orphan_reset, is_over, is_unclaimed, reap, visit, visits, gc_waiters, sweep,
}
use adb_harbor.Broker.Expiry.{cleans, hands_on, frees, expire_cases}
use adb_harbor.Broker.Run.{Reachable}
use adb_harbor.Broker.Valid.{IsValid}
use adb_harbor.Broker.Valid.Heaps.{set_lease-Valid}
use adb_harbor.Broker.Valid.Reached.{Reachable-Valid}

-- Signs of life that keep a lease: it has been claimed or was granted a short while ago; a command
-- runs and has beaten lately, or none runs and the time to live is not over.
pub record IsLively (l : Lease) (now : ℕ) : Type 0 where
  pub claimed : (l.claimed ≡ true) ⊎ (now ≤ l.acquired_at + unclaimed_grace)
  pub busy :
      ((0 < l.running) × (now ≤ l.last_beat + orphan_beat))
      ⊎ ((l.running ≡ 0)
          × (now ≤ (if l.explicit then l.expires_at else l.last_active + l.idle_ttl)))

-- A round of the reaper at a lively lease writes the lease back as it was, and changes nothing else.
-- Lively: it has been claimed or was granted no longer ago than the time of grace; and a command runs
-- with a heartbeat no older than the beat limit, or none runs and its time is not over.
pub reap_lively :
    (b : Broker) (p now then_ : ℕ)
    → IsLively (b.lease_heap p) now
    → reap b p now then_ ≡ store_lease b p (b.lease_heap p)
unfolding reap is_unclaimed orphan_reset is_orphaned is_over
reap_lively b p now then_ l = ground (arith, l.claimed, l.busy)

-- A lease whose time is over: it was not picked up, or no command runs and its time to live is over.
abbrev pub IsDue : Lease → ℕ → Type 0
IsDue l now =
    ((l.claimed ≡ false) × (l.acquired_at + unclaimed_grace < now))
    ⊎ ((l.running ≡ 0) × ((if l.explicit then l.expires_at else l.last_active + l.idle_ttl) < now))

-- A command that has stopped beating: nobody will report its end.
pub record IsOrphaned (l : Lease) (now : ℕ) : Type 0 where
  pub claimed : l.claimed ≡ true
  pub running : 0 < l.running
  pub silent : l.last_beat + orphan_beat < now

-- After expireLocked the lease is not in the map any more.
expire_removes :
    (b : Broker) (v : IsValid b) (s : Text) (p : ℕ) (h : get b.leases s ≡ some p) (reason : Text)
    (now : ℕ)
    → get (expire b p reason now).leases s ≢ some p
expire_removes b v s p h reason now k = elim (expire_cases b v s p h reason now) [
  | cleans w c ↦ cc (c.free)
  | hands_on head rest w e x ↦ ground (arith, x.lease, v.held s p h)
  | frees w e f ↦ cc (f.free)
]

reap-store :
    (b : Broker) (s : Text) (p now : ℕ)
    → IsValid b
    → IsValid (store_lease b p (orphan_reset (b.lease_heap p) now))
unfolding orphan_reset
reap-store b s p now v =
    set_lease-Valid v p (orphan_reset (b.lease_heap p) now) (ground arith) (ground arith)

reap_due :
    (b : Broker) (s : Text) (p now then_ : ℕ)
    → IsValid b
    → get b.leases s ≡ some p
    → IsDue (b.lease_heap p) now
    → get (reap b p now then_).leases s ≢ some p
unfolding reap
reap_due b s p now then_ v h due = elim (Bool-cases (is_unclaimed (b.lease_heap p) now)) [
  | inl u ↦ rw u (expire_removes b v s p h _ then_)
  | inr u ↦
      rw (u, over u)
        (expire_removes (store_lease b p (orphan_reset (b.lease_heap p) now))
          (reap-store b s p now v) s p h _ then_)
]
  where
    over :
        is_unclaimed (b.lease_heap p) now ≡ false
        → is_over (orphan_reset (b.lease_heap p) now) now ≡ true
    over u = unfold is_unclaimed is_over orphan_reset is_orphaned in ground (arith, due)

visit-held :
    (b : Broker) (s : Text) (p now then_ : ℕ)
    → get b.leases s ≡ some p
    → visit b now (s, then_) ≡ reap b p now then_
unfolding visit
visit-held b s p now then_ h = rw (visit, h) refl

-- A sweep that visits one lease is the reaper's round there, as far as the leases go.
pub sweep-one :
    (b : Broker) (s : Text) (p now then_ : ℕ)
    → get b.leases s ≡ some p
    → (get (sweep b now ((s, then_) ∷ [])).leases s ≡ get (reap b p now then_).leases s)
      × ((sweep b now ((s, then_) ∷ [])).lease_heap p ≡ (reap b p now then_).lease_heap p)
unfolding sweep visits gc_waiters
sweep-one b s p now then_ h =
    let visited = visit-held b s p now then_ h in
    (ap (λ (d : Broker). get d.leases s) visited, ap (λ (d : Broker). d.lease_heap p) visited)

pub reap_orphaned :
    (b : Broker) (p now then_ : ℕ)
    → IsOrphaned (b.lease_heap p) now
    → (b.lease_heap p).explicit ≡ false
    → reap b p now then_
      ≡ store_lease b p (record (b.lease_heap p) { running = 0; last_active = now })
unfolding reap is_unclaimed orphan_reset is_orphaned is_over
reap_orphaned b p now then_ o e = ground (arith, o.claimed, o.running, o.silent)

-- In every state that the daemon comes to, a lease that is due is taken away by the round of the reaper
-- that comes to it. Due: nobody claimed it in the time of grace, or no command runs and its time is over.
pub reclaims_due :
    {b : Broker}
    → Reachable b
    → (s : Text) (p now then_ : ℕ) → get b.leases s ≡ some p
    → IsDue (b.lease_heap p) now
    → get (reap b p now then_).leases s ≢ some p
reclaims_due {b} r s p now then_ h due = reap_due b s p now then_ (Reachable-Valid r) h due

holds-not : (o : Option ℕ) (p : ℕ) → o ≢ some p → holds o p ≡ false
holds-not none p h = refl
holds-not (some q) p h = elim (Bool-cases (q == p)) [
  | inl e ↦ absurd (h (ground (arith, e)))
  | inr e ↦ e
]

-- In every state that the daemon comes to, the claimed lease of a client that died with commands running, not an
-- explicit lease, stays through the round of the reaper that finds it silent for longer than the beat limit; and after
-- any steps of the daemon that leave that lease as that round left it, a later round takes it away exactly when the
-- lease's idle time to live, which counts from the first of the two rounds, is over.
pub reclaims_orphaned :
    {b c : Broker}
    → Reachable b
    → Reachable c
    → (s : Text) (p now then_ now' then' : ℕ) → get b.leases s ≡ some p
    → get c.leases s ≡ some p
    → IsOrphaned (b.lease_heap p) now
    → (b.lease_heap p).explicit ≡ false
    → c.lease_heap p ≡ (reap b p now then_).lease_heap p
    → (get (reap b p now then_).leases s ≡ some p)
      × (holds (get (reap c p now' then').leases s) p ≡ leb now' (now + (b.lease_heap p).idle_ttl))
reclaims_orphaned {b} {c} r rc s p now then_ now' then' h hc o e same = (
  rw (reap_orphaned b p now then_ o e) h,
  elim (Bool-cases (leb now' (now + (b.lease_heap p).idle_ttl))) [
    | inl k ↦ rw (k, reap_lively c p now' then' (lively (ground (arith, k))), hc) (==_refl p)
    | inr k ↦ rw k (
        holds-not (get (reap c p now' then').leases s) p
          (reap_due c s p now' then' (Reachable-Valid rc) hc (due (ground (arith, k)))))
  ],
)
  where
    quiet : Lease
    quiet = record (b.lease_heap p) { running = 0; last_active = now }

    found : c.lease_heap p ≡ quiet
    found =
        same
        ∙ ap (λ (d : Broker). d.lease_heap p) (reap_orphaned b p now then_ o e)
        ∙ rw (==_refl p) refl

    lively : now' ≤ now + (b.lease_heap p).idle_ttl → IsLively (c.lease_heap p) now'
    lively k = rw found (record { claimed = inl o.claimed; busy = inr (refl, rw e k) })

    due : now + (b.lease_heap p).idle_ttl < now' → IsDue (c.lease_heap p) now'
    due k = rw found (inr (refl, rw e k))
