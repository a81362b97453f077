-- ===== src/Broker/Exclusion.antt =====
-- Who may use a device: what acquireLocked promises, and what is true of a device between two
-- sections under the lock.
use adb_harbor.Prelude.{
  ℕ, suc, ◌≡◌, refl, sym, subst, ◌∙◌, ◌⊎◌, inl, inr, true, false, none, some, [], ◌∷◌, ◌++◌, arith,
  Bool-cases, Option-cases, if◌then◌else◌, mem, ◌==◌,
}
use adb_harbor.Text.{Text, text_eq}
use adb_harbor.Text.Laws.{text_eq_iff, text_eq_refl}
use adb_harbor.Map.{get, put}
use adb_harbor.Map.Laws.{get-put}
use adb_harbor.Protocol.{AcquireReq}
use adb_harbor.Broker.{Broker, queue, cleaning_at}
use adb_harbor.Broker.Grant.{
  Acquired, leased, queued, acquire_locked, grant, enqueue, renew, fresh_lease, fresh_waiter,
  renewed,
}
use adb_harbor.Broker.Run.{Reachable}
use adb_harbor.Broker.Valid.{Core, core, line, is_cleaning, cleanups_of}
use adb_harbor.Broker.Valid.Serve.{core-hist, core-capture_if_enabled}
use adb_harbor.Broker.Valid.Next.{core-save_state}
use adb_harbor.Broker.Valid.Reached.{Reachable-Valid}

pub core-grant :
    (b : Broker) (req : AcquireReq) (now idle : ℕ)
    → core (grant b req now idle) ≡ record (core b) {
      lease_heap = λ q. if b.next_lease == q then fresh_lease b req now idle else b.lease_heap q;
      next_lease = suc b.next_lease;
      leases = put b.leases req.serial b.next_lease;
    }
unfolding grant
core-grant b req now idle = rw (core-save_state, core-capture_if_enabled, core-hist)

-- A lease that acquireLocked returned: its session has the device, no cleanup is under way on it, and
-- nobody else had it.
pub record IsLeasedTo (req : AcquireReq) (p : ℕ) (b c : Core) : Type 0 where
  pub held : get c.leases req.serial ≡ some p
  pub session : (c.lease_heap p).session ≡ req.session
  pub idle : is_cleaning c req.serial ≡ false
  pub before :
      (get b.leases req.serial ≡ none)
      ⊎ ((get b.leases req.serial ≡ some p) × ((b.lease_heap p).session ≡ req.session))

-- A waiter that acquireLocked returned: it is the last of its line, with the request's session, and
-- the device is in cleanup or another session's, as before.
pub record IsInLine (req : AcquireReq) (w : ℕ) (b c : Core) : Type 0 where
  pub last : line c req.serial ≡ line b req.serial ++ w ∷ []
  pub session : (c.waiter_heap w).session ≡ req.session
  pub leases : c.leases ≡ b.leases
  pub busy :
      (get b.cleaning req.serial ≡ some true)
      ⊎ ((p : ℕ) × (get b.leases req.serial ≡ some p)
          × (text_eq (b.lease_heap p).session req.session ≡ false))

pub data AcquireSpec (req : AcquireReq) (b c : Core) : Acquired → Type 0 where
  granted : (p : ℕ) → IsLeasedTo req p b c → AcquireSpec req b c (leased p)
  waits : (w : ℕ) → IsInLine req w b c → AcquireSpec req b c (queued w)

cleaning_at-get : (b : Broker) (s : Text) → cleaning_at b s ≡ true → get b.cleaning s ≡ some true
cleaning_at-get b s h = ground arith

enqueue-IsInLine :
    (b : Broker) (req : AcquireReq) (now idle : ℕ)
    → (get b.cleaning req.serial ≡ some true)
      ⊎ ((p : ℕ) × (get b.leases req.serial ≡ some p)
          × (text_eq (b.lease_heap p).session req.session ≡ false))
    → IsInLine req b.next_waiter (core b) (core (enqueue b req now idle))
unfolding enqueue fresh_waiter
enqueue-IsInLine b req now idle busy = record {
  last = ground (
    arith,
    get-put b.queues req.serial req.serial (queue b req.serial ++ b.next_waiter ∷ []),
    text_eq_refl req.serial,
  );
  session = ground arith;
  leases = refl;
  busy = busy;
}

grant-IsLeasedTo :
    (b : Broker) (req : AcquireReq) (now idle : ℕ)
    → get b.leases req.serial ≡ none
    → cleaning_at b req.serial ≡ false
    → IsLeasedTo req b.next_lease (core b) (core (grant b req now idle))
unfolding fresh_lease
grant-IsLeasedTo b req now idle free clean = rw core-grant (record {
  held =
      ground (arith, get-put b.leases req.serial req.serial b.next_lease, text_eq_refl req.serial);
  session = ground arith;
  idle = clean;
  before = inl free;
})

renew-IsLeasedTo :
    (b : Broker) (req : AcquireReq) (now idle p : ℕ)
    → get b.leases req.serial ≡ some p
    → (b.lease_heap p).session ≡ req.session
    → cleaning_at b req.serial ≡ false
    → IsLeasedTo req p (core b) (core (renew b req now idle p))
unfolding renew renewed
renew-IsLeasedTo b req now idle p h same clean = record {
  held = h;
  session = ground arith;
  idle = clean;
  before = inr (h, same);
}

-- acquireLocked either grants or queues. A grant: the request's session holds the device afterwards,
-- and before it the device was free or already that session's. A place in the queue: it is the last
-- one, all leases stay, and the device is in cleanup or held by another session.
pub acquire_locked-AcquireSpec :
    (b : Broker) (req : AcquireReq) (now idle : ℕ)
    → let (a, c) = acquire_locked b req now idle in AcquireSpec req (core b) (core c) a
unfolding acquire_locked
acquire_locked-AcquireSpec b req now idle = elim (Bool-cases (cleaning_at b req.serial)) [
  | inl c ↦ rw c (waits _ (enqueue-IsInLine b req now idle (inl (cleaning_at-get b req.serial c))))
  | inr c ↦ elim (Option-cases (get b.leases req.serial)) [
    | inl free ↦ rw (c, free) (granted _ (grant-IsLeasedTo b req now idle free c))
    | inr (p, h) ↦ elim (Bool-cases (text_eq (b.lease_heap p).session req.session)) [
      | inl same ↦
          rw (c, h, same)
            (granted p (renew-IsLeasedTo b req now idle p h ((text_eq_iff _ _).0 same) c))
      | inr other ↦ rw (c, h, other) (waits _ (enqueue-IsInLine b req now idle (inr (p, h, other))))
    ]
  ]
]

-- In every state that the daemon comes to, no closed channel has been closed again.
pub never_panics : {b : Broker} → Reachable b → b.panicked ≡ false
never_panics r = (Reachable-Valid r).calm

-- In every state that the daemon comes to, whoever waits in the line of a device waits for a reason:
-- another session than the waiter's holds a lease on that very device, or a cleanup of the device is
-- under way in a goroutine. The waiter's own channel is open and it has no lease yet.
pub waits_for_reason :
    {b : Broker}
    → Reachable b
    → (s : Text) (w : ℕ) → mem w (queue b s) ≡ true
    → ((b.waiter_heap w).lease ≡ none)
      × ((b.waiter_heap w).closed ≡ false)
      × (((p : ℕ) × (get b.leases s ≡ some p)
            × ((b.lease_heap p).serial ≡ s)
            × (text_eq (b.waiter_heap w).session (b.lease_heap p).session ≡ false))
          ⊎ ((p : ℕ) × (mem p (cleanups_of b.tasks) ≡ true) × ((b.lease_heap p).serial ≡ s)))
waits_for_reason {b} r s w m =
    let v = Reachable-Valid r in
    let q = v.queued s w m in
    (
      q.2,
      q.3,
      elim (Option-cases (get b.leases s)) [
        | inr (p, h) ↦ inl (p, h, (v.held s p h).1, v.others s p w h m)
        | inl free ↦ elim (Bool-cases (cleaning_at b s)) [
          | inl c ↦ inr (v.job_of s c)
          | inr c ↦ absurd (ground (arith, v.served s refl free c))
        ]
      ],
    )

-- In every state that the daemon comes to, a device that a cleanup goroutine cleans is marked as in
-- cleanup and has no lease, and no second goroutine cleans it.
pub cleanup_is_exclusive :
    {b : Broker}
    → Reachable b
    → (s : Text) (p q : ℕ) → mem p (cleanups_of b.tasks) ≡ true
    → mem q (cleanups_of b.tasks) ≡ true
    → (b.lease_heap p).serial ≡ s
    → (b.lease_heap q).serial ≡ s
    → (cleaning_at b s ≡ true) × (get b.leases s ≡ none) × (p ≡ q)
cleanup_is_exclusive {b} r s p q m n e f =
    let v = Reachable-Valid r in
    let marked = subst (λ t. is_cleaning (core b) t ≡ true) e (v.job p m).1 in
    (marked, v.cleaned s marked, v.jobs_apart p q m n (e ∙ sym f))
