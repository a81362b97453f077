-- ===== src/Broker/Valid/Operations.antt =====
-- Every section under the lock keeps the invariant.
use adb_harbor.Prelude.{
  ℕ, ◌≡◌, refl, ◌⊎◌, inl, inr, true, false, none, some, Bool-cases, Option-cases,
}
use adb_harbor.Text.{text_eq}
use adb_harbor.Map.{get}
use adb_harbor.Protocol.{AcquireReq}
use adb_harbor.Broker.{Broker, cleaning_at}
use adb_harbor.Broker.Grant.{
  grant, enqueue, renew, acquire_locked, fresh_lease, fresh_waiter, renewed,
}
use adb_harbor.Broker.Valid.{IsValid}
use adb_harbor.Broker.Valid.Heaps.{set_lease-Valid, add_lease-Valid, add_waiter-Valid}
use adb_harbor.Broker.Valid.Serve.{core-hist, core-capture_if_enabled}
use adb_harbor.Broker.Valid.Next.{core-save_state}

pub grant-Valid :
    (b : Broker) (req : AcquireReq) (now idle : ℕ)
    → IsValid b
    → get b.leases req.serial ≡ none
    → cleaning_at b req.serial ≡ false
    → IsValid (grant b req now idle)
unfolding grant
grant-Valid b req now idle v free clean =
    rw (core-save_state, core-capture_if_enabled, core-hist)
      (add_lease-Valid v req.serial (fresh_lease b req now idle) free clean refl)

pub enqueue-Valid :
    (b : Broker) (req : AcquireReq) (now idle : ℕ)
    → IsValid b
    → (cleaning_at b req.serial ≡ true)
      ⊎ ((p : ℕ) × (get b.leases req.serial ≡ some p)
          × (text_eq (b.lease_heap p).session req.session ≡ false))
    → IsValid (enqueue b req now idle)
unfolding enqueue
enqueue-Valid b req now idle v busy =
    add_waiter-Valid v req.serial (fresh_waiter b req now idle) busy refl refl refl

pub renew-Valid :
    (b : Broker) (req : AcquireReq) (now idle p : ℕ) → IsValid b → IsValid (renew b req now idle p)
unfolding renew
renew-Valid b req now idle p v =
    set_lease-Valid v p (renewed b req now idle (b.lease_heap p)) refl refl

-- acquireLocked keeps the invariant, on each of its branches.
pub acquire_locked-Valid :
    (b : Broker) (req : AcquireReq) (now idle : ℕ)
    → IsValid b
    → IsValid (acquire_locked b req now idle).1
unfolding acquire_locked
acquire_locked-Valid b req now idle v = elim (Bool-cases (cleaning_at b req.serial)) [
  | inl c ↦ rw c (enqueue-Valid b req now idle v (inl c))
  | inr c ↦ elim (Option-cases (get b.leases req.serial)) [
    | inl free ↦ rw (c, free) (grant-Valid b req now idle v free c)
    | inr (p, h) ↦ elim (Bool-cases (text_eq (b.lease_heap p).session req.session)) [
      | inl same ↦ rw (c, h, same) (renew-Valid b req now idle p v)
      | inr other ↦ rw (c, h, other) (enqueue-Valid b req now idle v (inr (p, h, other)))
    ]
  ]
]
