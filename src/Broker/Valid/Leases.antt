-- ===== src/Broker/Valid/Leases.antt =====
-- The sections that write one lease, found by its ID or session, or end it: the invariant.
use adb_harbor.Prelude.{
  ℕ, ◌≡◌, refl, sym, subst, inl, inr, Option, none, some, List, [], ◌∷◌, arith, Bool-cases,
  Option-cases,
}
use adb_harbor.Text.{Text, is_empty}
use adb_harbor.Map.{get}
use adb_harbor.Map.Laws.{find-some}
use adb_harbor.Protocol.{ReleaseReq}
use adb_harbor.Broker.{Broker}
use adb_harbor.Broker.Waiting.{store_lease}
use adb_harbor.Broker.Handlers.{
  lease_by_id, touch_lease, touched, end_command, command_ended, release_target, refuses,
  handle_release,
}
use adb_harbor.Broker.Reaper.{
  orphan_reset, is_unclaimed, is_over, reap, visit, visits, gc_waiters, sweep, baseline_captured,
}
use adb_harbor.Broker.Valid.{Valid, IsValid}
use adb_harbor.Broker.Valid.Heaps.{set_lease-Valid}
use adb_harbor.Broker.Valid.Next.{core-save_state, expire-Valid}

-- The lease that an ID finds is in the map.
pub lease_by_id-get :
    (b : Broker) (id : Text) (p : ℕ)
    → IsValid b
    → lease_by_id b id ≡ some p
    → (s : Text) × (get b.leases s ≡ some p)
unfolding lease_by_id
lease_by_id-get b id p v e = let found = find-some _ b.leases p v.distinct e in (found.0, found.1)

pub touch_lease-Valid :
    (b : Broker) (id : Text) (now : ℕ) → IsValid b → IsValid (touch_lease b id now)
unfolding touch_lease touched
touch_lease-Valid b id now v = elim (Option-cases (lease_by_id b id)) [
  | inl e ↦ rw (e, touch_lease) v
  | inr (p, e) ↦ rw (e, touch_lease) (set_lease-Valid v p (touched (b.lease_heap p) now) refl refl)
]

pub end_command-Valid :
    (b : Broker) (id : Text) (now : ℕ) → IsValid b → IsValid (end_command b id now)
unfolding end_command command_ended
end_command-Valid b id now v = elim (Option-cases (lease_by_id b id)) [
  | inl e ↦ rw (e, end_command) v
  | inr (p, e) ↦
      rw (e, end_command) (set_lease-Valid v p (command_ended (b.lease_heap p) now) refl refl)
]

pub baseline_captured-Valid :
    (b : Broker) (id : Text) (pkgs : Option (List Text))
    → IsValid b
    → IsValid (baseline_captured b id pkgs)
unfolding baseline_captured
baseline_captured-Valid b id none v = v
baseline_captured-Valid b id (some pkgs) v = elim (Option-cases (lease_by_id b id)) [
  | inl e ↦ rw (e, baseline_captured) v
  | inr (p, e) ↦
      rw (e, baseline_captured)
        (subst Valid (sym (core-save_state _))
          (set_lease-Valid v p (record (b.lease_heap p) { baseline = pkgs }) refl refl))
]

pub release_target-get :
    (b : Broker) (req : ReleaseReq) (p : ℕ)
    → IsValid b
    → release_target b req ≡ some p
    → (s : Text) × (get b.leases s ≡ some p)
unfolding release_target
release_target-get b req p v e = elim (Bool-cases (is_empty req.lease_id)) [
  | inl h ↦ elim (Bool-cases (is_empty req.serial)) [
    | inl k ↦ absurd (ground arith)
    | inr k ↦ (req.serial, ground arith)
  ]
  | inr h ↦ lease_by_id-get b req.lease_id p v (ground arith)
]

pub handle_release-Valid :
    (b : Broker) (req : Option ReleaseReq) (now : ℕ)
    → IsValid b
    → IsValid (handle_release b req now).1
unfolding handle_release
handle_release-Valid b none now v = v
handle_release-Valid b (some req) now v = elim (Option-cases (release_target b req)) [
  | inl e ↦ rw (e, handle_release) v
  | inr (p, e) ↦
      let (s, h) = release_target-get b req p v e in
      elim (Bool-cases (refuses req (b.lease_heap p))) [
        | inl r ↦ rw (e, r, handle_release) v
        | inr r ↦ rw (e, r, handle_release) (expire-Valid b v s p h _ now)
      ]
]

reap-Valid :
    (b : Broker) (s : Text) (p now then_ : ℕ)
    → IsValid b
    → get b.leases s ≡ some p
    → IsValid (reap b p now then_)
unfolding reap
reap-Valid b s p now then_ v h = elim (Bool-cases (is_unclaimed (b.lease_heap p) now)) [
  | inl u ↦ rw (u, reap) (expire-Valid b v s p h _ then_)
  | inr u ↦ elim (Bool-cases (is_over (orphan_reset (b.lease_heap p) now) now)) [
    | inl o ↦ rw (u, o, reap) (expire-Valid b1 v1 s p h _ then_)
    | inr o ↦ rw (u, o, reap) v1
  ]
]
  where
    b1 : Broker
    b1 = store_lease b p (orphan_reset (b.lease_heap p) now)

    v1 : IsValid b1
    v1 =
        set_lease-Valid v p (orphan_reset (b.lease_heap p) now)
          (unfold orphan_reset in ground arith) (unfold orphan_reset in ground arith)

visit-Valid : (b : Broker) (now : ℕ) (x : Text × ℕ) → IsValid b → IsValid (visit b now x)
unfolding visit
visit-Valid b now (s, then_) v = elim (Option-cases (get b.leases s)) [
  | inl e ↦ rw (e, visit) v
  | inr (p, e) ↦ rw (e, visit) (reap-Valid b s p now then_ v e)
]

visits-Valid : (b : Broker) (now : ℕ) (xs : List (Text × ℕ)) → IsValid b → IsValid (visits b now xs)
unfolding visits
visits-Valid b now [] v = v
visits-Valid b now (x ∷ xs) v = visits-Valid (visit b now x) now xs (visit-Valid b now x v)

-- A sweep of the reaper keeps the invariant, in whatever order it visits the leases.
pub sweep-Valid :
    (b : Broker) (now : ℕ) (xs : List (Text × ℕ)) → IsValid b → IsValid (sweep b now xs)
unfolding sweep gc_waiters
sweep-Valid b now xs v = visits-Valid b now xs v
