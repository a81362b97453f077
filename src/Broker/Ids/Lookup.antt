-- ===== src/Broker/Ids/Lookup.antt =====
-- What finds a lease by its ID in internal/harbor/broker.go: leaseByIDLocked, for a lease that the map holds.
use adb_harbor.Prelude.{
  ℕ, ◌<◌, ◌≡◌, ◌≢◌, refl, sym, ap, subst, ◌∙◌, arith, ◌==◌, ==_refl, List, [], ◌∷◌, inl, inr,
  Bool-cases, Bool, false, Option, none, some, All, ltb,
}
use adb_harbor.Text.{Text, text_eq}
use adb_harbor.Text.Laws.{text_eq_iff, text_eq_refl}
use adb_harbor.Map.{get, find}
use adb_harbor.Map.Laws.{find-some, find-none}
use adb_harbor.Config.{Config}
use adb_harbor.Broker.{Broker, Lease}
use adb_harbor.Broker.Handlers.{lease_by_id}
use adb_harbor.Broker.Restart.{start, revived, restore_lease, restore, load_state}
use adb_harbor.Broker.Run.{Step, Reachable, boots, moves}
use adb_harbor.Broker.Valid.{IsValid}
use adb_harbor.Broker.Valid.Reached.{Reachable-Valid}
use adb_harbor.Broker.Ids.{id_of, HasApart}
use adb_harbor.Broker.Ids.Steps.{Step-HasApart}

-- The leases of a state file that no daemon with the process ID `pid` made.
abbrev pub AreForeign : ℕ → List Lease → Type 0
AreForeign pid ls = All (λ l. (n : ℕ) → l.id ≢ id_of pid n) ls

abbrev pub HaveOtherIds : Text → List Lease → Type 0
HaveOtherIds id ls = All (λ l. id ≢ l.id) ls

abbrev pub HaveDistinctIds : List Lease → Type 0
HaveDistinctIds [] = Unit
HaveDistinctIds (l ∷ ls) = HaveOtherIds l.id ls × HaveDistinctIds ls

-- The states that follow `a` by steps.
pub data Since (a : Broker) : Broker → Type 0 where
  none_yet : Since a a
  and_one : {b c : Broker} → Since a b → Step b c → Since a c

Since-HasApart : {a b : Broker} → HasApart a → Since a b → HasApart b
Since-HasApart h none_yet = h
Since-HasApart h (and_one s x) = Step-HasApart x (Since-HasApart h s)

Since-Reachable : {a b : Broker} → Reachable a → Since a b → Reachable b
Since-Reachable r none_yet = r
Since-Reachable r (and_one s x) = moves (Since-Reachable r s) x

-- One more lease of the state file.
module _ (now : ℕ) (b : Broker) (l : Lease) (h : HasApart b) where
  next_id : ((restore_lease now b l).lease_heap b.next_lease).id ≡ l.id
  unfolding restore_lease revived
  next_id = rw (==_refl b.next_lease) refl

  old_id :
      (p : ℕ) → p < b.next_lease → ((restore_lease now b l).lease_heap p).id ≡ (b.lease_heap p).id
  unfolding restore_lease
  old_id p k = let apart : (b.next_lease == p) ≡ false = ground arith in rw apart refl

  at_next : (q : ℕ) → q ≡ b.next_lease → ((restore_lease now b l).lease_heap q).id ≡ l.id
  at_next q e = ap (λ x. ((restore_lease now b l).lease_heap x).id) e ∙ next_id

  restore_lease-HasApart :
      ((n : ℕ) → l.id ≢ id_of b.pid n)
      → ((p : ℕ) → p < b.next_lease → (b.lease_heap p).id ≢ l.id)
      → HasApart (restore_lease now b l)
  unfolding restore_lease
  restore_lease-HasApart foreign other = record {
    apart = λ p q i j e. elim (Bool-cases (q == b.next_lease)) [
      | inl n ↦
          other p (ground arith) (sym (old_id p (ground arith)) ∙ e ∙ at_next q (ground arith))
      | inr n ↦
          h.apart p q i (ground arith) (sym (old_id p (ground arith)) ∙ e ∙ old_id q (ground arith))
    ];
    unborn = λ p n i j e. elim (Bool-cases (p == b.next_lease)) [
      | inl m ↦ foreign n (sym (at_next p (ground arith)) ∙ e)
      | inr m ↦ h.unborn p n (ground arith) j (sym (old_id p (ground arith)) ∙ e)
    ];
  }

  rest-HaveOtherIds :
      (ls : List Lease)
      → HaveOtherIds l.id ls
      → ((p : ℕ) → p < b.next_lease → HaveOtherIds (b.lease_heap p).id ls)
      → (p : ℕ) → p < (restore_lease now b l).next_lease
      → HaveOtherIds ((restore_lease now b l).lease_heap p).id ls
  unfolding restore_lease
  rest-HaveOtherIds ls d o p k = elim (Bool-cases (p == b.next_lease)) [
    | inl m ↦ subst (λ id. HaveOtherIds id ls) (sym (at_next p (ground arith))) d
    | inr m ↦ subst (λ id. HaveOtherIds id ls) (sym (old_id p (ground arith))) (o p (ground arith))
  ]

restore-HasApart :
    (ls : List Lease) (now : ℕ) (b : Broker)
    → HasApart b
    → AreForeign b.pid ls
    → HaveDistinctIds ls
    → ((p : ℕ) → p < b.next_lease → HaveOtherIds (b.lease_heap p).id ls)
    → HasApart (restore now b ls)
unfolding restore
restore-HasApart [] now b h f d o = h
restore-HasApart (l ∷ ls) now b h f d o =
    restore-HasApart ls now (restore_lease now b l)
      (restore_lease-HasApart now b l h f.0 (λ p k. (o p k).0)) (unfold restore_lease in f.1) d.1
      (rest-HaveOtherIds now b l h ls d.0 (λ p k. (o p k).1))

load_state-HasApart :
    (cfg : Config) (pid now : ℕ) (saved : List Lease) (works : Bool) (file : List Lease)
    → AreForeign pid file
    → HaveDistinctIds file
    → HasApart (load_state now (start cfg pid saved works) (some file))
unfolding load_state start
load_state-HasApart cfg pid now saved works file f d =
    restore-HasApart file now (start cfg pid saved works)
      (record { apart = λ p q i j e. omega arith; unborn = λ p n i j e. omega arith }) f d
      (λ p k. absurd (omega arith))

-- Two leases of one ID are one.
same_id :
    {b : Broker}
    → HasApart b
    → (p q : ℕ) → p < b.next_lease
    → q < b.next_lease
    → (b.lease_heap p).id ≡ (b.lease_heap q).id
    → p ≡ q
same_id {b} h p q i j e = elim (Bool-cases (ltb p q)) [
  | inl k ↦ absurd (h.apart p q (ground arith) j e)
  | inr k ↦ elim (Bool-cases (ltb q p)) [
    | inl l ↦ absurd (h.apart q p (ground arith) i (sym e))
    | inr l ↦ ground arith
  ]
]

lookup_held :
    (b : Broker)
    → IsValid b
    → HasApart b
    → (s : Text) (p : ℕ) → get b.leases s ≡ some p
    → lease_by_id b (b.lease_heap p).id ≡ some p
unfolding lease_by_id
lookup_held b v h s p e =
    by_result (find (λ q. text_eq (b.lease_heap q).id (b.lease_heap p).id) b.leases) refl
  where
    by_result :
        (o : Option ℕ)
        → find (λ q. text_eq (b.lease_heap q).id (b.lease_heap p).id) b.leases ≡ o
        → o ≡ some p
    by_result none f = absurd (
        ground (
          arith,
          text_eq_refl (b.lease_heap p).id,
          find-none (λ q. text_eq (b.lease_heap q).id (b.lease_heap p).id) b.leases s p f e,
        ))
    by_result (some q) f =
        let (k, g, t) =
          find-some (λ q. text_eq (b.lease_heap q).id (b.lease_heap p).id) b.leases q v.distinct
            f in
        ap some (
          same_id h q p (v.held k q g).0 (v.held s p e).0
            ((text_eq_iff (b.lease_heap q).id (b.lease_heap p).id).0 t))

-- A daemon starts from a state file whose leases have different IDs, none of which has its own process ID in it. Then,
-- after any steps, the ID of a lease that is held is the ID of that lease alone: leaseByIDLocked finds it. So a heartbeat,
-- an ended command or a release by an ID meets the lease that it is meant for.
pub lease_by_id-held :
    (cfg : Config) (pid now : ℕ) (saved : List Lease) (works : Bool) (file : List Lease)
    → AreForeign pid file
    → HaveDistinctIds file
    → {b : Broker} → Since (load_state now (start cfg pid saved works) (some file)) b
    → (s : Text) (p : ℕ) → get b.leases s ≡ some p
    → lease_by_id b (b.lease_heap p).id ≡ some p
lease_by_id-held cfg pid now saved works file f d {b} since s p e =
    lookup_held b
      (Reachable-Valid (Since-Reachable (boots cfg pid now saved works (some file)) since))
      (Since-HasApart (load_state-HasApart cfg pid now saved works file f d) since) s p e
