-- ===== src/Broker/Ids.antt =====
-- Lease IDs, newID of internal/harbor/broker.go: no two leases have the same.
pub mod Grants
pub mod Steps
pub mod Lookup
use adb_harbor.Prelude.{
  Bool, true, false, ℕ, suc, ◌≤◌, ◌<◌, ◌≡◌, ◌≢◌, refl, sym, ap, ◌∙◌, arith, ◌++◌, ◌==◌, ==_iff,
  if◌then◌else◌, List, inl, inr, Bool-cases,
}
use adb_harbor.Text.{Text, text}
use adb_harbor.Text.Laws.{append_cancel}
use adb_harbor.Text.Decimal.{decimal, decimal-injective}
use adb_harbor.Broker.{Broker, Lease, new_id, update}

-- The lease ID of the process `pid` with the number `n`.
abbrev pub id_of : ℕ → ℕ → Text
id_of pid n = text "lease" ++ text "-" ++ decimal pid ++ text "-" ++ decimal n

pub id_of-injective : (pid m n : ℕ) → id_of pid m ≡ id_of pid n → m ≡ n
id_of-injective pid m n e =
    decimal-injective m n (
      append_cancel (text "lease" ++ text "-" ++ decimal pid ++ text "-") (decimal m) (decimal n) e)

-- No two leases that were made have the same ID, and none has one that newID gives later.
pub record HasApart (b : Broker) : Type 0 where
  pub apart : (p q : ℕ) → p < q → q < b.next_lease → (b.lease_heap p).id ≢ (b.lease_heap q).id
  pub unborn : (p n : ℕ) → p < b.next_lease → b.seq < n → (b.lease_heap p).id ≢ id_of b.pid n

-- What changes at most where no lease is made.
pub record HasSameIds (b c : Broker) : Type 0 where
  pub pid : c.pid ≡ b.pid
  pub seq : b.seq ≤ c.seq
  pub next : c.next_lease ≡ b.next_lease
  pub ids : (p : ℕ) → (c.lease_heap p).id ≡ (b.lease_heap p).id

pub same : (b : Broker) → HasSameIds b b
same b = record { pid = refl; seq = omega arith; next = refl; ids = λ p. refl }

pub and_then : {b c d : Broker} → HasSameIds b c → HasSameIds c d → HasSameIds b d
and_then x y = record {
  pid = y.pid ∙ x.pid;
  seq = omega (arith, x.seq, y.seq);
  next = y.next ∙ x.next;
  ids = λ p. y.ids p ∙ x.ids p;
}

-- Where other parts of the state change.
pub elsewhere :
    {b c : Broker}
    → c.pid ≡ b.pid
    → c.seq ≡ b.seq
    → c.next_lease ≡ b.next_lease
    → c.lease_heap ≡ b.lease_heap
    → HasSameIds b c
elsewhere e f g h = record {
  pid = e;
  seq = omega (arith, f);
  next = g;
  ids = λ p. ap (λ heap. (heap p).id) h;
}

-- On both branches of a test.
pub either :
    {b c d : Broker} (t : Bool)
    → HasSameIds b c
    → HasSameIds b d
    → HasSameIds b (if t then c else d)
either true x y = x
either false x y = y

pub same-HasApart : {b c : Broker} → HasSameIds b c → HasApart b → HasApart c
same-HasApart x h = record {
  apart = λ p q l k e. h.apart p q l (omega (arith, k, x.next)) (sym (x.ids p) ∙ e ∙ x.ids q);
  unborn = λ p n k l e.
      h.unborn p n (omega (arith, k, x.next)) (omega (arith, l, x.seq))
        (sym (x.ids p) ∙ e ∙ ap (λ pid. id_of pid n) x.pid);
}

-- What changes where one lease is made: it has the next ID.
pub record HasOneMore (b c : Broker) : Type 0 where
  pub pid : c.pid ≡ b.pid
  pub seq : suc b.seq ≤ c.seq
  pub next : c.next_lease ≡ suc b.next_lease
  pub ids : (p : ℕ) → p < b.next_lease → (c.lease_heap p).id ≡ (b.lease_heap p).id
  pub id : (c.lease_heap b.next_lease).id ≡ id_of b.pid (suc b.seq)

pub one_more-HasApart : {b c : Broker} → HasOneMore b c → HasApart b → HasApart c
one_more-HasApart {b} {c} x h = record { apart = apart_then; unborn = unborn_then }
  where
    at_next : (p : ℕ) → p ≡ b.next_lease → (c.lease_heap p).id ≡ id_of b.pid (suc b.seq)
    at_next p e = ap (λ q. (c.lease_heap q).id) e ∙ x.id

    apart_then : (p q : ℕ) → p < q → q < c.next_lease → (c.lease_heap p).id ≢ (c.lease_heap q).id
    apart_then p q l k e = elim (Bool-cases (q == b.next_lease)) [
      | inl n ↦
          h.unborn p (suc b.seq) (ground (arith, x.next)) (omega arith)
            (sym (x.ids p (ground (arith, x.next))) ∙ e ∙ at_next q (ground arith))
      | inr n ↦
          h.apart p q l (ground (arith, x.next))
            (sym (x.ids p (ground (arith, x.next))) ∙ e ∙ x.ids q (ground (arith, x.next)))
    ]

    unborn_then : (p n : ℕ) → p < c.next_lease → c.seq < n → (c.lease_heap p).id ≢ id_of c.pid n
    unborn_then p n k l e = elim (Bool-cases (p == b.next_lease)) [
      | inl m ↦
          let same_number =
            id_of-injective b.pid (suc b.seq) n
              (sym (at_next p (ground arith)) ∙ e ∙ ap (λ pid. id_of pid n) x.pid) in
          absurd (omega (arith, same_number, x.seq))
      | inr m ↦
          h.unborn p n (ground (arith, x.next)) (omega (arith, x.seq))
            (sym (x.ids p (ground (arith, x.next))) ∙ e ∙ ap (λ pid. id_of pid n) x.pid)
    ]

-- A write of a lease that keeps its ID.
pub store-HasSameIds :
    (b : Broker) (p : ℕ) (l : Lease)
    → l.id ≡ (b.lease_heap p).id
    → HasSameIds b (record b { lease_heap = update b.lease_heap p l })
store-HasSameIds b p l e = record { pid = refl; seq = omega arith; next = refl; ids = ids }
  where
    ids : (q : ℕ) → ((if p == q then l else b.lease_heap q)).id ≡ (b.lease_heap q).id
    ids q = elim (Bool-cases (p == q)) [
      | inl k ↦ rw k (e ∙ ap (λ r. (b.lease_heap r).id) ((==_iff p q).0 k))
      | inr k ↦ rw k refl
    ]
