-- ===== src/Broker/Valid/Loops.antt =====
-- What the two loops of grantNextLocked do to the state, told at once instead of round by round.
use adb_harbor.Prelude.{
  ◌∙◌, ℕ, suc, ◌+◌, ◌≡◌, refl, true, false, ◌&&◌, some, List, [], ◌∷◌, arith, ◌==◌, if◌then◌else◌,
  mem, NoDup,
}
use adb_harbor.Text.{Text, text_eq}
use adb_harbor.Broker.{Broker, Lease, Waiter}
use adb_harbor.Broker.Release.{is_stale, drop_waiter_at, drop_stale, piggyback, share}

-- The fields that neither loop writes.
pub record IsSameFrame (b c : Broker) : Type 0 where
  pub cfg : c.cfg ≡ b.cfg
  pub seq : c.seq ≡ b.seq
  pub next_lease : c.next_lease ≡ b.next_lease
  pub next_waiter : c.next_waiter ≡ b.next_waiter
  pub leases : c.leases ≡ b.leases
  pub queues : c.queues ≡ b.queues
  pub cleaning : c.cleaning ≡ b.cleaning
  pub panicked : c.panicked ≡ b.panicked
  pub tasks : c.tasks ≡ b.tasks

abbrev pub HaveOpenChannels : Broker → List ℕ → Type 0
HaveOpenChannels b q = (w : ℕ) → mem w q ≡ true → (b.waiter_heap w).closed ≡ false

abbrev pub closed_waiter : Waiter → Waiter
closed_waiter wt = record wt { closed = true }

-- The first loop closes the channels of the stale waiters, and no channel twice.
pub record IsDropped (now : ℕ) (q : List ℕ) (b c : Broker) : Type 0 where
  pub frame : IsSameFrame b c
  pub lease_heap : c.lease_heap ≡ b.lease_heap
  pub waiter :
      (w : ℕ)
      → c.waiter_heap w ≡ (
          if mem w q && is_stale now (b.waiter_heap w)
          then closed_waiter (b.waiter_heap w)
          else b.waiter_heap w)

drop_round : ℕ → Broker → ℕ → Broker
drop_round now b w = if is_stale now (b.waiter_heap w) then drop_waiter_at b w else b

drop_round-IsDropped :
    (now : ℕ) (b : Broker) (w : ℕ)
    → (b.waiter_heap w).closed ≡ false
    → IsDropped now (w ∷ []) b (drop_round now b w)
unfolding drop_round drop_waiter_at
drop_round-IsDropped now b w o = record {
  frame = ground arith;
  lease_heap = ground arith;
  waiter = λ x. ground arith;
}

IsSameFrame-trans : {a b c : Broker} → IsSameFrame a b → IsSameFrame b c → IsSameFrame a c
IsSameFrame-trans f g = ground arith

-- Closing a channel does not change what `is_stale` reads.
is_stale-closed : (now : ℕ) (wt : Waiter) → is_stale now (closed_waiter wt) ≡ is_stale now wt
unfolding is_stale
is_stale-closed now wt = refl

pub drop_stale-IsDropped :
    (now : ℕ) (b : Broker) (q : List ℕ)
    → NoDup q
    → HaveOpenChannels b q
    → IsDropped now q b (drop_stale b now q)
unfolding drop_stale drop_round
drop_stale-IsDropped now b [] d o = record {
  frame = ground arith;
  lease_heap = refl;
  waiter = λ x. refl;
}
drop_stale-IsDropped now b (w ∷ q) d o =
    let first = drop_round-IsDropped now b w (o w (ground arith)) in
    let rest =
      drop_stale-IsDropped now (drop_round now b w) q d.1
        (λ x m. ground (arith, first.waiter x, o x)) in
    record {
      frame = IsSameFrame-trans first.frame rest.frame;
      lease_heap = rest.lease_heap ∙ first.lease_heap;
      waiter = λ x.
          ground (arith, first.waiter x, rest.waiter x, is_stale-closed now (b.waiter_heap x), d.0);
    }

abbrev pub awarded_waiter : ℕ → Waiter → Waiter
awarded_waiter p wt = record wt { lease = some p; closed = true }

abbrev pub with_running : Lease → ℕ → Lease
with_running l n = record l { running = n }

-- The commands among the waiters of a session.
unfoldable pub commands : (ℕ → Waiter) → Text → List ℕ → ℕ
commands heap session [] = 0
commands heap session (w ∷ ws) =
    let n = commands heap session ws in
    if text_eq (heap w).session session && (heap w).command then suc n else n

-- The second loop gives the lease to the waiters of the session, closes their channels, no channel
-- twice, and counts their commands.
pub record IsShared (p : ℕ) (session : Text) (ws : List ℕ) (b c : Broker) : Type 0 where
  pub frame : IsSameFrame b c
  pub lease :
      (q : ℕ)
      → c.lease_heap q ≡ (
          if p == q
          then with_running
              (b.lease_heap p)
              ((b.lease_heap p).running + commands b.waiter_heap session ws)
          else b.lease_heap q)
  pub waiter :
      (w : ℕ)
      → c.waiter_heap w ≡ (
          if mem w ws && text_eq (b.waiter_heap w).session session
          then awarded_waiter p (b.waiter_heap w)
          else b.waiter_heap w)

share_round : ℕ → Text → Broker → ℕ → Broker
share_round p session b w = if text_eq (b.waiter_heap w).session session then piggyback b p w else b

share_round-IsShared :
    (p : ℕ) (session : Text) (b : Broker) (w : ℕ)
    → (b.waiter_heap w).closed ≡ false
    → IsShared p session (w ∷ []) b (share_round p session b w)
unfolding share_round piggyback commands
share_round-IsShared p session b w o = record {
  frame = ground arith;
  lease = λ q. ground arith;
  waiter = λ x. ground arith;
}

-- The loop goes on from a heap that agrees on the waiters to come.
pub commands-congr :
    (g h : ℕ → Waiter) (session : Text) (ws : List ℕ)
    → ((w : ℕ)
        → mem w ws ≡ true
        → ((g w).session ≡ (h w).session) × ((g w).command ≡ (h w).command))
    → commands g session ws ≡ commands h session ws
unfolding commands
commands-congr g h session [] e = refl
commands-congr g h session (w ∷ ws) e =
    ground (arith, e w (ground arith), commands-congr g h session ws (λ x m. e x (ground arith)))

pub share-IsShared :
    (p : ℕ) (session : Text) (b : Broker) (ws : List ℕ)
    → NoDup ws
    → HaveOpenChannels b ws
    → IsShared p session ws b (share b p session ws)
unfolding share share_round commands
share-IsShared p session b [] d o = record {
  frame = ground arith;
  lease = λ q. ground arith;
  waiter = λ x. refl;
}
share-IsShared p session b (w ∷ ws) d o =
    let first = share_round-IsShared p session b w (o w (ground arith)) in
    let rest =
      share-IsShared p session (share_round p session b w) ws d.1
        (λ x m. ground (arith, first.waiter x, o x)) in
    let count =
      commands-congr (share_round p session b w).waiter_heap b.waiter_heap session ws
        (λ x m. ground (arith, first.waiter x)) in
    record {
      frame = IsSameFrame-trans first.frame rest.frame;
      lease = λ q. ground (arith, first.lease q, first.lease p, rest.lease q, count);
      waiter = λ x. ground (arith, first.waiter x, rest.waiter x, d.0);
    }
