-- ===== src/Broker/Ids/Grants.antt =====
-- What granting and ending a lease in internal/harbor/broker.go does to the IDs of leases.
use adb_harbor.Prelude.{
  ℕ, suc, ◌<◌, ◌≡◌, refl, ap, ◌∙◌, arith, ◌==◌, ==_refl, if◌then◌else◌, List, [], ◌∷◌, inl, inr,
  Bool-cases, Bool, true, false, some, Option-cases,
}
use adb_harbor.Map.{get, put, delete}
use adb_harbor.Text.{Text, text, text_eq}
use adb_harbor.Protocol.{AcquireReq}
use adb_harbor.Broker.{
  Broker, Lease, Waiter, new_id, update, hist, save_state, queue, close_channel, cleaning_at,
}
use adb_harbor.Broker.Grant.{
  capture_if_enabled, fresh_lease, grant, enqueue, renewed, renew, acquire_locked,
}
use adb_harbor.Broker.Release.{
  is_stale, alive, drop_waiter_at, drop_stale, award, start_command, piggyback, share, remaining,
  set_queue, lease_for, allot, start_lease, hand_over, grant_next, wants_cleanup, end_lease, expire,
}
use adb_harbor.Broker.Ids.{
  id_of, HasApart, HasSameIds, same, and_then, same-HasApart, elsewhere, either, HasOneMore,
  one_more-HasApart, store-HasSameIds,
}

pub hist-HasSameIds : (b : Broker) (e : Text) (l : Lease) (n : Text) → HasSameIds b (hist b e l n)
unfolding hist
hist-HasSameIds b e l n = either b.disk_ok (elsewhere refl refl refl refl) (same b)

pub save_state-HasSameIds : (b : Broker) → HasSameIds b (save_state b)
unfolding save_state
save_state-HasSameIds b = either b.disk_ok (elsewhere refl refl refl refl) (same b)

pub close_channel-HasSameIds : (b : Broker) (w : ℕ) → HasSameIds b (close_channel b w)
unfolding close_channel
close_channel-HasSameIds b w =
    either (b.waiter_heap w).closed (elsewhere refl refl refl refl) (elsewhere refl refl refl refl)

drop_waiter_at-HasSameIds : (b : Broker) (w : ℕ) → HasSameIds b (drop_waiter_at b w)
unfolding drop_waiter_at
drop_waiter_at-HasSameIds b w =
    let b1 : Broker = record b { waiters = delete b.waiters (b.waiter_heap w).id } in
    and_then {c = b1} (elsewhere refl refl refl refl) (close_channel-HasSameIds b1 w)

drop_stale-HasSameIds : (q : List ℕ) (b : Broker) (now : ℕ) → HasSameIds b (drop_stale b now q)
unfolding drop_stale
drop_stale-HasSameIds [] b now = same b
drop_stale-HasSameIds (w ∷ q) b now =
    and_then (either (is_stale now (b.waiter_heap w)) (drop_waiter_at-HasSameIds b w) (same b))
      (drop_stale-HasSameIds q _ now)

award-HasSameIds : (b : Broker) (w p : ℕ) → HasSameIds b (award b w p)
unfolding award
award-HasSameIds b w p =
    let b1 : Broker = record b {
      waiter_heap = update b.waiter_heap w (record (b.waiter_heap w) { lease = some p });
    } in
    and_then {c = b1} (elsewhere refl refl refl refl) (close_channel-HasSameIds b1 w)

start_command-HasSameIds : (b : Broker) (p : ℕ) → HasSameIds b (start_command b p)
unfolding start_command
start_command-HasSameIds b p =
    store-HasSameIds b p (record (b.lease_heap p) { running = suc (b.lease_heap p).running }) refl

piggyback-HasSameIds : (b : Broker) (p w : ℕ) → HasSameIds b (piggyback b p w)
unfolding piggyback
piggyback-HasSameIds b p w =
    and_then (either (b.waiter_heap w).command (start_command-HasSameIds b p) (same b))
      (award-HasSameIds _ w p)

share-HasSameIds :
    (ws : List ℕ) (b : Broker) (p : ℕ) (session : Text) → HasSameIds b (share b p session ws)
unfolding share
share-HasSameIds [] b p session = same b
share-HasSameIds (w ∷ ws) b p session =
    and_then
      (either (text_eq (b.waiter_heap w).session session) (piggyback-HasSameIds b p w) (same b))
      (share-HasSameIds ws _ p session)

pub set_queue-HasSameIds : (b : Broker) (s : Text) (q : List ℕ) → HasSameIds b (set_queue b s q)
set_queue-HasSameIds b s [] = elsewhere refl refl refl refl
set_queue-HasSameIds b s (w ∷ ws) = elsewhere refl refl refl refl

capture_if_enabled-HasSameIds :
    (b : Broker) (id s : Text) → HasSameIds b (capture_if_enabled b id s)
capture_if_enabled-HasSameIds b id s =
    either b.cfg.cleanup_enabled (elsewhere refl refl refl refl) (same b)

-- A lease that is made, and what follows it.
more_then : {b c d : Broker} → HasOneMore b c → HasSameIds c d → HasOneMore b d
more_then {b} x y = record {
  pid = y.pid ∙ x.pid;
  seq = omega (arith, x.seq, y.seq);
  next = y.next ∙ x.next;
  ids = λ p k. y.ids p ∙ x.ids p k;
  id = y.ids b.next_lease ∙ x.id;
}

-- A new lease at `next_lease`, with the next ID.
made-HasOneMore :
    {b c : Broker} (l : Lease)
    → c.pid ≡ b.pid
    → c.seq ≡ suc b.seq
    → c.next_lease ≡ suc b.next_lease
    → c.lease_heap ≡ update b.lease_heap b.next_lease l
    → l.id ≡ id_of b.pid (suc b.seq)
    → HasOneMore b c
made-HasOneMore {b} {c} l e f g h i = record {
  pid = e;
  seq = omega (arith, f);
  next = g;
  ids = λ p k. ap (λ heap. (heap p).id) h ∙ below p k;
  id = ap (λ heap. (heap b.next_lease).id) h ∙ rw (==_refl b.next_lease) i;
}
  where
    below :
        (p : ℕ) → p < b.next_lease → (update b.lease_heap b.next_lease l p).id ≡ (b.lease_heap p).id
    below p k = let apart : (b.next_lease == p) ≡ false = ground arith in rw apart refl

allot-HasOneMore :
    (b : Broker) (s : Text) (now : ℕ) (head : Waiter) → HasOneMore b (allot b s now head)
unfolding allot lease_for new_id
allot-HasOneMore b s now head = made-HasOneMore (lease_for b s now head) refl refl refl refl refl

start_lease-HasOneMore :
    (b : Broker) (s : Text) (now head : ℕ) → HasOneMore b (start_lease b s now head)
unfolding start_lease
start_lease-HasOneMore b s now head =
    more_then (allot-HasOneMore b s now (b.waiter_heap head)) (award-HasSameIds _ head b.next_lease)

pub grant-HasOneMore :
    (b : Broker) (req : AcquireReq) (now idle : ℕ) → HasOneMore b (grant b req now idle)
unfolding grant fresh_lease new_id
grant-HasOneMore b req now idle =
    let l : Lease = fresh_lease b req now idle in
    let b1 : Broker = record b {
      seq = suc b.seq;
      lease_heap = update b.lease_heap b.next_lease l;
      next_lease = suc b.next_lease;
      leases = put b.leases req.serial b.next_lease;
    } in
    let made : HasOneMore b b1 = made-HasOneMore l refl refl refl refl refl in
    more_then made (
      and_then (hist-HasSameIds b1 (text "grant") l []) (
        and_then (capture_if_enabled-HasSameIds (hist b1 (text "grant") l []) l.id l.serial)
          (save_state-HasSameIds _)))

hand_over-HasOneMore :
    (b : Broker) (s : Text) (now head : ℕ) (rest : List ℕ)
    → HasOneMore b (hand_over b s now head rest)
unfolding hand_over
hand_over-HasOneMore b s now head rest =
    let session = (b.waiter_heap head).session in
    let b1 = start_lease b s now head in
    let b2 = share b1 b.next_lease session rest in
    let b3 = set_queue b2 s (remaining b1 session rest) in
    let l = b3.lease_heap b.next_lease in
    let b4 = hist b3 (text "grant") l (text "from queue") in
    more_then (start_lease-HasOneMore b s now head) (
      and_then (share-HasSameIds rest b1 b.next_lease session) (
        and_then (set_queue-HasSameIds b2 s (remaining b1 session rest)) (
          and_then (hist-HasSameIds b3 (text "grant") l (text "from queue"))
            (capture_if_enabled-HasSameIds b4 l.id s))))

pub grant_next-HasApart :
    (b : Broker) (s : Text) (now : ℕ) → HasApart b → HasApart (grant_next b s now)
unfolding grant_next
grant_next-HasApart b s now h = go (alive b now (queue b s))
  where
    dropped : HasApart (drop_stale b now (queue b s))
    dropped = same-HasApart (drop_stale-HasSameIds (queue b s) b now) h

    go :
        (q : List ℕ)
        → HasApart (elim q as (λ o. Broker) [
          | [] ↦ record (drop_stale b now (queue b s)) {
            queues = delete (drop_stale b now (queue b s)).queues s;
          }
          | head ∷ rest ↦ hand_over (drop_stale b now (queue b s)) s now head rest
        ])
    go [] = same-HasApart (elsewhere refl refl refl refl) dropped
    go (head ∷ rest) =
        one_more-HasApart (hand_over-HasOneMore (drop_stale b now (queue b s)) s now head rest)
          dropped

pub end_lease-HasSameIds :
    (b : Broker) (p : ℕ) (reason : Text) (now : ℕ) → HasSameIds b (end_lease b p reason now)
unfolding end_lease
end_lease-HasSameIds b p reason now =
    let b1 : Broker = record b { leases = delete b.leases (b.lease_heap p).serial } in
    and_then {c = b1} (elsewhere refl refl refl refl) (hist-HasSameIds b1 reason (b.lease_heap p) _)

pub either-HasApart :
    (t : Bool) (b c : Broker) → HasApart b → HasApart c → HasApart (if t then b else c)
either-HasApart true b c x y = x
either-HasApart false b c x y = y

pub expire-HasApart :
    (b : Broker) (p : ℕ) (reason : Text) (now : ℕ) → HasApart b → HasApart (expire b p reason now)
unfolding expire
expire-HasApart b p reason now h =
    let ended = same-HasApart (end_lease-HasSameIds b p reason now) h in
    same-HasApart (save_state-HasSameIds _) (
      either-HasApart (wants_cleanup b (b.lease_heap p)) _ _
        (same-HasApart (elsewhere refl refl refl refl) ended)
        (grant_next-HasApart (end_lease b p reason now) (b.lease_heap p).serial now ended))

renew-HasSameIds :
    (b : Broker) (req : AcquireReq) (now idle p : ℕ) → HasSameIds b (renew b req now idle p)
unfolding renew renewed
renew-HasSameIds b req now idle p =
    store-HasSameIds b p (renewed b req now idle (b.lease_heap p)) refl

enqueue-HasSameIds :
    (b : Broker) (req : AcquireReq) (now idle : ℕ) → HasSameIds b (enqueue b req now idle)
unfolding enqueue
enqueue-HasSameIds b req now idle = record {
  pid = refl;
  seq = omega arith;
  next = refl;
  ids = λ p. refl;
}

pub acquire_locked-HasApart :
    (b : Broker) (req : AcquireReq) (now idle : ℕ)
    → HasApart b
    → HasApart (acquire_locked b req now idle).1
unfolding acquire_locked
acquire_locked-HasApart b req now idle h = elim (Bool-cases (cleaning_at b req.serial)) [
  | inl c ↦ rw (c, acquire_locked) (same-HasApart (enqueue-HasSameIds b req now idle) h)
  | inr c ↦ elim (Option-cases (get b.leases req.serial)) [
    | inl e ↦ rw (c, e, acquire_locked) (one_more-HasApart (grant-HasOneMore b req now idle) h)
    | inr (p, e) ↦ elim (Bool-cases (text_eq (b.lease_heap p).session req.session)) [
      | inl k ↦ rw (c, e, k, acquire_locked) (same-HasApart (renew-HasSameIds b req now idle p) h)
      | inr k ↦ rw (c, e, k, acquire_locked) (same-HasApart (enqueue-HasSameIds b req now idle) h)
    ]
  ]
]
