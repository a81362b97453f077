-- ===== src/Broker/Release.antt =====
-- internal/harbor/broker.go: expireLocked and grantNextLocked, which end a lease and hand the device
-- to the next session of the queue.
use adb_harbor.Prelude.{
  ℕ, suc, ◌-◌, ◌*◌, Bool, true, false, not, ◌&&◌, Option, none, some, List, [], ◌∷◌, ◌++◌, ltb,
  if◌then◌else◌, ◌==◌, keep,
}
use adb_harbor.Text.{Text, text, text_eq}
use adb_harbor.Map.{put, delete}
use adb_harbor.Broker.{
  Broker, Lease, Waiter, second, stale_waiter, update, queue, cleaning_at, new_id, hist, save_state,
  spawn, run_cleanup, close_channel, rounded_text,
}
use adb_harbor.Broker.Grant.{capture_if_enabled}

abbrev pub is_none {ℓ} : {A : Type ℓ} → Option A → Bool
is_none none = true
is_none (some a) = false

-- wt.lease == nil && now.Sub(wt.LastPoll) > staleWaiter
unfoldable pub is_stale : ℕ → Waiter → Bool
is_stale now wt = is_none wt.lease && ltb stale_waiter (now - wt.last_poll)

-- The waiters that the first loop of grantNextLocked keeps.
unfoldable pub alive : Broker → ℕ → List ℕ → List ℕ
unfolding is_stale
alive b now q = keep (λ w. not (is_stale now (b.waiter_heap w))) q

unfoldable pub drop_waiter_at : Broker → ℕ → Broker
unfolding close_channel
drop_waiter_at b w = close_channel (record b { waiters = delete b.waiters (b.waiter_heap w).id }) w

-- What that loop does to the waiters that it drops.
unfoldable pub drop_stale : Broker → ℕ → List ℕ → Broker
unfolding is_stale drop_waiter_at
drop_stale b now [] = b
drop_stale b now (w ∷ q) =
    drop_stale (if is_stale now (b.waiter_heap w) then drop_waiter_at b w else b) now q

-- wt.lease = l; close(wt.ch)
unfoldable pub award : Broker → ℕ → ℕ → Broker
unfolding close_channel
award b w p =
    close_channel
      (record b {
        waiter_heap = update b.waiter_heap w (record (b.waiter_heap w) { lease = some p });
      })
      w

unfoldable pub start_command : Broker → ℕ → Broker
start_command b p = record b {
  lease_heap =
      update b.lease_heap p (record (b.lease_heap p) { running = suc (b.lease_heap p).running });
}

-- A waiter of the head's session joins its lease.
unfoldable pub piggyback : Broker → ℕ → ℕ → Broker
unfolding award start_command
piggyback b p w = award (if (b.waiter_heap w).command then start_command b p else b) w p

-- The second loop of grantNextLocked: what it does to the waiters of the head's session.
unfoldable pub share : Broker → ℕ → Text → List ℕ → Broker
unfolding piggyback
share b p session [] = b
share b p session (w ∷ ws) =
    share (if text_eq (b.waiter_heap w).session session then piggyback b p w else b) p session ws

-- The waiters that it leaves in the queue.
unfoldable pub remaining : Broker → Text → List ℕ → List ℕ
remaining b session ws = keep (λ w. not (text_eq (b.waiter_heap w).session session)) ws

abbrev pub set_queue : Broker → Text → List ℕ → Broker
set_queue b serial [] = record b { queues = delete b.queues serial }
set_queue b serial (w ∷ ws) = record b { queues = put b.queues serial (w ∷ ws) }

unfoldable pub lease_for : Broker → Text → ℕ → Waiter → Lease
lease_for b serial now head = record {
  id = new_id b (text "lease");
  serial = serial;
  session = head.session;
  holder = head.holder;
  pid = 0;
  acquired_at = now;
  last_active = now;
  last_beat = now;
  running = if head.command then 1 else 0;
  idle_ttl = if head.idle_ttl == 0 then b.cfg.idle_ttl_sec * second else head.idle_ttl;
  explicit = false;
  expires_at = 0;
  claimed = false;
  baseline = [];
}

-- The new lease of grantNextLocked, at the old `next_lease`.
unfoldable pub allot : Broker → Text → ℕ → Waiter → Broker
unfolding lease_for
allot b serial now head = record b {
  seq = suc b.seq;
  lease_heap = update b.lease_heap b.next_lease (lease_for b serial now head);
  next_lease = suc b.next_lease;
  leases = put b.leases serial b.next_lease;
}

-- The head of the queue gets the new lease: `head.lease = l; close(head.ch)`.
unfoldable pub start_lease : Broker → Text → ℕ → ℕ → Broker
unfolding allot award
start_lease b serial now head = award (allot b serial now (b.waiter_heap head)) head b.next_lease

-- grantNextLocked from the point where the head of the queue is known.
unfoldable pub hand_over : Broker → Text → ℕ → ℕ → List ℕ → Broker
hand_over b serial now head rest =
    let p = b.next_lease in
    let session = (b.waiter_heap head).session in
    let b1 = start_lease b serial now head in
    let b2 = set_queue (share b1 p session rest) serial (remaining b1 session rest) in
    let l = b2.lease_heap p in
    capture_if_enabled (hist b2 (text "grant") l (text "from queue")) l.id serial

-- (*Broker).grantNextLocked
unfoldable pub grant_next : Broker → Text → ℕ → Broker
grant_next b serial now =
    let b1 = drop_stale b now (queue b serial) in
    elim (alive b now (queue b serial)) [
      | [] ↦ record b1 { queues = delete b1.queues serial }
      | head ∷ rest ↦ hand_over b1 serial now head rest
    ]

-- Whether the device is cleaned before it is handed on.
abbrev is_nonempty : List Text → Bool
is_nonempty [] = false
is_nonempty (x ∷ xs) = true

unfoldable pub wants_cleanup : Broker → Lease → Bool
wants_cleanup b l = b.cfg.cleanup_enabled && is_nonempty l.baseline && not (cleaning_at b l.serial)

unfoldable pub end_lease : Broker → ℕ → Text → ℕ → Broker
end_lease b p reason now =
    let l = b.lease_heap p in
    hist (record b { leases = delete b.leases l.serial }) reason l
      (text "held " ++ rounded_text (now - l.acquired_at))

-- (*Broker).expireLocked of the lease at `p`.
unfoldable pub expire : Broker → ℕ → Text → ℕ → Broker
expire b p reason now =
    let l = b.lease_heap p in
    let b1 = end_lease b p reason now in
    save_state (
      if wants_cleanup b l
      then spawn (record b1 { cleaning = put b1.cleaning l.serial true }) (run_cleanup p)
      else grant_next b1 l.serial now)
