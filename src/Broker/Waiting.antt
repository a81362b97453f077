-- ===== src/Broker/Waiting.antt =====
-- internal/harbor/broker.go: how a queued client waits. Each function is one section under the lock:
-- handleWait before and after its select, the branches of waitLocal, dropWaiter, positionLocked.
use adb_harbor.Prelude.{
  ℕ, suc, Bool, true, false, Option, none, some, List, [], ◌∷◌, ◌==◌, if◌then◌else◌, remove,
}
use adb_harbor.Text.{Text, text}
use adb_harbor.Map.{get, delete}
use adb_harbor.Protocol.{WaitResp}
use adb_harbor.Broker.{Broker, Lease, Waiter, update, queue, serial_desc}
use adb_harbor.Broker.Release.{set_queue, expire}

abbrev pub store_lease : Broker → ℕ → Lease → Broker
store_lease b p l = record b { lease_heap = update b.lease_heap p l }

abbrev pub store_waiter : Broker → ℕ → Waiter → Broker
store_waiter b w wt = record b { waiter_heap = update b.waiter_heap w wt }

-- wt.LastPoll = time.Now(): the tick of waitLocal, and part of handleWait.
unfoldable pub poll : Broker → ℕ → ℕ → Broker
poll b w now = store_waiter b w (record (b.waiter_heap w) { last_poll = now })

-- l.Claimed = true
unfoldable pub claim : Broker → ℕ → Broker
claim b p = store_lease b p (record (b.lease_heap p) { claimed = true })

-- delete(b.waiters, wt.ID)
unfoldable pub unregister : Broker → ℕ → Broker
unregister b w = record b { waiters = delete b.waiters (b.waiter_heap w).id }

-- The section that picks a granted lease up: in handleWait, before or after the select, and in
-- waitLocal when the channel is closed.
unfoldable pub pick_up : Broker → ℕ → Option ℕ × Broker
pick_up b w =
    let l = (b.waiter_heap w).lease in (l, unregister (elim l [ none ↦ b | some p ↦ claim b p ]) w)

abbrev pub expired_resp : WaitResp
expired_resp = record {
  granted = false;
  lease_id = [];
  position = 0;
  holder_desc = [];
  expired = true;
}

abbrev pub granted_resp : Text → WaitResp
granted_resp id = record {
  granted = true;
  lease_id = id;
  position = 0;
  holder_desc = [];
  expired = false;
}

abbrev pub waiting_resp : ℕ → Text → WaitResp
waiting_resp pos desc = record {
  granted = false;
  lease_id = [];
  position = pos;
  holder_desc = desc;
  expired = false;
}

abbrev pub pick_up_resp : Broker → Option ℕ → WaitResp
pick_up_resp b none = expired_resp
pick_up_resp b (some p) = granted_resp (b.lease_heap p).id

-- handleWait up to its select: an answer, or the waiter on whose channel it blocks.
pub data WaitStart : Type 0 where
  answered : WaitResp → WaitStart
  blocked : ℕ → WaitStart

unfoldable pub wait_start : Broker → Text → ℕ → WaitStart × Broker
wait_start b id now = elim (get b.waiters id) [
  | none ↦ (answered expired_resp, b)
  | some w ↦
      let b1 = poll b w now in
      elim (b1.waiter_heap w).lease [
        | none ↦ (blocked w, b1)
        | some p ↦ let (l, b2) = pick_up b1 w in (answered (pick_up_resp b2 l), b2)
      ]
]

-- The branch of handleWait's select where the channel is closed.
unfoldable pub wait_woken : Broker → ℕ → WaitResp × Broker
wait_woken b w = let (l, b1) = pick_up b w in (pick_up_resp b1 l, b1)

abbrev pub position_in : List ℕ → ℕ → ℕ → ℕ
position_in [] w i = 0
position_in (x ∷ q) w i = if x == w then suc i else position_in q w (suc i)

-- (*Broker).positionLocked; 0 when the waiter is not queued.
unfoldable pub position : Broker → ℕ → ℕ
position b w = position_in (queue b (b.waiter_heap w).serial) w 0

-- The branch of handleWait's select where the poll times out.
unfoldable pub wait_timed_out : Broker → ℕ → ℕ → WaitResp × Broker
wait_timed_out b w now =
    let b1 = poll b w now in
    (waiting_resp (position b1 w) (serial_desc b1 (b.waiter_heap w).serial now), b1)

abbrev pub holds : Option ℕ → ℕ → Bool
holds none p = false
holds (some q) p = q == p

-- (*Broker).dropWaiter: an expired deadline or a client that went away, in waitLocal.
unfoldable pub drop_waiter : Broker → ℕ → ℕ → Broker
drop_waiter b w now =
    let wt = b.waiter_heap w in
    let b1 = unregister b w in
    let b2 = set_queue b1 wt.serial (remove w (queue b1 wt.serial)) in
    elim wt.lease [
      | none ↦ b2
      | some p ↦
          if holds (get b2.leases wt.serial) p then expire b2 p (text "abandoned") now else b2
    ]
