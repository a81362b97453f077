-- ===== src/Cli/Reports.antt =====
-- What `who` of internal/harbor/cli.go shows of the daemon's state, internal/harbor/broker.go.
use adb_harbor.Prelude.{
  ℕ, suc, ◌≡◌, refl, ap, ◌∙◌, inl, inr, Option, none, some, List, [], ◌∷◌, ◌++◌, if◌then◌else◌,
  arith, map, Bool-cases,
}
use adb_harbor.Text.{Text, text, text_eq}
use adb_harbor.Text.Decimal.{decimal}
use adb_harbor.Text.Laws.{text_eq_iff, text_eq_refl}
use adb_harbor.Map.{Map, get}
use adb_harbor.Map.Laws.{Distinct}
use adb_harbor.Protocol.{WaiterInfo}
use adb_harbor.Broker.{Broker, queue, or_nil}
use adb_harbor.Broker.Report.{lease_info, waiter_info, lease_infos, queue_infos, handle_state}
use adb_harbor.Broker.Run.{Reachable}
use adb_harbor.Broker.Valid.{IsValid}
use adb_harbor.Broker.Valid.Reached.{Reachable-Valid}
use adb_harbor.Cli.{who, who_held, who_queue}

-- st.Queues[serial]
abbrev pub waiters_at : Map (List WaiterInfo) → Text → List WaiterInfo
waiters_at m serial = or_nil (get m serial)

module _ (kitchen : ℕ → Text) (serial : Text) (b : Broker) where
  -- The lines for the waiters in line, with the holder that each gave, from the number `i` on.
  abbrev pub line_is : ℕ → List ℕ → Text
  line_is i [] = []
  line_is i (w ∷ ws) =
      text "  queue["
      ++ decimal i
      ++ text "]: "
      ++ (b.waiter_heap w).holder
      ++ text "\n"
      ++ line_is (suc i) ws

  -- What CmdWho ought to print, of the lease that the broker has on the device, if any.
  abbrev pub who_is : Option ℕ → Text
  who_is none = serial ++ text " is free\n"
  who_is (some p) =
      serial
      ++ text " is held by "
      ++ (b.lease_heap p).holder
      ++ text " (session "
      ++ (b.lease_heap p).session
      ++ text ") since "
      ++ kitchen (b.lease_heap p).acquired_at
      ++ text ", "
      ++ decimal (b.lease_heap p).running
      ++ text " command(s) running\n"
      ++ line_is 1 (queue b serial)

  who_queue-line_is :
      (i : ℕ) (ws : List ℕ)
      → who_queue i (map (λ w. waiter_info (b.waiter_heap w)) ws) ≡ line_is i ws
  unfolding who_queue waiter_info
  who_queue-line_is i [] = refl
  who_queue-line_is i (w ∷ ws) = rw (who_queue-line_is (suc i) ws) refl

  infos : List WaiterInfo
  infos = map (λ w. waiter_info (b.waiter_heap w)) (queue b serial)

  who-entries :
      (m : Map ℕ)
      → ((s : Text) (p : ℕ) → get m s ≡ some p → (b.lease_heap p).serial ≡ s)
      → Distinct m
      → who kitchen serial infos (lease_infos b m) ≡ who_is (get m serial)
  unfolding who lease_infos get lease_info infos who_held
  who-entries [] held d = refl
  who-entries ((s, p) ∷ m) held d =
      rw (held s p (rw (text_eq_refl s) refl)) (elim (Bool-cases (text_eq s serial)) [
        | inl e ↦ rw (e, who_queue-line_is 1 (queue b serial)) refl
        | inr e ↦ rw e (who-entries m (λ t q h. held t q (later t q h)) d.1)
      ])
    where
      later :
          (t : Text) (q : ℕ) → get m t ≡ some q → (if text_eq s t then some p else get m t) ≡ some q
      later t q h = ground (arith, h, text_eq_iff s t, d.0)

  queue-entries :
      (m : Map (List ℕ))
      → waiters_at (queue_infos b m) serial
        ≡ map (λ w. waiter_info (b.waiter_heap w)) (or_nil (get m serial))
  unfolding queue_infos get
  queue-entries [] = refl
  queue-entries ((s, q) ∷ m) = elim (Bool-cases (text_eq s serial)) [
    | inl e ↦ rw e refl
    | inr e ↦ rw e (queue-entries m)
  ]

  -- What CmdWho prints of the state that handleState reports.
  abbrev pub who_now : Text
  who_now = who kitchen serial (waiters_at (handle_state b).queues serial) (handle_state b).leases

-- In every state that the daemon comes to, `who` prints of the daemon's report, of the lease that the broker has on
-- the device, its holder, its session, when it was acquired and how many commands run on it, and, numbered from 1, the
-- holders of the waiters in the device's line, in their order; and that the device is free when the broker has no lease
-- on it.
pub who-who_is :
    {b : Broker}
    → Reachable b
    → (kitchen : ℕ → Text) (serial : Text)
    → who_now kitchen serial b ≡ who_is kitchen serial b (get b.leases serial)
unfolding handle_state infos
who-who_is {b} r kitchen serial =
    let v : IsValid b = Reachable-Valid r in
    ap (λ ws. who kitchen serial ws (lease_infos b b.leases))
      (queue-entries kitchen serial b b.queues)
    ∙ who-entries kitchen serial b b.leases (λ s p h. (v.held s p h).1) v.distinct
