-- ===== src/Examples/Queue.antt =====
-- Runs of the waiters of internal/harbor/broker.go.
use adb_harbor.Prelude.{◌≡◌, refl, false, List, [], ◌∷◌}
use adb_harbor.Text.{text}
use adb_harbor.Broker.Release.{expire, wants_cleanup, is_stale}
use adb_harbor.Broker.Waiting.{drop_waiter, poll}
use adb_harbor.Broker.Local.{LocalRound, others, tick, client_gone, acquire_local_blocking}
use adb_harbor.Broker.Local.Ends.{EndsWell, last_queued, acquire_local_blocking-EndsWell}
use adb_harbor.Broker.Fairness.{IsNearer, expire-IsNearer}
use adb_harbor.Broker.GivingUp.{IsGone, drop_waiter-IsGone}
use adb_harbor.Broker.Run.{moves, ends, ticks}
use adb_harbor.Broker.Valid.{core}
use adb_harbor.Broker.Handlers.{end_command, idle_of}
use adb_harbor.Client.{Try, calls, late, ask_broker}
use adb_harbor.Client.Leases.{AsksWell, acquire_blocking-AsksWell}
use adb_harbor.Examples.Broker.{
  runs, phone, contended, contended-Reachable, contended-held, contended-queued, taken,
  taken-Reachable, second_request,
}

contended-kept : wants_cleanup contended (contended.lease_heap 0) ≡ false
unfolding runs
contended-kept = refl

contended-polls : is_stale 5 (contended.waiter_heap 0) ≡ false
unfolding runs is_stale
contended-polls = refl

expire-IsNearer_example :
    IsNearer phone 0 (core contended) (core (expire contended 0 (text "idle") 5))
expire-IsNearer_example =
    expire-IsNearer contended-Reachable phone 0 0 (text "idle") 5 contended-held contended-kept
      contended-queued contended-polls

drop_waiter-IsGone_example :
    IsGone 0
      (contended.waiter_heap 0).serial
      (contended.waiter_heap 0).lease
      (core (drop_waiter contended 0 6))
drop_waiter-IsGone_example = drop_waiter-IsGone contended-Reachable 0 6

-- A client waits for the phone, the holder's command ends meanwhile, and the client goes away.
abbrev waiting : List LocalRound
waiting =
    record {
      now = 3;
      script = others (λ b. end_command b (text "lease-1-1") 4) ∷ tick 5 ∷ client_gone 6 ∷ [];
    }
    ∷ []

acquire_local_blocking-EndsWell_example :
    EndsWell second_request
      (last_queued taken second_request (idle_of taken second_request) waiting)
      (acquire_local_blocking taken second_request waiting).0
      (acquire_local_blocking taken second_request waiting).1
acquire_local_blocking-EndsWell_example =
    acquire_local_blocking-EndsWell taken-Reachable second_request waiting
      (((λ b r. moves r (ends (text "lease-1-1") 4)), (tt, (tt, tt))), tt)

-- A client asks for the phone over the socket, polls once, and gives up.
abbrev asking : List Try
asking =
    record {
      before = λ b. b;
      now = 2;
      turns =
          calls (record { before = λ b. b; meanwhile = λ b. poll b 0 3; now = 3; later = 4 })
          ∷ late
          ∷ [];
    }
    ∷ []

acquire_blocking-AsksWell_example :
    AsksWell (ask_broker taken second_request asking).0 (ask_broker taken second_request asking).1
acquire_blocking-AsksWell_example =
    acquire_blocking-AsksWell taken-Reachable second_request asking
      (((λ b r. r), (((λ b r. r), (λ b r. moves r (ticks 0 3))), (tt, tt))), tt)
