-- ===== src/Client.antt =====
-- internal/harbor/client.go: AcquireBlocking against the handlers of internal/harbor/broker.go that answer it. What
-- the other goroutines do to the broker before and during a call, the clock, and which calls fail are a script.
pub mod Waits
pub mod Leases
pub mod Daemon
pub mod Calls
pub mod Starting
use adb_harbor.Prelude.{
  ℕ, Bool, true, false, ◌||◌, Option, none, some, List, [], ◌∷◌, if◌then◌else◌,
}
use adb_harbor.Text.{Text}
use adb_harbor.Protocol.{AcquireReq, AcquireResp, WaitResp}
use adb_harbor.Broker.{Broker}
use adb_harbor.Broker.Handlers.{handle_acquire}
use adb_harbor.Broker.Waiting.{WaitStart, answered, blocked, wait_start, wait_woken, wait_timed_out}
use adb_harbor.Shim.{Poll, too_late, Polled, returns, breaks, polling, poll_loop, Round}

-- A call of /v1/wait that is answered: what others do before handleWait takes the lock and while it is in its
-- select, the clock then, and when the poll times out.
pub record WaitCall : Type 0 where
  pub before : Broker → Broker
  pub meanwhile : Broker → Broker
  pub now : ℕ
  pub later : ℕ

-- handleWait's select: the channel, when it is closed, or the end of the poll.
unfoldable pub select_branch : Broker → ℕ → ℕ → WaitResp × Broker
select_branch b w later =
    if (b.waiter_heap w).closed then wait_woken b w else wait_timed_out b w later

abbrev pub after_start : WaitStart → Broker → WaitCall → WaitResp × Broker
after_start (answered resp) b c = (resp, b)
after_start (blocked w) b c = select_branch (c.meanwhile b) w c.later

-- handleWait as the client sees it.
unfoldable pub serve_wait : Broker → Text → WaitCall → WaitResp × Broker
unfolding select_branch
serve_wait b id c = let (s, b1) = wait_start (c.before b) id c.now in after_start s b1 c

-- A round of the inner loop: the deadline has passed, the call fails, or it is answered.
pub data Turn : Type 0 where
  late fails : Turn
  calls : WaitCall → Turn

-- What a turn adds, with the rest of the polls.
abbrev pub then_polls : WaitResp × Broker → List Poll × Broker → List Poll × Broker
then_polls (resp, b) (polls, c) =
    if resp.granted || resp.expired
    then (Poll.answered (some resp) ∷ [], b)
    else (Poll.answered (some resp) ∷ polls, c)

-- The inner loop against the broker: the polls, until one is the last, and the broker then.
unfoldable pub poll_broker : Broker → Text → List Turn → List Poll × Broker
unfolding serve_wait
poll_broker b id [] = ([], b)
poll_broker b id (late ∷ turns) = (too_late ∷ [], b)
poll_broker b id (fails ∷ turns) = (Poll.answered none ∷ [], b)
poll_broker b id (calls c ∷ turns) =
    then_polls (serve_wait b id c) (poll_broker (serve_wait b id c).1 id turns)

-- A round of the outer loop: what others do before the call of /v1/acquire, the clock, and the turns after it.
pub record Try : Type 0 where
  pub before : Broker → Broker
  pub now : ℕ
  pub turns : List Turn

-- Whether the inner loop broke off, for another round.
abbrev pub goes_on : Polled → Bool
goes_on (returns a) = false
goes_on breaks = true
goes_on polling = false

-- A round whose waiter was told, and the rounds after it.
abbrev pub then_rounds :
    AcquireResp → List Poll × Broker → List Round × Broker → List Round × Broker
then_rounds ar (polls, b) (rounds, c) =
    let round : Round = record { answer = some ar; polls = polls } in
    if goes_on (poll_loop polls) then (round ∷ rounds, c) else (round ∷ [], b)

-- A round, by the answer to its acquire.
abbrev pub by_answer :
    Option AcquireResp → Broker → List Turn → (Broker → List Round × Broker) → List Round × Broker
by_answer none b turns next = (record { answer = none; polls = [] } ∷ [], b)
by_answer (some ar) b turns next =
    if ar.granted
    then (record { answer = some ar; polls = [] } ∷ [], b)
    else then_rounds ar (poll_broker b ar.waiter_id turns)
        (next (poll_broker b ar.waiter_id turns).1)

-- The outer loop against the broker: the rounds that AcquireBlocking sees, and the broker at its end.
unfoldable pub ask_broker : Broker → AcquireReq → List Try → List Round × Broker
unfolding poll_broker
ask_broker b req [] = ([], b)
ask_broker b req (t ∷ tries) =
    let (answer, b1) = handle_acquire (t.before b) (some req) t.now in
    by_answer answer b1 t.turns (λ c. ask_broker c req tries)
