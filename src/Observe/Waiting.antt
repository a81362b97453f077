-- ===== src/Observe/Waiting.antt =====
-- toolWaitForRun, internal/harbor/observe.go: the wait for a run ends.
use adb_harbor.Prelude.{
  ℕ, zero, suc, ◌+◌, ◌*◌, ◌≤◌, ◌<◌, ◌≡◌, refl, inl, inr, true, false, Option, none, some, arith,
  Bool-cases, Option-cases, ltb,
}
use adb_harbor.Broker.{second}
use adb_harbor.Runs.{Run}
use adb_harbor.Observe.{
  is_done, Waited, not_found, done, timed_out, wait_seconds, wait_round, wait_loop, wait_for_run,
}

-- time.Sleep(400 * time.Millisecond)
abbrev pub nap : ℕ
nap = 400_000_000

-- The clock does not go back before the first round, and moves by the sleep, at least, in each round.
abbrev pub Ticks : (ℕ → ℕ) → Type 0
Ticks clock = (clock 0 ≤ clock 1) × ((i : ℕ) → clock (suc i) + nap ≤ clock (suc (suc i)))

-- How the wait ends: in a round where the run cannot be loaded; where it is done; or where it is not and the
-- deadline has passed.
pub data WaitSpec (load : ℕ → Option Run) (clock : ℕ → ℕ) (deadline : ℕ) : Waited → Type 0 where
  lost : (i : ℕ) → load i ≡ none → WaitSpec load clock deadline not_found
  finished :
      (i : ℕ) {r : Run} → load i ≡ some r → is_done r ≡ true → WaitSpec load clock deadline (done r)
  late :
      (i : ℕ) {r : Run}
      → load i ≡ some r
      → is_done r ≡ false
      → deadline < clock (suc i)
      → WaitSpec load clock deadline (timed_out r)

-- The loop on enough fuel.
module _ (load : ℕ → Option Run) (clock : ℕ → ℕ) (deadline : ℕ)
    (ticks : (i : ℕ) → clock (suc i) + nap ≤ clock (suc (suc i))) where
  Ends : Option Waited → Type 0
  Ends o = (w : Waited) × (o ≡ some w) × WaitSpec load clock deadline w

  wait_round-Ends :
      (i : ℕ) (rest : Option Waited)
      → (ltb deadline (clock (suc i)) ≡ false → Ends rest)
      → Ends (wait_round load clock deadline i rest)
  unfolding wait_round Ends
  wait_round-Ends i rest more = elim (Option-cases (load i)) [
    | inl e ↦ rw (e, wait_round) (not_found, refl, lost i e)
    | inr (r, e) ↦ elim (Bool-cases (is_done r)) [
      | inl d ↦ rw (e, d, wait_round) (done r, refl, finished i e d)
      | inr d ↦ elim (Bool-cases (ltb deadline (clock (suc i)))) [
        | inl k ↦ rw (e, d, k, wait_round) (timed_out r, refl, late i e d (ground arith))
        | inr k ↦ rw (e, d, k, wait_round) (more k)
      ]
    ]
  ]

  wait_loop-Ends :
      (fuel i : ℕ)
      → deadline < clock (suc i) + fuel * nap
      → Ends (wait_loop load clock deadline (suc fuel) i)
  unfolding wait_loop
  wait_loop-Ends zero i h = wait_round-Ends i none (λ k. absurd (ground arith))
  wait_loop-Ends (suc fuel) i h =
      wait_round-Ends i (wait_loop load clock deadline (suc fuel) (suc i))
        (λ k. wait_loop-Ends fuel (suc i) (omega (arith, h, ticks i)))

-- The wait for a run ends, after at most three rounds for each second of its timeout and one more: the run cannot
-- be loaded; it is done; or it is not, and the deadline has passed.
pub wait_for_run-ends :
    (load : ℕ → Option Run) (clock : ℕ → ℕ) (timeout_sec : ℕ)
    → Ticks clock
    → (w : Waited) × (wait_for_run load clock timeout_sec (suc (3 * wait_seconds timeout_sec))
        ≡ some w)
      × WaitSpec load clock (clock 0 + wait_seconds timeout_sec * second) w
unfolding wait_for_run wait_seconds Ends
wait_for_run-ends load clock timeout_sec ticks =
    wait_loop-Ends load clock (clock 0 + wait_seconds timeout_sec * second) (ticks.1)
      (3 * wait_seconds timeout_sec) 0 (ground (arith, ticks.0))
