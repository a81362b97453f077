-- ===== src/Client/Starting.antt =====
-- Starting and stopping the daemon from a client, internal/harbor/client.go.
use mathlib.Core.List.{reverse, reverse-cons, append_assoc}
use adb_harbor.Prelude.{
  ℕ, zero, suc, ◌+◌, ◌*◌, ◌/◌, ◌%◌, ◌≤◌, ◌<◌, ◌≡◌, refl, ap, ◌∙◌, inl, inr, Bool, true, false, ltb,
  leb, Option, none, some, [], ◌∷◌, ◌++◌, if◌then◌else◌, arith, Bool-cases,
}
use adb_harbor.Text.{Text, text}
use adb_harbor.Text.Decimal.{decimal, digits_rev}
use adb_harbor.Broker.{second}
use adb_harbor.Client.Daemon.{
  Ensured, up, not_started, not_up, Launch, await_daemon, ensure_daemon, digits_from, scan_pid,
  pid_file, signals, signal_if, cmd_stop,
}

-- time.Sleep(100 * time.Millisecond)
abbrev pub nap : ℕ
nap = 100_000_000

-- The clock moves by the sleep, at least, in each round, and not back before the first one.
abbrev pub Ticks : (ℕ → ℕ) → Type 0
Ticks clock = (clock 0 ≤ clock 1) × ((i : ℕ) → clock (suc i) + nap ≤ clock (suc (suc i)))

-- No ping up to the i-th was answered.
abbrev pub Silent : (ℕ → Bool) → ℕ → Type 0
Silent pings i = (j : ℕ) → j ≤ i → pings j ≡ false

-- The pings after the first one were sent before the deadline.
abbrev pub Early : Launch → ℕ → Type 0
Early w i = (j : ℕ) → j < i → w.clock (suc j) < w.clock 0 + 3 * second

-- How EnsureDaemon ends: a ping was answered, the first of them that was; the daemon could not be started; or it was
-- started, no ping was answered in any of the rounds up to three seconds, and this is the first round behind them.
pub data EnsureSpec (w : Launch) : Ensured → Type 0 where
  at_once : w.pings 0 ≡ true → EnsureSpec w up
  answers :
      (i : ℕ)
      → w.starts ≡ true
      → Silent w.pings i
      → Early w (suc i)
      → w.pings (suc i) ≡ true
      → EnsureSpec w up
  fails : w.pings 0 ≡ false → w.starts ≡ false → EnsureSpec w not_started
  late :
      (i : ℕ)
      → w.starts ≡ true
      → Silent w.pings i
      → Early w i
      → w.clock 0 + 3 * second ≤ w.clock (suc i)
      → EnsureSpec w not_up

Silent-next :
    (pings : ℕ → Bool) (i : ℕ) → Silent pings i → pings (suc i) ≡ false → Silent pings (suc i)
Silent-next pings i s e j h = elim (Bool-cases (leb j i)) [
  | inl k ↦ s j (ground arith)
  | inr k ↦ rw (same (ground arith)) e
]
  where
    same : i < j → j ≡ suc i
    same k = omega arith

Early-next :
    (w : Launch) (i : ℕ) → Early w i → w.clock (suc i) < w.clock 0 + 3 * second → Early w (suc i)
Early-next w i s e j h = elim (Bool-cases (ltb j i)) [
  | inl k ↦ s j (ground arith)
  | inr k ↦ rw (same (ground arith)) e
]
  where
    same : i ≤ j → j ≡ i
    same k = omega arith

module _ (w : Launch) (ticks : Ticks w.clock) (starts : w.starts ≡ true) where
  abbrev Ends : Option Ensured → Type 0
  Ends o = (r : Ensured) × (o ≡ some r) × EnsureSpec w r

  -- One round, with the later rounds as an argument.
  await_daemon_round-Ends :
      (i : ℕ) (rest : Option Ensured)
      → Silent w.pings i
      → Early w i
      → (w.clock (suc i) < w.clock 0 + 3 * second → w.pings (suc i) ≡ false → Ends rest)
      → Ends (
          if ltb (w.clock (suc i)) (w.clock 0 + 3 * second)
          then if w.pings (suc i) then some up else rest
          else some not_up)
  await_daemon_round-Ends i rest silent early more =
      elim (Bool-cases (ltb (w.clock (suc i)) (w.clock 0 + 3 * second))) [
        | inl e ↦ elim (Bool-cases (w.pings (suc i))) [
          | inl k ↦
              rw (e, k) (up, refl, answers i starts silent (Early-next w i early (ground arith)) k)
          | inr k ↦ rw (e, k) (more (ground arith) k)
        ]
        | inr e ↦ rw e (not_up, refl, late i starts silent early (ground arith))
      ]

  await_daemon-Ends :
      (fuel i : ℕ)
      → w.clock 0 + 3 * second ≤ w.clock (suc i) + fuel * nap
      → Silent w.pings i
      → Early w i
      → Ends (await_daemon w (w.clock 0 + 3 * second) (suc fuel) i)
  unfolding await_daemon
  await_daemon-Ends zero i h silent early =
      await_daemon_round-Ends i none silent early (λ k e. absurd (omega arith))
  await_daemon-Ends (suc fuel) i h silent early =
      await_daemon_round-Ends i (await_daemon w (w.clock 0 + 3 * second) (suc fuel) (suc i)) silent
        early
        (λ k e.
          await_daemon-Ends fuel (suc i) (omega (arith, h, ticks.1 i))
            (Silent-next w.pings i silent e) (Early-next w i early k))

-- Where the clock does not go back before the first round, and moves by 100 ms, at least, from one round to the next,
-- EnsureDaemon ends, after at most 31 rounds. The daemon is up where the first ping was answered, or where it was
-- started and a later ping was, the first of them to be, in a round before three seconds had passed. It was not started
-- where the first ping was not answered and its start failed. And it is not up where it was started, no ping of the
-- rounds before three seconds had passed was answered, and the round that ends it is the first one after that.
pub ensure_daemon-ends :
    (w : Launch) → Ticks w.clock → (r : Ensured) × (ensure_daemon w 31 ≡ some r) × EnsureSpec w r
unfolding ensure_daemon
ensure_daemon-ends w ticks = elim (Bool-cases (w.pings 0)) [
  | inl e ↦ rw e (up, refl, at_once e)
  | inr e ↦ elim (Bool-cases w.starts) [
    | inl k ↦
        simp (e, k)
          (await_daemon-Ends w ticks k 30 0 (omega (arith, ticks.0)) (first_silent e)
            (λ j h. absurd (omega arith)))
    | inr k ↦ simp (e, k) (not_started, refl, fails e k)
  ]
]
  where
    first_silent : w.pings 0 ≡ false → Silent w.pings 0
    first_silent e zero h = e
    first_silent e (suc j) h = absurd (omega arith)

digits_from-digits_rev :
    (f n : ℕ) (t : Text) → n < f → digits_from 0 (reverse (digits_rev f n) ++ t) ≡ digits_from n t
unfolding digits_rev digits_from
digits_from-digits_rev zero n t h = absurd (omega arith)
digits_from-digits_rev (suc f) n t h = elim (Bool-cases (ltb n 10)) [
  | inl e ↦ rw e (ground arith)
  | inr e ↦ rw e (
      ap (λ (s : Text). digits_from 0 (s ++ t)) (reverse-cons (n % 10 + 48) (digits_rev f (n / 10)))
      ∙ ap (digits_from 0) (append_assoc (reverse (digits_rev f (n / 10))) ((n % 10 + 48) ∷ []) t)
      ∙ digits_from-digits_rev f (n / 10) ((n % 10 + 48) ∷ t) (ground arith)
      ∙ ground arith)
]

-- CmdStop signals the process whose ID RunDaemon wrote to the file, where that is above 1 and the process is there.
pub cmd_stop-pid_file :
    (there : ℕ → Bool) (pid : ℕ)
    → 1 < pid
    → there pid ≡ true
    → cmd_stop there (some (pid_file pid)) ≡ signals pid
unfolding cmd_stop pid_file scan_pid signal_if digits_from decimal
cmd_stop-pid_file there pid h k =
    let e = digits_from-digits_rev (suc pid) pid (text "\n") (omega arith) in rw e (ground arith)
