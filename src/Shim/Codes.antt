-- ===== src/Shim/Codes.antt =====
-- internal/harbor/shim.go: the exit code of the shim: runLeasedCommand, execReal and the returns of RunShim. Whether
-- the real adb starts, and how it ends, is an argument; signals and heartbeats are not part of the model.
use adb_harbor.Prelude.{ℕ, ◌≡◌, ◌⊎◌, refl, inl, inr, Bool, true, if◌then◌else◌}
use adb_harbor.Shim.{Outcome, no_adb, unlocked, leased, gave_up}

-- How the real adb ends: with an exit code, by a signal, or its end cannot be waited for.
pub data Ending : Type 0 where
  exits : (code : ℕ) → Ending
  killed broken : Ending

-- (*ExitError).ExitCode is -1 for a process that a signal has ended, and os.Exit makes 255 of it.
abbrev after_wait : Ending → ℕ
after_wait (exits code) = code
after_wait killed = 255
after_wait broken = 127

-- runLeasedCommand
unfoldable pub run_leased_command : Bool → Ending → ℕ
run_leased_command starts ending = if starts then after_wait ending else 127

-- execReal, with the code of the adb that takes the place of the shim.
unfoldable pub exec_real : Bool → ℕ → ℕ
exec_real starts code = if starts then code else 127

-- The code of the shim, by what becomes of the command; `code` is that of an adb that takes its place.
unfoldable pub shim_code : Outcome → Bool → Ending → ℕ → ℕ
unfolding run_leased_command exec_real
shim_code no_adb starts ending code = 1
shim_code (unlocked env) starts ending code = exec_real starts code
shim_code (leased id env) starts ending code = run_leased_command starts ending
shim_code gave_up starts ending code = 75

-- The shim is transparent: where there is an adb that starts and exits with a code, and the wait for the device has an
-- end, the shim exits with that code, with a lease and without.
pub shim_code-transparent :
    (o : Outcome) (code : ℕ)
    → (o ≡ no_adb) ⊎ ((o ≡ gave_up) ⊎ (shim_code o true (exits code) code ≡ code))
unfolding shim_code run_leased_command exec_real
shim_code-transparent no_adb code = inl refl
shim_code-transparent (unlocked env) code = inr (inr refl)
shim_code-transparent (leased id env) code = inr (inr refl)
shim_code-transparent gave_up code = inr (inl refl)
