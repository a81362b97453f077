-- ===== src/Runs/Submit.antt =====
-- internal/harbor/runs.go: CmdSubmit behind the parse of its flags, with saveRun and the files of the runs. The file
-- system, JSON and the Unicode tables are arguments, as in the modules of loadRun and executeRun.
use adb_harbor.Prelude.{ℕ, ◌≡◌, Bool, not, ◌||◌, Option, none, some, if◌then◌else◌}
use adb_harbor.Text.{Text, text, text_eq, is_empty}
use adb_harbor.Runs.{Run, World, execute_run}
use adb_harbor.Runs.Store.{Unicode, meta_path, load_run, Submission, new_run_from_path}

-- The files of the runs, by their paths.
abbrev pub Files : Type 0
Files = Text → Option Text

-- What JSON makes of runs, and where the runs are.
pub record Library : Type 0 where
  pub unicode : Unicode
  pub runs_dir : Text
  pub encode : Run → Text
  pub parse : Text → Option Run

unfoldable pub put_file : Files → Text → Text → Files
put_file f path bytes q = if text_eq path q then some bytes else f q

-- saveRun, where its write succeeds.
unfoldable pub save_run : Library → Files → Run → Files
unfolding put_file meta_path
save_run l f r = put_file f (meta_path l.runs_dir r.id) (l.encode r)

unfoldable pub load : Library → Files → Text → Option Run
load l f id = load_run l.unicode l.runs_dir f l.parse id

abbrev executed : Library → World → ℕ → Files → Option Run → Files
executed l w pid f none = f
executed l w pid f (some r) = save_run l f (execute_run w pid r).run

-- executeRun with the files: it loads the run, and saves what becomes of it. The code ignores an error of that save,
-- which would leave the file as it was at the start; here the save succeeds.
unfoldable pub execute_stored : Library → World → ℕ → Files → Text → Files
unfolding load save_run
execute_stored l w pid f id = executed l w pid f (load l f id)

-- How CmdSubmit ends: with an error before the run, without the run's file, or with the run, which it prints; it is
-- an error unless the run has succeeded.
pub data Submitted : Type 0 where
  rejected lost : Submitted
  finished : (run : Run) (error : Option Text) → Submitted

unfoldable pub report : Option Run → Submitted
report none = lost
report (some r) =
    finished r (if not (text_eq r.status (text "succeeded")) then some r.error else none)

abbrev submit_run : Library → World → ℕ → Files → Option Run → Submitted
submit_run l w pid f none = rejected
submit_run l w pid f (some r) =
    if not w.saves
    then rejected
    else report (load l (execute_stored l w pid (save_run l f r) r.id) r.id)

-- CmdSubmit
unfoldable pub cmd_submit :
    Library
    → World
    → Submission
    → (daemon : Bool) (pid : ℕ) (files : Files) (apk pkg activity : Text) → Submitted
unfolding report execute_stored save_run load
cmd_submit l w x daemon pid files apk pkg activity =
    if is_empty apk || is_empty pkg || is_empty activity
    then rejected
    else if not daemon
    then rejected
    else submit_run l w pid files (new_run_from_path x apk pkg activity)

-- JSON reads a run as it was written.
abbrev pub IsKept : Library → Run → Type 0
IsKept l r = l.parse (l.encode r) ≡ some r
