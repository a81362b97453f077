-- ===== src/Session/Process.antt =====
-- internal/harbor/session.go: what psInfo reads of the output of `ps`, DetectSession and its like, and HolderDesc.
-- Process IDs have no sign; texts are ASCII.
use adb_harbor.Prelude.{ℕ, Bool, Option, none, some, List, [], ◌∷◌, ◌++◌}
use adb_harbor.Text.{Text, text, trim_space, fields, join, to_lower}
use adb_harbor.Text.Atoi.{atoi}
use adb_harbor.Config.{Config}
use adb_harbor.Shim.RealAdb.{base}
use adb_harbor.Session.{classify_pid, detect_session_observer}

abbrev with_parent : List Text → Option (Bool × ℕ) → Option (Text × ℕ)
with_parent comm none = none
with_parent comm (some (negative, ppid)) = some (to_lower (base (join comm (32 ∷ []))), ppid)

abbrev of_fields : List Text → Option (Text × ℕ)
of_fields [] = none
of_fields (ppid ∷ []) = none
of_fields (ppid ∷ comm ∷ more) = with_parent (comm ∷ more) (atoi ppid)

-- psInfo, of the output of `ps -o ppid=,comm=`, or an error: the name and the parent.
unfoldable pub ps_info : Option Text → Option (Text × ℕ)
unfolding base fields trim_space
ps_info none = none
ps_info (some out) = of_fields (fields (trim_space out))

-- DetectSession
unfoldable pub detect_session : (ℕ → Option (Text × ℕ)) → Config → Text → Text → ℕ → Text
detect_session ps cfg harbor_session claude_session ppid =
    let (session, observer) = detect_session_observer ps cfg harbor_session claude_session ppid in
    session

-- DetectSessionForPID
unfoldable pub detect_session_for_pid : (ℕ → Option (Text × ℕ)) → Config → ℕ → Text
detect_session_for_pid ps cfg pid = let (session, observer) = classify_pid ps cfg pid in session

-- HolderDesc, of the working directory.
unfoldable pub holder_desc : Option Text → Text → Text
unfolding base
holder_desc none session = session
holder_desc (some wd) session = session ++ (text " (" ++ (base wd ++ text ")"))
