-- ===== src/Session.antt =====
-- internal/harbor/session.go: the session key of a caller. The process table is a parameter: what `ps`
-- tells of a pid, its lower-case base name and its parent. Texts are ASCII.
pub mod Keys
pub mod Process
use adb_harbor.Prelude.{
  ℕ, zero, suc, ◌==◌, ltb, leb, Bool, true, false, not, ◌&&◌, ◌||◌, Option, none, some, List, [],
  ◌∷◌, ◌++◌, if◌then◌else◌, length, take, any, map,
}
use adb_harbor.Text.{Text, text, text_eq, is_empty, contains, one_of}
use adb_harbor.Text.Decimal.{decimal}
use adb_harbor.Config.{Config}
use adb_harbor.Wire.{is_observer_proc}

-- isEphemeralSessionProc
unfoldable pub is_ephemeral : Text → Bool
is_ephemeral name = one_of name (text "adb" ∷ text "sh" ∷ text "bash" ∷ text "zsh" ∷ [])

-- isSessionRoot
unfoldable pub is_session_root : ℕ → Text → Bool
is_session_root pid name = pid == 1 || text_eq name (text "launchd")

-- matchesAgent
unfoldable pub matches_agent : Text → List Text → Bool
unfolding text_eq contains
matches_agent name agents =
    any (λ a. text_eq name a || (leb 5 (length a) && contains name a)) agents

-- fmt.Sprintf("%s-%d", name, pid)
unfoldable pub key_of : Text → ℕ → Text
key_of name pid = name ++ text "-" ++ decimal pid

-- sanitizeKey
unfoldable pub is_key_byte : ℕ → Bool
is_key_byte c =
    (leb 97 c && leb c 122)
    || (leb 65 c && leb c 90)
    || (leb 48 c && leb c 57)
    || c == 45
    || c == 95
    || c == 46

unfoldable pub sanitize_byte : ℕ → ℕ
sanitize_byte c = if is_key_byte c then c else 45

unfoldable pub sanitize_key : Text → Text
unfolding sanitize_byte
sanitize_key s = map sanitize_byte s

module _ (ps : ℕ → Option (Text × ℕ)) where
  -- The first loop of classifyPID, at `cur` with so many rounds left.
  unfoldable pub find_agent : Config → ℕ → ℕ → Option (Text × Bool)
  unfolding key_of is_observer_proc matches_agent
  find_agent cfg zero cur = none
  find_agent cfg (suc n) cur = if leb cur 1 then none else elim (ps cur) [
    | none ↦ none
    | some (name, ppid) ↦
        if is_observer_proc name cfg.observer_procs
        then some (key_of name cur, true)
        else if matches_agent name cfg.agent_procs
        then some (key_of name cur, false)
        else find_agent cfg n ppid
  ]

  -- The second loop; `none` when it is left by a break or runs out.
  unfoldable pub find_durable : ℕ → ℕ → ℕ → Option Text
  unfolding key_of is_ephemeral is_session_root
  find_durable pid zero cur = none
  find_durable pid (suc n) cur = elim (ps cur) [
    | none ↦ none
    | some (name, ppid) ↦
        if is_session_root cur name
        then none
        else if not (is_ephemeral name)
        then some (key_of name cur)
        else if ppid == 0 || ppid == cur
        then none
        else find_durable pid n ppid
  ]

  -- classifyPID
  unfoldable pub classify_pid : Config → ℕ → Text × Bool
  unfolding find_agent find_durable
  classify_pid cfg pid = elim (find_agent cfg 25 pid) [
    | some found ↦ found
    | none ↦ elim (find_durable pid 25 pid) [
      | some key ↦ (key, false)
      | none ↦ (key_of (text "pid") pid, false)
    ]
  ]

  -- DetectSessionObserver, with the two variables of the environment and the parent's pid.
  unfoldable pub detect_session_observer : Config → Text → Text → ℕ → Text × Bool
  unfolding classify_pid sanitize_key
  detect_session_observer cfg harbor_session claude_session ppid =
      if not (is_empty harbor_session)
      then (sanitize_key harbor_session, false)
      else if not (is_empty claude_session)
      then (
        text "claude-"
            ++ sanitize_key
                (if ltb 8 (length claude_session) then take 8 claude_session else claude_session),
        false,
      )
      else classify_pid cfg ppid
