-- ===== src/Proxy/Callers.antt =====
-- internal/harbor/proxy.go: who is at the other end of a connection of the proxy, and what the shim of
-- internal/harbor/shim.go would call the same caller.
use adb_harbor.Prelude.{
  ℕ, zero, suc, ◌<◌, ◌≤◌, ltb, ◌&&◌, length, take, ◌∷◌, ◌≡◌, refl, ap, ◌∙◌, inl, inr, Bool, true,
  false, ◌==◌, leb, Option, none, some, [], ◌++◌, if◌then◌else◌, arith, Bool-cases, Option-cases,
}
use adb_harbor.Text.{Text, text, is_empty}
use adb_harbor.Text.Decimal.{decimal}
use adb_harbor.Config.{Config}
use adb_harbor.Wire.{is_observer_proc}
use adb_harbor.Session.{
  find_agent, classify_pid, matches_agent, key_of, sanitize_key, detect_session_observer,
}
use adb_harbor.Peer.{peer_pid}

pub record Caller : Type 0 where
  pub session : Text
  pub process : Text
  pub observer : Bool

abbrev pub caller_of : Text → Text × Bool → Caller
caller_of name (session, observer) = record {
  session = session;
  process = name;
  observer = observer;
}

abbrev process_caller : (ℕ → Option (Text × ℕ)) → Config → ℕ → Text → Caller
process_caller ps cfg pid name = caller_of name (classify_pid ps cfg pid)

-- sessionForConn behind peerPID, whose process ID is 0 or more.
unfoldable pub peer_caller : (ℕ → Option (Text × ℕ)) → Config → ℕ → Option (ℕ × Text) → Caller
unfolding is_observer_proc
peer_caller ps cfg port none = record {
  session = text "port-" ++ decimal port;
  process = text "unknown";
  observer = false;
}
peer_caller ps cfg port (some (pid, name)) =
    if pid == 0
    then record {
      session = text "port-" ++ decimal port;
      process = text "unknown";
      observer = false;
    }
    else if is_observer_proc name cfg.observer_procs
    then record { session = name; process = name; observer = true }
    else process_caller ps cfg pid name

-- sessionForConn, of the caller's port where it comes by TCP; `lsof` is the output of the command for a port, or an
-- error, and `self` is os.Getpid().
unfoldable pub session_for_conn :
    (ℕ → Option (Text × ℕ)) → Config → (self : ℕ) (lsof : ℕ → Option Text) → Option ℕ → Caller
unfolding peer_caller
session_for_conn ps cfg self lsof none = record {
  session = text "unknown";
  process = text "unknown";
  observer = false;
}
session_for_conn ps cfg self lsof (some port) = elim (lsof port) [
  | none ↦ peer_caller ps cfg port none
  | some out ↦ peer_caller ps cfg port (peer_pid self out)
]

by_tests :
    (x y : Text × Bool) {rest more : Option (Text × Bool)} {found : Text × Bool} (a b : Bool)
    → (rest ≡ some found → more ≡ some found)
    → (if a then some x else if b then some y else rest) ≡ some found
    → (if a then some x else if b then some y else more) ≡ some found
by_tests x y true b k e = e
by_tests x y false true k e = e
by_tests x y false false k e = k e

-- A search for an agent that succeeds does so with one round more.
find_agent-more :
    (ps : ℕ → Option (Text × ℕ)) (cfg : Config) (n cur : ℕ) (found : Text × Bool)
    → find_agent ps cfg n cur ≡ some found
    → find_agent ps cfg (suc n) cur ≡ some found
unfolding find_agent
find_agent-more ps cfg zero cur found e = cc
find_agent-more ps cfg (suc n) cur found e = elim (Bool-cases (leb cur 1)) [
  | inl k ↦ let bad : ◌≡◌ {A = Option (Text × Bool)} none (some found) = rw k at e in cc
  | inr k ↦ elim (Option-cases (ps cur)) [
    | inl p ↦ let bad : ◌≡◌ {A = Option (Text × Bool)} none (some found) = rw (k, p) at e in cc
    | inr ((name, ppid), p) ↦
        rw (k, p)
          (by_tests (key_of name cur, true) (key_of name cur, false)
            (is_observer_proc name cfg.observer_procs) (matches_agent name cfg.agent_procs)
            (find_agent-more ps cfg n ppid found) (rw (k, p) at e))
  ]
]

find_agent-parent :
    (ps : ℕ → Option (Text × ℕ)) (cfg : Config) (n pid ppid : ℕ) (name : Text)
    → 1 < pid
    → ps pid ≡ some (name, ppid)
    → is_observer_proc name cfg.observer_procs ≡ false
    → matches_agent name cfg.agent_procs ≡ false
    → find_agent ps cfg (suc n) pid ≡ find_agent ps cfg n ppid
unfolding find_agent
find_agent-parent ps cfg n pid ppid name h p observer agent =
    let above : leb pid 1 ≡ false = ground arith in rw (above, p, find_agent, observer, agent) refl

take-short : (n : ℕ) (s : Text) → length s ≤ n → take n s ≡ s
take-short zero [] h = refl
take-short zero (c ∷ s) h = absurd (omega arith)
take-short (suc n) [] h = refl
take-short (suc n) (c ∷ s) h = ap (λ t. c ∷ t) (take-short n s (omega arith))

-- The session that the variables name: ADB_HARBOR_SESSION, or else the first eight bytes of CLAUDE_SESSION_ID.
abbrev pub named_session : Text → Text → Text
named_session harbor_session claude_session =
    if is_empty harbor_session
    then text "claude-" ++ sanitize_key (take 8 claude_session)
    else sanitize_key harbor_session

detect_session_observer-variables :
    (ps : ℕ → Option (Text × ℕ)) (cfg : Config) (harbor_session claude_session : Text) (ppid : ℕ)
    → detect_session_observer ps cfg harbor_session claude_session ppid ≡ (
        if is_empty harbor_session && is_empty claude_session
        then classify_pid ps cfg ppid
        else (named_session harbor_session claude_session, false))
unfolding detect_session_observer
detect_session_observer-variables ps cfg harbor claude ppid = elim (Bool-cases (is_empty harbor)) [
  | inr e ↦ rw e refl
  | inl e ↦ elim (Bool-cases (is_empty claude)) [
    | inl f ↦ rw (e, f) refl
    | inr f ↦ elim (Bool-cases (ltb 8 (length claude))) [
      | inl k ↦ rw (e, f, k) refl
      | inr k ↦ rw (e, f, k, take-short 8 claude (ground arith)) refl
    ]
  ]
]

-- Who the proxy takes a caller for, and who the shim would. The caller is a connection of a process, as lsof names it,
-- that is neither an observer nor an agent, whose parent has an agent or an observer among its nearest 24 ancestors,
-- itself included. Where the variables that name a session, ADB_HARBOR_SESSION and CLAUDE_SESSION_ID, are not set for
-- the command, the shim gives a command of that parent the session that the proxy gives the connection, and has it for
-- an observer exactly when the proxy does. Where one of them is set, the shim goes by the variable alone, and never has
-- it for an observer, while the proxy gives the connection what it gives it without the variable.
pub session_for_conn-detect_session_observer :
    (ps : ℕ → Option (Text × ℕ)) (cfg : Config) (self port pid ppid : ℕ) (lsof : ℕ → Option Text)
    (out name comm harbor_session claude_session : Text) (found : Text × Bool)
    → lsof port ≡ some out
    → peer_pid self out ≡ some (pid, name)
    → 1 < pid
    → ps pid ≡ some (comm, ppid)
    → is_observer_proc name cfg.observer_procs ≡ false
    → is_observer_proc comm cfg.observer_procs ≡ false
    → matches_agent comm cfg.agent_procs ≡ false
    → find_agent ps cfg 24 ppid ≡ some found
    → (session_for_conn ps cfg self lsof (some port) ≡ caller_of name found)
      × (detect_session_observer ps cfg harbor_session claude_session ppid ≡ (
          if is_empty harbor_session && is_empty claude_session
          then found
          else (named_session harbor_session claude_session, false)))
unfolding session_for_conn peer_caller classify_pid
session_for_conn-detect_session_observer ps cfg self port pid ppid lsof out name comm harbor claude
      found l p h q observer other agent f =
    let real : (pid == 0) ≡ false = ground arith in
    let up : find_agent ps cfg 25 pid ≡ some found =
      find_agent-parent ps cfg 24 pid ppid comm h q other agent ∙ f in
    let same : find_agent ps cfg 25 ppid ≡ some found = find_agent-more ps cfg 24 ppid found f in
    let mine : classify_pid ps cfg pid ≡ found = rw (classify_pid, up) refl in
    let parents : classify_pid ps cfg ppid ≡ found = rw (classify_pid, same) refl in
    (
      rw (l, session_for_conn, p, peer_caller, real, observer)
          (ap (λ (c : Text × Bool). caller_of name c) mine),
      detect_session_observer-variables ps cfg harbor claude ppid ∙ rw parents refl,
    )
