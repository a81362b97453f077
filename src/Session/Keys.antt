-- ===== src/Session/Keys.antt =====
-- The session keys of internal/harbor/session.go: stable along the commands of one agent, different for
-- two agents, and safe as text.
use adb_harbor.Prelude.{
  append_assoc, ◌≡◌, refl, ℕ, suc, leb, true, false, Option, some, [], ◌∷◌, ◌++◌, arith, All,
  length, ap, ◌∙◌, sym,
}
use adb_harbor.Text.{Text, text}
use adb_harbor.Text.Laws.{append_cancel}
use adb_harbor.Text.Decimal.{decimal, decimal-injective}
use adb_harbor.Config.{Config}
use adb_harbor.Wire.{is_observer_proc}
use adb_harbor.Session.{
  key_of, matches_agent, find_agent, classify_pid, sanitize_key, sanitize_byte, is_key_byte,
}

module _ (ps : ℕ → Option (Text × ℕ)) (cfg : Config) where
  -- From `pid`, within `n` steps to the parent past processes that are neither agents nor observers, the
  -- walk comes to the agent process `agent`, named `name`.
  pub data Reaches (agent : ℕ) (name : Text) : ℕ → ℕ → Type 0 where
    here :
        {n ppid : ℕ}
        → leb agent 1 ≡ false
        → ps agent ≡ some (name, ppid)
        → is_observer_proc name cfg.observer_procs ≡ false
        → matches_agent name cfg.agent_procs ≡ true
        → Reaches agent name (suc n) agent
    past :
        {n pid ppid : ℕ} {other : Text}
        → leb pid 1 ≡ false
        → ps pid ≡ some (other, ppid)
        → is_observer_proc other cfg.observer_procs ≡ false
        → matches_agent other cfg.agent_procs ≡ false
        → Reaches agent name n ppid
        → Reaches agent name (suc n) pid

  find_agent-Reaches :
      {agent : ℕ} {name : Text} {n pid : ℕ}
      → Reaches agent name n pid
      → find_agent ps cfg n pid ≡ some (key_of name agent, false)
  unfolding find_agent
  find_agent-Reaches (here above e o a) = rw (above, e, o, a)
  find_agent-Reaches (past above e o a r) = rw (above, e, o, a) (find_agent-Reaches r)

  -- Every process from which the walk comes to an agent within 25 steps, past processes that are neither
  -- agents nor observers, has the agent's session key, and is no observer: the shells that the agent
  -- starts for its commands come and go, the key stays.
  pub classify_pid-agent :
      (agent : ℕ) (name : Text) (pid : ℕ)
      → Reaches agent name 25 pid
      → classify_pid ps cfg pid ≡ (key_of name agent, false)
  unfolding classify_pid
  classify_pid-agent agent name pid r = rw (find_agent-Reaches r, classify_pid)

-- Two agents of one name have one session key only if they are one process.
pub key_of-injective : (name : Text) (m n : ℕ) → key_of name m ≡ key_of name n → m ≡ n
unfolding key_of
key_of-injective name m n e = decimal-injective m n (
    append_cancel (text "-") (decimal m) (decimal n) (
      append_cancel name (text "-" ++ decimal m) (text "-" ++ decimal n) (
        sym (append_assoc name (text "-") (decimal m))
        ∙ e
        ∙ append_assoc name (text "-") (decimal n))))

sanitize_byte-safe : (c : ℕ) → is_key_byte (sanitize_byte c) ≡ true
unfolding sanitize_byte is_key_byte
sanitize_byte-safe c = ground arith

sanitize_byte-same : (c : ℕ) → is_key_byte c ≡ true → sanitize_byte c ≡ c
unfolding sanitize_byte
sanitize_byte-same c h = ground arith

-- A sanitized key consists of letters, digits, `-`, `_` and `.`, is as long as the text it is made of, and
-- to sanitize it again changes nothing.
pub sanitize_key-safe :
    (s : Text)
    → All (λ c. is_key_byte c ≡ true) (sanitize_key s)
      × (length (sanitize_key s) ≡ length s)
      × (sanitize_key (sanitize_key s) ≡ sanitize_key s)
unfolding sanitize_key
sanitize_key-safe [] = (tt, refl, refl)
sanitize_key-safe (c ∷ s) =
    let (safe, long, same) = sanitize_key-safe s in
    (
      (sanitize_byte-safe c, safe),
      ap suc long,
      rw (sanitize_byte-same (sanitize_byte c) (sanitize_byte-safe c))
          (ap (λ t. sanitize_byte c ∷ t) same),
    )
