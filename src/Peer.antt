-- ===== src/Peer.antt =====
-- internal/harbor/peer.go: the process at the other end of a connection, from the output of lsof, in which process
-- IDs have no sign and fit an int.
pub mod Found
use adb_harbor.Prelude.{
  ℕ, Bool, true, false, not, ◌&&◌, ◌==◌, Option, none, some, List, [], ◌∷◌, if◌then◌else◌,
}
use adb_harbor.Text.{Text, split, to_lower}
use adb_harbor.Text.Atoi.{atoi}

-- pid, _ = strconv.Atoi(s)
abbrev or_zero : Option (Bool × ℕ) → ℕ
or_zero none = 0
or_zero (some (negative, n)) = n

unfoldable pub pid_of : Text → ℕ
pid_of s = or_zero (atoi s)

-- The loop of peerPID, with the process ID of the lines read so far; `self` is os.Getpid().
unfoldable pub peer_loop : ℕ → ℕ → List Text → Option (ℕ × Text)
unfolding pid_of
peer_loop self pid [] = none
peer_loop self pid ([] ∷ lines) = peer_loop self pid lines
peer_loop self pid ((c ∷ rest) ∷ lines) =
    let other_line = peer_loop self pid lines in
    let next_process = peer_loop self (pid_of rest) lines in
    if c == 112
    then next_process
    else if c == 99
    then if not (pid == 0) && not (pid == self) then some (pid, to_lower rest) else other_line
    else other_line

-- peerPID, of the output of lsof
unfoldable pub peer_pid : ℕ → Text → Option (ℕ × Text)
unfolding peer_loop
peer_pid self out = peer_loop self 0 (split out 10)
