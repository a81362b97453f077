-- ===== src/Peer/Found.antt =====
-- The process that internal/harbor/peer.go finds.
use adb_harbor.Prelude.{
  ℕ, ◌<◌, ◌^◌, ◌≡◌, refl, ap, ◌∙◌, ◌==◌, Option, none, some, List, [], ◌∷◌, ◌++◌, if◌then◌else◌,
  arith, All,
}
use adb_harbor.Text.{Text, split, to_lower}
use adb_harbor.Text.Atoi.{atoi-decimal}
use adb_harbor.Text.Decimal.{decimal}
use adb_harbor.Peer.{pid_of, peer_loop, peer_pid}

-- A process, and its files: lsof prints `p` and the ID, `c` and the name, and a line with another letter for each
-- descriptor.
pub record Process : Type 0 where
  pub pid : ℕ
  pub name : Text
  pub descriptors : List Text

-- A line for a descriptor: `f`, and what identifies it.
lines_of_descriptors : List Text → List Text
lines_of_descriptors [] = []
lines_of_descriptors (d ∷ ds) = (102 ∷ d) ∷ lines_of_descriptors ds

unfoldable pub lines_of : List Process → List Text
unfolding lines_of_descriptors
lines_of [] = [] ∷ []
lines_of (p ∷ ps) =
    (112 ∷ decimal p.pid) ∷ (99 ∷ p.name) ∷ (lines_of_descriptors p.descriptors ++ lines_of ps)

-- The first process that is not our own.
abbrev pub first_other : ℕ → List Process → Option (ℕ × Text)
first_other self [] = none
first_other self (p ∷ ps) =
    let rest = first_other self ps in if p.pid == self then rest else some (p.pid, to_lower p.name)

abbrev pub IsProcess : Process → Type 0
IsProcess p = (0 < p.pid) × (p.pid < 2 ^ 63)

peer_loop-descriptors :
    (self pid : ℕ) (ds : List Text) (lines : List Text)
    → peer_loop self pid (lines_of_descriptors ds ++ lines) ≡ peer_loop self pid lines
unfolding lines_of_descriptors peer_loop
peer_loop-descriptors self pid [] lines = refl
peer_loop-descriptors self pid (d ∷ ds) lines = peer_loop-descriptors self pid ds lines

pid_of-decimal : (n : ℕ) → n < 2 ^ 63 → pid_of (decimal n) ≡ n
unfolding pid_of
pid_of-decimal n h = rw (atoi-decimal n h) refl

peer_loop-first_other :
    (self pid : ℕ) (ps : List Process)
    → All IsProcess ps
    → peer_loop self pid (lines_of ps) ≡ first_other self ps
unfolding peer_loop lines_of
peer_loop-first_other self pid [] h = refl
peer_loop-first_other self pid (p ∷ ps) h =
    rw
      (
        pid_of-decimal p.pid (h.0.1),
        peer_loop-descriptors self p.pid p.descriptors (lines_of ps),
        peer_loop-first_other self p.pid ps (h.1),
      )
      (ground (arith, h.0.0))

-- When the lines of lsof's output are those of some processes with IDs above 0, peerPID gives the first of them
-- that is not the process itself, with its name in lower case, and nothing when there is no other.
pub peer_pid-first_other :
    (self : ℕ) (out : Text) (ps : List Process)
    → All IsProcess ps
    → split out 10 ≡ lines_of ps
    → peer_pid self out ≡ first_other self ps
unfolding peer_pid
peer_pid-first_other self out ps h e = ap (peer_loop self 0) e ∙ peer_loop-first_other self 0 ps h
