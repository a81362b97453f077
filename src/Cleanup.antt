-- ===== src/Cleanup.antt =====
-- internal/harbor/cleanup.go: which packages the session cleanup uninstalls. The output of
-- `pm list packages` and the outcome of each uninstall are arguments.
pub mod Removal
use adb_harbor.Prelude.{
  ℕ, Bool, true, false, not, ◌&&◌, ◌||◌, Option, none, some, List, [], ◌∷◌, ◌++◌, if◌then◌else◌,
  keep, any,
}
use adb_harbor.Text.{
  Text, text, text_eq, is_empty, has_prefix, trim_prefix, trim_space, split, join, one_of,
}
use adb_harbor.Broker.{Broker, Lease, hist}
use adb_harbor.Broker.Reaper.{cleanup_done}

-- One line of `pm list packages`, before the packages of the later lines.
unfoldable pub package_of : Text → List Text → List Text
package_of line rest =
    let p = trim_prefix (trim_space line) (text "package:") in
    if not (is_empty p) && not (text_eq p (trim_space line)) then p ∷ rest else rest

-- listPackages from the point where the command has ended.
unfoldable pub parse_packages : List Text → List Text
unfolding package_of
parse_packages [] = []
parse_packages (line ∷ lines) = package_of line (parse_packages lines)

unfoldable pub list_packages : Text → List Text
unfolding parse_packages split
list_packages out = parse_packages (split out 10)

-- isProtectedPackage
unfoldable pub is_protected_package : Text → List Text → Bool
unfolding has_prefix
is_protected_package pkg prefixes = any (has_prefix pkg) prefixes

-- newPackagesToRemove
unfoldable pub new_packages_to_remove : List Text → List Text → List Text → List Text
unfolding one_of is_protected_package
new_packages_to_remove [] baseline protected = []
new_packages_to_remove (p ∷ current) baseline protected =
    let rest = new_packages_to_remove current baseline protected in
    if one_of p baseline || is_protected_package p protected then rest else p ∷ rest

-- The loop of runCleanup: the packages removed and those that could not be. Each uninstall is a command of
-- its own, and succeeds or not as `works` says.
unfoldable pub uninstall_all : (Text → Bool) → List Text → List Text × List Text
uninstall_all works [] = ([], [])
uninstall_all works (p ∷ pkgs) =
    let rest = uninstall_all works pkgs in
    if works p then (p ∷ rest.0, rest.1) else (rest.0, p ∷ rest.1)

-- The lists after the first part of runCleanup; `current` is `none` when listPackages failed.
unfoldable pub cleanup_outcome :
    Broker → Lease → Option (List Text) → (Text → Bool) → List Text × List Text
unfolding uninstall_all new_packages_to_remove
cleanup_outcome b l none works = ([], [])
cleanup_outcome b l (some current) works =
    uninstall_all works (new_packages_to_remove current l.baseline b.cfg.protected_packages)

-- The note in the history, when there is one.
unfoldable pub cleanup_note : List Text × List Text → Option Text
unfolding join
cleanup_note ([], []) = none
cleanup_note (removed, []) = some (text "removed " ++ join removed (text ","))
cleanup_note (removed, p ∷ failed) =
    some (
      text "removed " ++ join removed (text ",") ++ text " failed " ++ join (p ∷ failed) (text ","))

-- What the first part of runCleanup writes to the history.
unfoldable pub record_outcome : Broker → Lease → Option Text → Broker
record_outcome b l none = b
record_outcome b l (some note) = hist b (text "cleanup") l note

-- runCleanup of the lease at `q`. The sections of other goroutines that come between its own are steps of
-- theirs; this is the run where none does.
unfoldable pub run_cleanup : Broker → ℕ → Option (List Text) → (Text → Bool) → ℕ → Broker
unfolding cleanup_note cleanup_outcome record_outcome
run_cleanup b q current works now =
    let l = b.lease_heap q in
    cleanup_done (record_outcome b l (cleanup_note (cleanup_outcome b l current works))) q now
