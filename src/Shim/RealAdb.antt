-- ===== src/Shim/RealAdb.antt =====
-- internal/harbor/shim.go: the search for the real adb, the test for the program itself, and envInt. The file
-- system, filepath.Join, filepath.Rel and the environment are arguments.
use adb_harbor.Prelude.{
  ℕ, Bool, false, not, ◌&&◌, ◌||◌, ◌==◌, Option, none, some, List, [], ◌∷◌, ◌++◌, if◌then◌else◌,
  length, take, leb,
}
use adb_harbor.Text.{Text, text, text_eq, is_empty, has_prefix, one_of, split, trim_right_byte}
use adb_harbor.Text.Atoi.{atoi}

-- What the search finds. `resolve` is filepath.EvalSymlinks, `stat` whether os.Stat succeeds, `runnable` whether
-- the path is an executable file, `self_path` and `data_dir` are selfPath() and Dir(), and `path_dirs` are the
-- directories of PATH.
pub record Machine : Type 0 where
  pub resolve : Text → Option Text
  pub stat : Text → Bool
  pub runnable : Text → Bool
  pub join : List Text → Text
  pub rel : Text → Text → Option Text
  pub self_path : Option Text
  pub data_dir : Text
  pub bin_dir : Text
  pub path_dirs : List Text
  pub home : Option Text
  pub android_home : Text
  pub sdk_root : Text

last_of : Text → List Text → Text
last_of s [] = s
last_of s (t ∷ ts) = last_of t ts

-- filepath.Base
unfoldable pub base : Text → Text
unfolding last_of
base s =
    let t = trim_right_byte s 47 in
    if is_empty s then text "." else if is_empty t then text "/" else last_of [] (split t 47)

-- hasDotDotPrefix
unfoldable pub has_dot_dot_prefix : Text → Bool
has_dot_dot_prefix rel =
    text_eq rel (text "..") || (leb 3 (length rel) && text_eq (take 3 rel) (text "../"))

-- A relative path that leads out of the directory that it starts from, as isSelf tests it.
unfoldable pub leads_out : Text → Bool
unfolding has_dot_dot_prefix
leads_out rel = has_prefix rel (text "/") || text_eq rel (text "..") || has_dot_dot_prefix rel

abbrev pub equals : Option Text → Text → Bool
equals none t = false
equals (some s) t = text_eq t s

abbrev pub stays_in : Option Text → Bool
stays_in none = false
stays_in (some rel) = not (leads_out rel)

-- Whether a resolved path lies in the data directory.
unfoldable pub in_data_dir : Machine → Option Text → Text → Bool
unfolding leads_out
in_data_dir m none resolved = false
in_data_dir m (some dir) resolved = stays_in (m.rel dir resolved)

unfoldable pub resolved_is_self : Machine → Option Text → Bool
unfolding base in_data_dir
resolved_is_self m none = false
resolved_is_self m (some resolved) =
    text_eq (base resolved) (text "adbharbor")
    || equals m.self_path resolved
    || in_data_dir m (m.resolve m.data_dir) resolved

-- isSelf
unfoldable pub is_self : Machine → Text → Bool
unfolding resolved_is_self
is_self m path = resolved_is_self m (m.resolve path)

unfoldable pub path_candidates : Machine → List Text → List Text
path_candidates m [] = []
path_candidates m (dir ∷ dirs) =
    let rest = path_candidates m dirs in
    if is_empty dir || text_eq dir m.bin_dir then rest else m.join (dir ∷ text "adb" ∷ []) ∷ rest

abbrev home_candidates : Machine → Option Text → List Text
home_candidates m none = []
home_candidates m (some home) =
    m.join (
      home ∷ text "Library" ∷ text "Android" ∷ text "sdk" ∷ text "platform-tools" ∷ text "adb" ∷ [])
    ∷ []

sdk_candidates : Machine → Text → List Text
sdk_candidates m sdk =
    if is_empty sdk then [] else m.join (sdk ∷ text "platform-tools" ∷ text "adb" ∷ []) ∷ []

-- The candidates of DiscoverRealADB, in its order.
unfoldable pub candidates : Machine → List Text
unfolding path_candidates sdk_candidates
candidates m =
    path_candidates m m.path_dirs
    ++ home_candidates m m.home
    ++ sdk_candidates m m.android_home
    ++ sdk_candidates m m.sdk_root

-- The last loop of DiscoverRealADB, with the candidates that it has seen.
unfoldable pub scan : Machine → List Text → List Text → Option Text
unfolding is_self
scan m seen [] = none
scan m seen (p ∷ ps) =
    let again = scan m seen ps in
    let next = scan m (p ∷ seen) ps in
    if one_of p seen
    then again
    else if not (m.runnable p)
    then next
    else if is_self m p
    then next
    else some p

-- DiscoverRealADB
unfoldable pub discover_real_adb : Machine → Option Text
unfolding scan candidates
discover_real_adb m = scan m [] (candidates m)

-- ResolveRealADB, of the path that the configuration pins.
unfoldable pub resolve_real_adb : Machine → Text → Option Text
unfolding discover_real_adb
resolve_real_adb m pinned =
    let found = discover_real_adb m in
    if is_empty pinned
    then found
    else if is_self m pinned
    then none
    else if m.stat pinned
    then some pinned
    else found

-- What CmdInstall pins: the path that is pinned, unless it is unset, gone or the program itself.
unfoldable pub pin_real_adb : Machine → Text → Option Text
unfolding discover_real_adb
pin_real_adb m pinned =
    let found = discover_real_adb m in
    if is_empty pinned || not (m.runnable pinned) || is_self m pinned then found else some pinned

abbrev or_default : ℕ → Option (Bool × ℕ) → ℕ
or_default def none = def
or_default def (some (negative, n)) = if negative && not (n == 0) then def else n

-- envInt, of the variable's value; empty when it is not set.
unfoldable pub env_int : Text → ℕ → ℕ
env_int v def = if is_empty v then def else or_default def (atoi v)
