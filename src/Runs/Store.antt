-- ===== src/Runs/Store.antt =====
-- internal/harbor/runs.go: run IDs, the files of the runs, and the result that `submit` prints. The file
-- system, JSON and the Unicode tables are arguments.
use adb_harbor.Prelude.{
  ℕ, ◌≡◌, refl, ap, ◌<◌, inl, inr, Bool, true, false, not, ◌||◌, ◌==◌, ==_iff, ltb, Option, none,
  some, List, [], ◌∷◌, ◌++◌, if◌then◌else◌, arith, Bool-cases, length, all, mem,
}
use adb_harbor.Text.{Text, text, text_eq, is_empty}
use adb_harbor.Runs.{Run}

-- What the code takes from Go's unicode and utf8: the characters of a string, and which are letters or
-- digits. A byte below 128 is a character, and neither `/` nor `.` is a letter or a digit.
pub record Unicode : Type 0 where
  pub runes : Text → List ℕ
  pub is_letter : ℕ → Bool
  pub is_digit : ℕ → Bool
  pub ascii_kept : (c : ℕ) (s : Text) → c < 128 → mem c s ≡ true → mem c (runes s) ≡ true
  pub slash : (is_letter 47 || is_digit 47) ≡ false
  pub dot : (is_letter 46 || is_digit 46) ≡ false

-- A character of a run ID.
abbrev is_id_char : Unicode → ℕ → Bool
is_id_char u c = u.is_letter c || u.is_digit c || (c == 45) || (c == 95)

-- validRunID
unfoldable pub valid_run_id : Unicode → Text → Bool
valid_run_id u id =
    if is_empty id || ltb 64 (length id) then false else all (is_id_char u) (u.runes id)

-- filepath.Join(RunsDir(), id, "meta.json"), for an ID without `/` and `.`.
unfoldable pub meta_path : Text → Text → Text
meta_path runs_dir id = runs_dir ++ text "/" ++ id ++ text "/meta.json"

-- loadRun; `read` and `parse` are os.ReadFile and json.Unmarshal.
unfoldable pub load_run :
    Unicode → Text → (Text → Option Text) → (Text → Option Run) → Text → Option Run
unfolding valid_run_id meta_path
load_run u runs_dir read parse id =
    if not (valid_run_id u id)
    then none
    else elim (read (meta_path runs_dir id)) [ none ↦ none | some bytes ↦ parse bytes ]

-- What newRunFromPath finds: the absolute path, if there is one, whether the file is there, the bytes of a new
-- ID in hexadecimal, and the time.
pub record Submission : Type 0 where
  pub absolute : Text → Option Text
  pub exists : Text → Bool
  pub new_id : Text
  pub now : ℕ

-- The run that newRunFromPath and newRunFromUpload make.
unfoldable pub queued_run : Submission → Text → Text → Text → Run
queued_run x apk pkg activity = record {
  id = x.new_id;
  status = text "queued";
  package_name = pkg;
  activity = activity;
  apk = apk;
  serial = [];
  error = [];
  created_at = x.now;
}

unfoldable pub with_apk : Submission → Text → Text → Option Text → Option Run
unfolding queued_run
with_apk x pkg activity none = none
with_apk x pkg activity (some path) =
    if not (x.exists path) then none else some (queued_run x path pkg activity)

-- newRunFromPath
unfoldable pub new_run_from_path : Submission → Text → Text → Text → Option Run
unfolding with_apk
new_run_from_path x apk pkg activity =
    if is_empty pkg || is_empty activity
    then none
    else if is_empty apk
    then none
    else with_apk x pkg activity (x.absolute apk)

-- newRunFromUpload; `stored` tells whether the directory was made and the upload was copied to `path`.
unfoldable pub new_run_from_upload : Submission → Bool → Text → Text → Text → Option Run
unfolding queued_run
new_run_from_upload x stored path pkg activity =
    if is_empty pkg || is_empty activity
    then none
    else if not stored
    then none
    else some (queued_run x path pkg activity)

-- writeSubmitResult, by lines; `quote` is the verb %q, the paths are the run's.
unfoldable pub write_submit_result : (Text → Text) → Text → Text → Run → Text
write_submit_result quote screenshot logcat r =
    text "run "
    ++ r.id
    ++ text " "
    ++ r.status
    ++ text "\n"
    ++ (if is_empty r.serial then [] else text "serial " ++ r.serial ++ text "\n")
    ++ (if text_eq r.status (text "succeeded")
        then text "screenshot " ++ screenshot ++ text "\n" ++ text "logcat " ++ logcat ++ text "\n"
        else [])
    ++ text "{\"id\":"
    ++ quote r.id
    ++ text "}\n"

-- Two file systems that hold the same meta.json in each directory of `runs_dir` whose name has neither `/` nor
-- `.`.
abbrev pub AgreeInside : Text → (Text → Option Text) → (Text → Option Text) → Type 0
AgreeInside runs_dir f g =
    (name : Text)
    → mem 47 name ≡ false
    → mem 46 name ≡ false
    → f (runs_dir ++ text "/" ++ name ++ text "/meta.json")
      ≡ g (runs_dir ++ text "/" ++ name ++ text "/meta.json")

all-mem : (p : ℕ → Bool) (c : ℕ) (s : List ℕ) → all p s ≡ true → mem c s ≡ true → p c ≡ true
all-mem p c [] a m = cc
all-mem p c (x ∷ s) a m = ground (arith, all-mem p c s, ==_iff x c, ap p)

-- A valid run ID has neither `/` nor `.`: it names a directory right below that of the runs.
valid_run_id-plain :
    (u : Unicode) (c : ℕ) (id : Text)
    → c < 128
    → (is_id_char u c ≡ false)
    → valid_run_id u id ≡ true
    → mem c id ≡ false
unfolding valid_run_id
valid_run_id-plain u c id small bad v =
    ground (arith, v, u.ascii_kept c id small, all-mem (is_id_char u) c (u.runes id), bad)

-- Whatever ID a client sends, loadRun looks at no file but the meta.json of a directory right below the
-- directory of the runs: on two file systems that agree on those it gives the same result.
pub load_run-AgreeInside :
    (u : Unicode) (runs_dir : Text) (f g : Text → Option Text) (parse : Text → Option Run)
    (id : Text)
    → AgreeInside runs_dir f g
    → load_run u runs_dir f parse id ≡ load_run u runs_dir g parse id
unfolding load_run meta_path
load_run-AgreeInside u runs_dir f g parse id agree = elim (Bool-cases (valid_run_id u id)) [
  | inl e ↦
      rw
        (
          e,
          agree id (valid_run_id-plain u 47 id (omega arith) (ground (arith, u.slash)) e)
              (valid_run_id-plain u 46 id (omega arith) (ground (arith, u.dot)) e),
        )
        refl
  | inr e ↦ rw e refl
]
