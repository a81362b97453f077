-- ===== src/Runs/Listing.antt =====
-- listRuns, internal/harbor/runs.go. sort.Slice is an insertion sort here: Go leaves the order of runs of the same
-- time open, and the model keeps the one of the directory.
use adb_harbor.Prelude.{
  ℕ, ◌+◌, ◌≡◌, refl, ◌∙◌, ap, Bool, true, false, not, ◌&&◌, Option, none, some, List, [], ◌∷◌,
  if◌then◌else◌, arith, ltb,
}
use adb_harbor.Text.{Text}
use adb_harbor.Runs.{Run}
use adb_harbor.Runs.Store.{Unicode, load_run}

-- What os.ReadDir tells of an entry.
pub record Entry : Type 0 where
  pub name : Text
  pub is_dir : Bool

-- Appended, where there is one.
abbrev or_cons : Option Run → List Run → List Run
or_cons none rest = rest
or_cons (some r) rest = r ∷ rest

module _ (u : Unicode) (runs_dir : Text) (read : Text → Option Text)
    (parse : Text → Option Run) where
  -- One round of the loop.
  unfoldable pub run_of : Entry → Option Run
  unfolding load_run
  run_of e = if not e.is_dir then none else load_run u runs_dir read parse e.name

  unfoldable pub loaded_runs : List Entry → List Run
  unfolding run_of
  loaded_runs [] = []
  loaded_runs (e ∷ es) = let rest = loaded_runs es in or_cons (run_of e) rest

unfoldable pub insert_run : Run → List Run → List Run
insert_run r [] = r ∷ []
insert_run r (x ∷ xs) =
    let rest = insert_run r xs in if ltb r.created_at x.created_at then x ∷ rest else r ∷ x ∷ xs

unfoldable pub sort_runs : List Run → List Run
unfolding insert_run
sort_runs [] = []
sort_runs (r ∷ rs) = insert_run r (sort_runs rs)

-- listRuns
unfoldable pub list_runs :
    Unicode → Text → (Text → Option Text) → (Text → Option Run) → Option (List Entry) → List Run
unfolding loaded_runs sort_runs
list_runs u runs_dir read parse none = []
list_runs u runs_dir read parse (some es) = sort_runs (loaded_runs u runs_dir read parse es)

-- No run is older than the next one.
abbrev pub is_newest_first : List Run → Bool
is_newest_first [] = true
is_newest_first (r ∷ []) = true
is_newest_first (r ∷ x ∷ xs) = not (ltb r.created_at x.created_at) && is_newest_first (x ∷ xs)

-- How many runs pass a test.
abbrev pub count : (Run → Bool) → List Run → ℕ
count p [] = 0
count p (r ∷ rs) = (if p r then 1 else 0) + count p rs

-- Insertion, with its comparison computed.
insert_run-is_newest_first :
    (r : Run) (xs : List Run) → is_newest_first xs ≡ true → is_newest_first (insert_run r xs) ≡ true
unfolding insert_run
insert_run-is_newest_first r [] h = refl
insert_run-is_newest_first r (x ∷ []) h = ground arith
insert_run-is_newest_first r (x ∷ y ∷ xs) h = ground (arith, insert_run-is_newest_first r (y ∷ xs))

count-insert_run :
    (p : Run → Bool) (r : Run) (xs : List Run)
    → count p (insert_run r xs) ≡ (if p r then 1 else 0) + count p xs
unfolding insert_run
count-insert_run p r [] = refl
count-insert_run p r (x ∷ xs) = ground (arith, count-insert_run p r xs)

sort_runs-is_newest_first : (rs : List Run) → is_newest_first (sort_runs rs) ≡ true
unfolding sort_runs
sort_runs-is_newest_first [] = refl
sort_runs-is_newest_first (r ∷ rs) =
    insert_run-is_newest_first r (sort_runs rs) (sort_runs-is_newest_first rs)

count-sort_runs : (p : Run → Bool) (rs : List Run) → count p (sort_runs rs) ≡ count p rs
unfolding sort_runs
count-sort_runs p [] = refl
count-sort_runs p (r ∷ rs) =
    count-insert_run p r (sort_runs rs)
    ∙ ap (λ n. (if p r then 1 else 0) + n) (count-sort_runs p rs)

abbrev passes : (Run → Bool) → Option Run → ℕ
passes p none = 0
passes p (some r) = if p r then 1 else 0

count-or_cons :
    (p : Run → Bool) (o : Option Run) (rest : List Run)
    → count p (or_cons o rest) ≡ passes p o + count p rest
count-or_cons p none rest = omega arith
count-or_cons p (some r) rest = refl

module _ (u : Unicode) (runs_dir : Text) (read : Text → Option Text)
    (parse : Text → Option Run) where
  -- The runs that the directories among the entries hold, counted.
  abbrev pub count_in : (Run → Bool) → List Entry → ℕ
  count_in p [] = 0
  count_in p (e ∷ es) =
      (if e.is_dir then passes p (load_run u runs_dir read parse e.name) else 0) + count_in p es

  by_dir :
      (p : Run → Bool) (name : Text) (is_dir : Bool)
      → passes p (if not is_dir then none else load_run u runs_dir read parse name)
        ≡ (if is_dir then passes p (load_run u runs_dir read parse name) else 0)
  by_dir p name true = refl
  by_dir p name false = refl

  count-loaded_runs :
      (p : Run → Bool) (es : List Entry)
      → count p (loaded_runs u runs_dir read parse es) ≡ count_in p es
  unfolding loaded_runs run_of
  count-loaded_runs p [] = refl
  count-loaded_runs p (e ∷ es) =
      count-or_cons p (run_of u runs_dir read parse e) (loaded_runs u runs_dir read parse es)
      ∙ ap (λ n. n + count p (loaded_runs u runs_dir read parse es)) (by_dir p e.name e.is_dir)
      ∙ ap (λ n. (if e.is_dir then passes p (load_run u runs_dir read parse e.name) else 0) + n)
          (count-loaded_runs p es)

-- listRuns gives the newest run first, and gives each run that a directory among the entries holds, as often as it is
-- held, and nothing else.
pub list_runs-count :
    (u : Unicode) (runs_dir : Text) (read : Text → Option Text) (parse : Text → Option Run)
    (es : List Entry)
    → (is_newest_first (list_runs u runs_dir read parse (some es)) ≡ true)
      × ((p : Run → Bool)
          → count p (list_runs u runs_dir read parse (some es))
            ≡ count_in u runs_dir read parse p es)
unfolding list_runs
list_runs-count u runs_dir read parse es = (
  sort_runs-is_newest_first (loaded_runs u runs_dir read parse es),
  λ p.
      count-sort_runs p (loaded_runs u runs_dir read parse es)
      ∙ count-loaded_runs u runs_dir read parse p es,
)
