-- ===== src/Observe/Answers.antt =====
-- What internal/harbor/observe.go answers: a proof, and a request for a new run.
use adb_harbor.Prelude.{
  ◌<◌, ◌≡◌, refl, inl, inr, Bool, true, false, ◌||◌, Option, none, some, arith, Bool-cases,
  Option-cases,
}
use adb_harbor.Text.{Text, text, is_empty, has_prefix, trim_right_byte}
use adb_harbor.Runs.{Run, is_png}
use adb_harbor.Runs.Store.{Submission, queued_run, with_apk, new_run_from_path, new_run_from_upload}
use adb_harbor.Runs.Tail.{IsTail, tail_lines-IsTail}
use adb_harbor.Observe.{
  Proof, no_run, no_screenshot, not_png, proof, proof_of, get_proof, Answer, Upload, Posted,
  Request, run_from_request, from_upload, from_posted, accept_run, handle_post_run,
}

-- A proof of a run: it shows the screenshot that was kept, which is a PNG, and the last 80 lines of the log.
pub record IsProof (loaded : Option Run) (screenshot : Run → Option Text) (logcat : Run → Text)
    (png log : Text) (r : Run) : Type 0 where
  pub of_run : loaded ≡ some r
  pub kept : screenshot r ≡ some png
  pub picture : is_png png ≡ true
  pub log_end : IsTail (trim_right_byte (logcat r) 10) 80 log

pub data ProofSpec (loaded : Option Run) (screenshot : Run → Option Text) (logcat : Run → Text)
    : Proof → Type 0 where
  unknown : loaded ≡ none → ProofSpec loaded screenshot logcat no_run
  missing :
      (r : Run)
      → loaded ≡ some r
      → screenshot r ≡ none
      → ProofSpec loaded screenshot logcat (no_screenshot r)
  broken :
      (r : Run) (png : Text)
      → loaded ≡ some r
      → screenshot r ≡ some png
      → is_png png ≡ false
      → ProofSpec loaded screenshot logcat (not_png r)
  shown :
      {png log : Text} {r : Run}
      → IsProof loaded screenshot logcat png log r
      → ProofSpec loaded screenshot logcat (proof png log r)

proof_of-ProofSpec :
    (r : Run) (screenshot : Run → Option Text) (logcat : Run → Text)
    → ProofSpec (some r) screenshot logcat (proof_of r (screenshot r) (logcat r))
unfolding proof_of
proof_of-ProofSpec r screenshot logcat = elim (Option-cases (screenshot r)) [
  | inl e ↦ rw (e, proof_of) (missing r refl e)
  | inr (png, e) ↦ elim (Bool-cases (is_png png)) [
    | inl p ↦
        rw (e, p, proof_of)
          (shown (record {
            of_run = refl;
            kept = e;
            picture = p;
            log_end = tail_lines-IsTail (logcat r) 80 (omega arith);
          }))
    | inr p ↦ rw (e, p, proof_of) (broken r png refl e p)
  ]
]

-- get_proof answers by the run and its screenshot: the run is unknown; it has no screenshot; its screenshot is not a
-- PNG; or the screenshot is, and the answer shows it with the log, less the line feeds behind it: all of it where it has
-- 80 lines at most, and its last 80 lines where it has more.
pub get_proof-ProofSpec :
    (loaded : Option Run) (screenshot : Run → Option Text) (logcat : Run → Text)
    → ProofSpec loaded screenshot logcat (get_proof loaded screenshot logcat)
unfolding get_proof
get_proof-ProofSpec none screenshot logcat = unknown refl
get_proof-ProofSpec (some r) screenshot logcat = proof_of-ProofSpec r screenshot logcat

-- A run that is ready to start: it is queued, names a package and an activity, and has the ID that was drawn for it.
pub record IsQueuedRun (x : Submission) (r : Run) : Type 0 where
  pub status : r.status ≡ text "queued"
  pub package_named : is_empty r.package_name ≡ false
  pub activity_named : is_empty r.activity ≡ false
  pub id : r.id ≡ x.new_id

-- The answer to a request for a run, by whether the run is saved.
pub data PostSpec (x : Submission) (saves : Bool) : Answer → Type 0 where
  bad_request : PostSpec x saves (record { status = 400; run = none; started = none })
  not_saved : saves ≡ false → PostSpec x saves (record { status = 500; run = none; started = none })
  accepted :
      (r : Run)
      → saves ≡ true
      → IsQueuedRun x r
      → PostSpec x saves (record { status = 202; run = some r; started = some r.id })

AllQueued : Submission → Option Run → Type 0
AllQueued x none = 0 < 1
AllQueued x (some r) = IsQueuedRun x r

queued_run-IsQueuedRun :
    (x : Submission) (apk pkg activity : Text)
    → (is_empty pkg || is_empty activity) ≡ false
    → IsQueuedRun x (queued_run x apk pkg activity)
unfolding queued_run
queued_run-IsQueuedRun x apk pkg activity e = record {
  status = refl;
  package_named = ground arith;
  activity_named = ground arith;
  id = refl;
}

from_path-AllQueued :
    (x : Submission) (apk pkg activity : Text) → AllQueued x (new_run_from_path x apk pkg activity)
unfolding new_run_from_path AllQueued with_apk
from_path-AllQueued x apk pkg activity = elim (Bool-cases (is_empty pkg || is_empty activity)) [
  | inl e ↦ rw e (omega arith)
  | inr e ↦ elim (Bool-cases (is_empty apk)) [
    | inl f ↦ rw (e, f) (omega arith)
    | inr f ↦
        rw (e, f)
          (elim (Option-cases (x.absolute apk)) [
            | inl g ↦ rw (g, with_apk) (omega arith)
            | inr (path, g) ↦ elim (Bool-cases (x.exists path)) [
              | inl h ↦ rw (g, h, with_apk) (queued_run-IsQueuedRun x path pkg activity e)
              | inr h ↦ rw (g, h, with_apk) (omega arith)
            ]
          ])
  ]
]

from_upload-AllQueued :
    (x : Submission) (stored : Bool) (path pkg activity : Text)
    → AllQueued x (new_run_from_upload x stored path pkg activity)
unfolding new_run_from_upload AllQueued
from_upload-AllQueued x stored path pkg activity =
    elim (Bool-cases (is_empty pkg || is_empty activity)) [
      | inl e ↦ rw e (omega arith)
      | inr e ↦ elim (Bool-cases stored) [
        | inl f ↦ rw (e, f) (queued_run-IsQueuedRun x path pkg activity e)
        | inr f ↦ rw (e, f) (omega arith)
      ]
    ]

accept_run-PostSpec :
    (x : Submission) (o : Option Run) (saves : Bool)
    → AllQueued x o
    → PostSpec x saves (accept_run o saves)
unfolding accept_run AllQueued
accept_run-PostSpec x none saves q = bad_request
accept_run-PostSpec x (some r) true q = accepted r refl q
accept_run-PostSpec x (some r) false q = not_saved refl

upload-AllQueued : (x : Submission) (o : Option Upload) → AllQueued x (from_upload x o)
unfolding from_upload AllQueued
upload-AllQueued x none = omega arith
upload-AllQueued x (some f) = from_upload-AllQueued x f.stored f.path f.package_name f.activity

posted-AllQueued : (x : Submission) (o : Option Posted) → AllQueued x (from_posted x o)
unfolding from_posted AllQueued
posted-AllQueued x none = omega arith
posted-AllQueued x (some p) = from_path-AllQueued x p.apk p.package_name p.activity

-- A POST of a run, as a form or as JSON, is answered in one of three ways. No run can be made of it: 400. The run
-- cannot be saved: 500. Or it was saved: 202, with the run, which is queued, names a package and an activity, and is
-- the one that starts. Nothing starts in the first two.
pub handle_post_run-PostSpec :
    (x : Submission) (req : Request) (saves : Bool) → PostSpec x saves (handle_post_run x req saves)
unfolding handle_post_run run_from_request
handle_post_run-PostSpec x req saves =
    elim (Bool-cases (has_prefix req.content_type (text "multipart/"))) [
      | inl e ↦
          rw e
            (accept_run-PostSpec x (from_upload x req.upload) saves (upload-AllQueued x req.upload))
      | inr e ↦
          rw e
            (accept_run-PostSpec x (from_posted x req.posted) saves (posted-AllQueued x req.posted))
    ]
