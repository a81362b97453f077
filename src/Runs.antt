-- ===== src/Runs.antt =====
-- internal/harbor/runs.go: a submitted run, from the lease on a device to the screenshot. What adb and the
-- broker answer is an argument.
pub mod Outcome
pub mod Store
pub mod Submit
pub mod Tail
pub mod Listing
use adb_harbor.Prelude.{
  ℕ, Bool, true, false, not, ◌&&◌, ◌||◌, ◌==◌, leb, ltb, Option, none, some, List, [], ◌∷◌, ◌++◌,
  if◌then◌else◌, length, any,
}
use adb_harbor.Text.{Text, text, is_empty, has_prefix, contains}
use adb_harbor.Text.Decimal.{decimal}
use adb_harbor.Protocol.{AcquireAnyReq, AcquireAnyResp}

-- Without UpdatedAt, which each save sets to the time of the save.
pub record Run : Type 0 where
  pub id : Text
  pub status : Text
  pub package_name : Text
  pub activity : Text
  pub apk : Text
  pub serial : Text
  pub error : Text
  pub created_at : ℕ

-- launchComponent
unfoldable pub launch_component : Text → Text → Text
launch_component pkg activity =
    if contains activity (text "/") then activity else pkg ++ text "/" ++ activity

-- isPNG; a byte string.
unfoldable pub is_png : Text → Bool
is_png b = has_prefix b (137 ∷ 80 ∷ 78 ∷ 71 ∷ [])

-- The result of a command: an error's text, or its output.
pub data Answer : Type 0 where
  failure : (message : Text) → Answer
  output : (bytes : Text) → Answer

-- What the outside answers during a run: whether meta.json can be written first, the broker's answer
-- (`none` with the text `acquire_error`), and the results of the adb commands and of writing the screenshot.
pub record World : Type 0 where
  pub saves : Bool
  pub acquire : AcquireAnyReq → Option AcquireAnyResp
  pub acquire_error : Text
  pub install : Text → Text → Answer
  pub launch : Text → Text → Answer
  pub screencap : Text → Answer
  pub write_screenshot : Text → Answer

-- What executeRun leaves: the run as last set, and the lease IDs that it has released.
pub record Ended : Type 0 where
  pub run : Run
  pub released : List Text

-- failRun
unfoldable pub fail_run : Run → Text → Run
fail_run r message = record r { status = text "failed"; error = message }

unfoldable pub run_request : Run → ℕ → AcquireAnyReq
run_request r pid = record {
  session = text "run-" ++ r.id;
  holder = text "submit " ++ r.package_name;
  pid = pid;
  ttl_sec = 600;
  usb = false;
  emulator = false;
}

-- executeRun from the screenshot on. The log is fetched when it can be; nothing depends on it.
unfoldable pub keep_screenshot : World → Run → Text → Run
unfolding is_png fail_run
keep_screenshot w r png =
    if not (is_png png)
    then fail_run r
        (text "screencap did not return a PNG (" ++ decimal (length png) ++ text " bytes)")
    else elim (w.write_screenshot png) [
      | failure m ↦ fail_run r m
      | output _ ↦ record r { status = text "succeeded"; error = [] }
    ]

-- executeRun from the launch on.
unfoldable pub launch_and_shoot : World → Run → Run
unfolding keep_screenshot launch_component
launch_and_shoot w r = elim (w.launch r.serial (launch_component r.package_name r.activity)) [
  | failure m ↦ fail_run r (text "launch: " ++ m)
  | output _ ↦ elim (w.screencap r.serial) [
    | failure m ↦ fail_run r (text "screencap: " ++ m)
    | output png ↦ keep_screenshot w r png
  ]
]

-- executeRun from the lease on.
unfoldable pub on_device : World → Run → Run
unfolding launch_and_shoot
on_device w r = elim (w.install r.serial r.apk) [
  | failure m ↦ fail_run r (text "install: " ++ m)
  | output _ ↦ launch_and_shoot w r
]

-- What executeRun does with the broker's answer; the release is deferred.
unfoldable pub with_answer : World → Run → Option AcquireAnyResp → Ended
unfolding on_device
with_answer w r none = record { run = fail_run r w.acquire_error; released = [] }
with_answer w r (some resp) =
    if not resp.granted then record { run = fail_run r resp.message; released = [] } else record {
      run = on_device w (record r { serial = resp.serial });
      released = resp.lease_id ∷ [];
    }

-- executeRun of the run that was loaded.
unfoldable pub execute_run : World → ℕ → Run → Ended
unfolding with_answer run_request
execute_run w pid r =
    let running : Run = record r { status = text "running" } in
    if w.saves
    then with_answer w running (w.acquire (run_request running pid))
    else record { run = running; released = [] }
