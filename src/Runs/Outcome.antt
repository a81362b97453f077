-- ===== src/Runs/Outcome.antt =====
-- How a run of internal/harbor/runs.go ends.
use adb_harbor.Prelude.{◌≡◌, true, false, none, some, [], ◌∷◌, ℕ}
use adb_harbor.Text.{Text, text}
use adb_harbor.Protocol.{AcquireAnyResp}
use adb_harbor.Runs.{Run, output, World, Ended, fail_run, is_png, launch_component, run_request}

-- A run on the device `r.serial` succeeds when each command does, the screenshot is a PNG and can be kept.
pub data Succeeds (w : World) (r : Run) : Type 0 where
  all_steps :
      {a b png c : Text}
      → w.install r.serial r.apk ≡ output a
      → w.launch r.serial (launch_component r.package_name r.activity) ≡ output b
      → w.screencap r.serial ≡ output png
      → is_png png ≡ true
      → w.write_screenshot png ≡ output c
      → Succeeds w r

-- The end of a run on a device: it has failed, with its other data kept; or it has succeeded, without an
-- error, and every step did.
pub data IsEnded (w : World) (r : Run) : Run → Type 0 where
  failed : (message : Text) → IsEnded w r (fail_run r message)
  succeeded : Succeeds w r → IsEnded w r (record r { status = text "succeeded"; error = [] })

-- What becomes of a run: meta.json cannot be written, and the run is not started; the broker does not answer, or
-- answers without a lease, and the run has failed with what the broker said; or the broker grants a lease, the run
-- on that device has failed or succeeded, and the lease is released, in each case.
pub data RunSpec (w : World) (pid : ℕ) (r : Run) : Ended → Type 0 where
  not_saved :
      w.saves ≡ false
      → RunSpec w pid r (record { run = record r { status = text "running" }; released = [] })
  no_answer :
      w.saves ≡ true
      → w.acquire (run_request (record r { status = text "running" }) pid) ≡ none
      → RunSpec w pid r (record {
        run = fail_run (record r { status = text "running" }) w.acquire_error;
        released = [];
      })
  denied :
      {resp : AcquireAnyResp}
      → w.saves ≡ true
      → w.acquire (run_request (record r { status = text "running" }) pid) ≡ some resp
      → resp.granted ≡ false
      → RunSpec w pid r (record {
        run = fail_run (record r { status = text "running" }) resp.message;
        released = [];
      })
  on_lease :
      {resp : AcquireAnyResp} {ended : Run}
      → w.saves ≡ true
      → w.acquire (run_request (record r { status = text "running" }) pid) ≡ some resp
      → resp.granted ≡ true
      → IsEnded w (record r { status = text "running"; serial = resp.serial }) ended
      → RunSpec w pid r (record { run = ended; released = resp.lease_id ∷ [] })

module _ (w : World) (pid : ℕ) (r : Run) where
  running : Run
  running = record r { status = text "running" }
