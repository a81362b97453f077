-- ===== src/Examples/Submitted.antt =====
-- Runs of internal/harbor/runs.go and observe.go.
use adb_harbor.Prelude.{
  ℕ, suc, ◌+◌, ◌*◌, ◌≡◌, refl, Bool, true, ◌&&◌, ◌||◌, not, ◌==◌, ◌++◌, leb, Option, none, some, [],
  ◌∷◌, arith, if◌then◌else◌,
}
use adb_harbor.Text.{Text, text, text_eq}
use adb_harbor.Broker.{second}
use adb_harbor.Runs.{Run}
use adb_harbor.Runs.Store.{Unicode, load_run, AgreeInside, load_run-AgreeInside}
use adb_harbor.Observe.{
  token, listen_local, preferred_port, observe_addr, wait_for_run, wait_seconds, Waited, get_proof,
}
use adb_harbor.Text.Decimal.{decimal}
use adb_harbor.Observe.Ports.{IsFirstFree}
use adb_harbor.Observe.Server.{Serving, serve_observe, observe_addr-serve_observe}
use adb_harbor.Observe.Waiting.{Ticks, WaitSpec, wait_for_run-ends}
use adb_harbor.Observe.Answers.{ProofSpec, get_proof-ProofSpec}

abbrev ascii : Unicode
ascii = record {
  runes = λ s. s;
  is_letter = λ c. (leb 65 c && leb c 90) || (leb 97 c && leb c 122);
  is_digit = λ c. leb 48 c && leb c 57;
  ascii_kept = λ c s small m. m;
  slash = refl;
  dot = refl;
}

abbrev submitted : Run
submitted = record {
  id = text "ab";
  status = text "queued";
  package_name = text "com.app";
  activity = text ".Main";
  apk = text "a.apk";
  serial = [];
  error = [];
  created_at = 5;
}

-- Two file systems that differ, but not on the runs' files.
abbrev one_file : Text → Option Text
one_file path = if text_eq path (text "/etc/passwd") then some (text "root") else none

abbrev no_file : Text → Option Text
no_file path = none

one_file-agrees : AgreeInside (text "/h/runs") one_file no_file
unfolding text_eq
one_file-agrees name s d = refl

abbrev parse : Text → Option Run
parse bytes = some submitted

load_run-AgreeInside_example :
    load_run ascii (text "/h/runs") one_file parse (text "../../etc/passwd")
    ≡ load_run ascii (text "/h/runs") no_file parse (text "../../etc/passwd")
load_run-AgreeInside_example =
    load_run-AgreeInside ascii (text "/h/runs") one_file no_file parse (text "../../etc/passwd")
      one_file-agrees

abbrev seconds : ℕ → ℕ
seconds i = i * second

seconds-Ticks : Ticks seconds
seconds-Ticks = (omega arith, λ i. omega arith)

abbrev loads : ℕ → Option Run
loads i = some submitted

wait_for_run-ends_example :
    (w : Waited) × (wait_for_run loads seconds 2 (suc (3 * wait_seconds 2)) ≡ some w)
    × WaitSpec loads seconds (seconds 0 + wait_seconds 2 * second) w
wait_for_run-ends_example = wait_for_run-ends loads seconds 2 seconds-Ticks

get_proof-ProofSpec_example :
    ProofSpec
      (some submitted)
      (λ r. some (137 ∷ 80 ∷ 78 ∷ 71 ∷ []))
      (λ r. text "a\nb\n")
      (get_proof (some submitted) (λ r. some (137 ∷ 80 ∷ 78 ∷ 71 ∷ [])) (λ r. text "a\nb\n"))
get_proof-ProofSpec_example =
    get_proof-ProofSpec (some submitted) (λ r. some (137 ∷ 80 ∷ 78 ∷ 71 ∷ [])) (λ r. text "a\nb\n")

abbrev free : ℕ → Bool
free p = not (p == 7437)

abbrev listener : Serving
listener = record { bearer = text "tok"; port = 7438; port_file = decimal 7438 ++ (10 ∷ []) }

listener-serves : serve_observe (token (text "tok") (text "tok\n")) free 7437 true ≡ some listener
unfolding serve_observe listen_local preferred_port
listener-serves = refl

observe_addr-serve_observe_example :
    IsFirstFree free (preferred_port 7437) 10 (some 7438)
    × (observe_addr (some (decimal 7438 ++ (10 ∷ []))) (λ addr. true) 7437
        ≡ some (text "127.0.0.1:" ++ decimal 7438))
observe_addr-serve_observe_example =
    observe_addr-serve_observe (token (text "tok") (text "tok\n")) free 7437 7437 true listener
      (λ addr. true) listener-serves refl
