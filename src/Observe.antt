-- ===== src/Observe.antt =====
-- internal/harbor/observe.go: the local listener that shows the runs, by HTTP and by tool calls, and takes new
-- ones. The network, the files, the HTTP and MCP libraries and the clock are arguments; times are nanoseconds.
pub mod Ports
pub mod Server
pub mod Bearer
pub mod Waiting
pub mod Answers
use adb_harbor.Prelude.{
  ℕ, zero, suc, ◌+◌, ◌*◌, ◌/◌, ◌%◌, Bool, true, false, not, ◌&&◌, ◌||◌, ◌==◌, ltb, Option, none,
  some, List, [], ◌∷◌, ◌++◌, if◌then◌else◌,
}
use adb_harbor.Text.{Text, text, text_eq, is_empty, has_prefix, trim_space}
use adb_harbor.Text.Decimal.{decimal}
use adb_harbor.Broker.{second}
use adb_harbor.Runs.{Run, is_png}
use adb_harbor.Runs.Store.{Submission, new_run_from_path, new_run_from_upload}
use adb_harbor.Runs.Tail.{tail_lines}

-- listenLocal, over `n` ports from `p` on; `free` tells where net.Listen succeeds.
unfoldable pub listen_from : (ℕ → Bool) → ℕ → ℕ → Option ℕ
listen_from free zero p = none
listen_from free (suc n) p =
    let rest = listen_from free n (suc p) in if free p then some p else rest

unfoldable pub listen_local : (ℕ → Bool) → ℕ → Option ℕ
unfolding listen_from
listen_local free start = listen_from free 10 start

-- The port that serveObserve and observeAddr start from: 0 means 7437.
unfoldable pub preferred_port : ℕ → ℕ
preferred_port mcp_port = if mcp_port == 0 then 7437 else mcp_port

-- hex.EncodeToString
hex_digit : ℕ → ℕ
hex_digit d = if ltb d 10 then d + 48 else d + 87

unfoldable pub hex_encode : List ℕ → Text
unfolding hex_digit
hex_encode [] = []
hex_encode (b ∷ bs) = hex_digit (b / 16 % 16) ∷ hex_digit (b % 16) ∷ hex_encode bs

-- A result of loadOrCreateMCPToken: the token, and the content of the token file.
pub data Token : Type 0 where
  no_token : Token
  token : (value file : Text) → Token

-- The new token of loadOrCreateMCPToken: from random bytes, when there are any, if it can be written.
unfoldable pub create_token : Option (List ℕ) → Bool → Token
unfolding hex_encode
create_token none writes = no_token
create_token (some bytes) writes =
    if writes then token (hex_encode bytes) (hex_encode bytes ++ (10 ∷ [])) else no_token

-- loadOrCreateMCPToken, with the directory there; `file` is what the token file holds.
unfoldable pub load_or_create_token : Option Text → Option (List ℕ) → Bool → Token
unfolding create_token
load_or_create_token none bytes writes = create_token bytes writes
load_or_create_token (some file) bytes writes =
    if is_empty (trim_space file) then create_token bytes writes else token (trim_space file) file

-- The check of requireBearer; the library takes the token from the request's header.
unfoldable pub bearer_ok : Text → Text → Bool
bearer_ok expected raw = text_eq raw expected

-- r.Status == "succeeded" || r.Status == "failed"
unfoldable pub is_done : Run → Bool
is_done r = text_eq r.status (text "succeeded") || text_eq r.status (text "failed")

-- The results of toolWaitForRun.
pub data Waited : Type 0 where
  not_found : Waited
  done timed_out : Run → Waited

unfoldable pub wait_seconds : ℕ → ℕ
wait_seconds timeout_sec = if timeout_sec == 0 then 120 else timeout_sec

-- The round `i` of toolWaitForRun's loop, before the rest of it: loadRun gives `load i`, and the clock reads
-- `clock (suc i)`.
unfoldable pub wait_round : (ℕ → Option Run) → (ℕ → ℕ) → ℕ → ℕ → Option Waited → Option Waited
unfolding is_done
wait_round load clock deadline i rest = elim (load i) [
  | none ↦ some not_found
  | some r ↦
      if is_done r
      then some (done r)
      else if ltb deadline (clock (suc i))
      then some (timed_out r)
      else rest
]

-- The loop from its round `i` on, on fuel.
unfoldable pub wait_loop : (ℕ → Option Run) → (ℕ → ℕ) → ℕ → ℕ → ℕ → Option Waited
unfolding wait_round
wait_loop load clock deadline zero i = none
wait_loop load clock deadline (suc fuel) i =
    wait_round load clock deadline i (wait_loop load clock deadline fuel (suc i))

-- toolWaitForRun; the first reading of the clock sets the deadline.
unfoldable pub wait_for_run : (ℕ → Option Run) → (ℕ → ℕ) → ℕ → ℕ → Option Waited
unfolding wait_loop wait_seconds
wait_for_run load clock timeout_sec fuel =
    wait_loop load clock (clock 0 + wait_seconds timeout_sec * second) fuel 0

-- The results of toolGetProof.
pub data Proof : Type 0 where
  no_run : Proof
  no_screenshot not_png : Run → Proof
  proof : (png logcat : Text) → Run → Proof

unfoldable pub proof_of : Run → Option Text → Text → Proof
unfolding is_png tail_lines
proof_of r none logcat = no_screenshot r
proof_of r (some png) logcat =
    if not (is_png png) then not_png r else proof png (tail_lines logcat 80) r

-- toolGetProof; the log is empty when it cannot be read.
unfoldable pub get_proof : Option Run → (Run → Option Text) → (Run → Text) → Proof
unfolding proof_of
get_proof none screenshot logcat = no_run
get_proof (some r) screenshot logcat = proof_of r (screenshot r) (logcat r)

-- An HTTP answer: the status, the run that it shows, and the ID of the run that starts.
pub record Answer : Type 0 where
  pub status : ℕ
  pub run : Option Run
  pub started : Option Text

-- handleGetRunHTTP, with what loadRun gives
unfoldable pub handle_get_run : Option Run → Answer
handle_get_run none = record { status = 404; run = none; started = none }
handle_get_run (some r) = record { status = 200; run = some r; started = none }

-- A request's content: a form with a file, `none` where it does not parse or has no file, and whether the file
-- can be stored; or a JSON object, `none` where it does not decode.
pub record Upload : Type 0 where
  pub package_name : Text
  pub activity : Text
  pub stored : Bool
  pub path : Text

pub record Posted : Type 0 where
  pub apk : Text
  pub package_name : Text
  pub activity : Text

pub record Request : Type 0 where
  pub content_type : Text
  pub upload : Option Upload
  pub posted : Option Posted

unfoldable pub from_upload : Submission → Option Upload → Option Run
from_upload x none = none
from_upload x (some f) = new_run_from_upload x f.stored f.path f.package_name f.activity

unfoldable pub from_posted : Submission → Option Posted → Option Run
from_posted x none = none
from_posted x (some p) = new_run_from_path x p.apk p.package_name p.activity

-- runFromRequest
unfoldable pub run_from_request : Submission → Request → Option Run
unfolding from_upload from_posted
run_from_request x req =
    if has_prefix req.content_type (text "multipart/")
    then from_upload x req.upload
    else from_posted x req.posted

unfoldable pub accept_run : Option Run → Bool → Answer
accept_run none saves = record { status = 400; run = none; started = none }
accept_run (some r) saves =
    if saves
    then record { status = 202; run = some r; started = some r.id }
    else record { status = 500; run = none; started = none }

-- handlePostRunHTTP; `saves` is whether saveRun succeeds.
unfoldable pub handle_post_run : Submission → Request → Bool → Answer
unfolding run_from_request accept_run
handle_post_run x req saves = accept_run (run_from_request x req) saves

abbrev pub local_addr : Text → Text
local_addr port = text "127.0.0.1:" ++ port

-- The address that mcp.port names, when something listens there.
unfoldable pub announced : Option Text → (Text → Bool) → Option Text
unfolding local_addr
announced none dials = none
announced (some file) dials =
    if not (is_empty (trim_space file)) && dials (local_addr (trim_space file))
    then some (local_addr (trim_space file))
    else none

-- observeAddr; `dials` is dialOK.
unfoldable pub observe_addr : Option Text → (Text → Bool) → ℕ → Option Text
unfolding announced local_addr preferred_port
observe_addr port_file dials mcp_port =
    let default_addr = local_addr (decimal (preferred_port mcp_port)) in
    elim (announced port_file dials) [
      | some addr ↦ some addr
      | none ↦ if dials default_addr then some default_addr else none
    ]
