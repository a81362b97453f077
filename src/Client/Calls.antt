-- ===== src/Client/Calls.antt =====
-- internal/harbor/client.go: `call`, its users, and selfPath. The socket, JSON and the file system are arguments: a call
-- that does not arrive, or whose body JSON does not read, has no response or no body.
use adb_harbor.Prelude.{
  ℕ, ◌≡◌, refl, Bool, true, false, not, ◌==◌, Option, none, some, if◌then◌else◌,
}
use adb_harbor.Text.{Text}
use adb_harbor.Protocol.{AcquireAnyReq, AcquireAnyResp, ReleaseReq, ReleaseResp, StateResp}
use adb_harbor.Broker.{Broker}
use adb_harbor.Broker.AcquireAny.{Inventory, handle_acquire_any}
use adb_harbor.Broker.Handlers.{handle_release}
use adb_harbor.Broker.Report.{handle_state}

-- A response: its status, and its body as JSON reads it.
pub record Response {ℓ} (A : Type ℓ) : Type ℓ where
  pub status : ℕ
  pub body : Option A

abbrev answered {ℓ} : {A : Type ℓ} → Option (Response A) → Option A
answered none = none
answered (some r) = if not (r.status == 200) then none else r.body

-- call: the answer, or an error
unfoldable pub call {ℓ} : {A : Type ℓ} → Option (Response A) → Option A
call r = answered r

-- What a handler writes: its answer by writeJSON, or a bad request by http.Error.
unfoldable pub respond {ℓ} : {A : Type ℓ} → Option A → Response A
respond none = record { status = 400; body = none }
respond (some a) = record { status = 200; body = some a }

-- Ping: whether the daemon answers
unfoldable pub ping : Option (Response ℕ) → Bool
unfolding call
ping r = elim (call r) [ none ↦ false | some pid ↦ true ]

-- Release, AcquireAny and FetchState, at the handlers that they reach.
unfoldable pub release_by : Broker → ReleaseReq → ℕ → Option ReleaseResp × Broker
unfolding call respond
release_by b req now = let (r, c) = handle_release b (some req) now in (call (some (respond r)), c)

unfoldable pub acquire_any_by :
    Broker → AcquireAnyReq → Inventory → ℕ → Option AcquireAnyResp × Broker
unfolding call respond
acquire_any_by b req inv now =
    let (r, c) = handle_acquire_any b (some req) inv now in (call (some (respond r)), c)

unfoldable pub fetch_state : Broker → Option StateResp
unfolding call respond
fetch_state b = call (some (respond (some (handle_state b))))

-- A call gives what the handler that it reaches answers, and an error where that refuses the request.
pub call-respond {ℓ} : {A : Type ℓ} (o : Option A) → call (some (respond o)) ≡ o
unfolding call respond
call-respond none = refl
call-respond (some a) = refl

-- selfPath, of os.Executable and filepath.EvalSymlinks
unfoldable pub self_path : Option Text → (Text → Option Text) → Option Text
self_path none resolve = none
self_path (some exe) resolve = elim (resolve exe) [
  | none ↦ some exe
  | some resolved ↦ some resolved
]
