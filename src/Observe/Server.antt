-- ===== src/Observe/Server.antt =====
-- internal/harbor/observe.go: serveObserve, the server that newObserveMux makes, and the tools of newMCPHandler. The
-- library finds the route of a request and takes the token from its header; which ports are free is an argument.
use mathlib.Core.List.{reverse, reverse-cons}
use adb_harbor.Prelude.{
  ℕ, zero, suc, ◌+◌, ◌/◌, ◌%◌, ◌<◌, ◌≡◌, refl, sym, ap, ◌∙◌, subst, inl, inr, Bool, true, false,
  Option, none, some, List, [], ◌∷◌, ◌++◌, if◌then◌else◌, arith, ltb, Bool-cases,
}
use adb_harbor.Text.{Text, text, trim_space, is_space}
use adb_harbor.Text.Decimal.{decimal, digits_rev}
use adb_harbor.Text.Atoi.{decimal-full}
use adb_harbor.Runs.{Run}
use adb_harbor.Runs.Store.{Submission}
use adb_harbor.Observe.{
  Token, token, no_token, listen_local, preferred_port, bearer_ok, Answer, handle_get_run,
  handle_post_run, Request, Waited, wait_for_run, Proof, get_proof, observe_addr, announced,
  local_addr,
}
use adb_harbor.Observe.Ports.{IsFirstFree, listen_local-IsFirstFree}
use adb_harbor.Observe.Bearer.{IsSolid, trim_space-solid}

-- The listener: its token, its port, and what the file mcp.port holds.
pub record Serving : Type 0 where
  pub bearer : Text
  pub port : ℕ
  pub port_file : Text

abbrev with_port : Text → Bool → Option ℕ → Option Serving
with_port bearer writes none = none
with_port bearer writes (some port) =
    if writes
    then some (record { bearer = bearer; port = port; port_file = decimal port ++ (10 ∷ []) })
    else none

-- serveObserve, with the result of loadOrCreateMCPToken; `writes` tells whether mcp.port can be written. None is an
-- error.
unfoldable pub serve_observe :
    Token → (free : ℕ → Bool) (mcp_port : ℕ) (writes : Bool) → Option Serving
serve_observe no_token free mcp_port writes = none
serve_observe (token bearer file) free mcp_port writes =
    with_port bearer writes (listen_local free (preferred_port mcp_port))

-- The routes of the mux, and the tools behind /mcp, with what their handlers find.
pub data Endpoint : Type 0 where
  health : Endpoint
  list : (runs : List Run) → Endpoint
  get : (found : Option Run) → Endpoint
  post : Submission → Request → (saves : Bool) → Endpoint
  tool_list : (runs : List Run) → Endpoint
  tool_get : (found : Option Run) → Endpoint
  tool_wait : (load : ℕ → Option Run) (clock : ℕ → ℕ) (timeout_sec fuel : ℕ) → Endpoint
  tool_proof : Option Run → (screenshot : Run → Option Text) (logcat : Run → Text) → Endpoint

pub data Served : Type 0 where
  unauthorized healthy : Served
  shows : (runs : List Run) → Served
  answers : Answer → Served
  tool_run : Option Run → Served
  waited : Option Waited → Served
  proved : Proof → Served

unfoldable pub handle : Endpoint → Served
handle health = healthy
handle (list runs) = shows runs
handle (get found) = answers (handle_get_run found)
handle (post x req saves) = answers (handle_post_run x req saves)
handle (tool_list runs) = shows runs
handle (tool_get found) = tool_run found
handle (tool_wait load clock timeout_sec fuel) = waited (wait_for_run load clock timeout_sec fuel)
handle (tool_proof found screenshot logcat) = proved (get_proof found screenshot logcat)

-- requireBearer in front of the mux; `raw` is the token of the request, if it has one.
unfoldable pub serve_http : Text → Option Text → Endpoint → Served
unfolding handle bearer_ok
serve_http bearer none e = unauthorized
serve_http bearer (some raw) e = if bearer_ok bearer raw then handle e else unauthorized

all-snoc : (s : Text) (c : ℕ) → IsSolid s → is_space c ≡ false → IsSolid (s ++ (c ∷ []))
all-snoc [] c h e = ground (arith, e)
all-snoc (x ∷ s) c h e = ground (arith, all-snoc s c, h, e)

digits_rev-IsSolid : (f n : ℕ) → n < f → IsSolid (reverse (digits_rev f n))
unfolding digits_rev is_space
digits_rev-IsSolid zero n h = absurd (omega arith)
digits_rev-IsSolid (suc f) n h = elim (Bool-cases (ltb n 10)) [
  | inl e ↦ rw e (ground arith)
  | inr e ↦ rw e (
      subst IsSolid (sym (reverse-cons (n % 10 + 48) (digits_rev f (n / 10)))) (
        all-snoc (reverse (digits_rev f (n / 10))) (n % 10 + 48)
          (digits_rev-IsSolid f (n / 10) (ground arith)) (ground arith)))
]

trim_space-decimal : (n : ℕ) → trim_space (decimal n ++ (10 ∷ [])) ≡ decimal n
trim_space-decimal n =
    trim_space-solid (decimal n) (unfold decimal in digits_rev-IsSolid (suc n) n (omega arith))
      (decimal-full n)

announced_lem :
    (port : ℕ) (dials : Text → Bool)
    → dials (local_addr (decimal port)) ≡ true
    → announced (some (decimal port ++ (10 ∷ []))) dials ≡ some (local_addr (decimal port))
unfolding announced
announced_lem port dials d = rw (trim_space-decimal port, decimal-full port, d) refl

-- What a listener leaves in the file.
with_port_lem :
    (bearer : Text) (writes : Bool) (o : Option ℕ) (s : Serving)
    → with_port bearer writes o ≡ some s
    → (o ≡ some s.port) × (s.port_file ≡ decimal s.port ++ (10 ∷ []))
with_port_lem bearer writes none s e = cc
with_port_lem bearer true (some port) s e = (ground (arith, e), ground (arith, e))
with_port_lem bearer false (some port) s e = cc

-- The listener binds the first free port of the ten from the configured one on, and a client that reads the file that
-- it leaves finds that address, where it can be dialled, whatever port the client is configured for.
pub observe_addr-serve_observe :
    (t : Token) (free : ℕ → Bool) (mcp_port other : ℕ) (writes : Bool) (s : Serving)
    (dials : Text → Bool)
    → serve_observe t free mcp_port writes ≡ some s
    → dials (text "127.0.0.1:" ++ decimal s.port) ≡ true
    → IsFirstFree free (preferred_port mcp_port) 10 (some s.port)
      × (observe_addr (some s.port_file) dials other ≡ some (text "127.0.0.1:" ++ decimal s.port))
unfolding serve_observe observe_addr
observe_addr-serve_observe no_token free mcp_port other writes s dials e d = cc
observe_addr-serve_observe (token bearer file) free mcp_port other writes s dials e d =
    let (bound, kept) =
      with_port_lem bearer writes (listen_local free (preferred_port mcp_port)) s e in
    let found : announced (some s.port_file) dials ≡ some (local_addr (decimal s.port)) =
      ap (λ (f : Text). announced (some f) dials) kept ∙ announced_lem s.port dials d in
    (
      subst (IsFirstFree free (preferred_port mcp_port) 10) bound
          (listen_local-IsFirstFree free (preferred_port mcp_port)),
      rw (observe_addr, found) refl,
    )
