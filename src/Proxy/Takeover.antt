-- ===== src/Proxy/Takeover.antt =====
-- internal/harbor/proxy.go: how the proxy takes the port of the ADB server, how it starts the real server, and how it
-- dials it. Whether a listen, a dial or a command succeeds is an argument.
use adb_harbor.Prelude.{
  ℕ, zero, suc, ◌≡◌, refl, ap, inl, inr, Bool, true, false, not, if◌then◌else◌, Bool-cases,
}

-- What the loop of runProxy does: whether it listens in the end, and how often it has evicted the classic server.
pub record Takeover : Type 0 where
  pub listens : Bool
  pub evictions : ℕ

-- The loop of runProxy, from its attempt `i` on, with so many attempts left; `binds i` tells whether net.Listen
-- succeeds.
unfoldable pub take_over : (ℕ → Bool) → ℕ → ℕ → Takeover
take_over binds zero i = record { listens = false; evictions = 0 }
take_over binds (suc n) i =
    let rest = take_over binds n (suc i) in
    if binds i
    then record { listens = true; evictions = 0 }
    else record { listens = rest.listens; evictions = suc rest.evictions }

-- How ensureRealServer ends.
pub data Server : Type 0 where
  is_up not_started not_up : Server

-- Its loop, from the round `i` on; the dial of the round is the dial `i + 1` of the function.
unfoldable pub await_server : (ℕ → Bool) → ℕ → ℕ → Server
await_server dials zero i = not_up
await_server dials (suc n) i =
    let rest = await_server dials n (suc i) in if dials (suc i) then is_up else rest

-- ensureRealServer; `starts` tells whether `adb start-server` succeeds.
unfoldable pub ensure_real_server : (ℕ → Bool) → Bool → Server
unfolding await_server
ensure_real_server dials starts =
    let waited = await_server dials 30 0 in
    if dials 0 then is_up else if not starts then not_started else waited

-- dialUpstream: the server is looked after, where the first dial fails, and dialled again, whatever came of it.
unfoldable pub dial_upstream : (first again : Bool) → Bool
dial_upstream first again = if first then true else again

-- An attempt among so many from `i` on at which a test holds, with how many it fails before.
pub data FirstAt (p : ℕ → Bool) : ℕ → ℕ → ℕ → Type 0 where
  here : {n i : ℕ} → p i ≡ true → FirstAt p (suc n) i 0
  later : {n i k : ℕ} → p i ≡ false → FirstAt p n (suc i) k → FirstAt p (suc n) i (suc k)

-- The loop listens exactly where some attempt succeeds, and has evicted the server once for each attempt before.
pub take_over_listens :
    (binds : ℕ → Bool) (n i : ℕ)
    → (take_over binds n i).listens ≡ true
    → FirstAt binds n i (take_over binds n i).evictions
unfolding take_over
take_over_listens binds zero i h = cc
take_over_listens binds (suc n) i h = elim (Bool-cases (binds i)) [
  | inl e ↦ rw e (here e)
  | inr e ↦ rw e (later e (take_over_listens binds n (suc i) (rw e at h)))
]

pub FirstAt-listens :
    (binds : ℕ → Bool) {n i k : ℕ}
    → FirstAt binds n i k
    → ((take_over binds n i).listens ≡ true) × ((take_over binds n i).evictions ≡ k)
unfolding take_over
FirstAt-listens binds (here e) = rw e (refl, refl)
FirstAt-listens binds (later e f) = let (l, k) = FirstAt-listens binds f in rw e (l, ap suc k)

-- A wait that ends with the server up has dialled it.
await_server-is_up :
    (dials : ℕ → Bool) (n i : ℕ) → await_server dials n i ≡ is_up → (j : ℕ) × (dials j ≡ true)
unfolding await_server
await_server-is_up dials zero i h = cc
await_server-is_up dials (suc n) i h = elim (Bool-cases (dials (suc i))) [
  | inl e ↦ (suc i, e)
  | inr e ↦ await_server-is_up dials n (suc i) (rw e at h)
]

-- ensureRealServer leaves by its return only where some dial of it succeeds.
pub ensure_real_server-is_up :
    (dials : ℕ → Bool) (starts : Bool)
    → ensure_real_server dials starts ≡ is_up
    → (j : ℕ) × (dials j ≡ true)
unfolding ensure_real_server
ensure_real_server-is_up dials starts h = elim (Bool-cases (dials 0)) [
  | inl e ↦ (0, e)
  | inr e ↦ elim (Bool-cases starts) [
    | inl k ↦ await_server-is_up dials 30 0 (rw (e, k) at h)
    | inr k ↦ let bad : not_started ≡ is_up = rw (e, k) at h in cc
  ]
]
