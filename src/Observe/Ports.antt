-- ===== src/Observe/Ports.antt =====
-- The ports that the listener of internal/harbor/observe.go tries.
use adb_harbor.Prelude.{
  ℕ, zero, suc, ◌+◌, ◌≤◌, ◌<◌, ◌≡◌, ap, inl, inr, Bool, true, false, Option, none, some, arith,
  Bool-cases,
}
use adb_harbor.Observe.{listen_from, listen_local}

-- The first free port among `n` from `p` on, if there is one.
pub data IsFirstFree (free : ℕ → Bool) (p n : ℕ) : Option ℕ → Type 0 where
  bound :
      (q : ℕ)
      → p ≤ q
      → q < p + n
      → free q ≡ true
      → ((r : ℕ) → p ≤ r → r < q → free r ≡ false)
      → IsFirstFree free p n (some q)
  all_taken : ((r : ℕ) → p ≤ r → r < p + n → free r ≡ false) → IsFirstFree free p n none

listen_from-IsFirstFree : (free : ℕ → Bool) (n p : ℕ) → IsFirstFree free p n (listen_from free n p)
unfolding listen_from
listen_from-IsFirstFree free zero p = all_taken (λ r low high. absurd (omega arith))
listen_from-IsFirstFree free (suc n) p = elim (Bool-cases (free p)) [
  | inl e ↦
      rw (e, listen_from)
        (bound p (omega arith) (omega arith) e (λ r low high. absurd (omega arith)))
  | inr e ↦ rw (e, listen_from) (later e (listen_from-IsFirstFree free n (suc p)))
]
  where
    at_or_above : {r : ℕ} → free p ≡ false → p ≤ r → (suc p ≤ r → free r ≡ false) → free r ≡ false
    at_or_above {r} e low above = ground (arith, ap free)

    later :
        {o : Option ℕ}
        → free p ≡ false
        → IsFirstFree free (suc p) n o
        → IsFirstFree free p (suc n) o
    later e (all_taken none_free) =
        all_taken (λ r low high. at_or_above e low (λ l. none_free r l (omega arith)))
    later e (bound q low high f before) =
        bound q (omega arith) (omega arith) f (λ r l h. at_or_above e l (λ k. before r k h))

-- listenLocal binds the first free port of the ten from the start on, and fails only when all ten are taken.
pub listen_local-IsFirstFree :
    (free : ℕ → Bool) (start : ℕ) → IsFirstFree free start 10 (listen_local free start)
unfolding listen_local
listen_local-IsFirstFree free start = listen_from-IsFirstFree free 10 start
