-- ===== src/Prelude/Lists.antt =====
-- Lists measured by native numbers, and the list predicates and loops that the components share.
use Prim.Native.Nat.{ℕ, zero, suc, ◌+◌}
use mathlib.Core.Path.{◌≡◌, refl, ap}
use mathlib.Core.Bool.{Bool, true, false, not, ◌||◌, ◌&&◌}
use mathlib.Core.List.{List, [], ◌∷◌, ◌++◌}
use native.Mathlib.Omega.{arith}
use adb_harbor.Prelude.Tests.{◌==◌, ==_iff, if◌then◌else◌}

module _ {ℓ} {A : Type ℓ} where
  abbrev pub length : List A → ℕ
  length [] = 0
  length (x ∷ xs) = suc (length xs)

  abbrev pub take : ℕ → List A → List A
  take zero xs = []
  take (suc n) [] = []
  take (suc n) (x ∷ xs) = x ∷ take n xs

  abbrev pub drop : ℕ → List A → List A
  drop zero xs = xs
  drop (suc n) [] = []
  drop (suc n) (x ∷ xs) = drop n xs

  pub length-append : (xs ys : List A) → length (xs ++ ys) ≡ length xs + length ys
  length-append [] ys = omega arith
  length-append (x ∷ xs) ys = omega (arith, length-append xs ys)

  -- `for … { if test(x) { out = append(out, x) } }`
  abbrev pub keep : (A → Bool) → List A → List A
  keep p [] = []
  keep p (x ∷ xs) = let rest = keep p xs in if p x then x ∷ rest else rest

  -- `for … { if test(x) { return true } }; return false`
  abbrev pub any : (A → Bool) → List A → Bool
  any p [] = false
  any p (x ∷ xs) = p x || any p xs

  -- The entries of a list satisfy a predicate; it computes to tuples.
  abbrev pub All {κ} : (A → Type κ) → List A → Type κ
  All P [] = Unit
  All P (x ∷ xs) = P x × All P xs

abbrev pub all {ℓ} : {A : Type ℓ} → (A → Bool) → List A → Bool
all p [] = true
all p (x ∷ xs) = p x && all p xs

-- A pointer or number stands in a list.
abbrev pub mem : ℕ → List ℕ → Bool
mem w [] = false
mem w (x ∷ xs) = x == w || mem w xs

-- No number stands twice.
abbrev pub NoDup : List ℕ → Type 0
NoDup [] = Unit
NoDup (x ∷ xs) = (mem x xs ≡ false) × NoDup xs

pub mem-keep : (p : ℕ → Bool) (w : ℕ) (xs : List ℕ) → mem w (keep p xs) ≡ (mem w xs && p w)
mem-keep p w [] = refl
mem-keep p w (x ∷ xs) = ground (arith, mem-keep p w xs, ap p)

pub NoDup-keep : (p : ℕ → Bool) (xs : List ℕ) → NoDup xs → NoDup (keep p xs)
NoDup-keep p [] h = tt
NoDup-keep p (x ∷ xs) h = ground (arith, NoDup-keep p xs, mem-keep p x xs)

pub mem-append : (w : ℕ) (xs ys : List ℕ) → mem w (xs ++ ys) ≡ (mem w xs || mem w ys)
mem-append w [] ys = refl
mem-append w (x ∷ xs) ys = ground (arith, mem-append w xs ys)

pub NoDup-snoc : (w : ℕ) (xs : List ℕ) → mem w xs ≡ false → NoDup xs → NoDup (xs ++ w ∷ [])
NoDup-snoc w [] h d = (refl, tt)
NoDup-snoc w (x ∷ xs) h d = ground (arith, NoDup-snoc w xs, mem-append x xs (w ∷ []))

-- `for i, x := range q { if x == w { q = append(q[:i], q[i+1:]...); break } }`
unfoldable pub remove : ℕ → List ℕ → List ℕ
remove w [] = []
remove w (x ∷ q) = let rest = remove w q in if x == w then q else x ∷ rest

pub mem-remove_le : (w x : ℕ) (q : List ℕ) → mem x (remove w q) ≡ true → mem x q ≡ true
unfolding remove
mem-remove_le w x [] h = cc
mem-remove_le w x (y ∷ q) h = ground (arith, mem-remove_le w x q)

pub NoDup-remove : (w : ℕ) (q : List ℕ) → NoDup q → NoDup (remove w q)
unfolding remove
NoDup-remove w [] d = tt
NoDup-remove w (y ∷ q) d = ground (arith, NoDup-remove w q, mem-remove_le w y q)

-- Of a list where nothing stands twice, `remove` takes the number away, and only it.
pub mem-remove : (w x : ℕ) (q : List ℕ) → NoDup q → mem x (remove w q) ≡ (mem x q && not (x == w))
unfolding remove
mem-remove w x [] d = refl
mem-remove w x (y ∷ q) d =
    ground (arith, mem-remove w x q, ==_iff y x, ==_iff x w, ap (λ z. mem z q))
