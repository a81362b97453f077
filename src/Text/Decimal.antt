-- ===== src/Text/Decimal.antt =====
-- The verb %d of Go's fmt, for the numbers that are not negative.
use mathlib.Core.List.{reverse, reverse-reverse}
use adb_harbor.Prelude.{
  ℕ, zero, suc, ◌+◌, ◌-◌, ◌*◌, ◌/◌, ◌%◌, ◌<◌, ◌≡◌, refl, sym, ap, ◌∙◌, [], ◌∷◌, arith, ltb,
  if◌then◌else◌,
}
use adb_harbor.Text.{Text}

-- The digits of `n`, least first, on fuel.
unfoldable pub digits_rev : ℕ → ℕ → Text
digits_rev zero n = []
digits_rev (suc f) n =
    let rest = digits_rev f (n / 10) in if ltb n 10 then (n + 48) ∷ [] else (n % 10 + 48) ∷ rest

-- fmt.Sprintf("%d", n)
unfoldable pub decimal : ℕ → Text
unfolding digits_rev
decimal n = reverse (digits_rev (suc n) n)

-- The number that digits stand for, least first.
value_rev : Text → ℕ
value_rev [] = 0
value_rev (c ∷ s) = c - 48 + 10 * value_rev s

value_rev-digits_rev : (f n : ℕ) → n < f → value_rev (digits_rev f n) ≡ n
unfolding value_rev digits_rev
value_rev-digits_rev zero n h = elim h [ ]
value_rev-digits_rev (suc f) n h = ground (arith, value_rev-digits_rev f (n / 10))

value : Text → ℕ
value s = value_rev (reverse s)

value-decimal : (n : ℕ) → value (decimal n) ≡ n
unfolding value
value-decimal n =
    rw (decimal-digits, reverse-reverse) (value_rev-digits_rev (suc n) n (omega arith))
  where
    decimal-digits : decimal n ≡ reverse (digits_rev (suc n) n)
    decimal-digits = unfold decimal in refl

pub decimal-injective : (m n : ℕ) → decimal m ≡ decimal n → m ≡ n
decimal-injective m n e = sym (value-decimal m) ∙ ap value e ∙ value-decimal n

decimal_example : decimal 5037 ≡ b'5' ∷ b'0' ∷ b'3' ∷ b'7' ∷ []
unfolding decimal
decimal_example = refl
