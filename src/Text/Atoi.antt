-- ===== src/Text/Atoi.antt =====
-- strconv.Atoi
use mathlib.Core.List.{reverse, reverse-cons}
use adb_harbor.Prelude.{
  ℕ, zero, suc, ◌+◌, ◌-◌, ◌*◌, ◌/◌, ◌%◌, ◌^◌, ◌<◌, ◌≡◌, refl, ap, ◌∙◌, inl, inr, Bool, true, false,
  ◌&&◌, ◌||◌, ◌==◌, leb, ltb, Option, none, some, [], ◌∷◌, ◌++◌, if◌then◌else◌, arith, Bool-cases,
}
use adb_harbor.Text.{Text, is_empty}
use adb_harbor.Text.Decimal.{decimal, digits_rev}

abbrev is_digit : ℕ → Bool
is_digit c = leb 48 c && leb c 57

-- One digit more, where there was a number and `c` is a digit.
abbrev then_digit : ℕ → Option ℕ → Option ℕ
then_digit c none = none
then_digit c (some n) = if is_digit c then some (n * 10 + (c - 48)) else none

-- The digits, first to last, on the number read so far.
read_digits : Option ℕ → Text → Option ℕ
read_digits n [] = n
read_digits n (c ∷ s) = read_digits (then_digit c n) s

-- The digits of Atoi, without a sign; none is an error.
unfoldable pub unsigned : Text → Option ℕ
unfolding read_digits
unsigned s = if is_empty s then none else read_digits (some 0) s

-- A signed number below the bound of an int, of 64 bits.
abbrev in_range : Bool → Option ℕ → Option (Bool × ℕ)
in_range negative none = none
in_range negative (some n) =
    if ltb n (2 ^ 63) || negative && (n == 2 ^ 63) then some (negative, n) else none

-- strconv.Atoi(s): whether there is a minus sign, and the number.
unfoldable pub atoi : Text → Option (Bool × ℕ)
unfolding unsigned
atoi [] = none
atoi (c ∷ s) =
    if c == 45
    then in_range true (unsigned s)
    else if c == 43
    then in_range false (unsigned s)
    else in_range false (unsigned (c ∷ s))

read_digits-snoc :
    (n : Option ℕ) (s : Text) (c : ℕ)
    → read_digits n (s ++ (c ∷ [])) ≡ then_digit c (read_digits n s)
unfolding read_digits
read_digits-snoc n [] c = refl
read_digits-snoc n (x ∷ s) c = read_digits-snoc (then_digit x n) s c

read_digits-digits_rev :
    (f n : ℕ) → n < f → read_digits (some 0) (reverse (digits_rev f n)) ≡ some n
unfolding digits_rev read_digits
read_digits-digits_rev zero n h = absurd (omega arith)
read_digits-digits_rev (suc f) n h = elim (Bool-cases (ltb n 10)) [
  | inl e ↦ rw e (ground arith)
  | inr e ↦ rw e (
      ap (read_digits (some 0)) (reverse-cons (n % 10 + 48) (digits_rev f (n / 10)))
      ∙ read_digits-snoc (some 0) (reverse (digits_rev f (n / 10))) (n % 10 + 48)
      ∙ ap (then_digit (n % 10 + 48)) (read_digits-digits_rev f (n / 10) (ground arith))
      ∙ ground arith)
]

-- A text whose digits read as a number starts with one.
digit_first : (c : ℕ) (s : Text) (n : ℕ) → read_digits (some 0) (c ∷ s) ≡ some n → is_digit c ≡ true
unfolding read_digits
digit_first c s n e = elim (Bool-cases (is_digit c)) [
  | inl d ↦ d
  | inr d ↦ absurd (ground (arith, stays_none s))
]
  where
    stays_none : (t : Text) → read_digits none t ≡ none
    stays_none [] = refl
    stays_none (x ∷ t) = stays_none t

atoi-digits :
    (s : Text) (n : ℕ)
    → is_empty s ≡ false
    → read_digits (some 0) s ≡ some n
    → n < 2 ^ 63
    → atoi s ≡ some (false, n)
unfolding atoi unsigned
atoi-digits [] n h e k = cc
atoi-digits (c ∷ s) n h e k =
    let d = digit_first c s n e in
    let minus : (c == 45) ≡ false = ground arith in
    let plus : (c == 43) ≡ false = ground arith in
    rw (minus, plus) (ap (in_range false) e ∙ ground arith)

snoc-full : (s : Text) (c : ℕ) → is_empty (s ++ (c ∷ [])) ≡ false
snoc-full [] c = refl
snoc-full (x ∷ s) c = refl

pub decimal-full : (n : ℕ) → is_empty (decimal n) ≡ false
unfolding decimal digits_rev
decimal-full n = elim (Bool-cases (ltb n 10)) [
  | inl e ↦ rw e refl
  | inr e ↦ rw e (
      ap is_empty (reverse-cons (n % 10 + 48) (digits_rev n (n / 10)))
      ∙ snoc-full (reverse (digits_rev n (n / 10))) (n % 10 + 48))
]

-- Atoi reads what %d writes.
pub atoi-decimal : (n : ℕ) → n < 2 ^ 63 → atoi (decimal n) ≡ some (false, n)
atoi-decimal n h =
    atoi-digits (decimal n) n (decimal-full n)
      (unfold decimal in read_digits-digits_rev (suc n) n (omega arith)) h
