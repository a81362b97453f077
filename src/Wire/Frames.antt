-- ===== src/Wire/Frames.antt =====
-- The frames of the ADB host protocol: what writeMsg of internal/harbor/proxy.go writes, readMsg reads.
use adb_harbor.Prelude.{
  ◌≡◌, refl, ap, ◌∙◌, ◌≤◌, ◌<◌, ℕ, suc, ◌+◌, ◌*◌, ◌/◌, ◌%◌, ltb, false, none, some, [], ◌∷◌, ◌++◌,
  arith, length, take, drop, length-append,
}
use adb_harbor.Text.{Text, is_space}
use adb_harbor.Wire.{
  digit, digit_value, hex_rev, pad, hex4, write_msg, scan_digits, scan_number, scan_signed,
  read_body, read_msg, Read, message, bad_length,
}

digit_value-digit : (d : ℕ) → d < 16 → digit_value (digit d) ≡ some d
unfolding digit digit_value
digit_value-digit d h = ground arith

-- The digits of a number below 65536, the most significant first.
abbrev pub four_digits : ℕ → Text
four_digits n = digit (n / 4096) ∷ digit (n / 256 % 16) ∷ digit (n / 16 % 16) ∷ digit (n % 16) ∷ []

hex_rev-small : (f n : ℕ) → n < 16 → hex_rev (suc f) n ≡ digit n ∷ []
unfolding hex_rev
hex_rev-small f n h = ground arith

hex_rev-large : (f n : ℕ) → 16 ≤ n → hex_rev (suc f) n ≡ digit (n % 16) ∷ hex_rev f (n / 16)
unfolding hex_rev
hex_rev-large f n h = ground arith

-- The digits of a number that has so many, padded.
module _ (n : ℕ) where
  one_digit : n < 16 → hex4 n ≡ four_digits n
  unfolding hex4 pad
  one_digit h = ground (arith, hex_rev-small 15 n)

  two_digits : 16 ≤ n → n < 256 → hex4 n ≡ four_digits n
  unfolding hex4 pad
  two_digits g h = ground (arith, hex_rev-large 15 n, hex_rev-small 14 (n / 16))

  three_digits : 256 ≤ n → n < 4096 → hex4 n ≡ four_digits n
  unfolding hex4 pad
  three_digits g h =
      ground (arith, hex_rev-large 15 n, hex_rev-large 14 (n / 16), hex_rev-small 13 (n / 16 / 16))

  all_digits : 4096 ≤ n → n < 65536 → hex4 n ≡ four_digits n
  unfolding hex4 pad
  all_digits g h = ground (
    arith,
    hex_rev-large 15 n,
    hex_rev-large 14 (n / 16),
    hex_rev-large 13 (n / 16 / 16),
    hex_rev-small 12 (n / 16 / 16 / 16),
  )

hex4-four_digits : (n : ℕ) → n < 65536 → hex4 n ≡ four_digits n
hex4-four_digits n h = ground (arith, one_digit n, two_digits n, three_digits n, all_digits n)

-- A digit is none of the bytes that the scanner treats otherwise.
digit_least : (d : ℕ) → 48 ≤ digit d
unfolding digit
digit_least d = ground arith

scan_signed-number :
    (c : ℕ) (s : Text) (n : ℕ)
    → 48 ≤ c
    → scan_number (c ∷ s) ≡ some n
    → scan_signed (c ∷ s) ≡ some (false, n)
unfolding scan_signed is_space
scan_signed-number c s n h e = ground arith

scan_number-digit : (d : ℕ) (s : Text) → d < 16 → scan_number (digit d ∷ s) ≡ some (scan_digits d s)
unfolding scan_number
scan_number-digit d s h = rw (digit_value-digit d h, scan_number)

scan_digits-digit :
    (n d : ℕ) (s : Text) → d < 16 → scan_digits n (digit d ∷ s) ≡ scan_digits (n * 16 + d) s
unfolding scan_digits
scan_digits-digit n d s h = rw (digit_value-digit d h, scan_digits)

pub scan-four_digits : (n : ℕ) → n < 65536 → scan_signed (four_digits n) ≡ some (false, n)
unfolding scan_digits
scan-four_digits n h =
    let a = n / 4096 in
    let b = n / 256 % 16 in
    let c = n / 16 % 16 in
    let d = n % 16 in
    scan_signed-number (digit a) _ n (digit_least a) (
      scan_number-digit a _ (omega arith)
      ∙ ap some (
          scan_digits-digit a b (digit c ∷ digit d ∷ []) (omega arith)
          ∙ scan_digits-digit (a * 16 + b) c (digit d ∷ []) (omega arith)
          ∙ scan_digits-digit ((a * 16 + b) * 16 + c) d [] (omega arith)
          ∙ omega arith))

pub take-append : (xs ys : Text) → take (length xs) (xs ++ ys) ≡ xs
take-append [] ys = refl
take-append (x ∷ xs) ys = ap (λ t. x ∷ t) (take-append xs ys)

pub drop-append : (xs ys : Text) → drop (length xs) (xs ++ ys) ≡ ys
drop-append [] ys = refl
drop-append (x ∷ xs) ys = drop-append xs ys

read_body-append :
    (msg rest : Text)
    → length msg < 65536
    → read_body (msg ++ rest) (false, length msg) ≡ message msg rest
unfolding read_body
read_body-append msg rest h =
    ground (arith, length-append msg rest, take-append msg rest, drop-append msg rest)

read_msg-four_digits :
    (n : ℕ) (s : Text) → n < 65536 → read_msg (four_digits n ++ s) ≡ read_body s (false, n)
unfolding read_msg
read_msg-four_digits n s h = rw (long, read_msg) (scanned)
  where
    long : ltb (length (four_digits n ++ s)) 4 ≡ false
    long = ground arith

    scanned :
        (elim (scan_signed (four_digits n)) as (λ o. Read) [
          | none ↦ bad_length
          | some m ↦ read_body s m
        ])
        ≡ read_body s (false, n)
    scanned = rw (scan-four_digits n h) refl

pub write_msg-four_digits :
    (msg rest : Text)
    → length msg < 65536
    → write_msg msg ++ rest ≡ four_digits (length msg) ++ (msg ++ rest)
unfolding write_msg
write_msg-four_digits msg rest h = rw (hex4-four_digits (length msg) h) refl

-- A message of less than 65536 bytes that writeMsg writes is what readMsg reads, and the bytes that follow
-- it stay on the connection.
pub read_msg-write_msg :
    (msg rest : Text) → length msg < 65536 → read_msg (write_msg msg ++ rest) ≡ message msg rest
read_msg-write_msg msg rest h =
    ap read_msg (write_msg-four_digits msg rest h)
    ∙ read_msg-four_digits (length msg) (msg ++ rest) h
    ∙ read_body-append msg rest h
