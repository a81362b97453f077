-- ===== src/Runs/Tail.antt =====
-- tailLines, internal/harbor/runs.go: the end of a log.
use adb_harbor.Prelude.{
  ℕ, zero, suc, ◌-◌, ◌≤◌, ◌<◌, ◌≡◌, refl, sym, ap, ◌∙◌, inl, inr, true, false, not, ◌==◌, leb, List,
  [], ◌∷◌, ◌++◌, if◌then◌else◌, arith, Bool-cases, length, drop, mem, all, append_assoc,
}
use adb_harbor.Text.{Text, is_empty, split, join, cons_head, trim_right_byte}
use adb_harbor.Text.Lines.{split-append, split-single, join-split}

-- tailLines; a line feed is the byte 10.
unfoldable pub tail_lines : Text → ℕ → Text
tail_lines s n =
    let t = trim_right_byte s 10 in
    let lines = split t 10 in
    if is_empty t
    then []
    else if leb (length lines) n
    then t
    else join (drop (length lines - n) lines) (10 ∷ [])

-- No line has a line feed.
abbrev ArePlain : List Text → Type 0
ArePlain ls = all (λ l. not (mem 10 l)) ls ≡ true

cons_head-plain :
    (c : ℕ) (ls : List Text) → (c == 10) ≡ false → ArePlain ls → ArePlain (cons_head c ls)
cons_head-plain c [] e h = ground arith
cons_head-plain c (l ∷ ls) e h = ground arith

split-plain : (s : Text) → ArePlain (split s 10)
unfolding split
split-plain [] = refl
split-plain (c ∷ s) = elim (Bool-cases (c == 10)) [
  | inl e ↦ rw e (split-plain s)
  | inr e ↦ rw e (cons_head-plain c (split s 10) e (split-plain s))
]

drop-plain : (n : ℕ) (ls : List Text) → ArePlain ls → ArePlain (drop n ls)
drop-plain zero ls h = h
drop-plain (suc n) [] h = h
drop-plain (suc n) (l ∷ ls) h = drop-plain n ls (ground arith)

split-join :
    (l : Text) (ls : List Text) → ArePlain (l ∷ ls) → split (join (l ∷ ls) (10 ∷ [])) 10 ≡ l ∷ ls
unfolding join
split-join l [] h = split-single l 10 (ground arith)
split-join l (m ∷ ls) h =
    ap (λ t. split t 10) (append_assoc l (10 ∷ []) (join (m ∷ ls) (10 ∷ [])))
    ∙ split-append l (join (m ∷ ls) (10 ∷ [])) 10
    ∙ rw (split-single l 10 (ground arith), split-join m ls (ground arith)) refl

length-drop : (n : ℕ) (ls : List Text) → length (drop n ls) ≡ length ls - n
length-drop zero ls = omega arith
length-drop (suc n) [] = omega arith
length-drop (suc n) (l ∷ ls) = omega (arith, length-drop n ls)

-- The result has as many lines as were joined.
lines_of_join :
    (ls : List Text)
    → ArePlain ls
    → 0 < length ls
    → length (split (join ls (10 ∷ [])) 10) ≡ length ls
lines_of_join [] h pos = absurd (omega arith)
lines_of_join (l ∷ ls) h pos = ap length (split-join l ls h)

-- The lines behind the first ones are an end of the text, after a line feed.
join-drop :
    (n : ℕ) (ls : List Text)
    → suc n < length ls
    → (front : Text) × (front ++ (10 ∷ join (drop (suc n) ls) (10 ∷ [])) ≡ join ls (10 ∷ []))
unfolding join
join-drop n [] h = absurd (omega arith)
join-drop n (l ∷ []) h = absurd (omega arith)
join-drop zero (l ∷ m ∷ ls) h = (l, sym (append_assoc l (10 ∷ []) (join (m ∷ ls) (10 ∷ []))))
join-drop (suc n) (l ∷ m ∷ ls) h =
    let (front, e) = join-drop n (m ∷ ls) (omega arith) in
    (
      l ++ (10 ∷ []) ++ front,
      append_assoc (l ++ (10 ∷ [])) front (10 ∷ join (drop (suc n) (m ∷ ls)) (10 ∷ []))
          ∙ ap (λ t. l ++ (10 ∷ []) ++ t) e,
    )

-- The last `n` lines of the text `s`: all of it where it has no more, and otherwise the `n` lines that stand behind
-- some line feed of it.
pub data IsTail (s : Text) (n : ℕ) : Text → Type 0 where
  whole : length (split s 10) ≤ n → IsTail s n s
  last : (front : Text) {t : Text} → front ++ (10 ∷ t) ≡ s → length (split t 10) ≡ n → IsTail s n t

-- How many lines of some more are dropped, so that `n` are left.
less_one : (m n : ℕ) → n < m → (k : ℕ) × (m - n ≡ suc k)
less_one m n h = (m - n - 1, omega arith)

module _ (s : Text) (n : ℕ) (pos : 0 < n) where
  lines : List Text
  lines = split s 10

  last_lines-IsTail :
      leb (length lines) n ≡ false → IsTail s n (join (drop (length lines - n) lines) (10 ∷ []))
  unfolding lines
  last_lines-IsTail f =
      let (k, dropped) = less_one (length lines) n (ground arith) in
      let (front, e) = join-drop k lines (ground arith) in
      rw dropped (
        last front (e ∙ join-split s 10) (
          lines_of_join (drop (suc k) lines) (drop-plain (suc k) lines (split-plain s))
            (ground (arith, length-drop (suc k) lines))
          ∙ ground (arith, length-drop (suc k) lines)))

is_empty-nil : (s : Text) → is_empty s ≡ true → s ≡ []
is_empty-nil [] e = refl
is_empty-nil (c ∷ s) e = cc

-- One line is all of the empty text.
nil-IsTail : (s : Text) (n : ℕ) → 0 < n → s ≡ [] → IsTail s n []
unfolding split
nil-IsTail [] n pos e = whole (omega arith)
nil-IsTail (c ∷ s) n pos e = cc

-- Asked for a number of lines, tailLines gives that many last lines of the text, less the line feeds behind it, or all
-- of it where it has no more.
pub tail_lines-IsTail :
    (s : Text) (n : ℕ) → 0 < n → IsTail (trim_right_byte s 10) n (tail_lines s n)
unfolding tail_lines lines split
tail_lines-IsTail s n pos = elim (Bool-cases (is_empty (trim_right_byte s 10))) [
  | inl e ↦
      rw (e, tail_lines)
        (nil-IsTail (trim_right_byte s 10) n pos (is_empty-nil (trim_right_byte s 10) e))
  | inr e ↦ elim (Bool-cases (leb (length (split (trim_right_byte s 10) 10)) n)) [
    | inl f ↦ rw (e, f) (whole (ground arith))
    | inr f ↦ rw (e, f) (last_lines-IsTail (trim_right_byte s 10) n pos f)
  ]
]
