-- ===== src/Text.antt =====
-- Go strings as lists of bytes, with the functions of Go's standard library that the program calls
-- on them: `==`, strings.HasPrefix, TrimPrefix, Contains, TrimSpace, TrimRight, Fields, Split, Cut, Join.
-- White space is the ASCII one.
pub mod Decimal
pub mod Atoi
pub mod Laws
pub mod Lines
use Prim.Native.Char.{code}
use adb_harbor.Prelude.{
  ℕ, String, Bool, true, false, ◌&&◌, ◌||◌, Option, none, some, List, [], ◌∷◌, ◌++◌, map, ◌==◌, ◌+◌,
  leb, if◌then◌else◌, length, drop, any,
}

abbrev pub Text : Type 0
Text = List ℕ

-- A literal, by its bytes (ASCII).
abbrev pub text : String → Text
text String.[] = []
text (String.◌∷◌ c s) = code c ∷ text s

-- s == t
unfoldable pub text_eq : Text → Text → Bool
text_eq [] [] = true
text_eq [] (y ∷ ys) = false
text_eq (x ∷ xs) [] = false
text_eq (x ∷ xs) (y ∷ ys) = (x == y) && text_eq xs ys

-- s == ""
abbrev pub is_empty : Text → Bool
is_empty [] = true
is_empty (x ∷ xs) = false

-- strings.HasPrefix(s, p)
unfoldable pub has_prefix : Text → Text → Bool
has_prefix s [] = true
has_prefix [] (y ∷ p) = false
has_prefix (x ∷ s) (y ∷ p) = (x == y) && has_prefix s p

-- strings.TrimPrefix(s, p)
unfoldable pub trim_prefix : Text → Text → Text
unfolding has_prefix
trim_prefix s p = if has_prefix s p then drop (length p) s else s

-- strings.Contains(s, p)
unfoldable pub contains : Text → Text → Bool
unfolding has_prefix
contains [] p = has_prefix [] p
contains (x ∷ s) p = has_prefix (x ∷ s) p || contains s p

-- `for _, t := range ts { if s == t { return true } }`
unfoldable pub one_of : Text → List Text → Bool
unfolding text_eq
one_of s ts = any (text_eq s) ts

-- unicode.IsSpace on ASCII: tab, newline, vertical tab, form feed, carriage return, blank.
unfoldable pub is_space : ℕ → Bool
is_space c = c == 32 || c == 9 || c == 10 || c == 11 || c == 12 || c == 13

unfoldable pub trim_left : Text → Text
unfolding is_space
trim_left [] = []
trim_left (c ∷ s) = let rest = trim_left s in if is_space c then rest else c ∷ s

unfoldable pub trim_right : Text → Text
unfolding is_space
trim_right [] = []
trim_right (c ∷ s) = let rest = trim_right s in if is_empty rest && is_space c then [] else c ∷ rest

-- strings.TrimRight(s, cutset) for a cutset of one byte
unfoldable pub trim_right_byte : Text → ℕ → Text
trim_right_byte [] c = []
trim_right_byte (x ∷ s) c =
    let rest = trim_right_byte s c in if is_empty rest && (x == c) then [] else x ∷ rest

-- strings.TrimSpace(s)
unfoldable pub trim_space : Text → Text
unfolding trim_left trim_right
trim_space s = trim_right (trim_left s)

-- strings.Cut(s, sep) at a separator of one byte: `none` when it is not found.
unfoldable pub cut : Text → ℕ → Option (Text × Text)
cut [] sep = none
cut (c ∷ s) sep =
    let rest = cut s sep in
    if c == sep then some ([], s) else elim rest [ none ↦ none | some (a, b) ↦ some (c ∷ a, b) ]

-- strings.Split(s, sep) at a separator of one byte; never empty.
abbrev pub cons_head : ℕ → List Text → List Text
cons_head c [] = (c ∷ []) ∷ []
cons_head c (w ∷ ws) = (c ∷ w) ∷ ws

unfoldable pub split : Text → ℕ → List Text
split [] sep = [] ∷ []
split (c ∷ s) sep = let rest = split s sep in if c == sep then [] ∷ rest else cons_head c rest

-- strings.Fields(s): the maximal runs of bytes that are no space.
abbrev push_field : Text → List Text → List Text
push_field [] ws = ws
push_field (c ∷ w) ws = (c ∷ w) ∷ ws

-- The run in progress, and the runs after it.
fields_step : Text → Text × List Text
unfolding is_space
fields_step [] = ([], [])
fields_step (c ∷ s) =
    let rest = fields_step s in
    if is_space c then ([], push_field rest.0 rest.1) else (c ∷ rest.0, rest.1)

unfoldable pub fields : Text → List Text
unfolding fields_step
fields s = let r = fields_step s in push_field r.0 r.1

-- strings.Join(ss, sep)
unfoldable pub join : List Text → Text → Text
join [] sep = []
join (s ∷ []) sep = s
join (s ∷ t ∷ ss) sep = s ++ sep ++ join (t ∷ ss) sep

lower_byte : ℕ → ℕ
lower_byte c = if leb 65 c && leb c 90 then c + 32 else c

-- strings.ToLower on ASCII
unfoldable pub to_lower : Text → Text
unfolding lower_byte
to_lower s = map lower_byte s
