-- ===== src/Text/Lines.antt =====
-- Laws of strings.Split and strings.Join at a separator of one byte.
use adb_harbor.Prelude.{
  ◌≡◌, refl, sym, ap, ◌∙◌, ℕ, ◌==◌, true, false, List, [], ◌∷◌, ◌++◌, arith, mem, Bool-cases, inl,
  inr, ==_iff, append_assoc, append-nil, ==_refl, suc, zero, take, drop,
}
use adb_harbor.Text.{Text, split, join, cons_head, contains, has_prefix}

-- The first line, and the lines behind it.
abbrev first_of : List Text → Text
first_of [] = []
first_of (l ∷ ls) = l

abbrev rest_of : List Text → List Text
rest_of [] = []
rest_of (l ∷ ls) = ls

cons_head-cons : (c : ℕ) (ls : List Text) → cons_head c ls ≡ (c ∷ first_of ls) ∷ rest_of ls
cons_head-cons c [] = refl
cons_head-cons c (l ∷ ls) = refl

-- A text splits into at least one line.
pub split-cons : (s : Text) (sep : ℕ) → split s sep ≡ first_of (split s sep) ∷ rest_of (split s sep)
unfolding split
split-cons [] sep = refl
split-cons (c ∷ s) sep = elim (Bool-cases (c == sep)) [
  | inl e ↦ rw e
  | inr e ↦ rw (e, cons_head-cons c (split s sep))
]

cons_head-append :
    (c : ℕ) (l : Text) (ls ms : List Text)
    → cons_head c ((l ∷ ls) ++ ms) ≡ cons_head c (l ∷ ls) ++ ms
cons_head-append c l ls ms = refl

pub split-append : (a b : Text) (sep : ℕ) → split (a ++ (sep ∷ b)) sep ≡ split a sep ++ split b sep
unfolding split
split-append [] b sep = ground (arith, ==_refl sep)
split-append (c ∷ a) b sep = elim (Bool-cases (c == sep)) [
  | inl e ↦ rw e (ap (λ ls. [] ∷ ls) (split-append a b sep))
  | inr e ↦ rw (e, split-append a b sep) (headed c (split a sep) (split-cons a sep))
]
  where
    headed :
        (d : ℕ) (ls : List Text)
        → ls ≡ first_of ls ∷ rest_of ls
        → cons_head d (ls ++ split b sep) ≡ cons_head d ls ++ split b sep
    headed d [] e = absurd (cc)
    headed d (l ∷ ls) e = refl

pub split-single : (s : Text) (sep : ℕ) → mem sep s ≡ false → split s sep ≡ s ∷ []
unfolding split
split-single [] sep h = refl
split-single (c ∷ s) sep h = ground (arith, split-single s sep, ==_iff c sep)

join-cons_head :
    (c : ℕ) (ls : List Text) (sep : Text)
    → ls ≡ first_of ls ∷ rest_of ls
    → join (cons_head c ls) sep ≡ c ∷ join ls sep
unfolding join
join-cons_head c [] sep e = absurd (cc)
join-cons_head c (l ∷ []) sep e = refl
join-cons_head c (l ∷ m ∷ ls) sep e = refl

join-cons_empty :
    (ls : List Text) (sep : Text)
    → ls ≡ first_of ls ∷ rest_of ls
    → join ([] ∷ ls) sep ≡ sep ++ join ls sep
unfolding join
join-cons_empty [] sep e = absurd (cc)
join-cons_empty (l ∷ ls) sep e = refl

-- To join the lines of a text by the separator gives the text back.
pub join-split : (s : Text) (sep : ℕ) → join (split s sep) (sep ∷ []) ≡ s
unfolding split join
join-split [] sep = refl
join-split (c ∷ s) sep = elim (Bool-cases (c == sep)) [
  | inl e ↦ rw e (
      join-cons_empty (split s sep) (sep ∷ []) (split-cons s sep)
      ∙ ap (λ t. sep ∷ t) (join-split s sep)
      ∙ ap (λ d. d ∷ s) (sym ((==_iff c sep).0 e)))
  | inr e ↦ rw e (
      join-cons_head c (split s sep) (sep ∷ []) (split-cons s sep)
      ∙ ap (λ t. c ∷ t) (join-split s sep))
]

-- An empty line at the end is a separator at the end.
pub join-snoc_empty :
    (l : Text) (ls : List Text) (sep : Text)
    → join ((l ∷ ls) ++ ([] ∷ [])) sep ≡ join (l ∷ ls) sep ++ sep
unfolding join
join-snoc_empty l [] sep = append-nil (l ++ sep)
join-snoc_empty l (m ∷ ls) sep =
    ap (λ t. l ++ sep ++ t) (join-snoc_empty m ls sep)
    ∙ sym (append_assoc (l ++ sep) (join (m ∷ ls) sep) sep)

pub join-split-snoc :
    (s : Text) (sep : ℕ) → join (split s sep ++ ([] ∷ [])) (sep ∷ []) ≡ s ++ (sep ∷ [])
join-split-snoc s sep = rw (split-cons s sep) (
    join-snoc_empty (first_of (split s sep)) (rest_of (split s sep)) (sep ∷ [])
    ∙ ap (λ t. t ++ (sep ∷ []))
        (ap (λ ls. join ls (sep ∷ [])) (sym (split-cons s sep)) ∙ join-split s sep))

pub has_prefix-append : (p s : Text) → has_prefix (p ++ s) p ≡ true
unfolding has_prefix
has_prefix-append [] s = refl
has_prefix-append (c ∷ p) s = ground (arith, has_prefix-append p s)

pub contains-append : (a p b : Text) → contains (a ++ (p ++ b)) p ≡ true
unfolding contains
contains-append [] [] [] = refl
contains-append [] [] (x ∷ b) = refl
contains-append [] (c ∷ p) b = ground (arith, has_prefix-append p b)
contains-append (c ∷ a) p b = ground (arith, contains-append a p b)

pub take-drop : (n : ℕ) (s : Text) → take n s ++ drop n s ≡ s
take-drop zero s = refl
take-drop (suc n) [] = refl
take-drop (suc n) (c ∷ s) = ap (λ t. c ∷ t) (take-drop n s)
