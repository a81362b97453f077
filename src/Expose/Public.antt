-- ===== src/Expose/Public.antt =====
-- The address that firstPublicURL, internal/harbor/expose.go, picks.
use adb_harbor.Prelude.{
  ℕ, zero, suc, ◌+◌, ◌-◌, ◌≤◌, ◌≡◌, refl, ap, ◌⊎◌, inl, inr, ◌==◌, leb, Bool, true, false, ◌&&◌,
  List, [], ◌∷◌, if◌then◌else◌, length, take, drop, All, arith, Bool-cases, ==_refl,
}
use adb_harbor.Text.{Text, text, is_empty, has_prefix, contains}
use adb_harbor.Expose.{
  host_length, match_length, find_all, trim_marks, is_local, is_alnum, is_host_byte, starts_alnum,
  first_public, first_public_url,
}

-- An address in the text `s` that is not local.
pub record IsPublicIn (s u : Text) : Type 0 where
  pub secure : has_prefix u (text "https://") ≡ true
  pub inside : contains s u ≡ true
  pub remote : is_local u ≡ false

-- A match: it is in the text, and the cut of punctuation behind it leaves it as it is.
record IsMatch (s m : Text) : Type 0 where
  secure : has_prefix m (text "https://") ≡ true
  inside : contains s m ≡ true
  clean : trim_marks m ≡ m

has_prefix-take : (n : ℕ) (s : Text) → has_prefix s (take n s) ≡ true
unfolding has_prefix
has_prefix-take zero s = refl
has_prefix-take (suc n) [] = refl
has_prefix-take (suc n) (c ∷ s) = ground (arith, has_prefix-take n s, ==_refl c)

-- A prefix is one of a long enough beginning.
take-has_prefix :
    (p s : Text) (n : ℕ) → length p ≤ n → has_prefix s p ≡ true → has_prefix (take n s) p ≡ true
unfolding has_prefix
take-has_prefix [] s n k h = refl
take-has_prefix (y ∷ p) [] n k h = absurd (cc)
take-has_prefix (y ∷ p) (x ∷ s) zero k h = absurd (omega arith)
take-has_prefix (y ∷ p) (x ∷ s) (suc n) k h = ground (arith, take-has_prefix p s n)

trim_marks-cons :
    (c : ℕ) (s : Text) → is_empty s ≡ false → trim_marks s ≡ s → trim_marks (c ∷ s) ≡ c ∷ s
unfolding trim_marks
trim_marks-cons c s n e = rw (e, n) refl

-- The longest run of host bytes, up to a letter or digit, loses nothing to the cut.
host-clean :
    (s : Text)
    → (host_length s == 0) ≡ false
    → (trim_marks (take (host_length s) s) ≡ take (host_length s) s)
      × (is_empty (take (host_length s) s) ≡ false)
unfolding host_length trim_marks
host-clean [] h = absurd (cc)
host-clean (c ∷ s) h = elim (Bool-cases (is_host_byte c)) [
  | inr b ↦ absurd (ground arith)
  | inl b ↦ elim (Bool-cases (host_length s == 0)) [
    | inl z ↦ elim (Bool-cases (is_alnum c)) [
      | inl a ↦ rw (b, z, a) (ground arith, refl)
      | inr a ↦ absurd (ground arith)
    ]
    | inr z ↦
        let (e, n) = host-clean s z in
        rw (b, z) (trim_marks-cons c (take (host_length s) s) n e, refl)
  ]
]

take-nil : (k : ℕ) → take {A = ℕ} k [] ≡ []
take-nil zero = refl
take-nil (suc k) = refl

-- A text in front of a run loses nothing either.
front-clean :
    (n k m : ℕ) (s : Text)
    → m ≡ n + k
    → is_empty (take k (drop n s)) ≡ false
    → trim_marks (take k (drop n s)) ≡ take k (drop n s)
    → (trim_marks (take m s) ≡ take m s) × (is_empty (take m s) ≡ false)
front-clean zero k m s q f e = ground (arith, q, f, e, ap (λ j. take j s))
front-clean (suc n) k zero s q f e = absurd (omega arith)
front-clean (suc n) k (suc m) [] q f e = absurd (ground (arith, take-nil k))
front-clean (suc n) k (suc m) (c ∷ s) q f e =
    let (e2, f2) = front-clean n k m s (omega arith) f e in
    (trim_marks-cons c (take m s) f2 e2, refl)

contains-start : (s p : Text) → has_prefix s p ≡ true → contains s p ≡ true
unfolding contains
contains-start [] p h = h
contains-start (c ∷ s) p h = rw h refl

-- A beginning that the expression takes.
take-IsMatch :
    (s : Text)
    → has_prefix s (text "https://") ≡ true
    → leb 2 (host_length (drop 8 s)) ≡ true
    → IsMatch s (take (8 + host_length (drop 8 s)) s)
take-IsMatch s h k =
    let (e, f) = host-clean (drop 8 s) (ground arith) in
    record {
      secure = take-has_prefix (text "https://") s (8 + host_length (drop 8 s)) (omega arith) h;
      inside =
          contains-start s (take (8 + host_length (drop 8 s)) s)
            (has_prefix-take (8 + host_length (drop 8 s)) s);
      clean = (front-clean 8 (host_length (drop 8 s)) (8 + host_length (drop 8 s)) s refl f e).0;
    }

-- Where the expression matches.
match_length-IsMatch :
    (s : Text) → (match_length s == 0) ≡ false → IsMatch s (take (match_length s) s)
unfolding match_length
match_length-IsMatch s h =
    by_tests (has_prefix s (text "https://")) (starts_alnum (drop 8 s))
      (leb 2 (host_length (drop 8 s))) refl refl h
  where
    by_tests :
        (starts alnum long : Bool)
        → has_prefix s (text "https://") ≡ starts
        → leb 2 (host_length (drop 8 s)) ≡ long
        → ((if starts && alnum && long then 8 + host_length (drop 8 s) else 0) == 0) ≡ false
        → IsMatch s (take (if starts && alnum && long then 8 + host_length (drop 8 s) else 0) s)
    by_tests true true true e k n = take-IsMatch s e k
    by_tests true true false e k n = absurd (cc)
    by_tests true false long e k n = absurd (cc)
    by_tests false alnum long e k n = absurd (cc)

-- A match in what follows is one in the whole.
IsMatch-cons : (c : ℕ) (s m : Text) → IsMatch s m → IsMatch (c ∷ s) m
unfolding contains
IsMatch-cons c s m x = record {
  secure = x.secure;
  inside = ground (arith, x.inside);
  clean = x.clean;
}

matches-cons : (c : ℕ) (s : Text) (ms : List Text) → All (IsMatch s) ms → All (IsMatch (c ∷ s)) ms
matches-cons c s [] h = tt
matches-cons c s (m ∷ ms) h = (IsMatch-cons c s m h.0, matches-cons c s ms h.1)

find_all-matches : (s : Text) (skip : ℕ) → All (IsMatch s) (find_all skip s)
unfolding find_all
find_all-matches [] skip = tt
find_all-matches (c ∷ s) (suc skip) = matches-cons c s (find_all skip s) (find_all-matches s skip)
find_all-matches (c ∷ s) zero = elim (Bool-cases (match_length (c ∷ s) == 0)) [
  | inl e ↦ rw e (matches-cons c s (find_all 0 s) (find_all-matches s 0))
  | inr e ↦ rw e (
    match_length-IsMatch (c ∷ s) e,
    matches-cons c s (find_all (match_length (c ∷ s) - 1) s)
        (find_all-matches s (match_length (c ∷ s) - 1)),
  )
]

first_public-IsPublicIn :
    (s : Text) (ms : List Text)
    → All (IsMatch s) ms
    → (first_public ms ≡ []) ⊎ IsPublicIn s (first_public ms)
unfolding first_public
first_public-IsPublicIn s [] h = inl refl
first_public-IsPublicIn s (m ∷ ms) h = elim (Bool-cases (is_local m)) [
  | inl e ↦ rw e (first_public-IsPublicIn s ms h.1)
  | inr e ↦
      rw (e, h.0.clean) (inr (record { secure = h.0.secure; inside = h.0.inside; remote = e }))
]

-- The address that firstPublicURL gives stands in the text, letter for letter, starts with https:// and is not local;
-- or it gives none. The cut of punctuation at its end never shortens it.
pub first_public_url-IsPublicIn :
    (s : Text) → (first_public_url s ≡ []) ⊎ IsPublicIn s (first_public_url s)
unfolding first_public_url
first_public_url-IsPublicIn s = first_public-IsPublicIn s (find_all 0 s) (find_all-matches s 0)
