-- ===== src/Observe/Bearer.antt =====
-- loadOrCreateMCPToken, internal/harbor/observe.go: the token stays.
use adb_harbor.Prelude.{
  ℕ, ◌/◌, ◌%◌, ◌<◌, ◌≡◌, refl, ap, subst, ◌∙◌, inl, inr, Bool, true, false, not, Option, none, some,
  List, [], ◌∷◌, ◌++◌, arith, Bool-cases, all, length,
}
use adb_harbor.Text.{Text, is_empty, is_space, trim_space, trim_left, trim_right}
use adb_harbor.Observe.{
  hex_digit, hex_encode, Token, no_token, token, create_token, load_or_create_token,
}

-- No byte is white space.
abbrev pub IsSolid : Text → Type 0
IsSolid s = all (λ c. not (is_space c)) s ≡ true

hex_digit-solid : (d : ℕ) → d < 16 → is_space (hex_digit d) ≡ false
unfolding hex_digit is_space
hex_digit-solid d h = ground arith

hex_encode-IsSolid : (bs : List ℕ) → IsSolid (hex_encode bs)
unfolding hex_encode
hex_encode-IsSolid [] = refl
hex_encode-IsSolid (b ∷ bs) = ground (
  arith,
  hex_digit-solid (b / 16 % 16) (omega arith),
  hex_digit-solid (b % 16) (omega arith),
  hex_encode-IsSolid bs,
)

trim_left-solid : (s t : Text) → IsSolid s → is_empty s ≡ false → trim_left (s ++ t) ≡ s ++ t
unfolding trim_left is_space
trim_left-solid [] t h e = cc
trim_left-solid (c ∷ s) t h e = ground arith

trim_right-solid : (s : Text) → IsSolid s → trim_right (s ++ (10 ∷ [])) ≡ s
unfolding trim_right is_space
trim_right-solid [] h = refl
trim_right-solid (c ∷ s) h = ground (arith, trim_right-solid s)

-- A token with a line feed behind it is the token, after strings.TrimSpace.
pub trim_space-solid : (s : Text) → IsSolid s → is_empty s ≡ false → trim_space (s ++ (10 ∷ [])) ≡ s
unfolding trim_space
trim_space-solid s h e = ap trim_right (trim_left-solid s (10 ∷ []) h e) ∙ trim_right-solid s h

hex_encode-full : (bs : List ℕ) → length bs ≡ 32 → is_empty (hex_encode bs) ≡ false
unfolding hex_encode
hex_encode-full [] e = absurd (omega arith)
hex_encode-full (b ∷ bs) e = refl

-- A token that is there, with its file, is what a later call gives, whatever it draws and whether it can write.
abbrev pub Stays : Text → Text → Type 0
Stays t file =
    (is_empty t ≡ false)
    × ((bytes : Option (List ℕ)) (writes : Bool)
        → load_or_create_token (some file) bytes writes ≡ token t file)

kept-Stays : (file : Text) → is_empty (trim_space file) ≡ false → Stays (trim_space file) file
unfolding load_or_create_token
kept-Stays file e = (e, λ bytes writes. rw e refl)

created-Stays : (bs : List ℕ) → length bs ≡ 32 → Stays (hex_encode bs) (hex_encode bs ++ (10 ∷ []))
created-Stays bs n =
    let back = trim_space-solid (hex_encode bs) (hex_encode-IsSolid bs) (hex_encode-full bs n) in
    let kept = kept-Stays (hex_encode bs ++ (10 ∷ [])) (ap is_empty back ∙ hex_encode-full bs n) in
    (
      hex_encode-full bs n,
      λ bytes writes. kept.1 bytes writes ∙ ap (λ t. token t (hex_encode bs ++ (10 ∷ []))) back,
    )

StaysIfAny : Token → Type 0
StaysIfAny no_token = 0 < 1
StaysIfAny (token t file) = Stays t file

create_token-Stays :
    (bytes : Option (List ℕ)) (writes : Bool)
    → ((bs : List ℕ) → bytes ≡ some bs → length bs ≡ 32)
    → StaysIfAny (create_token bytes writes)
unfolding create_token StaysIfAny
create_token-Stays none writes n = omega arith
create_token-Stays (some bs) false n = omega arith
create_token-Stays (some bs) true n = created-Stays bs (n bs refl)

by_content :
    (content : Option Text) (bytes : Option (List ℕ)) (writes : Bool)
    → ((bs : List ℕ) → bytes ≡ some bs → length bs ≡ 32)
    → StaysIfAny (load_or_create_token content bytes writes)
unfolding load_or_create_token StaysIfAny
by_content none bytes writes n = create_token-Stays bytes writes n
by_content (some c) bytes writes n = elim (Bool-cases (is_empty (trim_space c))) [
  | inl k ↦ rw k (create_token-Stays bytes writes n)
  | inr k ↦ rw k (kept-Stays c k)
]

-- When loadOrCreateMCPToken gives a token, of 32 random bytes where it draws one, the token is not empty, and
-- every later call on the file that it leaves gives the same token and leaves the same file.
pub load_or_create_token-Stays :
    (content : Option Text) (bytes : Option (List ℕ)) (writes : Bool) (t file : Text)
    → ((bs : List ℕ) → bytes ≡ some bs → length bs ≡ 32)
    → load_or_create_token content bytes writes ≡ token t file
    → Stays t file
unfolding StaysIfAny
load_or_create_token-Stays content bytes writes t file n e =
    subst StaysIfAny e (by_content content bytes writes n)
