-- ===== src/Map/Laws.antt =====
-- The laws of maps that the proofs use: a read after each kind of write, and what a range finds.
use adb_harbor.Prelude.{
  ◌≡◌, refl, inl, inr, Bool, Bool-cases, true, false, none, some, [], ◌∷◌, arith, if◌then◌else◌,
}
use adb_harbor.Text.{Text, text_eq}
use adb_harbor.Text.Laws.{text_eq_iff, text_eq_refl}
use adb_harbor.Map.{Map, get, put, delete, find, delete_if}

module _ {ℓ} {V : Type ℓ} where
  pub get-put :
      (m : Map V) (k j : Text) (v : V)
      → get (put m k v) j ≡ (if text_eq k j then some v else get m j)
  unfolding get put
  get-put [] k j v = refl
  get-put ((i, w) ∷ m) k j v =
      ground (arith, text_eq_iff k j, text_eq_iff i k, text_eq_iff i j, get-put m k j v)

  pub get-delete :
      (m : Map V) (k j : Text) → get (delete m k) j ≡ (if text_eq k j then none else get m j)
  unfolding get delete
  get-delete [] k j = ground arith
  get-delete ((i, w) ∷ m) k j =
      ground (arith, text_eq_iff k j, text_eq_iff i k, text_eq_iff i j, get-delete m k j)

  -- Each key stands once.
  abbrev pub Distinct : Map V → Type ℓ
  Distinct [] = Unit
  Distinct ((k, v) ∷ m) = (get m k ≡ none) × Distinct m

  pub put-Distinct : (m : Map V) (k : Text) (v : V) → Distinct m → Distinct (put m k v)
  unfolding put get
  put-Distinct [] k v d = (refl, tt)
  put-Distinct ((j, w) ∷ m) k v d =
      ground (arith, put-Distinct m k v, get-put m k j v, text_eq_iff j k, text_eq_iff k j)

  pub delete-Distinct : (m : Map V) (k : Text) → Distinct m → Distinct (delete m k)
  unfolding delete
  delete-Distinct [] k d = tt
  delete-Distinct ((j, w) ∷ m) k d = ground (arith, delete-Distinct m k, get-delete m k j)

  -- What a range finds is stored under some key.
  pub find-some :
      (p : V → Bool) (m : Map V) (v : V)
      → Distinct m
      → find p m ≡ some v
      → (k : Text) × (get m k ≡ some v) × (p v ≡ true)
  unfolding find get
  find-some p [] v d e = absurd (cc)
  find-some p ((j, w) ∷ m) v d e = elim (Bool-cases (p w)) [
    | inl hit ↦ (j, ground (arith, text_eq_refl j), ground arith)
    | inr miss ↦
        let rest : (k : Text) × (get m k ≡ some v) × (p v ≡ true) =
          find-some p m v d.1 (ground arith) in
        (rest.0, ground (arith, text_eq_iff j rest.0, d.0), rest.2)
  ]

  -- A range that finds nothing has passed every stored value.
  pub find-none :
      (p : V → Bool) (m : Map V) (k : Text) (v : V)
      → find p m ≡ none
      → get m k ≡ some v
      → p v ≡ false
  unfolding find get
  find-none p [] k v e h = cc
  find-none p ((j, w) ∷ m) k v e h = ground (arith, find-none p m k v)

  get-delete_if-none :
      (p : V → Bool) (m : Map V) (k : Text) → get m k ≡ none → get (delete_if p m) k ≡ none
  unfolding get delete_if
  get-delete_if-none p [] k h = refl
  get-delete_if-none p ((j, w) ∷ m) k h = ground (arith, get-delete_if-none p m k)

  -- A range that deletes takes away exactly the entries that meet the test.
  pub get-delete_if :
      (p : V → Bool) (m : Map V) (k : Text) (v : V)
      → Distinct m
      → get m k ≡ some v
      → get (delete_if p m) k ≡ (if p v then none else some v)
  unfolding get delete_if
  get-delete_if p [] k v d h = cc
  get-delete_if p ((j, w) ∷ m) k v d h =
      ground (arith, text_eq_iff j k, get-delete_if p m k v, get-delete_if-none p m k, d.0)
