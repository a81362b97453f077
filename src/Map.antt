-- ===== src/Map.antt =====
-- Go maps with string keys, as association lists. A range over a map visits the entries of the
-- list; Go leaves their order open, and the theorems that range do not depend on it.
pub mod Laws
use adb_harbor.Prelude.{Bool, Option, none, some, List, [], ◌∷◌, if◌then◌else◌}
use adb_harbor.Text.{Text, text_eq}

abbrev pub Map {ℓ} : Type ℓ → Type ℓ
Map V = List (Text × V)

module _ {ℓ} {V : Type ℓ} where
  -- v, ok := m[k]
  unfoldable pub get : Map V → Text → Option V
  get [] k = none
  get ((j, v) ∷ m) k = if text_eq j k then some v else get m k

  -- m[k] = v
  unfoldable pub put : Map V → Text → V → Map V
  put [] k v = (k, v) ∷ []
  put ((j, w) ∷ m) k v = if text_eq j k then (k, v) ∷ m else (j, w) ∷ put m k v

  -- delete(m, k)
  unfoldable pub delete : Map V → Text → Map V
  delete [] k = []
  delete ((j, v) ∷ m) k = let rest = delete m k in if text_eq j k then rest else (j, v) ∷ rest

  -- `for _, v := range m { if test(v) { return v } }`
  unfoldable pub find : (V → Bool) → Map V → Option V
  find p [] = none
  find p ((j, v) ∷ m) = if p v then some v else find p m

  unfoldable pub values : Map V → List V
  values [] = []
  values ((j, v) ∷ m) = v ∷ values m

  -- `for k, v := range m { if test(v) { delete(m, k) } }`
  unfoldable pub delete_if : (V → Bool) → Map V → Map V
  delete_if p [] = []
  delete_if p ((j, v) ∷ m) = let rest = delete_if p m in if p v then rest else (j, v) ∷ rest
