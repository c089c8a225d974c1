-- ===== src/GoMap.antt =====
-- Go's built-in map, as an association list over keys with a decidable equality. The order of
-- the entries stands for the unspecified order of iteration.
use mathlib.Core.Logic.{ite}
use mathlib.Core.Option
use akvorado.Prelude.{
  ◌≡◌, refl, subst, Bool, Option, none, some, List, [], ◌∷◌, arith, if◌then◌else◌,
}

abbrev pub GoMap {ℓ} : Type ℓ → Type ℓ → Type ℓ
GoMap K V = List (K × V)

module _ {ℓ} {K V : Type ℓ} (dec : Discrete K) where
  -- `v, ok := m[k]`
  unfoldable pub get : K → GoMap K V → Option V
  get k [] = none
  get k ((j, v) ∷ m) = ite (dec j k) (some v) (get k m)

  -- `delete(m, k)`
  unfoldable pub delete : K → GoMap K V → GoMap K V
  delete k [] = []
  delete k ((j, v) ∷ m) = let rest = delete k m in ite (dec j k) rest ((j, v) ∷ rest)

  -- `m[k] = v`
  unfoldable pub put : K → V → GoMap K V → GoMap K V
  put k v m = (k, v) ∷ delete k m

  pub get-delete : (k j : K) (m : GoMap K V) → get j (delete k m) ≡ ite (dec k j) none (get j m)
  unfolding get delete
  get-delete k j [] = ground arith
  get-delete k j ((i, v) ∷ m) = ground (arith, get-delete k j m)

  pub get-put :
      (k j : K) (v : V) (m : GoMap K V) → get j (put k v m) ≡ ite (dec k j) (some v) (get j m)
  unfolding get put
  get-put k j v m = ground (arith, get-delete k j m)

  -- No key stands twice.
  abbrev pub IsMap : GoMap K V → Type ℓ
  IsMap [] = Unit
  IsMap ((k, v) ∷ m) = (get k m ≡ none) × IsMap m

  pub delete-IsMap : (k : K) (m : GoMap K V) → IsMap m → IsMap (delete k m)
  unfolding delete
  delete-IsMap k [] h = tt
  delete-IsMap k ((j, v) ∷ m) h = ground (arith, get-delete k j m, delete-IsMap k m h.1)

  pub put-IsMap : (k : K) (v : V) (m : GoMap K V) → IsMap m → IsMap (put k v m)
  unfolding put
  put-IsMap k v m h = (ground (arith, get-delete k k m), delete-IsMap k m h)

abbrev pub filter_option {ℓ} : {V : Type ℓ} → (V → Bool) → Option V → Option V
filter_option test none = none
filter_option test (some v) = if test v then some v else none

module _ {ℓ} {K V : Type ℓ} where
  -- The loop that deletes the entries whose value fails the test.
  unfoldable pub keep : (V → Bool) → GoMap K V → GoMap K V
  keep test [] = []
  keep test ((k, v) ∷ m) = let rest = keep test m in if test v then (k, v) ∷ rest else rest

  -- The entries with their values changed.
  unfoldable pub map_values {κ} : {W : Type κ} → (V → W) → GoMap K V → List (K × W)
  map_values f [] = []
  map_values f ((k, v) ∷ m) = (k, f v) ∷ map_values f m

module _ {ℓ} {K V : Type ℓ} (dec : Discrete K) where
  pub get-keep :
      (test : V → Bool) (k : K) (m : GoMap K V)
      → IsMap dec m
      → get dec k (keep test m) ≡ filter_option test (get dec k m)
  unfolding get keep
  get-keep test k [] h = refl
  get-keep test k ((j, v) ∷ m) h = ground (arith, get-keep test k m h.1)

  pub keep-IsMap : (test : V → Bool) (m : GoMap K V) → IsMap dec m → IsMap dec (keep test m)
  unfolding keep
  keep-IsMap test [] h = tt
  keep-IsMap test ((k, v) ∷ m) h = ground (arith, get-keep test k m h.1, keep-IsMap test m h.1)

module _ {ℓ} {K V W : Type ℓ} (dec : Discrete K) where
  pub get-map_values :
      (f : V → W) (k : K) (m : GoMap K V) → get dec k (map_values f m) ≡ Option.map f (get dec k m)
  unfolding get map_values
  get-map_values f k [] = refl
  get-map_values f k ((j, v) ∷ m) = ground (arith, get-map_values f k m)

ite-AllValues {ℓ} :
    {Q V : Type ℓ} (P : V → Type 0) (d : Dec Q) (w v : V) (rest : Option V)
    → P w
    → (rest ≡ some v → P v)
    → ite d (some w) rest ≡ some v
    → P v
ite-AllValues P (yes q) w v rest h k e = let f : w ≡ v = cc in subst P f h
ite-AllValues P (no q) w v rest h k e = k e

module _ {ℓ} {K V : Type ℓ} (P : V → Type 0) where
  -- Every value meets the predicate.
  abbrev pub AllValues : GoMap K V → Type 0
  AllValues [] = Unit
  AllValues ((k, v) ∷ m) = P v × AllValues m

  pub get-AllValues :
      (dec : Discrete K) (k : K) (m : GoMap K V) (v : V) → AllValues m → get dec k m ≡ some v → P v
  unfolding get
  get-AllValues dec k [] v h e = cc
  get-AllValues dec k ((j, w) ∷ m) v h e =
      ite-AllValues P (dec j k) w v (get dec k m) h.0 (get-AllValues dec k m v h.1) e
