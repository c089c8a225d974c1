-- ===== src/Tests/Caching.antt =====
-- A cache of numbers by numbers.
use native.Mathlib.Decide.{ℕ_discrete}
use mathlib.Core.Logic.{ite}
use akvorado.Prelude.{ℕ, ◌*◌, ◌≡◌, refl, some, none, [], ◌∷◌, arith}
use akvorado.GoMap
use akvorado.Cache.{Cache, put, get, delete_last_accessed_before}
use akvorado.Cache.Laws.{IsValid, object_of, get-object_of, object_of-put, delete-get, delete-put}

abbrev second : ℕ
second = 1_000_000_000

abbrev cache : Cache ℕ ℕ
cache = record {
  items =
      (1, record { object = 10; last_accessed = 5; last_updated = 5 })
      ∷ (2, record { object = 20; last_accessed = 9; last_updated = 9 })
      ∷ [];
}

cache-IsValid : IsValid ℕ_discrete cache
unfolding GoMap.get ℕ_discrete
cache-IsValid = (refl, (refl, tt))

get-object_of_example :
    ((get ℕ_discrete (7 * second) 1 cache).1 ≡ object_of ℕ_discrete 1 cache)
    × (object_of ℕ_discrete 2 (get ℕ_discrete (7 * second) 1 cache).0
        ≡ object_of ℕ_discrete 2 cache)
get-object_of_example = get-object_of ℕ_discrete (7 * second) 1 2 cache

object_of-put_example :
    object_of ℕ_discrete 2 (put ℕ_discrete (7 * second) 1 11 cache)
    ≡ ite (ℕ_discrete 1 2) (some 11) (object_of ℕ_discrete 2 cache)
object_of-put_example = object_of-put ℕ_discrete (7 * second) 1 2 11 cache

delete-get_example :
    object_of ℕ_discrete 1
      (delete_last_accessed_before (6 * second) (get ℕ_discrete (7 * second) 1 cache).0).0
    ≡ object_of ℕ_discrete 1 cache
delete-get_example =
    delete-get ℕ_discrete (7 * second) (6 * second) 1 cache cache-IsValid (λ e. ground arith)
      (omega arith)

delete-put_example :
    object_of ℕ_discrete 3
      (delete_last_accessed_before (8 * second) (put ℕ_discrete (7 * second) 3 30 cache)).0
    ≡ none
delete-put_example =
    delete-put ℕ_discrete (7 * second) (8 * second) 3 30 cache cache-IsValid (omega arith)
