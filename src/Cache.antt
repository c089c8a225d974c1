-- ===== src/Cache.antt =====
-- common/helpers/cache/cache.go: a cache with expiration. The lock only makes each method atomic.
-- A time is a number of nanoseconds since the zero time of Go (January 1 of year 1). `Unix` counts
-- seconds from 1970 there and from the zero time here; the cache only compares such seconds.
-- `Save` and `Load` (persist.go) are serialisation and are not modelled.
pub mod Laws
use akvorado.Prelude.{
  ℕ, ◌+◌, ◌/◌, Bool, Option, none, some, [], ◌∷◌, length, ltb, ◌==◌, if◌then◌else◌, not,
}
use akvorado.GoMap
use akvorado.GoMap.{GoMap}

pub record Item {ℓ} (V : Type ℓ) : Type ℓ where
  pub object : V
  pub last_accessed : ℕ
  pub last_updated : ℕ

pub record Cache {ℓ} (K V : Type ℓ) : Type ℓ where
  pub items : GoMap K (Item V)

-- `Time.Unix` and `Time.IsZero`.
unfoldable pub unix : ℕ → ℕ
unix t = t / 1_000_000_000

abbrev pub is_zero : ℕ → Bool
is_zero t = t == 0

unfoldable pub new {ℓ} : {K V : Type ℓ} → Cache K V
new = record { items = [] }

-- The mark that `Get` leaves on an item.
unfoldable pub touch {ℓ} : {V : Type ℓ} → ℕ → Item V → Item V
touch now item = if is_zero now then item else record item { last_accessed = unix now }

unfoldable pub updated_before {ℓ} : {V : Type ℓ} → ℕ → Item V → Bool
updated_before before item = ltb item.last_updated (unix before)

unfoldable pub accessed_since {ℓ} : {V : Type ℓ} → ℕ → Item V → Bool
accessed_since before item = not (ltb item.last_accessed (unix before))

module _ {ℓ} {K V : Type ℓ} (dec : Discrete K) where
  unfoldable pub put : ℕ → K → V → Cache K V → Cache K V
  put now key object c = record {
    items =
        GoMap.put dec key
          (record { object = object; last_accessed = unix now; last_updated = unix now }) c.items;
  }

  -- `Get`: the item is marked in place, and `none` stands for `zero(), false`.
  unfoldable pub get : ℕ → K → Cache K V → Cache K V × Option V
  get now key c = elim (GoMap.get dec key c.items) [
    | none ↦ (c, none)
    | some item ↦ (record { items = GoMap.put dec key (touch now item) c.items }, some item.object)
  ]

module _ {ℓ} {K V : Type ℓ} where
  unfoldable pub items : Cache K V → GoMap K V
  items c = GoMap.map_values Item.object c.items

  unfoldable pub items_last_updated_before : ℕ → Cache K V → GoMap K V
  items_last_updated_before before c =
      GoMap.map_values Item.object (GoMap.keep (updated_before before) c.items)

  -- The counter of the loop that deletes the items which fail the test.
  unfoldable pub deleted : (Item V → Bool) → GoMap K (Item V) → ℕ
  deleted test [] = 0
  deleted test ((k, item) ∷ m) = (if test item then 0 else 1) + deleted test m

  -- `DeleteLastAccessedBefore`: the cache, and the number of deleted items.
  unfoldable pub delete_last_accessed_before : ℕ → Cache K V → Cache K V × ℕ
  delete_last_accessed_before before c = (
    record { items = GoMap.keep (accessed_since before) c.items },
    deleted (accessed_since before) c.items,
  )

  unfoldable pub size : Cache K V → ℕ
  size c = length c.items
