-- ===== src/Cache/Laws.antt =====
-- What the methods of common/helpers/cache/cache.go promise to one another.
use mathlib.Core.Logic.{ite}
use mathlib.Core.Option
use akvorado.Prelude.{ℕ, ◌+◌, ◌≤◌, ◌≡◌, ◌≢◌, Option, none, some, arith, Option-cases, inl, inr}
use akvorado.GoMap
use akvorado.GoMap.{GoMap, IsMap, get-put, get-keep, get-map_values, put-IsMap, keep-IsMap}
use akvorado.Cache.{
  Item, Cache, unix, touch, updated_before, accessed_since, put, get, items,
  items_last_updated_before, delete_last_accessed_before,
}

module _ {ℓ} {K V : Type ℓ} (dec : Discrete K) where
  -- No key stands twice in the map.
  abbrev pub IsValid : Cache K V → Type ℓ
  IsValid c = IsMap dec c.items

  -- The object of a key, as `Items` shows it.
  abbrev pub object_of : K → Cache K V → Option V
  object_of k c = GoMap.get dec k (items c)

  -- The item of a key, with its times.
  abbrev pub entry : K → Cache K V → Option (Item V)
  entry k c = GoMap.get dec k c.items

  object_of_lem : (k : K) (c : Cache K V) → object_of k c ≡ Option.map Item.object (entry k c)
  unfolding items
  object_of_lem k c = get-map_values dec Item.object k c.items

  -- `Put` and `Get` keep the map a map.
  pub put-IsValid :
      (now : ℕ) (k : K) (v : V) (c : Cache K V) → IsValid c → IsValid (put dec now k v c)
  unfolding put
  put-IsValid now k v c h = put-IsMap dec k _ c.items h

  pub get-IsValid : (now : ℕ) (k : K) (c : Cache K V) → IsValid c → IsValid (get dec now k c).0
  unfolding get
  get-IsValid now k c h = elim (Option-cases (GoMap.get dec k c.items)) [
    | inl e ↦ rw (e, get) h
    | inr (item, e) ↦ rw (e, get) (put-IsMap dec k (touch now item) c.items h)
  ]

  entry-get :
      (now : ℕ) (k j : K) (c : Cache K V)
      → entry j (get dec now k c).0 ≡ ite (dec k j) (Option.map (touch now) (entry j c)) (entry j c)
  unfolding get
  entry-get now k j c = elim (Option-cases (GoMap.get dec k c.items)) [
    | inl e ↦ ground (arith, e)
    | inr (item, e) ↦ ground (arith, e, get-put dec k j (touch now item) c.items)
  ]

  entry-put :
      (now : ℕ) (k j : K) (v : V) (c : Cache K V)
      → entry j (put dec now k v c)
        ≡ ite
            (dec k j)
            (some (record { object = v; last_accessed = unix now; last_updated = unix now }))
            (entry j c)
  unfolding put
  entry-put now k j v c = get-put dec k j _ c.items

  entry-delete :
      (before : ℕ) (k : K) (c : Cache K V)
      → IsValid c
      → entry k (delete_last_accessed_before before c).0
        ≡ GoMap.filter_option (accessed_since before) (entry k c)
  unfolding delete_last_accessed_before
  entry-delete before k c h = get-keep dec (accessed_since before) k c.items h

  -- `Get` returns the object that `Items` shows for the key, or reports that there is none, and
  -- changes no object.
  pub get-object_of :
      (now : ℕ) (k j : K) (c : Cache K V)
      → ((get dec now k c).1 ≡ object_of k c) × (object_of j (get dec now k c).0 ≡ object_of j c)
  unfolding get touch
  get-object_of now k j c = ground (
    arith,
    entry-get now k j c,
    object_of_lem k c,
    object_of_lem j c,
    object_of_lem j (get dec now k c).0,
  )

  -- After `Put` the key has the new object and every other key the one that it had.
  pub object_of-put :
      (now : ℕ) (k j : K) (v : V) (c : Cache K V)
      → object_of j (put dec now k v c) ≡ ite (dec k j) (some v) (object_of j c)
  object_of-put now k j v c =
      ground (arith, entry-put now k j v c, object_of_lem j c, object_of_lem j (put dec now k v c))

  -- In a valid cache, an object that was read at `now`, which is not the zero time, survives the deletion of what was last accessed before a time
  -- that is not later than `now`.
  pub delete-get :
      (now before : ℕ) (k : K) (c : Cache K V)
      → IsValid c
      → now ≢ 0
      → before ≤ now
      → object_of k (delete_last_accessed_before before (get dec now k c).0).0 ≡ object_of k c
  unfolding touch accessed_since unix
  delete-get now before k c h nonzero le = ground (
    arith,
    entry-get now k k c,
    entry-delete before k (get dec now k c).0 (get-IsValid now k c h),
    object_of_lem k c,
    object_of_lem k (delete_last_accessed_before before (get dec now k c).0).0,
  )

  -- In a valid cache, an object that was stored a full second before a time, and not read since, does not survive the
  -- deletion of what was last accessed before that time.
  pub delete-put :
      (now before : ℕ) (k : K) (v : V) (c : Cache K V)
      → IsValid c
      → now + 1_000_000_000 ≤ before
      → object_of k (delete_last_accessed_before before (put dec now k v c)).0 ≡ none
  unfolding accessed_since unix
  delete-put now before k v c h late = ground (
    arith,
    entry-put now k k v c,
    entry-delete before k (put dec now k v c) (put-IsValid now k v c h),
    object_of_lem k (delete_last_accessed_before before (put dec now k v c)).0,
  )

  -- A reading of a valid cache does not count as an update: an object is reported as updated before a time exactly
  -- as it was before the reading.
  items_last_updated_before-get :
      (now before : ℕ) (k j : K) (c : Cache K V)
      → IsValid c
      → GoMap.get dec j (items_last_updated_before before (get dec now k c).0)
        ≡ GoMap.get dec j (items_last_updated_before before c)
  unfolding items_last_updated_before touch updated_before
  items_last_updated_before-get now before k j c h = ground (
    arith,
    entry-get now k j c,
    get-keep dec (updated_before before) j c.items h,
    get-keep dec (updated_before before) j (get dec now k c).0.items (get-IsValid now k c h),
    get-map_values dec Item.object j (GoMap.keep (updated_before before) c.items),
    get-map_values dec Item.object j (GoMap.keep (updated_before before) (get dec now k c).0.items),
  )
