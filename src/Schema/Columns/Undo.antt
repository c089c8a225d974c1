-- ===== src/Schema/Columns/Undo.antt =====
-- One column under an `Append*` and under `Undo` of common/schema/clickhouse.go.
use akvorado.Prelude.{
  ℕ, zero, suc, ◌*◌, min, Returns, ◌+◌, ◌-◌, ◌<◌, ◌≡◌, refl, true, some, List, [], ◌∷◌, ◌++◌,
  length, length-append, length-replicate, get_or, take, take-append, arith,
}
use akvorado.Schema.Keys.{
  ScalarType, date_time, uint64, uint32, uint16, uint8, enum8, ipv6, low_cardinality_ipv6,
  low_cardinality_string, ArrayType, array_uint32, array_uint128,
}
use akvorado.Schema.Columns.{
  Value, Column, scalar_column, fixed_column, array_column, ChGo, type_of, fixed_bytes, cut, pad,
  offset_before, undo_column, add_uint, add_date_time, add_string, add_ipv6, add_array, add_default,
  accepts_uint, accepts_date_time, accepts_string, accepts_ipv6, accepts_array, convert_uint,
}

-- The second column is the first with one more row.
pub data OneMore : Column → Column → Type 0 where
  scalar_row :
      (t : ScalarType) (rows rows' : List Value) (v : Value)
      → rows' ≡ rows ++ v ∷ []
      → OneMore (scalar_column t rows) (scalar_column t rows')
  fixed_row :
      (size : ℕ) (buf buf' bytes : List ℕ)
      → length bytes ≡ size
      → buf' ≡ buf ++ bytes
      → OneMore (fixed_column size buf) (fixed_column size buf')
  array_row :
      (t : ArrayType) (offs offs' : List ℕ) (items items' vs : List Value)
      → offs' ≡ offs ++ (length items + length vs) ∷ []
      → items' ≡ items ++ vs
      → OneMore (array_column t offs items) (array_column t offs' items')

-- The rows of an array column end where its values end.
abbrev pub IsColumn : Column → Type 0
IsColumn (array_column t offs items) = offset_before 0 offs ≡ length items
IsColumn _ = Unit {0}

module _ {ℓ} {A : Type ℓ} where
  cut-append : (xs ys : List A) → cut (length ys) (xs ++ ys) ≡ some xs
  unfolding cut
  cut-append xs ys =
      let e : length (xs ++ ys) - length ys ≡ length xs = omega (arith, length-append {ℓ} xs ys) in
      ground (arith, e, length-append {ℓ} xs ys, take-append {ℓ} xs ys)

get_or-append : (xs ys : List ℕ) (i d : ℕ) → i < length xs → get_or (xs ++ ys) i d ≡ get_or xs i d
get_or-append [] ys i d h = elim h [ ]
get_or-append (x ∷ xs) ys zero d h = refl
get_or-append (x ∷ xs) ys (suc i) d h = get_or-append xs ys i d (omega arith)

get_or-length : (xs : List ℕ) (x : ℕ) → get_or (xs ++ x ∷ []) (length xs) 0 ≡ x
get_or-length [] x = refl
get_or-length (y ∷ xs) x = get_or-length xs x

length-take : (n : ℕ) (xs : List ℕ) → length (take n xs) ≡ min n (length xs)
length-take zero xs = omega arith
length-take (suc n) [] = omega arith
length-take (suc n) (x ∷ xs) = omega (arith, length-take n xs)

mul-add_one : (a n : ℕ) → a * (n + 1) ≡ a * n + a
mul-add_one a n = omega arith

offset_before-append :
    (offs : List ℕ) (last : ℕ) → offset_before 1 (offs ++ last ∷ []) ≡ offset_before 0 offs
unfolding offset_before
offset_before-append offs last =
    ground (
      arith,
      length-append {0} offs (last ∷ []),
      get_or-append offs (last ∷ []) (length offs - 1) 0,
    )

pub undo_column_lem :
    {old new : Column} → IsColumn old → OneMore old new → undo_column new ≡ some old
unfolding undo_column
undo_column_lem c (scalar_row t rows rows' v e) = ground (arith, cut-append {0} rows (v ∷ []))
undo_column_lem c (fixed_row size buf buf' bytes e f) = ground (arith, cut-append {0} buf bytes)
undo_column_lem c (array_row t offs offs' items items' vs e f) = ground (
  arith,
  offset_before-append offs (length items + length vs),
  length-append {0} offs ((length items + length vs) ∷ []),
  take-append {0} offs ((length items + length vs) ∷ []),
  take-append {0} items vs,
)

length-fixed_bytes : (size : ℕ) (bytes : List ℕ) → length (fixed_bytes size bytes) ≡ size
unfolding fixed_bytes
length-fixed_bytes size bytes = ground (
  arith,
  length-take size bytes,
  length-append {0} bytes (pad (size - length bytes)),
  length-replicate {0} {A = ℕ} (size - length bytes) 0,
)

-- Each `Append*` to a column of a type that it accepts adds one row, and does not panic.
module _ (ch : ChGo) where
  pub add_uint_lem :
      (v : ℕ) (c : Column) → accepts_uint (type_of c) ≡ true → Returns (OneMore c) (add_uint ch v c)
  unfolding add_uint convert_uint
  add_uint_lem v (scalar_column uint64 rows) h = scalar_row _ _ _ _ (ch.append_lem rows _)
  add_uint_lem v (scalar_column uint32 rows) h = scalar_row _ _ _ _ (ch.append_lem rows _)
  add_uint_lem v (scalar_column uint16 rows) h = scalar_row _ _ _ _ (ch.append_lem rows _)
  add_uint_lem v (scalar_column uint8 rows) h = scalar_row _ _ _ _ (ch.append_lem rows _)
  add_uint_lem v (scalar_column enum8 rows) h = scalar_row _ _ _ _ (ch.append_lem rows _)
  add_uint_lem v _ h = cc

  pub add_date_time_lem :
      (v : ℕ) (c : Column)
      → accepts_date_time (type_of c) ≡ true
      → Returns (OneMore c) (add_date_time ch v c)
  unfolding add_date_time
  add_date_time_lem v (scalar_column date_time rows) h = scalar_row _ _ _ _ (ch.append_lem rows _)
  add_date_time_lem v _ h = cc

  pub add_string_lem :
      (v : List ℕ) (c : Column)
      → accepts_string (type_of c) ≡ true
      → Returns (OneMore c) (add_string ch v c)
  unfolding add_string
  add_string_lem v (scalar_column low_cardinality_string rows) h =
      scalar_row _ _ _ _ (ch.append_lem rows _)
  add_string_lem v (fixed_column size buf) h = fixed_row _ _ _ _ (length-fixed_bytes size v) refl
  add_string_lem v _ h = cc

  pub add_ipv6_lem :
      (v : ℕ) (c : Column) → accepts_ipv6 (type_of c) ≡ true → Returns (OneMore c) (add_ipv6 ch v c)
  unfolding add_ipv6
  add_ipv6_lem v (scalar_column ipv6 rows) h = scalar_row _ _ _ _ (ch.append_lem rows _)
  add_ipv6_lem v (scalar_column low_cardinality_ipv6 rows) h =
      scalar_row _ _ _ _ (ch.append_lem rows _)
  add_ipv6_lem v _ h = cc

  pub add_array_lem :
      (t : ArrayType) (vs : List Value) (c : Column)
      → accepts_array t (type_of c) ≡ true
      → Returns (OneMore c) (add_array ch t vs c)
  unfolding add_array
  add_array_lem array_uint32 vs (array_column array_uint32 offs items) h =
      array_row _ _ _ _ _ _ (ch.offsets_lem offs items vs) (ch.items_lem items vs)
  add_array_lem array_uint128 vs (array_column array_uint128 offs items) h =
      array_row _ _ _ _ _ _ (ch.offsets_lem offs items vs) (ch.items_lem items vs)
  add_array_lem _ vs _ h = cc

  pub add_default_lem : (c : Column) → OneMore c (add_default ch c)
  unfolding add_default
  add_default_lem (scalar_column t rows) = scalar_row _ _ _ _ (ch.append_lem rows _)
  add_default_lem (fixed_column size buf) =
      fixed_row _ _ _ _ (length-replicate {0} {A = ℕ} size 0) refl
  add_default_lem (array_column t offs items) =
      array_row _ _ _ _ _ _ (ch.offsets_lem offs items []) (ch.items_lem items [])

pub OneMore-type_of : {c c' : Column} → OneMore c c' → type_of c' ≡ type_of c
OneMore-type_of (scalar_row t rows rows' v e) = refl
OneMore-type_of (fixed_row size buf buf' bytes e f) = refl
OneMore-type_of (array_row t offs offs' items items' vs e f) = refl

pub OneMore-IsColumn : {c c' : Column} → IsColumn c → OneMore c c' → IsColumn c'
unfolding offset_before
OneMore-IsColumn h (scalar_row t rows rows' v e) = tt
OneMore-IsColumn h (fixed_row size buf buf' bytes e f) = tt
OneMore-IsColumn h (array_row t offs offs' items items' vs e f) = ground (
  arith,
  length-append {0} offs ((length items + length vs) ∷ []),
  get_or-length offs (length items + length vs),
  length-append {0} items vs,
)

-- The number of rows of a column, `col.Rows()`; of a FixedString column, by the bytes of a row.
abbrev pub HasRows : ℕ → Column → Type 0
HasRows n (scalar_column t rows) = length rows ≡ n
HasRows n (fixed_column size buf) = length buf ≡ size * n
HasRows n (array_column t offs items) = length offs ≡ n

pub OneMore-HasRows : {c c' : Column} (n : ℕ) → HasRows n c → OneMore c c' → HasRows (n + 1) c'
OneMore-HasRows n h (scalar_row t rows rows' v e) = ground (arith, length-append {0} rows (v ∷ []))
OneMore-HasRows n h (fixed_row size buf buf' bytes e f) =
    grind (arith, length-append {0} buf bytes, mul-add_one size n)
OneMore-HasRows n h (array_row t offs offs' items items' vs e f) =
    ground (arith, length-append {0} offs ((length items + length vs) ∷ []))
