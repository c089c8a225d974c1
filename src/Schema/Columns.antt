-- ===== src/Schema/Columns.antt =====
-- The columns of a batch: common/schema/clickhouse.go, what `Append*`, `appendDefaultValues` and
-- `Undo` do to one column. `none` is a panic.
pub mod Undo
use akvorado.Prelude.{
  ℕ, zero, suc, ◌+◌, ◌-◌, ◌%◌, ◌^◌, ◌≡◌, Bool, true, false, Option, none, some, List, [], ◌∷◌, ◌++◌,
  length, get_or, take, replicate, ltb, ◌==◌, if◌then◌else◌,
}
use akvorado.Schema.Keys.{
  ScalarType, date_time, uint64, uint32, uint16, uint8, enum8, ipv6, low_cardinality_ipv6,
  low_cardinality_string, ArrayType, array_uint32, array_uint128, ColumnType, scalar, fixed_string,
  array,
}

-- One value of a row: a number, the bytes of a text, the 128 bits of an address, or an UInt128.
pub data Value : Type 0 where
  num : ℕ → Value
  text : List ℕ → Value
  address : ℕ → Value
  uint128 : ℕ → ℕ → Value

-- A column keeps its rows one after the other; a FixedString column keeps their bytes, and an
-- array column the values of all rows with the offset where each row ends.
pub data Column : Type 0 where
  scalar_column : ScalarType → List Value → Column
  fixed_column : ℕ → List ℕ → Column
  array_column : ArrayType → List ℕ → List Value → Column

unfoldable pub empty_column : Column → Column
empty_column (scalar_column t rows) = scalar_column t []
empty_column (fixed_column size buf) = fixed_column size []
empty_column (array_column t offs items) = array_column t [] []

-- What ch-go does to a column: `Reset` takes its rows out, a value becomes a row, and the values of an array become a row
-- that ends where they end.
pub record ChGo : Type 0 where
  pub append : List Value → Value → List Value
  pub append_lem : (rows : List Value) (v : Value) → append rows v ≡ rows ++ v ∷ []
  pub offsets : List ℕ → List Value → List Value → List ℕ
  pub offsets_lem :
      (offs : List ℕ) (items vs : List Value)
      → offsets offs items vs ≡ offs ++ (length items + length vs) ∷ []
  pub items : List Value → List Value → List Value
  pub items_lem : (old vs : List Value) → items old vs ≡ old ++ vs
  pub reset : Column → Column
  pub reset_lem : (c : Column) → reset c ≡ empty_column c

-- `newProtoColumn`, by the type of the column.
unfoldable pub new_proto_column : ColumnType → Column
new_proto_column (scalar t) = scalar_column t []
new_proto_column (fixed_string size) = fixed_column size []
new_proto_column (array t) = array_column t [] []

abbrev pub type_of : Column → ColumnType
type_of (scalar_column t rows) = scalar t
type_of (fixed_column size buf) = fixed_string size
type_of (array_column t offs items) = array t

-- The conversion of `AppendUint`, by the type of the column.
unfoldable pub convert_uint : ScalarType → ℕ → Option ℕ
convert_uint uint64 value = some value
convert_uint uint32 value = some (value % 2 ^ 32)
convert_uint uint16 value = some (value % 2 ^ 16)
convert_uint uint8 value = some (value % 2 ^ 8)
convert_uint enum8 value = some (value % 2 ^ 8)
convert_uint _ value = none

-- The types of column for which an `Append*` does not panic.
abbrev pub accepts_uint : ColumnType → Bool
accepts_uint (scalar uint64) = true
accepts_uint (scalar uint32) = true
accepts_uint (scalar uint16) = true
accepts_uint (scalar uint8) = true
accepts_uint (scalar enum8) = true
accepts_uint _ = false

abbrev pub accepts_date_time : ColumnType → Bool
accepts_date_time (scalar date_time) = true
accepts_date_time _ = false

abbrev pub accepts_string : ColumnType → Bool
accepts_string (scalar low_cardinality_string) = true
accepts_string (fixed_string size) = true
accepts_string _ = false

abbrev pub accepts_ipv6 : ColumnType → Bool
accepts_ipv6 (scalar ipv6) = true
accepts_ipv6 (scalar low_cardinality_ipv6) = true
accepts_ipv6 _ = false

abbrev pub accepts_array : ArrayType → ColumnType → Bool
accepts_array array_uint32 (array array_uint32) = true
accepts_array array_uint128 (array array_uint128) = true
accepts_array _ _ = false

-- The loop of `AppendString` and of `appendDefaultValues` that pads with zeros.
abbrev pub pad : ℕ → List ℕ
pad n = replicate n 0

-- The bytes that `AppendString` adds to a FixedString column: cut, or padded.
unfoldable pub fixed_bytes : ℕ → List ℕ → List ℕ
fixed_bytes size bytes =
    if ltb size (length bytes) then take size bytes else bytes ++ pad (size - length bytes)

-- `s[:len(s)-k]`
unfoldable pub cut {ℓ} : {A : Type ℓ} → ℕ → List A → Option (List A)
cut k xs = if ltb (length xs) k then none else some (take (length xs - k) xs)

-- Where the last row but `back` ends: `start` of `Undo`.
unfoldable pub offset_before : ℕ → List ℕ → ℕ
offset_before back offs =
    if ltb back (length offs) then get_or offs (length offs - suc back) 0 else 0

-- What `Undo` does to a column that was set.
unfoldable pub undo_column : Column → Option Column
undo_column (scalar_column t rows) = elim (cut 1 rows) [
  | none ↦ none
  | some rest ↦ some (scalar_column t rest)
]
undo_column (fixed_column size buf) = elim (cut size buf) [
  | none ↦ none
  | some rest ↦ some (fixed_column size rest)
]
undo_column (array_column t offs items) =
    if ltb 0 (length offs)
    then some (array_column t (take (length offs - 1) offs) (take (offset_before 1 offs) items))
    else some (array_column t offs items)

module _ (ch : ChGo) where
  unfoldable pub add_uint : ℕ → Column → Option Column
  add_uint value (scalar_column t rows) = elim (convert_uint t value) [
    | none ↦ none
    | some v ↦ some (scalar_column t (ch.append rows (num v)))
  ]
  add_uint value _ = none

  unfoldable pub add_date_time : ℕ → Column → Option Column
  add_date_time value (scalar_column date_time rows) =
      some (scalar_column date_time (ch.append rows (num value)))
  add_date_time value _ = none

  unfoldable pub add_string : List ℕ → Column → Option Column
  add_string value (scalar_column low_cardinality_string rows) =
      some (scalar_column low_cardinality_string (ch.append rows (text value)))
  add_string value (fixed_column size buf) =
      some (fixed_column size (buf ++ fixed_bytes size value))
  add_string value _ = none

  unfoldable pub add_ipv6 : ℕ → Column → Option Column
  add_ipv6 value (scalar_column ipv6 rows) =
      some (scalar_column ipv6 (ch.append rows (address value)))
  add_ipv6 value (scalar_column low_cardinality_ipv6 rows) =
      some (scalar_column low_cardinality_ipv6 (ch.append rows (address value)))
  add_ipv6 value _ = none

  unfoldable pub add_array : ArrayType → List Value → Column → Option Column
  add_array array_uint32 vs (array_column array_uint32 offs items) =
      some (array_column array_uint32 (ch.offsets offs items vs) (ch.items items vs))
  add_array array_uint128 vs (array_column array_uint128 offs items) =
      some (array_column array_uint128 (ch.offsets offs items vs) (ch.items items vs))
  add_array t vs _ = none

  -- What `appendDefaultValues` adds to a column that is not set.
  unfoldable pub default_value : ScalarType → Value
  default_value ipv6 = address 0
  default_value low_cardinality_ipv6 = address 0
  default_value low_cardinality_string = text []
  default_value _ = num 0

  unfoldable pub add_default : Column → Column
  add_default (scalar_column t rows) = scalar_column t (ch.append rows (default_value t))
  add_default (fixed_column size buf) = fixed_column size (buf ++ pad size)
  add_default (array_column t offs items) =
      array_column t (ch.offsets offs items []) (ch.items items [])
