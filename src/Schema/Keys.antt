-- ===== src/Schema/Keys.antt =====
-- The columns of the flows table: the keys and the groups of common/schema/definition.go, and the
-- ClickHouse type of each column that a flow provides. A column that the table computes (an alias
-- or a generated column) has none. The Src and InIf columns are listed with the Dst and OutIf
-- columns that `finalize` adds for them.
mod Names
pub use Names.*
use akvorado.Prelude.{ℕ, Option, none, some, List, [], ◌∷◌, get_or}

pub data ColumnGroup : Type 0 where
  l2 nat l3l4 : ColumnGroup

pub data ScalarType : Type 0 where
  date_time uint64 uint32 uint16 uint8 enum8 ipv6 low_cardinality_ipv6 : ScalarType
  low_cardinality_string : ScalarType

pub data ArrayType : Type 0 where
  array_uint32 array_uint128 : ArrayType

pub data ColumnType : Type 0 where
  scalar : ScalarType → ColumnType
  fixed_string : ℕ → ColumnType
  array : ArrayType → ColumnType

-- The types by key, from key 0, which is not used.
abbrev pub column_types : List (Option ColumnType)
column_types =
    none
    ∷ some (scalar date_time)
    ∷ some (scalar uint64)
    ∷ some (scalar uint32)
    ∷ some (scalar uint32)
    ∷ some (scalar uint64)
    ∷ some (scalar uint64)
    ∷ none
    ∷ none
    ∷ some (scalar uint32)
    ∷ some (scalar enum8)
    ∷ some (scalar low_cardinality_ipv6)
    ∷ some (scalar low_cardinality_string)
    ∷ some (scalar low_cardinality_string)
    ∷ some (scalar low_cardinality_string)
    ∷ some (scalar low_cardinality_string)
    ∷ some (scalar low_cardinality_string)
    ∷ some (scalar low_cardinality_string)
    ∷ some (scalar ipv6)
    ∷ some (scalar ipv6)
    ∷ some (scalar uint8)
    ∷ some (scalar uint8)
    ∷ none
    ∷ none
    ∷ some (scalar uint32)
    ∷ some (scalar uint32)
    ∷ some (scalar uint16)
    ∷ some (scalar uint16)
    ∷ some (scalar uint16)
    ∷ some (scalar uint16)
    ∷ some (scalar low_cardinality_string)
    ∷ some (scalar low_cardinality_string)
    ∷ some (scalar low_cardinality_string)
    ∷ some (scalar low_cardinality_string)
    ∷ some (scalar low_cardinality_string)
    ∷ some (scalar low_cardinality_string)
    ∷ some (scalar low_cardinality_string)
    ∷ some (scalar low_cardinality_string)
    ∷ some (scalar low_cardinality_string)
    ∷ some (scalar low_cardinality_string)
    ∷ some (fixed_string 2)
    ∷ some (fixed_string 2)
    ∷ some (scalar low_cardinality_string)
    ∷ some (scalar low_cardinality_string)
    ∷ some (scalar low_cardinality_string)
    ∷ some (scalar low_cardinality_string)
    ∷ some (array array_uint32)
    ∷ none
    ∷ none
    ∷ none
    ∷ some (array array_uint32)
    ∷ some (array array_uint128)
    ∷ some (array array_uint32)
    ∷ some (array array_uint128)
    ∷ some (scalar low_cardinality_string)
    ∷ some (scalar low_cardinality_string)
    ∷ some (scalar low_cardinality_string)
    ∷ some (scalar low_cardinality_string)
    ∷ some (scalar uint32)
    ∷ some (scalar uint32)
    ∷ some (scalar low_cardinality_string)
    ∷ some (scalar low_cardinality_string)
    ∷ some (scalar low_cardinality_string)
    ∷ some (scalar low_cardinality_string)
    ∷ some (scalar enum8)
    ∷ some (scalar enum8)
    ∷ some (scalar ipv6)
    ∷ some (scalar ipv6)
    ∷ some (scalar uint16)
    ∷ some (scalar uint16)
    ∷ some (scalar uint64)
    ∷ some (scalar uint64)
    ∷ some (scalar uint8)
    ∷ some (scalar uint8)
    ∷ some (scalar uint32)
    ∷ some (scalar uint16)
    ∷ some (scalar uint32)
    ∷ some (scalar uint16)
    ∷ none
    ∷ some (scalar uint8)
    ∷ some (scalar uint8)
    ∷ none
    ∷ some (scalar uint8)
    ∷ some (scalar uint8)
    ∷ some (scalar low_cardinality_ipv6)
    ∷ some (array array_uint32)
    ∷ none
    ∷ none
    ∷ none
    ∷ none
    ∷ some (scalar uint32)
    ∷ some (scalar uint32)
    ∷ []

abbrev pub column_type : ℕ → Option ColumnType
column_type key = get_or column_types key none
