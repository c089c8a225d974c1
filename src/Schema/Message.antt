-- ===== src/Schema/Message.antt =====
-- common/schema/message.go and the `Append*` methods of common/schema/clickhouse.go, with the
-- optional Protobuf copy of common/schema/protobuf.go.
-- `none` is a panic. What is only there in debug mode is left out (`OtherColumns`, `check`), as is
-- `batch.input`, which names the columns for ch-go. The Protobuf buffer is the sequence of its
-- fields: their bytes are made by protowire.
pub mod Pending
pub mod Append
pub mod Safe
use akvorado.Prelude.{
  ℕ, suc, ◌+◌, ◌-◌, ◌^◌, Bool, true, false, not, ◌||◌, ◌&&◌, Option, none, some, List, [], ◌∷◌,
  ◌++◌, map, length, get_elem?, set, ltb, ◌==◌, if◌then◌else◌, ◌>>=◌,
}
use akvorado.Net.{Addr, invalid, is_valid, as16}
use akvorado.Schema.Keys.{
  ColumnGroup, ColumnType, ArrayType, array_uint32, array_uint128, column_types,
}
use akvorado.Schema.Columns.{
  Value, num, text, address, uint128, Column, ChGo, new_proto_column, add_uint, add_date_time,
  add_string, add_ipv6, add_array,
}

-- What a message uses of the schema: the columns that are disabled, the groups with no column left,
-- and the wire number of a column, 0 if it is not exported. The table of the reverse columns is
-- generated with the build.
pub record Schema : Type 0 where
  pub column_disabled : ℕ → Bool
  pub is_disabled : ColumnGroup → Bool
  pub reverse_table : ℕ → ℕ
  pub protobuf_index : ℕ → ℕ

-- `messageBatch`
pub record Batch : Type 0 where
  pub columns : List (Option Column)
  pub column_set : ℕ → Bool
  pub row_count : ℕ
  pub protobuf_enabled : Bool
  pub protobuf : List (ℕ × Value)
  pub protobuf_message : List (ℕ × Value)

-- `FlowMessage`
pub record FlowMessage : Type 0 where
  pub time_received : ℕ
  pub sampling_rate : ℕ
  pub exporter_address : Addr
  pub in_if : ℕ
  pub out_if : ℕ
  pub src_vlan : ℕ
  pub dst_vlan : ℕ
  pub src_addr : Addr
  pub dst_addr : Addr
  pub next_hop : Addr
  pub src_as : ℕ
  pub dst_as : ℕ
  pub src_net_mask : ℕ
  pub dst_net_mask : ℕ
  pub reversed : Bool
  pub batch : Batch
  pub schema : Schema

-- A message with the zero value in every field but the batch and the schema.
unfoldable pub blank : Batch → Schema → FlowMessage
blank b s = record {
  time_received = 0;
  sampling_rate = 0;
  exporter_address = invalid;
  in_if = 0;
  out_if = 0;
  src_vlan = 0;
  dst_vlan = 0;
  src_addr = invalid;
  dst_addr = invalid;
  next_hop = invalid;
  src_as = 0;
  dst_as = 0;
  src_net_mask = 0;
  dst_net_mask = 0;
  reversed = false;
  batch = b;
  schema = s;
}

-- `reset`: a new message over the same batch, with no column set.
unfoldable pub reset : FlowMessage → FlowMessage
unfolding blank
reset bf = blank (record bf.batch { column_set = λ k. false; protobuf = [] }) bf.schema

-- The columns of `NewFlowMessage`, from the key `k` on.
unfoldable pub new_columns : Schema → ℕ → List (Option ColumnType) → List (Option Column)
new_columns s k [] = []
new_columns s k (none ∷ types) = none ∷ new_columns s (k + 1) types
new_columns s k (some t ∷ types) =
    (if s.column_disabled k then none else some (new_proto_column t)) ∷ new_columns s (k + 1) types

unfoldable pub new_flow_message : Schema → FlowMessage
unfolding blank
new_flow_message s =
    blank
      (record {
        columns = new_columns s 0 column_types;
        column_set = λ k. false;
        row_count = 0;
        protobuf_enabled = false;
        protobuf = [];
        protobuf_message = [];
      })
      s

unfoldable pub enable_protobuf : FlowMessage → FlowMessage
enable_protobuf bf = record bf { batch = record bf.batch { protobuf_enabled = true } }

-- `Reverse`
unfoldable pub reverse_flow : FlowMessage → FlowMessage
reverse_flow bf = record bf {
  reversed = not bf.reversed;
  in_if = bf.out_if;
  out_if = bf.in_if;
  src_vlan = bf.dst_vlan;
  dst_vlan = bf.src_vlan;
  src_addr = bf.dst_addr;
  dst_addr = bf.src_addr;
  src_as = bf.dst_as;
  dst_as = bf.src_as;
  src_net_mask = bf.dst_net_mask;
  dst_net_mask = bf.src_net_mask;
}

-- `reverse`
unfoldable pub reverse : FlowMessage → ℕ → ℕ
reverse bf key = if bf.reversed then bf.schema.reverse_table key else key

-- The `protobufAppend*` methods: the values of a column, unless it is not exported.
unfoldable pub protobuf_append : Schema → ℕ → List Value → Batch → Batch
protobuf_append s key values b =
    if b.protobuf_enabled && ltb 0 (s.protobuf_index key)
    then record b { protobuf = b.protobuf ++ map (λ v. (s.protobuf_index key, v)) values }
    else b

-- A column gets its value, and is marked.
unfoldable pub store : ℕ → Column → List Value → FlowMessage → FlowMessage
unfolding protobuf_append
store key c values bf = record bf {
  batch = protobuf_append bf.schema key values (record bf.batch {
    columns = set bf.batch.columns key (some c);
    column_set = λ k. if k == key then true else bf.batch.column_set k;
  });
}

-- The frame of the `Append*` methods: nothing happens if the value is empty, if there is no such
-- column or if it was set before. `add` is the switch over the type of the column.
unfoldable pub append_column :
    ℕ → Bool → (Column → Option Column) → List Value → FlowMessage → Option FlowMessage
append_column key is_empty add values bf = do
  column ← get_elem? bf.batch.columns (reverse bf key)
  elim column [
    | none ↦ some bf
    | some c ↦
        if is_empty || bf.batch.column_set (reverse bf key)
        then some bf
        else do c' ← add c; some (store (reverse bf key) c' values bf)
  ]

-- The switches, with the test for the empty value. An address is written as its 128 bits.
module _ (ch : ChGo) where
  unfoldable pub append_date_time : ℕ → ℕ → FlowMessage → Option FlowMessage
  append_date_time key value =
      append_column key (value == 0) (add_date_time ch value) (num value ∷ [])

  unfoldable pub append_uint : ℕ → ℕ → FlowMessage → Option FlowMessage
  append_uint key value = append_column key (value == 0) (add_uint ch value) (num value ∷ [])

  unfoldable pub append_string : ℕ → List ℕ → FlowMessage → Option FlowMessage
  append_string key value =
      append_column key (length value == 0) (add_string ch value) (text value ∷ [])

  unfoldable pub append_ipv6 : ℕ → Addr → FlowMessage → Option FlowMessage
  append_ipv6 key value =
      append_column key (not (is_valid value)) (add_ipv6 ch (as16 value))
        (address (as16 value) ∷ [])

  unfoldable pub append_array_uint32 : ℕ → List ℕ → FlowMessage → Option FlowMessage
  append_array_uint32 key values =
      append_column key (length values == 0) (add_array ch array_uint32 (map num values))
        (map num values)

  -- An UInt128 is a pair, the high half first.
  unfoldable pub append_array_uint128 : ℕ → List (ℕ × ℕ) → FlowMessage → Option FlowMessage
  append_array_uint128 key values =
      let items = map (λ (v : ℕ × ℕ). uint128 v.0 v.1) values in
      append_column key (length values == 0) (add_array ch array_uint128 items) items
