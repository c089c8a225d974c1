-- ===== src/Schema/Batch.antt =====
-- The end of a flow in common/schema/clickhouse.go and common/schema/message.go: `Undo` takes it out
-- of the batch, `Finalize` makes it a row, and `Clear` empties the batch once it was sent.
pub mod Aligned
pub mod Rows
pub mod Finalize
pub mod Fresh
pub mod Runs
use akvorado.Prelude.{
  ℕ, ◌+◌, Bool, true, false, Option, none, some, List, [], ◌∷◌, if◌then◌else◌, ◌>>=◌,
}
use akvorado.Schema.Keys
use akvorado.Schema.Keys.{ColumnGroup, l2}
use akvorado.Schema.Columns.{
  Column, scalar_column, fixed_column, array_column, ChGo, undo_column, add_default,
}
use akvorado.Schema.Message.{
  Schema, Batch, FlowMessage, reset, append_date_time, append_uint, append_ipv6,
}

-- The loop of `Undo`, from the key `k` on.
unfoldable pub undo_columns : (ℕ → Bool) → ℕ → List (Option Column) → Option (List (Option Column))
undo_columns is_set k [] = some []
undo_columns is_set k (none ∷ cols) = do rest ← undo_columns is_set (k + 1) cols; some (none ∷ rest)
undo_columns is_set k (some c ∷ cols) = do
  c' ← if is_set k then undo_column c else some c
  rest ← undo_columns is_set (k + 1) cols
  some (some c' ∷ rest)

unfoldable pub undo : FlowMessage → Option FlowMessage
undo bf = do
  cols ← undo_columns bf.batch.column_set 0 bf.batch.columns
  some (reset (record bf { batch = record bf.batch { columns = cols } }))

-- `protobufFinalize`
unfoldable pub protobuf_finalize : Batch → Batch
protobuf_finalize b = if b.protobuf_enabled then record b { protobuf_message = b.protobuf } else b

module _ (ch : ChGo) where
  -- `input.Reset`
  unfoldable pub reset_columns : List (Option Column) → List (Option Column)
  reset_columns [] = []
  reset_columns (none ∷ cols) = none ∷ reset_columns cols
  reset_columns (some c ∷ cols) = some (ch.reset c) ∷ reset_columns cols

  unfoldable pub clear : FlowMessage → FlowMessage
  clear bf =
      let blank = reset bf in
      record blank {
        batch = record blank.batch { columns = reset_columns blank.batch.columns; row_count = 0 };
      }

  -- The loop of `appendDefaultValues`, from the key `k` on.
  unfoldable pub default_columns : (ℕ → Bool) → ℕ → List (Option Column) → List (Option Column)
  default_columns is_set k [] = []
  default_columns is_set k (none ∷ cols) = none ∷ default_columns is_set (k + 1) cols
  default_columns is_set k (some c ∷ cols) =
      some (if is_set k then c else add_default ch c) ∷ default_columns is_set (k + 1) cols

  -- The fixed fields of the message become columns.
  unfoldable pub append_fields : FlowMessage → Option FlowMessage
  append_fields bf = do
    m1 ← append_date_time ch Keys.time_received bf.time_received bf
    m2 ← append_uint ch Keys.sampling_rate m1.sampling_rate m1
    m3 ← append_ipv6 ch Keys.exporter_address m2.exporter_address m2
    m4 ← append_uint ch Keys.src_as m3.src_as m3
    m5 ← append_uint ch Keys.dst_as m4.dst_as m4
    m6 ← append_uint ch Keys.src_net_mask m5.src_net_mask m5
    m7 ← append_uint ch Keys.dst_net_mask m6.dst_net_mask m6
    m8 ← append_ipv6 ch Keys.src_addr m7.src_addr m7
    m9 ← append_ipv6 ch Keys.dst_addr m8.dst_addr m8
    append_ipv6 ch Keys.next_hop m9.next_hop m9

  unfoldable pub append_vlans : FlowMessage → Option FlowMessage
  append_vlans bf = if bf.schema.is_disabled l2 then some bf else do
    m ← append_uint ch Keys.src_vlan bf.src_vlan bf
    append_uint ch Keys.dst_vlan m.dst_vlan m

  -- The rest of `Finalize`, once the fields are in their columns.
  unfoldable pub finish_row : FlowMessage → FlowMessage
  unfolding reset protobuf_finalize
  finish_row m =
      let b = protobuf_finalize m.batch in
      reset (record m {
        batch = record b {
          row_count = b.row_count + 1;
          columns = default_columns b.column_set 0 b.columns;
        };
      })

  unfoldable pub finalize : FlowMessage → Option FlowMessage
  finalize bf = do fields ← append_fields bf; m ← append_vlans fields; some (finish_row m)
