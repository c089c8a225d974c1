-- ===== src/Schema/Batch/Finalize.antt =====
-- `Finalize` of common/schema/clickhouse.go and the rows of the columns.
use akvorado.Prelude.{
  ℕ, ◌+◌, ◌≡◌, refl, sym, ◌∙◌, ap, false, some, Returns, Bool-cases, inl, inr, Returns-bind,
}
use akvorado.Schema.Keys
use akvorado.Schema.Keys.{l2, column_types, column_type}
use akvorado.Schema.Columns.{ChGo}
use akvorado.Schema.Columns.Undo.{OneMore-type_of, OneMore-IsColumn, OneMore-HasRows}
use akvorado.Schema.Message.{Batch, FlowMessage}
use akvorado.Schema.Message.Pending.{IsTyped, IsBuilding}
use akvorado.Schema.Message.Safe.{
  IsSafe, IsSafe-some, IsSafe-bind, IsSafe-if, append_date_time-IsSafe, append_uint-IsSafe,
  append_ipv6-IsSafe,
}
use akvorado.Schema.Batch.{default_columns, append_fields, append_vlans, finalize, finish_row}
use akvorado.Schema.Batch.Aligned.{IsAligned, from_zero}
use akvorado.Schema.Batch.Rows.{Grown, Grown-length, Grown-get_elem?, default_columns-Grown}

module _ (ch : ChGo) where
  append_fields-IsSafe :
      {base : Batch} (bf : FlowMessage) → IsBuilding base bf → IsSafe base (append_fields ch bf)
  unfolding append_fields
  append_fields-IsSafe bf b =
      IsSafe-bind _ _ (append_date_time-IsSafe ch Keys.time_received bf b _ refl) λ m1 b1.
        IsSafe-bind _ _ (append_uint-IsSafe ch Keys.sampling_rate m1 b1 _ refl) λ m2 b2.
          IsSafe-bind _ _ (append_ipv6-IsSafe ch Keys.exporter_address m2 b2 _ refl) λ m3 b3.
            IsSafe-bind _ _ (append_uint-IsSafe ch Keys.src_as m3 b3 _ refl) λ m4 b4.
              IsSafe-bind _ _ (append_uint-IsSafe ch Keys.dst_as m4 b4 _ refl) λ m5 b5.
                IsSafe-bind _ _ (append_uint-IsSafe ch Keys.src_net_mask m5 b5 _ refl) λ m6 b6.
                  IsSafe-bind _ _ (append_uint-IsSafe ch Keys.dst_net_mask m6 b6 _ refl) λ m7 b7.
                    IsSafe-bind _ _ (append_ipv6-IsSafe ch Keys.src_addr m7 b7 _ refl) λ m8 b8.
                      IsSafe-bind _ _ (append_ipv6-IsSafe ch Keys.dst_addr m8 b8 _ refl)
                        λ m9 b9. append_ipv6-IsSafe ch Keys.next_hop m9 b9 _ refl

  append_vlans-IsSafe :
      {base : Batch} (bf : FlowMessage) → IsBuilding base bf → IsSafe base (append_vlans ch bf)
  unfolding append_vlans
  append_vlans-IsSafe bf b = IsSafe-if (bf.schema.is_disabled l2) _ _ (IsSafe-some bf b) (
      IsSafe-bind _ _ (append_uint-IsSafe ch Keys.src_vlan bf b _ refl)
        (λ m c. append_uint-IsSafe ch Keys.dst_vlan m c _ refl))

  finish_row_batch :
      (m : FlowMessage)
      → ((finish_row ch m).batch.columns ≡ default_columns ch m.batch.column_set 0 m.batch.columns)
        × ((finish_row ch m).batch.row_count ≡ m.batch.row_count + 1)
        × ((k : ℕ) → (finish_row ch m).batch.column_set k ≡ false)
        × ((finish_row ch m).schema ≡ m.schema)
  unfolding finish_row
  finish_row_batch m = elim (Bool-cases m.batch.protobuf_enabled) [
    | inl e ↦ rw e (refl, refl, λ k. refl, refl)
    | inr e ↦ rw e (refl, refl, λ k. refl, refl)
  ]

  finish_row-IsTyped :
      (start m : FlowMessage)
      → IsAligned start
      → IsBuilding start.batch m
      → Grown start.batch.columns (finish_row ch m).batch.columns
      → IsTyped (finish_row ch m)
  finish_row-IsTyped start m a b g = record {
    width = Grown-length start.batch.columns _ g ∙ a.typed.width;
    types = λ k c' h.
        let (c, at, more) = Grown-get_elem? start.batch.columns _ k c' g h in
        a.typed.types k c at ∙ ap some (sym (OneMore-type_of more));
    reverse_width = rw (finish_row_batch m).3 b.typed.reverse_width;
    reverse_types = rw (finish_row_batch m).3 b.typed.reverse_types;
  }

  finish_row_lem :
      (start m : FlowMessage)
      → IsAligned start
      → IsBuilding start.batch m
      → IsAligned (finish_row ch m)
        × ((finish_row ch m).batch.row_count ≡ start.batch.row_count + 1)
  finish_row_lem start m a b =
      let (columns, count, clean, schema) = finish_row_batch m in
      let grown : Grown start.batch.columns (finish_row ch m).batch.columns = rw columns (
        default_columns-Grown ch m.batch.column_set 0 start.batch.columns m.batch.columns
          (from_zero m.batch.column_set start.batch.columns m.batch.columns b.pending.slots)) in
      let one_more : (finish_row ch m).batch.row_count ≡ start.batch.row_count + 1 =
        count ∙ ap (λ n. n + 1) b.pending.count in
      (
        record {
          clean = clean;
          rows = λ k c' h.
              let (c, at, more) = Grown-get_elem? start.batch.columns _ k c' grown h in
              let (rows, valid) = a.rows k c at in
              rw one_more
                (OneMore-HasRows start.batch.row_count rows more, OneMore-IsColumn valid more);
          typed = finish_row-IsTyped start m a b grown;
        },
        one_more,
      )

  -- A flow that was built on an aligned batch becomes one row of every column: the batch is
  -- aligned again, with one row more.
  pub finalize_lem :
      (start bf : FlowMessage)
      → IsAligned start
      → IsBuilding start.batch bf
      → Returns
          (λ bf'. IsAligned bf' × (bf'.batch.row_count ≡ start.batch.row_count + 1))
          (finalize ch bf)
  unfolding finalize
  finalize_lem start bf a b =
      Returns-bind (IsBuilding start.batch) _ (append_fields ch bf) _
        (append_fields-IsSafe bf b).returns
        λ m b1.
          Returns-bind (IsBuilding start.batch) _ (append_vlans ch m) _
            (append_vlans-IsSafe m b1).returns λ m' b2. finish_row_lem start m' a b2
