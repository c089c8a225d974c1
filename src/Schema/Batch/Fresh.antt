-- ===== src/Schema/Batch/Fresh.antt =====
-- A batch with no row (common/schema/message.go): after `NewFlowMessage`, and after `Clear`.
use akvorado.Prelude.{
  ℕ, zero, suc, ◌+◌, ◌<◌, ◌≡◌, refl, sym, ◌∙◌, ap, subst, Option, none, some, List, [], ◌∷◌, length,
  get_elem?, get_or, arith, Bool-cases, inl, inr,
}
use akvorado.Schema.Keys.{ColumnType, scalar, fixed_string, array, column_types, column_type}
use akvorado.Schema.Columns.{
  Column, ChGo, type_of, new_proto_column, empty_column, scalar_column, fixed_column, array_column,
  offset_before,
}
use akvorado.Schema.Columns.Undo.{IsColumn, HasRows}
use akvorado.Schema.Message.{Schema, FlowMessage, reset, new_columns, new_flow_message}
use akvorado.Schema.Batch.{clear, reset_columns}
use akvorado.Schema.Batch.Aligned.{IsAligned}

-- The reverse table of the schema stays within the columns and keeps their types.
pub record IsSchema (s : Schema) : Type 0 where
  pub reverse_width : (k : ℕ) → k < length column_types → s.reverse_table k < length column_types
  pub reverse_types : (k : ℕ) → column_type (s.reverse_table k) ≡ column_type k

length-new_columns :
    (s : Schema) (k : ℕ) (types : List (Option ColumnType))
    → length (new_columns s k types) ≡ length types
unfolding new_columns
length-new_columns s k [] = refl
length-new_columns s k (none ∷ types) = ap suc (length-new_columns s (k + 1) types)
length-new_columns s k (some t ∷ types) = ap suc (length-new_columns s (k + 1) types)

empty_column_lem :
    (c : Column)
    → (type_of (empty_column c) ≡ type_of c)
      × (HasRows 0 (empty_column c) × IsColumn (empty_column c))
unfolding empty_column offset_before
empty_column_lem (scalar_column t rows) = (refl, (refl, tt))
empty_column_lem (fixed_column size buf) = (refl, (omega arith, tt))
empty_column_lem (array_column t offs items) = (refl, (refl, refl))

abbrev IsNew : ColumnType → Column → Type 0
IsNew t c = (t ≡ type_of c) × HasRows 0 c × IsColumn c

new_proto_column-IsNew : (t : ColumnType) → IsNew t (new_proto_column t)
unfolding new_proto_column offset_before
new_proto_column-IsNew (scalar t) = (refl, refl, tt)
new_proto_column-IsNew (fixed_string size) = (refl, omega arith, tt)
new_proto_column-IsNew (array t) = (refl, refl, refl)

new_columns-IsNew :
    (s : Schema) (k : ℕ) (types : List (Option ColumnType)) (i : ℕ) (c : Column)
    → get_elem? (new_columns s k types) i ≡ some (some c)
    → (t : ColumnType) × (get_or types i none ≡ some t) × IsNew t c
unfolding new_columns
new_columns-IsNew s k [] i c h = cc
new_columns-IsNew s k (none ∷ types) zero c h = cc
new_columns-IsNew s k (none ∷ types) (suc i) c h = new_columns-IsNew s (k + 1) types i c h
new_columns-IsNew s k (some t ∷ types) zero c h = elim (Bool-cases (s.column_disabled k)) [
  | inl e ↦ absurd (ground arith)
  | inr e ↦
      let q : new_proto_column t ≡ c = ground arith in
      (t, refl, subst (IsNew t) q (new_proto_column-IsNew t))
]
new_columns-IsNew s k (some t ∷ types) (suc i) c h = new_columns-IsNew s (k + 1) types i c h

pub new_flow_message-IsAligned : (s : Schema) → IsSchema s → IsAligned (new_flow_message s)
unfolding new_flow_message
new_flow_message-IsAligned s h = record {
  clean = λ k. refl;
  rows = λ k c at. let (t, e, new) = new_columns-IsNew s 0 column_types k c at in (new.1, new.2);
  typed = record {
    width = length-new_columns s 0 column_types;
    types =
        λ k c at. let (t, e, new) = new_columns-IsNew s 0 column_types k c at in e ∙ ap some new.0;
    reverse_width = h.reverse_width;
    reverse_types = h.reverse_types;
  };
}

module _ (ch : ChGo) where
  -- `Clear` empties the batch: it is aligned, at no row.
  reset_columns-get_elem? :
      (cols : List (Option Column)) (k : ℕ) (c' : Column)
      → get_elem? (reset_columns ch cols) k ≡ some (some c')
      → (c : Column) × (get_elem? cols k ≡ some (some c)) × (c' ≡ empty_column c)
  unfolding reset_columns
  reset_columns-get_elem? [] k c' h = cc
  reset_columns-get_elem? (none ∷ cols) zero c' h = cc
  reset_columns-get_elem? (none ∷ cols) (suc k) c' h = reset_columns-get_elem? cols k c' h
  reset_columns-get_elem? (some c ∷ cols) zero c' h = (c, refl, cc (ch.reset_lem c))
  reset_columns-get_elem? (some c ∷ cols) (suc k) c' h = reset_columns-get_elem? cols k c' h

  length-reset_columns :
      (cols : List (Option Column)) → length (reset_columns ch cols) ≡ length cols
  unfolding reset_columns
  length-reset_columns [] = refl
  length-reset_columns (none ∷ cols) = ap suc (length-reset_columns cols)
  length-reset_columns (some c ∷ cols) = ap suc (length-reset_columns cols)

  -- `Clear` of an aligned batch leaves an aligned batch with no row.
  pub clear-IsAligned :
      (bf : FlowMessage)
      → IsAligned bf
      → IsAligned (clear ch bf) × ((clear ch bf).batch.row_count ≡ 0)
  unfolding clear reset
  clear-IsAligned bf a = (
    record {
      clean = λ k. refl;
      rows = λ k c' h.
          let (c, at, e) = reset_columns-get_elem? bf.batch.columns k c' h in
          subst (λ d. HasRows 0 d × IsColumn d) (sym e) (empty_column_lem c).1;
      typed = record {
        width = length-reset_columns bf.batch.columns ∙ a.typed.width;
        types = λ k c' h.
            let (c, at, e) = reset_columns-get_elem? bf.batch.columns k c' h in
            a.typed.types k c at ∙ ap some (sym (empty_column_lem c).0 ∙ ap type_of (sym e));
        reverse_width = a.typed.reverse_width;
        reverse_types = a.typed.reverse_types;
      };
    },
    refl,
  )
