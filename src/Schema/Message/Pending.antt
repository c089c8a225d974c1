-- ===== src/Schema/Message/Pending.antt =====
-- The batch while a flow is being built: each `Append*` of common/schema/clickhouse.go adds to one
-- column at most one row over the columns at the start of the flow.
use akvorado.Prelude.{
  ℕ, zero, suc, get_or, ltb, ◌&&◌, ◌∙◌, ◌<◌, ◌≡◌, ◌≢◌, refl, sym, subst, Bool, true, false, Option,
  none, some, List, [], ◌∷◌, length, get_elem?, set, get_elem?-set_self, get_elem?-set_ne,
  length-set, ◌==◌, arith, Bool-cases, inl, inr, ==_iff, ◌||◌,
}
use akvorado.Schema.Keys.{ColumnType, column_types, column_type}
use akvorado.Schema.Columns.{Value, Column, type_of}
use akvorado.Schema.Columns.Undo.{OneMore, OneMore-type_of}
use akvorado.Schema.Message.{Schema, Batch, FlowMessage, store, protobuf_append}

-- A column with one more row than at the start of the flow if it is marked, and else as it was.
abbrev pub Slot : Bool → Option (Option Column) → Option (Option Column) → Type 0
Slot false old new = old ≡ new
Slot true (some (some old)) (some (some new)) = OneMore old new
Slot true _ _ = ⊥

-- `base` is the batch at the start of the flow.
pub record IsPending (base : Batch) (bf : FlowMessage) : Type 0 where
  pub count : bf.batch.row_count ≡ base.row_count
  pub slots :
      (k : ℕ)
      → Slot (bf.batch.column_set k) (get_elem? base.columns k) (get_elem? bf.batch.columns k)

-- A column of the batch, if there is one for the key, has the type of the schema.
pub record IsTyped (bf : FlowMessage) : Type 0 where
  pub width : length bf.batch.columns ≡ length column_types
  pub types :
      (k : ℕ) (c : Column)
      → get_elem? bf.batch.columns k ≡ some (some c)
      → column_type k ≡ some (type_of c)
  -- The table of the reverse columns stays within the columns, and keeps their types.
  pub reverse_width :
      (k : ℕ) → k < length column_types → bf.schema.reverse_table k < length column_types
  pub reverse_types : (k : ℕ) → column_type (bf.schema.reverse_table k) ≡ column_type k

pub record IsBuilding (base : Batch) (bf : FlowMessage) : Type 0 where
  pub pending : IsPending base bf
  pub typed : IsTyped bf

pub get_elem?-lt :
    (xs : List (Option Column)) (k : ℕ) {o : Option Column}
    → get_elem? xs k ≡ some o
    → k < length xs
get_elem?-lt [] k h = cc
get_elem?-lt (x ∷ xs) zero h = omega arith
get_elem?-lt (x ∷ xs) (suc k) h = omega (arith, get_elem?-lt xs k h)

pub or_false : (a b : Bool) → (a || b) ≡ false → b ≡ false
or_false a b h = ground arith

pub store-frame :
    (key : ℕ) (c : Column) (vs : List Value) (bf : FlowMessage)
    → store key c vs bf ≡ record bf { batch = (store key c vs bf).batch }
unfolding store
store-frame key c vs bf = refl

ne_of : (a b : ℕ) → (a == b) ≡ false → a ≢ b
ne_of a b h = ground arith

get_or-none :
    (xs : List (Option ColumnType)) (k : ℕ) (t : ColumnType)
    → get_or xs k none ≡ some t
    → k < length xs
get_or-none [] k t h = cc
get_or-none (x ∷ xs) zero t h = omega arith
get_or-none (x ∷ xs) (suc k) t h = omega (arith, get_or-none xs k t h)

-- A key whose column has a type is a column of the table.
pub column_type-lt : (k : ℕ) (t : ColumnType) → column_type k ≡ some t → k < length column_types
column_type-lt k t h = get_or-none column_types k t h

protobuf_append_frame :
    (s : Schema) (k : ℕ) (vs : List Value) (b : Batch)
    → ((protobuf_append s k vs b).columns ≡ b.columns)
      × ((protobuf_append s k vs b).column_set ≡ b.column_set)
      × ((protobuf_append s k vs b).row_count ≡ b.row_count)
unfolding protobuf_append
protobuf_append_frame s k vs b =
    elim (Bool-cases (b.protobuf_enabled && ltb 0 (s.protobuf_index k))) [
      | inl e ↦ rw e (refl, refl, refl)
      | inr e ↦ rw e (refl, refl, refl)
    ]

Slot-more :
    (old cur new : Option (Option Column)) (marked : Bool) (c c' : Column)
    → Slot marked old cur
    → marked ≡ false
    → cur ≡ some (some c)
    → new ≡ some (some c')
    → OneMore c c'
    → Slot true old new
Slot-more old cur new marked c c' slot fresh at stored more =
    let same : old ≡ cur = subst (λ m. Slot m old cur) fresh slot in
    subst (λ o. Slot true o new) (sym (same ∙ at))
      (subst (λ n. Slot true (some (some c)) n) (sym stored) more)

module _ {base : Batch} (bf : FlowMessage) (key : ℕ) (c c' : Column) (vs : List Value) where
  pub store-IsPending :
      IsPending base bf
      → get_elem? bf.batch.columns key ≡ some (some c)
      → bf.batch.column_set key ≡ false
      → OneMore c c'
      → IsPending base (store key c' vs bf)
  unfolding store
  store-IsPending p at fresh more = record {
    count = (protobuf_append_frame bf.schema key vs _).2 ∙ p.count;
    slots = λ k.
        rw ((protobuf_append_frame _ _ _ _).0, (protobuf_append_frame _ _ _ _).1)
          (elim (Bool-cases (k == key)) [
            | inl e ↦ rw e (
                subst
                  (λ i.
                    Slot true (get_elem? base.columns i)
                      (get_elem? (set bf.batch.columns key (some c')) i))
                  (sym ((==_iff k key).0 e))
                  (Slot-more _ _ _ _ c c' (p.slots key) fresh at
                    (get_elem?-set_self bf.batch.columns key (some c')
                      (get_elem?-lt bf.batch.columns key at))
                    more))
            | inr e ↦
                rw (e, get_elem?-set_ne bf.batch.columns (some c') (λ q. ne_of k key e (sym q)))
                  (p.slots k)
          ]);
  }

module _ (bf : FlowMessage) (key : ℕ) (c c' : Column) (vs : List Value) where
  pub store-IsTyped :
      IsTyped bf
      → get_elem? bf.batch.columns key ≡ some (some c)
      → OneMore c c'
      → IsTyped (store key c' vs bf)
  unfolding store
  store-IsTyped t at more = record {
    width =
        rw ((protobuf_append_frame _ _ _ _).0, length-set bf.batch.columns key (some c')) t.width;
    types = λ k d. rw (protobuf_append_frame _ _ _ _).0 (λ h. elim (Bool-cases (k == key)) [
      | inl e ↦ cc (
        (==_iff k key).0 e,
        get_elem?-set_self bf.batch.columns key (some c') (get_elem?-lt bf.batch.columns key at),
        t.types key c at,
        OneMore-type_of more,
      )
      | inr e ↦
          t.types k d
            (sym (get_elem?-set_ne bf.batch.columns (some c') (λ q. ne_of k key e (sym q))) ∙ h)
    ]);
    reverse_width = t.reverse_width;
    reverse_types = t.reverse_types;
  }
