-- ===== src/Schema/Message/Append.antt =====
-- What the `Append*` methods of common/schema/clickhouse.go do to a flow that is being built.
use akvorado.Prelude.{
  ℕ, map, ◌∙◌, ◌<◌, ◌≡◌, refl, sym, subst, Bool, true, false, Option, none, some, List, length,
  get_elem?, get_elem?_of_lt, if◌then◌else◌, arith, Returns, Bool-cases, Option-cases, inl, inr,
  ◌>>=◌, ◌||◌,
}
use akvorado.Schema.Message.Pending.{
  IsTyped, IsBuilding, or_false, store-frame, store-IsPending, store-IsTyped, column_type-lt,
}
use akvorado.Net.{Addr, as16}
use akvorado.Schema.Keys.{ColumnType, column_types, column_type, array_uint32, array_uint128}
use akvorado.Schema.Columns.{
  Value, Column, ChGo, type_of, accepts_uint, accepts_date_time, accepts_string, accepts_ipv6,
  accepts_array, num, add_uint, add_date_time, add_string, add_ipv6, add_array,
}
use akvorado.Schema.Columns.Undo.{
  OneMore, add_uint_lem, add_date_time_lem, add_string_lem, add_ipv6_lem, add_array_lem,
}
use akvorado.Schema.Message.{
  Batch, FlowMessage, reverse, store, append_column, append_date_time, append_uint, append_string,
  append_ipv6, append_array_uint32, append_array_uint128,
}

-- What an `Append*` does: it keeps the invariant of the flow, and changes nothing but the batch.
abbrev pub Appended : Batch → FlowMessage → FlowMessage → Type 0
Appended base bf bf' = IsBuilding base bf' × (bf' ≡ record bf { batch = bf'.batch })

reverse-lt :
    (bf : FlowMessage) (key : ℕ)
    → IsTyped bf
    → key < length column_types
    → reverse bf key < length column_types
unfolding reverse
reverse-lt bf key t h = ground (arith, t.reverse_width key h)

reverse-type :
    (bf : FlowMessage) (key : ℕ) → IsTyped bf → column_type (reverse bf key) ≡ column_type key
unfolding reverse
reverse-type bf key t = ground (arith, t.reverse_types key)

append_column-Appended :
    {base : Batch} (bf : FlowMessage) (key : ℕ) (is_empty : Bool) (add : Column → Option Column)
    (vs : List Value)
    → IsBuilding base bf
    → key < length column_types
    → ((c : Column) → column_type key ≡ some (type_of c) → Returns (OneMore c) (add c))
    → Returns (Appended base bf) (append_column key is_empty add vs bf)
unfolding append_column
append_column-Appended {base} bf key is_empty add vs b h adds =
    let (slot, at) =
      get_elem?_of_lt bf.batch.columns (reverse bf key)
        (subst (λ n. reverse bf key < n) (sym b.typed.width) (reverse-lt bf key b.typed h)) in
    rw at (go slot at)
  where
    done :
        (c c' : Column)
        → get_elem? bf.batch.columns (reverse bf key) ≡ some (some c)
        → bf.batch.column_set (reverse bf key) ≡ false
        → OneMore c c'
        → Appended base bf (store (reverse bf key) c' vs bf)
    done c c' at fresh more = (
      record {
        pending = store-IsPending bf (reverse bf key) c c' vs b.pending at fresh more;
        typed = store-IsTyped bf (reverse bf key) c c' vs b.typed at more;
      },
      store-frame (reverse bf key) c' vs bf,
    )

    add_to :
        (c : Column)
        → get_elem? bf.batch.columns (reverse bf key) ≡ some (some c)
        → bf.batch.column_set (reverse bf key) ≡ false
        → (o : Option Column) → Returns (OneMore c) o
        → Returns (Appended base bf) (o >>= λ c'. some (store (reverse bf key) c' vs bf))
    add_to c at fresh none r = r
    add_to c at fresh (some c') r = done c c' at fresh r

    go :
        (slot : Option Column)
        → get_elem? bf.batch.columns (reverse bf key) ≡ some slot
        → Returns (Appended base bf) (elim slot [
          | none ↦ some bf
          | some c ↦
              if is_empty || bf.batch.column_set (reverse bf key)
              then some bf
              else add c >>= λ c'. some (store (reverse bf key) c' vs bf)
        ])
    go none at = (b, refl)
    go (some c) at = elim (Bool-cases (is_empty || bf.batch.column_set (reverse bf key))) [
      | inl e ↦ rw e (b, refl)
      | inr e ↦ rw e (
          add_to c at (or_false is_empty _ e) (add c)
            (adds c (sym (reverse-type bf key b.typed) ∙ b.typed.types (reverse bf key) c at)))
    ]

-- The key is a column whose type passes the test.
abbrev pub HasType : (ColumnType → Bool) → ℕ → Type 0
HasType accepts key = Returns (λ t. accepts t ≡ true) (column_type key)

HasType-lt :
    (accepts : ColumnType → Bool) (key : ℕ) → HasType accepts key → key < length column_types
HasType-lt accepts key h = elim (Option-cases (column_type key)) [
  | inl e ↦ absurd (subst (Returns (λ t. accepts t ≡ true)) e h)
  | inr (t, e) ↦ column_type-lt key t e
]

HasType-type_of :
    (accepts : ColumnType → Bool) (key : ℕ) (c : Column)
    → HasType accepts key
    → column_type key ≡ some (type_of c)
    → accepts (type_of c) ≡ true
HasType-type_of accepts key c h e = subst (Returns (λ t. accepts t ≡ true)) e h

module _ (ch : ChGo) {base : Batch} (bf : FlowMessage) (key : ℕ) (b : IsBuilding base bf) where
  pub append_date_time-Appended :
      (v : ℕ)
      → HasType accepts_date_time key
      → Returns (Appended base bf) (append_date_time ch key v bf)
  unfolding append_date_time
  append_date_time-Appended v h =
      append_column-Appended bf key _ (add_date_time ch v) _ b (HasType-lt _ key h)
        (λ c e. add_date_time_lem ch v c (HasType-type_of accepts_date_time key c h e))

  pub append_uint-Appended :
      (v : ℕ) → HasType accepts_uint key → Returns (Appended base bf) (append_uint ch key v bf)
  unfolding append_uint
  append_uint-Appended v h =
      append_column-Appended bf key _ (add_uint ch v) _ b (HasType-lt _ key h)
        (λ c e. add_uint_lem ch v c (HasType-type_of accepts_uint key c h e))

  pub append_string-Appended :
      (v : List ℕ)
      → HasType accepts_string key
      → Returns (Appended base bf) (append_string ch key v bf)
  unfolding append_string
  append_string-Appended v h =
      append_column-Appended bf key _ (add_string ch v) _ b (HasType-lt _ key h)
        (λ c e. add_string_lem ch v c (HasType-type_of accepts_string key c h e))

  pub append_ipv6-Appended :
      (v : Addr) → HasType accepts_ipv6 key → Returns (Appended base bf) (append_ipv6 ch key v bf)
  unfolding append_ipv6
  append_ipv6-Appended v h =
      append_column-Appended bf key _ (add_ipv6 ch (as16 v)) _ b (HasType-lt _ key h)
        (λ c e. add_ipv6_lem ch (as16 v) c (HasType-type_of accepts_ipv6 key c h e))

  pub append_array_uint32-Appended :
      (vs : List ℕ)
      → HasType (accepts_array array_uint32) key
      → Returns (Appended base bf) (append_array_uint32 ch key vs bf)
  unfolding append_array_uint32
  append_array_uint32-Appended vs h =
      append_column-Appended bf key _ (add_array ch array_uint32 (map num vs)) _ b
        (HasType-lt _ key h)
        (λ c e.
          add_array_lem ch array_uint32 (map num vs) c
            (HasType-type_of (accepts_array array_uint32) key c h e))

  pub append_array_uint128-Appended :
      (vs : List (ℕ × ℕ))
      → HasType (accepts_array array_uint128) key
      → Returns (Appended base bf) (append_array_uint128 ch key vs bf)
  unfolding append_array_uint128
  append_array_uint128-Appended vs h =
      append_column-Appended bf key _ (add_array ch array_uint128 _) _ b (HasType-lt _ key h)
        (λ c e.
          add_array_lem ch array_uint128 _ c
            (HasType-type_of (accepts_array array_uint128) key c h e))
