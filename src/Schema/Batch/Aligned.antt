-- ===== src/Schema/Batch/Aligned.antt =====
-- The rows of the columns between two flows, and `Undo` of common/schema/clickhouse.go.
use akvorado.Prelude.{
  ℕ, suc, ◌+◌, ◌≡◌, refl, subst, Bool, true, false, Option, none, some, List, [], ◌∷◌, get_elem?,
  arith, Returns, if◌then◌else◌,
}
use akvorado.Schema.Columns.{Column, undo_column}
use akvorado.Schema.Columns.Undo.{IsColumn, HasRows, undo_column_lem}
use akvorado.Schema.Message.{FlowMessage, reset}
use akvorado.Schema.Message.Pending.{Slot, IsTyped, IsBuilding}
use akvorado.Schema.Batch.{undo_columns, undo}

pub record IsAligned (bf : FlowMessage) : Type 0 where
  pub clean : (k : ℕ) → bf.batch.column_set k ≡ false
  pub rows :
      (k : ℕ) (c : Column)
      → get_elem? bf.batch.columns k ≡ some (some c)
      → HasRows bf.batch.row_count c × IsColumn c
  pub typed : IsTyped bf

-- A flow begins on an aligned batch.
pub IsAligned-IsBuilding : (bf : FlowMessage) → IsAligned bf → IsBuilding bf.batch bf
IsAligned-IsBuilding bf a = record {
  pending = record { count = refl; slots = λ k. rw (a.clean k) refl };
  typed = a.typed;
}

abbrev pub Slots : (ℕ → Bool) → ℕ → List (Option Column) → List (Option Column) → Type 0
Slots is_set k old new = (i : ℕ) → Slot (is_set (k + i)) (get_elem? old i) (get_elem? new i)

pub Slots-tail :
    (is_set : ℕ → Bool) (k : ℕ) (x y : Option Column) (old new : List (Option Column))
    → Slots is_set k (x ∷ old) (y ∷ new)
    → Slots is_set (k + 1) old new
Slots-tail is_set k x y old new h i =
    let e : k + suc i ≡ k + 1 + i = omega arith in
    subst (λ n. Slot (is_set n) (get_elem? old i) (get_elem? new i)) e (h (suc i))

pub Slots-head :
    (is_set : ℕ → Bool) (k : ℕ) (x y : Option Column) (old new : List (Option Column))
    → Slots is_set k (x ∷ old) (y ∷ new)
    → Slot (is_set k) (some x) (some y)
Slots-head is_set k x y old new h =
    let e : k + 0 ≡ k = omega arith in subst (λ n. Slot (is_set n) (some x) (some y)) e (h 0)

abbrev AreColumns : List (Option Column) → Type 0
AreColumns [] = Unit
AreColumns (none ∷ cols) = AreColumns cols
AreColumns (some c ∷ cols) = IsColumn c × AreColumns cols

undo-Slot :
    (marked : Bool) (x y : Column)
    → IsColumn x
    → Slot marked (some (some x)) (some (some y))
    → (if marked then undo_column y else some y) ≡ some x
undo-Slot true x y c more = undo_column_lem c more
undo-Slot false x y c same = cc

-- Two lists of columns are marked alike.
pub Slot-none : (marked : Bool) (y : Option Column) → Slot marked none (some y) → ⊥
Slot-none true y h = h
Slot-none false y h = cc

pub Slot-none_right : (marked : Bool) (x : Option Column) → Slot marked (some x) none → ⊥
Slot-none_right true none h = h
Slot-none_right true (some x) h = h
Slot-none_right false x h = cc

pub Slot-no_column : (marked : Bool) (y : Column) → Slot marked (some none) (some (some y)) → ⊥
Slot-no_column true y h = h
Slot-no_column false y h = cc

pub Slot-column : (marked : Bool) (x : Column) → Slot marked (some (some x)) (some none) → ⊥
Slot-column true x h = h
Slot-column false x h = cc

undo_columns_lem :
    (is_set : ℕ → Bool) (k : ℕ) (old new : List (Option Column))
    → AreColumns old
    → Slots is_set k old new
    → undo_columns is_set k new ≡ some old
unfolding undo_columns
undo_columns_lem is_set k [] [] c h = refl
undo_columns_lem is_set k [] (y ∷ new) c h = absurd (Slot-none (is_set (k + 0)) y (h 0))
undo_columns_lem is_set k (x ∷ old) [] c h = absurd (Slot-none_right (is_set (k + 0)) x (h 0))
undo_columns_lem is_set k (none ∷ old) (none ∷ new) c h =
    rw (undo_columns_lem is_set (k + 1) old new c (Slots-tail is_set k none none old new h))
undo_columns_lem is_set k (none ∷ old) (some y ∷ new) c h =
    absurd (Slot-no_column (is_set (k + 0)) y (h 0))
undo_columns_lem is_set k (some x ∷ old) (none ∷ new) c h =
    absurd (Slot-column (is_set (k + 0)) x (h 0))
undo_columns_lem is_set k (some x ∷ old) (some y ∷ new) c h = rw (
  undo-Slot (is_set k) x y c.0 (Slots-head is_set k (some x) (some y) old new h),
  undo_columns_lem is_set (k + 1) old new c.1 (Slots-tail is_set k (some x) (some y) old new h),
)

get_elem?-AreColumns :
    (xs : List (Option Column))
    → ((i : ℕ) (c : Column) → get_elem? xs i ≡ some (some c) → IsColumn c)
    → AreColumns xs
get_elem?-AreColumns [] h = tt
get_elem?-AreColumns (none ∷ xs) h = get_elem?-AreColumns xs (λ i. h (suc i))
get_elem?-AreColumns (some c ∷ xs) h = (h 0 c refl, get_elem?-AreColumns xs (λ i. h (suc i)))

pub from_zero :
    (is_set : ℕ → Bool) (old new : List (Option Column))
    → ((k : ℕ) → Slot (is_set k) (get_elem? old k) (get_elem? new k))
    → Slots is_set 0 old new
from_zero is_set old new h i =
    let e : i ≡ 0 + i = omega arith in
    subst (λ n. Slot (is_set n) (get_elem? old i) (get_elem? new i)) e (h i)

-- `Undo` of a flow that was built on an aligned batch does not panic, leaves every column and the number of
-- rows as they were at the start of the flow, and the batch aligned.
pub undo_lem :
    (start bf : FlowMessage)
    → IsAligned start
    → IsBuilding start.batch bf
    → Returns
        (λ bf'.
          IsAligned bf'
          × (bf'.batch.columns ≡ start.batch.columns)
          × (bf'.batch.row_count ≡ start.batch.row_count))
        (undo bf)
unfolding undo reset
undo_lem start bf a b =
    let cols = start.batch.columns in
    let back : undo_columns bf.batch.column_set 0 bf.batch.columns ≡ some cols =
      undo_columns_lem bf.batch.column_set 0 cols bf.batch.columns
        (get_elem?-AreColumns cols (λ i c h. (a.rows i c h).1))
        (from_zero bf.batch.column_set cols bf.batch.columns b.pending.slots) in
    rw back (
      record {
        clean = λ k. refl;
        rows = λ k c h. rw b.pending.count (a.rows k c h);
        typed = record {
          width = a.typed.width;
          types = a.typed.types;
          reverse_width = b.typed.reverse_width;
          reverse_types = b.typed.reverse_types;
        };
      },
      refl,
      b.pending.count,
    )
