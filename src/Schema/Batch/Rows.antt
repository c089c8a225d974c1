-- ===== src/Schema/Batch/Rows.antt =====
-- `appendDefaultValues` of common/schema/clickhouse.go and the rows of the columns.
use akvorado.Prelude.{
  ℕ, zero, suc, ◌+◌, ◌≡◌, refl, ap, subst, Bool, true, false, Option, none, some, List, [], ◌∷◌,
  length, get_elem?, if◌then◌else◌,
}
use akvorado.Schema.Columns.{Column, ChGo, add_default}
use akvorado.Schema.Columns.Undo.{OneMore, add_default_lem}
use akvorado.Schema.Message.Pending.{Slot}
use akvorado.Schema.Batch.{default_columns}
use akvorado.Schema.Batch.Aligned.{
  Slots, Slots-tail, Slots-head, Slot-none, Slot-none_right, Slot-no_column, Slot-column,
}

-- Every column of the second list is that of the first with one more row.
abbrev pub Grown : List (Option Column) → List (Option Column) → Type 0
Grown [] [] = Unit
Grown (none ∷ old) (none ∷ new) = Grown old new
Grown (some c ∷ old) (some c' ∷ new) = OneMore c c' × Grown old new
Grown _ _ = ⊥

module _ (ch : ChGo) where
  default-Slot :
      (marked : Bool) (x y : Column)
      → Slot marked (some (some x)) (some (some y))
      → OneMore x (if marked then y else add_default ch y)
  default-Slot true x y more = more
  default-Slot false x y same =
      let e : x ≡ y = cc in subst (λ z. OneMore x (add_default ch z)) e (add_default_lem ch x)

  pub default_columns-Grown :
      (is_set : ℕ → Bool) (k : ℕ) (old new : List (Option Column))
      → Slots is_set k old new
      → Grown old (default_columns ch is_set k new)
  unfolding default_columns
  default_columns-Grown is_set k [] [] h = tt
  default_columns-Grown is_set k [] (y ∷ new) h = absurd (Slot-none (is_set (k + 0)) y (h 0))
  default_columns-Grown is_set k (x ∷ old) [] h = absurd (Slot-none_right (is_set (k + 0)) x (h 0))
  default_columns-Grown is_set k (none ∷ old) (none ∷ new) h =
      default_columns-Grown is_set (k + 1) old new (Slots-tail is_set k none none old new h)
  default_columns-Grown is_set k (none ∷ old) (some y ∷ new) h =
      absurd (Slot-no_column (is_set (k + 0)) y (h 0))
  default_columns-Grown is_set k (some x ∷ old) (none ∷ new) h =
      absurd (Slot-column (is_set (k + 0)) x (h 0))
  default_columns-Grown is_set k (some x ∷ old) (some y ∷ new) h = (
    default-Slot (is_set k) x y (Slots-head is_set k (some x) (some y) old new h),
    default_columns-Grown is_set (k + 1) old new (Slots-tail is_set k (some x) (some y) old new h),
  )

pub Grown-length : (old new : List (Option Column)) → Grown old new → length new ≡ length old
Grown-length [] [] g = refl
Grown-length (none ∷ old) (none ∷ new) g = ap suc (Grown-length old new g)
Grown-length (some c ∷ old) (some c' ∷ new) g = ap suc (Grown-length old new g.1)
Grown-length [] (y ∷ new) g = elim g [ ]
Grown-length (none ∷ old) [] g = elim g [ ]
Grown-length (some c ∷ old) [] g = elim g [ ]
Grown-length (none ∷ old) (some c' ∷ new) g = elim g [ ]
Grown-length (some c ∷ old) (none ∷ new) g = elim g [ ]

pub Grown-get_elem? :
    (old new : List (Option Column)) (i : ℕ) (c' : Column)
    → Grown old new
    → get_elem? new i ≡ some (some c')
    → (c : Column) × (get_elem? old i ≡ some (some c)) × OneMore c c'
Grown-get_elem? [] [] i c' g h = cc
Grown-get_elem? (none ∷ old) (none ∷ new) zero c' g h = cc
Grown-get_elem? (none ∷ old) (none ∷ new) (suc i) c' g h = Grown-get_elem? old new i c' g h
Grown-get_elem? (some c ∷ old) (some d ∷ new) zero c' g h =
    let e : d ≡ c' = cc in (c, refl, subst (OneMore c) e g.0)
Grown-get_elem? (some c ∷ old) (some d ∷ new) (suc i) c' g h = Grown-get_elem? old new i c' g.1 h
Grown-get_elem? [] (y ∷ new) i c' g h = elim g [ ]
Grown-get_elem? (none ∷ old) [] i c' g h = elim g [ ]
Grown-get_elem? (some c ∷ old) [] i c' g h = elim g [ ]
Grown-get_elem? (none ∷ old) (some d ∷ new) i c' g h = elim g [ ]
Grown-get_elem? (some c ∷ old) (none ∷ new) i c' g h = elim g [ ]
