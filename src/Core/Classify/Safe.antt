-- ===== src/Core/Classify/Safe.antt =====
-- The classification of outlet/core/enricher.go and the batch of its flow.
use akvorado.Prelude.{
  ℕ, ◌≡◌, refl, Bool, true, false, ◌&&◌, arith, Option, none, some, List, [], ◌∷◌, length, ◌==◌,
  ◌>>=◌, Bool-cases, inl, inr, Returns,
}
use akvorado.Schema.Keys
use akvorado.Schema.Keys.{ColumnType, column_type}
use akvorado.Schema.Columns.{ChGo, accepts_string, accepts_uint}
use akvorado.Schema.Message.{Batch, FlowMessage, append_uint}
use akvorado.Schema.Message.Pending.{IsBuilding}
use akvorado.Schema.Message.Append.{HasType}
use akvorado.Schema.Message.Safe.{
  IsSafe, IsSafe-some, IsSafe-bind, append_string-IsSafe, append_uint-IsSafe,
}
use akvorado.Core.Info.{
  Text, ExporterInfo, ExporterClassification, InterfaceInfo, InterfaceClassification,
  is_unclassified_exporter, is_unclassified_interface,
}
use akvorado.Core.Classify.{
  Classifiers, Caches, Verdict, append_strings, write_exporter, write_interface, with_caches,
  classify_exporter, classify_interface,
}

-- The keys of the list are columns that hold a text.
abbrev pub is_text : Option ColumnType → Bool
is_text none = false
is_text (some t) = accepts_string t

abbrev pub are_texts : List (ℕ × Text) → Bool
are_texts [] = true
are_texts ((key, value) ∷ rest) = is_text (column_type key) && are_texts rest

text_type : (o : Option ColumnType) → is_text o ≡ true → Returns (λ t. accepts_string t ≡ true) o
text_type none h = ground arith
text_type (some t) h = h

-- A verdict is there, on a flow that is being built.
pub record IsJudged (base : Batch) (o : Option (Bool × FlowMessage)) : Type 0 where
  pub returns : Returns (λ p. IsBuilding base p.1) o

pub record IsVerdict (base : Batch) (o : Option Verdict) : Type 0 where
  pub returns : Returns (λ v. IsBuilding base v.1) o

and_left : (a b : Bool) → (a && b) ≡ true → a ≡ true
and_left a b h = ground arith

and_right : (a b : Bool) → (a && b) ≡ true → b ≡ true
and_right a b h = ground arith

module _ {base : Batch} where
  pub append_strings-IsSafe :
      (ch : ChGo) (entries : List (ℕ × Text)) (bf : FlowMessage)
      → are_texts entries ≡ true
      → IsBuilding base bf
      → IsSafe base (append_strings ch entries bf)
  unfolding append_strings
  append_strings-IsSafe ch [] bf h b = IsSafe-some bf b
  append_strings-IsSafe ch ((key, value) ∷ rest) bf h b =
      IsSafe-bind _ _
        (append_string-IsSafe ch key bf b value (text_type (column_type key) (and_left _ _ h)))
        (λ m c. append_strings-IsSafe ch rest m (and_right _ _ h) c)

  accepted : (o : Option FlowMessage) → IsSafe base o → IsJudged base (o >>= λ m. some (true, m))
  accepted none h = record { returns = h.returns }
  accepted (some m) h = record { returns = h.returns }

  with_caches-IsVerdict :
      (caches : Caches) (o : Option (Bool × FlowMessage))
      → IsJudged base o
      → IsVerdict base (with_caches caches o)
  with_caches-IsVerdict caches none h = record { returns = h.returns }
  with_caches-IsVerdict caches (some p) h = record { returns = h.returns }

  always-IsVerdict :
      (caches : Caches) (o : Option (Bool × FlowMessage))
      → IsJudged base o
      → IsVerdict base (o >>= λ p. some (true, p.1, caches))
  always-IsVerdict caches none h = record { returns = h.returns }
  always-IsVerdict caches (some p) h = record { returns = h.returns }

module _ (ch : ChGo) {base : Batch} (bf : FlowMessage) (b : IsBuilding base bf) where
  write_exporter-IsJudged : (c : ExporterClassification) → IsJudged base (write_exporter ch bf c)
  unfolding write_exporter
  write_exporter-IsJudged c = elim (Bool-cases c.reject) [
    | inl e ↦ rw e (record { returns = b })
    | inr e ↦ rw e (accepted _ (append_strings-IsSafe ch _ bf refl b))
  ]

  bind_accepted :
      (o : Option FlowMessage) (f : FlowMessage → Option FlowMessage)
      → IsSafe base (o >>= f)
      → IsJudged base (o >>= λ m. f m >>= λ m'. some (true, m'))
  bind_accepted none f h = record { returns = h.returns }
  bind_accepted (some m) f h = accepted (f m) h

  columns-IsJudged :
      (entries : List (ℕ × Text)) (key n : ℕ)
      → are_texts entries ≡ true
      → HasType accepts_uint key
      → IsJudged base
          (append_strings ch entries bf >>= λ m. append_uint ch key n m >>= λ m'. some (true, m'))
  columns-IsJudged entries key n texts number = bind_accepted _ (append_uint ch key n) (
      IsSafe-bind _ _ (append_strings-IsSafe ch entries bf texts b)
        (λ m c. append_uint-IsSafe ch key m c n number))

  write_interface-IsJudged :
      (c : InterfaceClassification) (direction_in : Bool)
      → IsJudged base (write_interface ch bf c direction_in)
  unfolding write_interface
  write_interface-IsJudged c true = elim (Bool-cases c.reject) [
    | inl e ↦ rw e (record { returns = b })
    | inr e ↦ rw e (columns-IsJudged _ Keys.in_if_boundary _ refl refl)
  ]
  write_interface-IsJudged c false = elim (Bool-cases c.reject) [
    | inl e ↦ rw e (record { returns = b })
    | inr e ↦ rw e (columns-IsJudged _ Keys.out_if_boundary _ refl refl)
  ]

  module _ (rules : Classifiers) (t : ℕ) (caches : Caches) where
    exporter_found-IsVerdict :
        (o : Option ExporterClassification) (hit miss : Caches) (c : ExporterClassification)
        → IsVerdict base (elim o [
          | some cached ↦ with_caches hit (write_exporter ch bf cached)
          | none ↦ with_caches miss (write_exporter ch bf c)
        ])
    exporter_found-IsVerdict none hit miss c =
        with_caches-IsVerdict miss _ (write_exporter-IsJudged c)
    exporter_found-IsVerdict (some cached) hit miss c =
        with_caches-IsVerdict hit _ (write_exporter-IsJudged cached)

    pub classify_exporter-IsVerdict :
        (si : ExporterInfo) (c : ExporterClassification)
        → IsVerdict base (classify_exporter ch rules t si bf c caches)
    unfolding classify_exporter
    classify_exporter-IsVerdict si c = elim (Bool-cases (is_unclassified_exporter c)) [
      | inr e ↦ rw e (with_caches-IsVerdict caches _ (write_exporter-IsJudged c))
      | inl e ↦ rw e (elim (Bool-cases (length rules.exporter_rules == 0)) [
        | inl f ↦ rw f (record { returns = b })
        | inr f ↦ rw f (exporter_found-IsVerdict _ _ _ _)
      ])
    ]

    interface_found-IsVerdict :
        (o : Option InterfaceClassification) (hit miss : Caches) (c : InterfaceClassification)
        (direction_in : Bool)
        → IsVerdict base (elim o [
          | some cached ↦ with_caches hit (write_interface ch bf cached direction_in)
          | none ↦ with_caches miss (write_interface ch bf c direction_in)
        ])
    interface_found-IsVerdict none hit miss c d =
        with_caches-IsVerdict miss _ (write_interface-IsJudged c d)
    interface_found-IsVerdict (some cached) hit miss c d =
        with_caches-IsVerdict hit _ (write_interface-IsJudged cached d)

    pub classify_interface-IsVerdict :
        (ei : ExporterInfo) (ii : InterfaceInfo) (c : InterfaceClassification) (direction_in : Bool)
        → IsVerdict base (classify_interface ch rules t bf ei ii c direction_in caches)
    unfolding classify_interface
    classify_interface-IsVerdict ei ii c d = elim (Bool-cases (is_unclassified_interface c)) [
      | inr e ↦ rw e (with_caches-IsVerdict caches _ (write_interface-IsJudged _ d))
      | inl e ↦ rw e (elim (Bool-cases (length rules.interface_rules == 0)) [
        | inl f ↦ rw f (always-IsVerdict caches _ (write_interface-IsJudged _ d))
        | inr f ↦ rw f (interface_found-IsVerdict _ _ _ _ d)
      ])
    ]
