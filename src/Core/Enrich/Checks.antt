-- ===== src/Core/Enrich/Checks.antt =====
-- The tests of `enrichFlow` in outlet/core/enricher.go before a flow is classified.
use akvorado.Prelude.{
  ℕ, zero, suc, ◌≡◌, ◌≢◌, refl, false, ◌&&◌, ◌⊎◌, Option, none, some, List, [], ◌∷◌, ◌++◌, ◌==◌,
  Bool-cases, Option-cases, inl, inr, arith,
}
use akvorado.Net.{Addr}
use akvorado.Schema.Message.{FlowMessage}
use akvorado.Core.Info.{is_empty}
use akvorado.Core.Services.{Services}
use akvorado.Core.Learn.{
  Known, interface_errors, check_flow, positive_rate, override_rate, default_rate,
}

positive_rate_lem : (rate : Option ℕ) (r : ℕ) → positive_rate rate ≡ some r → r ≢ 0
unfolding positive_rate
positive_rate_lem none r h = cc
positive_rate_lem (some n) r h = ground arith

default_rate_lem :
    (rate : Option ℕ) (bf : FlowMessage)
    → (default_rate rate bf).1 ≡ []
    → (default_rate rate bf).0.sampling_rate ≢ 0
unfolding default_rate
default_rate_lem rate bf = elim (Bool-cases (bf.sampling_rate == 0)) [
  | inr e ↦ rw e (λ h. ground arith)
  | inl e ↦ rw e (elim (Option-cases (positive_rate rate)) [
    | inl f ↦ rw f (λ h. cc)
    | inr (r, f) ↦ rw f (λ h. positive_rate_lem rate r f)
  ])
]

append_empty : {A : Type 0} (xs ys : List A) → xs ++ ys ≡ [] → (xs ≡ []) × (ys ≡ [])
append_empty [] ys h = (refl, h)
append_empty (x ∷ xs) ys h = cc

interface_of : (m n : ℕ) → (m == 0 && n == 0) ≡ false → (n ≢ 0) ⊎ (m ≢ 0)
interface_of m zero h = inr (ground arith)
interface_of m (suc n) h = inl (ground arith)

interface_errors_lem :
    (services : Services) (bf : FlowMessage) (k : Known)
    → interface_errors services bf k ≡ []
    → ((bf.in_if ≢ 0) ⊎ (bf.out_if ≢ 0)) × (is_empty k.exporter_name ≡ false)
unfolding interface_errors
interface_errors_lem services bf k = elim (Bool-cases (bf.out_if == 0 && bf.in_if == 0)) [
  | inl e ↦ rw e (λ h. cc)
  | inr e ↦ rw e (elim (Bool-cases (is_empty k.exporter_name)) [
    | inl f ↦ rw f (λ h. cc)
    | inr f ↦ rw f (λ h. (interface_of bf.out_if bf.in_if e, refl))
  ])
]

-- A flow for which no error is counted has an input or an output interface, the name of its exporter
-- is known, and its sampling rate is not 0 once the configured rates are applied.
pub check_flow-passes :
    (services : Services) (exporter_ip : Addr) (bf : FlowMessage) (k : Known)
    → (check_flow services exporter_ip bf k).1 ≡ []
    → ((bf.in_if ≢ 0) ⊎ (bf.out_if ≢ 0))
      × (is_empty k.exporter_name ≡ false)
      × ((check_flow services exporter_ip bf k).0.sampling_rate ≢ 0)
unfolding check_flow
check_flow-passes services exporter_ip bf k h =
    let (e, f) = append_empty _ _ h in
    let (i, n) = interface_errors_lem services bf k e in
    (
      i,
      n,
      default_rate_lem (services.default_sampling_rate exporter_ip)
          (override_rate (services.override_sampling_rate exporter_ip) bf) f,
    )
