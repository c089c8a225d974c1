-- ===== src/Core/Rate/Limits.antt =====
-- How many flows of an exporter pass the limit of outlet/core/rate.go.
use akvorado.Prelude.{
  ℕ, zero, suc, ◌+◌, ◌-◌, ◌^◌, ◌<◌, ◌≤◌, ◌≡◌, refl, subst, min, false, Option, none, some, List, [],
  ◌∷◌, length, ltb, if◌then◌else◌, arith, Bool-cases, inl, inr,
}
use akvorado.Core.Rate.{PerExporterRateLimiter, wrap, correction, loaded_value, roll, count, update}

-- The flows that were dropped are those above the limit, and the correction is at least 1.
pub record IsCounted (limit : ℕ) (value : PerExporterRateLimiter) : Type 0 where
  pub dropped : value.dropped ≡ value.total - limit
  pub denominator : 1 ≤ value.factor.1
  pub at_least_one : value.factor.1 ≤ value.factor.0

loaded_value-IsCounted : (limit t : ℕ) → IsCounted limit (loaded_value t none)
unfolding loaded_value
loaded_value-IsCounted limit t = record {
  dropped = omega arith;
  denominator = omega arith;
  at_least_one = omega arith;
}

correction_lem :
    (limit : ℕ) (value : PerExporterRateLimiter)
    → value.total < 2 ^ 64
    → IsCounted limit value
    → (1 ≤ (correction value).1) × ((correction value).1 ≤ (correction value).0)
unfolding correction
correction_lem limit value small h =
    let d = h.dropped in
    let e : wrap (value.total + 2 ^ 64 - value.dropped) ≡ value.total - value.dropped =
      omega arith in
    elim (Bool-cases (ltb 0 (wrap (value.total + 2 ^ 64 - value.dropped)))) [
      | inl f ↦ rw f (ground arith, omega arith)
      | inr f ↦ rw f (h.denominator, h.at_least_one)
    ]

roll-IsCounted :
    (limit t : ℕ) (value : PerExporterRateLimiter)
    → value.total < 2 ^ 64
    → IsCounted limit value
    → IsCounted limit (roll t value)
unfolding roll
roll-IsCounted limit t value small h = elim (Bool-cases (ltb value.current_second t)) [
  | inl e ↦ rw e (record {
    dropped = omega arith;
    denominator = (correction_lem limit value small h).0;
    at_least_one = (correction_lem limit value small h).1;
  })
  | inr e ↦ rw e h
]

roll_total : (t : ℕ) (value : PerExporterRateLimiter) → (roll t value).total ≤ value.total
unfolding roll
roll_total t value = ground arith

count-IsCounted :
    (limit : ℕ) (value : PerExporterRateLimiter)
    → value.total + 1 < 2 ^ 64
    → IsCounted limit value
    → IsCounted limit (count limit value).0 × ((count limit value).0.total ≡ value.total + 1)
unfolding count
count-IsCounted limit value small h = (
  record {
    dropped = ground (arith, h.dropped);
    denominator = ground (arith, h.denominator);
    at_least_one = ground (arith, h.at_least_one);
  },
  ground arith,
)

-- The flows of one exporter, by the seconds at which they were received.
unfoldable pub run_updates : ℕ → List ℕ → PerExporterRateLimiter → PerExporterRateLimiter
run_updates limit [] value = value
run_updates limit (t ∷ ts) value = run_updates limit ts (update limit t (some value)).0

-- Whatever the order of the seconds at which the flows of an exporter were received, as long as the
-- counter of flows does not overflow: the flows that were dropped stay those above the limit, and the
-- correction of the sampling rate stays a fraction of 1 or more.
pub run_updates-IsCounted :
    (limit : ℕ) (ts : List ℕ) (value : PerExporterRateLimiter)
    → value.total + length ts < 2 ^ 64
    → IsCounted limit value
    → IsCounted limit (run_updates limit ts value)
unfolding run_updates update loaded_value
run_updates-IsCounted limit [] value small h = h
run_updates-IsCounted limit (t ∷ ts) value small h =
    let rolled = roll-IsCounted limit t value (omega arith) h in
    let le = roll_total t value in
    let (counted, total) = count-IsCounted limit (roll t value) (omega arith) rolled in
    run_updates-IsCounted limit ts (count limit (roll t value)).0 (omega arith) counted

-- How many of the next `n` flows of the second `t` are allowed.
unfoldable pub allowed : ℕ → ℕ → ℕ → Option PerExporterRateLimiter → ℕ
allowed limit t zero loaded = 0
allowed limit t (suc n) loaded =
    let r = update limit t loaded in (if r.1 then 1 else 0) + allowed limit t n (some r.0)

roll_same :
    (t : ℕ) (value : PerExporterRateLimiter) → value.current_second ≡ t → roll t value ≡ value
unfolding roll
roll_same t value e = let f : ltb value.current_second t ≡ false = ground arith in rw f refl

allowed_from :
    (limit t n : ℕ) (value : PerExporterRateLimiter)
    → value.current_second ≡ t
    → value.total + n < 2 ^ 64
    → allowed limit t n (some value) ≡ min (limit - value.total) n
unfolding allowed update loaded_value count
allowed_from limit t zero value e small = omega arith
allowed_from limit t (suc n) value e small =
    let total : wrap (value.total + 1) ≡ value.total + 1 = omega arith in
    rw (roll_same t value e) (elim (Bool-cases (ltb limit (wrap (value.total + 1)))) [
      | inl f ↦ rw f (
          let rest =
            allowed_from limit t n
              (record value { dropped = wrap (value.dropped + 1); total = wrap (value.total + 1) })
              e (omega arith) in
          ground arith)
      | inr f ↦ rw f (
          let rest =
            allowed_from limit t n (record value { total = wrap (value.total + 1) }) e
              (omega arith) in
          ground arith)
    ])

-- Of the first `n` flows of an exporter, all received in the same second, exactly the first ones up to
-- the limit are allowed: the smaller of `n` and the limit.
pub allowed_lem : (limit t n : ℕ) → n < 2 ^ 64 → allowed limit t n none ≡ min limit n
unfolding allowed update loaded_value
allowed_lem limit t zero small = omega arith
allowed_lem limit t (suc n) small =
    let e : limit - 0 ≡ limit = omega arith in
    subst (λ m. allowed limit t (suc n) none ≡ min m (suc n)) e
      (allowed_from limit t (suc n) (loaded_value t none) refl (omega arith))
