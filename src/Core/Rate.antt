-- ===== src/Core/Rate.antt =====
-- outlet/core/rate.go: the limit on the flows per second of an exporter. The concurrent map (xsync)
-- is a map whose `Compute` is atomic. The correction of the sampling rate, a float64, is the fraction
-- that it is computed from: a pair of the numerator and the denominator. The counters are uint64.
pub mod Limits
pub mod Exporters
use native.Mathlib.Decide.{ℕ_discrete}
use akvorado.Prelude.{
  ℕ, zero, suc, ◌+◌, ◌-◌, ◌%◌, ◌^◌, Bool, true, false, not, Option, none, some, List, [], ◌∷◌, ltb,
  if◌then◌else◌,
}
use akvorado.GoMap
use akvorado.GoMap.{GoMap}
use akvorado.Net.{Addr}

pub record PerExporterRateLimiter : Type 0 where
  pub dropped : ℕ
  pub total : ℕ
  pub factor : ℕ × ℕ
  pub current_second : ℕ

abbrev pub addr_discrete : Discrete Addr
addr_discrete = hlevel ℕ_discrete

abbrev pub wrap : ℕ → ℕ
wrap n = n % 2 ^ 64

-- The state that `update` starts from.
unfoldable pub loaded_value : ℕ → Option PerExporterRateLimiter → PerExporterRateLimiter
loaded_value t none = record { dropped = 0; total = 0; factor = (1, 1); current_second = t }
loaded_value t (some value) = value

-- The factor at the end of a second: the ratio between what was received and what was accepted, unless
-- every flow was dropped. The subtraction is one of uint64, which would wrap around.
unfoldable pub correction : PerExporterRateLimiter → ℕ × ℕ
correction value =
    let accepted = wrap (value.total + 2 ^ 64 - value.dropped) in
    if ltb 0 accepted then (value.total, accepted) else value.factor

-- In a new second the counters start again.
unfoldable pub roll : ℕ → PerExporterRateLimiter → PerExporterRateLimiter
unfolding correction
roll t value =
    if ltb value.current_second t
    then record { dropped = 0; total = 0; factor = correction value; current_second = t }
    else value

unfoldable pub count : ℕ → PerExporterRateLimiter → PerExporterRateLimiter × Bool
count limit value =
    let total = wrap (value.total + 1) in
    if ltb limit total
    then (record value { total = total; dropped = wrap (value.dropped + 1) }, false)
    else (record value { total = total }, true)

-- `update`, with the verdict.
unfoldable pub update : ℕ → ℕ → Option PerExporterRateLimiter → PerExporterRateLimiter × Bool
unfolding loaded_value roll count
update limit t loaded = count limit (roll t (loaded_value t loaded))

-- `allowOneMessage`: the state of the limiter, the verdict and the correction.
unfoldable pub allow_one_message :
    Addr
    → ℕ
    → ℕ
    → GoMap Addr PerExporterRateLimiter
    → GoMap Addr PerExporterRateLimiter × Bool × (ℕ × ℕ)
unfolding update
allow_one_message exporter limit t rl =
    let r = update limit t (GoMap.get addr_discrete exporter rl) in
    (GoMap.put addr_discrete exporter r.0 rl, r.1, r.0.factor)
