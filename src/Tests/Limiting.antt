-- ===== src/Tests/Limiting.antt =====
-- The rate limiter with a limit of two flows per second.
use akvorado.Prelude.{ℕ, List, ◌≡◌, min, none, [], ◌∷◌, arith}
use akvorado.GoMap
use akvorado.GoMap.{GoMap}
use akvorado.Net.{Addr, v6}
use akvorado.Core.Rate.{PerExporterRateLimiter, addr_discrete}
use akvorado.Core.Rate.Exporters.{answers, own_times, answers_alone, answers_lem}
use akvorado.Core.Rate.Limits.{IsCounted, run_updates, run_updates-IsCounted, allowed, allowed_lem}

abbrev busy : PerExporterRateLimiter
busy = record { dropped = 1; total = 3; factor = (3, 2); current_second = 7 }

busy-IsCounted : IsCounted 2 busy
busy-IsCounted = record {
  dropped = omega arith;
  denominator = omega arith;
  at_least_one = omega arith;
}

run_updates-IsCounted_example : IsCounted 2 (run_updates 2 (7 ∷ 6 ∷ 8 ∷ []) busy)
run_updates-IsCounted_example =
    run_updates-IsCounted 2 (7 ∷ 6 ∷ 8 ∷ []) busy (omega arith) busy-IsCounted

allowed_lem_example : allowed 2 7 5 none ≡ min 2 5
allowed_lem_example = allowed_lem 2 7 5 (omega arith)

abbrev limiter : GoMap Addr PerExporterRateLimiter
limiter = (v6 1, busy) ∷ []

abbrev flows : List (Addr × ℕ)
flows = (v6 1, 7) ∷ (v6 2, 7) ∷ (v6 2, 7) ∷ (v6 2, 7) ∷ (v6 1, 8) ∷ []

answers_lem_example :
    answers (v6 2) 2 flows limiter
    ≡ answers_alone 2 (own_times (v6 2) flows) (GoMap.get addr_discrete (v6 2) limiter)
answers_lem_example = answers_lem (v6 2) 2 flows limiter
