-- ===== src/Tests/Scaling.antt =====
-- The scaler with one to eight workers.
use akvorado.Prelude.{
  ◌≢◌, ℕ, ◌+◌, ◌-◌, ◌*◌, ◌/◌, ◌≤◌, ◌<◌, ◌≡◌, ◌⊎◌, refl, true, List, [], ◌∷◌, arith,
}
use akvorado.Scaler.{
  increase_workers, increase, ScaleRequest, scale_increase, scale_decrease, ScalerConfiguration,
  initial_state, steady_state, Scaler, Turn, next_worker_count, count_requests, is_steady,
  is_decrease, handle_request, run_scaler, track, hold, decrease, trim, decrease_workers,
  request_record,
}
use akvorado.Scaler.Counts.{next_worker_count_bounds, next_worker_count-increase}
use akvorado.Scaler.Turns.{IsWithin, window, handle_request-lowers}
use akvorado.Scaler.Runs.{AsksMore, run_scaler-waits, run_scaler-IsWithin, run_scaler-reaches_max}

abbrev config : ScalerConfiguration
config = record {
  min_workers = 1;
  max_workers = 8;
  increase_rate_limit = 60;
  decrease_rate_limit = 300;
}

abbrev turn : ScaleRequest → ℕ → Turn
turn request now = record { request = request; now = now; finished = now + 1; starts = λ n. true }

abbrev start : Scaler
start = record { state = initial_state; last = 0; history = []; workers = 4 }

start-IsWithin : IsWithin config start
start-IsWithin = record { lower = omega arith; upper = omega arith }

abbrev requests : List Turn
requests =
    turn scale_increase 1000
    ∷ turn scale_increase 2000
    ∷ turn scale_increase 3000
    ∷ turn scale_increase 4000
    ∷ []

run_scaler-IsWithin_example : IsWithin config (run_scaler config requests start)
run_scaler-IsWithin_example = run_scaler-IsWithin config requests start start-IsWithin

asks : AsksMore config start.last requests
asks = (
  refl,
  omega arith,
  (λ n. refl),
  (
    refl,
    omega arith,
    (λ n. refl),
    (refl, omega arith, (λ n. refl), (refl, omega arith, (λ n. refl), tt)),
  ),
)

run_scaler-reaches_max_example : (run_scaler config requests start).workers ≡ config.max_workers
run_scaler-reaches_max_example =
    run_scaler-reaches_max config requests start start-IsWithin asks (omega arith)

more : (handle_request config (turn scale_increase 1000) start).workers ≡ 6
unfolding handle_request increase increase_workers next_worker_count
more = refl

more_workers : start.workers ≢ (handle_request config (turn scale_increase 1000) start).workers
more_workers e = ground (arith, e, more)

run_scaler-waits_example :
    (run_scaler config
      (turn scale_increase 1000 ∷ turn scale_increase 1010 ∷ turn scale_decrease 1060 ∷ [])
      start).workers
    ≡ (handle_request config (turn scale_increase 1000) start).workers
run_scaler-waits_example =
    run_scaler-waits config (turn scale_increase 1000)
      (turn scale_increase 1010 ∷ turn scale_decrease 1060 ∷ []) start more_workers
      (omega arith, (omega arith, tt))

abbrev steady : Scaler
steady = record start { state = steady_state }

steady-IsWithin : IsWithin config steady
steady-IsWithin = record { lower = omega arith; upper = omega arith }

fewer : (handle_request config (turn scale_decrease 1000) steady).workers < steady.workers
unfolding handle_request track hold decrease trim count_requests next_worker_count decrease_workers
    request_record is_decrease is_steady
fewer = omega arith

handle_request-lowers_example :
    (steady.last + config.decrease_rate_limit ≤ (turn scale_decrease 1000).now)
    × ((handle_request config (turn scale_decrease 1000) steady).workers + 1 ≡ steady.workers)
    × (count_requests is_steady (window config (turn scale_decrease 1000) steady) / 2
        < count_requests is_decrease (window config (turn scale_decrease 1000) steady))
handle_request-lowers_example =
    handle_request-lowers config (turn scale_decrease 1000) steady steady-IsWithin fewer

next_worker_count_bounds_example :
    (1 ≤ (next_worker_count initial_state scale_increase 3 1 8).1)
    × ((next_worker_count initial_state scale_increase 3 1 8).1 ≤ 8)
next_worker_count_bounds_example =
    next_worker_count_bounds initial_state scale_increase 3 1 8 (omega arith) (omega arith)

next_worker_count-increase_example :
    (3 < (next_worker_count initial_state scale_increase 3 1 8).1)
    × ((initial_state ≡ steady_state)
          × ((next_worker_count initial_state scale_increase 3 1 8).1 ≡ 3 + 1)
        ⊎ (initial_state ≢ steady_state)
          × ((8 - (next_worker_count initial_state scale_increase 3 1 8).1) * 2 ≤ 8 - 3))
next_worker_count-increase_example = next_worker_count-increase initial_state 3 1 8 (omega arith)
