-- ===== src/Scaler/Turns.antt =====
-- One turn of the loop of `runScaler` in outlet/kafkainput/scaler.go: rate limits and the window.
use akvorado.Prelude.{true, refl, ◌+◌, ◌-◌, ◌/◌, ◌≤◌, ◌<◌, ◌≡◌, ◌≢◌, arith, List, [], ◌∷◌, ◌++◌}
use akvorado.Scaler.{
  within_limit, scale_increase, scale_decrease, ScalerConfiguration, RequestRecord, Scaler, Turn,
  next_worker_count, trim, is_decrease, is_steady, count_requests, request_record, increase,
  decrease, track, hold, handle_request,
}
use akvorado.Scaler.Counts.{
  next_worker_count_bounds, next_worker_count-decrease, increase_workers_bounds,
  decrease_workers_lem,
}

-- The number of workers stays between the limits.
pub record IsWithin (c : ScalerConfiguration) (s : Scaler) : Type 0 where
  pub lower : c.min_workers ≤ s.workers
  pub upper : s.workers ≤ c.max_workers

module _ (c : ScalerConfiguration) (t : Turn) where
  -- The window of `track`: the history with the new request, less the old ones.
  abbrev pub window : Scaler → List RequestRecord
  window s = trim c.decrease_rate_limit t.now (s.history ++ request_record t ∷ [])

  pub increase-IsWithin : (s : Scaler) → IsWithin c s → IsWithin c (increase c t s)
  unfolding increase
  increase-IsWithin s h = ground (
    arith,
    next_worker_count_bounds s.state scale_increase s.workers c.min_workers c.max_workers h.lower
        h.upper,
    increase_workers_bounds t.starts
        ((next_worker_count s.state scale_increase s.workers c.min_workers c.max_workers).1
          - s.workers)
        s.workers,
  )

  pub decrease-IsWithin : (s : Scaler) → IsWithin c s → IsWithin c (decrease c t s)
  unfolding decrease
  decrease-IsWithin s h = ground (
    arith,
    next_worker_count_bounds s.state scale_decrease s.workers c.min_workers c.max_workers h.lower
        h.upper,
    decrease_workers_lem
        (s.workers
          - (next_worker_count s.state scale_decrease s.workers c.min_workers c.max_workers).1)
        s.workers,
  )

  increase_le : (s : Scaler) → s.workers ≤ (increase c t s).workers
  unfolding increase
  increase_le s = ground (
    arith,
    increase_workers_bounds t.starts
        ((next_worker_count s.state scale_increase s.workers c.min_workers c.max_workers).1
          - s.workers)
        s.workers,
  )

  -- Scaling down removes one worker at most.
  decrease-workers :
      (s : Scaler)
      → IsWithin c s
      → ((decrease c t s).workers ≤ s.workers) × (s.workers ≤ (decrease c t s).workers + 1)
  unfolding decrease
  decrease-workers s h = ground (
    arith,
    next_worker_count-decrease s.state s.workers c.min_workers c.max_workers,
    decrease_workers_lem
        (s.workers
          - (next_worker_count s.state scale_decrease s.workers c.min_workers c.max_workers).1)
        s.workers,
  )

  pub handle_request-IsWithin : (s : Scaler) → IsWithin c s → IsWithin c (handle_request c t s)
  unfolding handle_request hold track
  handle_request-IsWithin s h = grind (arith, increase-IsWithin, decrease-IsWithin)

  -- What a turn can change: it changes the number of workers only once `increaseRateLimit` has passed since the last
  -- scaling. It raises it only on a request to increase. It lowers it only once
  -- `decreaseRateLimit` has passed, by one worker, and when the requests to decrease in the window
  -- outnumber half of the requests to stay.
  pub handle_request_changes :
      (s : Scaler)
      → IsWithin c s
      → (s.workers ≢ (handle_request c t s).workers → s.last + c.increase_rate_limit ≤ t.now)
        × (s.workers < (handle_request c t s).workers → t.request ≡ scale_increase)
        × ((handle_request c t s).workers < s.workers
            → (s.last + c.decrease_rate_limit ≤ t.now)
              × ((handle_request c t s).workers + 1 ≡ s.workers)
              × (count_requests is_steady (window s) / 2 < count_requests is_decrease (window s)))
  unfolding handle_request hold track
  handle_request_changes s h = ground (
    arith,
    increase_le s,
    decrease-workers (record s { history = window s })
        (record { lower = h.lower; upper = h.upper }),
  )

  -- A turn that changes the number of workers keeps the time at which it ends.
  pub handle_request_last :
      (s : Scaler)
      → s.workers ≢ (handle_request c t s).workers
      → (handle_request c t s).last ≡ t.finished
  unfolding handle_request hold track increase decrease
  handle_request_last s = ground arith

  -- Before the rate limit a turn does nothing.
  pub handle_request_early :
      (s : Scaler) → t.now < s.last + c.increase_rate_limit → handle_request c t s ≡ s
  unfolding handle_request
  handle_request_early s early =
      let e : within_limit s.last c.increase_rate_limit t.now ≡ true = ground arith in rw e refl

  -- With the number of workers between the limits, a turn lowers it only once `decreaseRateLimit` has passed since the last
  -- scaling, by one worker, and when the requests to decrease in the window outnumber half of the
  -- requests to stay.
  pub handle_request-lowers :
      (s : Scaler)
      → IsWithin c s
      → (handle_request c t s).workers < s.workers
      → (s.last + c.decrease_rate_limit ≤ t.now)
        × ((handle_request c t s).workers + 1 ≡ s.workers)
        × (count_requests is_steady (window s) / 2 < count_requests is_decrease (window s))
  handle_request-lowers s h lower = (handle_request_changes s h).2 lower
