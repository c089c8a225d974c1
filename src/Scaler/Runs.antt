-- ===== src/Scaler/Runs.antt =====
-- Runs of the loop of `runScaler` in outlet/kafkainput/scaler.go, over any sequence of turns.
use akvorado.Prelude.{
  ◌<◌, ◌≢◌, refl, ap, ℕ, zero, suc, ◌+◌, ◌-◌, ◌≤◌, ◌≡◌, subst, sym, Bool, true, arith, List, [],
  ◌∷◌, length,
}
use akvorado.Scaler.{
  scale_increase, ScalerConfiguration, Scaler, Turn, next_worker_count, increase_workers, increase,
  handle_request, run_scaler,
}
use akvorado.Scaler.Counts.{next_worker_count_bounds, next_worker_count-increase}
use akvorado.Scaler.Turns.{
  handle_request_last, handle_request_early, IsWithin, handle_request-IsWithin,
}

-- Whatever the requests, the clock and the workers that fail to start, a loop that begins with
-- the number of workers between the limits keeps it there.
pub run_scaler-IsWithin :
    (c : ScalerConfiguration) (turns : List Turn) (s : Scaler)
    → IsWithin c s
    → IsWithin c (run_scaler c turns s)
unfolding run_scaler
run_scaler-IsWithin c [] s h = h
run_scaler-IsWithin c (t ∷ turns) s h =
    run_scaler-IsWithin c turns (handle_request c t s) (handle_request-IsWithin c t s h)

-- The turns ask for more workers, each at least `increaseRateLimit` after the end of the one
-- before, and every worker starts.
abbrev pub AsksMore : ScalerConfiguration → ℕ → List Turn → Type 0
AsksMore c last [] = Unit {0}
AsksMore c last (t ∷ turns) =
    (t.request ≡ scale_increase)
    × (last + c.increase_rate_limit ≤ t.now)
    × ((n : ℕ) → t.starts n ≡ true)
    × AsksMore c t.finished turns

increase_workers_all :
    (starts : ℕ → Bool) (n count : ℕ)
    → ((k : ℕ) → starts k ≡ true)
    → increase_workers starts n count ≡ count + n
unfolding increase_workers
increase_workers_all starts zero count h = omega arith
increase_workers_all starts (suc n) count h =
    ground (arith, h count, increase_workers_all starts n (count + 1) h)

-- An accepted request to increase gains a worker, unless they are all there.
increase_gains :
    (c : ScalerConfiguration) (t : Turn) (s : Scaler)
    → IsWithin c s
    → t.request ≡ scale_increase
    → s.last + c.increase_rate_limit ≤ t.now
    → ((n : ℕ) → t.starts n ≡ true)
    → ((handle_request c t s).last ≡ t.finished)
      × (c.max_workers - (handle_request c t s).workers ≤ c.max_workers - s.workers - 1)
unfolding handle_request increase
increase_gains c t s w asks spaced starts = ground (
  arith,
  next_worker_count_bounds s.state scale_increase s.workers c.min_workers c.max_workers w.lower
      w.upper,
  next_worker_count-increase s.state s.workers c.min_workers c.max_workers,
  increase_workers_all t.starts
      ((next_worker_count s.state scale_increase s.workers c.min_workers c.max_workers).1
        - s.workers)
      s.workers starts,
)

-- From a number of workers between the limits, turns that ask for more workers bring it to the
-- maximum, if each comes `increaseRateLimit` or more after the end of the one before, every worker
-- starts, and there are as many turns as workers are missing.
pub run_scaler-reaches_max :
    (c : ScalerConfiguration) (turns : List Turn) (s : Scaler)
    → IsWithin c s
    → AsksMore c s.last turns
    → c.max_workers ≤ s.workers + length turns
    → (run_scaler c turns s).workers ≡ c.max_workers
unfolding run_scaler
run_scaler-reaches_max c [] s w asks enough = omega arith
run_scaler-reaches_max c (t ∷ turns) s w asks enough =
    let (request, spaced, starts, rest) = asks in
    let (last, gains) = increase_gains c t s w request spaced starts in
    run_scaler-reaches_max c turns (handle_request c t s) (handle_request-IsWithin c t s w)
      (subst (λ l. AsksMore c l turns) (sym last) rest) (omega arith)

-- All turns come before a time.
abbrev pub ComeBefore : ℕ → List Turn → Type 0
ComeBefore limit [] = Unit {0}
ComeBefore limit (t ∷ turns) = t.now < limit × ComeBefore limit turns

run_scaler_early :
    (c : ScalerConfiguration) (turns : List Turn) (s : Scaler)
    → ComeBefore (s.last + c.increase_rate_limit) turns
    → run_scaler c turns s ≡ s
unfolding run_scaler
run_scaler_early c [] s b = refl
run_scaler_early c (t ∷ turns) s b =
    rw (handle_request_early c t s b.0) (run_scaler_early c turns s b.1)

-- After a turn that changed the number of workers, no sequence of turns changes it again before
-- `increaseRateLimit` has passed since the end of that turn.
pub run_scaler-waits :
    (c : ScalerConfiguration) (t : Turn) (turns : List Turn) (s : Scaler)
    → s.workers ≢ (handle_request c t s).workers
    → ComeBefore (t.finished + c.increase_rate_limit) turns
    → (run_scaler c (t ∷ turns) s).workers ≡ (handle_request c t s).workers
unfolding run_scaler
run_scaler-waits c t turns s changed b = ap Scaler.workers (
    run_scaler_early c turns (handle_request c t s) (
      subst (λ last. ComeBefore (last + c.increase_rate_limit) turns)
        (sym (handle_request_last c t s changed)) b))
