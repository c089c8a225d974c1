-- ===== src/Scaler.antt =====
-- outlet/kafkainput/scaler.go, with the worker callbacks of outlet/kafkainput/root.go: the state
-- machine that picks the number of Kafka workers, and one turn of the loop of `runScaler`.
-- Times and durations are numbers of nanoseconds. The counts are Go ints that are never negative:
-- the one subtraction that could go below zero, `currentWorkers-1`, stands under `max(minWorkers, _)`.
-- `scaleWhileDraining` drops what arrives on the channel while a callback runs: those requests are
-- absent from the sequence of turns.
pub mod Counts
pub mod Turns
pub mod Runs
use akvorado.Prelude.{
  ℕ, zero, suc, ◌+◌, ◌-◌, ◌/◌, min, max, Bool, List, [], ◌∷◌, ◌++◌, ltb, if◌then◌else◌,
}

pub data ScaleRequest : Type 0 where
  scale_increase scale_decrease scale_steady : ScaleRequest

pub record ScalerConfiguration : Type 0 where
  pub min_workers : ℕ
  pub max_workers : ℕ
  pub increase_rate_limit : ℕ
  pub decrease_rate_limit : ℕ

pub data ScalerState : Type 0 where
  initial_state initial_increase_state steady_state : ScalerState

-- `nextWorkerCount`: the new state of the machine and the count.
unfoldable pub next_worker_count : ScalerState → ScaleRequest → ℕ → ℕ → ℕ → ScalerState × ℕ
next_worker_count initial_state scale_increase current lo hi =
    (initial_increase_state, min hi ((current + hi + 1) / 2))
next_worker_count initial_state scale_decrease current lo hi = (initial_state, current)
next_worker_count initial_increase_state scale_increase current lo hi =
    (initial_increase_state, min hi ((current + hi + 1) / 2))
next_worker_count initial_increase_state scale_decrease current lo hi =
    (steady_state, max lo (current - 1))
next_worker_count steady_state scale_increase current lo hi = (steady_state, min hi (current + 1))
next_worker_count steady_state scale_decrease current lo hi = (steady_state, max lo (current - 1))
next_worker_count state scale_steady current lo hi = (state, current)

pub record RequestRecord : Type 0 where
  pub request : ScaleRequest
  pub time : ℕ

-- The variables of the loop of `runScaler`, and the number of workers of the component.
pub record Scaler : Type 0 where
  pub state : ScalerState
  pub last : ℕ
  pub history : List RequestRecord
  pub workers : ℕ

-- What one turn takes from outside: the request, the clock when it is received and when the turn
-- ends, and whether a worker can be started when there are so many.
pub record Turn : Type 0 where
  pub request : ScaleRequest
  pub now : ℕ
  pub finished : ℕ
  pub starts : ℕ → Bool

-- The loop of the callback `increaseWorkers`: it stops at the first worker that cannot be started.
unfoldable pub increase_workers : (ℕ → Bool) → ℕ → ℕ → ℕ
increase_workers starts zero count = count
increase_workers starts (suc n) count =
    let rest = increase_workers starts n (count + 1) in if starts count then rest else count

-- The loop of the callback `decreaseWorkers`.
unfoldable pub decrease_workers : ℕ → ℕ → ℕ
decrease_workers zero count = count
decrease_workers (suc n) count = decrease_workers n (count - 1)

-- `last.Add(limit).After(now)`.
abbrev pub within_limit : ℕ → ℕ → ℕ → Bool
within_limit last limit now = ltb now (last + limit)

-- The loop that removes old requests: all but the last one may go.
unfoldable pub trim : ℕ → ℕ → List RequestRecord → List RequestRecord
trim limit now [] = []
trim limit now (r ∷ []) = r ∷ []
trim limit now (r ∷ s ∷ rest) =
    let trimmed = trim limit now (s ∷ rest) in
    if ltb (RequestRecord.time r + limit) now then trimmed else r ∷ s ∷ rest

unfoldable pub is_decrease : ScaleRequest → ℕ
is_decrease scale_decrease = 1
is_decrease _ = 0

unfoldable pub is_steady : ScaleRequest → ℕ
is_steady scale_steady = 1
is_steady _ = 0

-- The counting loop, for one kind of requests.
unfoldable pub count_requests : (ScaleRequest → ℕ) → List RequestRecord → ℕ
count_requests weight [] = 0
count_requests weight (r ∷ rest) = weight r.request + count_requests weight rest

-- An accepted request to increase.
unfoldable pub increase : ScalerConfiguration → Turn → Scaler → Scaler
increase c t s =
    let (state, target) =
      next_worker_count s.state scale_increase s.workers c.min_workers c.max_workers in
    record s {
      state = state;
      workers =
          if ltb s.workers target
          then increase_workers t.starts (target - s.workers) s.workers
          else s.workers;
      last = t.finished;
      history = [];
    }

-- Scaling down, once the window asks for it.
unfoldable pub decrease : ScalerConfiguration → Turn → Scaler → Scaler
decrease c t s =
    let (state, target) =
      next_worker_count s.state scale_decrease s.workers c.min_workers c.max_workers in
    record s {
      state = state;
      workers =
          if ltb target s.workers
          then decrease_workers (s.workers - target) s.workers
          else s.workers;
      last = t.finished;
      history = [];
    }

unfoldable pub request_record : Turn → RequestRecord
request_record t = record { request = t.request; time = t.now }

-- Past `decreaseRateLimit` the request is recorded, and the window decides.
unfoldable pub track : ScalerConfiguration → Turn → Scaler → Scaler
track c t s =
    let window = trim c.decrease_rate_limit t.now (s.history ++ request_record t ∷ []) in
    if ltb (count_requests is_steady window / 2) (count_requests is_decrease window)
    then decrease c t (record s { history = window })
    else record s { history = window }

-- A request to decrease or to stay, by the time since the last scaling.
unfoldable pub hold : ScalerConfiguration → Turn → Scaler → Scaler
hold c t s =
    if within_limit s.last c.decrease_rate_limit t.now
    then elim t.request [
      | scale_steady ↦ record s { history = s.history ++ request_record t ∷ [] }
      | _ ↦ s
    ]
    else track c t s

-- One turn of the loop of `runScaler`: the case `request := <-ch`.
unfoldable pub handle_request : ScalerConfiguration → Turn → Scaler → Scaler
handle_request c t s =
    if within_limit s.last c.increase_rate_limit t.now
    then s
    else elim t.request [ scale_increase ↦ increase c t s | _ ↦ hold c t s ]

unfoldable pub run_scaler : ScalerConfiguration → List Turn → Scaler → Scaler
run_scaler c [] s = s
run_scaler c (t ∷ turns) s = run_scaler c turns (handle_request c t s)
