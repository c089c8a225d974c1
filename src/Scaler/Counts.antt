-- ===== src/Scaler/Counts.antt =====
-- What `nextWorkerCount` of outlet/kafkainput/scaler.go and the worker callbacks of
-- outlet/kafkainput/root.go do to the number of workers.
use akvorado.Prelude.{
  ◌≢◌, ℕ, zero, suc, ◌+◌, ◌-◌, ◌*◌, ◌≤◌, ◌<◌, ◌≡◌, refl, Bool, arith, inl, inr, ◌⊎◌,
}
use akvorado.Scaler.{
  ScaleRequest, scale_increase, scale_decrease, scale_steady, ScalerState, initial_state,
  initial_increase_state, steady_state, next_worker_count, increase_workers, decrease_workers,
}

-- From a count between the limits the next count is between the limits, for every state and request.
pub next_worker_count_bounds :
    (state : ScalerState) (request : ScaleRequest) (current lo hi : ℕ)
    → lo ≤ current
    → current ≤ hi
    → (lo ≤ (next_worker_count state request current lo hi).1)
      × ((next_worker_count state request current lo hi).1 ≤ hi)
unfolding next_worker_count
next_worker_count_bounds initial_state scale_increase current lo hi p q = omega arith
next_worker_count_bounds initial_state scale_decrease current lo hi p q = omega arith
next_worker_count_bounds initial_state scale_steady current lo hi p q = omega arith
next_worker_count_bounds initial_increase_state scale_increase current lo hi p q = omega arith
next_worker_count_bounds initial_increase_state scale_decrease current lo hi p q = omega arith
next_worker_count_bounds initial_increase_state scale_steady current lo hi p q = omega arith
next_worker_count_bounds steady_state scale_increase current lo hi p q = omega arith
next_worker_count_bounds steady_state scale_decrease current lo hi p q = omega arith
next_worker_count_bounds steady_state scale_steady current lo hi p q = omega arith

-- A request to increase raises a count that is below the maximum. In the steady state it adds exactly
-- one worker; in the two other states it leaves at most half of the distance to the maximum.
pub next_worker_count-increase :
    (state : ScalerState) (current lo hi : ℕ)
    → current < hi
    → (current < (next_worker_count state scale_increase current lo hi).1)
      × ((state ≡ steady_state)
            × ((next_worker_count state scale_increase current lo hi).1 ≡ current + 1)
          ⊎ (state ≢ steady_state)
            × ((hi - (next_worker_count state scale_increase current lo hi).1) * 2 ≤ hi - current))
unfolding next_worker_count
next_worker_count-increase initial_state current lo hi p =
    (omega arith, inr ((λ e. cc e), omega arith))
next_worker_count-increase initial_increase_state current lo hi p =
    (omega arith, inr ((λ e. cc e), omega arith))
next_worker_count-increase steady_state current lo hi p = (omega arith, inl (refl, omega arith))

-- A request to decrease removes one worker at most.
pub next_worker_count-decrease :
    (state : ScalerState) (current lo hi : ℕ)
    → lo ≤ current
    → ((next_worker_count state scale_decrease current lo hi).1 ≤ current)
      × (current ≤ (next_worker_count state scale_decrease current lo hi).1 + 1)
unfolding next_worker_count
next_worker_count-decrease initial_state current lo hi h = omega arith
next_worker_count-decrease initial_increase_state current lo hi h = omega arith
next_worker_count-decrease steady_state current lo hi h = omega arith

-- Started one by one, the workers never pass the target, and none is lost.
pub increase_workers_bounds :
    (starts : ℕ → Bool) (n count : ℕ)
    → (count ≤ increase_workers starts n count) × (increase_workers starts n count ≤ count + n)
unfolding increase_workers
increase_workers_bounds starts zero count = omega arith
increase_workers_bounds starts (suc n) count =
    ground (arith, increase_workers_bounds starts n (count + 1))

pub decrease_workers_lem : (n count : ℕ) → decrease_workers n count ≡ count - n
unfolding decrease_workers
decrease_workers_lem zero count = omega arith
decrease_workers_lem (suc n) count = omega (arith, decrease_workers_lem n (count - 1))
