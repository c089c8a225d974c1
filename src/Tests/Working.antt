-- ===== src/Tests/Working.antt =====
-- A worker of the outlet, and its batches.
use akvorado.Prelude.{
  Option, Returns-weaken, ◌+◌, ◌≡◌, ◌⊎◌, refl, false, none, some, List, [], ◌∷◌, Returns, arith,
}
use akvorado.Schema.Batch.{finalize}
use akvorado.Schema.Batch.Aligned.{IsAligned}
use akvorado.Schema.Batch.Finalize.{finalize_lem}
use akvorado.Schema.Message.{FlowMessage, new_flow_message}
use akvorado.ClickHouse.{
  BatchConfiguration, cannot_send, success, RealWorker, Moment, finalize_and_send, Attempt,
}
use akvorado.ClickHouse.Sends.{
  rows_sent, AreInserts, succeeds, IsKept, IsSent, finalize_and_send_lem,
}
use akvorado.Core.Worker.{Setup, WorkerState, shutdown}
use akvorado.Core.Worker.Safe.{IsConserved, shutdown_lem}
use akvorado.Tests.Data.{test_ch, test_flow, test_flow-IsAligned, test_flow-IsBuilding}
use akvorado.Tests.Enrichment.{services, config, no_caches}

abbrev batches : BatchConfiguration
batches = record { maximum_batch_size = 10; minimum_batch_size = 1; maximum_wait_time = 5 }

abbrev attempts : List Attempt
attempts = cannot_send ∷ success ∷ []

abbrev moment : Moment
moment = record { now = 7; after = 8; attempts = attempts }

abbrev fresh_worker : RealWorker
fresh_worker = record { bf = test_flow; last = some 6; inserts = [] }

finalize_and_send_lem_example :
    Returns
      (λ r.
        IsKept test_ch batches moment fresh_worker (test_flow.batch.row_count + 1) r
        ⊎ IsSent test_ch batches moment fresh_worker (test_flow.batch.row_count + 1) r)
      (finalize_and_send test_ch batches moment fresh_worker)
unfolding succeeds
finalize_and_send_lem_example =
    finalize_and_send_lem test_ch batches moment fresh_worker test_flow test_flow-IsAligned
      test_flow-IsBuilding refl

abbrev setup : Setup
setup = record {
  configuration = config;
  batches = batches;
  kafka_output = false;
  text = λ a. [];
  marshal = λ bf. none;
  scale = λ rate factor. rate;
  surroundings = λ n. record {
    services = services;
    time = n;
    moment = moment;
    http_clients = false;
    room = false;
  };
}

abbrev idle_state : WorkerState
idle_state = record {
  last = none;
  inserts = [];
  limiter = [];
  caches = no_caches;
  http = [];
  kafka = [];
  requests = [];
  received = 0;
  rate_limited = 0;
  forwarded = 0;
}

-- A batch with one row.
abbrev taken : Option FlowMessage → FlowMessage
taken none = test_flow
taken (some bf) = bf

taken_lem : (P : FlowMessage → Type 0) (m : Option FlowMessage) → Returns P m → P (taken m)
taken_lem P none h = absurd h
taken_lem P (some bf) h = h

abbrev one_row : FlowMessage
one_row = taken (finalize test_ch test_flow)

one_row_lem : IsAligned one_row × (one_row.batch.row_count ≡ 1)
unfolding new_flow_message
one_row_lem =
    taken_lem (λ bf. IsAligned bf × (bf.batch.row_count ≡ 1)) (finalize test_ch test_flow)
      (Returns-weaken _ _ (finalize test_ch test_flow) (λ bf h. (h.0, h.1))
        (finalize_lem test_ch test_flow test_flow test_flow-IsAligned test_flow-IsBuilding))

abbrev busy_state : WorkerState
busy_state = record idle_state { forwarded = 1 }

busy_state-IsConserved : IsConserved one_row.batch.row_count busy_state
unfolding rows_sent
busy_state-IsConserved = record { inserts = tt; total = omega (arith, one_row_lem.1) }

shutdown_lem_example :
    (rows_sent (shutdown test_ch setup attempts (one_row, busy_state)).1.inserts ≡ 1)
    × AreInserts (shutdown test_ch setup attempts (one_row, busy_state)).1.inserts
unfolding succeeds
shutdown_lem_example =
    shutdown_lem test_ch setup attempts (one_row, busy_state) one_row_lem.0 busy_state-IsConserved
      refl
