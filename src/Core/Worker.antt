-- ===== src/Core/Worker.antt =====
-- outlet/core/worker.go: a worker of the outlet processes the raw flows that it gets from Kafka. The
-- answers of the other components, the clocks and the state of the network differ from one flow to the
-- next: they are given by number of the flow.
pub mod Safe
use akvorado.Prelude.{
  ℕ, ◌+◌, Bool, true, false, not, ◌&&◌, Option, none, some, List, [], ◌∷◌, length, ltb,
  if◌then◌else◌, ◌>>=◌,
}
use akvorado.GoMap.{GoMap}
use akvorado.Net.{Addr, unmap}
use akvorado.Scaler.{ScaleRequest, scale_increase, scale_decrease, scale_steady}
use akvorado.Schema.Keys.{ColumnGroup}
use akvorado.Schema.Columns.{ChGo, Value}
use akvorado.Schema.Message.{FlowMessage}
use akvorado.Schema.Batch.{undo}
use akvorado.ClickHouse.{
  WorkerStatus, idle, overloaded, underloaded, steady, BatchConfiguration, Attempt, Insert,
  RealWorker, Moment, flush, finalize_and_send,
}
use akvorado.Flow.Stream.{Stream, FinalizeFlow, on_message}
use akvorado.Flow.Netflow.Root.{Collection}
use akvorado.Flow.Decode
use akvorado.Flow.Decode.{RawFlow, Libraries}
use akvorado.Core.Info.{Text}
use akvorado.Core.Classify.{Caches}
use akvorado.Core.Services.{Services, Configuration}
use akvorado.Core.Rate.{PerExporterRateLimiter, allow_one_message}
use akvorado.Core.Enrich.{Enriched, enrich_flow}

-- What the worker meets when it ends a flow: the answers of the other components, the time of the
-- caches, the moment for ClickHouse, whether there are HTTP clients and room in their channel.
pub record Surroundings : Type 0 where
  pub services : Services
  pub time : ℕ
  pub moment : Moment
  pub http_clients : Bool
  pub room : Bool

-- The configuration, and code of other libraries: `marshal` is the JSON encoder, `scale` multiplies
-- by a factor in floating point.
pub record Setup : Type 0 where
  pub configuration : Configuration
  pub batches : BatchConfiguration
  pub kafka_output : Bool
  pub text : Addr → Text
  pub marshal : FlowMessage → Option Text
  pub scale : ℕ → ℕ × ℕ → ℕ
  pub surroundings : ℕ → Surroundings

-- The state besides the message: that of the ClickHouse worker, of the rate limiter and of the
-- classifiers, what was sent to the HTTP clients, to Kafka and to the scaler (the last one first), and
-- the counters, over all exporters.
pub record WorkerState : Type 0 where
  pub last : Option ℕ
  pub inserts : List Insert
  pub limiter : GoMap Addr PerExporterRateLimiter
  pub caches : Caches
  pub http : List Text
  pub kafka : List (Text × List (ℕ × Value))
  pub requests : List ScaleRequest
  pub received : ℕ
  pub rate_limited : ℕ
  pub forwarded : ℕ

-- The scale request of a status.
unfoldable pub request_of : WorkerStatus → List ScaleRequest → List ScaleRequest
request_of idle requests = requests
request_of overloaded requests = scale_increase ∷ requests
request_of underloaded requests = scale_decrease ∷ requests
request_of steady requests = scale_steady ∷ requests

-- The message and the state of the ClickHouse worker.
unfoldable pub real_worker : Stream WorkerState → RealWorker
real_worker (bf, x) = record { bf = bf; last = x.last; inserts = x.inserts }

module _ (ch : ChGo) (setup : Setup) where
  -- The correction for the flows that the rate limiter dropped, when it is above 1.
  unfoldable pub scale_rate : ℕ × ℕ → FlowMessage → FlowMessage
  scale_rate factor bf =
      if ltb factor.1 factor.0
      then record bf { sampling_rate = setup.scale bf.sampling_rate factor }
      else bf

  -- Best effort: a text is dropped when there is no room for it.
  unfoldable pub to_http : Surroundings → FlowMessage → List Text → List Text
  to_http around bf http =
      if around.http_clients
      then elim (setup.marshal bf) [
        | none ↦ http
        | some text ↦ if around.room then text ∷ http else http
      ]
      else http

  unfoldable pub to_kafka :
      Text → FlowMessage → List (Text × List (ℕ × Value)) → List (Text × List (ℕ × Value))
  to_kafka exporter bf kafka =
      if setup.kafka_output && ltb 0 (length bf.batch.protobuf_message)
      then (exporter, bf.batch.protobuf_message) ∷ kafka
      else kafka

  -- The end of the callback, for a flow that is enriched.
  unfoldable pub forward : Surroundings → Text → ℕ × ℕ → FinalizeFlow WorkerState
  unfolding request_of real_worker scale_rate to_http to_kafka
  forward around exporter factor (bf, x) =
      let m = scale_rate factor bf in
      finalize_and_send ch setup.batches around.moment (real_worker (m, x))
      >>= λ (r : RealWorker × WorkerStatus). some (
        r.0.bf,
        record x {
          last = r.0.last;
          inserts = r.0.inserts;
          http = to_http around m x.http;
          kafka = to_kafka exporter r.0.bf x.kafka;
          requests = request_of r.1 x.requests;
          forwarded = x.forwarded + 1;
        },
      )

  unfoldable pub enrich : Surroundings → ℕ × ℕ → FinalizeFlow WorkerState
  unfolding forward
  enrich around factor (bf, x) =
      let exporter = setup.text (unmap bf.exporter_address) in
      enrich_flow ch around.services setup.configuration around.time bf.exporter_address exporter bf
        x.caches
      >>= λ (e : Enriched).
          (if e.skip
            then on_message undo (e.flow, record x { caches = e.caches })
            else forward around exporter factor (e.flow, record x { caches = e.caches }))

  -- What follows the verdict of the rate limiter.
  unfoldable pub limit :
      Surroundings → GoMap Addr PerExporterRateLimiter × Bool × (ℕ × ℕ) → FinalizeFlow WorkerState
  unfolding enrich
  limit around (limiter, allowed, factor) (bf, x) =
      if allowed
      then enrich around factor (bf, record x { limiter = limiter })
      else on_message undo (bf, record x { limiter = limiter; rate_limited = x.rate_limited + 1 })

  -- The callback `finalize` of `processIncomingFlow`.
  unfoldable pub finalize_flow : RawFlow → FinalizeFlow WorkerState
  unfolding limit
  finalize_flow raw (bf, x) =
      let around = setup.surroundings x.received in
      let counted = record x { received = x.received + 1 } in
      if ltb 0 raw.rate_limit
      then limit around
          (allow_one_message bf.exporter_address raw.rate_limit raw.time_received x.limiter)
          (bf, counted)
      else enrich around (1, 1) (bf, counted)

  -- `shutdown`
  unfoldable pub shutdown : List Attempt → Stream WorkerState → Stream WorkerState
  unfolding real_worker
  shutdown attempts (bf, x) =
      let w = flush ch setup.batches attempts (real_worker (bf, x)) in
      (w.bf, record x { last = w.last; inserts = w.inserts })

  -- `processIncomingFlow`: whether there was no error, the state of the decoders, and the stream. An
  -- error of the decoders is only counted.
  unfoldable pub process_incoming_flow :
      {B T : Type 0}
      → Libraries B T
      → (ColumnGroup → Bool)
      → (List ℕ → Option RawFlow)
      → List ℕ
      → Collection T
      → Stream WorkerState
      → Option (Bool × Collection T × Stream WorkerState)
  unfolding finalize_flow
  process_incoming_flow lib is_disabled unmarshal bytes collection s = elim (unmarshal bytes) [
    | none ↦ some (false, collection, s)
    | some raw ↦ Decode.decode ch is_disabled lib (finalize_flow raw) raw collection s >>= λ r.
        some (true, r.1, r.2)
  ]
