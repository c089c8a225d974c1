-- ===== src/ClickHouse.antt =====
-- outlet/clickhouse/worker.go: when a batch of flows is sent to ClickHouse. The connection, the clock
-- and the expiration of the context are outside: each attempt to send comes with its outcome, and the
-- attempts end where the context expires.
pub mod Sends
use akvorado.Prelude.{
  ℕ, ◌+◌, Bool, true, false, ◌||◌, Option, none, some, List, [], ◌∷◌, leb, ◌==◌, ◌>>=◌,
  if◌then◌else◌,
}
use akvorado.Schema.Columns.{Column, ChGo}
use akvorado.Schema.Message.{FlowMessage}
use akvorado.Schema.Batch.{finalize, clear}

-- `WorkerStatus`
pub data WorkerStatus : Type 0 where
  idle overloaded underloaded steady : WorkerStatus

-- `Configuration`, with `minimumBatchSize` as `New` computes it.
pub record BatchConfiguration : Type 0 where
  pub maximum_batch_size : ℕ
  pub minimum_batch_size : ℕ
  pub maximum_wait_time : ℕ

-- What one call of the operation that `Flush` retries meets: no server to connect to, an error when
-- sending, or neither.
pub data Attempt : Type 0 where
  cannot_connect cannot_send success : Attempt

-- An insertion that ClickHouse acknowledged: its columns, the number of its flows, and whether it was
-- asynchronous.
pub record Insert : Type 0 where
  pub columns : List (Option Column)
  pub flow_count : ℕ
  pub use_async : Bool

-- `realWorker`: the message that it shares with the worker of the core, the time of the last send
-- (`none` is the zero time), and the insertions, the last one first.
pub record RealWorker : Type 0 where
  pub bf : FlowMessage
  pub last : Option ℕ
  pub inserts : List Insert

-- The clock when `FinalizeAndSend` begins and after `Flush`, and the attempts.
pub record Moment : Type 0 where
  pub now : ℕ
  pub after : ℕ
  pub attempts : List Attempt

-- `now.Sub(last) >= max`: from the zero time the difference is the largest duration.
unfoldable pub waited : ℕ → ℕ → Option ℕ → Bool
waited max_wait now none = true
waited max_wait now (some last) = leb (max_wait + last) now

-- The status after a send of a batch of that size.
unfoldable pub sent_status : BatchConfiguration → ℕ → WorkerStatus
sent_status config batch_size =
    if leb config.maximum_batch_size batch_size
    then overloaded
    else if leb batch_size config.minimum_batch_size
    then underloaded
    else steady

-- `FinalizeAndSend`, once the flow is final.
module _ (ch : ChGo) where
  -- `backoff.Retry`, with the operation of `Flush`.
  unfoldable pub retry : Bool → List Attempt → RealWorker → RealWorker
  retry use_async [] w = w
  retry use_async (cannot_connect ∷ attempts) w = retry use_async attempts w
  retry use_async (cannot_send ∷ attempts) w = retry use_async attempts w
  retry use_async (success ∷ attempts) w = record w {
    bf = clear ch w.bf;
    inserts =
        record {
          columns = w.bf.batch.columns;
          flow_count = w.bf.batch.row_count;
          use_async = use_async;
        }
        ∷ w.inserts;
  }

  module _ (config : BatchConfiguration) where
    unfoldable pub flush : List Attempt → RealWorker → RealWorker
    flush attempts w =
        if w.bf.batch.row_count == 0
        then w
        else retry (leb w.bf.batch.row_count config.minimum_batch_size) attempts w

    unfoldable pub send : Moment → RealWorker → RealWorker × WorkerStatus
    unfolding flush sent_status waited
    send m w =
        let batch_size = w.bf.batch.row_count in
        if leb config.maximum_batch_size batch_size || waited config.maximum_wait_time m.now w.last
        then (record (flush m.attempts w) { last = some m.after }, sent_status config batch_size)
        else (w, idle)

    unfoldable pub finalize_and_send : Moment → RealWorker → Option (RealWorker × WorkerStatus)
    unfolding send
    finalize_and_send m w = do bf ← finalize ch w.bf; some (send m (record w { bf = bf }))
