-- ===== src/Core/Worker/Safe.antt =====
-- outlet/core/worker.go: the flows that a worker forwards and the rows that reach ClickHouse.
use akvorado.Prelude.{ℕ, ◌+◌, ◌≡◌, true, List, arith}
use akvorado.GoMap.{GoMap}
use akvorado.Schema.Columns.{ChGo}
use akvorado.Schema.Batch.Aligned.{IsAligned}
use akvorado.ClickHouse.{Attempt}
use akvorado.ClickHouse.Sends.{rows_sent, AreInserts, succeeds, flush-IsSending, flush_success}
use akvorado.Flow.Stream.{Stream, IsStreaming}
use akvorado.Core.Worker.{Setup, WorkerState, real_worker, shutdown}

-- The rows of the batch and of the insertions are the flows that were forwarded, and every column of
-- an insertion has a row for each of its flows.
pub record IsConserved (rows : ℕ) (x : WorkerState) : Type 0 where
  pub inserts : AreInserts x.inserts
  pub total : rows + rows_sent x.inserts ≡ x.forwarded

-- What a worker keeps from one raw flow to the next.
abbrev pub IsWorking : Stream WorkerState → Type 0
IsWorking = IsStreaming IsConserved

module _ (ch : ChGo) (setup : Setup) where
  -- After a shutdown between two flows, when ClickHouse can be reached, every flow that was forwarded
  -- is a row of an insertion.
  pub shutdown_lem :
      (attempts : List Attempt) (s : Stream WorkerState)
      → IsAligned s.0
      → IsConserved s.0.batch.row_count s.1
      → succeeds attempts ≡ true
      → (rows_sent (shutdown ch setup attempts s).1.inserts ≡ s.1.forwarded)
        × AreInserts (shutdown ch setup attempts s).1.inserts
  unfolding shutdown real_worker
  shutdown_lem attempts s a h e =
      let sent =
        flush-IsSending ch setup.batches attempts (real_worker s)
          (record { aligned = a; inserts = h.inserts; total = h.total }) in
      let (empty, all) = flush_success ch setup.batches attempts (real_worker s) a e in
      (omega (arith, all, h.total), sent.inserts)
