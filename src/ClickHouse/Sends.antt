-- ===== src/ClickHouse/Sends.antt =====
-- The rows of the batches that outlet/clickhouse/worker.go sends.
use akvorado.Prelude.{
  ◌≤◌, Option, none, subst, ℕ, ◌+◌, ◌<◌, ◌≡◌, refl, ◌⊎◌, inl, inr, Bool, true, false, ◌||◌, some,
  List, [], ◌∷◌, get_elem?, leb, ◌==◌, arith, Bool-cases, Returns, Returns-bind,
}
use akvorado.Schema.Columns.{Column, ChGo}
use akvorado.Schema.Columns.Undo.{IsColumn, HasRows}
use akvorado.Schema.Message.{FlowMessage}
use akvorado.Schema.Message.Pending.{IsBuilding}
use akvorado.Schema.Batch.{finalize}
use akvorado.Schema.Batch.Aligned.{IsAligned, IsAligned-IsBuilding}
use akvorado.Schema.Batch.Finalize.{finalize_lem}
use akvorado.Schema.Batch.Fresh.{clear-IsAligned}
use akvorado.Schema.Batch.Runs.{IsReady}
use akvorado.ClickHouse.{
  WorkerStatus, overloaded, underloaded, steady, idle, BatchConfiguration, Attempt, cannot_connect,
  cannot_send, success, Insert, RealWorker, Moment, waited, retry, flush, sent_status, send,
  finalize_and_send,
}

unfoldable pub rows_sent : List Insert → ℕ
rows_sent [] = 0
rows_sent (i ∷ inserts) = i.flow_count + rows_sent inserts

-- Every column of an insertion has as many rows as it has flows.
abbrev pub IsInsert : Insert → Type 0
IsInsert i =
    (k : ℕ) (c : Column)
    → get_elem? i.columns k ≡ some (some c)
    → HasRows i.flow_count c × IsColumn c

abbrev pub AreInserts : List Insert → Type 0
AreInserts [] = Unit {0}
AreInserts (i ∷ inserts) = IsInsert i × AreInserts inserts

-- The rows of the batch, when it is between two flows, and of the insertions are `rows` together.
pub record IsSending (rows : ℕ) (w : RealWorker) : Type 0 where
  pub aligned : IsAligned w.bf
  pub inserts : AreInserts w.inserts
  pub total : w.bf.batch.row_count + rows_sent w.inserts ≡ rows

-- The same within a flow: the rows of the batch are those at the start of the flow.
pub record IsFilling (rows : ℕ) (w : RealWorker) : Type 0 where
  pub ready : IsReady w.bf
  pub inserts : AreInserts w.inserts
  pub total : ready.start.batch.row_count + rows_sent w.inserts ≡ rows

pub IsSending-IsFilling : {rows : ℕ} (w : RealWorker) → IsSending rows w → IsFilling rows w
IsSending-IsFilling w s = record {
  ready = record {
    start = w.bf;
    aligned = s.aligned;
    building = IsAligned-IsBuilding w.bf s.aligned;
  };
  inserts = s.inserts;
  total = s.total;
}

-- Some attempt is a success.
unfoldable pub succeeds : List Attempt → Bool
succeeds [] = false
succeeds (success ∷ attempts) = true
succeeds (_ ∷ attempts) = succeeds attempts

module _ (ch : ChGo) where
  retry-IsSending :
      {rows : ℕ} (use_async : Bool) (attempts : List Attempt) (w : RealWorker)
      → IsSending rows w
      → IsSending rows (retry ch use_async attempts w)
  unfolding retry rows_sent
  retry-IsSending use_async [] w s = s
  retry-IsSending use_async (cannot_connect ∷ attempts) w s = retry-IsSending use_async attempts w s
  retry-IsSending use_async (cannot_send ∷ attempts) w s = retry-IsSending use_async attempts w s
  retry-IsSending use_async (success ∷ attempts) w s =
      let (aligned, empty) = clear-IsAligned ch w.bf s.aligned in
      record {
        aligned = aligned;
        inserts = (s.aligned.rows, s.inserts);
        total = omega (arith, empty, s.total);
      }

  retry_success :
      (use_async : Bool) (attempts : List Attempt) (w : RealWorker)
      → IsAligned w.bf
      → succeeds attempts ≡ true
      → ((retry ch use_async attempts w).bf.batch.row_count ≡ 0)
        × (rows_sent (retry ch use_async attempts w).inserts
            ≡ w.bf.batch.row_count + rows_sent w.inserts)
  unfolding retry succeeds rows_sent
  retry_success use_async [] w a h = cc
  retry_success use_async (cannot_connect ∷ attempts) w a h = retry_success use_async attempts w a h
  retry_success use_async (cannot_send ∷ attempts) w a h = retry_success use_async attempts w a h
  retry_success use_async (success ∷ attempts) w a h = ((clear-IsAligned ch w.bf a).1, refl)

  module _ (config : BatchConfiguration) where
    pub flush-IsSending :
        {rows : ℕ} (attempts : List Attempt) (w : RealWorker)
        → IsSending rows w
        → IsSending rows (flush ch config attempts w)
    unfolding flush
    flush-IsSending attempts w s = elim (Bool-cases (w.bf.batch.row_count == 0)) [
      | inl e ↦ rw e s
      | inr e ↦ rw e (retry-IsSending _ attempts w s)
    ]

    -- A flush that succeeds leaves no row behind.
    pub flush_success :
        (attempts : List Attempt) (w : RealWorker)
        → IsAligned w.bf
        → succeeds attempts ≡ true
        → ((flush ch config attempts w).bf.batch.row_count ≡ 0)
          × (rows_sent (flush ch config attempts w).inserts
              ≡ w.bf.batch.row_count + rows_sent w.inserts)
    unfolding flush
    flush_success attempts w a h = elim (Bool-cases (w.bf.batch.row_count == 0)) [
      | inl e ↦ rw e (ground arith, ground arith)
      | inr e ↦ rw e (retry_success _ attempts w a h)
    ]

    send-IsSending :
        {rows : ℕ} (m : Moment) (w : RealWorker)
        → IsSending rows w
        → IsSending rows (send ch config m w).0
    unfolding send
    send-IsSending m w s =
        elim (Bool-cases (
          leb config.maximum_batch_size w.bf.batch.row_count
          || waited config.maximum_wait_time m.now w.last)) [
            | inl e ↦ rw e (
                let f = flush-IsSending m.attempts w s in
                record { aligned = f.aligned; inserts = f.inserts; total = f.total })
            | inr e ↦ rw e s
          ]

    finalized-IsSending :
        {rows : ℕ} (w : RealWorker) (f : IsFilling rows w) (bf : FlowMessage)
        → IsAligned bf
        → bf.batch.row_count ≡ f.ready.start.batch.row_count + 1
        → IsSending (rows + 1) (record w { bf = bf })
    finalized-IsSending w f bf a e = record {
      aligned = a;
      inserts = f.inserts;
      total = omega (arith, e, f.total);
    }

    pub finalize_and_send-IsSending :
        {rows : ℕ} (m : Moment) (w : RealWorker)
        → IsFilling rows w
        → Returns (λ r. IsSending (rows + 1) r.0) (finalize_and_send ch config m w)
    unfolding finalize_and_send
    finalize_and_send-IsSending {rows} m w f =
        Returns-bind _ (λ r. IsSending (rows + 1) r.0) (finalize ch w.bf) _
          (finalize_lem ch f.ready.start w.bf f.ready.aligned f.ready.building)
          (λ bf h. send-IsSending m (record w { bf = bf }) (finalized-IsSending w f bf h.0 h.1))

    -- The maximum time has passed since the last send, or there was none.
    abbrev pub IsLate : ℕ → Option ℕ → Type 0
    IsLate now none = Unit {0}
    IsLate now (some last) = config.maximum_wait_time + last ≤ now

    abbrev pub IsRecent : ℕ → Option ℕ → Type 0
    IsRecent now none = ⊥
    IsRecent now (some last) = now < config.maximum_wait_time + last

    -- The status that tells the load of the batch that was sent.
    abbrev pub IsStatus : ℕ → WorkerStatus → Type 0
    IsStatus n status =
        (config.maximum_batch_size ≤ n × (status ≡ overloaded))
        ⊎ (n < config.maximum_batch_size × n ≤ config.minimum_batch_size × (status ≡ underloaded))
        ⊎ (n < config.maximum_batch_size × config.minimum_batch_size < n × (status ≡ steady))

    -- The batch that stays.
    abbrev pub IsKept : Moment → RealWorker → ℕ → RealWorker × WorkerStatus → Type 0
    IsKept m w n r =
        n < config.maximum_batch_size
        × IsRecent m.now w.last
        × (r.1 ≡ idle)
        × (r.0.inserts ≡ w.inserts)
        × (r.0.bf.batch.row_count ≡ n)

    -- The batch that is sent.
    abbrev pub IsSent : Moment → RealWorker → ℕ → RealWorker × WorkerStatus → Type 0
    IsSent m w n r =
        (config.maximum_batch_size ≤ n ⊎ IsLate m.now w.last)
        × (r.0.bf.batch.row_count ≡ 0)
        × (rows_sent r.0.inserts ≡ n + rows_sent w.inserts)
        × (r.0.last ≡ some m.after)
        × IsStatus n r.1

    sent_status-IsStatus : (n : ℕ) → IsStatus n (sent_status config n)
    unfolding sent_status
    sent_status-IsStatus n = elim (Bool-cases (leb config.maximum_batch_size n)) [
      | inl e ↦ rw e (inl (ground (arith, e), refl))
      | inr e ↦ rw e (elim (Bool-cases (leb n config.minimum_batch_size)) [
        | inl f ↦ rw f (inr (inl (ground (arith, e), ground (arith, f), refl)))
        | inr f ↦ rw f (inr (inr (ground (arith, e), ground (arith, f), refl)))
      ])
    ]

    waited-IsLate :
        (now : ℕ) (last : Option ℕ)
        → waited config.maximum_wait_time now last ≡ true
        → IsLate now last
    unfolding waited
    waited-IsLate now none e = tt
    waited-IsLate now (some last) e = ground (arith, e)

    waited-IsRecent :
        (now : ℕ) (last : Option ℕ)
        → waited config.maximum_wait_time now last ≡ false
        → IsRecent now last
    unfolding waited
    waited-IsRecent now none e = cc
    waited-IsRecent now (some last) e = ground (arith, e)

    due_cases :
        (m : Moment) (w : RealWorker) (n : ℕ)
        → (leb config.maximum_batch_size n || waited config.maximum_wait_time m.now w.last) ≡ true
        → config.maximum_batch_size ≤ n ⊎ IsLate m.now w.last
    due_cases m w n e = elim (Bool-cases (leb config.maximum_batch_size n)) [
      | inl f ↦ inl (ground (arith, f))
      | inr f ↦ inr (waited-IsLate m.now w.last (ground (arith, e, f)))
    ]

    -- One flow more, when ClickHouse can be reached, in a batch that then has `n` rows. Below the
    -- maximum, and when the maximum time has not passed since the last send, the flow stays in the
    -- batch, nothing is sent and the status is idle. Else the whole batch is sent, it is empty
    -- afterwards, and the time of the last send is that of its end. The status is then overloaded from
    -- the maximum on, underloaded up to the minimum, and steady between them.
    pub finalize_and_send_lem :
        (m : Moment) (w : RealWorker) (start : FlowMessage)
        → IsAligned start
        → IsBuilding start.batch w.bf
        → succeeds m.attempts ≡ true
        → Returns
            (λ r.
              IsKept m w (start.batch.row_count + 1) r ⊎ IsSent m w (start.batch.row_count + 1) r)
            (finalize_and_send ch config m w)
    unfolding finalize_and_send send
    finalize_and_send_lem m w start a b h =
        Returns-bind _ _ (finalize ch w.bf) _ (finalize_lem ch start w.bf a b) (λ bf h'.
          elim (Bool-cases (
            leb config.maximum_batch_size bf.batch.row_count
            || waited config.maximum_wait_time m.now w.last)) [
              | inl e ↦
                  let (empty, all) = flush_success m.attempts (record w { bf = bf }) h'.0 h in
                  let due =
                    subst
                      (λ n.
                        (leb config.maximum_batch_size n
                          || waited config.maximum_wait_time m.now w.last)
                        ≡ true)
                      h'.1 e in
                  rw e (
                    inr (
                      due_cases m w _ due,
                      empty,
                      omega (arith, all, h'.1),
                      refl,
                      subst (λ n. IsStatus n (sent_status config bf.batch.row_count)) h'.1
                          (sent_status-IsStatus bf.batch.row_count),
                    ))
              | inr e ↦ rw e (
                  inl (
                    ground (arith, e, h'.1),
                    waited-IsRecent m.now w.last (ground (arith, e)),
                    refl,
                    refl,
                    h'.1,
                  ))
            ])
