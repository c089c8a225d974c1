-- ===== src/Schema/Batch/Runs.antt =====
-- Any use of a FlowMessage (common/schema/message.go and clickhouse.go), from `NewFlowMessage` on.
use akvorado.Prelude.{
  ℕ, ◌≡◌, refl, Option, some, List, [], ◌∷◌, Returns, Returns-bind, Returns-weaken, ◌>>=◌,
}
use akvorado.Net.{Addr}
use akvorado.Schema.Keys.{array_uint32, array_uint128}
use akvorado.Schema.Columns.{
  ChGo, accepts_uint, accepts_date_time, accepts_string, accepts_ipv6, accepts_array,
}
use akvorado.Schema.Message.{
  Schema, Batch, FlowMessage, new_flow_message, reverse_flow, append_date_time, append_uint,
  append_string, append_ipv6, append_array_uint32, append_array_uint128,
}
use akvorado.Schema.Message.Pending.{IsBuilding}
use akvorado.Schema.Message.Append.{HasType}
use akvorado.Schema.Message.Safe.{
  IsSafe, append_date_time-IsSafe, append_uint-IsSafe, append_string-IsSafe, append_ipv6-IsSafe,
  append_array_uint32-IsSafe, append_array_uint128-IsSafe,
}
use akvorado.Schema.Batch.{undo, finalize}
use akvorado.Schema.Batch.Aligned.{IsAligned, IsAligned-IsBuilding, undo_lem}
use akvorado.Schema.Batch.Finalize.{finalize_lem}
use akvorado.Schema.Batch.Fresh.{IsSchema, new_flow_message-IsAligned}

-- What the program does to a FlowMessage: it writes to columns of the right type, sets fields,
-- reverses the flow, and ends it by `Undo` or by `Finalize`.
pub data Use : Type 0 where
  date_time uint : ℕ → ℕ → Use
  string : ℕ → List ℕ → Use
  address : ℕ → Addr → Use
  uint32s : ℕ → List ℕ → Use
  uint128s : ℕ → List (ℕ × ℕ) → Use
  fields : (FlowMessage → FlowMessage) → Use
  reversal undoing finalizing : Use

-- A use writes to a column of the right type, or sets fields and neither the batch nor the schema.
abbrev pub IsWellTyped : Use → Type 0
IsWellTyped (date_time key v) = HasType accepts_date_time key
IsWellTyped (uint key v) = HasType accepts_uint key
IsWellTyped (string key v) = HasType accepts_string key
IsWellTyped (address key v) = HasType accepts_ipv6 key
IsWellTyped (uint32s key v) = HasType (accepts_array array_uint32) key
IsWellTyped (uint128s key v) = HasType (accepts_array array_uint128) key
IsWellTyped (fields f) =
    (bf : FlowMessage) → ((f bf).batch ≡ bf.batch) × ((f bf).schema ≡ bf.schema)
IsWellTyped _ = Unit {0}

abbrev pub AreWellTyped : List Use → Type 0
AreWellTyped [] = Unit {0}
AreWellTyped (u ∷ uses) = IsWellTyped u × AreWellTyped uses

-- The batch was aligned when the current flow began, and this flow added one row at most to a
-- column.
pub record IsReady (bf : FlowMessage) : Type 0 where
  pub start : FlowMessage
  pub aligned : IsAligned start
  pub building : IsBuilding start.batch bf

pub IsAligned-IsReady : (bf : FlowMessage) → IsAligned bf → IsReady bf
IsAligned-IsReady bf a = record { start = bf; aligned = a; building = IsAligned-IsBuilding bf a }

IsSafe-IsReady :
    {bf : FlowMessage} (r : IsReady bf) (m : Option FlowMessage)
    → IsSafe r.start.batch m
    → Returns IsReady m
IsSafe-IsReady r m h =
    Returns-weaken (IsBuilding r.start.batch) IsReady m
      (λ a b. record { start = r.start; aligned = r.aligned; building = b }) h.returns

pub IsBuilding-fields :
    {base : Batch} (bf bf' : FlowMessage)
    → bf'.batch ≡ bf.batch
    → bf'.schema ≡ bf.schema
    → IsBuilding base bf
    → IsBuilding base bf'
IsBuilding-fields {base} bf bf' p q b = record {
  pending = record { count = rw p b.pending.count; slots = λ k. rw p (b.pending.slots k) };
  typed = record {
    width = rw p b.typed.width;
    types = λ k c. rw p (b.typed.types k c);
    reverse_width = rw q b.typed.reverse_width;
    reverse_types = rw q b.typed.reverse_types;
  };
}

module _ (ch : ChGo) where
  pub do_use : Use → FlowMessage → Option FlowMessage
  do_use (date_time key v) bf = append_date_time ch key v bf
  do_use (uint key v) bf = append_uint ch key v bf
  do_use (string key v) bf = append_string ch key v bf
  do_use (address key v) bf = append_ipv6 ch key v bf
  do_use (uint32s key v) bf = append_array_uint32 ch key v bf
  do_use (uint128s key v) bf = append_array_uint128 ch key v bf
  do_use (fields f) bf = some (f bf)
  do_use reversal bf = some (reverse_flow bf)
  do_use undoing bf = undo bf
  do_use finalizing bf = finalize ch bf

  pub run_uses : List Use → FlowMessage → Option FlowMessage
  run_uses [] bf = some bf
  run_uses (u ∷ uses) bf = do_use u bf >>= run_uses uses

  do_use-IsReady :
      (u : Use) (bf : FlowMessage) → IsWellTyped u → IsReady bf → Returns IsReady (do_use u bf)
  unfolding do_use reverse_flow
  do_use-IsReady (date_time key v) bf h r =
      IsSafe-IsReady r _ (append_date_time-IsSafe ch key bf r.building v h)
  do_use-IsReady (uint key v) bf h r =
      IsSafe-IsReady r _ (append_uint-IsSafe ch key bf r.building v h)
  do_use-IsReady (string key v) bf h r =
      IsSafe-IsReady r _ (append_string-IsSafe ch key bf r.building v h)
  do_use-IsReady (address key v) bf h r =
      IsSafe-IsReady r _ (append_ipv6-IsSafe ch key bf r.building v h)
  do_use-IsReady (uint32s key v) bf h r =
      IsSafe-IsReady r _ (append_array_uint32-IsSafe ch key bf r.building v h)
  do_use-IsReady (uint128s key v) bf h r =
      IsSafe-IsReady r _ (append_array_uint128-IsSafe ch key bf r.building v h)
  do_use-IsReady (fields f) bf h r = record {
    start = r.start;
    aligned = r.aligned;
    building = IsBuilding-fields bf (f bf) (h bf).0 (h bf).1 r.building;
  }
  do_use-IsReady reversal bf h r = record {
    start = r.start;
    aligned = r.aligned;
    building = IsBuilding-fields bf (reverse_flow bf) refl refl r.building;
  }
  do_use-IsReady undoing bf h r =
      Returns-weaken _ IsReady (undo bf) (λ a h. IsAligned-IsReady a h.0)
        (undo_lem r.start bf r.aligned r.building)
  do_use-IsReady finalizing bf h r =
      Returns-weaken _ IsReady (finalize ch bf) (λ a h. IsAligned-IsReady a h.0)
        (finalize_lem ch r.start bf r.aligned r.building)

  run_uses-IsReady :
      (uses : List Use) (bf : FlowMessage)
      → AreWellTyped uses
      → IsReady bf
      → Returns IsReady (run_uses uses bf)
  unfolding run_uses
  run_uses-IsReady [] bf t r = r
  run_uses-IsReady (u ∷ uses) bf t r =
      Returns-bind IsReady IsReady (do_use u bf) (run_uses uses) (do_use-IsReady u bf t.0 r)
        (λ m ready. run_uses-IsReady uses m t.1 ready)

  -- For a schema whose reverse table keeps to the columns and their types, and uses that write to
  -- columns of the right type or to the fields: from a new message on, no sequence of these uses
  -- panics, and each leaves a flow to which it added one row at most per column, on a batch whose
  -- columns were aligned when the flow began.
  pub run_uses_new :
      (s : Schema) (uses : List Use)
      → IsSchema s
      → AreWellTyped uses
      → Returns IsReady (run_uses uses (new_flow_message s))
  run_uses_new s uses h typed =
      run_uses-IsReady uses (new_flow_message s) typed
        (IsAligned-IsReady (new_flow_message s) (new_flow_message-IsAligned s h))
