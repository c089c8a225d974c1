-- ===== src/Schema/Message/Safe.antt =====
-- Sequences of the `Append*` methods of common/schema/clickhouse.go.
use akvorado.Prelude.{
  ℕ, Returns-bind, Returns-weaken, Bool, true, false, Option, some, List, if◌then◌else◌, Returns,
  ◌>>=◌,
}
use akvorado.Schema.Message.Pending.{IsBuilding}
use akvorado.Schema.Message.Append.{
  Appended, HasType, append_date_time-Appended, append_uint-Appended, append_string-Appended,
  append_ipv6-Appended, append_array_uint32-Appended, append_array_uint128-Appended,
}
use akvorado.Net.{Addr}
use akvorado.Schema.Keys.{array_uint32, array_uint128}
use akvorado.Schema.Columns.{
  ChGo, accepts_uint, accepts_date_time, accepts_string, accepts_ipv6, accepts_array,
}
use akvorado.Schema.Message.{
  Batch, FlowMessage, append_date_time, append_uint, append_string, append_ipv6,
  append_array_uint32, append_array_uint128,
}

-- The code does not panic, and leaves a flow that is being built.
pub record IsSafe (base : Batch) (m : Option FlowMessage) : Type 0 where
  pub returns : Returns (IsBuilding base) m

module _ {base : Batch} where
  pub IsSafe-some : (bf : FlowMessage) → IsBuilding base bf → IsSafe base (some bf)
  IsSafe-some bf b = record { returns = b }

  pub IsSafe-bind :
      (m : Option FlowMessage) (f : FlowMessage → Option FlowMessage)
      → IsSafe base m
      → ((bf : FlowMessage) → IsBuilding base bf → IsSafe base (f bf))
      → IsSafe base (m >>= f)
  IsSafe-bind m f h k = record {
    returns =
        Returns-bind (IsBuilding base) (IsBuilding base) m f h.returns (λ bf b. (k bf b).returns);
  }

  pub IsSafe-if :
      (t : Bool) (m n : Option FlowMessage)
      → IsSafe base m
      → IsSafe base n
      → IsSafe base (if t then m else n)
  IsSafe-if true m n h k = h
  IsSafe-if false m n h k = k

  Appended-IsSafe :
      (bf : FlowMessage) (m : Option FlowMessage) → Returns (Appended base bf) m → IsSafe base m
  Appended-IsSafe bf m h = record {
    returns = Returns-weaken (Appended base bf) (IsBuilding base) m (λ a p. p.0) h;
  }

  module _ (ch : ChGo) (key : ℕ) (bf : FlowMessage) (b : IsBuilding base bf) where
    pub append_date_time-IsSafe :
        (v : ℕ) → HasType accepts_date_time key → IsSafe base (append_date_time ch key v bf)
    append_date_time-IsSafe v h = Appended-IsSafe bf _ (append_date_time-Appended ch bf key b v h)

    pub append_uint-IsSafe :
        (v : ℕ) → HasType accepts_uint key → IsSafe base (append_uint ch key v bf)
    append_uint-IsSafe v h = Appended-IsSafe bf _ (append_uint-Appended ch bf key b v h)

    pub append_string-IsSafe :
        (v : List ℕ) → HasType accepts_string key → IsSafe base (append_string ch key v bf)
    append_string-IsSafe v h = Appended-IsSafe bf _ (append_string-Appended ch bf key b v h)

    pub append_ipv6-IsSafe :
        (v : Addr) → HasType accepts_ipv6 key → IsSafe base (append_ipv6 ch key v bf)
    append_ipv6-IsSafe v h = Appended-IsSafe bf _ (append_ipv6-Appended ch bf key b v h)

    pub append_array_uint32-IsSafe :
        (vs : List ℕ)
        → HasType (accepts_array array_uint32) key
        → IsSafe base (append_array_uint32 ch key vs bf)
    append_array_uint32-IsSafe v h =
        Appended-IsSafe bf _ (append_array_uint32-Appended ch bf key b v h)

    pub append_array_uint128-IsSafe :
        (vs : List (ℕ × ℕ))
        → HasType (accepts_array array_uint128) key
        → IsSafe base (append_array_uint128 ch key vs bf)
    append_array_uint128-IsSafe v h =
        Appended-IsSafe bf _ (append_array_uint128-Appended ch bf key b v h)
