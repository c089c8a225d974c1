-- ===== src/Flow/Fill.antt =====
-- Statements that the decoders of outlet/flow/decoder have in common: several `AppendUint` in a row,
-- and common/helpers/ether.go.
use akvorado.Prelude.{ℕ, Option, some, List, [], ◌∷◌, length, ◌==◌, if◌then◌else◌, ◌>>=◌}
use akvorado.Schema.Columns.{ChGo, accepts_uint}
use akvorado.Schema.Message.{Batch, FlowMessage, append_uint}
use akvorado.Schema.Message.Pending.{IsBuilding}
use akvorado.Schema.Message.Append.{HasType}
use akvorado.Schema.Message.Safe.{IsSafe, IsSafe-some, IsSafe-bind, append_uint-IsSafe}
use akvorado.Packet.Bytes.{big_endian}

-- `MACToUint64`
unfoldable pub mac_to_uint64 : List ℕ → ℕ
unfolding big_endian
mac_to_uint64 mac = if length mac == 6 then big_endian mac else 0

-- All the keys are those of columns of numbers.
abbrev pub AreNumbers : List (ℕ × ℕ) → Type 0
AreNumbers [] = Unit {0}
AreNumbers ((key, v) ∷ fields) = HasType accepts_uint key × AreNumbers fields

module _ (ch : ChGo) where
  -- `AppendUint` for each key and value.
  unfoldable pub append_uints : List (ℕ × ℕ) → FlowMessage → Option FlowMessage
  append_uints [] bf = some bf
  append_uints ((key, v) ∷ fields) bf = append_uint ch key v bf >>= append_uints fields

  pub append_uints-IsSafe :
      {base : Batch} (fields : List (ℕ × ℕ)) (bf : FlowMessage)
      → AreNumbers fields
      → IsBuilding base bf
      → IsSafe base (append_uints fields bf)
  unfolding append_uints
  append_uints-IsSafe [] bf h b = IsSafe-some bf b
  append_uints-IsSafe ((key, v) ∷ fields) bf h b =
      IsSafe-bind _ _ (append_uint-IsSafe ch key bf b v h.0)
        (λ m c. append_uints-IsSafe fields m h.1 c)
