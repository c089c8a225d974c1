-- ===== src/Flow/Netflow/Record.antt =====
-- `decodeRecord` and `decodeNFv5` of outlet/flow/decoder/netflow/decode.go: a record becomes a flow, or
-- two of them when it has fields of the reverse direction (RFC 5103).
use akvorado.Packet.Bytes.{byte}
use akvorado.Prelude.{
  ◌>>=◌, ℕ, ◌/◌, ◌%◌, ◌^◌, Bool, false, not, ◌&&◌, ◌||◌, Option, none, some, List, [], ◌∷◌, length,
  ◌==◌, if◌then◌else◌, ◌>>=◌,
}
use akvorado.Schema.Keys
use akvorado.Schema.Keys.{ColumnGroup, l2, nat, l3l4}
use akvorado.Schema.Columns.{ChGo}
use akvorado.Schema.Message.{FlowMessage, append_uint, append_array_uint32, reverse_flow}
use akvorado.Schema.Batch.{undo}
use akvorado.Packet.Headers.{Decapsulation, is_none, when}
use akvorado.Flow.Stream.{FinalizeFlow, on_message}
use akvorado.Flow.Fill.{append_uints}
use akvorado.Flow.Netflow.{DataField, decode_u_number}
use akvorado.Flow.Netflow.Fields.{Context, Locals, no_locals, field_of}
use akvorado.Flow.Netflow.Assign.{add_field}

-- A bitset of github.com/bits-and-blooms/bitset, by the operations that are used.
pub record BitSet (B : Type 0) : Type 0 where
  pub new : ℕ → B
  pub set : ℕ → B → B
  pub test : ℕ → B → Bool

pub data Direction : Type 0 where
  direction_forward direction_reverse : Direction

abbrev pub reverse_pen : ℕ
reverse_pen = 29305

abbrev pub juniper_pen : ℕ
juniper_pen = 2636

-- What is to be done with a field: it counts, it is noted as one of the reverse direction, it is the
-- reason of a Juniper exception, or it is left out.
pub data Use : Type 0 where
  counts notes juniper skips : Use

module _ {B : Type 0} (bits : BitSet B) where
  -- `reversePresent.Test`
  unfoldable pub is_present : ℕ → Option B → Bool
  is_present type_id none = false
  is_present type_id (some b) = bits.test type_id b

  -- `reversePresent.Set`
  unfoldable pub note : ℕ → Option B → Option B
  note type_id none = some (bits.set type_id (bits.new type_id))
  note type_id (some b) = some (bits.set type_id b)

  unfoldable pub use_of : Direction → DataField → Option B → Use
  unfolding is_present
  use_of direction_forward f present =
      if not f.pen_provided
      then counts
      else if f.pen == reverse_pen
      then notes
      else if f.pen == juniper_pen
      then juniper
      else skips
  use_of direction_reverse f present =
      if not f.pen_provided
      then if is_present f.type_id present then skips else counts
      else if f.pen == reverse_pen
      then counts
      else if f.pen == juniper_pen
      then juniper
      else skips

-- The packets of the reverse direction are none.
unfoldable pub is_empty_reverse : Direction → ℕ → List ℕ → Bool
is_empty_reverse direction_forward type_id v = false
is_empty_reverse direction_reverse type_id v =
    (type_id == 2 || type_id == 24) && decode_u_number v == 0

-- After the fields of a direction: the message was taken back, or the fields were set.
pub data Scan (B : Type 0) : Type 0 where
  empty : FlowMessage → Scan B
  scanned : Option B → Locals × FlowMessage → Scan B

-- The ICMP type and code. Without a field for them they are in the destination port, unless the
-- source port is used.
unfoldable pub icmp_of : Locals → ℕ × ℕ
icmp_of l =
    if not l.found_icmp_type_code && l.src_port == 0
    then (l.dst_port / 256 % 256, l.dst_port % 256)
    else (l.icmp_type, l.icmp_code)

module _ (ch : ChGo) (is_disabled : ColumnGroup → Bool) (decap : Decapsulation) where
  -- `commonPropertiesId` of Juniper, whose first bits tell that it is a forwarding exception.
  unfoldable pub juniper_exception : ℕ → List ℕ → FlowMessage → Option FlowMessage
  juniper_exception type_id v bf =
      if type_id == 137 && length v == 2
      then (byte v 0 >>= λ first.
          (if first / 4 == 2
            then append_uint ch Keys.forwarding_status
                (if decode_u_number v % 2 ^ 10 == 0 then 64 else 128) bf
            else some bf))
      else some bf

  module _ {B : Type 0} (bits : BitSet B) (c : Context) (dir : Direction) where
    -- One field with a value.
    unfoldable pub scan_field :
        DataField → List ℕ → Option B → Locals × FlowMessage → Option (Scan B)
    unfolding use_of note juniper_exception is_empty_reverse
    scan_field f v present s = elim (use_of bits dir f present) [
      | skips ↦ some (scanned present s)
      | notes ↦ some (scanned (note bits f.type_id present) s)
      | juniper ↦ do m ← juniper_exception f.type_id v s.1; some (scanned present (s.0, m))
      | counts ↦ if is_empty_reverse dir f.type_id v then (do m ← undo s.1; some (empty m)) else (do
        s' ← add_field ch is_disabled decap c f.type_id (field_of f.type_id) v s
        some (scanned present s'))
    ]

    -- The loop over the fields.
    unfoldable pub scan : List DataField → Option B → Locals × FlowMessage → Option (Scan B)
    scan [] present s = some (scanned present s)
    scan (f ∷ fields) present s = elim f.value [
      | none ↦ scan fields present s
      | some v ↦ scan_field f v present s >>= λ (r : Scan B). elim r [
        | empty m ↦ some (empty m)
        | scanned present' s' ↦ scan fields present' s'
      ]
    ]

  -- The columns that depend on several fields.
  unfoldable pub end_direction : Context → Locals → FlowMessage → Option FlowMessage
  unfolding icmp_of
  end_direction c l bf = do
    m1 ←
        when (not (is_disabled l3l4) && (l.proto == 1 || l.proto == 58))
          (append_uints ch (
            if l.proto == 1
            then (Keys.icmpv4_type, (icmp_of l).0) ∷ (Keys.icmpv4_code, (icmp_of l).1) ∷ []
            else (Keys.icmpv6_type, (icmp_of l).0) ∷ (Keys.icmpv6_code, (icmp_of l).1) ∷ []))
          bf
    m2 ← append_uint ch Keys.etype l.etype m1
    m3 ← append_array_uint32 ch Keys.mpls_labels l.mpls_labels m2
    some (if m3.sampling_rate == 0 then record m3 { sampling_rate = c.sampling_rate 0 } else m3)

  module _ {X : Type 0} (finalize : FinalizeFlow X) where
    -- `localFinalize`
    unfoldable pub local_finalize : Bool → FinalizeFlow X
    local_finalize decap_ok s =
        if not (is_none decap) && not decap_ok then on_message undo s else finalize s

    module _ {B : Type 0} (bits : BitSet B) (c : Context) (fields : List DataField) where
      -- The second direction, on the message that was reversed.
      unfoldable pub reverse_direction : Option B → FinalizeFlow X
      unfolding scan end_direction local_finalize
      reverse_direction present (bf, x) =
          scan bits c direction_reverse fields present (no_locals, bf) >>= λ (r : Scan B). elim r [
            | empty m ↦ some (m, x)
            | scanned present' s ↦
                end_direction c s.0 s.1 >>= λ m. local_finalize s.0.decap_ok (reverse_flow m, x)
          ]

      -- After the first direction: the second one, when there are fields for it.
      unfoldable pub other_direction : Option B → FinalizeFlow X
      unfolding reverse_direction
      other_direction none s = some s
      other_direction (some b) (bf, x) = reverse_direction (some b) (reverse_flow bf, x)

      unfoldable pub decode_record : FinalizeFlow X
      unfolding scan end_direction local_finalize other_direction
      decode_record (bf, x) =
          scan bits c direction_forward fields none (no_locals, bf) >>= λ (r : Scan B). elim r [
            | empty m ↦ some (m, x)
            | scanned present s ↦ end_direction c s.0 s.1 >>= λ m.
                local_finalize s.0.decap_ok (m, x) >>= other_direction present
          ]
