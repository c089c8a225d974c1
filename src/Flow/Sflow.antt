-- ===== src/Flow/Sflow.antt =====
-- outlet/flow/decoder/sflow: the samples of a packet become flow messages. The packet is decoded by
-- goflow2, which is a parameter: the records have the fields that are read here.
pub mod Safe
use native.Mathlib.Decide.{ℕ_discrete}
use akvorado.Prelude.{
  ℕ, ◌+◌, ◌-◌, ◌%◌, ◌/◌, ◌^◌, Bool, true, false, not, ◌&&◌, ◌||◌, Option, none, some, List, [], ◌∷◌,
  length, get_elem?, ltb, ◌==◌, if◌then◌else◌, ◌>>=◌,
}
use akvorado.GoMap
use akvorado.GoMap.{GoMap}
use akvorado.Schema.Keys
use akvorado.Schema.Keys.{ColumnGroup, l2, l3l4}
use akvorado.Schema.Columns.{ChGo}
use akvorado.Schema.Message.{FlowMessage, append_uint, append_array_uint32}
use akvorado.Packet.Bytes.{etype_ipv4, etype_ipv6, decode_ip}
use akvorado.Packet.Headers.{Decapsulation, is_none, Parsed, with_length, when}
use akvorado.Packet.Frames.{parse_ethernet, parse_ipv4, parse_ipv6}
use akvorado.Flow.Stream.{Stream, FinalizeFlow, on_message}
use akvorado.Flow.Fill.{mac_to_uint64, append_uints}

-- `SampledIPv4`, and `SampledIPv6` with the priority as its last field.
pub record SampledIp : Type 0 where
  pub src_ip : List ℕ
  pub dst_ip : List ℕ
  pub length : ℕ
  pub protocol : ℕ
  pub src_port : ℕ
  pub dst_port : ℕ
  pub tos : ℕ

-- `ExtendedGateway`
pub record ExtendedGateway : Type 0 where
  pub next_hop : List ℕ
  pub as_number : ℕ
  pub src_as : ℕ
  pub as_path : List ℕ
  pub communities : List ℕ

-- The data of a flow record. A sampled header has a protocol and the bytes of a packet, a sampled
-- Ethernet frame its length and the two addresses, the data of a switch two VLANs, the data of a
-- router two prefix lengths and the next hop.
pub data FlowRecord : Type 0 where
  sampled_header : ℕ → List ℕ → FlowRecord
  sampled_ipv4 sampled_ipv6 : SampledIp → FlowRecord
  sampled_ethernet : ℕ → List ℕ → List ℕ → FlowRecord
  extended_switch : ℕ → ℕ → FlowRecord
  extended_router : ℕ → ℕ → List ℕ → FlowRecord
  extended_gateway : ExtendedGateway → FlowRecord
  other_record : FlowRecord

-- A sample: the rate, the input and the output interface, the records. The interfaces of an expanded
-- one come with their formats. `other_sample` stands for the samples of counters and of drops.
pub data Sample : Type 0 where
  flow_sample : ℕ → ℕ → ℕ → List FlowRecord → Sample
  expanded_flow_sample : ℕ → ℕ → ℕ → ℕ → ℕ → List FlowRecord → Sample
  other_sample : Sample

-- `sflow.Packet`
pub record Packet : Type 0 where
  pub agent_ip : List ℕ
  pub samples : List Sample

abbrev pub interface_local : ℕ
interface_local = 0x3fffffff

-- `sflowDiscardReasonToForwardingStatus`
abbrev pub discard_reasons : GoMap ℕ ℕ
discard_reasons =
    (0, 131)
    ∷ (1, 131)
    ∷ (2, 131)
    ∷ (3, 131)
    ∷ (4, 133)
    ∷ (5, 131)
    ∷ (6, 131)
    ∷ (7, 131)
    ∷ (8, 132)
    ∷ (9, 129)
    ∷ (10, 129)
    ∷ (257, 137)
    ∷ (258, 130)
    ∷ (259, 143)
    ∷ (260, 139)
    ∷ (261, 138)
    ∷ (262, 135)
    ∷ (263, 131)
    ∷ (269, 130)
    ∷ (302, 140)
    ∷ []

-- `cmp.Or` of the status of a reason, 0 where there is none, and 128.
unfoldable pub discard_status : ℕ → ℕ
discard_status reason = elim (GoMap.get ℕ_discrete reason discard_reasons) [
  | none ↦ 128
  | some status ↦ if status == 0 then 128 else status
]

-- The switches over the formats of the interfaces: 0 is an index, 1 a discarded packet. The status is
-- that of the output.
unfoldable pub set_interfaces : ℕ → ℕ → ℕ → ℕ → FlowMessage → FlowMessage
set_interfaces in_format in_value out_format out_value bf =
    let m = if in_format == 0 then record bf { in_if = in_value } else bf in
    if out_format == 0 then record m { out_if = out_value } else m

unfoldable pub output_status : ℕ → ℕ → ℕ
unfolding discard_status
output_status out_format out_value = if out_format == 1 then discard_status out_value else 0

-- The beginning of a sample: its records, the forwarding status and the message. The format of an
-- interface that is not expanded is in its two upper bits.
unfoldable pub begin_sample : Sample → FlowMessage → List FlowRecord × ℕ × FlowMessage
unfolding set_interfaces output_status
begin_sample (flow_sample rate input output records) bf = (
  records,
  output_status (output / 2 ^ 30) (output % 2 ^ 30),
  set_interfaces (input / 2 ^ 30) input (output / 2 ^ 30) output
      (record bf { sampling_rate = rate }),
)
begin_sample (expanded_flow_sample rate in_format in_value out_format out_value records) bf = (
  records,
  output_status out_format out_value,
  set_interfaces in_format in_value out_format out_value (record bf { sampling_rate = rate }),
)
begin_sample other_sample bf = ([], 0, bf)

unfoldable pub local_interfaces : FlowMessage → FlowMessage
local_interfaces bf = record bf {
  in_if = if bf.in_if == interface_local then 0 else bf.in_if;
  out_if = if bf.out_if == interface_local then 0 else bf.out_if;
}

-- The first loop over the records: which kinds are there.
pub record Kinds : Type 0 where
  pub ipv4 : Bool
  pub ipv6 : Bool
  pub ethernet : Bool
  pub switch : Bool

unfoldable pub kinds : List FlowRecord → Kinds
kinds [] = record { ipv4 = false; ipv6 = false; ethernet = false; switch = false }
kinds (sampled_ipv4 d ∷ records) = record (kinds records) { ipv4 = true }
kinds (sampled_ipv6 d ∷ records) = record (kinds records) { ipv6 = true }
kinds (sampled_ethernet n s d ∷ records) = record (kinds records) { ethernet = true }
kinds (extended_switch s d ∷ records) = record (kinds records) { switch = true }
kinds (_ ∷ records) = kinds records

module _ (ch : ChGo) (is_disabled : ColumnGroup → Bool) (decap : Decapsulation) where
  -- `parseSampledHeader`
  unfoldable pub parse_sampled_header : ℕ → List ℕ → FlowMessage → Parsed
  parse_sampled_header protocol bytes bf =
      if protocol == 1
      then parse_ethernet ch is_disabled decap bf bytes
      else if protocol == 11
      then parse_ipv4 ch is_disabled decap bf bytes
      else if protocol == 12
      then parse_ipv6 ch is_disabled decap bf bytes
      else some (0, bf)

  -- Whether a sampled header is to be parsed.
  unfoldable pub needs_header : Kinds → Bool
  needs_header k =
      not (k.ipv4 || k.ipv6)
      || not (is_disabled l2 || (k.ethernet && k.switch))
      || not (is_disabled l3l4)
      || not (is_none decap)

  unfoldable pub sampled_ip : ℕ → SampledIp → FlowMessage → Parsed
  sampled_ip etype d bf = with_length d.length (
      append_uints ch
        ((Keys.proto, d.protocol)
          ∷ (Keys.src_port, d.src_port)
          ∷ (Keys.dst_port, d.dst_port)
          ∷ (Keys.etype, etype)
          ∷ (Keys.ip_tos, d.tos)
          ∷ [])
        (record bf { src_addr = decode_ip d.src_ip; dst_addr = decode_ip d.dst_ip }))

  unfoldable pub set_switch : ℕ → ℕ → FlowMessage → FlowMessage
  set_switch src dst bf = record bf {
    src_vlan = if ltb src 4096 then src else bf.src_vlan;
    dst_vlan = if ltb dst 4096 then dst else bf.dst_vlan;
  }

  -- The fields of a gateway, without its arrays.
  unfoldable pub set_gateway : ExtendedGateway → FlowMessage → FlowMessage
  set_gateway d bf = record bf {
    next_hop = decode_ip d.next_hop;
    src_as = if ltb 0 d.src_as then d.src_as else d.as_number;
    dst_as = d.as_number;
  }

  -- The AS path of a gateway ends at the destination AS.
  unfoldable pub set_as_path : ExtendedGateway → FlowMessage → Option FlowMessage
  set_as_path d bf =
      if ltb 0 (length d.as_path)
      then (do
        last ← get_elem? d.as_path (length d.as_path - 1)
        append_array_uint32 ch Keys.dst_as_path d.as_path (record bf { dst_as = last }))
      else some bf

  -- One record without decapsulation: the layer-3 length and the message. The length of a frame is
  -- taken when there is none yet; the subtraction is one of uint64.
  unfoldable pub plain_record : FlowRecord → ℕ → FlowMessage → Parsed
  unfolding sampled_ip set_switch set_gateway set_as_path mac_to_uint64
  plain_record (sampled_ipv4 d) l3length bf = sampled_ip etype_ipv4 d bf
  plain_record (sampled_ipv6 d) l3length bf = sampled_ip etype_ipv6 d bf
  plain_record (sampled_ethernet n src dst) l3length bf =
      with_length (if l3length == 0 then (n + 2 ^ 64 - 16) % 2 ^ 64 else l3length) (
        when (not (is_disabled l2))
          (append_uints ch
            ((Keys.src_mac, mac_to_uint64 src) ∷ (Keys.dst_mac, mac_to_uint64 dst) ∷ []))
          bf)
  plain_record (extended_switch src dst) l3length bf =
      some (l3length, if not (is_disabled l2) then set_switch src dst bf else bf)
  plain_record (extended_router src dst hop) l3length bf = some (
    l3length,
    record bf { src_net_mask = src % 2 ^ 8; dst_net_mask = dst % 2 ^ 8; next_hop = decode_ip hop },
  )
  plain_record (extended_gateway d) l3length bf = with_length l3length (do
    m ← set_as_path d (set_gateway d bf)
    when (ltb 0 (length d.communities)) (append_array_uint32 ch Keys.dst_communities d.communities)
        m)
  plain_record _ l3length bf = some (l3length, bf)

  -- One record of the second loop.
  unfoldable pub add_record : Kinds → FlowRecord → ℕ → FlowMessage → Parsed
  unfolding needs_header parse_sampled_header
  add_record k (sampled_header protocol bytes) l3length bf =
      if needs_header k
      then (do
        p ← parse_sampled_header protocol bytes bf
        some (if ltb 0 p.0 then p.0 else l3length, p.1))
      else some (l3length, bf)
  add_record k r l3length bf =
      if is_none decap then plain_record r l3length bf else some (l3length, bf)

  unfoldable pub add_records : Kinds → List FlowRecord → ℕ → FlowMessage → Parsed
  add_records k [] l3length bf = some (l3length, bf)
  add_records k (r ∷ records) l3length bf = do
    p ← add_record k r l3length bf
    add_records k records p.0 p.1

  -- The rest of a sample that has a length, or that needs none.
  unfoldable pub end_sample : List ℕ → ℕ → ℕ → FlowMessage → Option FlowMessage
  end_sample agent status l3length bf = do
    m ← when (ltb 0 l3length) (append_uint ch Keys.bytes l3length) bf
    append_uints ch ((Keys.packets, 1) ∷ (Keys.forwarding_status, status) ∷ [])
        (record m { exporter_address = decode_ip agent })

  module _ {X : Type 0} (finalize : FinalizeFlow X) where
    -- A packet that is not encapsulated is left as it is, when decapsulation is wanted.
    unfoldable pub decode_sample : List ℕ → Sample → FinalizeFlow X
    unfolding begin_sample local_interfaces kinds end_sample
    decode_sample agent sample (bf, x) = do
      let (records, status, m) = begin_sample sample bf
      p ← add_records (kinds records) records 0 (local_interfaces m)
      if p.0 == 0 && not (is_none decap)
          then some (p.1, x)
          else (on_message (end_sample agent status p.0) (p.1, x) >>= finalize)

    unfoldable pub decode_samples : List ℕ → List Sample → FinalizeFlow X
    decode_samples agent [] s = some s
    decode_samples agent (sample ∷ samples) s =
        decode_sample agent sample s >>= decode_samples agent samples

    -- The callback that sets the time, a uint32.
    unfoldable pub at_time : ℕ → FinalizeFlow X
    at_time ts (bf, x) = finalize (record bf { time_received = ts % 2 ^ 32 }, x)

  -- `Decode`, at the time when the flow was received: whether there was no error, and what the samples
  -- left.
  unfoldable pub decode :
      {X : Type 0}
      → FinalizeFlow X
      → (List ℕ → Option Packet)
      → ℕ
      → List ℕ
      → Stream X
      → Option (Bool × Stream X)
  unfolding at_time
  decode finalize decode_message ts payload s = elim (decode_message payload) [
    | none ↦ some (false, s)
    | some packet ↦ do
      s' ← decode_samples (at_time finalize ts) packet.agent_ip packet.samples s
      some (true, s')
  ]
