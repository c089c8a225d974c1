-- ===== src/Packet/Headers.antt =====
-- The layer-3 and layer-4 headers: `ParseIPv4`, `ParseIPv6` and `ParseL4` of
-- outlet/flow/decoder/helpers.go.
pub mod Parsed
pub mod Safe
pub mod Outer
use akvorado.Prelude.{
  ℕ, ◌+◌, ◌*◌, ◌/◌, ◌%◌, ◌^◌, Bool, true, false, not, ◌&&◌, ◌||◌, Option, none, some, List, [],
  length, ltb, leb, ◌==◌, if◌then◌else◌, ◌>>=◌,
}
use akvorado.Schema.Keys
use akvorado.Schema.Keys.{ColumnGroup, l3l4}
use akvorado.Schema.Columns.{ChGo}
use akvorado.Schema.Message.{FlowMessage, append_uint}
use akvorado.Packet.Bytes.{
  etype_ipv4, etype_ipv6, proto_icmpv4, proto_tcp, proto_udp, proto_icmpv6, slice, slice_from, byte,
  uint16, uint32, decode_ip,
}

-- `pb.RawFlow_DecapsulationProtocol`
pub data Decapsulation : Type 0 where
  decap_none decap_vxlan decap_gre decap_ipip decap_srv6 : Decapsulation

abbrev pub is_none : Decapsulation → Bool
is_none decap_none = true
is_none _ = false

-- What a parser returns: the layer-3 length, and the message that it filled.
abbrev pub Parsed : Type 0
Parsed = Option (ℕ × FlowMessage)

-- The parser of a layer-4 packet of a protocol, or of a frame.
abbrev pub L4Parser : Type 0
L4Parser = FlowMessage → List ℕ → ℕ → Parsed

abbrev pub FrameParser : Type 0
FrameParser = FlowMessage → List ℕ → Parsed

-- The message as the whole result.
abbrev pub with_length : ℕ → Option FlowMessage → Parsed
with_length n none = none
with_length n (some bf) = some (n, bf)

-- `if cond { ... }` around statements that fill the message.
abbrev pub when : Bool → (FlowMessage → Option FlowMessage) → FlowMessage → Option FlowMessage
when true f bf = f bf
when false f bf = some bf

module _ (ch : ChGo) (is_disabled : ColumnGroup → Bool) where
  -- Two fields of one byte.
  append_bytes : ℕ → ℕ → List ℕ → FlowMessage → Option FlowMessage
  append_bytes type_key code_key bytes bf = do
    type ← byte bytes 0
    m ← append_uint ch type_key type bf
    code ← byte bytes 1
    append_uint ch code_key code m

  ports : List ℕ → FlowMessage → Option FlowMessage
  ports bytes bf = do
    src ← uint16 bytes 0
    m ← append_uint ch Keys.src_port src bf
    dst ← uint16 bytes 2
    append_uint ch Keys.dst_port dst m

  -- The fields by protocol, where the columns of the group L3L4 are wanted.
  details : List ℕ → ℕ → FlowMessage → Option FlowMessage
  unfolding append_bytes
  details bytes proto bf =
      if proto == proto_tcp
      then when (ltb 13 (length bytes))
          (λ m. byte bytes 13 >>= λ flags. append_uint ch Keys.tcp_flags flags m) bf
      else if proto == proto_icmpv4
      then when (ltb 2 (length bytes)) (append_bytes Keys.icmpv4_type Keys.icmpv4_code bytes) bf
      else if proto == proto_icmpv6
      then when (ltb 2 (length bytes)) (append_bytes Keys.icmpv6_type Keys.icmpv6_code bytes) bf
      else some bf

  -- `ParseL4` with DECAP_NONE: the part after its switch.
  pub parse_l4_plain : L4Parser
  unfolding ports details
  parse_l4_plain bf bytes proto = with_length 0 (do
    m ← when ((proto == proto_tcp || proto == proto_udp) && ltb 4 (length bytes)) (ports bytes) bf
    when (not (is_disabled l3l4)) (details bytes proto) m)

  -- `ParseIPv4`: what it stores of the header when the packet is not to be decapsulated.
  ipv4_details : List ℕ → ℕ → FlowMessage → Option FlowMessage
  ipv4_details bytes fragment_offset bf = do
    tos ← byte bytes 1
    m1 ← append_uint ch Keys.ip_tos tos bf
    ttl ← byte bytes 8
    m2 ← append_uint ch Keys.ip_ttl ttl m1
    id ← uint16 bytes 4
    m3 ← append_uint ch Keys.ip_fragment_id id m2
    append_uint ch Keys.ip_fragment_offset fragment_offset m3

  ipv4_fields : List ℕ → ℕ → ℕ → FlowMessage → Option FlowMessage
  unfolding ipv4_details
  ipv4_fields bytes fragment_offset proto bf = do
    m1 ← append_uint ch Keys.etype etype_ipv4 bf
    src ← slice bytes 12 16
    dst ← slice bytes 16 20
    let m2 = record m1 { src_addr = decode_ip src; dst_addr = decode_ip dst }
    m3 ← when (not (is_disabled l3l4)) (ipv4_details bytes fragment_offset) m2
    append_uint ch Keys.proto proto m3

  -- What `ParseIPv4` returns once its payload is parsed.
  pub outer_length : Decapsulation → ℕ → ℕ × FlowMessage → Parsed
  outer_length decap l3_length (inner, m) = some (if is_none decap then l3_length else inner, m)

  -- The options of the header are skipped; a header that claims to be longer than the packet
  -- leaves an empty payload.
  ipv4_payload : List ℕ → ℕ → Option (List ℕ)
  ipv4_payload bytes first =
      let ihl = first % 16 * 4 in if leb ihl (length bytes) then slice_from bytes ihl else some []

  pub parse_ipv4_with : L4Parser → Decapsulation → FrameParser
  unfolding ipv4_fields outer_length ipv4_payload
  parse_ipv4_with l4 decap bf bytes = if ltb (length bytes) 20 then some (0, bf) else do
    l3_length ← uint16 bytes 2
    fragment ← uint16 bytes 6
    let fragment_offset = fragment % 2 ^ 13
    proto ← byte bytes 9
    m ← when (is_none decap) (ipv4_fields bytes fragment_offset proto) bf
    first ← byte bytes 0
    payload ← ipv4_payload bytes first
    if fragment_offset == 0
        then l4 m payload proto >>= outer_length decap l3_length
        else if is_none decap
        then some (l3_length, m)
        else some (0, m)

  ipv6_details : List ℕ → ℕ → FlowMessage → Option FlowMessage
  ipv6_details bytes proto bf = do
    class ← uint16 bytes 0
    m1 ← append_uint ch Keys.ip_tos (class / 16 % 256) bf
    ttl ← byte bytes 7
    m2 ← append_uint ch Keys.ip_ttl ttl m1
    label ← uint32 bytes 0
    m3 ← append_uint ch Keys.ipv6_flow_label (label % 2 ^ 20) m2
    append_uint ch Keys.proto proto m3

  ipv6_fields : List ℕ → ℕ → FlowMessage → Option FlowMessage
  unfolding ipv6_details
  ipv6_fields bytes proto bf = do
    m1 ← append_uint ch Keys.etype etype_ipv6 bf
    src ← slice bytes 8 24
    dst ← slice bytes 24 40
    let m2 = record m1 { src_addr = decode_ip src; dst_addr = decode_ip dst }
    m3 ← append_uint ch Keys.proto proto m2
    when (not (is_disabled l3l4)) (ipv6_details bytes proto) m3

  pub parse_ipv6_with : L4Parser → Decapsulation → FrameParser
  unfolding ipv6_fields outer_length
  parse_ipv6_with l4 decap bf bytes = if ltb (length bytes) 40 then some (0, bf) else do
    payload_length ← uint16 bytes 4
    proto ← byte bytes 6
    m ← when (is_none decap) (ipv6_fields bytes proto) bf
    payload ← slice_from bytes 40
    l4 m payload proto >>= outer_length decap (payload_length + 40)

  -- The inner layer: packets that are not to be decapsulated.
  pub parse_ipv4_plain : FrameParser
  parse_ipv4_plain = parse_ipv4_with parse_l4_plain decap_none

  pub parse_ipv6_plain : FrameParser
  parse_ipv6_plain = parse_ipv6_with parse_l4_plain decap_none
