-- ===== src/Packet/Frames.antt =====
-- Frames and the decapsulation: `ParseEthernet` and the switch of `ParseL4` in
-- outlet/flow/decoder/helpers.go.
pub mod Within
pub mod Safe
pub mod Decap
use akvorado.Prelude.{
  ℕ, zero, suc, ◌+◌, ◌*◌, ◌/◌, ◌%◌, ◌^◌, bit_and, Bool, not, ◌&&◌, Option, none, some, List, [],
  ◌∷◌, ◌++◌, length, ltb, leb, ◌==◌, ◌!=◌, if◌then◌else◌, ◌>>=◌,
}
use akvorado.Schema.Keys
use akvorado.Schema.Keys.{ColumnGroup, l2}
use akvorado.Schema.Columns.{ChGo}
use akvorado.Schema.Message.{FlowMessage, append_uint, append_array_uint32}
use akvorado.Packet.Bytes.{
  etype_ipv4, etype_ipv6, etype_mpls, etype_vlan, port_vxlan, proto_ipv4, proto_udp, proto_ipv6,
  proto_srh, proto_gre, slice, slice_from, byte, uint16, uint32, big_endian, ones_count,
}
use akvorado.Packet.Headers.{
  Decapsulation, decap_none, decap_vxlan, decap_gre, decap_ipip, decap_srv6, is_none, Parsed,
  L4Parser, FrameParser, when, parse_l4_plain, parse_ipv4_with, parse_ipv6_with, parse_ipv4_plain,
  parse_ipv6_plain,
}

-- The loop over the VLAN tags: the type, the last VLAN and the rest of the frame, or `none` for the
-- early return on a short tag.
unfoldable pub skip_vlans : Bool → ℕ → ℕ → List ℕ → Option (ℕ × ℕ × List ℕ)
skip_vlans wanted etype vlan (a ∷ b ∷ c ∷ d ∷ rest) =
    let next = skip_vlans wanted (c * 256 + d) (if wanted then a % 16 * 256 + b else vlan) rest in
    if etype == etype_vlan then next else some (etype, vlan, a ∷ b ∷ c ∷ d ∷ rest)
skip_vlans wanted etype vlan bytes = if etype == etype_vlan then none else some (etype, vlan, bytes)

-- How the stack of MPLS labels ends: by the early return, or with the labels, the last one and the
-- bytes behind it.
unfoldable pub mpls_stack : List ℕ → List ℕ → Option (List ℕ × ℕ × List ℕ)
mpls_stack labels (a ∷ b ∷ c ∷ d ∷ rest) =
    let label = (a * 2 ^ 16 + b * 2 ^ 8 + c) / 16 in
    let next = mpls_stack (labels ++ label ∷ []) rest in
    if length rest == 0
    then none
    else if c % 2 == 1
    then some (labels ++ label ∷ [], label, rest)
    else next
mpls_stack labels _ = none

-- What is behind the labels, by the heuristic of the source.
pub data Payload : Type 0 where
  ipv4 ipv6 ethernet unknown : Payload

control_word : List ℕ → Option Payload
control_word bytes =
    if ltb (length bytes) 4
    then some unknown
    else uint32 bytes 0 >>= λ word. some (if word == 0 then ethernet else unknown)

unfoldable pub mpls_payload : ℕ → List ℕ → Option Payload
unfolding control_word
mpls_payload label bytes =
    if label == 0
    then some ipv4
    else if label == 2
    then some ipv6
    else if ltb (length bytes) 1
    then some unknown
    else byte bytes 0 >>= λ first.
        (let nibble = first / 16 in
          if nibble == 4
          then some ipv4
          else if nibble == 6
          then some ipv6
          else if nibble == 0
          then control_word bytes
          else some unknown)

unfoldable pub set_vlans : ℕ → FlowMessage → FlowMessage
set_vlans vlan bf = if vlan == 0 then bf else record bf {
  src_vlan = if bf.src_vlan == 0 then vlan else bf.src_vlan;
  dst_vlan = if bf.dst_vlan == 0 then vlan else bf.dst_vlan;
}

module _ (ch : ChGo) (is_disabled : ColumnGroup → Bool) where
  macs : List ℕ → FlowMessage → Option FlowMessage
  macs bytes bf = do
    dst ← slice bytes 0 6
    m ← append_uint ch Keys.dst_mac (big_endian dst) bf
    src ← slice bytes 6 12
    append_uint ch Keys.src_mac (big_endian src) m

  -- The parser of a frame, over those of its payload. `fuel` bounds the frames inside of frames:
  -- each is behind a header of 14 bytes.
  module _ (decap : Decapsulation) (parse_v4 parse_v6 : FrameParser) where
    labels_column : List ℕ → FlowMessage → Option FlowMessage
    labels_column labels =
        when (ltb 0 (length labels) && is_none decap)
          (append_array_uint32 ch Keys.mpls_labels labels)

    by_etype : ℕ → FrameParser
    by_etype etype bf bytes =
        if etype == etype_ipv4
        then parse_v4 bf bytes
        else if etype == etype_ipv6
        then parse_v6 bf bytes
        else some (0, bf)

    -- Behind the labels: an IP packet, or a frame behind the control word.
    by_payload : FrameParser → Payload → List ℕ → FrameParser
    unfolding labels_column
    by_payload frame ipv4 labels bf bytes = labels_column labels bf >>= λ m. parse_v4 m bytes
    by_payload frame ipv6 labels bf bytes = labels_column labels bf >>= λ m. parse_v6 m bytes
    by_payload frame ethernet labels bf bytes =
        labels_column labels bf >>= λ m. slice_from bytes 4 >>= λ rest. frame m rest
    by_payload frame unknown labels bf bytes = some (0, bf)

    parse_mpls : FrameParser → FrameParser
    unfolding by_payload
    parse_mpls frame bf bytes = elim (mpls_stack [] bytes) [
      | none ↦ some (0, bf)
      | some (labels, label, rest) ↦
          mpls_payload label rest >>= λ payload. by_payload frame payload labels bf rest
    ]

    after_vlans : FrameParser → FlowMessage → Option (ℕ × ℕ × List ℕ) → Parsed
    unfolding by_etype parse_mpls set_vlans
    after_vlans frame bf none = some (0, bf)
    after_vlans frame bf (some (etype, vlan, bytes)) =
        let m = set_vlans vlan bf in
        if etype == etype_mpls then parse_mpls frame m bytes else by_etype etype m bytes

    pub parse_frames : ℕ → FrameParser
    unfolding macs after_vlans
    parse_frames zero bf bytes = none
    parse_frames (suc fuel) bf bytes =
        let rest = parse_frames fuel in
        if ltb (length bytes) 14 then some (0, bf) else do
          m ← when (not (is_disabled l2) && is_none decap) (macs bytes) bf
          etype ← uint16 bytes 12
          tagged ← slice_from bytes 14
          after_vlans rest m (skip_vlans (not (is_disabled l2) && is_none decap) etype 0 tagged)

    pub parse_ethernet_with : FrameParser
    unfolding parse_frames
    parse_ethernet_with bf bytes = parse_frames (suc (length bytes)) bf bytes

  pub parse_ethernet_plain : FrameParser
  unfolding parse_ethernet_with
  parse_ethernet_plain =
      parse_ethernet_with decap_none (parse_ipv4_plain ch is_disabled)
        (parse_ipv6_plain ch is_disabled)

  vxlan : L4Parser
  vxlan bf bytes proto =
      if not (proto == proto_udp && ltb 16 (length bytes)) then some (0, bf) else do
        port ← uint16 bytes 2
        if port == port_vxlan then slice_from bytes 16 >>= parse_ethernet_plain bf else some (0, bf)

  ip_payload : ℕ → ℕ → ℕ → FrameParser
  ip_payload v4_mark v6_mark mark bf bytes =
      if mark == v4_mark
      then parse_ipv4_plain ch is_disabled bf bytes
      else if mark == v6_mark
      then parse_ipv6_plain ch is_disabled bf bytes
      else some (0, bf)

  gre : L4Parser
  unfolding ip_payload
  gre bf bytes proto = if not (proto == proto_gre && ltb 4 (length bytes)) then some (0, bf) else do
    flags ← uint16 bytes 0
    protocol ← uint16 bytes 2
    let skip = 4 + ones_count 16 flags * 4
    if bit_and flags 0x4fff != 0
        then some (0, bf)
        else if leb skip (length bytes)
        then slice_from bytes skip >>= ip_payload etype_ipv4 etype_ipv6 protocol bf
        else some (0, bf)

  -- The loop over the routing headers of SRv6: each is 8 bytes at least, which bounds the fuel.
  srv6 : ℕ → L4Parser
  unfolding ip_payload
  srv6 zero bf bytes proto = none
  srv6 (suc fuel) bf bytes proto =
      let next = λ (rest : List ℕ) (p : ℕ). srv6 fuel bf rest p in
      if not (proto == proto_srh)
      then ip_payload proto_ipv4 proto_ipv6 proto bf bytes
      else if ltb (length bytes) 8
      then some (0, bf)
      else do
        kind ← byte bytes 2
        size ← byte bytes 1
        inner ← byte bytes 0
        if kind != 4
            then some (0, bf)
            else if ltb (length bytes) (8 + size * 8)
            then some (0, bf)
            else slice_from bytes (8 + size * 8) >>= λ rest. next rest inner

  -- `ParseL4`
  pub parse_l4 : Decapsulation → L4Parser
  unfolding vxlan gre ip_payload srv6
  parse_l4 decap_none bf bytes proto = parse_l4_plain ch is_disabled bf bytes proto
  parse_l4 decap_vxlan bf bytes proto = vxlan bf bytes proto
  parse_l4 decap_gre bf bytes proto = gre bf bytes proto
  parse_l4 decap_ipip bf bytes proto = ip_payload proto_ipv4 proto_ipv6 proto bf bytes
  parse_l4 decap_srv6 bf bytes proto = srv6 (suc (length bytes)) bf bytes proto

  -- `ParseIPv4`, `ParseIPv6` and `ParseEthernet`.
  pub parse_ipv4 : Decapsulation → FrameParser
  parse_ipv4 decap = parse_ipv4_with ch is_disabled (parse_l4 decap) decap

  pub parse_ipv6 : Decapsulation → FrameParser
  parse_ipv6 decap = parse_ipv6_with ch is_disabled (parse_l4 decap) decap

  pub parse_ethernet : Decapsulation → FrameParser
  parse_ethernet decap = parse_ethernet_with decap (parse_ipv4 decap) (parse_ipv6 decap)
