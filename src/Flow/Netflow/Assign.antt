-- ===== src/Flow/Netflow/Assign.antt =====
-- What the fields of a NetFlow v9 or IPFIX record do to the message: the switches of `decodeRecord` in
-- outlet/flow/decoder/netflow/decode.go.
use native.Mathlib.Decide.{ℕ_discrete}
use akvorado.Prelude.{
  ℕ, ◌+◌, ◌-◌, ◌/◌, ◌%◌, ◌^◌, Bool, true, false, not, ◌||◌, Option, none, some, List, [], ◌∷◌, ltb,
  ◌==◌, if◌then◌else◌, ◌>>=◌,
}
use akvorado.GoMap
use akvorado.GoMap.{GoMap}
use akvorado.Schema.Keys
use akvorado.Schema.Keys.{ColumnGroup, l2, nat, l3l4}
use akvorado.Schema.Columns.{ChGo}
use akvorado.Schema.Message.{FlowMessage, append_uint, append_ipv6}
use akvorado.Packet.Bytes.{decode_ip}
use akvorado.Packet.Headers.{Decapsulation, when}
use akvorado.Packet.Frames.{parse_ethernet}
use akvorado.Flow.Fill.{append_uints}
use akvorado.Flow.Netflow.{decode_u_number, is_all_zero_ip, ts_netflow_first_switched}
use akvorado.Flow.Netflow.Fields.{
  Context, Locals, Field, column, sampling_interval, sampler, source_address, destination_address,
  source_mask, destination_mask, next_hop, source_port, destination_port, protocol, source_as,
  destination_as, ingress, egress, physical_ingress, physical_egress, frame_section, mpls_label,
  flow_direction, other, set_locals,
}

-- The time of a flow: the fields that count when the source of the timestamp is the first packet.
-- The sums are those of uint64.
unfoldable pub set_time : Context → ℕ → ℕ → FlowMessage → FlowMessage
set_time c type_id n bf = elim c.timestamp_source [
  | ts_netflow_first_switched ↦
      if type_id == 22
      then record bf { time_received = (c.ts + 2 ^ 64 - c.sys_uptime + n) % 2 ^ 64 % 2 ^ 32 }
      else if type_id == 150
      then record bf { time_received = n % 2 ^ 32 }
      else if type_id == 152
      then record bf { time_received = n / 1000 % 2 ^ 32 }
      else if type_id == 154
      then record bf { time_received = n / 1000000 % 2 ^ 32 }
      else if type_id == 156
      then record bf { time_received = (c.ts + n / 1000000000) % 2 ^ 64 % 2 ^ 32 }
      else bf
  | _ ↦ bf
]

-- The columns of the switch over layer-3 and layer-4 fields.
abbrev pub l3l4_switch : GoMap ℕ ℕ
l3l4_switch =
    (192, Keys.ip_ttl)
    ∷ (52, Keys.ip_ttl)
    ∷ (5, Keys.ip_tos)
    ∷ (31, Keys.ipv6_flow_label)
    ∷ (6, Keys.tcp_flags)
    ∷ (54, Keys.ip_fragment_id)
    ∷ (88, Keys.ip_fragment_offset)
    ∷ []

abbrev pub is_frame : Field → Bool
is_frame frame_section = true
is_frame _ = false

module _ (ch : ChGo) (is_disabled : ColumnGroup → Bool) where
  unfoldable pub set_nat : ℕ → List ℕ → FlowMessage → Option FlowMessage
  set_nat type_id v bf =
      if type_id == 225
      then append_ipv6 ch Keys.src_addr_nat (decode_ip v) bf
      else if type_id == 226
      then append_ipv6 ch Keys.dst_addr_nat (decode_ip v) bf
      else if type_id == 227
      then append_uint ch Keys.src_port_nat (decode_u_number v) bf
      else if type_id == 228
      then append_uint ch Keys.dst_port_nat (decode_u_number v) bf
      else some bf

  unfoldable pub set_l2 : ℕ → ℕ → FlowMessage → Option FlowMessage
  set_l2 type_id n bf =
      if type_id == 58 || type_id == 243
      then some (record bf { src_vlan = if bf.src_vlan == 0 then n % 2 ^ 16 else bf.src_vlan })
      else if type_id == 59 || type_id == 254
      then some (record bf { dst_vlan = if bf.dst_vlan == 0 then n % 2 ^ 16 else bf.dst_vlan })
      else if type_id == 56 || type_id == 81
      then append_uint ch Keys.src_mac n bf
      else if type_id == 80 || type_id == 57
      then append_uint ch Keys.dst_mac n bf
      else some bf

  unfoldable pub set_l3l4 : ℕ → ℕ → FlowMessage → Option FlowMessage
  set_l3l4 type_id n bf = elim (GoMap.get ℕ_discrete type_id l3l4_switch) [
    | none ↦ some bf
    | some key ↦ append_uint ch key n bf
  ]

  -- The `default` of the first switch: four switches more.
  unfoldable pub set_other : Context → ℕ → List ℕ → FlowMessage → Option FlowMessage
  unfolding set_time set_nat set_l2 set_l3l4
  set_other c type_id v bf =
      let n = decode_u_number v in
      when (not (is_disabled nat)) (set_nat type_id v) (set_time c type_id n bf) >>= λ m1.
      when (not (is_disabled l2)) (set_l2 type_id n) m1 >>= λ m2.
      when (not (is_disabled l3l4)) (set_l3l4 type_id n) m2

  -- An address with no bit set is none.
  unfoldable pub set_address : Bool → List ℕ → FlowMessage → FlowMessage
  set_address source v bf =
      if is_all_zero_ip v
      then bf
      else if source
      then record bf { src_addr = decode_ip v }
      else record bf { dst_addr = decode_ip v }

  -- What a field does to the message.
  unfoldable pub set_message :
      Decapsulation → Context → ℕ → Field → List ℕ → FlowMessage → Option FlowMessage
  unfolding set_other set_address
  set_message decap c type_id (column key) v bf = append_uint ch key (decode_u_number v) bf
  set_message decap c type_id sampling_interval v bf =
      some (record bf { sampling_rate = decode_u_number v })
  set_message decap c type_id sampler v bf =
      some (record bf { sampling_rate = c.sampling_rate (decode_u_number v) })
  set_message decap c type_id (source_address etype) v bf = some (set_address true v bf)
  set_message decap c type_id (destination_address etype) v bf = some (set_address false v bf)
  set_message decap c type_id source_mask v bf =
      some (record bf { src_net_mask = decode_u_number v % 2 ^ 8 })
  set_message decap c type_id destination_mask v bf =
      some (record bf { dst_net_mask = decode_u_number v % 2 ^ 8 })
  set_message decap c type_id next_hop v bf = some (record bf { next_hop = decode_ip v })
  set_message decap c type_id source_port v bf =
      append_uint ch Keys.src_port (decode_u_number v % 2 ^ 16) bf
  set_message decap c type_id destination_port v bf =
      append_uint ch Keys.dst_port (decode_u_number v % 2 ^ 16) bf
  set_message decap c type_id protocol v bf =
      append_uint ch Keys.proto (decode_u_number v % 2 ^ 8) bf
  set_message decap c type_id source_as v bf =
      some (record bf { src_as = decode_u_number v % 2 ^ 32 })
  set_message decap c type_id destination_as v bf =
      some (record bf { dst_as = decode_u_number v % 2 ^ 32 })
  set_message decap c type_id ingress v bf = some (record bf { in_if = decode_u_number v % 2 ^ 32 })
  set_message decap c type_id egress v bf = some (record bf { out_if = decode_u_number v % 2 ^ 32 })
  set_message decap c type_id physical_ingress v bf =
      some (record bf { in_if = if bf.in_if == 0 then decode_u_number v % 2 ^ 32 else bf.in_if })
  set_message decap c type_id physical_egress v bf =
      some (record bf { out_if = if bf.out_if == 0 then decode_u_number v % 2 ^ 32 else bf.out_if })
  set_message decap c type_id frame_section v bf = some bf
  set_message decap c type_id mpls_label v bf = some bf
  set_message decap c type_id flow_direction v bf =
      if decode_u_number v == 0
      then append_uint ch Keys.flow_direction 1 bf
      else if decode_u_number v == 1
      then append_uint ch Keys.flow_direction 2 bf
      else some bf
  set_message decap c type_id other v bf = set_other c type_id v bf

  -- A sampled frame (RFC 7133): whether it has a layer-3 length.
  unfoldable pub set_frame : Decapsulation → List ℕ → FlowMessage → Option (Bool × FlowMessage)
  set_frame decap v bf = do
    p ← parse_ethernet ch is_disabled decap bf v
    if ltb 0 p.0
        then (do
          m ← append_uints ch ((Keys.bytes, p.0) ∷ (Keys.packets, 1) ∷ []) p.1
          some (true, m))
        else some (false, p.1)

  unfoldable pub add_frame :
      Decapsulation → List ℕ → Locals × FlowMessage → Option (Locals × FlowMessage)
  unfolding set_frame
  add_frame decap v (l, bf) = do
    r ← set_frame decap v bf
    some (if r.0 then record l { decap_ok = true } else l, r.1)

  unfoldable pub add_value :
      Decapsulation
      → Context
      → ℕ
      → Field
      → List ℕ
      → Locals × FlowMessage
      → Option (Locals × FlowMessage)
  unfolding set_message set_locals
  add_value decap c type_id f v (l, bf) = do
    m ← set_message decap c type_id f v bf
    some (set_locals (not (is_disabled l3l4)) type_id f v l, m)

  -- One field.
  unfoldable pub add_field :
      Decapsulation
      → Context
      → ℕ
      → Field
      → List ℕ
      → Locals × FlowMessage
      → Option (Locals × FlowMessage)
  unfolding add_frame add_value
  add_field decap c type_id f v s =
      if is_frame f then add_frame decap v s else add_value decap c type_id f v s
