-- ===== src/Flow/Netflow/Fields.antt =====
-- The fields of a NetFlow v9 or IPFIX record in `decodeRecord` of
-- outlet/flow/decoder/netflow/decode.go, and what they do to its variables. A field is known by the number of its information element.
use native.Mathlib.Decide.{ℕ_discrete}
use akvorado.Prelude.{
  ℕ, ◌/◌, ◌%◌, ◌^◌, Bool, true, false, ◌||◌, none, some, List, [], ◌∷◌, ◌++◌, ltb, ◌==◌,
  if◌then◌else◌,
}
use akvorado.GoMap
use akvorado.GoMap.{GoMap}
use akvorado.Schema.Keys
use akvorado.Schema.Keys.{ColumnGroup, l2, nat, l3l4}
use akvorado.Packet.Bytes.{etype_ipv4, etype_ipv6}
use akvorado.Flow.Netflow.{decode_u_number, is_all_zero_ip, TimestampSource}

-- What `decodeRecord` is given besides the fields: `sampling_rate` is `tao.GetSamplingRate` for the
-- version and the domain of the packet.
pub record Context : Type 0 where
  pub ts : ℕ
  pub sys_uptime : ℕ
  pub timestamp_source : TimestampSource
  pub sampling_rate : ℕ → ℕ

-- The variables of one direction.
pub record Locals : Type 0 where
  pub etype : ℕ
  pub dst_port : ℕ
  pub src_port : ℕ
  pub proto : ℕ
  pub icmp_type : ℕ
  pub icmp_code : ℕ
  pub found_icmp_type_code : Bool
  pub decap_ok : Bool
  pub mpls_labels : List ℕ

abbrev pub no_locals : Locals
no_locals = record {
  etype = 0;
  dst_port = 0;
  src_port = 0;
  proto = 0;
  icmp_type = 0;
  icmp_code = 0;
  found_icmp_type_code = false;
  decap_ok = false;
  mpls_labels = [];
}

-- The cases of the first switch. `column` writes the number to a column, an address has its EtherType.
pub data Field : Type 0 where
  column : ℕ → Field
  sampling_interval sampler : Field
  source_address destination_address : ℕ → Field
  source_mask destination_mask next_hop : Field
  source_port destination_port protocol : Field
  source_as destination_as : Field
  ingress egress physical_ingress physical_egress : Field
  frame_section mpls_label flow_direction other : Field

-- The cases by information element.
abbrev pub first_switch : GoMap ℕ Field
first_switch =
    (1, column Keys.bytes)
    ∷ (23, column Keys.bytes)
    ∷ (231, column Keys.bytes)
    ∷ (232, column Keys.bytes)
    ∷ (2, column Keys.packets)
    ∷ (24, column Keys.packets)
    ∷ (34, sampling_interval)
    ∷ (50, sampling_interval)
    ∷ (48, sampler)
    ∷ (302, sampler)
    ∷ (8, source_address etype_ipv4)
    ∷ (12, destination_address etype_ipv4)
    ∷ (27, source_address etype_ipv6)
    ∷ (28, destination_address etype_ipv6)
    ∷ (9, source_mask)
    ∷ (29, source_mask)
    ∷ (13, destination_mask)
    ∷ (30, destination_mask)
    ∷ (15, next_hop)
    ∷ (18, next_hop)
    ∷ (62, next_hop)
    ∷ (63, next_hop)
    ∷ (7, source_port)
    ∷ (11, destination_port)
    ∷ (4, protocol)
    ∷ (16, source_as)
    ∷ (17, destination_as)
    ∷ (10, ingress)
    ∷ (14, egress)
    ∷ (252, physical_ingress)
    ∷ (253, physical_egress)
    ∷ (315, frame_section)
    ∷ (70, mpls_label)
    ∷ (71, mpls_label)
    ∷ (72, mpls_label)
    ∷ (73, mpls_label)
    ∷ (74, mpls_label)
    ∷ (75, mpls_label)
    ∷ (76, mpls_label)
    ∷ (77, mpls_label)
    ∷ (78, mpls_label)
    ∷ (79, mpls_label)
    ∷ (234, column Keys.ingress_vrf_id)
    ∷ (235, column Keys.egress_vrf_id)
    ∷ (89, column Keys.forwarding_status)
    ∷ (61, flow_direction)
    ∷ []

unfoldable pub field_of : ℕ → Field
field_of type_id = elim (GoMap.get ℕ_discrete type_id first_switch) [ none ↦ other | some f ↦ f ]

-- The ICMP type and code. Both are in one field, or in two.
unfoldable pub set_icmp : ℕ → ℕ → Locals → Locals
set_icmp type_id n l =
    if type_id == 32 || type_id == 139
    then record l { icmp_type = n / 256 % 256; icmp_code = n % 256; found_icmp_type_code = true }
    else if type_id == 176 || type_id == 178
    then record l { icmp_type = n % 256; found_icmp_type_code = true }
    else if type_id == 177 || type_id == 179
    then record l { icmp_code = n % 256; found_icmp_type_code = true }
    else l

-- What a field that is known by `f` does to the variables.
unfoldable pub set_locals : Bool → ℕ → Field → List ℕ → Locals → Locals
unfolding set_icmp
set_locals icmp type_id (source_address etype) v l =
    if is_all_zero_ip v then l else record l { etype = etype }
set_locals icmp type_id (destination_address etype) v l =
    if is_all_zero_ip v then l else record l { etype = etype }
set_locals icmp type_id source_port v l = record l { src_port = decode_u_number v % 2 ^ 16 }
set_locals icmp type_id destination_port v l = record l { dst_port = decode_u_number v % 2 ^ 16 }
set_locals icmp type_id protocol v l = record l { proto = decode_u_number v % 2 ^ 8 }
set_locals icmp type_id mpls_label v l =
    let uv = decode_u_number v / 16 in
    if ltb 0 uv then record l { mpls_labels = l.mpls_labels ++ uv % 2 ^ 32 ∷ [] } else l
set_locals icmp type_id other v l = if icmp then set_icmp type_id (decode_u_number v) l else l
set_locals icmp type_id _ v l = l
