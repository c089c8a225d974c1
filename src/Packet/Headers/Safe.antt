-- ===== src/Packet/Headers/Safe.antt =====
-- The reads of `ParseIPv4`, `ParseIPv6` and `ParseL4` in outlet/flow/decoder/helpers.go.
use akvorado.Prelude.{
  ◌*◌, leb, Bool-cases, inl, inr, Returns, ℕ, ◌+◌, ◌%◌, ◌^◌, ◌<◌, ◌≤◌, refl, Bool, not, ◌&&◌, ◌||◌,
  List, length, ltb, ◌==◌, ◌>>=◌, arith,
}
use akvorado.Schema.Keys
use akvorado.Schema.Keys.{ColumnGroup, l3l4}
use akvorado.Schema.Columns.{ChGo}
use akvorado.Schema.Message.{Batch, FlowMessage, append_uint}
use akvorado.Schema.Message.Pending.{IsBuilding}
use akvorado.Schema.Message.Safe.{IsSafe, IsSafe-some, IsSafe-bind, IsSafe-if, append_uint-IsSafe}
use akvorado.Packet.Headers.Parsed.{
  IsL4Safe, IsFrameSafe, IsParsed-some, IsParsed-with_length, IsParsed-bind, IsParsed-if,
  IsParsed-read, IsParsed-slice_from, IsSafe-read, IsSafe-when, outer_length-IsParsed, le_of, lt_of,
  and_right,
}
use akvorado.Net.{Addr}
use akvorado.Packet.Bytes.{
  proto_tcp, proto_udp, proto_icmpv4, proto_icmpv6, byte, byte-Returns, uint16-Returns,
  uint32-Returns, slice-Returns, slice_from_within, decode_ip, etype_ipv4, etype_ipv6,
}
use akvorado.Packet.Headers.{
  Decapsulation, decap_none, is_none, L4Parser, when, append_bytes, ports, details, parse_l4_plain,
  ipv4_details, ipv4_fields, ipv4_payload, parse_ipv4_with, ipv6_details, ipv6_fields,
  parse_ipv6_with, parse_ipv4_plain, parse_ipv6_plain,
}

with_addresses-IsBuilding :
    {base : Batch} (bf : FlowMessage) (src dst : Addr)
    → IsBuilding base bf
    → IsBuilding base (record bf { src_addr = src; dst_addr = dst })
with_addresses-IsBuilding bf src dst b = record {
  pending = record { count = b.pending.count; slots = b.pending.slots };
  typed = record {
    width = b.typed.width;
    types = b.typed.types;
    reverse_width = b.typed.reverse_width;
    reverse_types = b.typed.reverse_types;
  };
}

module _ (ch : ChGo) (is_disabled : ColumnGroup → Bool) where
  ipv4_payload-Returns :
      (bytes : List ℕ) (first : ℕ)
      → Returns (λ b. Unit {0}) (ipv4_payload ch is_disabled bytes first)
  unfolding ipv4_payload
  ipv4_payload-Returns bytes first = elim (Bool-cases (leb (first % 16 * 4) (length bytes))) [
    | inl e ↦ rw (e, slice_from_within bytes (first % 16 * 4) (ground (arith, e))) tt
    | inr e ↦ rw e tt
  ]

module _ (ch : ChGo) (is_disabled : ColumnGroup → Bool) {base : Batch} where
  ports-IsSafe :
      (bytes : List ℕ) (bf : FlowMessage)
      → 4 < length bytes
      → IsBuilding base bf
      → IsSafe base (ports ch is_disabled bytes bf)
  unfolding ports
  ports-IsSafe bytes bf h b = IsSafe-read _ _ (uint16-Returns bytes 0 (omega arith)) (λ src.
      IsSafe-bind _ _ (append_uint-IsSafe ch Keys.src_port bf b src refl) (λ m c.
        IsSafe-read _ _ (uint16-Returns bytes 2 (omega arith))
          (λ dst. append_uint-IsSafe ch Keys.dst_port m c dst refl)))

  icmpv4-IsSafe :
      (bytes : List ℕ) (bf : FlowMessage)
      → 2 < length bytes
      → IsBuilding base bf
      → IsSafe base (append_bytes ch is_disabled Keys.icmpv4_type Keys.icmpv4_code bytes bf)
  unfolding append_bytes
  icmpv4-IsSafe bytes bf h b = IsSafe-read _ _ (byte-Returns bytes 0 (omega arith)) (λ v.
      IsSafe-bind _ _ (append_uint-IsSafe ch Keys.icmpv4_type bf b v refl) (λ m c.
        IsSafe-read _ _ (byte-Returns bytes 1 (omega arith))
          (λ w. append_uint-IsSafe ch Keys.icmpv4_code m c w refl)))

  icmpv6-IsSafe :
      (bytes : List ℕ) (bf : FlowMessage)
      → 2 < length bytes
      → IsBuilding base bf
      → IsSafe base (append_bytes ch is_disabled Keys.icmpv6_type Keys.icmpv6_code bytes bf)
  unfolding append_bytes
  icmpv6-IsSafe bytes bf h b = IsSafe-read _ _ (byte-Returns bytes 0 (omega arith)) (λ v.
      IsSafe-bind _ _ (append_uint-IsSafe ch Keys.icmpv6_type bf b v refl) (λ m c.
        IsSafe-read _ _ (byte-Returns bytes 1 (omega arith))
          (λ w. append_uint-IsSafe ch Keys.icmpv6_code m c w refl)))

  details-IsSafe :
      (bytes : List ℕ) (proto : ℕ) (bf : FlowMessage)
      → IsBuilding base bf
      → IsSafe base (details ch is_disabled bytes proto bf)
  unfolding details
  details-IsSafe bytes proto bf b =
      IsSafe-if (proto == proto_tcp) _ _
        (IsSafe-when _ (λ m. byte bytes 13 >>= λ flags. append_uint ch Keys.tcp_flags flags m) bf b
          (λ t.
            IsSafe-read _ _ (byte-Returns bytes 13 (lt_of 13 (length bytes) t))
              (λ v. append_uint-IsSafe ch Keys.tcp_flags bf b v refl)))
        (IsSafe-if (proto == proto_icmpv4) _ _
          (IsSafe-when _ (append_bytes ch is_disabled Keys.icmpv4_type Keys.icmpv4_code bytes) bf b
            (λ t. icmpv4-IsSafe bytes bf (lt_of 2 (length bytes) t) b))
          (IsSafe-if (proto == proto_icmpv6) _ _
            (IsSafe-when _ (append_bytes ch is_disabled Keys.icmpv6_type Keys.icmpv6_code bytes) bf
              b (λ t. icmpv6-IsSafe bytes bf (lt_of 2 (length bytes) t) b))
            (IsSafe-some bf b)))

  pub parse_l4_plain-IsL4Safe : IsL4Safe base (parse_l4_plain ch is_disabled)
  unfolding parse_l4_plain
  parse_l4_plain-IsL4Safe bf bytes proto b =
      let has_ports = (proto == proto_tcp || proto == proto_udp) && ltb 4 (length bytes) in
      IsParsed-with_length 0 _ (
        IsSafe-bind _ (when (not (is_disabled l3l4)) (details ch is_disabled bytes proto))
          (IsSafe-when has_ports (ports ch is_disabled bytes) bf b
            (λ t. ports-IsSafe bytes bf (lt_of 4 (length bytes) (and_right _ _ t)) b))
          (λ m c.
            IsSafe-when (not (is_disabled l3l4)) (details ch is_disabled bytes proto) m c
              (λ t. details-IsSafe bytes proto m c)))

  ipv4_details-IsSafe :
      (bytes : List ℕ) (offset : ℕ) (bf : FlowMessage)
      → 20 ≤ length bytes
      → IsBuilding base bf
      → IsSafe base (ipv4_details ch is_disabled bytes offset bf)
  unfolding ipv4_details
  ipv4_details-IsSafe bytes offset bf h b =
      IsSafe-read _ _ (byte-Returns bytes 1 (omega arith)) (λ tos.
        IsSafe-bind _ _ (append_uint-IsSafe ch Keys.ip_tos bf b tos refl) (λ m1 b1.
          IsSafe-read _ _ (byte-Returns bytes 8 (omega arith)) (λ ttl.
            IsSafe-bind _ _ (append_uint-IsSafe ch Keys.ip_ttl m1 b1 ttl refl) (λ m2 b2.
              IsSafe-read _ _ (uint16-Returns bytes 4 (omega arith)) (λ id.
                IsSafe-bind _ _ (append_uint-IsSafe ch Keys.ip_fragment_id m2 b2 id refl)
                  (λ m3 b3. append_uint-IsSafe ch Keys.ip_fragment_offset m3 b3 offset refl))))))

  ipv4_fields-IsSafe :
      (bytes : List ℕ) (offset proto : ℕ) (bf : FlowMessage)
      → 20 ≤ length bytes
      → IsBuilding base bf
      → IsSafe base (ipv4_fields ch is_disabled bytes offset proto bf)
  unfolding ipv4_fields
  ipv4_fields-IsSafe bytes offset proto bf h b =
      IsSafe-bind _ _ (append_uint-IsSafe ch Keys.etype bf b etype_ipv4 refl) (λ m1 b1.
        IsSafe-read _ _ (slice-Returns bytes 12 16 (omega arith)) (λ src.
          IsSafe-read _ _ (slice-Returns bytes 16 20 (omega arith)) (λ dst.
            let b2 = with_addresses-IsBuilding m1 (decode_ip src) (decode_ip dst) b1 in
            IsSafe-bind _ _
              (IsSafe-when (not (is_disabled l3l4)) (ipv4_details ch is_disabled bytes offset) _ b2
                (λ t. ipv4_details-IsSafe bytes offset _ h b2))
              (λ m3 b3. append_uint-IsSafe ch Keys.proto m3 b3 proto refl))))

  pub parse_ipv4_with-IsFrameSafe :
      (l4 : L4Parser) (decap : Decapsulation)
      → IsL4Safe base l4
      → IsFrameSafe base (parse_ipv4_with ch is_disabled l4 decap)
  unfolding parse_ipv4_with
  parse_ipv4_with-IsFrameSafe l4 decap safe bf bytes b =
      IsParsed-if _ _ _ (λ t. IsParsed-some 0 bf b)
        (λ t.
          let h : 20 ≤ length bytes = le_of (length bytes) 20 t in
          IsParsed-read _ _ (uint16-Returns bytes 2 (omega arith)) (λ l3_length.
            IsParsed-read _ _ (uint16-Returns bytes 6 (omega arith)) (λ fragment.
              IsParsed-read _ _ (byte-Returns bytes 9 (omega arith)) (λ proto.
                IsParsed-bind _ _
                  (IsSafe-when (is_none decap)
                    (ipv4_fields ch is_disabled bytes (fragment % 2 ^ 13) proto) bf b
                    (λ t. ipv4_fields-IsSafe bytes (fragment % 2 ^ 13) proto bf h b))
                  (λ m c. IsParsed-read _ _ (byte-Returns bytes 0 (omega arith)) (λ first.
                    IsParsed-read _ _ (ipv4_payload-Returns ch is_disabled bytes first) (λ payload.
                      IsParsed-if (fragment % 2 ^ 13 == 0) _ _
                        (λ t.
                          outer_length-IsParsed ch is_disabled decap l3_length _
                            (safe m payload proto c))
                        (λ t.
                          IsParsed-if (is_none decap) _ _ (λ t. IsParsed-some l3_length m c)
                            (λ t. IsParsed-some 0 m c)))))))))

  ipv6_details-IsSafe :
      (bytes : List ℕ) (proto : ℕ) (bf : FlowMessage)
      → 40 ≤ length bytes
      → IsBuilding base bf
      → IsSafe base (ipv6_details ch is_disabled bytes proto bf)
  unfolding ipv6_details
  ipv6_details-IsSafe bytes proto bf h b =
      IsSafe-read _ _ (uint16-Returns bytes 0 (omega arith)) (λ class.
        IsSafe-bind _ _ (append_uint-IsSafe ch Keys.ip_tos bf b _ refl) (λ m1 b1.
          IsSafe-read _ _ (byte-Returns bytes 7 (omega arith)) (λ ttl.
            IsSafe-bind _ _ (append_uint-IsSafe ch Keys.ip_ttl m1 b1 ttl refl) (λ m2 b2.
              IsSafe-read _ _ (uint32-Returns bytes 0 (omega arith)) (λ label.
                IsSafe-bind _ _ (append_uint-IsSafe ch Keys.ipv6_flow_label m2 b2 _ refl)
                  (λ m3 b3. append_uint-IsSafe ch Keys.proto m3 b3 proto refl))))))

  ipv6_fields-IsSafe :
      (bytes : List ℕ) (proto : ℕ) (bf : FlowMessage)
      → 40 ≤ length bytes
      → IsBuilding base bf
      → IsSafe base (ipv6_fields ch is_disabled bytes proto bf)
  unfolding ipv6_fields
  ipv6_fields-IsSafe bytes proto bf h b =
      IsSafe-bind _ _ (append_uint-IsSafe ch Keys.etype bf b etype_ipv6 refl) (λ m1 b1.
        IsSafe-read _ _ (slice-Returns bytes 8 24 (omega arith)) (λ src.
          IsSafe-read _ _ (slice-Returns bytes 24 40 (omega arith)) (λ dst.
            let b2 = with_addresses-IsBuilding m1 (decode_ip src) (decode_ip dst) b1 in
            IsSafe-bind _ _ (append_uint-IsSafe ch Keys.proto _ b2 proto refl) (λ m3 b3.
              IsSafe-when (not (is_disabled l3l4)) (ipv6_details ch is_disabled bytes proto) m3 b3
                (λ t. ipv6_details-IsSafe bytes proto m3 h b3)))))

  pub parse_ipv6_with-IsFrameSafe :
      (l4 : L4Parser) (decap : Decapsulation)
      → IsL4Safe base l4
      → IsFrameSafe base (parse_ipv6_with ch is_disabled l4 decap)
  unfolding parse_ipv6_with
  parse_ipv6_with-IsFrameSafe l4 decap safe bf bytes b =
      IsParsed-if _ _ _ (λ t. IsParsed-some 0 bf b)
        (λ t.
          let h : 40 ≤ length bytes = le_of (length bytes) 40 t in
          IsParsed-read _ _ (uint16-Returns bytes 4 (omega arith)) (λ payload_length.
            IsParsed-read _ _ (byte-Returns bytes 6 (omega arith)) (λ proto.
              IsParsed-bind _ _
                (IsSafe-when (is_none decap) (ipv6_fields ch is_disabled bytes proto) bf b
                  (λ t. ipv6_fields-IsSafe bytes proto bf h b))
                (λ m c. IsParsed-slice_from bytes 40 _ h (
                  outer_length-IsParsed ch is_disabled decap (payload_length + 40) _
                    (safe m _ proto c))))))

  pub parse_ipv4_plain-IsFrameSafe : IsFrameSafe base (parse_ipv4_plain ch is_disabled)
  unfolding parse_ipv4_plain
  parse_ipv4_plain-IsFrameSafe =
      parse_ipv4_with-IsFrameSafe (parse_l4_plain ch is_disabled) decap_none parse_l4_plain-IsL4Safe

  pub parse_ipv6_plain-IsFrameSafe : IsFrameSafe base (parse_ipv6_plain ch is_disabled)
  unfolding parse_ipv6_plain
  parse_ipv6_plain-IsFrameSafe =
      parse_ipv6_with-IsFrameSafe (parse_l4_plain ch is_disabled) decap_none parse_l4_plain-IsL4Safe
