-- ===== src/Packet/Frames/Safe.antt =====
-- The reads and the loops of `ParseEthernet`, and of what it calls, with and without decapsulation
-- (outlet/flow/decoder/helpers.go).
use akvorado.Prelude.{
  ℕ, zero, suc, ◌+◌, ◌*◌, ◌<◌, ◌≤◌, refl, bit_and, Bool, not, ◌&&◌, Option, none, some, List, [],
  length, drop, ltb, leb, ◌==◌, ◌!=◌, ◌>>=◌, Returns, Bool-cases, arith, length-drop, inl, inr,
}
use akvorado.Schema.Keys
use akvorado.Schema.Keys.{ColumnGroup, l2}
use akvorado.Schema.Columns.{ChGo}
use akvorado.Schema.Message.{Batch, FlowMessage, append_array_uint32}
use akvorado.Schema.Message.Pending.{IsBuilding}
use akvorado.Schema.Message.Safe.{
  IsSafe, IsSafe-bind, append_uint-IsSafe, append_array_uint32-IsSafe,
}
use akvorado.Packet.Bytes.{
  etype_mpls, etype_ipv4, etype_ipv6, proto_udp, proto_gre, proto_srh, proto_ipv4, proto_ipv6,
  port_vxlan, ones_count, byte-Returns, uint16-Returns, slice-Returns,
}
use akvorado.Packet.Headers.{
  Decapsulation, decap_none, decap_vxlan, decap_gre, decap_ipip, decap_srv6, is_none, FrameParser,
}
use akvorado.Packet.Headers.Parsed.{
  IsParsed-slice_from, IsParsed, IsL4Safe, IsFrameSafe, IsParsed-some, IsParsed-bind, IsParsed-if,
  IsParsed-read, IsParsed-taken, IsSafe-read, IsSafe-when, le_of,
}
use akvorado.Packet.Headers.Safe.{
  parse_l4_plain-IsL4Safe, parse_ipv4_with-IsFrameSafe, parse_ipv6_with-IsFrameSafe,
  parse_ipv4_plain-IsFrameSafe, parse_ipv6_plain-IsFrameSafe,
}
use akvorado.Packet.Frames.Within.{
  Within, skip_vlans-Within, mpls_stack-Within, mpls_payload-Returns, HasRoom,
}
use akvorado.Packet.Frames.{
  mpls_stack, Payload, ipv4, ipv6, ethernet, unknown, mpls_payload, set_vlans, macs, labels_column,
  by_etype, by_payload, parse_mpls, after_vlans, parse_frames, parse_ethernet_with,
  parse_ethernet_plain, vxlan, ip_payload, gre, srv6, parse_l4, parse_ipv4, parse_ipv6,
  parse_ethernet,
}

set_vlans-IsBuilding :
    {base : Batch} (vlan : ℕ) (bf : FlowMessage)
    → IsBuilding base bf
    → IsBuilding base (set_vlans vlan bf)
unfolding set_vlans
set_vlans-IsBuilding vlan bf b = elim (Bool-cases (vlan == 0)) [
  | inl e ↦ rw e b
  | inr e ↦ rw e (record {
    pending = record { count = b.pending.count; slots = b.pending.slots };
    typed = record {
      width = b.typed.width;
      types = b.typed.types;
      reverse_width = b.typed.reverse_width;
      reverse_types = b.typed.reverse_types;
    };
  })
]

module _ (ch : ChGo) (is_disabled : ColumnGroup → Bool) {base : Batch} where
  macs-IsSafe :
      (bytes : List ℕ) (bf : FlowMessage)
      → 14 ≤ length bytes
      → IsBuilding base bf
      → IsSafe base (macs ch is_disabled bytes bf)
  unfolding macs
  macs-IsSafe bytes bf h b = IsSafe-read _ _ (slice-Returns bytes 0 6 (omega arith)) (λ dst.
      IsSafe-bind _ _ (append_uint-IsSafe ch Keys.dst_mac bf b _ refl) (λ m c.
        IsSafe-read _ _ (slice-Returns bytes 6 12 (omega arith))
          (λ src. append_uint-IsSafe ch Keys.src_mac m c _ refl)))

  -- The parser of frames is given fuel for the bytes of the packet.
  module _ (decap : Decapsulation) (v4 v6 : FrameParser) (v4_safe : IsFrameSafe base v4)
      (v6_safe : IsFrameSafe base v6) where
    labels_column-IsSafe :
        (labels : List ℕ) (bf : FlowMessage)
        → IsBuilding base bf
        → IsSafe base (labels_column ch is_disabled decap v4 v6 labels bf)
    unfolding labels_column
    labels_column-IsSafe labels bf b =
        IsSafe-when (ltb 0 (length labels) && is_none decap)
          (append_array_uint32 ch Keys.mpls_labels labels) bf b
          (λ t. append_array_uint32-IsSafe ch Keys.mpls_labels bf b labels refl)

    by_etype-IsFrameSafe :
        (etype : ℕ) → IsFrameSafe base (by_etype ch is_disabled decap v4 v6 etype)
    unfolding by_etype
    by_etype-IsFrameSafe etype bf bytes b =
        IsParsed-if (etype == etype_ipv4) _ _ (λ t. v4_safe bf bytes b)
          (λ t.
            IsParsed-if (etype == etype_ipv6) _ _ (λ t. v6_safe bf bytes b)
              (λ t. IsParsed-some 0 bf b))

    abbrev ShortSafe : ℕ → FrameParser → Type 0
    ShortSafe n frame =
        (bf : FlowMessage) (bytes : List ℕ)
        → length bytes < n
        → IsBuilding base bf
        → IsParsed base (frame bf bytes)

    by_payload-IsParsed :
        (n : ℕ) (frame : FrameParser) (payload : Payload) (labels : List ℕ) (bf : FlowMessage)
        (bytes : List ℕ)
        → ShortSafe n frame
        → length bytes < n
        → HasRoom bytes payload
        → IsBuilding base bf
        → IsParsed base (by_payload ch is_disabled decap v4 v6 frame payload labels bf bytes)
    unfolding by_payload
    by_payload-IsParsed n frame ipv4 labels bf bytes safe h room b =
        IsParsed-bind _ _ (labels_column-IsSafe labels bf b) (λ m c. v4_safe m bytes c)
    by_payload-IsParsed n frame ipv6 labels bf bytes safe h room b =
        IsParsed-bind _ _ (labels_column-IsSafe labels bf b) (λ m c. v6_safe m bytes c)
    by_payload-IsParsed n frame ethernet labels bf bytes safe h room b =
        IsParsed-bind _ _ (labels_column-IsSafe labels bf b) (λ m c.
          IsParsed-slice_from bytes 4 _ room
            (safe m (drop 4 bytes) (ground (arith, length-drop 4 bytes)) c))
    by_payload-IsParsed n frame unknown labels bf bytes safe h room b = IsParsed-some 0 bf b

    mpls_payload-IsParsed :
        (n : ℕ) (frame : FrameParser) (labels : List ℕ) (label : ℕ) (bf : FlowMessage)
        (bytes : List ℕ)
        → ShortSafe n frame
        → length bytes < n
        → IsBuilding base bf
        → IsParsed base (
            mpls_payload label bytes >>= λ payload.
            by_payload ch is_disabled decap v4 v6 frame payload labels bf bytes)
    mpls_payload-IsParsed n frame labels label bf bytes safe h b =
        IsParsed-taken (HasRoom bytes) _ _ (mpls_payload-Returns label bytes)
          (λ payload room. by_payload-IsParsed n frame payload labels bf bytes safe h room b)

    parse_mpls-IsParsed :
        (n : ℕ) (frame : FrameParser) (bf : FlowMessage) (bytes : List ℕ)
        → ShortSafe n frame
        → length bytes < n
        → IsBuilding base bf
        → IsParsed base (parse_mpls ch is_disabled decap v4 v6 frame bf bytes)
    unfolding parse_mpls
    parse_mpls-IsParsed n frame bf bytes safe h b =
        go (mpls_stack [] bytes) (mpls_stack-Within [] bytes)
      where
        go :
            (o : Option (List ℕ × ℕ × List ℕ))
            → Within (length bytes) o
            → IsParsed base (elim o [
              | none ↦ some (0, bf)
              | some (labels, label, rest) ↦ mpls_payload label rest >>= λ payload.
                  by_payload ch is_disabled decap v4 v6 frame payload labels bf rest
            ])
        go none w = IsParsed-some 0 bf b
        go (some (labels, label, rest)) w =
            mpls_payload-IsParsed n frame labels label bf rest safe (omega arith) b

    after_vlans-IsParsed :
        (n : ℕ) (frame : FrameParser) (bf : FlowMessage) (o : Option (ℕ × ℕ × List ℕ))
        → ShortSafe (suc n) frame
        → Within n o
        → IsBuilding base bf
        → IsParsed base (after_vlans ch is_disabled decap v4 v6 frame bf o)
    unfolding after_vlans
    after_vlans-IsParsed n frame bf none safe w b = IsParsed-some 0 bf b
    after_vlans-IsParsed n frame bf (some (etype, vlan, bytes)) safe w b =
        let c = set_vlans-IsBuilding vlan bf b in
        IsParsed-if (etype == etype_mpls) _ _
          (λ t. parse_mpls-IsParsed (suc n) frame _ bytes safe (omega arith) c)
          (λ t. by_etype-IsFrameSafe etype _ bytes c)

    parse_frames-IsParsed :
        (fuel : ℕ) → ShortSafe fuel (parse_frames ch is_disabled decap v4 v6 fuel)
    unfolding parse_frames
    parse_frames-IsParsed zero bf bytes h b = elim h [ ]
    parse_frames-IsParsed (suc fuel) bf bytes h b =
        let wanted = not (is_disabled l2) && is_none decap in
        IsParsed-if (ltb (length bytes) 14) _ _ (λ t. IsParsed-some 0 bf b)
          (λ t.
            let long : 14 ≤ length bytes = le_of (length bytes) 14 t in
            IsParsed-bind _ _
              (IsSafe-when wanted (macs ch is_disabled bytes) bf b
                (λ t. macs-IsSafe bytes bf long b))
              (λ m c. IsParsed-read _ _ (uint16-Returns bytes 12 (omega arith)) (λ etype.
                IsParsed-slice_from bytes 14 _ long (
                  after_vlans-IsParsed (length (drop 14 bytes)) _ m _
                    (λ bf' bytes' h'.
                      parse_frames-IsParsed fuel bf' bytes' (ground (arith, length-drop 14 bytes)))
                    (skip_vlans-Within wanted etype 0 (drop 14 bytes)) c))))

    parse_ethernet_with-IsFrameSafe :
        IsFrameSafe base (parse_ethernet_with ch is_disabled decap v4 v6)
    unfolding parse_ethernet_with
    parse_ethernet_with-IsFrameSafe bf bytes =
        parse_frames-IsParsed (suc (length bytes)) bf bytes (omega arith)

  parse_ethernet_plain-IsFrameSafe : IsFrameSafe base (parse_ethernet_plain ch is_disabled)
  unfolding parse_ethernet_plain
  parse_ethernet_plain-IsFrameSafe =
      parse_ethernet_with-IsFrameSafe decap_none _ _ (parse_ipv4_plain-IsFrameSafe ch is_disabled)
        (parse_ipv6_plain-IsFrameSafe ch is_disabled)

  vxlan-IsL4Safe : IsL4Safe base (vxlan ch is_disabled)
  unfolding vxlan
  vxlan-IsL4Safe bf bytes proto b =
      IsParsed-if (not (proto == proto_udp && ltb 16 (length bytes))) _ _
        (λ t. IsParsed-some 0 bf b)
        (λ t. IsParsed-read _ _ (uint16-Returns bytes 2 (ground arith)) (λ port.
          IsParsed-if (port == port_vxlan) _ _
            (λ s.
              IsParsed-slice_from bytes 16 _ (ground (arith, t))
                (parse_ethernet_plain-IsFrameSafe bf (drop 16 bytes) b))
            (λ t. IsParsed-some 0 bf b)))

  ip_payload-IsFrameSafe :
      (v4_mark v6_mark mark : ℕ) → IsFrameSafe base (ip_payload ch is_disabled v4_mark v6_mark mark)
  unfolding ip_payload
  ip_payload-IsFrameSafe v4_mark v6_mark mark bf bytes b =
      IsParsed-if (mark == v4_mark) _ _
        (λ t. parse_ipv4_plain-IsFrameSafe ch is_disabled bf bytes b)
        (λ t.
          IsParsed-if (mark == v6_mark) _ _
            (λ t. parse_ipv6_plain-IsFrameSafe ch is_disabled bf bytes b)
            (λ t. IsParsed-some 0 bf b))

  gre-IsL4Safe : IsL4Safe base (gre ch is_disabled)
  unfolding gre
  gre-IsL4Safe bf bytes proto b =
      IsParsed-if (not (proto == proto_gre && ltb 4 (length bytes))) _ _ (λ t. IsParsed-some 0 bf b)
        (λ t. IsParsed-read _ _ (uint16-Returns bytes 0 (ground arith)) (λ flags.
          IsParsed-read _ _ (uint16-Returns bytes 2 (ground arith)) (λ protocol.
            IsParsed-if (bit_and flags 0x4fff != 0) _ _ (λ t. IsParsed-some 0 bf b)
              (λ t.
                IsParsed-if (leb (4 + ones_count 16 flags * 4) (length bytes)) _ _
                  (λ t.
                    IsParsed-slice_from bytes _ _ (ground (arith, t))
                      (ip_payload-IsFrameSafe etype_ipv4 etype_ipv6 protocol bf _ b))
                  (λ t. IsParsed-some 0 bf b)))))

  srv6-IsParsed :
      (fuel : ℕ) (bf : FlowMessage) (bytes : List ℕ) (proto : ℕ)
      → length bytes < fuel
      → IsBuilding base bf
      → IsParsed base (srv6 ch is_disabled fuel bf bytes proto)
  unfolding srv6
  srv6-IsParsed zero bf bytes proto h b = elim h [ ]
  srv6-IsParsed (suc fuel) bf bytes proto h b =
      IsParsed-if (not (proto == proto_srh)) _ _
        (λ t. ip_payload-IsFrameSafe proto_ipv4 proto_ipv6 proto bf bytes b)
        (λ t.
          IsParsed-if (ltb (length bytes) 8) _ _ (λ t. IsParsed-some 0 bf b)
            (λ t.
              let long : 8 ≤ length bytes = le_of (length bytes) 8 t in
              IsParsed-read _ _ (byte-Returns bytes 2 (omega arith)) (λ kind.
                IsParsed-read _ _ (byte-Returns bytes 1 (omega arith)) (λ size.
                  IsParsed-read _ _ (byte-Returns bytes 0 (omega arith)) (λ inner.
                    IsParsed-if (kind != 4) _ _ (λ t. IsParsed-some 0 bf b)
                      (λ t.
                        IsParsed-if (ltb (length bytes) (8 + size * 8)) _ _
                          (λ t. IsParsed-some 0 bf b)
                          (λ t.
                            IsParsed-slice_from bytes (8 + size * 8) _
                              (le_of (length bytes) (8 + size * 8) t)
                              (srv6-IsParsed fuel bf (drop (8 + size * 8) bytes) inner
                                (ground (arith, length-drop (8 + size * 8) bytes)) b))))))))

  parse_l4-IsL4Safe : (decap : Decapsulation) → IsL4Safe base (parse_l4 ch is_disabled decap)
  unfolding parse_l4
  parse_l4-IsL4Safe decap_none bf bytes proto b =
      parse_l4_plain-IsL4Safe ch is_disabled bf bytes proto b
  parse_l4-IsL4Safe decap_vxlan bf bytes proto b = vxlan-IsL4Safe bf bytes proto b
  parse_l4-IsL4Safe decap_gre bf bytes proto b = gre-IsL4Safe bf bytes proto b
  parse_l4-IsL4Safe decap_ipip bf bytes proto b =
      ip_payload-IsFrameSafe proto_ipv4 proto_ipv6 proto bf bytes b
  parse_l4-IsL4Safe decap_srv6 bf bytes proto b =
      srv6-IsParsed (suc (length bytes)) bf bytes proto (omega arith) b

  pub parse_ipv4-IsFrameSafe :
      (decap : Decapsulation) → IsFrameSafe base (parse_ipv4 ch is_disabled decap)
  unfolding parse_ipv4
  parse_ipv4-IsFrameSafe decap =
      parse_ipv4_with-IsFrameSafe ch is_disabled (parse_l4 ch is_disabled decap) decap
        (parse_l4-IsL4Safe decap)

  pub parse_ipv6-IsFrameSafe :
      (decap : Decapsulation) → IsFrameSafe base (parse_ipv6 ch is_disabled decap)
  unfolding parse_ipv6
  parse_ipv6-IsFrameSafe decap =
      parse_ipv6_with-IsFrameSafe ch is_disabled (parse_l4 ch is_disabled decap) decap
        (parse_l4-IsL4Safe decap)

  -- For every protocol of decapsulation and every sampled frame, `ParseEthernet` on a flow that is
  -- being built does not panic and has fuel enough: it returns a length and a message, and the message
  -- is one of the flow that is being built.
  pub parse_ethernet-Returns :
      (decap : Decapsulation) (bf : FlowMessage) (bytes : List ℕ)
      → IsBuilding base bf
      → Returns (λ p. IsBuilding base p.1) (parse_ethernet ch is_disabled decap bf bytes)
  unfolding parse_ethernet
  parse_ethernet-Returns decap bf bytes b =
      (parse_ethernet_with-IsFrameSafe decap _ _ (parse_ipv4-IsFrameSafe decap)
        (parse_ipv6-IsFrameSafe decap) bf bytes b).returns
