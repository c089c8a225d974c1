-- ===== src/Packet/Frames/Decap.antt =====
-- Decapsulation in outlet/flow/decoder/helpers.go: the outer and the inner packet.
use akvorado.Prelude.{
  ℕ, zero, suc, ◌+◌, ◌*◌, ◌≡◌, refl, sym, ap, subst, ◌∙◌, ◌⊎◌, Bool, true, false, not, ◌&&◌, Option,
  none, some, List, [], ◌∷◌, length, drop, ltb, leb, ◌==◌, ◌!=◌, if◌then◌else◌, ◌>>=◌, Returns,
  arith, inl, inr, bit_and,
}
use akvorado.Schema.Keys.{ColumnGroup}
use akvorado.Schema.Columns.{ChGo}
use akvorado.Schema.Message.{Batch, FlowMessage}
use akvorado.Schema.Message.Pending.{IsBuilding}
use akvorado.Packet.Bytes.{
  etype_ipv4, etype_ipv6, proto_udp, proto_gre, proto_srh, proto_ipv4, proto_ipv6, port_vxlan,
  ones_count, slice_from, slice_from_cases, byte, uint16,
}
use akvorado.Packet.Headers.{
  Parsed, parse_ipv4_plain, parse_ipv6_plain, Decapsulation, decap_none, decap_vxlan, decap_gre,
  decap_ipip, decap_srv6, is_none, FrameParser,
}
use akvorado.Packet.Headers.Outer.{IsOuter, parse_ipv4_with-IsOuter, parse_ipv6_with-IsOuter}
use akvorado.Packet.Headers.Parsed.{IsParsed}
use akvorado.Packet.Frames.Safe.{parse_ipv4-IsFrameSafe, parse_ipv6-IsFrameSafe}
use akvorado.Packet.Frames.{
  parse_ethernet_plain, vxlan, ip_payload, gre, srv6, parse_l4, parse_ipv4, parse_ipv6,
}

-- The parsers of the inner packet.
pub data Inner : Type 0 where
  inner_ipv4 inner_ipv6 inner_ethernet : Inner

drop_empty : (n : ℕ) → drop {A = ℕ} n [] ≡ []
drop_empty zero = refl
drop_empty (suc n) = refl

drop-drop : (m n : ℕ) (xs : List ℕ) → drop n (drop m xs) ≡ drop (m + n) xs
drop-drop zero n xs = let e : zero + n ≡ n = omega arith in rw e refl
drop-drop (suc m) n [] = drop_empty n ∙ sym (drop_empty (suc m + n))
drop-drop (suc m) n (x ∷ xs) =
    let e : suc m + n ≡ suc (m + n) = omega arith in rw e (drop-drop m n xs)

module _ (ch : ChGo) (is_disabled : ColumnGroup → Bool) where
  abbrev pub parse_inner : Inner → FrameParser
  parse_inner inner_ipv4 = parse_ipv4_plain ch is_disabled
  parse_inner inner_ipv6 = parse_ipv6_plain ch is_disabled
  parse_inner inner_ethernet = parse_ethernet_plain ch is_disabled

  -- The result is that of an inner packet, which is the end of the outer one.
  abbrev pub IsInner : FlowMessage → List ℕ → Parsed → Type 0
  IsInner bf bytes r =
      (r ≡ some (0, bf)) ⊎ ((inner : Inner) × (n : ℕ) × (r ≡ parse_inner inner bf (drop n bytes)))

  -- Or the parser panicked.
  abbrev Decapsulated : FlowMessage → List ℕ → Parsed → Type 0
  Decapsulated bf bytes r = (r ≡ none) ⊎ IsInner bf bytes r

  module _ (bf : FlowMessage) (bytes : List ℕ) where
    skipped : Decapsulated bf bytes (some (0, bf))
    skipped = inr (inl refl)

    found : (inner : Inner) (n : ℕ) → Decapsulated bf bytes (parse_inner inner bf (drop n bytes))
    found inner n = inr (inr (inner, n, refl))

    Decapsulated-if :
        (t : Bool) (m n : Parsed)
        → Decapsulated bf bytes m
        → Decapsulated bf bytes n
        → Decapsulated bf bytes (if t then m else n)
    Decapsulated-if true m n h k = h
    Decapsulated-if false m n h k = k

    Decapsulated-read :
        {A : Type 0} (m : Option A) (f : A → Parsed)
        → ((a : A) → Decapsulated bf bytes (f a))
        → Decapsulated bf bytes (m >>= f)
    Decapsulated-read none f h = inl refl
    Decapsulated-read (some a) f h = h a

    Decapsulated-slice_from :
        (n : ℕ) (f : List ℕ → Parsed)
        → Decapsulated bf bytes (f (drop n bytes))
        → Decapsulated bf bytes (slice_from bytes n >>= f)
    Decapsulated-slice_from n f h = elim (slice_from_cases bytes n) [
      | inl e ↦ rw e (inl refl)
      | inr e ↦ rw e h
    ]

    Decapsulated-drop :
        (k : ℕ) (r : Parsed) → Decapsulated bf (drop k bytes) r → Decapsulated bf bytes r
    Decapsulated-drop k r (inl e) = inl e
    Decapsulated-drop k r (inr (inl e)) = inr (inl e)
    Decapsulated-drop k r (inr (inr (inner, n, e))) =
        inr (inr (inner, k + n, e ∙ ap (parse_inner inner bf) (drop-drop k n bytes)))

    ip_payload-Decapsulated :
        (a b mark n : ℕ)
        → Decapsulated bf bytes (ip_payload ch is_disabled a b mark bf (drop n bytes))
    unfolding ip_payload
    ip_payload-Decapsulated a b mark n =
        Decapsulated-if (mark == a) _ _ (found inner_ipv4 n)
          (Decapsulated-if (mark == b) _ _ (found inner_ipv6 n) skipped)

    vxlan-Decapsulated : (proto : ℕ) → Decapsulated bf bytes (vxlan ch is_disabled bf bytes proto)
    unfolding vxlan
    vxlan-Decapsulated proto =
        Decapsulated-if (not (proto == proto_udp && ltb 16 (length bytes))) _ _ skipped (
          Decapsulated-read (uint16 bytes 2) _ (λ port.
            Decapsulated-if (port == port_vxlan) _ _
              (Decapsulated-slice_from 16 _ (found inner_ethernet 16)) skipped))

    gre-Decapsulated : (proto : ℕ) → Decapsulated bf bytes (gre ch is_disabled bf bytes proto)
    unfolding gre
    gre-Decapsulated proto =
        Decapsulated-if (not (proto == proto_gre && ltb 4 (length bytes))) _ _ skipped (
          Decapsulated-read (uint16 bytes 0) _ (λ flags.
            Decapsulated-read (uint16 bytes 2) _ (λ protocol.
              Decapsulated-if (bit_and flags 0x4fff != 0) _ _ skipped (
                Decapsulated-if (leb (4 + ones_count 16 flags * 4) (length bytes)) _ _
                  (Decapsulated-slice_from _ _
                    (ip_payload-Decapsulated etype_ipv4 etype_ipv6 protocol _))
                  skipped))))

  srv6-Decapsulated :
      (fuel : ℕ) (bf : FlowMessage) (bytes : List ℕ) (proto : ℕ)
      → Decapsulated bf bytes (srv6 ch is_disabled fuel bf bytes proto)
  unfolding srv6
  srv6-Decapsulated zero bf bytes proto = inl refl
  srv6-Decapsulated (suc fuel) bf bytes proto =
      Decapsulated-if bf bytes (not (proto == proto_srh)) _ _
        (ip_payload-Decapsulated bf bytes proto_ipv4 proto_ipv6 proto 0)
        (Decapsulated-if bf bytes (ltb (length bytes) 8) _ _ (skipped bf bytes) (
          Decapsulated-read bf bytes (byte bytes 2) _ (λ kind.
            Decapsulated-read bf bytes (byte bytes 1) _ (λ size.
              Decapsulated-read bf bytes (byte bytes 0) _ (λ next.
                Decapsulated-if bf bytes (kind != 4) _ _ (skipped bf bytes) (
                  Decapsulated-if bf bytes (ltb (length bytes) (8 + size * 8)) _ _
                    (skipped bf bytes)
                    (Decapsulated-slice_from bf bytes (8 + size * 8) _ (
                      Decapsulated-drop bf bytes (8 + size * 8) _
                        (srv6-Decapsulated fuel bf (drop (8 + size * 8) bytes) next)))))))))

  parse_l4-Decapsulated :
      (decap : Decapsulation) (bf : FlowMessage) (bytes : List ℕ) (proto : ℕ)
      → is_none decap ≡ false
      → Decapsulated bf bytes (parse_l4 ch is_disabled decap bf bytes proto)
  unfolding parse_l4
  parse_l4-Decapsulated decap_none bf bytes proto h = ground arith
  parse_l4-Decapsulated decap_vxlan bf bytes proto h = vxlan-Decapsulated bf bytes proto
  parse_l4-Decapsulated decap_gre bf bytes proto h = gre-Decapsulated bf bytes proto
  parse_l4-Decapsulated decap_ipip bf bytes proto h =
      ip_payload-Decapsulated bf bytes proto_ipv4 proto_ipv6 proto 0
  parse_l4-Decapsulated decap_srv6 bf bytes proto h =
      srv6-Decapsulated (suc (length bytes)) bf bytes proto

  outer-Decapsulated :
      (decap : Decapsulation) (bf : FlowMessage) (bytes : List ℕ) (r : Parsed)
      → is_none decap ≡ false
      → IsOuter (parse_l4 ch is_disabled decap) bf bytes r
      → Decapsulated bf bytes r
  outer-Decapsulated decap bf bytes r h (inl e) = inl e
  outer-Decapsulated decap bf bytes r h (inr (inl e)) = inr (inl e)
  outer-Decapsulated decap bf bytes r h (inr (inr (n, proto, e))) =
      subst (Decapsulated bf bytes) (sym e)
        (Decapsulated-drop bf bytes n _ (parse_l4-Decapsulated decap bf (drop n bytes) proto h))

  returned :
      {base : Batch} (bf : FlowMessage) (bytes : List ℕ) (r : Parsed)
      → IsParsed base r
      → Decapsulated bf bytes r
      → IsInner bf bytes r
  returned {base} bf bytes r p (inl e) =
      absurd (subst (Returns (λ q. IsBuilding base q.1)) e p.returns)
  returned bf bytes r p (inr i) = i

  -- With decapsulation, `ParseIPv4` of a flow that is being built stores nothing of the outer packet:
  -- it leaves the flow as it is with the length 0, or does what the parser of an IPv4 packet, an IPv6
  -- packet or a frame does, without decapsulation, on an end of the packet.
  pub parse_ipv4-IsInner :
      {base : Batch} (decap : Decapsulation) (bf : FlowMessage) (bytes : List ℕ)
      → is_none decap ≡ false
      → IsBuilding base bf
      → IsInner bf bytes (parse_ipv4 ch is_disabled decap bf bytes)
  unfolding parse_ipv4
  parse_ipv4-IsInner decap bf bytes h b =
      returned bf bytes _ (parse_ipv4-IsFrameSafe ch is_disabled decap bf bytes b) (
        outer-Decapsulated decap bf bytes _ h
          (parse_ipv4_with-IsOuter ch is_disabled (parse_l4 ch is_disabled decap) decap bf bytes h))

  -- With decapsulation, `ParseIPv6` of a flow that is being built stores nothing of the outer packet:
  -- it leaves the flow as it is with the length 0, or does what the parser of an IPv4 packet, an IPv6
  -- packet or a frame does, without decapsulation, on an end of the packet.
  pub parse_ipv6-IsInner :
      {base : Batch} (decap : Decapsulation) (bf : FlowMessage) (bytes : List ℕ)
      → is_none decap ≡ false
      → IsBuilding base bf
      → IsInner bf bytes (parse_ipv6 ch is_disabled decap bf bytes)
  unfolding parse_ipv6
  parse_ipv6-IsInner decap bf bytes h b =
      returned bf bytes _ (parse_ipv6-IsFrameSafe ch is_disabled decap bf bytes b) (
        outer-Decapsulated decap bf bytes _ h
          (parse_ipv6_with-IsOuter ch is_disabled (parse_l4 ch is_disabled decap) decap bf bytes h))
