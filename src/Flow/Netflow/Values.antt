-- ===== src/Flow/Netflow/Values.antt =====
-- The fields of a NetFlow v9 or IPFIX record (outlet/flow/decoder/netflow/decode.go) and the batch of
-- the flow.
use native.Mathlib.Decide.{ℕ_discrete}
use akvorado.Prelude.{
  ℕ, refl, Bool, true, false, not, ◌||◌, List, [], ◌∷◌, ltb, ◌==◌, Option-cases, Bool-cases, inl,
  inr, Returns, Returns-bind, arith,
}
use akvorado.GoMap
use akvorado.GoMap.{AllValues, get-AllValues}
use akvorado.Schema.Keys
use akvorado.Schema.Keys.{ColumnGroup, l2, nat, l3l4}
use akvorado.Schema.Columns.{ChGo, accepts_uint}
use akvorado.Schema.Message.{Batch, FlowMessage}
use akvorado.Schema.Message.Pending.{IsBuilding}
use akvorado.Schema.Message.Append.{HasType}
use akvorado.Schema.Message.Safe.{
  IsSafe, IsSafe-some, IsSafe-bind, IsSafe-if, append_uint-IsSafe, append_ipv6-IsSafe,
}
use akvorado.Schema.Batch.Runs.{IsBuilding-fields}
use akvorado.Packet.Headers.{Decapsulation}
use akvorado.Packet.Headers.Parsed.{IsSafe-when}
use akvorado.Packet.Frames.Safe.{parse_ethernet-Returns}
use akvorado.Flow.Fill.{append_uints-IsSafe}
use akvorado.Flow.Netflow.{decode_u_number}
use akvorado.Flow.Netflow.Fields.{
  Context, Locals, Field, column, sampling_interval, sampler, source_address, destination_address,
  source_mask, destination_mask, next_hop, source_port, destination_port, protocol, source_as,
  destination_as, ingress, egress, physical_ingress, physical_egress, frame_section, mpls_label,
  flow_direction, other, first_switch, field_of,
}
use akvorado.Flow.Netflow.Assign.{
  is_frame, l3l4_switch, set_time, set_nat, set_l2, set_l3l4, set_other, set_address, set_message,
  set_frame, add_field,
}

-- A field that is written to a column as it is has a column of numbers.
abbrev pub IsField : Field → Type 0
IsField (column key) = HasType accepts_uint key
IsField _ = Unit {0}

first_switch-AllValues : AllValues {K = ℕ} IsField first_switch
first_switch-AllValues = ground arith

l3l4_switch-AllValues : AllValues {K = ℕ} (HasType accepts_uint) l3l4_switch
l3l4_switch-AllValues = ground arith

pub field_of-IsField : (type_id : ℕ) → IsField (field_of type_id)
unfolding field_of
field_of-IsField type_id = elim (Option-cases (GoMap.get ℕ_discrete type_id first_switch)) [
  | inl e ↦ rw (e, field_of) tt
  | inr (f, e) ↦
      rw (e, field_of)
        (get-AllValues IsField ℕ_discrete type_id first_switch f first_switch-AllValues e)
]

module _ (ch : ChGo) (is_disabled : ColumnGroup → Bool) {base : Batch} where
  set_time-IsBuilding :
      (c : Context) (type_id n : ℕ) (bf : FlowMessage)
      → IsBuilding base bf
      → IsBuilding base (set_time c type_id n bf)
  unfolding set_time
  set_time-IsBuilding c type_id n bf b =
      IsBuilding-fields bf (set_time c type_id n bf) (ground arith) (ground arith) b

  set_address-IsBuilding :
      (source : Bool) (v : List ℕ) (bf : FlowMessage)
      → IsBuilding base bf
      → IsBuilding base (set_address ch is_disabled source v bf)
  unfolding set_address
  set_address-IsBuilding source v bf b =
      IsBuilding-fields bf (set_address ch is_disabled source v bf) (ground arith) (ground arith) b

  set_nat-IsSafe :
      (type_id : ℕ) (v : List ℕ) (bf : FlowMessage)
      → IsBuilding base bf
      → IsSafe base (set_nat ch is_disabled type_id v bf)
  unfolding set_nat
  set_nat-IsSafe type_id v bf b =
      IsSafe-if (type_id == 225) _ _ (append_ipv6-IsSafe ch Keys.src_addr_nat bf b _ refl) (
        IsSafe-if (type_id == 226) _ _ (append_ipv6-IsSafe ch Keys.dst_addr_nat bf b _ refl) (
          IsSafe-if (type_id == 227) _ _ (append_uint-IsSafe ch Keys.src_port_nat bf b _ refl) (
            IsSafe-if (type_id == 228) _ _ (append_uint-IsSafe ch Keys.dst_port_nat bf b _ refl)
              (IsSafe-some bf b))))

  set_l2-IsSafe :
      (type_id n : ℕ) (bf : FlowMessage)
      → IsBuilding base bf
      → IsSafe base (set_l2 ch is_disabled type_id n bf)
  unfolding set_l2
  set_l2-IsSafe type_id n bf b =
      IsSafe-if (type_id == 58 || type_id == 243) _ _
        (IsSafe-some _ (IsBuilding-fields bf _ refl refl b))
        (IsSafe-if (type_id == 59 || type_id == 254) _ _
          (IsSafe-some _ (IsBuilding-fields bf _ refl refl b))
          (IsSafe-if (type_id == 56 || type_id == 81) _ _
            (append_uint-IsSafe ch Keys.src_mac bf b n refl)
            (IsSafe-if (type_id == 80 || type_id == 57) _ _
              (append_uint-IsSafe ch Keys.dst_mac bf b n refl) (IsSafe-some bf b))))

  set_l3l4-IsSafe :
      (type_id n : ℕ) (bf : FlowMessage)
      → IsBuilding base bf
      → IsSafe base (set_l3l4 ch is_disabled type_id n bf)
  unfolding set_l3l4
  set_l3l4-IsSafe type_id n bf b = elim (Option-cases (GoMap.get ℕ_discrete type_id l3l4_switch)) [
    | inl e ↦ rw (e, set_l3l4) (IsSafe-some bf b)
    | inr (key, e) ↦
        rw (e, set_l3l4)
          (append_uint-IsSafe ch key bf b n (
            get-AllValues (HasType accepts_uint) ℕ_discrete type_id l3l4_switch key
              l3l4_switch-AllValues e))
  ]

  set_other-IsSafe :
      (c : Context) (type_id : ℕ) (v : List ℕ) (bf : FlowMessage)
      → IsBuilding base bf
      → IsSafe base (set_other ch is_disabled c type_id v bf)
  unfolding set_other
  set_other-IsSafe c type_id v bf b =
      let m = set_time c type_id (decode_u_number v) bf in
      let b0 = set_time-IsBuilding c type_id (decode_u_number v) bf b in
      IsSafe-bind _ _
        (IsSafe-when (not (is_disabled nat)) (set_nat ch is_disabled type_id v) m b0
          (λ t. set_nat-IsSafe type_id v m b0))
        (λ m1 b1.
          IsSafe-bind _ _
            (IsSafe-when (not (is_disabled l2)) (set_l2 ch is_disabled type_id (decode_u_number v))
              m1 b1 (λ t. set_l2-IsSafe type_id _ m1 b1))
            (λ m2 b2.
              IsSafe-when (not (is_disabled l3l4))
                (set_l3l4 ch is_disabled type_id (decode_u_number v)) m2 b2
                (λ t. set_l3l4-IsSafe type_id _ m2 b2)))

  set_message-IsSafe :
      (decap : Decapsulation) (c : Context) (type_id : ℕ) (f : Field) (v : List ℕ)
      (bf : FlowMessage)
      → IsField f
      → IsBuilding base bf
      → IsSafe base (set_message ch is_disabled decap c type_id f v bf)
  unfolding set_message
  set_message-IsSafe decap c type_id (column key) v bf h b = append_uint-IsSafe ch key bf b _ h
  set_message-IsSafe decap c type_id sampling_interval v bf h b =
      IsSafe-some _ (IsBuilding-fields bf _ refl refl b)
  set_message-IsSafe decap c type_id sampler v bf h b =
      IsSafe-some _ (IsBuilding-fields bf _ refl refl b)
  set_message-IsSafe decap c type_id (source_address e) v bf h b =
      IsSafe-some _ (set_address-IsBuilding true v bf b)
  set_message-IsSafe decap c type_id (destination_address e) v bf h b =
      IsSafe-some _ (set_address-IsBuilding false v bf b)
  set_message-IsSafe decap c type_id source_mask v bf h b =
      IsSafe-some _ (IsBuilding-fields bf _ refl refl b)
  set_message-IsSafe decap c type_id destination_mask v bf h b =
      IsSafe-some _ (IsBuilding-fields bf _ refl refl b)
  set_message-IsSafe decap c type_id next_hop v bf h b =
      IsSafe-some _ (IsBuilding-fields bf _ refl refl b)
  set_message-IsSafe decap c type_id source_port v bf h b =
      append_uint-IsSafe ch Keys.src_port bf b _ refl
  set_message-IsSafe decap c type_id destination_port v bf h b =
      append_uint-IsSafe ch Keys.dst_port bf b _ refl
  set_message-IsSafe decap c type_id protocol v bf h b =
      append_uint-IsSafe ch Keys.proto bf b _ refl
  set_message-IsSafe decap c type_id source_as v bf h b =
      IsSafe-some _ (IsBuilding-fields bf _ refl refl b)
  set_message-IsSafe decap c type_id destination_as v bf h b =
      IsSafe-some _ (IsBuilding-fields bf _ refl refl b)
  set_message-IsSafe decap c type_id ingress v bf h b =
      IsSafe-some _ (IsBuilding-fields bf _ refl refl b)
  set_message-IsSafe decap c type_id egress v bf h b =
      IsSafe-some _ (IsBuilding-fields bf _ refl refl b)
  set_message-IsSafe decap c type_id physical_ingress v bf h b =
      IsSafe-some _ (IsBuilding-fields bf _ refl refl b)
  set_message-IsSafe decap c type_id physical_egress v bf h b =
      IsSafe-some _ (IsBuilding-fields bf _ refl refl b)
  set_message-IsSafe decap c type_id frame_section v bf h b = IsSafe-some bf b
  set_message-IsSafe decap c type_id mpls_label v bf h b = IsSafe-some bf b
  set_message-IsSafe decap c type_id flow_direction v bf h b =
      IsSafe-if (decode_u_number v == 0) _ _ (append_uint-IsSafe ch Keys.flow_direction bf b _ refl)
        (IsSafe-if (decode_u_number v == 1) _ _
          (append_uint-IsSafe ch Keys.flow_direction bf b _ refl) (IsSafe-some bf b))
  set_message-IsSafe decap c type_id other v bf h b = set_other-IsSafe c type_id v bf b

  set_frame-Returns :
      (decap : Decapsulation) (v : List ℕ) (bf : FlowMessage)
      → IsBuilding base bf
      → Returns (λ r. IsBuilding base r.1) (set_frame ch is_disabled decap v bf)
  unfolding set_frame
  set_frame-Returns decap v bf b =
      Returns-bind (λ p. IsBuilding base p.1) (λ r. IsBuilding base r.1) _ _
        (parse_ethernet-Returns ch is_disabled decap bf v b)
        (λ p c. elim (Bool-cases (ltb 0 p.0)) [
          | inl e ↦ rw e (
              Returns-bind (IsBuilding base) (λ r. IsBuilding base r.1) _ _
                (append_uints-IsSafe ch ((Keys.bytes, p.0) ∷ (Keys.packets, 1) ∷ []) p.1
                  (refl, (refl, tt)) c).returns
                (λ m d. d))
          | inr e ↦ rw e c
        ])

  -- One field: the message stays one of a flow that is being built.
  pub add_field-Returns :
      (decap : Decapsulation) (c : Context) (type_id : ℕ) (f : Field) (v : List ℕ)
      (s : Locals × FlowMessage)
      → IsField f
      → IsBuilding base s.1
      → Returns (λ r. IsBuilding base r.1) (add_field ch is_disabled decap c type_id f v s)
  unfolding add_field
  add_field-Returns decap c type_id f v (l, bf) h b = elim (Bool-cases (is_frame f)) [
    | inl e ↦ rw e (
        Returns-bind (λ r. IsBuilding base r.1) (λ r. IsBuilding base r.1) _ _
          (set_frame-Returns decap v bf b) (λ r k. k))
    | inr e ↦ rw e (
        Returns-bind (IsBuilding base) (λ r. IsBuilding base r.1) _ _
          (set_message-IsSafe decap c type_id f v bf h b).returns (λ m k. k))
  ]
