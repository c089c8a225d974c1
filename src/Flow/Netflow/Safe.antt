-- ===== src/Flow/Netflow/Safe.antt =====
-- `decodeRecord` of outlet/flow/decoder/netflow/decode.go and the batch of its flows.
use akvorado.Packet.Bytes.{byte-Returns}
use akvorado.Packet.Headers.Parsed.{IsSafe-read}
use akvorado.Prelude.{
  arith, Returns-if, ℕ, ◌≡◌, refl, Bool, true, false, not, ◌||◌, ◌&&◌, Option, none, some, List, [],
  ◌∷◌, length, ◌/◌, ◌==◌, if◌then◌else◌, ◌>>=◌, Option-cases, Bool-cases, inl, inr, Returns,
  Returns-bind, Returns-weaken,
}
use akvorado.Schema.Keys
use akvorado.Schema.Keys.{ColumnGroup, l3l4}
use akvorado.Schema.Columns.{ChGo}
use akvorado.Schema.Message.{Batch, FlowMessage, reverse_flow}
use akvorado.Schema.Message.Pending.{IsBuilding}
use akvorado.Schema.Message.Safe.{
  IsSafe, IsSafe-some, IsSafe-bind, IsSafe-if, append_uint-IsSafe, append_array_uint32-IsSafe,
}
use akvorado.Schema.Batch.{undo}
use akvorado.Schema.Batch.Aligned.{IsAligned-IsBuilding, undo_lem}
use akvorado.Schema.Batch.Runs.{IsBuilding-fields}
use akvorado.Packet.Headers.{Decapsulation, is_none}
use akvorado.Packet.Headers.Parsed.{IsSafe-when}
use akvorado.Flow.Stream.{
  Stream, FinalizeFlow, IsStreaming, IsKept, Keeps, IsKept-some, IsKept-bind, IsKept-if,
  IsStreaming-message, undo-IsKept,
}
use akvorado.Flow.Fill.{append_uints, append_uints-IsSafe}
use akvorado.Flow.Netflow.{DataField}
use akvorado.Flow.Netflow.Fields.{Context, Locals, no_locals, field_of}
use akvorado.Flow.Netflow.Values.{field_of-IsField, add_field-Returns}
use akvorado.Flow.Netflow.Record.{
  other_direction, BitSet, Direction, direction_forward, direction_reverse, Use, counts, notes,
  juniper, skips, use_of, is_empty_reverse, Scan, empty, scanned, juniper_exception, scan_field,
  scan, end_direction, local_finalize, reverse_direction, decode_record,
}

module _ (ch : ChGo) (is_disabled : ColumnGroup → Bool) (decap : Decapsulation) where
  module _ {base : Batch} where
    juniper_exception-IsSafe :
        (type_id : ℕ) (v : List ℕ) (bf : FlowMessage)
        → IsBuilding base bf
        → IsSafe base (juniper_exception ch is_disabled decap type_id v bf)
    unfolding juniper_exception
    juniper_exception-IsSafe type_id v bf b = elim (Bool-cases (type_id == 137 && length v == 2)) [
      | inr e ↦ rw e (IsSafe-some bf b)
      | inl e ↦ rw e (
          IsSafe-read _ _ (byte-Returns v 0 (ground (arith, e))) (λ first.
            IsSafe-if (first / 4 == 2) _ _
              (append_uint-IsSafe ch Keys.forwarding_status bf b _ refl) (IsSafe-some bf b)))
    ]

    end_rate-IsSafe :
        (c : Context) (m : FlowMessage)
        → IsBuilding base m
        → IsSafe base (
            some
              (if m.sampling_rate == 0 then record m { sampling_rate = c.sampling_rate 0 } else m))
    end_rate-IsSafe c m b = elim (Bool-cases (m.sampling_rate == 0)) [
      | inl e ↦ rw e (IsSafe-some _ (IsBuilding-fields m _ refl refl b))
      | inr e ↦ rw e (IsSafe-some m b)
    ]

    icmp-IsSafe :
        (t : Bool) (a b c d : ℕ) (bf : FlowMessage)
        → IsBuilding base bf
        → IsSafe base (
            append_uints ch
              (if t
                then (Keys.icmpv4_type, a) ∷ (Keys.icmpv4_code, b) ∷ []
                else (Keys.icmpv6_type, c) ∷ (Keys.icmpv6_code, d) ∷ [])
              bf)
    icmp-IsSafe true a b c d bf h = append_uints-IsSafe ch _ bf (refl, (refl, tt)) h
    icmp-IsSafe false a b c d bf h = append_uints-IsSafe ch _ bf (refl, (refl, tt)) h

    end_direction-IsSafe :
        (c : Context) (l : Locals) (bf : FlowMessage)
        → IsBuilding base bf
        → IsSafe base (end_direction ch is_disabled decap c l bf)
    unfolding end_direction
    end_direction-IsSafe c l bf b =
        IsSafe-bind _ _
          (IsSafe-when (not (is_disabled l3l4) && (l.proto == 1 || l.proto == 58)) _ bf b
            (λ t. icmp-IsSafe (l.proto == 1) _ _ _ _ bf b))
          (λ m1 b1. IsSafe-bind _ _ (append_uint-IsSafe ch Keys.etype m1 b1 l.etype refl) (λ m2 b2.
            IsSafe-bind _ _
              (append_array_uint32-IsSafe ch Keys.mpls_labels m2 b2 l.mpls_labels refl)
              (λ m3 b3. end_rate-IsSafe c m3 b3)))

  module _ {X : Type 0} (R : ℕ → X → Type 0) where
    -- What the scan of a direction may leave, for a stream `s`: a message that was taken back is
    -- ready for another flow, and one that was filled is that of the same flow.
    abbrev IsScan : {B : Type 0} (s : Stream X) → IsStreaming R s → Scan B → Type 0
    IsScan s h (empty m) = IsStreaming R (m, s.1)
    IsScan s h (scanned present r) = IsBuilding h.start.batch r.1

    undo-IsStreaming :
        (s : Stream X) (h : IsStreaming R s) (bf : FlowMessage)
        → IsBuilding h.start.batch bf
        → Returns (λ m. IsStreaming R (m, s.1)) (undo bf)
    undo-IsStreaming s h bf b =
        Returns-weaken _ (λ m. IsStreaming R (m, s.1)) (undo bf)
          (λ m r. record {
            start = m;
            aligned = r.0;
            building = IsAligned-IsBuilding m r.0;
            related = rw r.2 h.related;
          })
          (undo_lem h.start bf h.aligned b)

    module _ {B : Type 0} (bits : BitSet B) (c : Context) (dir : Direction) (s : Stream X)
        (h : IsStreaming R s) where
      scan_field-Returns :
          (u : Use) (f : DataField) (v : List ℕ) (present : Option B) (r : Locals × FlowMessage)
          → use_of bits dir f present ≡ u
          → IsBuilding h.start.batch r.1
          → Returns (IsScan s h) (scan_field ch is_disabled decap bits c dir f v present r)
      unfolding scan_field
      scan_field-Returns skips f v present r e b = rw (e, scan_field) b
      scan_field-Returns notes f v present r e b = rw (e, scan_field) b
      scan_field-Returns juniper f v present r e b =
          rw (e, scan_field)
            (Returns-bind (IsBuilding h.start.batch) (IsScan {B = B} s h) _ _
              (juniper_exception-IsSafe f.type_id v r.1 b).returns (λ m k. k))
      scan_field-Returns counts f v present r e b =
          rw (e, scan_field)
            (Returns-if (IsScan s h) (is_empty_reverse dir f.type_id v) _ _
              (Returns-bind (λ m. IsStreaming R (m, s.1)) (IsScan s h) (undo r.1) _
                (undo-IsStreaming s h r.1 b) (λ m k. k))
              (Returns-bind (λ q. IsBuilding h.start.batch q.1) (IsScan s h) _ _
                (add_field-Returns ch is_disabled decap c f.type_id (field_of f.type_id) v r
                  (field_of-IsField f.type_id) b)
                (λ q k. k)))

      scan-Returns :
          (fields : List DataField) (present : Option B) (r : Locals × FlowMessage)
          → IsBuilding h.start.batch r.1
          → Returns (IsScan s h) (scan ch is_disabled decap bits c dir fields present r)
      unfolding scan
      scan-Returns [] present r b = b
      scan-Returns (f ∷ fields) present r b = elim (Option-cases f.value) [
        | inl e ↦ rw (e, scan) (scan-Returns fields present r b)
        | inr (v, e) ↦
            rw (e, scan)
              (Returns-bind (IsScan {B = B} s h) (IsScan {B = B} s h) _ _
                (scan_field-Returns _ f v present r refl b)
                (elim [
                  | empty m ↦ λ q. q
                  | scanned present' s' ↦ λ q. scan-Returns fields present' s' q
                ]))
      ]

    finish-IsKept :
        (decap_ok : Bool) (finalize : FinalizeFlow X)
        → Keeps R finalize
        → Keeps R (local_finalize ch is_disabled decap finalize decap_ok)
    unfolding local_finalize
    finish-IsKept decap_ok finalize keeps s h =
        IsKept-if R (not (is_none decap) && not decap_ok) _ _ (undo-IsKept R s h) (keeps s h)

    module _ {B : Type 0} (bits : BitSet B) (c : Context) (fields : List DataField)
        (finalize : FinalizeFlow X) (keeps : Keeps R finalize) where
      -- The end of a direction, after which the flow goes on by `next`.
      end-IsKept :
          (s : Stream X) (h : IsStreaming R s) (l : Locals) (bf : FlowMessage)
          (next : FlowMessage → Option (Stream X))
          → IsBuilding h.start.batch bf
          → ((m : FlowMessage) → IsBuilding h.start.batch m → IsKept R (next m))
          → IsKept R (end_direction ch is_disabled decap c l bf >>= next)
      end-IsKept s h l bf next b k = record {
        returns =
            Returns-bind (IsBuilding h.start.batch) (IsStreaming R) _ next
              (end_direction-IsSafe c l bf b).returns (λ m d. (k m d).returns);
      }

      reverse-IsStreaming :
          (s : Stream X) (h : IsStreaming R s) (m : FlowMessage)
          → IsBuilding h.start.batch m
          → IsStreaming R (reverse_flow m, s.1)
      unfolding reverse_flow
      reverse-IsStreaming s h m b =
          IsStreaming-message R s h _ (IsBuilding-fields m (reverse_flow m) refl refl b)

      scanned-IsKept :
          (s : Stream X) (h : IsStreaming R s) (dir : Direction) (present : Option B)
          (next : Scan B → Option (Stream X))
          → ((r : Scan B) → IsScan s h r → IsKept R (next r))
          → IsKept R (scan ch is_disabled decap bits c dir fields present (no_locals, s.0) >>= next)
      scanned-IsKept s h dir present next k = record {
        returns =
            Returns-bind (IsScan s h) (IsStreaming R) _ next
              (scan-Returns bits c dir s h fields present (no_locals, s.0) h.building)
              (λ r q. (k r q).returns);
      }

      reverse_direction-IsKept :
          (present : Option B)
          → Keeps R (reverse_direction ch is_disabled decap finalize bits c fields present)
      unfolding reverse_direction
      reverse_direction-IsKept present s h = scanned-IsKept s h direction_reverse present _ (elim [
        | empty m ↦ λ q. IsKept-some R (m, s.1) q
        | scanned present' p ↦ λ q.
            end-IsKept s h p.0 p.1 _ q
              (λ m d. finish-IsKept p.0.decap_ok finalize keeps _ (reverse-IsStreaming s h m d))
      ])

      other_direction-IsKept :
          (present : Option B)
          → Keeps R (other_direction ch is_disabled decap finalize bits c fields present)
      unfolding other_direction
      other_direction-IsKept none s h = IsKept-some R s h
      other_direction-IsKept (some b) s h =
          reverse_direction-IsKept (some b) _ (reverse-IsStreaming s h s.0 h.building)

      -- One record: whatever its fields, the stream stays one of a flow that is being built.
      pub decode_record-IsKept : Keeps R (decode_record ch is_disabled decap finalize bits c fields)
      unfolding decode_record
      decode_record-IsKept s h = scanned-IsKept s h direction_forward none _ (elim [
        | empty m ↦ λ q. IsKept-some R (m, s.1) q
        | scanned present p ↦ λ q. end-IsKept s h p.0 p.1 _ q (λ m d.
            IsKept-bind R _ _
              (finish-IsKept p.0.decap_ok finalize keeps (m, s.1) (IsStreaming-message R s h m d))
              (other_direction-IsKept present))
      ])
