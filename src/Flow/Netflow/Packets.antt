-- ===== src/Flow/Netflow/Packets.antt =====
-- `Decode` of outlet/flow/decoder/netflow/root.go and the batch of its flows.
use akvorado.Packet.Bytes.{uint16, uint16-Returns, slice_from_within}
use akvorado.Prelude.{
  ◌≤◌, Bool-cases, arith, drop, ℕ, refl, Bool, not, List, [], ◌∷◌, length, ltb, ◌==◌, Option-cases,
  inl, inr, Returns, Returns-bind, Returns-if,
}
use akvorado.Net.{Addr}
use akvorado.Schema.Keys.{ColumnGroup, l3l4}
use akvorado.Schema.Columns.{ChGo}
use akvorado.Schema.Message.{Batch, FlowMessage}
use akvorado.Schema.Message.Pending.{IsBuilding}
use akvorado.Schema.Message.Safe.{IsSafe, IsSafe-bind}
use akvorado.Schema.Batch.Runs.{IsBuilding-fields}
use akvorado.Packet.Headers.{Decapsulation, is_none}
use akvorado.Packet.Headers.Parsed.{IsSafe-when}
use akvorado.Flow.Stream.{
  Stream, FinalizeFlow, IsStreaming, Keeps, IsKept-some, IsKept-bind, IsStreaming-message,
  on_message-IsKept,
}
use akvorado.Flow.Fill.{append_uints-IsSafe}
use akvorado.Flow.Netflow.{get_template, DataField, TimestampSource, TemplatesAndOptions, Key}
use akvorado.Flow.Netflow.Fields.{Context}
use akvorado.Flow.Netflow.Record.{BitSet}
use akvorado.Flow.Netflow.Safe.{decode_record-IsKept}
use akvorado.Flow.Netflow.Decode.{
  RecordV5, PacketV5, FlowSet, options_data, data_set, other_set, Outcome, packet,
  template_not_found, decoding_error, Goflow, fill_v5, set_v5, decode_nf_v5, decode_records,
  decode_flow_sets,
}
use akvorado.Flow.Netflow.Root.{
  finalize2, decode_version5, decode_version9, decode_payload, decode, Collection,
}

module _ (ch : ChGo) (is_disabled : ColumnGroup → Bool) (decap : Decapsulation)
    (source : TimestampSource) {X : Type 0} (R : ℕ → X → Type 0) where
  module _ (finalize : FinalizeFlow X) (keeps : Keeps R finalize) where
    fill_v5-IsSafe :
        {base : Batch} (r : RecordV5) (bf : FlowMessage)
        → IsBuilding base bf
        → IsSafe base (fill_v5 ch is_disabled decap source finalize r bf)
    unfolding fill_v5
    fill_v5-IsSafe r bf b =
        IsSafe-bind _ _
          (append_uints-IsSafe ch _ bf (refl, (refl, (refl, (refl, (refl, (refl, tt)))))) b)
          (λ m c.
            IsSafe-when (not (is_disabled l3l4)) _ m c
              (λ t. append_uints-IsSafe ch _ m (refl, (refl, tt)) c))

    decode_nf_v5-IsKept :
        (p : PacketV5) (ts sys_uptime : ℕ) (records : List RecordV5)
        → Keeps R (decode_nf_v5 ch is_disabled decap source finalize p ts sys_uptime records)
    unfolding decode_nf_v5 set_v5
    decode_nf_v5-IsKept p ts sys_uptime [] s h = IsKept-some R s h
    decode_nf_v5-IsKept p ts sys_uptime (r ∷ records) s h =
        IsKept-bind R _ _
          (IsKept-bind R _ finalize
            (on_message-IsKept R _ s h _
              (fill_v5-IsSafe r _ (IsBuilding-fields s.0 _ refl refl h.building)))
            keeps)
          (decode_nf_v5-IsKept p ts sys_uptime records)

    module _ {B : Type 0} (bits : BitSet B) where
      decode_records-IsKept :
          (c : Context) (records : List (List DataField))
          → Keeps R (decode_records ch is_disabled decap source finalize bits c records)
      unfolding decode_records
      decode_records-IsKept c [] s h = IsKept-some R s h
      decode_records-IsKept c (fields ∷ records) s h =
          IsKept-bind R _ _
            (decode_record-IsKept ch is_disabled decap R bits c fields finalize keeps s h)
            (decode_records-IsKept c records)

      decode_flow_sets-Returns :
          {T : Type 0} (version domain ts sys_uptime : ℕ) (sets : List FlowSet)
          (tao : TemplatesAndOptions T) (s : Stream X)
          → IsStreaming R s
          → Returns
              (λ r. IsStreaming R r.1)
              (decode_flow_sets ch is_disabled decap source finalize bits version domain ts
                sys_uptime sets tao s)
      unfolding decode_flow_sets
      decode_flow_sets-Returns version domain ts sys_uptime [] tao s h = h
      decode_flow_sets-Returns version domain ts sys_uptime (options_data records ∷ sets) tao s h =
          decode_flow_sets-Returns version domain ts sys_uptime sets _ s h
      decode_flow_sets-Returns version domain ts sys_uptime (data_set records ∷ sets) tao s h =
          Returns-bind (IsStreaming R) (λ r. IsStreaming R r.1) _ _
            (decode_records-IsKept _ records s h).returns
            (decode_flow_sets-Returns version domain ts sys_uptime sets tao)
      decode_flow_sets-Returns version domain ts sys_uptime (other_set ∷ sets) tao s h =
          decode_flow_sets-Returns version domain ts sys_uptime sets tao s h

  module _ {B : Type 0} (bits : BitSet B) {T : Type 0} (goflow : Goflow T)
      (finalize : FinalizeFlow X) (keeps : Keeps R finalize) (exporter : Addr) (received : ℕ) where
    finalize2-Keeps :
        (ts : ℕ) → Keeps R (finalize2 ch is_disabled decap source bits goflow finalize exporter ts)
    unfolding finalize2
    finalize2-Keeps ts s h =
        keeps _ (IsStreaming-message R s h _ (IsBuilding-fields s.0 _ refl refl h.building))

    decode_version5-Returns :
        (payload : List ℕ) (tao : TemplatesAndOptions T) (s : Stream X)
        → IsStreaming R s
        → Returns
            (λ r. IsStreaming R r.2)
            (decode_version5 ch is_disabled decap source bits goflow finalize exporter received
              payload tao s)
    unfolding decode_version5
    decode_version5-Returns payload tao s h =
        Returns-if (λ r. IsStreaming R r.2) (not (is_none decap)) _ _ h
          (elim (Option-cases (goflow.decode_v5 payload)) [
            | inl e ↦ rw e h
            | inr (p, e) ↦ rw e (
                Returns-bind (IsStreaming R) (λ r. IsStreaming R r.2) _ _
                  (decode_nf_v5-IsKept _ (finalize2-Keeps _) p _ _ p.records s h).returns
                  (λ s' k. k))
          ])

    decode_version9-Returns :
        (version : ℕ) (tao : TemplatesAndOptions T) (s : Stream X)
        (outcome : List (Key × T) × Outcome T)
        → IsStreaming R s
        → Returns
            (λ r. IsStreaming R r.2)
            (decode_version9 ch is_disabled decap source bits goflow finalize exporter received
              version tao s outcome)
    unfolding decode_version9
    decode_version9-Returns version tao s (added, decoding_error) h = h
    decode_version9-Returns version tao s (added, template_not_found) h = h
    decode_version9-Returns version tao s (added, packet p) h =
        Returns-bind (λ r. IsStreaming R r.1) (λ r. IsStreaming R r.2) _ _
          (decode_flow_sets-Returns _ (finalize2-Keeps _) bits version _ _ _ p.flow_sets _ s h)
          (λ r k. k)

    decode_payload-Returns :
        (payload : List ℕ) (tao : TemplatesAndOptions T) (s : Stream X)
        → 2 ≤ length payload
        → IsStreaming R s
        → Returns
            (λ r. IsStreaming R r.2)
            (decode_payload ch is_disabled decap source bits goflow finalize exporter received
              payload tao s)
    unfolding decode_payload
    decode_payload-Returns payload tao s long h =
        let P : Bool × TemplatesAndOptions T × Stream X → Type 0 = λ r. IsStreaming R r.2 in
        Returns-bind (λ v. Unit {0}) P (uint16 payload 0) _ (uint16-Returns payload 0 long)
          (λ version u. rw (slice_from_within payload 2 long) (
            Returns-if P (version == 5) _ _ (decode_version5-Returns _ tao s h) (
              Returns-if P (version == 9) _ _
                (decode_version9-Returns 9 tao s
                  (goflow.decode_v9 (get_template tao) (drop 2 payload)) h)
                (Returns-if P (version == 10) _ _
                  (decode_version9-Returns 10 tao s
                    (goflow.decode_ipfix (get_template tao) (drop 2 payload)) h)
                  h))))

    -- Whatever goflow2 decodes from a payload and whatever the templates are, the NetFlow decoder
    -- does not panic, and keeps what the callback keeps between the rows of the batch and its own
    -- state.
    pub decode-Returns :
        (key payload : List ℕ) (collection : Collection T) (s : Stream X)
        → IsStreaming R s
        → Returns
            (λ r. IsStreaming R r.2)
            (decode ch is_disabled decap source bits goflow finalize exporter key received payload
              collection s)
    unfolding decode
    decode-Returns key payload collection s h = elim (Bool-cases (ltb (length payload) 2)) [
      | inl e ↦ rw e h
      | inr e ↦ rw e (
          Returns-bind (λ r. IsStreaming R r.2) (λ r. IsStreaming R r.2) _ _
            (decode_payload-Returns payload _ s (ground (arith, e)) h) (λ r k. k))
    ]
