-- ===== src/Flow/Sflow/Safe.antt =====
-- outlet/flow/decoder/sflow and the batch of its flows.
use akvorado.Flow.Stream.{
  on_message-IsKept, IsKept-if, IsKept-bind, IsStreaming-message, IsStreaming, IsKept-some, Keeps,
}
use akvorado.Prelude.{
  get_elem?_of_lt, length, ltb, ◌-◌, Option-cases, ◌&&◌, Returns, ◌/◌, ◌^◌, Returns-bind, arith, ℕ,
  refl, Bool, not, none, some, List, [], ◌∷◌, ltb, ◌==◌, if◌then◌else◌, ◌>>=◌, Bool-cases, inl, inr,
}
use akvorado.Schema.Keys
use akvorado.Schema.Keys.{ColumnGroup, l2}
use akvorado.Schema.Columns.{ChGo}
use akvorado.Schema.Message.{Batch, FlowMessage, append_uint}
use akvorado.Schema.Message.Pending.{IsBuilding}
use akvorado.Schema.Message.Safe.{
  IsSafe-some, IsSafe, IsSafe-bind, append_uint-IsSafe, append_array_uint32-IsSafe,
}
use akvorado.Schema.Batch.Runs.{IsBuilding-fields}
use akvorado.Packet.Headers.{Decapsulation, is_none, Parsed}
use akvorado.Packet.Headers.Parsed.{
  IsParsed, IsParsed-some, IsParsed-if, IsParsed-with_length, IsSafe-when,
}
use akvorado.Packet.Frames.Safe.{
  parse_ethernet-Returns, parse_ipv4-IsFrameSafe, parse_ipv6-IsFrameSafe,
}
use akvorado.Flow.Fill.{append_uints, append_uints-IsSafe}
use akvorado.Flow.Sflow.{
  append_array_uint32, on_message, kinds, other_sample, flow_sample, expanded_flow_sample, Stream,
  Packet, expanded_flow_sample, flow_sample, Option, local_interfaces, FinalizeFlow, Sample,
  decode_samples, decode_sample, at_time, begin_sample, decode, SampledIp, FlowRecord,
  sampled_header, sampled_ipv4, sampled_ipv6, sampled_ethernet, extended_switch, extended_router,
  extended_gateway, other_record, Kinds, set_interfaces, parse_sampled_header, sampled_ip,
  set_switch, set_gateway, set_as_path, ExtendedGateway, plain_record, add_record, add_records,
  end_sample, needs_header,
}

module _ (ch : ChGo) (is_disabled : ColumnGroup → Bool) (decap : Decapsulation) {base : Batch} where
  parse_sampled_header-IsParsed :
      (protocol : ℕ) (bytes : List ℕ) (bf : FlowMessage)
      → IsBuilding base bf
      → IsParsed base (parse_sampled_header ch is_disabled decap protocol bytes bf)
  unfolding parse_sampled_header
  parse_sampled_header-IsParsed protocol bytes bf b =
      IsParsed-if (protocol == 1) _ _
        (λ t. record { returns = parse_ethernet-Returns ch is_disabled decap bf bytes b })
        (λ t.
          IsParsed-if (protocol == 11) _ _
            (λ t. parse_ipv4-IsFrameSafe ch is_disabled decap bf bytes b)
            (λ t.
              IsParsed-if (protocol == 12) _ _
                (λ t. parse_ipv6-IsFrameSafe ch is_disabled decap bf bytes b)
                (λ t. IsParsed-some 0 bf b)))

  sampled_ip-IsParsed :
      (etype : ℕ) (d : SampledIp) (bf : FlowMessage)
      → IsBuilding base bf
      → IsParsed base (sampled_ip ch is_disabled decap etype d bf)
  unfolding sampled_ip
  sampled_ip-IsParsed etype d bf b = IsParsed-with_length d.length _ (
      append_uints-IsSafe ch _ _ (refl, (refl, (refl, (refl, (refl, tt)))))
        (IsBuilding-fields bf _ refl refl b))

  set_as_path-IsSafe :
      (d : ExtendedGateway) (bf : FlowMessage)
      → IsBuilding base bf
      → IsSafe base (set_as_path ch is_disabled decap d bf)
  unfolding set_as_path
  set_as_path-IsSafe d bf b = elim (Bool-cases (ltb 0 (length d.as_path))) [
    | inr e ↦ rw e (IsSafe-some bf b)
    | inl e ↦
        let (last, at) = get_elem?_of_lt d.as_path (length d.as_path - 1) (ground (arith, e)) in
        rw (e, at)
          (append_array_uint32-IsSafe ch Keys.dst_as_path _ (IsBuilding-fields bf _ refl refl b) _
            refl)
  ]

  plain_record-IsParsed :
      (r : FlowRecord) (n : ℕ) (bf : FlowMessage)
      → IsBuilding base bf
      → IsParsed base (plain_record ch is_disabled decap r n bf)
  unfolding plain_record set_switch set_gateway
  plain_record-IsParsed (sampled_header p bytes) n bf b = IsParsed-some n bf b
  plain_record-IsParsed (sampled_ipv4 d) n bf b = sampled_ip-IsParsed _ d bf b
  plain_record-IsParsed (sampled_ipv6 d) n bf b = sampled_ip-IsParsed _ d bf b
  plain_record-IsParsed (sampled_ethernet size src dst) n bf b = IsParsed-with_length _ _ (
      IsSafe-when (not (is_disabled l2)) (append_uints ch _) bf b
        (λ t. append_uints-IsSafe ch _ bf (refl, (refl, tt)) b))
  plain_record-IsParsed (extended_switch src dst) n bf b =
      elim (Bool-cases (not (is_disabled l2))) [
        | inl e ↦ rw e (IsParsed-some n _ (IsBuilding-fields bf _ refl refl b))
        | inr e ↦ rw e (IsParsed-some n bf b)
      ]
  plain_record-IsParsed (extended_router src dst hop) n bf b =
      IsParsed-some n _ (IsBuilding-fields bf _ refl refl b)
  plain_record-IsParsed (extended_gateway d) n bf b = IsParsed-with_length n _ (
      IsSafe-bind _ _ (set_as_path-IsSafe d _ (IsBuilding-fields bf _ refl refl b)) (λ m c.
        IsSafe-when (ltb 0 (length d.communities))
          (append_array_uint32 ch Keys.dst_communities d.communities) m c
          (λ t. append_array_uint32-IsSafe ch Keys.dst_communities m c _ refl)))
  plain_record-IsParsed other_record n bf b = IsParsed-some n bf b

  -- The result of a parser, taken up to its length.
  IsParsed-next :
      (m : Parsed) (f : ℕ × FlowMessage → Parsed)
      → IsParsed base m
      → ((p : ℕ × FlowMessage) → IsBuilding base p.1 → IsParsed base (f p))
      → IsParsed base (m >>= f)
  IsParsed-next none f h k = record { returns = h.returns }
  IsParsed-next (some p) f h k = k p h.returns

  plain_if-IsParsed :
      (r : FlowRecord) (n : ℕ) (bf : FlowMessage)
      → IsBuilding base bf
      → IsParsed base
          (if is_none decap then plain_record ch is_disabled decap r n bf else some (n, bf))
  plain_if-IsParsed r n bf b =
      IsParsed-if (is_none decap) _ _ (λ t. plain_record-IsParsed r n bf b)
        (λ t. IsParsed-some n bf b)

  add_record-IsParsed :
      (k : Kinds) (r : FlowRecord) (n : ℕ) (bf : FlowMessage)
      → IsBuilding base bf
      → IsParsed base (add_record ch is_disabled decap k r n bf)
  unfolding add_record
  add_record-IsParsed k (sampled_header protocol bytes) n bf b =
      IsParsed-if (needs_header ch is_disabled decap k) _ _
        (λ t.
          IsParsed-next _ _ (parse_sampled_header-IsParsed protocol bytes bf b)
            (λ p c. IsParsed-some _ p.1 c))
        (λ t. IsParsed-some n bf b)
  add_record-IsParsed k (sampled_ipv4 d) n bf b = plain_if-IsParsed (sampled_ipv4 d) n bf b
  add_record-IsParsed k (sampled_ipv6 d) n bf b = plain_if-IsParsed (sampled_ipv6 d) n bf b
  add_record-IsParsed k (sampled_ethernet l s d) n bf b =
      plain_if-IsParsed (sampled_ethernet l s d) n bf b
  add_record-IsParsed k (extended_switch s d) n bf b =
      plain_if-IsParsed (extended_switch s d) n bf b
  add_record-IsParsed k (extended_router s d hop) n bf b =
      plain_if-IsParsed (extended_router s d hop) n bf b
  add_record-IsParsed k (extended_gateway d) n bf b = plain_if-IsParsed (extended_gateway d) n bf b
  add_record-IsParsed k other_record n bf b = plain_if-IsParsed other_record n bf b

  add_records-IsParsed :
      (k : Kinds) (rs : List FlowRecord) (n : ℕ) (bf : FlowMessage)
      → IsBuilding base bf
      → IsParsed base (add_records ch is_disabled decap k rs n bf)
  unfolding add_records
  add_records-IsParsed k [] n bf b = IsParsed-some n bf b
  add_records-IsParsed k (r ∷ rs) n bf b =
      IsParsed-next _ _ (add_record-IsParsed k r n bf b)
        (λ p c. add_records-IsParsed k rs p.0 p.1 c)

  end_sample-IsSafe :
      (agent : List ℕ) (status n : ℕ) (bf : FlowMessage)
      → IsBuilding base bf
      → IsSafe base (end_sample ch is_disabled decap agent status n bf)
  unfolding end_sample
  end_sample-IsSafe agent status n bf b =
      IsSafe-bind _ _
        (IsSafe-when (ltb 0 n) (append_uint ch Keys.bytes n) bf b
          (λ t. append_uint-IsSafe ch Keys.bytes bf b n refl))
        (λ m c. append_uints-IsSafe ch _ _ (refl, (refl, tt)) (IsBuilding-fields m _ refl refl c))

  set_interfaces-IsBuilding :
      (f i g o : ℕ) (bf : FlowMessage)
      → IsBuilding base bf
      → IsBuilding base (set_interfaces f i g o bf)
  unfolding set_interfaces
  set_interfaces-IsBuilding f i g o bf b =
      IsBuilding-fields bf (set_interfaces f i g o bf) (ground arith) (ground arith) b

  begin_sample-IsBuilding :
      (sample : Sample) (bf : FlowMessage)
      → IsBuilding base bf
      → IsBuilding base (begin_sample sample bf).2
  unfolding begin_sample
  begin_sample-IsBuilding (flow_sample rate input output records) bf b =
      set_interfaces-IsBuilding (input / 2 ^ 30) input (output / 2 ^ 30) output
        (record bf { sampling_rate = rate }) (IsBuilding-fields bf _ refl refl b)
  begin_sample-IsBuilding (expanded_flow_sample rate f i g o records) bf b =
      set_interfaces-IsBuilding f i g o (record bf { sampling_rate = rate })
        (IsBuilding-fields bf _ refl refl b)
  begin_sample-IsBuilding other_sample bf b = b

module _ (ch : ChGo) (is_disabled : ColumnGroup → Bool) (decap : Decapsulation) {X : Type 0}
    (R : ℕ → X → Type 0) where
  decode_sample-IsKept :
      (finalize : FinalizeFlow X)
      → Keeps R finalize
      → (agent : List ℕ) (sample : Sample)
      → Keeps R (decode_sample ch is_disabled decap finalize agent sample)
  unfolding decode_sample local_interfaces
  decode_sample-IsKept finalize keeps agent sample s h = record {
    returns =
        let (records, status, m) = begin_sample sample s.0 in
        Returns-bind _ (IsStreaming R)
          (add_records ch is_disabled decap (kinds records) records 0 _) _
          (add_records-IsParsed ch is_disabled decap (kinds records) records 0 _ (
            IsBuilding-fields m _ refl refl
              (begin_sample-IsBuilding ch is_disabled decap sample s.0 h.building))).returns
          (λ p c.
            (IsKept-if R (p.0 == 0 && not (is_none decap)) _ _
              (IsKept-some R (p.1, s.1) (IsStreaming-message R s h p.1 c))
              (IsKept-bind R
                (on_message (end_sample ch is_disabled decap agent status p.0) (p.1, s.1)) finalize
                (on_message-IsKept R _ s h p.1
                  (end_sample-IsSafe ch is_disabled decap agent status p.0 p.1 c))
                keeps)).returns);
  }

  decode_samples-IsKept :
      (finalize : FinalizeFlow X)
      → Keeps R finalize
      → (agent : List ℕ) (samples : List Sample)
      → Keeps R (decode_samples ch is_disabled decap finalize agent samples)
  unfolding decode_samples
  decode_samples-IsKept finalize keeps agent [] s h = IsKept-some R s h
  decode_samples-IsKept finalize keeps agent (sample ∷ samples) s h =
      IsKept-bind R _ _ (decode_sample-IsKept finalize keeps agent sample s h)
        (decode_samples-IsKept finalize keeps agent samples)

  at_time-Keeps :
      (finalize : FinalizeFlow X) (ts : ℕ)
      → Keeps R finalize
      → Keeps R (at_time ch is_disabled decap finalize ts)
  unfolding at_time
  at_time-Keeps finalize ts keeps s h =
      keeps _ (IsStreaming-message R s h _ (IsBuilding-fields s.0 _ refl refl h.building))

  -- Whatever goflow2 decodes from a payload, the sFlow decoder does not panic, and keeps what the
  -- callback keeps between the rows of the batch and its own state.
  pub decode-Returns :
      (finalize : FinalizeFlow X) (decode_message : List ℕ → Option Packet) (ts : ℕ)
      (payload : List ℕ) (s : Stream X)
      → Keeps R finalize
      → IsStreaming R s
      → Returns
          (λ r. IsStreaming R r.1)
          (decode ch is_disabled decap finalize decode_message ts payload s)
  unfolding decode
  decode-Returns finalize decode_message ts payload s keeps h =
      elim (Option-cases (decode_message payload)) [
        | inl e ↦ rw (e, decode) h
        | inr (packet, e) ↦
            rw (e, decode)
              (Returns-bind (IsStreaming R) (λ r. IsStreaming R r.1) _ _
                (decode_samples-IsKept _ (at_time-Keeps finalize ts keeps) packet.agent_ip
                  packet.samples s h).returns
                (λ s' k. k))
      ]
