-- ===== src/Flow/Netflow/Decode.antt =====
-- `decodeNFv5` and `decodeNFv9IPFIX` of outlet/flow/decoder/netflow/decode.go. The packets are
-- decoded by goflow2, which is a parameter.
use akvorado.Prelude.{
  ℕ, ◌+◌, ◌-◌, ◌/◌, ◌%◌, ◌^◌, Bool, not, ◌||◌, Option, none, some, List, [], ◌∷◌, ltb, ◌==◌,
  if◌then◌else◌, ◌>>=◌,
}
use akvorado.Schema.Keys
use akvorado.Schema.Keys.{ColumnGroup, l3l4}
use akvorado.Schema.Columns.{ChGo}
use akvorado.Schema.Message.{FlowMessage}
use akvorado.Packet.Bytes.{etype_ipv4}
use akvorado.Packet.Headers.{Decapsulation, when}
use akvorado.Flow.Stream.{Stream, FinalizeFlow, on_message}
use akvorado.Flow.Fill.{append_uints}
use akvorado.Flow.Netflow.{
  DataField, decode_u_number, decode_ip_from_uint32, TimestampSource, ts_netflow_first_switched,
  Key, TemplatesAndOptions, add_template, get_sampling_rate, set_sampling_rate,
}
use akvorado.Flow.Netflow.Fields.{Context}
use akvorado.Flow.Netflow.Record.{BitSet, decode_record}

-- A record of NetFlow v5.
pub record RecordV5 : Type 0 where
  pub input : ℕ
  pub output : ℕ
  pub src_addr : ℕ
  pub dst_addr : ℕ
  pub next_hop : ℕ
  pub src_mask : ℕ
  pub dst_mask : ℕ
  pub src_as : ℕ
  pub dst_as : ℕ
  pub d_octets : ℕ
  pub d_pkts : ℕ
  pub proto : ℕ
  pub src_port : ℕ
  pub dst_port : ℕ
  pub tos : ℕ
  pub tcp_flags : ℕ
  pub first : ℕ

pub record PacketV5 : Type 0 where
  pub sampling_interval : ℕ
  pub unix_secs : ℕ
  pub sys_uptime : ℕ
  pub records : List RecordV5

-- A set of records of options, or of data; a record is its fields. `other_set` stands for templates.
pub data FlowSet : Type 0 where
  options_data data_set : List (List DataField) → FlowSet
  other_set : FlowSet

-- A packet of NetFlow v9 or of IPFIX, for which the uptime is not read.
pub record PacketV9 (T : Type 0) : Type 0 where
  pub obs_domain_id : ℕ
  pub time : ℕ
  pub sys_uptime : ℕ
  pub flow_sets : List FlowSet

pub data Outcome (T : Type 0) : Type 0 where
  packet : PacketV9 T → Outcome T
  template_not_found decoding_error : Outcome T

-- The decoders of goflow2. They read the templates of the exporter, and give the ones to add.
pub record Goflow (T : Type 0) : Type 0 where
  pub decode_v5 : List ℕ → Option PacketV5
  pub decode_v9 : (Key → Option T) → List ℕ → List (Key × T) × Outcome T
  pub decode_ipfix : (Key → Option T) → List ℕ → List (Key × T) × Outcome T

-- What an options record tells of the sampling.
pub record SamplingOptions : Type 0 where
  pub sampling_rate : ℕ
  pub sampler_id : ℕ
  pub packet_interval : ℕ
  pub packet_space : ℕ

unfoldable pub add_option : DataField → SamplingOptions → SamplingOptions
unfolding decode_u_number
add_option f o = elim f.value [
  | none ↦ o
  | some v ↦
      let n = decode_u_number v in
      if f.pen_provided
      then o
      else if f.type_id == 34 || f.type_id == 50
      then record o { sampling_rate = n % 2 ^ 32 }
      else if f.type_id == 48 || f.type_id == 302
      then record o { sampler_id = n }
      else if f.type_id == 305
      then record o { packet_interval = n % 2 ^ 32 }
      else if f.type_id == 306
      then record o { packet_space = n % 2 ^ 32 }
      else o
]

unfoldable pub add_options : List DataField → SamplingOptions → SamplingOptions
add_options [] o = o
add_options (f ∷ fields) o = add_options fields (add_option f o)

-- The rate of an options record. The sum is one of uint32.
unfoldable pub option_rate : SamplingOptions → ℕ
option_rate o =
    if ltb 0 o.packet_interval
    then (o.packet_interval + o.packet_space) % 2 ^ 32 / o.packet_interval
    else o.sampling_rate

module _ {T : Type 0} where
  -- An options record sets the sampling rate of its sampler.
  unfoldable pub learn_sampling_rate :
      ℕ → ℕ → List DataField → TemplatesAndOptions T → TemplatesAndOptions T
  unfolding add_options option_rate set_sampling_rate
  learn_sampling_rate version domain fields tao =
      let o =
        add_options fields
          (record { sampling_rate = 0; sampler_id = 0; packet_interval = 0; packet_space = 0 }) in
      if ltb 0 (option_rate o)
      then set_sampling_rate (version, domain, o.sampler_id) (option_rate o) tao
      else tao

  unfoldable pub learn_sampling_rates :
      ℕ → ℕ → List (List DataField) → TemplatesAndOptions T → TemplatesAndOptions T
  unfolding learn_sampling_rate
  learn_sampling_rates version domain [] tao = tao
  learn_sampling_rates version domain (fields ∷ records) tao =
      learn_sampling_rates version domain records (learn_sampling_rate version domain fields tao)

  unfoldable pub add_templates : List (Key × T) → TemplatesAndOptions T → TemplatesAndOptions T
  unfolding add_template
  add_templates [] tao = tao
  add_templates ((key, t) ∷ ts) tao = add_templates ts (add_template key t tao)

module _ (ch : ChGo) (is_disabled : ColumnGroup → Bool) (decap : Decapsulation)
    (source : TimestampSource) {X : Type 0} (finalize : FinalizeFlow X) where
  -- The fields of a record of NetFlow v5.
  unfoldable pub set_v5 : PacketV5 → RecordV5 → ℕ → ℕ → FlowMessage → FlowMessage
  unfolding decode_ip_from_uint32
  set_v5 p r ts sys_uptime bf = record bf {
    sampling_rate = if p.sampling_interval == 0 then 1 else p.sampling_interval;
    in_if = r.input;
    out_if = r.output;
    src_addr = decode_ip_from_uint32 r.src_addr;
    dst_addr = decode_ip_from_uint32 r.dst_addr;
    next_hop = decode_ip_from_uint32 r.next_hop;
    src_net_mask = r.src_mask;
    dst_net_mask = r.dst_mask;
    src_as = r.src_as;
    dst_as = r.dst_as;
    time_received = elim source [
      | ts_netflow_first_switched ↦ (ts + 2 ^ 64 - sys_uptime + r.first) % 2 ^ 64 % 2 ^ 32
      | _ ↦ bf.time_received
    ];
  }

  unfoldable pub fill_v5 : RecordV5 → FlowMessage → Option FlowMessage
  fill_v5 r bf = do
    m ←
        append_uints ch
          ((Keys.bytes, r.d_octets)
            ∷ (Keys.packets, r.d_pkts)
            ∷ (Keys.etype, etype_ipv4)
            ∷ (Keys.proto, r.proto)
            ∷ (Keys.src_port, r.src_port)
            ∷ (Keys.dst_port, r.dst_port)
            ∷ [])
          bf
    when (not (is_disabled l3l4))
        (append_uints ch ((Keys.ip_tos, r.tos) ∷ (Keys.tcp_flags, r.tcp_flags) ∷ [])) m

  -- `decodeNFv5`
  unfoldable pub decode_nf_v5 : PacketV5 → ℕ → ℕ → List RecordV5 → FinalizeFlow X
  unfolding set_v5 fill_v5
  decode_nf_v5 p ts sys_uptime [] s = some s
  decode_nf_v5 p ts sys_uptime (r ∷ records) (bf, x) =
      on_message (fill_v5 r) (set_v5 p r ts sys_uptime bf, x)
      >>= finalize
      >>= decode_nf_v5 p ts sys_uptime records

  module _ {B : Type 0} (bits : BitSet B) where
    -- The records of a set of data.
    unfoldable pub decode_records : Context → List (List DataField) → FinalizeFlow X
    decode_records c [] s = some s
    decode_records c (fields ∷ records) s =
        decode_record ch is_disabled decap finalize bits c fields s >>= decode_records c records

    -- `decodeNFv9IPFIX`
    unfoldable pub decode_flow_sets :
        {T : Type 0}
        → ℕ
        → ℕ
        → ℕ
        → ℕ
        → List FlowSet
        → TemplatesAndOptions T
        → Stream X
        → Option (TemplatesAndOptions T × Stream X)
    unfolding learn_sampling_rates get_sampling_rate decode_records
    decode_flow_sets version domain ts sys_uptime [] tao s = some (tao, s)
    decode_flow_sets version domain ts sys_uptime (options_data records ∷ sets) tao s =
        decode_flow_sets version domain ts sys_uptime sets
          (learn_sampling_rates version domain records tao) s
    decode_flow_sets version domain ts sys_uptime (data_set records ∷ sets) tao s =
        decode_records
          (record {
            ts = ts;
            sys_uptime = sys_uptime;
            timestamp_source = source;
            sampling_rate = λ sampler. get_sampling_rate tao (version, domain, sampler);
          })
          records s
        >>= decode_flow_sets version domain ts sys_uptime sets tao
    decode_flow_sets version domain ts sys_uptime (other_set ∷ sets) tao s =
        decode_flow_sets version domain ts sys_uptime sets tao s
