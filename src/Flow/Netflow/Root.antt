-- ===== src/Flow/Netflow/Root.antt =====
-- `Decode` of outlet/flow/decoder/netflow/root.go.
use native.Mathlib.Decide.{ℕ_discrete}
use akvorado.Packet.Bytes.{uint16, slice_from}
use akvorado.Prelude.{
  ◌&&◌, ℕ, ◌%◌, ◌^◌, Bool, true, false, not, Option, none, some, List, [], length, ltb, ◌==◌,
  if◌then◌else◌, ◌>>=◌,
}
use akvorado.GoMap
use akvorado.GoMap.{GoMap}
use akvorado.Net.{Addr}
use akvorado.Schema.Keys.{ColumnGroup}
use akvorado.Schema.Columns.{ChGo}
use akvorado.Packet.Headers.{Decapsulation, is_none}
use akvorado.Flow.Stream.{Stream, FinalizeFlow}
use akvorado.Flow.Netflow.{
  TimestampSource, ts_input, ts_netflow_packet, ts_netflow_first_switched, Key, TemplatesAndOptions,
  get_template,
}
use akvorado.Flow.Netflow.Record.{BitSet}
use akvorado.Flow.Netflow.Decode.{
  Outcome, packet, template_not_found, decoding_error, Goflow, add_templates, decode_nf_v5,
  decode_flow_sets,
}

abbrev pub text_discrete : Discrete (List ℕ)
text_discrete = hlevel ℕ_discrete

-- `templateAndOptionCollection`: by the text of the address of an exporter.
abbrev pub Collection : Type 0 → Type 0
Collection T = GoMap (List ℕ) (TemplatesAndOptions T)

-- `Get` of the collection, which also stores what it creates; here `Decode` does, when it is done.
unfoldable pub templates_of : {T : Type 0} → List ℕ → Collection T → TemplatesAndOptions T
templates_of key collection = elim (GoMap.get text_discrete key collection) [
  | none ↦ record { templates = []; sampling_rates = [] }
  | some tao ↦ tao
]

-- Whether the time is that of the packet. For IPFIX the time of the first packet is in the fields.
unfoldable pub from_packet : TimestampSource → Bool → Bool
from_packet ts_input is_ipfix = false
from_packet ts_netflow_packet is_ipfix = true
from_packet ts_netflow_first_switched is_ipfix = not is_ipfix

-- What `Decode` leaves: whether there was no error, the templates and rates of the exporter, and the
-- stream.
abbrev pub Decoded : Type 0 → Type 0 → Type 0
Decoded T X = Option (Bool × TemplatesAndOptions T × Stream X)

module _ (ch : ChGo) (is_disabled : ColumnGroup → Bool) (decap : Decapsulation)
    (source : TimestampSource) {B : Type 0} (bits : BitSet B) {T : Type 0} (goflow : Goflow T) where
  module _ {X : Type 0} (finalize : FinalizeFlow X) where
    -- `finalize2`
    unfoldable pub finalize2 : Addr → ℕ → FinalizeFlow X
    finalize2 exporter ts (bf, x) = finalize (
      record bf {
        time_received = if bf.time_received == 0 then ts % 2 ^ 32 else bf.time_received;
        exporter_address = exporter;
      },
      x,
    )

    unfoldable pub decode_version5 :
        Addr → ℕ → List ℕ → TemplatesAndOptions T → Stream X → Decoded T X
    unfolding finalize2 from_packet
    decode_version5 exporter received payload tao s =
        if not (is_none decap) then some (true, tao, s) else elim (goflow.decode_v5 payload) [
          | none ↦ some (false, tao, s)
          | some p ↦
              let ts = if from_packet source false then p.unix_secs else received in
              let sys_uptime = if from_packet source false then p.sys_uptime else 0 in
              decode_nf_v5 ch is_disabled decap source (finalize2 exporter ts) p ts sys_uptime
                p.records s
              >>= λ s'. some (true, tao, s')
        ]

    -- Versions 9 and 10 (IPFIX), by the result of goflow2.
    unfoldable pub decode_version9 :
        Addr → ℕ → ℕ → TemplatesAndOptions T → Stream X → List (Key × T) × Outcome T → Decoded T X
    unfolding finalize2 from_packet add_templates
    decode_version9 exporter received version tao s (added, decoding_error) =
        some (false, add_templates added tao, s)
    decode_version9 exporter received version tao s (added, template_not_found) =
        some (true, add_templates added tao, s)
    decode_version9 exporter received version tao s (added, packet p) =
        let own = from_packet source (version == 10) in
        let ts = if own then p.time else received in
        let sys_uptime = if own && version == 9 then p.sys_uptime else 0 in
        decode_flow_sets ch is_disabled decap source (finalize2 exporter ts) bits version
          p.obs_domain_id ts sys_uptime p.flow_sets (add_templates added tao) s
        >>= λ (r : TemplatesAndOptions T × Stream X). some (true, r.0, r.1)

    -- The switch over the version, the first two bytes of the payload.
    unfoldable pub decode_payload :
        Addr → ℕ → List ℕ → TemplatesAndOptions T → Stream X → Decoded T X
    unfolding decode_version5 decode_version9 get_template
    decode_payload exporter received payload tao s = do
      version ← uint16 payload 0
      rest ← slice_from payload 2
      if version == 5
          then decode_version5 exporter received rest tao s
          else if version == 9
          then decode_version9 exporter received 9 tao s (goflow.decode_v9 (get_template tao) rest)
          else if version == 10
          then decode_version9 exporter received 10 tao s
              (goflow.decode_ipfix (get_template tao) rest)
          else some (false, tao, s)

    unfoldable pub decode :
        Addr
        → List ℕ
        → ℕ
        → List ℕ
        → Collection T
        → Stream X
        → Option (Bool × Collection T × Stream X)
    unfolding decode_payload templates_of
    decode exporter key received payload collection s =
        if ltb (length payload) 2
        then some (false, collection, s)
        else decode_payload exporter received payload (templates_of key collection) s
          >>= λ (r : Bool × TemplatesAndOptions T × Stream X).
              some (r.0, GoMap.put text_discrete key r.1 collection, r.2)
