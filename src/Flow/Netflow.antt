-- ===== src/Flow/Netflow.antt =====
-- outlet/flow/decoder/netflow: the data that goflow2 decodes, as far as it is read, and the templates
-- and sampling rates of an exporter (templates.go). goflow2 is a parameter.
pub mod Fields
pub mod Assign
pub mod Record
pub mod Decode
pub mod Root
pub mod Values
pub mod Safe
pub mod Packets
pub mod Rates
use native.Mathlib.Decide.{ℕ_discrete}
use akvorado.Prelude.{
  ℕ, Bool, ◌&&◌, ◌||◌, Option, none, some, List, [], ◌∷◌, length, leb, ◌==◌, if◌then◌else◌,
}
use akvorado.GoMap
use akvorado.GoMap.{GoMap}
use akvorado.Net.{Addr, v4, addr_to6}
use akvorado.Packet.Bytes.{big_endian}

-- `DataField`: a value that is not made of bytes is `none`.
pub record DataField : Type 0 where
  pub pen_provided : Bool
  pub pen : ℕ
  pub type_id : ℕ
  pub value : Option (List ℕ)

-- `decodeUNumber`
unfoldable pub decode_u_number : List ℕ → ℕ
unfolding big_endian
decode_u_number b = if leb 1 (length b) && leb (length b) 8 then big_endian b else 0

-- `isAllZeroIP`
unfoldable pub is_all_zero_ip : List ℕ → Bool
unfolding big_endian
is_all_zero_ip b = (length b == 4 || length b == 16) && big_endian b == 0

-- `decodeIPFromUint32`
unfoldable pub decode_ip_from_uint32 : ℕ → Addr
unfolding addr_to6
decode_ip_from_uint32 ipv4 = addr_to6 (v4 ipv4)

-- `pb.RawFlow_TimestampSource`
pub data TimestampSource : Type 0 where
  ts_input ts_netflow_packet ts_netflow_first_switched : TimestampSource

-- `samplingRateKey` and `templateKey`: the version, the observation domain, and the sampler or the
-- template.
abbrev pub Key : Type 0
Key = ℕ × ℕ × ℕ

abbrev pub key_discrete : Discrete Key
key_discrete = hlevel ℕ_discrete

-- `templatesAndOptions`, over the templates of goflow2.
pub record TemplatesAndOptions (T : Type 0) : Type 0 where
  pub templates : GoMap Key T
  pub sampling_rates : GoMap Key ℕ

module _ {T : Type 0} where
  unfoldable pub get_template : TemplatesAndOptions T → Key → Option T
  get_template tao key = GoMap.get key_discrete key tao.templates

  unfoldable pub add_template : Key → T → TemplatesAndOptions T → TemplatesAndOptions T
  add_template key t tao = record tao { templates = GoMap.put key_discrete key t tao.templates }

  unfoldable pub get_sampling_rate : TemplatesAndOptions T → Key → ℕ
  get_sampling_rate tao key = elim (GoMap.get key_discrete key tao.sampling_rates) [
    | none ↦ 0
    | some rate ↦ rate
  ]

  unfoldable pub set_sampling_rate : Key → ℕ → TemplatesAndOptions T → TemplatesAndOptions T
  set_sampling_rate key rate tao = record tao {
    sampling_rates = GoMap.put key_discrete key rate tao.sampling_rates;
  }
