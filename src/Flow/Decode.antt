-- ===== src/Flow/Decode.antt =====
-- `Decode` of outlet/flow/decoder.go: a raw flow of common/pb goes to the decoder that it names. A
-- panic, from which `decodeWithMetrics` recovers, is `none`.
pub mod Safe
use akvorado.Prelude.{
  ℕ, Bool, true, false, Option, none, some, List, length, ◌==◌, if◌then◌else◌, ◌>>=◌,
}
use akvorado.Net.{Addr, v4, v6}
use akvorado.Schema.Keys.{ColumnGroup}
use akvorado.Schema.Columns.{ChGo}
use akvorado.Packet.Bytes.{big_endian}
use akvorado.Packet.Headers.{Decapsulation}
use akvorado.Flow.Stream.{Stream, FinalizeFlow}
use akvorado.Flow.Sflow
use akvorado.Flow.Netflow.{TimestampSource}
use akvorado.Flow.Netflow.Record.{BitSet}
use akvorado.Flow.Netflow.Decode.{Goflow}
use akvorado.Flow.Netflow.Root
use akvorado.Flow.Netflow.Root.{Collection}

-- `pb.RawFlow_Decoder`
pub data Decoder : Type 0 where
  decoder_unspecified decoder_netflow decoder_sflow decoder_gob : Decoder

-- `pb.RawFlow`
pub record RawFlow : Type 0 where
  pub time_received : ℕ
  pub payload : List ℕ
  pub source_address : List ℕ
  pub use_source_address : Bool
  pub decoder : Decoder
  pub timestamp_source : TimestampSource
  pub decapsulation_protocol : Decapsulation
  pub rate_limit : ℕ

-- `netip.AddrFromSlice`
unfoldable pub addr_from_slice : List ℕ → Option Addr
unfolding big_endian
addr_from_slice bytes =
    if length bytes == 4
    then some (v4 (big_endian bytes))
    else if length bytes == 16
    then some (v6 (big_endian bytes))
    else none

-- What the decoders use of other libraries: goflow2, the bitset, and the text of an address.
pub record Libraries (B T : Type 0) : Type 0 where
  pub bits : BitSet B
  pub goflow : Goflow T
  pub decode_sflow : List ℕ → Option Sflow.Packet
  pub text : Addr → List ℕ

module _ (ch : ChGo) (is_disabled : ColumnGroup → Bool) {B T : Type 0} (lib : Libraries B T)
    {X : Type 0} (finalize : FinalizeFlow X) where
  -- The callback that `Decode` gives to the decoders.
  unfoldable pub from_source : RawFlow → Addr → FinalizeFlow X
  from_source raw source (bf, x) = finalize (
    record bf { exporter_address = if raw.use_source_address then source else bf.exporter_address },
    x,
  )

  -- The decoder that a raw flow names, with the address of its source.
  unfoldable pub decode_from :
      RawFlow → Addr → Collection T → Stream X → Option (Bool × Collection T × Stream X)
  unfolding from_source
  decode_from raw source collection s = elim raw.decoder [
    | decoder_netflow ↦
        Root.decode ch is_disabled raw.decapsulation_protocol raw.timestamp_source lib.bits
          lib.goflow (from_source raw source) source (lib.text source) raw.time_received raw.payload
          collection s
    | decoder_sflow ↦
        Sflow.decode ch is_disabled raw.decapsulation_protocol (from_source raw source)
          lib.decode_sflow raw.time_received raw.payload s
        >>= λ (r : Bool × Stream X). some (r.0, collection, r.1)
    | _ ↦ some (false, collection, s)
  ]

  -- Whether there was no error, the state of the decoders, and the stream.
  unfoldable pub decode :
      RawFlow → Collection T → Stream X → Option (Bool × Collection T × Stream X)
  unfolding addr_from_slice decode_from
  decode raw collection s = elim (addr_from_slice raw.source_address) [
    | none ↦ some (false, collection, s)
    | some source ↦ decode_from raw source collection s
  ]
