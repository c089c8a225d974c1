-- ===== src/Flow/Decode/Safe.antt =====
-- outlet/flow/decoder.go and the batch of the flows.
use akvorado.Prelude.{ℕ, Bool, refl, ◌≡◌, Option-cases, inl, inr, Returns, Returns-bind}
use akvorado.Net.{Addr}
use akvorado.Schema.Keys.{ColumnGroup}
use akvorado.Schema.Columns.{ChGo}
use akvorado.Schema.Batch.Runs.{IsBuilding-fields}
use akvorado.Flow.Stream.{Stream, FinalizeFlow, IsStreaming, Keeps, IsStreaming-message}
use akvorado.Flow.Sflow.Safe
use akvorado.Flow.Netflow.Packets
use akvorado.Flow.Netflow.Root.{Collection}
use akvorado.Flow.Decode.{
  Decoder, decoder_unspecified, decoder_netflow, decoder_sflow, decoder_gob, RawFlow,
  addr_from_slice, Libraries, from_source, decode_from, decode,
}

module _ (ch : ChGo) (is_disabled : ColumnGroup → Bool) {B T : Type 0} (lib : Libraries B T)
    {X : Type 0} (R : ℕ → X → Type 0) (finalize : FinalizeFlow X) (keeps : Keeps R finalize) where
  from_source-Keeps :
      (raw : RawFlow) (source : Addr) → Keeps R (from_source ch is_disabled lib finalize raw source)
  unfolding from_source
  from_source-Keeps raw source s h =
      keeps _ (IsStreaming-message R s h _ (IsBuilding-fields s.0 _ refl refl h.building))

  decode_by-Returns :
      (d : Decoder) (raw : RawFlow) (source : Addr) (collection : Collection T) (s : Stream X)
      → raw.decoder ≡ d
      → IsStreaming R s
      → Returns
          (λ r. IsStreaming R r.2)
          (decode_from ch is_disabled lib finalize raw source collection s)
  unfolding decode_from
  decode_by-Returns decoder_netflow raw source collection s e h =
      rw (e, decode_from)
        (Packets.decode-Returns ch is_disabled _ _ R lib.bits lib.goflow _
          (from_source-Keeps raw source) source raw.time_received _ _ collection s h)
  decode_by-Returns decoder_sflow raw source collection s e h =
      rw (e, decode_from)
        (Returns-bind (λ r. IsStreaming R r.1) (λ r. IsStreaming R r.2) _ _
          (Safe.decode-Returns ch is_disabled _ R _ lib.decode_sflow raw.time_received raw.payload s
            (from_source-Keeps raw source) h)
          (λ r k. k))
  decode_by-Returns decoder_unspecified raw source collection s e h = rw (e, decode_from) h
  decode_by-Returns decoder_gob raw source collection s e h = rw (e, decode_from) h

  pub decode-Returns :
      (raw : RawFlow) (collection : Collection T) (s : Stream X)
      → IsStreaming R s
      → Returns (λ r. IsStreaming R r.2) (decode ch is_disabled lib finalize raw collection s)
  unfolding decode
  decode-Returns raw collection s h = elim (Option-cases (addr_from_slice raw.source_address)) [
    | inl e ↦ rw (e, decode) h
    | inr (source, e) ↦ rw (e, decode) (decode_by-Returns _ raw source collection s refl h)
  ]
