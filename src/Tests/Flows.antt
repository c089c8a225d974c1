-- ===== src/Tests/Flows.antt =====
-- Flows that are filled, taken back and finalized, and packets.
use akvorado.Prelude.{drop, replicate, ◌++◌, ℕ, ◌+◌, ◌≡◌, refl, false, List, [], ◌∷◌, Returns}
use akvorado.Schema.Keys
use akvorado.Schema.Message.{new_flow_message}
use akvorado.Schema.Message.Pending.{IsBuilding}
use akvorado.Schema.Batch.{undo, finalize, clear}
use akvorado.Schema.Batch.Aligned.{IsAligned, undo_lem}
use akvorado.Schema.Batch.Finalize.{finalize_lem}
use akvorado.Schema.Batch.Fresh.{clear-IsAligned}
use akvorado.Schema.Batch.Runs.{
  Use, uint, string, reversal, undoing, finalizing, IsReady, run_uses, run_uses_new,
}
use akvorado.Packet.Headers.{decap_gre, decap_ipip}
use akvorado.Packet.Frames.{parse_ethernet, parse_ipv4, parse_ipv6}
use akvorado.Packet.Frames.Decap.{IsInner, parse_ipv4-IsInner, parse_ipv6-IsInner}
use akvorado.Packet.Frames.Safe.{parse_ethernet-Returns}
use akvorado.Tests.Data.{
  test_ch, test_schema, test_schema-IsSchema, test_flow, test_flow-IsAligned, test_flow-IsBuilding,
}

abbrev uses : List Use
uses =
    uint Keys.src_vlan 10
    ∷ reversal
    ∷ uint Keys.src_vlan 20
    ∷ finalizing
    ∷ string Keys.exporter_name (1 ∷ [])
    ∷ undoing
    ∷ []

run_uses_new_example : Returns IsReady (run_uses test_ch uses (new_flow_message test_schema))
run_uses_new_example =
    run_uses_new test_ch test_schema uses test_schema-IsSchema
      (refl, (tt, (refl, (tt, (refl, (tt, tt))))))

finalize_lem_example :
    Returns
      (λ bf'. IsAligned bf' × (bf'.batch.row_count ≡ test_flow.batch.row_count + 1))
      (finalize test_ch test_flow)
finalize_lem_example =
    finalize_lem test_ch test_flow test_flow test_flow-IsAligned test_flow-IsBuilding

undo_lem_example :
    Returns
      (λ bf'.
        IsAligned bf'
        × (bf'.batch.columns ≡ test_flow.batch.columns)
        × (bf'.batch.row_count ≡ test_flow.batch.row_count))
      (undo test_flow)
undo_lem_example = undo_lem test_flow test_flow test_flow-IsAligned test_flow-IsBuilding

clear-IsAligned_example :
    IsAligned (clear test_ch test_flow) × ((clear test_ch test_flow).batch.row_count ≡ 0)
clear-IsAligned_example = clear-IsAligned test_ch test_flow test_flow-IsAligned

-- An IPv4 packet that carries GRE in a frame with a VLAN.
abbrev frame : List ℕ
frame =
    1 ∷ 2 ∷ 3 ∷ 4 ∷ 5 ∷ 6 ∷ 7 ∷ 8 ∷ 9 ∷ 10 ∷ 11 ∷ 12 ∷ 0x81 ∷ 0 ∷ 0 ∷ 10 ∷ 8 ∷ 0 ∷ 0x45 ∷ 0 ∷ 0 ∷ 24
    ∷ 0 ∷ 0 ∷ 0 ∷ 0 ∷ 64 ∷ 47 ∷ 0 ∷ 0 ∷ 192 ∷ 0 ∷ 2 ∷ 1 ∷ 192 ∷ 0 ∷ 2 ∷ 2 ∷ 0 ∷ 0 ∷ 8 ∷ 0 ∷ 0x45
    ∷ []

parse_ethernet-Returns_example :
    Returns
      (λ p. IsBuilding test_flow.batch p.1)
      (parse_ethernet test_ch (λ g. false) decap_gre test_flow frame)
parse_ethernet-Returns_example =
    parse_ethernet-Returns test_ch (λ g. false) decap_gre test_flow frame test_flow-IsBuilding

parse_ipv4-IsInner_example :
    IsInner test_ch
      (λ g. false)
      test_flow
      (drop 18 frame)
      (parse_ipv4 test_ch (λ g. false) decap_gre test_flow (drop 18 frame))
parse_ipv4-IsInner_example =
    parse_ipv4-IsInner test_ch (λ g. false) decap_gre test_flow (drop 18 frame) refl
      test_flow-IsBuilding

-- An IPv6 packet that carries the IPv4 packet.
abbrev packet6 : List ℕ
packet6 = 0x60 ∷ 0 ∷ 0 ∷ 0 ∷ 0 ∷ 25 ∷ 4 ∷ 64 ∷ [] ++ replicate 32 1 ++ drop 18 frame

parse_ipv6-IsInner_example :
    IsInner test_ch
      (λ g. false)
      test_flow
      packet6
      (parse_ipv6 test_ch (λ g. false) decap_ipip test_flow packet6)
parse_ipv6-IsInner_example =
    parse_ipv6-IsInner test_ch (λ g. false) decap_ipip test_flow packet6 refl test_flow-IsBuilding
