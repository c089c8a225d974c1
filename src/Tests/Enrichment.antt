-- ===== src/Tests/Enrichment.antt =====
-- The enrichment of a flow with two interfaces.
use akvorado.Prelude.{
  ◌≡◌, ◌≢◌, ◌⊎◌, refl, true, false, none, some, List, [], ◌∷◌, map, Returns, arith,
}
use akvorado.Net.{v6, invalid}
use akvorado.GoMap
use akvorado.Cache
use akvorado.Schema.Message.{FlowMessage, new_flow_message}
use akvorado.Schema.Message.Pending.{IsBuilding}
use akvorado.Core.Info.{
  ExporterInfo, ExporterAndInterfaceInfo, external, no_exporter_classification,
  no_interface_classification, is_empty,
}
use akvorado.Core.Sources.{
  flow, flow_except_private, routing, routing_except_private, networks, from_flow, from_routing,
  LargeCommunity, is_private_as, asn_of, net_mask_of, next_hop_of, get_as_number, get_net_mask,
  get_next_hop, large_community_to_uint128,
}
use akvorado.Core.Sources.Priority.{
  first_or, last_or, is_set, is_specified, community_of, get_as_number_lem, get_as_number-public,
  get_net_mask_lem, get_next_hop_lem, large_community_to_uint128_lem,
}
use akvorado.Core.Classify.{Classifiers, Caches, classify_exporter, classify_interface}
use akvorado.Core.Classify.Coherent.{
  IsCoherent, Gives, exporter_verdict, interface_verdict, classify_exporter-Gives,
  classify_interface-Gives,
}
use akvorado.Core.Services.{Answer, RoutingAnswer, no_network, Services, Configuration}
use akvorado.Core.Learn.{Known, learn, check_flow}
use akvorado.Core.Enrich.{enrich_flow}
use akvorado.Core.Enrich.Safe.{enrich_flow-Returns}
use akvorado.Core.Enrich.Checks.{check_flow-passes}
use akvorado.Tests.Data.{test_ch, test_flow, test_flow-IsBuilding}

abbrev router : Answer
router = record {
  exporter = record { name = 114 ∷ []; region = []; role = []; tenant = []; site = []; group = [] };
  interface = record {
    name = 103 ∷ [];
    description = [];
    speed = 1000;
    provider = [];
    connectivity = [];
    boundary = external;
  };
}

abbrev route : RoutingAnswer
route = record {
  asn = 64500;
  as_path = 64500 ∷ [];
  communities = [];
  large_communities = [];
  net_mask = 24;
  next_hop = v6 9;
}

abbrev pub services : Services
services = record {
  metadata = λ t ip index. some router;
  routing = λ addr hop agent. route;
  networks = some (λ addr. no_network);
  override_sampling_rate = λ ip. none;
  default_sampling_rate = λ ip. some 100;
}

-- A rule for exporters that sets the group, and one for interfaces that rejects.
abbrev rules : Classifiers
rules = record {
  exporter_rules = (λ si c. (record c { group = si.name }, true)) ∷ [];
  interface_rules = (λ ei ii c. (record c { reject = true }, true)) ∷ [];
}

abbrev pub config : Configuration
config = record {
  classifiers = rules;
  asn_providers = flow ∷ routing ∷ networks ∷ [];
  net_providers = from_flow ∷ from_routing ∷ [];
}

abbrev pub no_caches : Caches
no_caches = record { exporters = record { items = [] }; interfaces = record { items = [] } }

no_caches-IsCoherent : IsCoherent rules no_caches
unfolding Cache.items GoMap.get GoMap.map_values
no_caches-IsCoherent = record { exporters = λ k v h. cc; interfaces = λ k v h. cc }

abbrev sampled : FlowMessage
sampled = record test_flow { in_if = 1; out_if = 2 }

enrich_flow-Returns_example :
    Returns
      (λ r. IsBuilding test_flow.batch r.flow)
      (enrich_flow test_ch services config 1 (v6 1) (49 ∷ []) test_flow no_caches)
enrich_flow-Returns_example =
    enrich_flow-Returns test_ch services config 1 (v6 1) (49 ∷ []) test_flow no_caches
      test_flow-IsBuilding

abbrev exporter : ExporterInfo
exporter = record { ip = 49 ∷ []; name = 114 ∷ [] }

abbrev interface_key : ExporterAndInterfaceInfo
interface_key = record {
  exporter = exporter;
  interface = record { index = 1; name = 103 ∷ []; description = []; speed = 1000; vlan = 0 };
}

classify_exporter-Gives_example :
    Gives rules
      (exporter_verdict test_ch rules exporter test_flow no_exporter_classification)
      (classify_exporter test_ch rules 1 exporter test_flow no_exporter_classification no_caches)
classify_exporter-Gives_example =
    classify_exporter-Gives test_ch rules 1 exporter test_flow no_exporter_classification no_caches
      no_caches-IsCoherent

classify_interface-Gives_example :
    Gives rules
      (interface_verdict test_ch rules test_flow interface_key no_interface_classification true)
      (classify_interface test_ch rules 1 test_flow interface_key.exporter interface_key.interface
        no_interface_classification true no_caches)
classify_interface-Gives_example =
    classify_interface-Gives test_ch rules 1 test_flow interface_key no_interface_classification
      true no_caches no_caches-IsCoherent

abbrev known : Known
known = learn services 1 (v6 1) sampled

check_flow-passes_example :
    ((sampled.in_if ≢ 0) ⊎ (sampled.out_if ≢ 0))
    × (is_empty known.exporter_name ≡ false)
    × ((check_flow services (v6 1) sampled known).0.sampling_rate ≢ 0)
unfolding learn check_flow new_flow_message
check_flow-passes_example = check_flow-passes services (v6 1) sampled known refl

get_as_number-public_example :
    (get_as_number 64500 15169 0 24 (flow_except_private ∷ routing_except_private ∷ []) ≡ 0)
    ⊎ (is_private_as
          (get_as_number 64500 15169 0 24 (flow_except_private ∷ routing_except_private ∷ []))
        ≡ false)
get_as_number-public_example =
    get_as_number-public 64500 15169 0 24 (flow_except_private ∷ routing_except_private ∷ []) tt

get_as_number_lem_example :
    get_as_number 0 64500 7 24 (flow ∷ routing ∷ networks ∷ [])
    ≡ first_or is_set 0 (map (asn_of 0 64500 7 24) (flow ∷ routing ∷ networks ∷ []))
get_as_number_lem_example = get_as_number_lem 0 64500 7 24 (flow ∷ routing ∷ networks ∷ [])

get_net_mask_lem_example :
    get_net_mask 0 24 (from_flow ∷ from_routing ∷ [])
    ≡ first_or is_set 0 (map (net_mask_of 0 24) (from_flow ∷ from_routing ∷ []))
get_net_mask_lem_example = get_net_mask_lem 0 24 (from_flow ∷ from_routing ∷ [])

-- A flow without a next hop keeps none, although the routing knows one.
get_next_hop_lem_example :
    get_next_hop invalid (v6 9) (from_flow ∷ from_routing ∷ [])
    ≡ first_or is_specified
        (last_or (v6 0) (map (next_hop_of invalid (v6 9)) (from_flow ∷ from_routing ∷ [])))
        (map (next_hop_of invalid (v6 9)) (from_flow ∷ from_routing ∷ []))
get_next_hop_lem_example = get_next_hop_lem invalid (v6 9) (from_flow ∷ from_routing ∷ [])

abbrev communities : List LargeCommunity
communities = record { asn = 64500; local_data1 = 1; local_data2 = 2 } ∷ []

large_community_to_uint128_lem_example :
    map community_of (large_community_to_uint128 communities) ≡ communities
large_community_to_uint128_lem_example =
    large_community_to_uint128_lem communities (omega arith, omega arith, omega arith, tt)
