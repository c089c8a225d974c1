-- ===== src/Core/Fill.antt =====
-- The second half of `enrichFlow` in outlet/core/enricher.go: routing and networks.
use akvorado.Prelude.{ℕ, Option, none, some, List, [], ◌∷◌, length, ltb, if◌then◌else◌, ◌>>=◌}
use akvorado.Net.{Addr, invalid}
use akvorado.Schema.Keys
use akvorado.Schema.Columns.{ChGo}
use akvorado.Schema.Message.{
  FlowMessage, append_string, append_uint, append_array_uint32, append_array_uint128,
}
use akvorado.Core.Sources.{
  LargeCommunity, get_as_number, get_net_mask, get_next_hop, large_community_to_uint128,
}
use akvorado.Core.Classify.{append_strings}
use akvorado.Core.Learn.{Known}
use akvorado.Core.Services.{RoutingAnswer, NetworkAttributes, no_network, Services, Configuration}

module _ (ch : ChGo) (services : Services) (config : Configuration) where
  unfoldable pub networks_of : Addr → NetworkAttributes
  networks_of addr = elim services.networks [ none ↦ no_network | some lookup ↦ lookup addr ]

  -- The fields that are set by the configuration.
  unfoldable pub route :
      RoutingAnswer
      → RoutingAnswer
      → NetworkAttributes
      → NetworkAttributes
      → FlowMessage
      → FlowMessage
  route source dest src_net dst_net bf =
      let src_mask = get_net_mask bf.src_net_mask source.net_mask config.net_providers in
      let dst_mask = get_net_mask bf.dst_net_mask dest.net_mask config.net_providers in
      record bf {
        src_net_mask = src_mask;
        dst_net_mask = dst_mask;
        next_hop = get_next_hop bf.next_hop dest.next_hop config.net_providers;
        src_as = get_as_number bf.src_as source.asn src_net.asn src_mask config.asn_providers;
        dst_as = get_as_number bf.dst_as dest.asn dst_net.asn dst_mask config.asn_providers;
      }

  unfoldable pub append_large_communities :
      ℕ → List LargeCommunity → FlowMessage → Option FlowMessage
  append_large_communities key communities bf =
      if ltb 0 (length communities)
      then append_array_uint128 ch key (large_community_to_uint128 communities) bf
      else some bf

  unfoldable pub append_routing : RoutingAnswer → RoutingAnswer → FlowMessage → Option FlowMessage
  unfolding append_large_communities
  append_routing source dest bf = do
    m1 ← append_array_uint32 ch Keys.src_communities source.communities bf
    m2 ← append_array_uint32 ch Keys.dst_communities dest.communities m1
    m3 ← append_array_uint32 ch Keys.dst_as_path dest.as_path m2
    m4 ← append_large_communities Keys.src_large_communities source.large_communities m3
    append_large_communities Keys.dst_large_communities dest.large_communities m4

  unfoldable pub append_networks :
      NetworkAttributes → NetworkAttributes → FlowMessage → Option FlowMessage
  append_networks src dst bf = elim services.networks [
    | none ↦ some bf
    | some _ ↦
        append_strings ch
          ((Keys.src_net_name, src.name)
            ∷ (Keys.dst_net_name, dst.name)
            ∷ (Keys.src_net_role, src.role)
            ∷ (Keys.dst_net_role, dst.role)
            ∷ (Keys.src_net_site, src.site)
            ∷ (Keys.dst_net_site, dst.site)
            ∷ (Keys.src_net_region, src.region)
            ∷ (Keys.dst_net_region, dst.region)
            ∷ (Keys.src_net_tenant, src.tenant)
            ∷ (Keys.dst_net_tenant, dst.tenant)
            ∷ (Keys.src_country, src.country)
            ∷ (Keys.dst_country, dst.country)
            ∷ (Keys.src_geo_state, src.state)
            ∷ (Keys.dst_geo_state, dst.state)
            ∷ (Keys.src_geo_city, src.city)
            ∷ (Keys.dst_geo_city, dst.city)
            ∷ [])
          bf
  ]

  -- What `enrichFlow` does with a flow that is kept.
  unfoldable pub fill : Known → FlowMessage → Option FlowMessage
  unfolding networks_of route append_routing append_networks
  fill k bf = do
    let source = services.routing bf.src_addr invalid bf.exporter_address
    let dest = services.routing bf.dst_addr bf.next_hop bf.exporter_address
    let src_net = networks_of bf.src_addr
    let dst_net = networks_of bf.dst_addr
    m1 ← append_routing source dest (route source dest src_net dst_net bf)
    m2 ← append_networks src_net dst_net m1
    m3 ← append_string ch Keys.exporter_name k.exporter_name m2
    m4 ← append_uint ch Keys.in_if_speed k.in_if.speed m3
    append_uint ch Keys.out_if_speed k.out_if.speed m4
