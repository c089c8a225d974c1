-- ===== src/Core/Sources.antt =====
-- Where the values of a flow come from, by the configuration: `getASNumber`, `getNetMask`,
-- `getNextHop`, `isPrivateAS` and `largeCommunityToUInt128` in outlet/core/enricher.go.
pub mod Priority
use akvorado.Prelude.{
  ℕ, ◌+◌, ◌*◌, ◌%◌, ◌^◌, Bool, not, ◌&&◌, ◌||◌, List, [], ◌∷◌, map, leb, ◌==◌, ◌!=◌, if◌then◌else◌,
}
use akvorado.Net.{Addr, v6, is_unspecified}

pub data AsnProvider : Type 0 where
  flow flow_except_private flow_except_default_route routing routing_except_private networks :
      AsnProvider

pub data NetProvider : Type 0 where
  from_flow from_routing : NetProvider

unfoldable pub is_private_as : ℕ → Bool
is_private_as as_number =
    as_number == 0
    || as_number == 23456
    || leb 64496 as_number && leb as_number 65551
    || leb 4_200_000_000 as_number

module _ (flow_as bmp_as net_as flow_net_mask : ℕ) where
  -- The switch of `getASNumber`.
  unfoldable pub asn_of : AsnProvider → ℕ
  unfolding is_private_as
  asn_of flow = flow_as
  asn_of flow_except_private = if is_private_as flow_as then 0 else flow_as
  asn_of flow_except_default_route = if flow_net_mask == 0 then 0 else flow_as
  asn_of routing = bmp_as
  asn_of routing_except_private = if is_private_as bmp_as then 0 else bmp_as
  asn_of networks = net_as

  as_number_loop : ℕ → List AsnProvider → ℕ
  as_number_loop asn [] = asn
  as_number_loop asn (provider ∷ rest) =
      let next = as_number_loop (asn_of provider) rest in if asn != 0 then asn else next

  pub get_as_number : List AsnProvider → ℕ
  unfolding as_number_loop
  get_as_number providers = as_number_loop 0 providers

unfoldable pub net_mask_of : ℕ → ℕ → NetProvider → ℕ
net_mask_of flow_mask bmp_mask from_flow = flow_mask
net_mask_of flow_mask bmp_mask from_routing = bmp_mask

module _ (flow_mask bmp_mask : ℕ) where
  net_mask_loop : ℕ → List NetProvider → ℕ
  net_mask_loop mask [] = mask
  net_mask_loop mask (provider ∷ rest) =
      let next = net_mask_loop (net_mask_of flow_mask bmp_mask provider) rest in
      if mask != 0 then mask else next

  pub get_net_mask : List NetProvider → ℕ
  unfolding net_mask_loop
  get_net_mask providers = net_mask_loop 0 providers

unfoldable pub next_hop_of : Addr → Addr → NetProvider → Addr
next_hop_of flow_next_hop bmp_next_hop from_flow = flow_next_hop
next_hop_of flow_next_hop bmp_next_hop from_routing = bmp_next_hop

module _ (flow_next_hop bmp_next_hop : Addr) where
  next_hop_loop : Addr → List NetProvider → Addr
  next_hop_loop next_hop [] = next_hop
  next_hop_loop next_hop (provider ∷ rest) =
      let next = next_hop_loop (next_hop_of flow_next_hop bmp_next_hop provider) rest in
      if not (is_unspecified next_hop) then next_hop else next

  pub get_next_hop : List NetProvider → Addr
  unfolding next_hop_loop
  get_next_hop providers = next_hop_loop (v6 0) providers

-- `bgp.LargeCommunity`: the AS number and two words of local data. An UInt128 is a pair.
pub record LargeCommunity : Type 0 where
  pub asn : ℕ
  pub local_data1 : ℕ
  pub local_data2 : ℕ

abbrev pub uint128_of : LargeCommunity → ℕ × ℕ
uint128_of c = (c.asn, (c.local_data1 * 2 ^ 32 + c.local_data2) % 2 ^ 64)

unfoldable pub large_community_to_uint128 : List LargeCommunity → List (ℕ × ℕ)
large_community_to_uint128 communities = map uint128_of communities
