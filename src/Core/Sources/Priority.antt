-- ===== src/Core/Sources/Priority.antt =====
-- The order of the providers in `getASNumber`, `getNetMask` and `getNextHop` of
-- outlet/core/enricher.go, and the numbers of large communities.
use akvorado.Prelude.{
  ℕ, ◌+◌, ◌*◌, ◌/◌, ◌%◌, ◌^◌, ◌<◌, ◌≡◌, refl, Bool, false, not, List, [], ◌∷◌, map, ◌!=◌,
  if◌then◌else◌, arith, Bool-cases, ◌⊎◌, inl, inr,
}
use akvorado.Net.{Addr, v6, is_unspecified}
use akvorado.Core.Sources.{
  AsnProvider, flow, flow_except_private, flow_except_default_route, routing,
  routing_except_private, networks, NetProvider, is_private_as, asn_of, as_number_loop,
  get_as_number, net_mask_of, net_mask_loop, get_net_mask, next_hop_of, next_hop_loop, get_next_hop,
  LargeCommunity, large_community_to_uint128,
}

-- The first element that passes the test, or the default.
abbrev pub first_or {ℓ} : {A : Type ℓ} → (A → Bool) → A → List A → A
first_or test d [] = d
first_or test d (x ∷ xs) = if test x then x else first_or test d xs

abbrev pub last_or {ℓ} : {A : Type ℓ} → A → List A → A
last_or d [] = d
last_or d (x ∷ xs) = last_or x xs

abbrev pub is_set : ℕ → Bool
is_set n = n != 0

abbrev pub is_specified : Addr → Bool
is_specified a = not (is_unspecified a)

module _ (flow_as bmp_as net_as flow_net_mask : ℕ) where
  as_number_loop_lem :
      (asn : ℕ) (ps : List AsnProvider)
      → as_number_loop flow_as bmp_as net_as flow_net_mask asn ps
        ≡ first_or is_set 0 (asn ∷ map (asn_of flow_as bmp_as net_as flow_net_mask) ps)
  unfolding as_number_loop
  as_number_loop_lem asn [] = elim (Bool-cases (asn != 0)) [
    | inl e ↦ rw e refl
    | inr e ↦ rw e (ground arith)
  ]
  as_number_loop_lem asn (p ∷ ps) =
      rw (as_number_loop_lem (asn_of flow_as bmp_as net_as flow_net_mask p) ps)

  -- The AS number of a flow is the first non-zero one among those that the configured providers
  -- offer, in their order, and 0 if there is none.
  pub get_as_number_lem :
      (ps : List AsnProvider)
      → get_as_number flow_as bmp_as net_as flow_net_mask ps
        ≡ first_or is_set 0 (map (asn_of flow_as bmp_as net_as flow_net_mask) ps)
  unfolding get_as_number
  get_as_number_lem ps = as_number_loop_lem 0 ps

  -- A list of providers that leave out private numbers.
  abbrev pub AvoidsPrivate : List AsnProvider → Type 0
  AvoidsPrivate [] = Unit
  AvoidsPrivate (flow_except_private ∷ ps) = AvoidsPrivate ps
  AvoidsPrivate (routing_except_private ∷ ps) = AvoidsPrivate ps
  AvoidsPrivate (_ ∷ ps) = ⊥

  if_public :
      (n d : ℕ)
      → (d ≡ 0) ⊎ (is_private_as d ≡ false)
      → (let m = if is_private_as n then 0 else n in (if m != 0 then m else d) ≡ 0)
        ⊎ (is_private_as (let m = if is_private_as n then 0 else n in if m != 0 then m else d)
            ≡ false)
  if_public n d h = elim (Bool-cases (is_private_as n)) [
    | inl e ↦ rw e h
    | inr e ↦ rw e (elim (Bool-cases (n != 0)) [ inl f ↦ rw f (inr e) | inr f ↦ rw f h ])
  ]

  first_public :
      (ps : List AsnProvider)
      → AvoidsPrivate ps
      → (let n = first_or is_set 0 (map (asn_of flow_as bmp_as net_as flow_net_mask) ps) in
          (n ≡ 0) ⊎ (is_private_as n ≡ false))
  unfolding asn_of
  first_public [] h = inl refl
  first_public (flow_except_private ∷ ps) h = if_public flow_as _ (first_public ps h)
  first_public (routing_except_private ∷ ps) h = if_public bmp_as _ (first_public ps h)
  first_public (flow ∷ ps) h = absurd h
  first_public (flow_except_default_route ∷ ps) h = absurd h
  first_public (routing ∷ ps) h = absurd h
  first_public (networks ∷ ps) h = absurd h

  -- If the configured providers are all of the kind that leaves out private AS numbers, the AS number
  -- of a flow is 0 or a public one.
  pub get_as_number-public :
      (ps : List AsnProvider)
      → AvoidsPrivate ps
      → (get_as_number flow_as bmp_as net_as flow_net_mask ps ≡ 0)
        ⊎ (is_private_as (get_as_number flow_as bmp_as net_as flow_net_mask ps) ≡ false)
  get_as_number-public ps h = rw (get_as_number_lem ps) (first_public ps h)

module _ (flow_mask bmp_mask : ℕ) where
  net_mask_loop_lem :
      (mask : ℕ) (ps : List NetProvider)
      → net_mask_loop flow_mask bmp_mask mask ps
        ≡ first_or is_set 0 (mask ∷ map (net_mask_of flow_mask bmp_mask) ps)
  unfolding net_mask_loop
  net_mask_loop_lem mask [] = elim (Bool-cases (mask != 0)) [
    | inl e ↦ rw e refl
    | inr e ↦ rw e (ground arith)
  ]
  net_mask_loop_lem mask (p ∷ ps) = rw (net_mask_loop_lem (net_mask_of flow_mask bmp_mask p) ps)

  -- The prefix length of an address is the first non-zero one among those that the configured
  -- providers offer, in their order, and 0 if there is none.
  pub get_net_mask_lem :
      (ps : List NetProvider)
      → get_net_mask flow_mask bmp_mask ps
        ≡ first_or is_set 0 (map (net_mask_of flow_mask bmp_mask) ps)
  unfolding get_net_mask
  get_net_mask_lem ps = net_mask_loop_lem 0 ps

module _ (flow_next_hop bmp_next_hop : Addr) where
  next_hop_loop_lem :
      (hop : Addr) (ps : List NetProvider)
      → next_hop_loop flow_next_hop bmp_next_hop hop ps
        ≡ first_or is_specified
            (last_or hop (map (next_hop_of flow_next_hop bmp_next_hop) ps))
            (hop ∷ map (next_hop_of flow_next_hop bmp_next_hop) ps)
  unfolding next_hop_loop
  next_hop_loop_lem hop [] = elim (Bool-cases (is_unspecified hop)) [
    | inl e ↦ rw e refl
    | inr e ↦ rw e refl
  ]
  next_hop_loop_lem hop (p ∷ ps) =
      rw (next_hop_loop_lem (next_hop_of flow_next_hop bmp_next_hop p) ps)

  -- The next hop of a flow is the first one among those that the configured providers offer, in their
  -- order, which is not the unspecified address: an invalid address or a mapped 0.0.0.0 is taken, too.
  -- If all are unspecified it is the last one, and `::` without a provider.
  pub get_next_hop_lem :
      (ps : List NetProvider)
      → get_next_hop flow_next_hop bmp_next_hop ps ≡ (
          let hops = map (next_hop_of flow_next_hop bmp_next_hop) ps in
          first_or is_specified (last_or (v6 0) hops) hops)
  unfolding get_next_hop is_unspecified
  get_next_hop_lem ps = next_hop_loop_lem (v6 0) ps

-- The community that an UInt128 stands for.
abbrev pub community_of : ℕ × ℕ → LargeCommunity
community_of v = record { asn = v.0; local_data1 = v.1 / 2 ^ 32; local_data2 = v.1 % 2 ^ 32 }

abbrev pub AreWords : List LargeCommunity → Type 0
AreWords [] = Unit
AreWords (c ∷ cs) =
    (c.asn < 2 ^ 32) × (c.local_data1 < 2 ^ 32) × (c.local_data2 < 2 ^ 32) × AreWords cs

-- The large communities of a route are stored without loss: where their parts are 32-bit words, they
-- can be read back from the numbers that are stored.
pub large_community_to_uint128_lem :
    (cs : List LargeCommunity) → AreWords cs → map community_of (large_community_to_uint128 cs) ≡ cs
unfolding large_community_to_uint128
large_community_to_uint128_lem [] h = refl
large_community_to_uint128_lem (c ∷ cs) (a, l1, l2, rest) =
    let high : (c.local_data1 * 2 ^ 32 + c.local_data2) % 2 ^ 64 / 2 ^ 32 ≡ c.local_data1 =
      omega arith in
    let low : (c.local_data1 * 2 ^ 32 + c.local_data2) % 2 ^ 64 % 2 ^ 32 ≡ c.local_data2 =
      omega arith in
    rw (high, low, large_community_to_uint128_lem cs rest) refl
