-- ===== src/Core/Services.antt =====
-- What the core component is given: the answers of the other components for one flow, which are
-- parameters, and its configuration.
use akvorado.Prelude.{ℕ, Option, List, []}
use akvorado.Net.{Addr}
use akvorado.Core.Info.{Text, InterfaceBoundary}
use akvorado.Core.Sources.{AsnProvider, NetProvider, LargeCommunity}
use akvorado.Core.Classify.{Classifiers}

-- `provider.Exporter`, `provider.Interface` and `provider.Answer` of outlet/metadata/provider/root.go,
-- an answer that is found.
pub record Exporter : Type 0 where
  pub name : Text
  pub region : Text
  pub role : Text
  pub tenant : Text
  pub site : Text
  pub group : Text

pub record Interface : Type 0 where
  pub name : Text
  pub description : Text
  pub speed : ℕ
  pub provider : Text
  pub connectivity : Text
  pub boundary : InterfaceBoundary

pub record Answer : Type 0 where
  pub exporter : Exporter
  pub interface : Interface

-- `LookupResult` of outlet/routing/provider/root.go.
pub record RoutingAnswer : Type 0 where
  pub asn : ℕ
  pub as_path : List ℕ
  pub communities : List ℕ
  pub large_communities : List LargeCommunity
  pub net_mask : ℕ
  pub next_hop : Addr

-- `NetworkAttributes` of outlet/networks.
pub record NetworkAttributes : Type 0 where
  pub name : Text
  pub role : Text
  pub site : Text
  pub region : Text
  pub city : Text
  pub state : Text
  pub country : Text
  pub tenant : Text
  pub asn : ℕ

abbrev pub no_network : NetworkAttributes
no_network = record {
  name = [];
  role = [];
  site = [];
  region = [];
  city = [];
  state = [];
  country = [];
  tenant = [];
  asn = 0;
}

-- The answers of the other components: `networks` is `none` without that component, a missing answer
-- of `metadata` has `Found` false.
pub record Services : Type 0 where
  pub metadata : ℕ → Addr → ℕ → Option Answer
  pub routing : Addr → Addr → Addr → RoutingAnswer
  pub networks : Option (Addr → NetworkAttributes)
  pub override_sampling_rate : Addr → Option ℕ
  pub default_sampling_rate : Addr → Option ℕ

pub record Configuration : Type 0 where
  pub classifiers : Classifiers
  pub asn_providers : List AsnProvider
  pub net_providers : List NetProvider
