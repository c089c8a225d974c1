-- ===== src/Core/Learn.antt =====
-- The first half of `enrichFlow` in outlet/core/enricher.go: the metadata, the sampling rate and
-- the tests for which a flow is skipped.
use akvorado.Prelude.{
  ℕ, ◌%◌, ◌^◌, ◌&&◌, Option, none, some, List, [], ◌∷◌, ◌++◌, ltb, ◌==◌, ◌!=◌, if◌then◌else◌,
}
use akvorado.Net.{Addr}
use akvorado.Schema.Message.{FlowMessage}
use akvorado.Core.Info.{
  Text, is_empty, ExporterClassification, InterfaceInfo, InterfaceClassification,
  no_exporter_classification, no_interface_classification,
}
use akvorado.Core.Services.{Exporter, Interface, Answer, Services}

-- The labels of the counter `flowsErrors`.
pub data FlowError : Type 0 where
  interfaces_missing metadata_missing sampling_rate_missing : FlowError

-- The local variables of `enrichFlow`.
pub record Known : Type 0 where
  pub exporter_name : Text
  pub exporter : ExporterClassification
  pub in_if : InterfaceInfo
  pub in_class : InterfaceClassification
  pub out_if : InterfaceInfo
  pub out_class : InterfaceClassification

abbrev pub no_interface : InterfaceInfo
no_interface = record { index = 0; name = []; description = []; speed = 0; vlan = 0 }

abbrev pub nothing_known : Known
nothing_known = record {
  exporter_name = [];
  exporter = no_exporter_classification;
  in_if = no_interface;
  in_class = no_interface_classification;
  out_if = no_interface;
  out_class = no_interface_classification;
}

-- What an answer tells of the exporter and of an interface.
unfoldable pub learn_exporter : Exporter → Known → Known
learn_exporter e k = record k {
  exporter_name = e.name;
  exporter = record {
    group = e.group;
    role = e.role;
    site = e.site;
    region = e.region;
    tenant = e.tenant;
    reject = k.exporter.reject;
  };
}

unfoldable pub interface_info : ℕ → ℕ → Interface → InterfaceInfo
interface_info index vlan i = record {
  index = index;
  name = i.name;
  description = i.description;
  speed = i.speed % 2 ^ 32;
  vlan = vlan;
}

unfoldable pub interface_class : Interface → InterfaceClassification → InterfaceClassification
interface_class i c = record c {
  provider = i.provider;
  connectivity = i.connectivity;
  boundary = i.boundary;
}

unfoldable pub learn_in : FlowMessage → Option Answer → Known → Known
unfolding learn_exporter interface_info interface_class
learn_in bf none k = k
learn_in bf (some a) k = record (learn_exporter a.exporter k) {
  in_if = interface_info bf.in_if bf.src_vlan a.interface;
  in_class = interface_class a.interface k.in_class;
}

unfoldable pub learn_out : FlowMessage → Option Answer → Known → Known
unfolding learn_exporter interface_info interface_class
learn_out bf none k = k
learn_out bf (some a) k = record (learn_exporter a.exporter k) {
  out_if = interface_info bf.out_if bf.dst_vlan a.interface;
  out_class = interface_class a.interface k.out_class;
}

-- A rate that is configured and positive, or `none`.
unfoldable pub positive_rate : Option ℕ → Option ℕ
positive_rate none = none
positive_rate (some rate) = if ltb 0 rate then some rate else none

unfoldable pub override_rate : Option ℕ → FlowMessage → FlowMessage
unfolding positive_rate
override_rate rate bf = elim (positive_rate rate) [
  | none ↦ bf
  | some r ↦ record bf { sampling_rate = r }
]

-- The default rate, and the error if there is none.
unfoldable pub default_rate : Option ℕ → FlowMessage → FlowMessage × List FlowError
unfolding positive_rate
default_rate rate bf =
    if bf.sampling_rate == 0
    then elim (positive_rate rate) [
      | none ↦ (bf, sampling_rate_missing ∷ [])
      | some r ↦ (record bf { sampling_rate = r }, [])
    ]
    else (bf, [])

module _ (services : Services) where
  unfoldable pub learn : ℕ → Addr → FlowMessage → Known
  unfolding learn_in learn_out
  learn t exporter_ip bf =
      let k =
        if bf.in_if != 0
        then learn_in bf (services.metadata t exporter_ip bf.in_if) nothing_known
        else nothing_known in
      if bf.out_if != 0 then learn_out bf (services.metadata t exporter_ip bf.out_if) k else k

  unfoldable pub interface_errors : FlowMessage → Known → List FlowError
  interface_errors bf k =
      if bf.out_if == 0 && bf.in_if == 0
      then interfaces_missing ∷ []
      else if is_empty k.exporter_name
      then metadata_missing ∷ []
      else []

  -- The flow with its sampling rate, and the errors for which it is skipped.
  unfoldable pub check_flow : Addr → FlowMessage → Known → FlowMessage × List FlowError
  unfolding interface_errors override_rate default_rate
  check_flow exporter_ip bf k =
      let (bf', errors) =
        default_rate (services.default_sampling_rate exporter_ip)
          (override_rate (services.override_sampling_rate exporter_ip) bf) in
      (bf', interface_errors bf k ++ errors)
