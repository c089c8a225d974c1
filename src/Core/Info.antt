-- ===== src/Core/Info.antt =====
-- The data of the classifiers, in outlet/core/classifier.go. A rule is a program of the expression
-- language (expr-lang): a parameter, which maps what it is run on to the classification that it
-- leaves, and tells whether it ran without an error.
use native.Mathlib.Decide.{ℕ_discrete}
use akvorado.Prelude.{ℕ, Bool, false, List, [], length, not, ◌&&◌, ◌==◌}

abbrev pub Text : Type 0
Text = List ℕ

abbrev pub is_empty : Text → Bool
is_empty s = length s == 0

-- `exporterInfo`
pub record ExporterInfo : Type 0 where
  pub ip : Text
  pub name : Text

-- `exporterClassification`
pub record ExporterClassification : Type 0 where
  pub group : Text
  pub role : Text
  pub site : Text
  pub region : Text
  pub tenant : Text
  pub reject : Bool

-- `interfaceInfo`
pub record InterfaceInfo : Type 0 where
  pub index : ℕ
  pub name : Text
  pub description : Text
  pub speed : ℕ
  pub vlan : ℕ

-- `InterfaceBoundary` of common/schema/definition.go.
pub data InterfaceBoundary : Type 0 where
  undefined external internal : InterfaceBoundary

abbrev pub boundary_number : InterfaceBoundary → ℕ
boundary_number undefined = 0
boundary_number external = 1
boundary_number internal = 2

-- `interfaceClassification`
pub record InterfaceClassification : Type 0 where
  pub connectivity : Text
  pub provider : Text
  pub boundary : InterfaceBoundary
  pub reject : Bool
  pub name : Text
  pub description : Text

-- `exporterAndInterfaceInfo` of outlet/core/enricher.go.
pub record ExporterAndInterfaceInfo : Type 0 where
  pub exporter : ExporterInfo
  pub interface : InterfaceInfo

-- The keys of the two caches can be compared.
abbrev pub exporter_info_discrete : Discrete ExporterInfo
exporter_info_discrete = hlevel ℕ_discrete

abbrev pub exporter_and_interface_info_discrete : Discrete ExporterAndInterfaceInfo
exporter_and_interface_info_discrete = hlevel ℕ_discrete

-- The zero values.
abbrev pub no_exporter_classification : ExporterClassification
no_exporter_classification = record {
  group = [];
  role = [];
  site = [];
  region = [];
  tenant = [];
  reject = false;
}

abbrev pub no_interface_classification : InterfaceClassification
no_interface_classification = record {
  connectivity = [];
  provider = [];
  boundary = undefined;
  reject = false;
  name = [];
  description = [];
}

-- The comparisons with the zero values.
unfoldable pub is_unclassified_exporter : ExporterClassification → Bool
is_unclassified_exporter c =
    is_empty c.group
    && is_empty c.role
    && is_empty c.site
    && is_empty c.region
    && is_empty c.tenant
    && not c.reject

unfoldable pub is_unclassified_interface : InterfaceClassification → Bool
is_unclassified_interface c =
    is_empty c.connectivity
    && is_empty c.provider
    && boundary_number c.boundary == 0
    && not c.reject
    && is_empty c.name
    && is_empty c.description

abbrev pub ExporterRule : Type 0
ExporterRule = ExporterInfo → ExporterClassification → ExporterClassification × Bool

abbrev pub InterfaceRule : Type 0
InterfaceRule =
    ExporterInfo → InterfaceInfo → InterfaceClassification → InterfaceClassification × Bool
