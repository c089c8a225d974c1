-- ===== src/Core/Classify.antt =====
-- The classification of exporters and interfaces: `classifyExporter`, `classifyInterface`,
-- `writeExporter` and `writeInterface` in outlet/core/enricher.go. The Boolean result of the source
-- is false for a flow that is rejected; `none` is a panic. Logs and the counters of classifier errors
-- are left out.
pub mod Coherent
pub mod Safe
use akvorado.Prelude.{
  ℕ, Bool, true, false, not, ◌||◌, Option, none, some, List, [], ◌∷◌, length, ◌==◌, if◌then◌else◌,
  ◌>>=◌,
}
use akvorado.Cache
use akvorado.Cache.{Cache}
use akvorado.Schema.Keys
use akvorado.Schema.Columns.{ChGo}
use akvorado.Schema.Message.{FlowMessage, append_string, append_uint}
use akvorado.Core.Info.{
  Text, is_empty, ExporterInfo, ExporterClassification, InterfaceInfo, InterfaceClassification,
  ExporterAndInterfaceInfo, boundary_number, is_unclassified_exporter, is_unclassified_interface,
  ExporterRule, InterfaceRule, exporter_info_discrete, exporter_and_interface_info_discrete,
}

-- What the classifiers know: the rules and the caches.
pub record Classifiers : Type 0 where
  pub exporter_rules : List ExporterRule
  pub interface_rules : List InterfaceRule

pub record Caches : Type 0 where
  pub exporters : Cache ExporterInfo ExporterClassification
  pub interfaces : Cache ExporterAndInterfaceInfo InterfaceClassification

-- The verdict, with the flow and the caches.
abbrev pub Verdict : Type 0
Verdict = Bool × FlowMessage × Caches

-- Several calls of `AppendString`.
unfoldable pub append_strings : ChGo → List (ℕ × Text) → FlowMessage → Option FlowMessage
append_strings ch [] bf = some bf
append_strings ch ((key, value) ∷ rest) bf =
    append_string ch key value bf >>= append_strings ch rest

module _ (ch : ChGo) where
  unfoldable pub write_exporter : FlowMessage → ExporterClassification → Option (Bool × FlowMessage)
  write_exporter bf c = if c.reject then some (false, bf) else do
    m ←
        append_strings ch
          ((Keys.exporter_group, c.group)
            ∷ (Keys.exporter_role, c.role)
            ∷ (Keys.exporter_site, c.site)
            ∷ (Keys.exporter_region, c.region)
            ∷ (Keys.exporter_tenant, c.tenant)
            ∷ [])
          bf
    some (true, m)

  unfoldable pub write_interface :
      FlowMessage → InterfaceClassification → Bool → Option (Bool × FlowMessage)
  write_interface bf c true = if c.reject then some (false, bf) else do
    m ←
        append_strings ch
          ((Keys.in_if_name, c.name)
            ∷ (Keys.in_if_description, c.description)
            ∷ (Keys.in_if_connectivity, c.connectivity)
            ∷ (Keys.in_if_provider, c.provider)
            ∷ [])
          bf
    m' ← append_uint ch Keys.in_if_boundary (boundary_number c.boundary) m
    some (true, m')
  write_interface bf c false = if c.reject then some (false, bf) else do
    m ←
        append_strings ch
          ((Keys.out_if_name, c.name)
            ∷ (Keys.out_if_description, c.description)
            ∷ (Keys.out_if_connectivity, c.connectivity)
            ∷ (Keys.out_if_provider, c.provider)
            ∷ [])
          bf
    m' ← append_uint ch Keys.out_if_boundary (boundary_number c.boundary) m
    some (true, m')

-- The loops over the rules: they end with a rule that fails, or when nothing is left to classify.
unfoldable pub is_partial_exporter : ExporterClassification → Bool
is_partial_exporter c =
    is_empty c.group || is_empty c.role || is_empty c.site || is_empty c.region || is_empty c.tenant

unfoldable pub run_exporter_rules :
    ExporterInfo → ExporterClassification → List ExporterRule → ExporterClassification
run_exporter_rules si c [] = c
run_exporter_rules si c (rule ∷ rest) =
    let c' = (rule si c).0 in
    let next = run_exporter_rules si c' rest in
    if not (rule si c).1 then c' else if is_partial_exporter c' then next else c'

unfoldable pub is_partial_interface : InterfaceClassification → Bool
is_partial_interface c =
    is_empty c.connectivity || is_empty c.provider || boundary_number c.boundary == 0

unfoldable pub run_interface_rules :
    ExporterInfo
    → InterfaceInfo
    → InterfaceClassification
    → List InterfaceRule
    → InterfaceClassification
run_interface_rules ei ii c [] = c
run_interface_rules ei ii c (rule ∷ rest) =
    let c' = (rule ei ii c).0 in
    let next = run_interface_rules ei ii c' rest in
    if not (rule ei ii c).1 then c' else if is_partial_interface c' then next else c'

-- The name and the description of the interface, where a classifier set none.
unfoldable pub with_names : InterfaceInfo → InterfaceClassification → InterfaceClassification
with_names ii c = record c {
  name = if is_empty c.name then ii.name else c.name;
  description = if is_empty c.description then ii.description else c.description;
}

-- The verdict on a flow, with the caches as they are then.
abbrev pub with_caches : Caches → Option (Bool × FlowMessage) → Option Verdict
with_caches caches none = none
with_caches caches (some (verdict, bf)) = some (verdict, bf, caches)

module _ (ch : ChGo) (rules : Classifiers) where
  unfoldable pub classify_exporter :
      ℕ → ExporterInfo → FlowMessage → ExporterClassification → Caches → Option Verdict
  classify_exporter t si bf c caches =
      if not (is_unclassified_exporter c)
      then with_caches caches (write_exporter ch bf c)
      else if length rules.exporter_rules == 0
      then some (true, bf, caches)
      else let found = Cache.get exporter_info_discrete t si caches.exporters in
        elim found.1 [
          | some cached ↦
              with_caches (record caches { exporters = found.0 }) (write_exporter ch bf cached)
          | none ↦
              let c' = run_exporter_rules si c rules.exporter_rules in
              with_caches
                (record caches { exporters = Cache.put exporter_info_discrete t si c' found.0 })
                (write_exporter ch bf c')
        ]

  unfoldable pub classify_interface :
      ℕ
      → FlowMessage
      → ExporterInfo
      → InterfaceInfo
      → InterfaceClassification
      → Bool
      → Caches
      → Option Verdict
  classify_interface t bf ei ii c direction_in caches =
      let named = record c { name = ii.name; description = ii.description } in
      if not (is_unclassified_interface c)
      then with_caches caches (write_interface ch bf named direction_in)
      else if length rules.interface_rules == 0
      then write_interface ch bf named direction_in >>= (λ p. some (true, p.1, caches))
      else let key : ExporterAndInterfaceInfo = record { exporter = ei; interface = ii } in
        let found = Cache.get exporter_and_interface_info_discrete t key caches.interfaces in
        elim found.1 [
          | some cached ↦
              with_caches (record caches { interfaces = found.0 })
                (write_interface ch bf cached direction_in)
          | none ↦
              let c' = with_names ii (run_interface_rules ei ii c rules.interface_rules) in
              with_caches
                (record caches {
                  interfaces = Cache.put exporter_and_interface_info_discrete t key c' found.0;
                })
                (write_interface ch bf c' direction_in)
        ]
