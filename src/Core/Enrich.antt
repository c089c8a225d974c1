-- ===== src/Core/Enrich.antt =====
-- `enrichFlow` of outlet/core/enricher.go.
pub mod Safe
pub mod Checks
use akvorado.Prelude.{ℕ, Bool, true, false, not, Option, some, List, [], ◌∷◌, if◌then◌else◌, ◌>>=◌}
use akvorado.Net.{Addr}
use akvorado.Schema.Columns.{ChGo}
use akvorado.Schema.Message.{FlowMessage}
use akvorado.Core.Info.{Text, ExporterInfo}
use akvorado.Core.Classify.{Caches, Verdict, classify_exporter, classify_interface}
use akvorado.Core.Services.{Services, Configuration}
use akvorado.Core.Learn.{Known, FlowError, learn, check_flow}
use akvorado.Core.Fill.{fill}

-- What `enrichFlow` leaves: whether the flow is to be skipped, the flow, the caches and the errors
-- that it counted.
pub record Enriched : Type 0 where
  pub skip : Bool
  pub flow : FlowMessage
  pub caches : Caches
  pub errors : List FlowError

module _ (ch : ChGo) (services : Services) (config : Configuration) where
  -- The classification: the first rejection ends it.
  unfoldable pub classify : ℕ → Text → FlowMessage → Known → Caches → Option Verdict
  unfolding classify_exporter classify_interface
  classify t exporter_str bf k caches =
      let ei : ExporterInfo = record { ip = exporter_str; name = k.exporter_name } in
      classify_exporter ch config.classifiers t ei bf k.exporter caches >>= λ (first : Verdict).
      (if not first.0
        then some first
        else classify_interface ch config.classifiers t first.1 ei k.out_if k.out_class false
            first.2
          >>= λ (second : Verdict).
              (if not second.0
                then some second
                else classify_interface ch config.classifiers t second.1 ei k.in_if k.in_class true
                    second.2))

  after_verdict : Known → Verdict → Option Enriched
  unfolding fill
  after_verdict k (false, bf, caches) =
      some (record { skip = true; flow = bf; caches = caches; errors = [] })
  after_verdict k (true, bf, caches) = do
    m ← fill ch services config k bf
    some (record { skip = false; flow = m; caches = caches; errors = [] })

  -- `enrichFlow` at the time `t`; the address of the exporter is also given as a text.
  pub enrich_flow : ℕ → Addr → Text → FlowMessage → Caches → Option Enriched
  unfolding learn check_flow classify after_verdict
  enrich_flow t exporter_ip exporter_str bf caches =
      let k = learn services t exporter_ip bf in
      let checked = check_flow services exporter_ip bf k in
      elim checked.1 [
        | [] ↦ classify t exporter_str checked.0 k caches >>= after_verdict k
        | e ∷ rest ↦
            some (record { skip = true; flow = checked.0; caches = caches; errors = e ∷ rest })
      ]
