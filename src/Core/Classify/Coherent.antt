-- ===== src/Core/Classify/Coherent.antt =====
-- The caches of the classifiers in outlet/core/enricher.go, and the verdicts of the rules without them.
use mathlib.Core.Logic.{ite}
use akvorado.Prelude.{
  ℕ, ◌≡◌, refl, sym, ◌∙◌, ap, Bool, true, false, not, Option, none, some, [], ◌∷◌, length, ◌==◌,
  if◌then◌else◌, ◌>>=◌, Bool-cases, inl, inr, arith,
}
use akvorado.Cache
use akvorado.Cache.{Cache}
use akvorado.Cache.Laws.{object_of, get-object_of, object_of-put}
use akvorado.Schema.Columns.{ChGo}
use akvorado.Schema.Message.{FlowMessage}
use akvorado.Core.Info.{
  Text, is_empty, ExporterInfo, ExporterClassification, InterfaceClassification, InterfaceBoundary,
  ExporterAndInterfaceInfo, undefined, external, internal, boundary_number,
  is_unclassified_exporter, no_exporter_classification, no_interface_classification,
  is_unclassified_interface, exporter_info_discrete, exporter_and_interface_info_discrete,
}
use akvorado.Core.Classify.{
  Classifiers, Caches, Verdict, write_exporter, write_interface, run_exporter_rules,
  run_interface_rules, with_names, with_caches, classify_exporter, classify_interface,
}

-- Every object of the cache is the function's value at its key.
module _ {K V : Type 0} (dec : Discrete K) (f : K → V) where
  abbrev pub Holds : Cache K V → Type 0
  Holds c = (k : K) (v : V) → object_of dec k c ≡ some v → v ≡ f k

  get-Holds : (now : ℕ) (k : K) (c : Cache K V) → Holds c → Holds (Cache.get dec now k c).0
  get-Holds now k c h j v e = h j v (sym (get-object_of dec now k j c).1 ∙ e)

  get-hit :
      (now : ℕ) (k : K) (v : V) (c : Cache K V)
      → Holds c
      → (Cache.get dec now k c).1 ≡ some v
      → v ≡ f k
  get-hit now k v c h e = h k v (sym (get-object_of dec now k k c).0 ∙ e)

  put_value :
      (k j : K) (v : V) (o : Option V) (d : Dec (k ≡ j))
      → ite d (some (f k)) o ≡ some v
      → (o ≡ some v → v ≡ f j)
      → v ≡ f j
  put_value k j v o (yes p) q h = cc (p, q)
  put_value k j v o (no p) q h = h q

  put-Holds : (now : ℕ) (k : K) (c : Cache K V) → Holds c → Holds (Cache.put dec now k (f k) c)
  put-Holds now k c h j v e =
      put_value k j v _ (dec k j) (sym (object_of-put dec now k j (f k) c) ∙ e) (h j v)

-- What the rules say of an exporter and of an interface of which nothing is known.
abbrev pub ruled_exporter : Classifiers → ExporterInfo → ExporterClassification
ruled_exporter rules si = run_exporter_rules si no_exporter_classification rules.exporter_rules

abbrev pub ruled_interface : Classifiers → ExporterAndInterfaceInfo → InterfaceClassification
ruled_interface rules key = with_names key.interface (
    run_interface_rules key.exporter key.interface no_interface_classification
      rules.interface_rules)

-- The caches hold what the rules say.
pub record IsCoherent (rules : Classifiers) (caches : Caches) : Type 0 where
  pub exporters : Holds exporter_info_discrete (ruled_exporter rules) caches.exporters
  pub interfaces :
      Holds exporter_and_interface_info_discrete (ruled_interface rules) caches.interfaces

-- The verdict is `o`, and the caches are still coherent.
abbrev pub Gives : Classifiers → Option (Bool × FlowMessage) → Option Verdict → Type 0
Gives rules o none = o ≡ none
Gives rules o (some (verdict, bf, caches)) = (o ≡ some (verdict, bf)) × IsCoherent rules caches

with_caches-Gives :
    (rules : Classifiers) (caches : Caches) (o : Option (Bool × FlowMessage))
    → IsCoherent rules caches
    → Gives rules o (with_caches caches o)
with_caches-Gives rules caches none h = refl
with_caches-Gives rules caches (some (verdict, bf)) h = (refl, h)

empty_of : (s : Text) → is_empty s ≡ true → s ≡ []
empty_of [] h = refl
empty_of (x ∷ s) h = ground arith

undefined_of : (b : InterfaceBoundary) → (boundary_number b == 0) ≡ true → b ≡ undefined
undefined_of undefined h = refl
undefined_of external h = ground arith
undefined_of internal h = ground arith

exporter_zero :
    (c : ExporterClassification)
    → is_unclassified_exporter c ≡ true
    → c ≡ no_exporter_classification
unfolding is_unclassified_exporter
exporter_zero c h =
    let e1 = empty_of c.group (ground arith) in
    let e2 = empty_of c.role (ground arith) in
    let e3 = empty_of c.site (ground arith) in
    let e4 = empty_of c.region (ground arith) in
    let e5 = empty_of c.tenant (ground arith) in
    let e6 : c.reject ≡ false = ground arith in cc (e1, e2, e3, e4, e5, e6)

interface_zero :
    (c : InterfaceClassification)
    → is_unclassified_interface c ≡ true
    → c ≡ no_interface_classification
unfolding is_unclassified_interface
interface_zero c h =
    let e1 = empty_of c.connectivity (ground arith) in
    let e2 = empty_of c.provider (ground arith) in
    let e3 = undefined_of c.boundary (ground arith) in
    let e4 : c.reject ≡ false = ground arith in
    let e5 = empty_of c.name (ground arith) in
    let e6 = empty_of c.description (ground arith) in cc (e1, e2, e3, e4, e5, e6)

module _ (ch : ChGo) (rules : Classifiers) where
  -- The classifications without the caches.
  unfoldable pub exporter_verdict :
      ExporterInfo → FlowMessage → ExporterClassification → Option (Bool × FlowMessage)
  exporter_verdict si bf c =
      if not (is_unclassified_exporter c)
      then write_exporter ch bf c
      else if length rules.exporter_rules == 0
      then some (true, bf)
      else write_exporter ch bf (ruled_exporter rules si)

  exporter_lookup :
      (t : ℕ) (si : ExporterInfo) (bf : FlowMessage) (caches : Caches)
      (o : Option ExporterClassification) (c' : ExporterClassification)
      → IsCoherent rules caches
      → c' ≡ ruled_exporter rules si
      → (Cache.get exporter_info_discrete t si caches.exporters).1 ≡ o
      → Gives rules (write_exporter ch bf (ruled_exporter rules si)) (elim o [
        | some cached ↦
            with_caches
              (record caches {
                exporters = (Cache.get exporter_info_discrete t si caches.exporters).0;
              })
              (write_exporter ch bf cached)
        | none ↦
            with_caches
              (record caches {
                exporters =
                    Cache.put exporter_info_discrete t si c'
                      (Cache.get exporter_info_discrete t si caches.exporters).0;
              })
              (write_exporter ch bf c')
      ])
  exporter_lookup t si bf caches none c' h p e = rw p (
      with_caches-Gives rules _ _ (record {
        exporters = put-Holds exporter_info_discrete (ruled_exporter rules) t si _ (
            get-Holds exporter_info_discrete (ruled_exporter rules) t si caches.exporters
              h.exporters);
        interfaces = h.interfaces;
      }))
  exporter_lookup t si bf caches (some cached) c' h p e =
      rw
        (sym (
          get-hit exporter_info_discrete (ruled_exporter rules) t si cached caches.exporters
            h.exporters e))
        (with_caches-Gives rules _ _ (record {
          exporters =
              get-Holds exporter_info_discrete (ruled_exporter rules) t si caches.exporters
                h.exporters;
          interfaces = h.interfaces;
        }))

  -- For caches that hold what the rules say, `classifyExporter` gives the verdict and the flow that the
  -- rules give without a cache, and the caches still hold what the rules say.
  pub classify_exporter-Gives :
      (t : ℕ) (si : ExporterInfo) (bf : FlowMessage) (c : ExporterClassification) (caches : Caches)
      → IsCoherent rules caches
      → Gives rules (exporter_verdict si bf c) (classify_exporter ch rules t si bf c caches)
  unfolding classify_exporter exporter_verdict
  classify_exporter-Gives t si bf c caches h = elim (Bool-cases (is_unclassified_exporter c)) [
    | inr e ↦ rw e (with_caches-Gives rules caches _ h)
    | inl e ↦ rw e (elim (Bool-cases (length rules.exporter_rules == 0)) [
      | inl f ↦ rw f (refl, h)
      | inr f ↦ rw f (
          exporter_lookup t si bf caches _ _ h
            (ap (λ z. run_exporter_rules si z rules.exporter_rules) (exporter_zero c e)) refl)
    ])
  ]

  interface_lookup :
      (t : ℕ) (key : ExporterAndInterfaceInfo) (bf : FlowMessage) (direction_in : Bool)
      (caches : Caches) (o : Option InterfaceClassification) (c' : InterfaceClassification)
      → IsCoherent rules caches
      → c' ≡ ruled_interface rules key
      → (Cache.get exporter_and_interface_info_discrete t key caches.interfaces).1 ≡ o
      → Gives rules (write_interface ch bf (ruled_interface rules key) direction_in) (elim o [
        | some cached ↦
            with_caches
              (record caches {
                interfaces =
                    (Cache.get exporter_and_interface_info_discrete t key caches.interfaces).0;
              })
              (write_interface ch bf cached direction_in)
        | none ↦
            with_caches
              (record caches {
                interfaces =
                    Cache.put exporter_and_interface_info_discrete t key c'
                      (Cache.get exporter_and_interface_info_discrete t key caches.interfaces).0;
              })
              (write_interface ch bf c' direction_in)
      ])
  interface_lookup t key bf direction_in caches none c' h p e = rw p (
      with_caches-Gives rules _ _ (record {
        interfaces =
            put-Holds exporter_and_interface_info_discrete (ruled_interface rules) t key _ (
              get-Holds exporter_and_interface_info_discrete (ruled_interface rules) t key
                caches.interfaces h.interfaces);
        exporters = h.exporters;
      }))
  interface_lookup t key bf direction_in caches (some cached) c' h p e =
      rw
        (sym (
          get-hit exporter_and_interface_info_discrete (ruled_interface rules) t key cached
            caches.interfaces h.interfaces e))
        (with_caches-Gives rules _ _ (record {
          interfaces =
              get-Holds exporter_and_interface_info_discrete (ruled_interface rules) t key
                caches.interfaces h.interfaces;
          exporters = h.exporters;
        }))

  accept_always :
      (caches : Caches) (o : Option (Bool × FlowMessage))
      → IsCoherent rules caches
      → Gives rules (o >>= λ p. some (true, p.1)) (o >>= λ p. some (true, p.1, caches))
  accept_always caches none h = refl
  accept_always caches (some p) h = (refl, h)

  -- The same of an interface, where without rules its name and description are kept.
  unfoldable pub interface_verdict :
      FlowMessage
      → ExporterAndInterfaceInfo
      → InterfaceClassification
      → Bool
      → Option (Bool × FlowMessage)
  interface_verdict bf key c direction_in =
      let named = record c { name = key.interface.name; description = key.interface.description } in
      if not (is_unclassified_interface c)
      then write_interface ch bf named direction_in
      else if length rules.interface_rules == 0
      then write_interface ch bf named direction_in >>= (λ p. some (true, p.1))
      else write_interface ch bf (ruled_interface rules key) direction_in

  -- For caches that hold what the rules say, `classifyInterface` gives the verdict and the flow that
  -- the rules give without a cache, in both directions, and the caches still hold what the rules say.
  pub classify_interface-Gives :
      (t : ℕ) (bf : FlowMessage) (key : ExporterAndInterfaceInfo) (c : InterfaceClassification)
      (direction_in : Bool) (caches : Caches)
      → IsCoherent rules caches
      → Gives rules
          (interface_verdict bf key c direction_in)
          (classify_interface ch rules t bf key.exporter key.interface c direction_in caches)
  unfolding classify_interface interface_verdict
  classify_interface-Gives t bf key c direction_in caches h =
      elim (Bool-cases (is_unclassified_interface c)) [
        | inr e ↦ rw e (with_caches-Gives rules caches _ h)
        | inl e ↦ rw e (elim (Bool-cases (length rules.interface_rules == 0)) [
          | inl f ↦ rw f (accept_always caches _ h)
          | inr f ↦ rw f (
              interface_lookup t key bf direction_in caches _ _ h
                (ap
                  (λ z.
                    with_names key.interface
                      (run_interface_rules key.exporter key.interface z rules.interface_rules))
                  (interface_zero c e))
                refl)
        ])
      ]
