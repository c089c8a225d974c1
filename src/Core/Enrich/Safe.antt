-- ===== src/Core/Enrich/Safe.antt =====
-- `enrichFlow` of outlet/core/enricher.go and the batch of its flow.
use akvorado.Prelude.{
  ℕ, refl, Bool, true, false, not, Option, none, some, List, [], ◌∷◌, length, ltb, ◌==◌,
  if◌then◌else◌, ◌>>=◌, Bool-cases, Option-cases, inl, inr, Returns, Returns-bind,
}
use akvorado.Net.{Addr, invalid}
use akvorado.Schema.Keys
use akvorado.Schema.Keys.{array_uint128}
use akvorado.Schema.Columns.{ChGo, accepts_array}
use akvorado.Schema.Message.{Batch, FlowMessage}
use akvorado.Schema.Message.Pending.{IsBuilding}
use akvorado.Schema.Message.Append.{HasType}
use akvorado.Schema.Message.Safe.{
  IsSafe, IsSafe-some, IsSafe-bind, IsSafe-if, append_string-IsSafe, append_uint-IsSafe,
  append_array_uint32-IsSafe, append_array_uint128-IsSafe,
}
use akvorado.Core.Info.{Text}
use akvorado.Core.Sources.{LargeCommunity}
use akvorado.Core.Classify.{Caches, Verdict}
use akvorado.Core.Classify.Safe.{
  IsVerdict, append_strings-IsSafe, classify_exporter-IsVerdict, classify_interface-IsVerdict,
}
use akvorado.Core.Services.{RoutingAnswer, NetworkAttributes, Services, Configuration}
use akvorado.Core.Learn.{
  Known, FlowError, learn, check_flow, positive_rate, override_rate, default_rate,
}
use akvorado.Core.Fill.{
  networks_of, route, append_large_communities, append_routing, append_networks, fill,
}
use akvorado.Core.Enrich.{classify, after_verdict, enrich_flow}

module _ {base : Batch} where
  rate-IsBuilding :
      (r : ℕ) (bf : FlowMessage)
      → IsBuilding base bf
      → IsBuilding base (record bf { sampling_rate = r })
  rate-IsBuilding r bf b = record {
    pending = record { count = b.pending.count; slots = b.pending.slots };
    typed = record {
      width = b.typed.width;
      types = b.typed.types;
      reverse_width = b.typed.reverse_width;
      reverse_types = b.typed.reverse_types;
    };
  }

  override_rate-IsBuilding :
      (rate : Option ℕ) (bf : FlowMessage)
      → IsBuilding base bf
      → IsBuilding base (override_rate rate bf)
  unfolding override_rate
  override_rate-IsBuilding rate bf b = elim (Option-cases (positive_rate rate)) [
    | inl e ↦ rw (e, override_rate) b
    | inr (r, e) ↦ rw (e, override_rate) (rate-IsBuilding r bf b)
  ]

  default_rate-IsBuilding :
      (rate : Option ℕ) (bf : FlowMessage)
      → IsBuilding base bf
      → IsBuilding base (default_rate rate bf).0
  unfolding default_rate
  default_rate-IsBuilding rate bf b = elim (Bool-cases (bf.sampling_rate == 0)) [
    | inr e ↦ rw e b
    | inl e ↦ rw e (elim (Option-cases (positive_rate rate)) [
      | inl f ↦ rw f b
      | inr (r, f) ↦ rw f (rate-IsBuilding r bf b)
    ])
  ]

module _ (ch : ChGo) (services : Services) (config : Configuration) {base : Batch} where
  route-IsBuilding :
      (source dest : RoutingAnswer) (src dst : NetworkAttributes) (bf : FlowMessage)
      → IsBuilding base bf
      → IsBuilding base (route ch services config source dest src dst bf)
  unfolding route
  route-IsBuilding source dest src dst bf b = record {
    pending = record { count = b.pending.count; slots = b.pending.slots };
    typed = record {
      width = b.typed.width;
      types = b.typed.types;
      reverse_width = b.typed.reverse_width;
      reverse_types = b.typed.reverse_types;
    };
  }

  large-IsSafe :
      (key : ℕ) (cs : List LargeCommunity) (bf : FlowMessage)
      → HasType (accepts_array array_uint128) key
      → IsBuilding base bf
      → IsSafe base (append_large_communities ch services config key cs bf)
  unfolding append_large_communities
  large-IsSafe key cs bf h b =
      IsSafe-if (ltb 0 (length cs)) _ _ (append_array_uint128-IsSafe ch key bf b _ h)
        (IsSafe-some bf b)

  append_routing-IsSafe :
      (source dest : RoutingAnswer) (bf : FlowMessage)
      → IsBuilding base bf
      → IsSafe base (append_routing ch services config source dest bf)
  unfolding append_routing
  append_routing-IsSafe source dest bf b =
      IsSafe-bind _ _ (append_array_uint32-IsSafe ch Keys.src_communities bf b _ refl) (λ m1 b1.
        IsSafe-bind _ _ (append_array_uint32-IsSafe ch Keys.dst_communities m1 b1 _ refl) (λ m2 b2.
          IsSafe-bind _ _ (append_array_uint32-IsSafe ch Keys.dst_as_path m2 b2 _ refl) (λ m3 b3.
            IsSafe-bind _ _
              (large-IsSafe Keys.src_large_communities source.large_communities m3 refl b3)
              (λ m4 b4.
                large-IsSafe Keys.dst_large_communities dest.large_communities m4 refl b4))))

  append_networks-IsSafe :
      (src dst : NetworkAttributes) (bf : FlowMessage)
      → IsBuilding base bf
      → IsSafe base (append_networks ch services config src dst bf)
  unfolding append_networks
  append_networks-IsSafe src dst bf b = elim (Option-cases services.networks) [
    | inl e ↦ rw e (IsSafe-some bf b)
    | inr (lookup, e) ↦ rw e (append_strings-IsSafe ch _ bf refl b)
  ]

  fill-IsSafe :
      (k : Known) (bf : FlowMessage)
      → IsBuilding base bf
      → IsSafe base (fill ch services config k bf)
  unfolding fill
  fill-IsSafe k bf b =
      let source = services.routing bf.src_addr invalid bf.exporter_address in
      let dest = services.routing bf.dst_addr bf.next_hop bf.exporter_address in
      let src = networks_of ch services config bf.src_addr in
      let dst = networks_of ch services config bf.dst_addr in
      IsSafe-bind _ _
        (append_routing-IsSafe source dest _ (route-IsBuilding source dest src dst bf b))
        (λ m1 b1. IsSafe-bind _ _ (append_networks-IsSafe src dst m1 b1) (λ m2 b2.
          IsSafe-bind _ _ (append_string-IsSafe ch Keys.exporter_name m2 b2 _ refl) (λ m3 b3.
            IsSafe-bind _ _ (append_uint-IsSafe ch Keys.in_if_speed m3 b3 _ refl)
              (λ m4 b4. append_uint-IsSafe ch Keys.out_if_speed m4 b4 _ refl))))

  IsVerdict-bind :
      (o : Option Verdict) (f : Verdict → Option Verdict)
      → IsVerdict base o
      → ((v : Verdict) → IsBuilding base v.1 → IsVerdict base (f v))
      → IsVerdict base (o >>= f)
  IsVerdict-bind none f h k = record { returns = h.returns }
  IsVerdict-bind (some v) f h k = k v h.returns

  IsVerdict-if :
      (t : Bool) (o p : Option Verdict)
      → IsVerdict base o
      → IsVerdict base p
      → IsVerdict base (if t then o else p)
  IsVerdict-if true o p h k = h
  IsVerdict-if false o p h k = k

  classify-IsVerdict :
      (t : ℕ) (exporter : Text) (bf : FlowMessage) (k : Known) (caches : Caches)
      → IsBuilding base bf
      → IsVerdict base (classify ch services config t exporter bf k caches)
  unfolding classify
  classify-IsVerdict t exporter bf k caches b =
      IsVerdict-bind _ _ (classify_exporter-IsVerdict ch bf b config.classifiers t caches _ _)
        (λ first b1.
          IsVerdict-if (not first.0) _ _ (record { returns = b1 })
            (IsVerdict-bind _ _
              (classify_interface-IsVerdict ch first.1 b1 config.classifiers t first.2 _ _ _ false)
              (λ second b2.
                IsVerdict-if (not second.0) _ _ (record { returns = b2 })
                  (classify_interface-IsVerdict ch second.1 b2 config.classifiers t second.2 _ _ _
                    true))))

  after_verdict-Returns :
      (k : Known) (v : Verdict)
      → IsBuilding base v.1
      → Returns (λ r. IsBuilding base r.flow) (after_verdict ch services config k v)
  unfolding after_verdict
  after_verdict-Returns k (false, bf, caches) b = b
  after_verdict-Returns k (true, bf, caches) b =
      Returns-bind (IsBuilding base) (λ r. IsBuilding base r.flow) _ _ (fill-IsSafe k bf b).returns
        (λ m c. c)

  -- Whatever the metadata, the routing, the networks and the rules of the classifiers answer,
  -- `enrichFlow` of a flow that is being built does not panic: it returns, and whether it skips the
  -- flow or not, the flow is still one that is being built on the same batch.
  pub enrich_flow-Returns :
      (t : ℕ) (exporter_ip : Addr) (exporter : Text) (bf : FlowMessage) (caches : Caches)
      → IsBuilding base bf
      → Returns
          (λ r. IsBuilding base r.flow)
          (enrich_flow ch services config t exporter_ip exporter bf caches)
  unfolding enrich_flow check_flow
  enrich_flow-Returns t exporter_ip exporter bf caches b =
      go (check_flow services exporter_ip bf k) (
        default_rate-IsBuilding (services.default_sampling_rate exporter_ip) _
          (override_rate-IsBuilding (services.override_sampling_rate exporter_ip) bf b))
    where
      k : Known
      k = learn services t exporter_ip bf

      go :
          (checked : FlowMessage × List FlowError)
          → IsBuilding base checked.0
          → Returns
              (λ r. IsBuilding base r.flow)
              (elim checked.1 [
                | [] ↦
                    classify ch services config t exporter checked.0 k caches
                    >>= after_verdict ch services config k
                | e ∷ rest ↦
                    some
                      (record { skip = true; flow = checked.0; caches = caches; errors = e ∷ rest })
              ])
      go (m, e ∷ rest) c = c
      go (m, []) c =
          Returns-bind (λ v. IsBuilding base v.1) (λ r. IsBuilding base r.flow) _ _
            (classify-IsVerdict t exporter m k caches c).returns
            (λ v d. after_verdict-Returns k v d)
