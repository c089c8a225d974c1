-- ===== src/Intern/Links.antt =====
-- The two ways in which `Put` of common/helpers/intern/intern.go links a new value.
use native.Mathlib.Decide.{ℕ_discrete}
use akvorado.Prelude.{
  length-set, Option, none, ℕ, refl, ◌<◌, ◌≡◌, ◌==◌, ◌++◌, ◌∙◌, sym, subst, ap, Bool, true, false,
  some, List, [], ◌∷◌, get_elem?, set, length, if◌then◌else◌, arith, Bool-cases, inl, inr, ==_iff,
}
use mathlib.Core.Logic.{ite}
use akvorado.GoMap
use akvorado.GoMap.{GoMap}
use akvorado.Intern.{InternValue, Pool, head_of}
use akvorado.Intern.Chain.{mem, IsChain}
use akvorado.Intern.Pools.{IsPool}
use akvorado.Intern.Slots.{
  mem_ne, ne_of, get_elem?-set, get_elem?-lt, KeepsLinks-IsChain, IsChain-extend, LastIs,
}
use akvorado.Intern.Fresh.{IsFresh}
use akvorado.Intern.Adds.{Agree, IsAdded, chains_with, new-mem}

module _ {T : Type 0} (hash : T → ℕ) (p : Pool T) (chains : ℕ → List ℕ)
    (pool : IsPool hash p chains) (n : ℕ) (grown : Pool T) (fresh : IsFresh p n grown)
    (v : InternValue T) (last : v.next ≡ 0) where
  -- The first value of its hash.
  abbrev pub headed : Pool T
  headed = record grown {
    values = set grown.values n v;
    value_indexes = GoMap.put ℕ_discrete (hash v.value) n grown.value_indexes;
  }

  headed_read :
      (j : ℕ) → get_elem? headed.values j ≡ (if j == n then some v else get_elem? p.values j)
  headed_read j = elim (Bool-cases (j == n)) [
    | inl e ↦ get_elem?-set grown.values n j v fresh.slot ∙ rw e refl
    | inr e ↦ get_elem?-set grown.values n j v fresh.slot ∙ rw e (fresh.rest j e)
  ]

  pub headed-IsAdded : IsAdded p headed n v
  headed-IsAdded = record {
    here = headed_read n ∙ ground arith;
    forth = λ j w e at. (w, headed_read j ∙ rw e at, (refl, refl, refl));
    back = λ j w e at. (w, sym (headed_read j ∙ rw e refl) ∙ at, (refl, refl, refl));
  }

  headed_head : (h : ℕ) → head_of headed h ≡ (if h == hash v.value then n else head_of p h)
  unfolding head_of
  headed_head h =
      ap (λ (o : Option ℕ). elim o [ none ↦ 0 | some index ↦ index ])
        (GoMap.get-put ℕ_discrete (hash v.value) h n grown.value_indexes
          ∙ ap
              (λ (m : GoMap ℕ ℕ).
                ite (ℕ_discrete (hash v.value) h) (some n) (GoMap.get ℕ_discrete h m))
              fresh.indexes)
      ∙ ground arith

  chained_ne : (h j : ℕ) → mem j (chains h) ≡ true → (j == n) ≡ false
  chained_ne h j = mem_ne j n (chains h) (new-mem hash p chains pool n grown fresh h)

  pub headed-IsChain :
      chains (hash v.value) ≡ []
      → (h : ℕ) → IsChain headed.values (head_of headed h) (chains_with (hash v.value) n chains h)
  headed-IsChain empty h =
      subst (λ i. IsChain headed.values i (chains_with (hash v.value) n chains h))
        (sym (headed_head h)) (go (h == hash v.value) refl)
    where
      go :
          (b : Bool)
          → (h == hash v.value) ≡ b
          → IsChain headed.values
              (if b then n else head_of p h)
              (if b then chains h ++ n ∷ [] else chains h)
      go true e =
          subst (λ js. IsChain headed.values n (js ++ n ∷ []))
            (sym (ap chains ((==_iff h (hash v.value)).0 e) ∙ empty))
            (refl, fresh.pos, v, headed-IsAdded.here, last)
      go false e =
          KeepsLinks-IsChain p.values headed.values (head_of p h) (chains h)
            (λ j w m a. (w, headed_read j ∙ rw (chained_ne h j m) a, refl)) (pool.chain h)

  module _ (k : ℕ) (vk : InternValue T) (at : get_elem? p.values k ≡ some vk)
      (there : mem k (chains (hash v.value)) ≡ true) where
    abbrev pub linked : List (InternValue T)
    linked = set grown.values k (record vk { next = n })

    -- The last value of a chain is linked to the new one.
    abbrev pub extended : Pool T
    extended = record grown { values = set linked n v }

    pub k_ne : (k == n) ≡ false
    k_ne = chained_ne (hash v.value) k there

    k_lt : k < length grown.values
    k_lt = get_elem?-lt grown.values k vk (fresh.rest k k_ne ∙ at)

    n_lt : n < length linked
    n_lt = rw (length-set grown.values k (record vk { next = n })) fresh.slot

    extended_read :
        (j : ℕ)
        → get_elem? extended.values j ≡ (
            if j == n
            then some v
            else if j == k
            then some (record vk { next = n })
            else get_elem? p.values j)
    extended_read j = elim (Bool-cases (j == n)) [
      | inl e ↦ get_elem?-set linked n j v n_lt ∙ rw e refl
      | inr e ↦
          get_elem?-set linked n j v n_lt
          ∙ rw e (
              get_elem?-set grown.values k j (record vk { next = n }) k_lt
              ∙ ap (λ o. if j == k then some (record vk { next = n }) else o) (fresh.rest j e))
    ]

    pub extended-IsAdded : IsAdded p extended n v
    extended-IsAdded = record {
      here = extended_read n ∙ ground arith;
      forth = λ j w e a. elim (Bool-cases (j == k)) [
        | inl f ↦
            let q : vk ≡ w = cc (at, a, (==_iff j k).0 f) in
            (
              record vk { next = n },
              extended_read j ∙ rw (e, f) refl,
              subst (λ u. Agree u (record vk { next = n })) q (refl, refl, refl),
            )
        | inr f ↦ (w, extended_read j ∙ rw (e, f) a, (refl, refl, refl))
      ];
      back = λ j w e a. elim (Bool-cases (j == k)) [
        | inl f ↦
            let q : some (record vk { next = n }) ≡ some w =
              sym (extended_read j ∙ rw (e, f) refl) ∙ a in
            let r : record vk { next = n } ≡ w = cc q in
            (
              vk,
              subst (λ i. get_elem? p.values i ≡ some vk) (sym ((==_iff j k).0 f)) at,
              subst (Agree vk) r (refl, refl, refl),
            )
        | inr f ↦ (w, sym (extended_read j ∙ rw (e, f) refl) ∙ a, (refl, refl, refl))
      ];
    }

    extended_head : (h : ℕ) → head_of p h ≡ head_of extended h
    unfolding head_of
    extended_head h =
        ap (λ (m : GoMap ℕ ℕ). elim (GoMap.get ℕ_discrete h m) [ none ↦ 0 | some index ↦ index ])
          (sym fresh.indexes)

    -- An index is in one chain only.
    other_chain :
        (h j : ℕ) → (h == hash v.value) ≡ false → mem j (chains h) ≡ true → (j == k) ≡ false
    other_chain h j e m = elim (Bool-cases (j == k)) [
      | inr f ↦ f
      | inl f ↦
          let (w, a, c, hw, hs) = pool.used h j m in
          let (u, b, d, hu, ht) = pool.used (hash v.value) k there in
          let q : w ≡ u = cc (a, b, (==_iff j k).0 f) in
          absurd (ne_of h (hash v.value) e (sym hw ∙ ap (λ r. hash r.value) q ∙ hu))
    ]

    pub extended-IsChain :
        LastIs k (chains (hash v.value))
        → (h : ℕ)
        → IsChain extended.values (head_of extended h) (chains_with (hash v.value) n chains h)
    extended-IsChain l h =
        subst (λ i. IsChain extended.values i (chains_with (hash v.value) n chains h))
          (extended_head h) (go (h == hash v.value) refl)
      where
        go :
            (b : Bool)
            → (h == hash v.value) ≡ b
            → IsChain extended.values (head_of p h) (if b then chains h ++ n ∷ [] else chains h)
        go true e =
            IsChain-extend p.values extended.values (head_of p h) k n (chains h) fresh.pos
              (pool.chain h) (pool.once h)
              (λ j w m a. elim (Bool-cases (j == k)) [
                | inl f ↦ (
                  record vk { next = n },
                  extended_read j ∙ rw (chained_ne h j m, f) refl,
                  rw f refl,
                )
                | inr f ↦ (w, extended_read j ∙ rw (chained_ne h j m, f) a, rw f refl)
              ])
              v extended-IsAdded.here last
              (subst (λ g. LastIs k (chains g)) (sym ((==_iff h (hash v.value)).0 e)) l)
        go false e =
            KeepsLinks-IsChain p.values extended.values (head_of p h) (chains h)
              (λ j w m a. (w, extended_read j ∙ rw (chained_ne h j m, other_chain h j e m) a, refl))
              (pool.chain h)
