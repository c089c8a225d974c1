-- ===== src/Intern/Unlinked.antt =====
-- The two ways in which `Take` of common/helpers/intern/intern.go unlinks a value.
use native.Mathlib.Decide.{ℕ_discrete}
use akvorado.Prelude.{
  Option, none, ℕ, refl, ◌<◌, ◌≡◌, ◌==◌, ◌∙◌, sym, subst, ap, Bool, true, false, some, List, [],
  ◌∷◌, get_elem?, set, if◌then◌else◌, arith, Bool-cases, inl, inr, ==_iff,
}
use akvorado.GoMap
use akvorado.GoMap.{GoMap}
use akvorado.Intern.{InternValue, Pool, head_of}
use akvorado.Intern.Chain.{mem, IsChain}
use akvorado.Intern.Pools.{IsOnce, IsPool}
use akvorado.Intern.Slots.{get_elem?-lt, get_elem?-set, KeepsLinks-IsChain, ne_of}
use akvorado.Intern.Drops.{drop, drop_head, drop_missing}
use akvorado.Intern.Removed.{IsRemoved}

module _ {T : Type 0} (hash : T → ℕ) (p : Pool T) (chains : ℕ → List ℕ)
    (pool : IsPool hash p chains) (k : ℕ) (v : InternValue T) (at : get_elem? p.values k ≡ some v)
    (pos : 0 < v.ref_count) where
  abbrev pub unused : InternValue T
  unused = record v { ref_count = 0 }

  abbrev pub cleared : Pool T
  cleared = record p { values = set p.values k unused; available_indexes = k ∷ p.available_indexes }

  pub in_chain : mem k (chains (hash v.value)) ≡ true
  in_chain = pool.chained k v at pos

  pub cached_hash : v.hash ≡ hash v.value
  cached_hash =
      let (w, a, c, hv, hs) = pool.used (hash v.value) k in_chain in
      let same : w ≡ v = cc (a, at) in subst (λ u. u.hash ≡ hash v.value) same hs

  -- An index is in one chain only.
  pub only_chain : (h : ℕ) → (h == v.hash) ≡ false → mem k (chains h) ≡ false
  only_chain h e = elim (Bool-cases (mem k (chains h))) [
    | inr m ↦ m
    | inl m ↦
        let (w, a, c, hv, hs) = pool.used h k m in
        let same : w ≡ v = cc (a, at) in absurd (ne_of h v.hash e (sym hs ∙ ap (λ u. u.hash) same))
  ]

  pub cleared_read :
      (j : ℕ) → get_elem? cleared.values j ≡ (if j == k then some unused else get_elem? p.values j)
  cleared_read j = get_elem?-set p.values k j unused (get_elem?-lt p.values k v at)

  pub cleared_at : get_elem? cleared.values k ≡ some unused
  cleared_at = cleared_read k ∙ ground arith

  cleared_links :
      (j : ℕ) (w : InternValue T)
      → get_elem? p.values j ≡ some w
      → (w' : InternValue T) × (get_elem? cleared.values j ≡ some w') × (w'.next ≡ w.next)
  cleared_links j w a = elim (Bool-cases (j == k)) [
    | inr e ↦ (w, cleared_read j ∙ rw e a, refl)
    | inl e ↦
        let same : v ≡ w = cc (at, a, (==_iff j k).0 e) in
        (unused, cleared_read j ∙ rw e refl, ap (λ u. u.next) same)
  ]

  -- The chains before the index is unlinked.
  pub cleared-IsChain : (h : ℕ) → IsChain cleared.values (head_of p h) (chains h)
  cleared-IsChain h =
      KeepsLinks-IsChain p.values cleared.values (head_of p h) (chains h)
        (λ j w m a. cleared_links j w a) (pool.chain h)

  -- The index is the first of its chain.
  abbrev pub beheaded : Pool T
  beheaded = record cleared {
    value_indexes =
        if v.next == 0
        then GoMap.delete ℕ_discrete v.hash p.value_indexes
        else GoMap.put ℕ_discrete v.hash v.next p.value_indexes;
  }

  pub beheaded-IsRemoved : IsRemoved p beheaded k
  beheaded-IsRemoved = record {
    unused = (unused, cleared_at, refl);
    forth = λ j w e a. (w, cleared_read j ∙ rw e a, (refl, refl, refl));
    back = λ j w e a. (w, sym (cleared_read j ∙ rw e refl) ∙ a, (refl, refl, refl));
  }

  beheaded_head : (h : ℕ) → head_of beheaded h ≡ (if h == v.hash then v.next else head_of p h)
  unfolding head_of
  beheaded_head h = elim (Bool-cases (v.next == 0)) [
    | inl e ↦ rw e (
        ap (λ (o : Option ℕ). elim o [ none ↦ 0 | some index ↦ index ])
          (GoMap.get-delete ℕ_discrete v.hash h p.value_indexes)
        ∙ ground (arith, e))
    | inr e ↦ rw e (
        ap (λ (o : Option ℕ). elim o [ none ↦ 0 | some index ↦ index ])
          (GoMap.get-put ℕ_discrete v.hash h v.next p.value_indexes)
        ∙ ground (arith, e))
  ]

  tail_of :
      (i : ℕ) (js : List ℕ)
      → IsChain cleared.values i js
      → IsOnce js
      → mem k js ≡ true
      → i ≡ k
      → IsChain cleared.values v.next (drop k js)
  tail_of i [] c o m q = cc
  tail_of i (j ∷ js) (e, posj, w, a, c) o m q =
      let jk : j ≡ k = sym e ∙ q in
      let same : w ≡ unused = cc (a, cleared_at, jk) in
      subst (λ n. IsChain cleared.values n (drop k (j ∷ js))) (ap (λ u. u.next) same)
        (subst (IsChain cleared.values w.next)
          (sym
            (ap (λ r. drop k (r ∷ js)) jk ∙ drop_head k js (subst (λ r. mem r js ≡ false) jk o.0)))
          c)

  pub beheaded-IsChain :
      head_of p v.hash ≡ k
      → (h : ℕ) → IsChain beheaded.values (head_of beheaded h) (drop k (chains h))
  beheaded-IsChain q h =
      subst (λ i. IsChain cleared.values i (drop k (chains h))) (sym (beheaded_head h))
        (go (h == v.hash) refl)
    where
      go :
          (b : Bool)
          → (h == v.hash) ≡ b
          → IsChain cleared.values (if b then v.next else head_of p h) (drop k (chains h))
      go true e =
          let f : h ≡ v.hash = (==_iff h v.hash).0 e in
          tail_of (head_of p h) (chains h) (cleared-IsChain h) (pool.once h)
            (subst (λ g. mem k (chains g) ≡ true) (sym (f ∙ cached_hash)) in_chain)
            (ap (head_of p) f ∙ q)
      go false e =
          subst (IsChain cleared.values (head_of p h))
            (sym (drop_missing k (chains h) (only_chain h e))) (cleared-IsChain h)
