-- ===== src/Intern/Chain.antt =====
-- The chains of values with the same hash, in common/helpers/intern/intern.go.
use akvorado.Prelude.{
  subst, ◌∙◌, sym, ap, ==_iff, inr, inl, Bool-cases, ◌||◌, ℕ, zero, suc, ◌≤◌, ◌<◌, ◌≡◌, refl, Bool,
  true, false, none, some, List, [], ◌∷◌, length, get_elem?, ◌==◌, if◌then◌else◌, arith,
}
use akvorado.Intern.{InternValue, walk}

-- The index is in the list.
abbrev pub mem : ℕ → List ℕ → Bool
mem i [] = false
mem i (j ∷ js) = (i == j) || mem i js

module _ {T : Type 0} where
  -- The list of the indexes of a chain that begins at an index and ends at 0.
  abbrev pub IsChain : List (InternValue T) → ℕ → List ℕ → Type 0
  IsChain values i [] = i ≡ 0
  IsChain values i (j ∷ js) =
      (i ≡ j)
      × (1 ≤ j)
      × (v : InternValue T) × (get_elem? values j ≡ some v)
      × IsChain values v.next js

  module _ (hash : T → ℕ) (equal : T → T → Bool) where
    -- The value at an index is the one that is looked for.
    abbrev pub is_at : List (InternValue T) → T → ℕ → Bool
    is_at values x i = elim (get_elem? values i) [ none ↦ false | some v ↦ equal v.value x ]

    -- The walk over a chain, as a search in the list of its indexes.
    unfoldable pub search_chain : List (InternValue T) → T → ℕ → List ℕ → Bool × ℕ
    search_chain values x prev [] = (false, prev)
    search_chain values x prev (j ∷ js) =
        let rest = search_chain values x j js in if is_at values x j then (true, j) else rest

    -- Fuel above the length of the chain is enough for the walk.
    pub walk_lem :
        (fuel : ℕ) (values : List (InternValue T)) (x : T) (prev i : ℕ) (js : List ℕ)
        → IsChain values i js
        → length js < fuel
        → walk hash equal fuel values x prev i ≡ some (search_chain values x prev js)
    unfolding walk search_chain
    walk_lem zero values x prev i js c h = elim h [ ]
    walk_lem (suc fuel) values x prev i [] c h =
        let e : (i == 0) ≡ true = ground (arith, c) in rw e refl
    walk_lem (suc fuel) values x prev i (j ∷ js) (p, pos, v, at, c) h =
        let e : (i == 0) ≡ false = ground (arith, p) in
        rw (e, p, at, walk_lem fuel values x j v.next js c (omega arith)) (ground arith)

    module _ (values : List (InternValue T)) (x : T) where
      pub is_at_read :
          (k : ℕ) (v : InternValue T)
          → get_elem? values k ≡ some v
          → is_at values x k ≡ equal v.value x
      is_at_read k v e = rw (e, is_at) refl

      pub search_chain_here :
          (prev j : ℕ) (js : List ℕ)
          → is_at values x j ≡ true
          → search_chain values x prev (j ∷ js) ≡ (true, j)
      unfolding search_chain
      search_chain_here prev j js e = rw e refl

      pub search_chain_next :
          (prev j : ℕ) (js : List ℕ)
          → is_at values x j ≡ false
          → search_chain values x prev (j ∷ js) ≡ search_chain values x j js
      unfolding search_chain
      search_chain_next prev j js e = rw e refl

      pub search_chain_found :
          (prev : ℕ) (js : List ℕ) (k : ℕ)
          → search_chain values x prev js ≡ (true, k)
          → (mem k js ≡ true) × (is_at values x k ≡ true)
      unfolding search_chain
      search_chain_found prev [] k h = absurd (cc (ap (λ r. r.0) h))
      search_chain_found prev (j ∷ js) k h = elim (Bool-cases (is_at values x j)) [
        | inl e ↦
            let q : j ≡ k = ap (λ r. r.1) (sym (search_chain_here prev j js e) ∙ h) in
            (ground (arith, q), subst (λ i. is_at values x i ≡ true) q e)
        | inr e ↦
            let (m, a) = search_chain_found j js k (sym (search_chain_next prev j js e) ∙ h) in
            (ground (arith, m), a)
      ]

      pub search_chain_none :
          (prev last : ℕ) (js : List ℕ) (k : ℕ)
          → search_chain values x prev js ≡ (false, last)
          → mem k js ≡ true
          → is_at values x k ≡ false
      unfolding search_chain
      search_chain_none prev last [] k h m = cc
      search_chain_none prev last (j ∷ js) k h m = elim (Bool-cases (is_at values x j)) [
        | inl e ↦
            let q : true ≡ false = ap (λ r. r.0) (sym (search_chain_here prev j js e) ∙ h) in
            absurd (cc q)
        | inr e ↦ elim (Bool-cases (k == j)) [
          | inl f ↦ subst (λ i. is_at values x i ≡ false) (sym ((==_iff k j).0 f)) e
          | inr f ↦
              search_chain_none j last js k (sym (search_chain_next prev j js e) ∙ h)
                (ground (arith, f, m))
        ]
      ]
