-- ===== src/Intern/Adds.antt =====
-- A value that common/helpers/intern/intern.go adds to a pool.
use akvorado.Prelude.{
  ◌&&◌, ◌||◌, ℕ, refl, ◌<◌, ◌≡◌, ◌==◌, ◌++◌, ◌∙◌, sym, subst, ap, true, false, some, List, [], ◌∷◌,
  get_elem?, if◌then◌else◌, arith, Bool-cases, inl, inr, ==_iff,
}
use akvorado.Intern.{Bool, InternValue, Pool, head_of}
use akvorado.Intern.Chain.{mem, IsChain}
use akvorado.Intern.Pools.{IsOnce, IsPool}
use akvorado.Intern.Slots.{get_elem?-lt, mem-append, append-IsOnce}
use akvorado.Intern.Fresh.{IsFresh}

-- The chains with another index.
abbrev pub chains_with : ℕ → ℕ → (ℕ → List ℕ) → ℕ → List ℕ
chains_with g n chains h = if h == g then chains h ++ n ∷ [] else chains h

pub mem-chains_with :
    (g n i h : ℕ) (chains : ℕ → List ℕ)
    → mem i (chains_with g n chains h) ≡ (mem i (chains h) || ((h == g) && (i == n)))
mem-chains_with g n i h chains = elim (Bool-cases (h == g)) [
  | inl e ↦ rw (e, mem-append i n (chains h)) refl
  | inr e ↦ rw e (ground arith)
]

module _ {T : Type 0} where
  -- Two slots hold the same value, as often.
  abbrev pub Agree : InternValue T → InternValue T → Type 0
  Agree v w = (w.ref_count ≡ v.ref_count) × (w.hash ≡ v.hash) × (w.value ≡ v.value)

  -- The slots of a pool are those of another one, with the slot of an index in their place.
  pub record IsAdded (p p' : Pool T) (n : ℕ) (v : InternValue T) : Type 0 where
    pub here : get_elem? p'.values n ≡ some v
    pub forth :
        (j : ℕ) (w : InternValue T)
        → (j == n) ≡ false
        → get_elem? p.values j ≡ some w
        → (w' : InternValue T) × (get_elem? p'.values j ≡ some w') × Agree w w'
    pub back :
        (j : ℕ) (w' : InternValue T)
        → (j == n) ≡ false
        → get_elem? p'.values j ≡ some w'
        → (w : InternValue T) × (get_elem? p.values j ≡ some w) × Agree w w'

  module _ (hash : T → ℕ) (p : Pool T) (chains : ℕ → List ℕ) (pool : IsPool hash p chains) (n : ℕ)
      (grown : Pool T) (fresh : IsFresh p n grown) where
    -- The index is in no chain.
    pub new-mem : (h : ℕ) → mem n (chains h) ≡ false
    new-mem h = elim (Bool-cases (mem n (chains h))) [
      | inr e ↦ e
      | inl e ↦
          let (v, at, pos, hv, hs) = pool.used h n e in
          absurd (omega (arith, pos, fresh.unused v at))
    ]

    new-IsOnce : (g h : ℕ) → IsOnce (chains_with g n chains h)
    new-IsOnce g h = go (h == g)
      where
        go : (b : Bool) → IsOnce (if b then chains h ++ n ∷ [] else chains h)
        go true = append-IsOnce n (chains h) (pool.once h) (new-mem h)
        go false = pool.once h

    module _ (p' : Pool T) (v : InternValue T) (added : IsAdded p p' n v) (pos : 0 < v.ref_count)
        (cached : v.hash ≡ hash v.value)
        (left : p'.available_indexes ≡ grown.available_indexes) where
      at_new : (i : ℕ) → (i == n) ≡ true → get_elem? p'.values i ≡ some v
      at_new i e = subst (λ j. get_elem? p'.values j ≡ some v) (sym ((==_iff i n).0 e)) added.here

      new_only :
          (h i : ℕ)
          → (i == n) ≡ true
          → mem i (chains_with (hash v.value) n chains h) ≡ true
          → h ≡ hash v.value
      new_only h i e m =
          let none_old : mem i (chains h) ≡ false =
            subst (λ j. mem j (chains h) ≡ false) (sym ((==_iff i n).0 e)) (new-mem h) in
          (==_iff h (hash v.value)).0
            (ground (arith, none_old, sym (mem-chains_with (hash v.value) n i h chains) ∙ m))

      added_used :
          (h i : ℕ)
          → mem i (chains_with (hash v.value) n chains h) ≡ true
          → (w : InternValue T) × (get_elem? p'.values i ≡ some w)
            × 0 < w.ref_count
            × (hash w.value ≡ h)
            × (w.hash ≡ h)
      added_used h i m = elim (Bool-cases (i == n)) [
        | inl e ↦
            let q : h ≡ hash v.value = new_only h i e m in
            (v, at_new i e, pos, sym q, cached ∙ sym q)
        | inr e ↦
            let (w, at, c, hv, hs) =
              pool.used h i
                (ground (arith, e, sym (mem-chains_with (hash v.value) n i h chains) ∙ m)) in
            let (w', at', (ec, eh, ev)) = added.forth i w e at in
            (w', at', subst (λ c. 0 < c) (sym ec) c, ap hash ev ∙ hv, eh ∙ hs)
      ]

      added_chained :
          (i : ℕ) (w : InternValue T)
          → get_elem? p'.values i ≡ some w
          → 0 < w.ref_count
          → mem i (chains_with (hash v.value) n chains (hash w.value)) ≡ true
      added_chained i w at c = elim (Bool-cases (i == n)) [
        | inl e ↦
            let q : w ≡ v = cc (at_new i e, at) in
            mem-chains_with (hash v.value) n i (hash w.value) chains
            ∙ ground (arith, e, ap hash (ap (λ u. u.value) q))
        | inr e ↦
            let (u, at', (ec, eh, ev)) = added.back i w e at in
            let m : mem i (chains (hash w.value)) ≡ true =
              subst (λ y. mem i (chains (hash y)) ≡ true) (sym ev)
                (pool.chained i u at' (subst (λ c. 0 < c) ec c)) in
            mem-chains_with (hash v.value) n i (hash w.value) chains ∙ rw m refl
      ]

      -- A pool with another value is well formed, if its chains are those with another index.
      pub added-IsPool :
          ((h : ℕ) → IsChain p'.values (head_of p' h) (chains_with (hash v.value) n chains h))
          → IsPool hash p' (chains_with (hash v.value) n chains)
      added-IsPool c = record {
        chain = c;
        once = new-IsOnce (hash v.value);
        used = added_used;
        chained = added_chained;
        free = λ i m.
            let (m', ne) = fresh.left i (subst (λ l. mem i l ≡ true) left m) in
            let (q, w, at, z) = pool.free i m' in
            let (w', at', (ec, eh, ev)) = added.forth i w ne at in (q, w', at', ec ∙ z);
        free_once = subst IsOnce (sym left) fresh.left_once;
        reserved = omega (arith, get_elem?-lt p'.values n v added.here);
      }
