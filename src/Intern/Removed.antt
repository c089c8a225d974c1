-- ===== src/Intern/Removed.antt =====
-- A value that common/helpers/intern/intern.go removes from a pool.
use akvorado.Prelude.{
  ℕ, ◌≤◌, ◌<◌, ◌≡◌, ◌==◌, ◌∙◌, sym, subst, ap, true, false, some, List, ◌∷◌, get_elem?, arith,
  Bool-cases, inl, inr, ==_iff,
}
use akvorado.Intern.{InternValue, Pool, head_of}
use akvorado.Intern.Chain.{mem, IsChain}
use akvorado.Intern.Pools.{IsOnce, IsPool}
use akvorado.Intern.Slots.{get_elem?-lt}
use akvorado.Intern.Adds.{Agree}
use akvorado.Intern.Drops.{drop, mem-drop, drop-IsOnce, IsChain-mem_pos}

module _ {T : Type 0} where
  -- The slots of a pool are those of another one, but for an index that is not used any more.
  pub record IsRemoved (p p' : Pool T) (k : ℕ) : Type 0 where
    pub unused : (w : InternValue T) × (get_elem? p'.values k ≡ some w) × (w.ref_count ≡ 0)
    pub forth :
        (j : ℕ) (w : InternValue T)
        → (j == k) ≡ false
        → get_elem? p.values j ≡ some w
        → (w' : InternValue T) × (get_elem? p'.values j ≡ some w') × Agree w w'
    pub back :
        (j : ℕ) (w' : InternValue T)
        → (j == k) ≡ false
        → get_elem? p'.values j ≡ some w'
        → (w : InternValue T) × (get_elem? p.values j ≡ some w) × Agree w w'

  module _ (hash : T → ℕ) (p p' : Pool T) (chains : ℕ → List ℕ) (pool : IsPool hash p chains)
      (k : ℕ) (v : InternValue T) (at : get_elem? p.values k ≡ some v) (pos : 0 < v.ref_count)
      (removed : IsRemoved p p' k) (left : p'.available_indexes ≡ k ∷ p.available_indexes) where
    abbrev dropped : ℕ → List ℕ
    dropped h = drop k (chains h)

    dropped_used :
        (h i : ℕ)
        → mem i (dropped h) ≡ true
        → (w : InternValue T) × (get_elem? p'.values i ≡ some w)
          × 0 < w.ref_count
          × (hash w.value ≡ h)
          × (w.hash ≡ h)
    dropped_used h i m =
        let both = sym (mem-drop i k (chains h)) ∙ m in
        let (w, a, c, hv, hs) = pool.used h i (ground (arith, both)) in
        let (w', a', (ec, eh, ev)) = removed.forth i w (ground (arith, both)) a in
        (w', a', subst (λ n. 0 < n) (sym ec) c, ap hash ev ∙ hv, eh ∙ hs)

    dropped_chained :
        (i : ℕ) (w : InternValue T)
        → get_elem? p'.values i ≡ some w
        → 0 < w.ref_count
        → mem i (dropped (hash w.value)) ≡ true
    dropped_chained i w a q = elim (Bool-cases (i == k)) [
      | inl e ↦
          let (u, b, z) = removed.unused in
          let same : u ≡ w = cc (a, b, (==_iff i k).0 e) in
          absurd (omega (arith, q, z, ap (λ r. r.ref_count) same))
      | inr e ↦
          let (u, b, (ec, eh, ev)) = removed.back i w e a in
          let m : mem i (chains (hash w.value)) ≡ true =
            subst (λ y. mem i (chains (hash y)) ≡ true) (sym ev)
              (pool.chained i u b (subst (λ n. 0 < n) ec q)) in
          mem-drop i k (chains (hash w.value)) ∙ ground (arith, m, e)
    ]

    not_free : mem k p.available_indexes ≡ false
    not_free = elim (Bool-cases (mem k p.available_indexes)) [
      | inr e ↦ e
      | inl e ↦
          let (q, w, a, z) = pool.free k e in
          let same : v ≡ w = cc (at, a) in
          absurd (omega (arith, pos, z, ap (λ r. r.ref_count) same))
    ]

    dropped_free :
        (i : ℕ)
        → mem i p'.available_indexes ≡ true
        → 1 ≤ i × (w : InternValue T) × (get_elem? p'.values i ≡ some w) × (w.ref_count ≡ 0)
    dropped_free i m = elim (Bool-cases (i == k)) [
      | inl e ↦
          let first =
            IsChain-mem_pos p.values (head_of p (hash v.value)) k (chains (hash v.value))
              (pool.chain (hash v.value)) (pool.chained k v at pos) in
          let (w, a, z) = removed.unused in
          subst
            (λ j.
              1 ≤ j × (w : InternValue T) × (get_elem? p'.values j ≡ some w) × (w.ref_count ≡ 0))
            (sym ((==_iff i k).0 e)) (first, w, a, z)
      | inr e ↦
          let m' : mem i (k ∷ p.available_indexes) ≡ true = subst (λ l. mem i l ≡ true) left m in
          let (q, w, a, z) = pool.free i (ground (arith, e, m')) in
          let (w', a', (ec, eh, ev)) = removed.forth i w e a in (q, w', a', ec ∙ z)
    ]

    -- A pool without a value is well formed, if its chains are those without its index.
    pub removed-IsPool :
        ((h : ℕ) → IsChain p'.values (head_of p' h) (drop k (chains h)))
        → IsPool hash p' (λ h. drop k (chains h))
    removed-IsPool c = record {
      chain = c;
      once = λ h. drop-IsOnce k (chains h) (pool.once h);
      used = dropped_used;
      chained = dropped_chained;
      free = dropped_free;
      free_once = subst IsOnce (sym left) (not_free, pool.free_once);
      reserved = omega (arith, get_elem?-lt p'.values k removed.unused.0 removed.unused.1);
    }
