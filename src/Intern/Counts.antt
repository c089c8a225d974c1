-- ===== src/Intern/Counts.antt =====
-- The reference counts of common/helpers/intern/intern.go.
use akvorado.Prelude.{
  ℕ, refl, ◌<◌, ◌≡◌, ◌==◌, ◌∙◌, sym, subst, ap, true, some, List, get_elem?, set, length-set,
  if◌then◌else◌, arith, Bool-cases, inl, inr, ==_iff,
}
use akvorado.Intern.{head_of, InternValue, Pool}
use akvorado.Intern.Chain.{mem}
use akvorado.Intern.Pools.{IsPool}
use akvorado.Intern.Slots.{get_elem?-set, get_elem?-lt, KeepsLinks-IsChain}

module _ {T : Type 0} (hash : T → ℕ) (p : Pool T) (chains : ℕ → List ℕ)
    (pool : IsPool hash p chains) (k : ℕ) (v : InternValue T) (at : get_elem? p.values k ≡ some v)
    (pos : 0 < v.ref_count) (c : ℕ) (positive : 0 < c) where
  abbrev pub recounted : InternValue T
  recounted = record v { ref_count = c }

  pub recount_read :
      (j : ℕ)
      → get_elem? (set p.values k recounted) j
        ≡ (if j == k then some recounted else get_elem? p.values j)
  recount_read j = get_elem?-set p.values k j recounted (get_elem?-lt p.values k v at)

  same : (j : ℕ) (w : InternValue T) → get_elem? p.values j ≡ some w → (j == k) ≡ true → v ≡ w
  same j w a e = cc (at, a, (==_iff j k).0 e)

  -- A pool where a value in use has another count is well formed.
  pub recount-IsPool : IsPool hash (record p { values = set p.values k recounted }) chains
  unfolding head_of
  recount-IsPool = record {
    chain = λ h.
        KeepsLinks-IsChain p.values (set p.values k recounted) _ (chains h)
          (λ j w m a. elim (Bool-cases (j == k)) [
            | inl e ↦ (recounted, recount_read j ∙ rw e refl, ap (λ u. u.next) (same j w a e))
            | inr e ↦ (w, recount_read j ∙ rw e a, refl)
          ])
          (pool.chain h);
    once = pool.once;
    used = λ h i m.
        let (w, a, q, hv, hs) = pool.used h i m in
        elim (Bool-cases (i == k)) [
          | inl e ↦ (
            recounted,
            recount_read i ∙ rw e refl,
            positive,
            ap (λ u. hash u.value) (same i w a e) ∙ hv,
            ap (λ u. u.hash) (same i w a e) ∙ hs,
          )
          | inr e ↦ (w, recount_read i ∙ rw e a, q, hv, hs)
        ];
    chained = λ i w a q. elim (Bool-cases (i == k)) [
      | inl e ↦
          let f : some recounted ≡ some w = sym (recount_read i ∙ rw e refl) ∙ a in
          let g : recounted ≡ w = cc f in
          subst (λ u. mem i (chains (hash u.value)) ≡ true) g
            (subst (λ j. mem j (chains (hash v.value)) ≡ true) (sym ((==_iff i k).0 e))
              (pool.chained k v at pos))
      | inr e ↦ pool.chained i w (sym (recount_read i ∙ rw e refl) ∙ a) q
    ];
    free = λ i m.
        let (q, w, a, z) = pool.free i m in
        elim (Bool-cases (i == k)) [
          | inl e ↦ absurd (omega (arith, pos, ap (λ u. u.ref_count) (same i w a e), z))
          | inr e ↦ (q, w, recount_read i ∙ rw e a, z)
        ];
    free_once = pool.free_once;
    reserved = rw (length-set p.values k recounted) pool.reserved;
  }
