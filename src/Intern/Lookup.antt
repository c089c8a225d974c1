-- ===== src/Intern/Lookup.antt =====
-- `Ref` of common/helpers/intern/intern.go.
use akvorado.Intern.Pools.{IsPool}
use akvorado.Prelude.{
  subst, ℕ, zero, suc, ◌<◌, ◌≡◌, ◌⊎◌, refl, sym, ◌∙◌, Bool, true, false, ◌||◌, ◌&&◌, some, List, [],
  ◌∷◌, length, get_elem?, ltb, if◌then◌else◌, arith, Bool-cases, inl, inr, Returns,
}
use akvorado.Intern.{InternValue, Pool, head_of, get, ref}
use akvorado.Intern.Chain.{
  is_at_read, mem, is_at, search_chain, walk_lem, search_chain_found, search_chain_none,
}

module _ {T : Type 0} (hash : T → ℕ) (equal : T → T → Bool) where
  -- Some slot that is in use has a value that is equal to `x`.
  unfoldable pub holds : T → List (InternValue T) → Bool
  holds x [] = false
  holds x (v ∷ values) = (ltb 0 v.ref_count && equal v.value x) || holds x values

  holds-get_elem? :
      (x : T) (values : List (InternValue T)) (i : ℕ) (v : InternValue T)
      → get_elem? values i ≡ some v
      → 0 < v.ref_count
      → equal v.value x ≡ true
      → holds x values ≡ true
  unfolding holds
  holds-get_elem? x [] i v at pos e = cc
  holds-get_elem? x (w ∷ values) zero v at pos e = ground arith
  holds-get_elem? x (w ∷ values) (suc i) v at pos e =
      ground (arith, holds-get_elem? x values i v at pos e)

  holds_index :
      (x : T) (values : List (InternValue T))
      → holds x values ≡ true
      → (i : ℕ) × (v : InternValue T) × (get_elem? values i ≡ some v)
        × 0 < v.ref_count
        × (equal v.value x ≡ true)
  unfolding holds
  holds_index x [] h = cc
  holds_index x (w ∷ values) h = elim (Bool-cases (ltb 0 w.ref_count && equal w.value x)) [
    | inl e ↦ (0, w, refl, ground (arith, e), ground (arith, e))
    | inr e ↦
        let (i, v, at, pos, q) = holds_index x values (ground (arith, e, h)) in
        (suc i, v, at, pos, q)
  ]

  -- What `Ref` is to give.
  abbrev pub IsReference : T → Pool T → ℕ × Bool → Type 0
  IsReference x p (i, found) =
      ((found ≡ true)
        × (holds x p.values ≡ true)
        × (v : T) × (get p i ≡ some v)
        × (equal v x ≡ true))
      ⊎ ((found ≡ false) × (i ≡ 0) × (holds x p.values ≡ false))

  module _ (equal-hash : (a b : T) → equal a b ≡ true → hash a ≡ hash b) where
    module _ (x : T) (p : Pool T) (chains : ℕ → List ℕ) (h : IsPool hash p chains) where
      ref_found :
          (k : ℕ)
          → mem k (chains (hash x)) ≡ true
          → is_at hash equal p.values x k ≡ true
          → IsReference x p (k, true)
      unfolding get
      ref_found k m a =
          let (v, at, pos, hv, hs) = h.used (hash x) k m in
          let e : equal v.value x ≡ true = sym (is_at_read hash equal p.values x k v at) ∙ a in
          inl (refl, holds-get_elem? x p.values k v at pos e, v.value, rw at refl, e)

      ref_missing :
          ((k : ℕ) → mem k (chains (hash x)) ≡ true → is_at hash equal p.values x k ≡ false)
          → holds x p.values ≡ false
      ref_missing none_there = elim (Bool-cases (holds x p.values)) [
        | inr e ↦ e
        | inl e ↦
            let (i, v, at, pos, q) = holds_index x p.values e in
            let m =
              subst (λ g. mem i (chains g) ≡ true) (equal-hash v.value x q)
                (h.chained i v at pos) in
            absurd (cc (none_there i m, is_at_read hash equal p.values x i v at, q))
      ]

      -- In a pool whose chains are those of the values in use, and with fuel above the length of the
      -- chain: `Ref` returns. It finds a reference to an equal value if one is in use, and else it
      -- gives 0 and tells that there is none.
      pub ref-Returns :
          (fuel : ℕ)
          → length (chains (hash x)) < fuel
          → Returns (IsReference x p) (ref hash equal fuel x p)
      unfolding ref
      ref-Returns fuel enough =
          rw
            (walk_lem hash equal fuel p.values x 0 (head_of p (hash x)) (chains (hash x))
              (h.chain (hash x)) enough)
            (go (search_chain hash equal p.values x 0 (chains (hash x))) refl)
        where
          go :
              (r : Bool × ℕ)
              → search_chain hash equal p.values x 0 (chains (hash x)) ≡ r
              → IsReference x p (if r.0 then (r.1, true) else (0, false))
          go (true, k) e =
              let (m, a) = search_chain_found hash equal p.values x 0 (chains (hash x)) k e in
              ref_found k m a
          go (false, k) e = inr (
            refl,
            refl,
            ref_missing
                (λ i m. search_chain_none hash equal p.values x 0 k (chains (hash x)) i e m),
          )
