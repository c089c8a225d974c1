-- ===== src/Intern/Puts/Run.antt =====
-- `Put` of common/helpers/intern/intern.go, on all values.
use akvorado.Prelude.{
  ℕ, refl, ◌<◌, ◌≡◌, ◌==◌, ◌∙◌, ◌^◌, sym, subst, ap, Bool, true, false, some, List, [], ◌∷◌,
  get_elem?, length, arith, Bool-cases, inl, inr, Returns,
}
use akvorado.Intern.{InternValue, Pool, head_of, put, walk, count_up, set_next}
use akvorado.Intern.Chain.{mem, IsChain, search_chain, search_chain_found, walk_lem}
use akvorado.Intern.Pools.{IsPool}
use akvorado.Intern.Slots.{LastIs, LastIs-mem}
use akvorado.Intern.Links.{k_ne, headed, extended}
use akvorado.Intern.Puts.{IsBelow, IsPut, search_last}
use akvorado.Intern.Puts.Added.{next, grown, fresh, new_value, first-IsPut, linked-IsPut}
use akvorado.Intern.Puts.Counted.{counted, counted-IsPut}

module _ {T : Type 0} (hash : T → ℕ) (equal : T → T → Bool)
    (equal_refl : (a : T) → equal a a ≡ true) (x : T) (p : Pool T) (chains : ℕ → List ℕ)
    (pool : IsPool hash p chains) (small : length p.values < 2 ^ 32) (below : IsBelow p.values)
    (null : T) where
  put_first :
      (fuel : ℕ)
      → (head_of p (hash x) == 0) ≡ true
      → put hash equal null fuel x p
        ≡ some (
          (next hash equal equal_refl x p chains pool small null),
          headed hash p chains pool
              (next hash equal equal_refl x p chains pool small null)
              (grown hash equal equal_refl x p chains pool small null)
              (fresh hash equal equal_refl x p chains pool small null)
              (new_value hash equal equal_refl x p chains pool small null)
              refl,
        )
  unfolding put
  put_first fuel e = rw e refl

  module _ (fuel : ℕ) (more_values : (head_of p (hash x) == 0) ≡ false) (k : ℕ) (vk : InternValue T)
      (at : get_elem? p.values k ≡ some vk) where
    put_found :
        (pos : 0 < vk.ref_count)
        → walk hash equal fuel p.values x (head_of p (hash x)) (head_of p (hash x)) ≡ some (true, k)
        → put hash equal null fuel x p
          ≡ some (k, counted hash equal x p chains pool below k vk at pos)
    unfolding put count_up
    put_found pos w = rw (more_values, w, at) refl

    put_linked :
        (there : mem k (chains (hash x)) ≡ true)
        → walk hash equal fuel p.values x (head_of p (hash x)) (head_of p (hash x))
          ≡ some (false, k)
        → put hash equal null fuel x p
          ≡ some (
            (next hash equal equal_refl x p chains pool small null),
            extended hash p chains pool
                (next hash equal equal_refl x p chains pool small null)
                (grown hash equal equal_refl x p chains pool small null)
                (fresh hash equal equal_refl x p chains pool small null)
                (new_value hash equal equal_refl x p chains pool small null)
                refl
                k
                vk
                at
                there,
          )
    unfolding put set_next
    put_linked there w =
        rw
          (
            more_values,
            w,
            (fresh hash equal equal_refl x p chains pool small null).rest k (
                  k_ne hash p chains pool (next hash equal equal_refl x p chains pool small null)
                    (grown hash equal equal_refl x p chains pool small null)
                    (fresh hash equal equal_refl x p chains pool small null)
                    (new_value hash equal equal_refl x p chains pool small null) refl k vk at there)
                ∙ at,
          )
          refl

  chain_last :
      (i last : ℕ) (js : List ℕ)
      → IsChain p.values i js
      → (i == 0) ≡ false
      → search_chain hash equal p.values x i js ≡ (false, last)
      → LastIs last js
  chain_last i last [] c e s = absurd (ground (arith, c, e))
  chain_last i last (j ∷ js) c e s = search_last hash equal p.values x i j last js s

  -- In a well-formed pool with fewer than 2 ^ 32 slots, none with as many references, and with
  -- fuel above the length of the chain: `Put` returns the reference of an equal value. The
  -- pool stays well formed, this reference is counted once more, the other counts and the
  -- values in use are as they were.
  pub put-Returns :
      (fuel : ℕ)
      → length (chains (hash x)) < fuel
      → Returns (IsPut hash equal x p) (put hash equal null fuel x p)
  put-Returns fuel enough = elim (Bool-cases (head_of p (hash x) == 0)) [
    | inl e ↦
        subst (Returns (IsPut hash equal x p)) (sym (put_first fuel e))
          (first-IsPut hash equal equal_refl x p chains pool small null e)
    | inr e ↦ go e (search_chain hash equal p.values x (head_of p (hash x)) (chains (hash x))) refl
  ]
    where
      go :
          (head_of p (hash x) == 0) ≡ false
          → (r : Bool × ℕ)
          → search_chain hash equal p.values x (head_of p (hash x)) (chains (hash x)) ≡ r
          → Returns (IsPut hash equal x p) (put hash equal null fuel x p)
      go e (true, k) s =
          let (m, a) =
            search_chain_found hash equal p.values x (head_of p (hash x)) (chains (hash x)) k s in
          let (vk, at, pos, hv, hs) = pool.used (hash x) k m in
          subst (Returns (IsPut hash equal x p))
            (sym (
              put_found fuel e k vk at pos (
                walk_lem hash equal fuel p.values x (head_of p (hash x)) (head_of p (hash x))
                  (chains (hash x)) (pool.chain (hash x)) enough
                ∙ ap some s)))
            (counted-IsPut hash equal x p chains pool below k vk at pos a)
      go e (false, k) s =
          let l = chain_last (head_of p (hash x)) k (chains (hash x)) (pool.chain (hash x)) e s in
          let m = LastIs-mem k (chains (hash x)) l in
          let (vk, at, pos, hv, hs) = pool.used (hash x) k m in
          subst (Returns (IsPut hash equal x p))
            (sym (
              put_linked fuel e k vk at m (
                walk_lem hash equal fuel p.values x (head_of p (hash x)) (head_of p (hash x))
                  (chains (hash x)) (pool.chain (hash x)) enough
                ∙ ap some s)))
            (linked-IsPut hash equal equal_refl x p chains pool small null k vk at m l)
