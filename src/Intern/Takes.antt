-- ===== src/Intern/Takes.antt =====
-- `Take` of common/helpers/intern/intern.go.
use akvorado.Prelude.{
  ◌+◌, ◌-◌, ◌%◌, ◌^◌, Returns, ℕ, refl, ◌<◌, ◌≡◌, ◌==◌, ◌∙◌, sym, subst, ap, true, false, some,
  List, [], ◌∷◌, get_elem?, set, length, if◌then◌else◌, arith, Bool-cases, Option-cases, inl, inr,
  ==_iff,
}
use akvorado.Intern.{InternValue, Pool, head_of, get, take, unlink, predecessor, set_next}
use akvorado.Intern.Chain.{mem, IsChain}
use akvorado.Intern.Pools.{IsOnce, IsPool}
use akvorado.Intern.Counts.{recounted, recount_read, recount-IsPool}
use akvorado.Intern.Drops.{before_ne, drop, before, before-mem, predecessor_lem}
use akvorado.Intern.Puts.{count_of}
use akvorado.Intern.Removed.{IsRemoved, removed-IsPool}
use akvorado.Intern.Unlinked.{
  cleared, cleared-IsChain, beheaded, beheaded-IsRemoved, beheaded-IsChain, in_chain, cached_hash,
}
use akvorado.Intern.Shortened.{shortened, cleared_before, shortened-IsRemoved, shortened-IsChain}

module _ {T : Type 0} (hash : T → ℕ) where
  -- The pool from which a reference was taken: it is well formed, the reference is counted once
  -- less, and the others are as they were.
  pub record IsTaken (k : ℕ) (p p' : Pool T) : Type 0 where
    pub chains : ℕ → List ℕ
    pub pool : IsPool hash p' chains
    pub counts :
        (j : ℕ)
        → count_of (get_elem? p'.values j) ≡ (
            if j == k then count_of (get_elem? p.values j) - 1 else count_of (get_elem? p.values j))
    pub kept :
        (j : ℕ) (w : InternValue T)
        → (j == k) ≡ false
        → get_elem? p.values j ≡ some w
        → get p' j ≡ some w.value

  module _ (p : Pool T) (chains : ℕ → List ℕ) (pool : IsPool hash p chains) (k : ℕ)
      (v : InternValue T) (at : get_elem? p.values k ≡ some v) (pos : 0 < v.ref_count) where
    other_count :
        (p' : Pool T) (j : ℕ)
        → IsRemoved p p' k
        → (j == k) ≡ false
        → count_of (get_elem? p'.values j) ≡ count_of (get_elem? p.values j)
    unfolding count_of
    other_count p' j r e = elim (Option-cases (get_elem? p.values j)) [
      | inr (w, a) ↦ let (w', a', (ec, eh, ev)) = r.forth j w e a in rw (a', a) ec
      | inl a ↦ elim (Option-cases (get_elem? p'.values j)) [
        | inl a' ↦ rw (a, a') refl
        | inr (w', a') ↦ let (w, b, same) = r.back j w' e a' in absurd (cc (a, b))
      ]
    ]

    removed-IsTaken :
        (p' : Pool T)
        → v.ref_count ≡ 1
        → IsRemoved p p' k
        → p'.available_indexes ≡ k ∷ p.available_indexes
        → ((h : ℕ) → IsChain p'.values (head_of p' h) (drop k (chains h)))
        → IsTaken k p p'
    unfolding count_of get
    removed-IsTaken p' single r left c = record {
      chains = λ h. drop k (chains h);
      pool = removed-IsPool hash p p' chains pool k v at pos r left c;
      counts = λ j. elim (Bool-cases (j == k)) [
        | inr e ↦ rw e (other_count p' j r e)
        | inl e ↦
            let (w, a, z) = r.unused in
            subst (λ i. count_of (get_elem? p'.values i) ≡ count_of (get_elem? p.values i) - 1)
              (sym ((==_iff j k).0 e)) (rw (a, at, single) z)
            ∙ rw e refl
      ];
      kept = λ j w e a. let (w', a', (ec, eh, ev)) = r.forth j w e a in rw a' (ap some ev);
    }

    recounted-IsTaken :
        (c : ℕ) (positive : 0 < c)
        → c ≡ v.ref_count - 1
        → IsTaken k p (record p {
          values = set p.values k (recounted hash p chains pool k v at pos c positive);
        })
    unfolding count_of get
    recounted-IsTaken c positive q = record {
      chains = chains;
      pool = recount-IsPool hash p chains pool k v at pos c positive;
      counts = λ j. elim (Bool-cases (j == k)) [
        | inr e ↦ rw (recount_read hash p chains pool k v at pos c positive j, e) refl
        | inl e ↦
            let atj : get_elem? p.values j ≡ some v =
              subst (λ i. get_elem? p.values i ≡ some v) (sym ((==_iff j k).0 e)) at in
            rw (recount_read hash p chains pool k v at pos c positive j, e, atj) q
      ];
      kept = λ j w e a. rw (recount_read hash p chains pool k v at pos c positive j, e, a) refl;
    }

    -- The values other than the first of a chain.
    first_ne :
        (i : ℕ) (js : List ℕ)
        → IsChain p.values i js
        → mem k js ≡ true
        → (i == k) ≡ false
        → (first : ℕ) × (rest : List ℕ) × (js ≡ first ∷ rest) × (i ≡ first) × (mem k rest ≡ true)
    first_ne i [] c m e = cc
    first_ne i (j ∷ js) (q, posj, w, a, c) m e = (j, js, refl, q, ground (arith, q, m, e))

    abbrev without : Pool T
    without = cleared hash p chains pool k v at pos

    unlink_first :
        (fuel : ℕ)
        → (head_of p v.hash == k) ≡ true
        → unlink fuel k v without ≡ some (beheaded hash p chains pool k v at pos)
    unfolding unlink head_of
    unlink_first fuel e = rw e refl

    unlink_other :
        (fuel b : ℕ) (vb : InternValue T) (at_b : get_elem? p.values b ≡ some vb)
        (ne : (b == k) ≡ false)
        → (head_of p v.hash == k) ≡ false
        → predecessor fuel without.values (head_of p v.hash) k ≡ some b
        → unlink fuel k v without ≡ some (shortened hash p chains pool k v at pos b vb at_b ne)
    unfolding unlink set_next head_of
    unlink_other fuel b vb at_b ne e q =
        rw (e, q, cleared_before hash p chains pool k v at pos b vb at_b ne) refl

    abbrev less : ℕ
    less = (v.ref_count + 2 ^ 32 - 1) % 2 ^ 32

    take_last : (fuel : ℕ) → less ≡ 0 → take fuel k p ≡ unlink fuel k v without
    unfolding take
    take_last fuel z = rw (at, z) refl

    take_other :
        (fuel : ℕ) (positive : 0 < less)
        → take fuel k p
          ≡ some (record p {
            values = set p.values k (recounted hash p chains pool k v at pos less positive);
          })
    unfolding take
    take_other fuel positive =
        let e : (less == 0) ≡ false = ground (arith, positive) in rw (at, e) refl

    in_hash_chain : mem k (chains v.hash) ≡ true
    in_hash_chain =
        subst (λ h. mem k (chains h) ≡ true) (sym (cached_hash hash p chains pool k v at pos))
          (in_chain hash p chains pool k v at pos)

    unlink-Returns :
        (fuel : ℕ)
        → v.ref_count ≡ 1
        → length (chains v.hash) < fuel
        → Returns (IsTaken k p) (unlink fuel k v without)
    unfolding head_of
    unlink-Returns fuel single enough = elim (Bool-cases (head_of p v.hash == k)) [
      | inl e ↦ subst (Returns (IsTaken k p)) (sym (unlink_first fuel e)) (
          removed-IsTaken _ single (beheaded-IsRemoved hash p chains pool k v at pos) refl
            (beheaded-IsChain hash p chains pool k v at pos ((==_iff (head_of p v.hash) k).0 e)))
      | inr e ↦
          let (first, rest, split, q, m) =
            first_ne (head_of p v.hash) (chains v.hash) (pool.chain v.hash) in_hash_chain e in
          let once = subst IsOnce split (pool.once v.hash) in
          let there : mem (before k first rest) (chains v.hash) ≡ true =
            subst (λ l. mem (before k first rest) l ≡ true) (sym split) (before-mem k first rest) in
          let (vb, at_b, posb, hv, hs) = pool.used v.hash (before k first rest) there in
          let ne = before_ne k first rest once m in
          let chain =
            subst (IsChain without.values (head_of p v.hash)) split
              (cleared-IsChain hash p chains pool k v at pos v.hash) in
          let short : length rest < fuel = omega (arith, enough, ap length split) in
          let found =
            ap (λ i. predecessor fuel without.values i k) q
            ∙ predecessor_lem fuel without.values (head_of p v.hash) first k rest chain m short in
          subst (Returns (IsTaken k p)) (sym (unlink_other fuel _ vb at_b ne e found)) (
            removed-IsTaken _ single
              (shortened-IsRemoved hash p chains pool k v at pos _ vb at_b ne) refl
              (shortened-IsChain hash p chains pool k v at pos (before k first rest) vb at_b ne
                first rest split m refl))
    ]

    -- In a well-formed pool, for a reference to a value in use, with fuel above the length of its
    -- chain: `Take` returns. The pool stays well formed, this reference is counted once less, the
    -- other counts and values are as they were.
    pub take-Returns :
        (fuel : ℕ)
        → v.ref_count < 2 ^ 32
        → length (chains v.hash) < fuel
        → Returns (IsTaken k p) (take fuel k p)
    take-Returns fuel small enough =
        let one_less : less ≡ v.ref_count - 1 = omega (arith, small, pos) in
        elim (Bool-cases (less == 0)) [
          | inl e ↦
              let z : less ≡ 0 = (==_iff less 0).0 e in
              subst (Returns (IsTaken k p)) (sym (take_last fuel z))
                (unlink-Returns fuel (omega (arith, one_less, z, pos)) enough)
          | inr e ↦
              let positive : 0 < less = ground (arith, e) in
              subst (Returns (IsTaken k p)) (sym (take_other fuel positive))
                (recounted-IsTaken less positive one_less)
        ]
