-- ===== src/Intern/Puts/Added.antt =====
-- `Put` of common/helpers/intern/intern.go, for a value that is not in the pool.
use akvorado.Prelude.{
  ℕ, refl, ◌<◌, ◌≡◌, ◌==◌, ◌∙◌, ◌+◌, ◌^◌, sym, subst, ap, Bool, true, false, some, List, [], ◌∷◌,
  get_elem?, length, if◌then◌else◌, arith, Bool-cases, Option-cases, inl, inr, ==_iff,
}
use akvorado.Intern.{InternValue, Pool, head_of, get, new_index}
use akvorado.Intern.Chain.{mem, IsChain}
use akvorado.Intern.Pools.{IsPool}
use akvorado.Intern.Slots.{LastIs}
use akvorado.Intern.Fresh.{IsFresh, new_index-IsFresh}
use akvorado.Intern.Adds.{IsAdded, added-IsPool, chains_with}
use akvorado.Intern.Links.{
  headed, headed-IsAdded, headed-IsChain, extended, extended-IsAdded, extended-IsChain,
}
use akvorado.Intern.Puts.{count_of, IsPut}

module _ {T : Type 0} (hash : T → ℕ) (equal : T → T → Bool)
    (equal_refl : (a : T) → equal a a ≡ true) (x : T) (p : Pool T) (chains : ℕ → List ℕ)
    (pool : IsPool hash p chains) where
  module _ (n : ℕ) (grown p' : Pool T) (v : InternValue T) (fresh : IsFresh p n grown)
      (added : IsAdded p p' n v) (single : v.ref_count ≡ 1) where
    fresh_count : count_of (get_elem? p.values n) ≡ 0
    unfolding count_of
    fresh_count = elim (Option-cases (get_elem? p.values n)) [
      | inl e ↦ rw e refl
      | inr (w, at) ↦ rw at (fresh.unused w at)
    ]

    other_count :
        (j : ℕ)
        → (j == n) ≡ false
        → count_of (get_elem? p'.values j) ≡ count_of (get_elem? p.values j)
    unfolding count_of
    other_count j e = elim (Option-cases (get_elem? p.values j)) [
      | inr (w, at) ↦ let (w', at', (ec, eh, ev)) = added.forth j w e at in rw (at', at) ec
      | inl a ↦ elim (Option-cases (get_elem? p'.values j)) [
        | inl a' ↦ rw (a, a') refl
        | inr (w', at') ↦ let (w, at, same) = added.back j w' e at' in absurd (cc (a, at))
      ]
    ]

    added_counts :
        (j : ℕ)
        → count_of (get_elem? p'.values j) ≡ (
            if j == n then count_of (get_elem? p.values j) + 1 else count_of (get_elem? p.values j))
    unfolding count_of
    added_counts j = elim (Bool-cases (j == n)) [
      | inr e ↦ rw e (other_count j e)
      | inl e ↦
          subst (λ i. count_of (get_elem? p'.values i) ≡ count_of (get_elem? p.values i) + 1)
            (sym ((==_iff j n).0 e)) (rw (added.here, fresh_count) single)
          ∙ rw e refl
    ]

  -- A new value at a fresh index.
  added-IsPut :
      (n : ℕ) (grown p' : Pool T)
      → IsFresh p n grown
      → IsAdded p p' n (record { next = 0; ref_count = 1; hash = hash x; value = x })
      → p'.available_indexes ≡ grown.available_indexes
      → ((h : ℕ) → IsChain p'.values (head_of p' h) (chains_with (hash x) n chains h))
      → IsPut hash equal x p (n, p')
  unfolding count_of get
  added-IsPut n grown p' fresh added left c = record {
    chains = chains_with (hash x) n chains;
    pool = added-IsPool hash p chains pool n grown fresh p' _ added (omega arith) refl left c;
    value = (x, rw added.here refl, equal_refl x);
    counts = added_counts n grown p' _ fresh added refl;
    kept = λ j w at pos. elim (Bool-cases (j == n)) [
      | inl e ↦ absurd (
          omega (
            arith,
            pos,
            fresh.unused w (subst (λ i. get_elem? p.values i ≡ some w) ((==_iff j n).0 e) at),
          ))
      | inr e ↦ let (w', at', (ec, eh, ev)) = added.forth j w e at in rw at' (ap some ev)
    ];
  }

  module _ (small : length p.values < 2 ^ 32) (null : T) where
    abbrev pub next : ℕ
    next = (new_index null p).0

    abbrev pub grown : Pool T
    grown = (new_index null p).1

    pub fresh : IsFresh p next grown
    fresh = new_index-IsFresh null hash chains p small pool

    abbrev pub new_value : InternValue T
    new_value = record { next = 0; ref_count = 1; hash = hash x; value = x }

    chains_empty : (i : ℕ) (js : List ℕ) → IsChain p.values i js → i ≡ 0 → js ≡ []
    chains_empty i [] c z = refl
    chains_empty i (j ∷ js) (e, pos, v, at, rest) z = absurd (omega (arith, e, pos, z))

    pub first-IsPut :
        (head_of p (hash x) == 0) ≡ true
        → IsPut hash equal x p (next, headed hash p chains pool next grown fresh new_value refl)
    first-IsPut e =
        added-IsPut next grown _ fresh
          (headed-IsAdded hash p chains pool next grown fresh new_value refl) refl
          (headed-IsChain hash p chains pool next grown fresh new_value refl (
            chains_empty (head_of p (hash x)) (chains (hash x)) (pool.chain (hash x))
              ((==_iff (head_of p (hash x)) 0).0 e)))

    pub linked-IsPut :
        (k : ℕ) (vk : InternValue T) (at : get_elem? p.values k ≡ some vk)
        (there : mem k (chains (hash x)) ≡ true)
        → LastIs k (chains (hash x))
        → IsPut hash equal x p
            (next, extended hash p chains pool next grown fresh new_value refl k vk at there)
    linked-IsPut k vk at there l =
        added-IsPut next grown _ fresh
          (extended-IsAdded hash p chains pool next grown fresh new_value refl k vk at there) refl
          (extended-IsChain hash p chains pool next grown fresh new_value refl k vk at there l)
