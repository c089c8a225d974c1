-- ===== src/Intern/Puts.antt =====
-- `Put` of common/helpers/intern/intern.go.
use native.Mathlib.Decide.{ℕ_discrete}
use akvorado.Prelude.{
  zero, ℕ, refl, ◌≤◌, ◌<◌, ◌≡◌, ◌==◌, ◌∙◌, ◌+◌, ◌%◌, ◌^◌, sym, subst, ap, Bool, true, false, Option,
  none, some, List, [], ◌∷◌, get_elem?, set, length, if◌then◌else◌, arith, Bool-cases, Option-cases,
  inl, inr, ==_iff, Returns, ◌>>=◌,
}
use akvorado.Intern.{suc, InternValue, Pool, head_of, get, put, walk, count_up, set_next, new_index}
use akvorado.Intern.Chain.{
  mem, IsChain, is_at, search_chain, search_chain_next, search_chain_here, search_chain_found,
  walk_lem, is_at_read,
}
use akvorado.Intern.Pools.{IsPool}
use akvorado.Intern.Slots.{LastIs, LastIs-mem, wrap_small}
use akvorado.Intern.Fresh.{IsFresh, new_index-IsFresh}
use akvorado.Intern.Adds.{IsAdded, added-IsPool, chains_with}
use akvorado.Intern.Links.{
  k_ne, headed, headed-IsAdded, headed-IsChain, extended, extended-IsAdded, extended-IsChain,
}
use akvorado.Intern.Counts.{recounted, recount_read, recount-IsPool}
pub mod Added
pub mod Counted
pub mod Run

module _ {T : Type 0} where
  -- The references to the value of an index.
  unfoldable pub count_of : Option (InternValue T) → ℕ
  count_of none = 0
  count_of (some v) = v.ref_count

  -- Every count stays below 2 ^ 32 with one more.
  abbrev pub IsBelow : List (InternValue T) → Type 0
  IsBelow [] = Unit {0}
  IsBelow (v ∷ values) = (v.ref_count + 1 < 2 ^ 32) × IsBelow values

  pub IsBelow-get_elem? :
      (values : List (InternValue T)) (i : ℕ) (v : InternValue T)
      → IsBelow values
      → get_elem? values i ≡ some v
      → v.ref_count + 1 < 2 ^ 32
  IsBelow-get_elem? [] i v b at = cc
  IsBelow-get_elem? (w ∷ values) zero v b at =
      let q : w ≡ v = cc at in subst (λ u. u.ref_count + 1 < 2 ^ 32) q b.0
  IsBelow-get_elem? (w ∷ values) (suc i) v b at = IsBelow-get_elem? values i v b.1 at

  module _ (hash : T → ℕ) (equal : T → T → Bool) where
    -- The reference of a value that was added to a pool, and the pool: it is well formed, the
    -- reference gives an equal value and is counted once more, and the others are as they were.
    pub record IsPut (x : T) (p : Pool T) (r : ℕ × Pool T) : Type 0 where
      pub chains : ℕ → List ℕ
      pub pool : IsPool hash r.1 chains
      pub value : (v : T) × (get r.1 r.0 ≡ some v) × (equal v x ≡ true)
      pub counts :
          (j : ℕ)
          → count_of (get_elem? r.1.values j) ≡ (
              if j == r.0
              then count_of (get_elem? p.values j) + 1
              else count_of (get_elem? p.values j))
      pub kept :
          (j : ℕ) (w : InternValue T)
          → get_elem? p.values j ≡ some w
          → 0 < w.ref_count
          → get r.1 j ≡ some w.value

    pub search_last :
        (values : List (InternValue T)) (x : T) (prev j last : ℕ) (js : List ℕ)
        → search_chain hash equal values x prev (j ∷ js) ≡ (false, last)
        → LastIs last (j ∷ js)
    unfolding search_chain
    search_last values x prev j last [] e = elim (Bool-cases (is_at hash equal values x j)) [
      | inl f ↦
          absurd (cc (ap (λ r. r.0) (sym (search_chain_here hash equal values x prev j [] f) ∙ e)))
      | inr f ↦ ap (λ r. r.1) (sym (sym (search_chain_next hash equal values x prev j [] f) ∙ e))
    ]
    search_last values x prev j last (k ∷ ks) e = elim (Bool-cases (is_at hash equal values x j)) [
      | inl f ↦
          absurd
            (cc (ap (λ r. r.0) (sym (search_chain_here hash equal values x prev j (k ∷ ks) f) ∙ e)))
      | inr f ↦
          search_last values x j k last ks
            (sym (search_chain_next hash equal values x prev j (k ∷ ks) f) ∙ e)
    ]
