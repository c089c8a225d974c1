-- ===== src/Intern/Pools.antt =====
-- The well-formed pools of common/helpers/intern/intern.go.
use akvorado.Prelude.{ℕ, ◌≤◌, ◌<◌, ◌≡◌, true, false, some, List, [], ◌∷◌, length, get_elem?}
use akvorado.Intern.{InternValue, Pool, head_of}
use akvorado.Intern.Chain.{IsChain, mem}

-- No index stands twice.
abbrev pub IsOnce : List ℕ → Type 0
IsOnce [] = Unit {0}
IsOnce (j ∷ js) = (mem j js ≡ false) × IsOnce js

module _ {T : Type 0} (hash : T → ℕ) where
  -- `chains` are the indexes of the values of each hash: those of the slots in use. The indexes that
  -- are available are those of other slots.
  pub record IsPool (p : Pool T) (chains : ℕ → List ℕ) : Type 0 where
    pub chain : (h : ℕ) → IsChain p.values (head_of p h) (chains h)
    pub once : (h : ℕ) → IsOnce (chains h)
    pub used :
        (h i : ℕ)
        → mem i (chains h) ≡ true
        → (v : InternValue T) × (get_elem? p.values i ≡ some v)
          × 0 < v.ref_count
          × (hash v.value ≡ h)
          × (v.hash ≡ h)
    pub chained :
        (i : ℕ) (v : InternValue T)
        → get_elem? p.values i ≡ some v
        → 0 < v.ref_count
        → mem i (chains (hash v.value)) ≡ true
    pub free :
        (i : ℕ)
        → mem i p.available_indexes ≡ true
        → 1 ≤ i × (v : InternValue T) × (get_elem? p.values i ≡ some v) × (v.ref_count ≡ 0)
    pub free_once : IsOnce p.available_indexes
    pub reserved : 1 ≤ length p.values
