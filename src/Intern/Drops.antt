-- ===== src/Intern/Drops.antt =====
-- Chains of common/helpers/intern/intern.go that lose an index.
use akvorado.Prelude.{
  ℕ, zero, suc, refl, ◌≤◌, ◌<◌, ◌≡◌, ◌==◌, ◌∙◌, ◌&&◌, not, sym, subst, ap, true, false, some, List,
  [], ◌∷◌, get_elem?, length, if◌then◌else◌, arith, Bool-cases, inl, inr, ==_iff,
}
use akvorado.Intern.{InternValue, predecessor}
use akvorado.Intern.Chain.{mem, IsChain}
use akvorado.Intern.Pools.{IsOnce}
use akvorado.Intern.Slots.{KeepsLinks-IsChain, mem_ne}

-- The list without an index.
unfoldable pub drop : ℕ → List ℕ → List ℕ
drop k [] = []
drop k (j ∷ js) = let rest = drop k js in if j == k then rest else j ∷ rest

pub mem-drop : (i k : ℕ) (js : List ℕ) → mem i (drop k js) ≡ (mem i js && not (i == k))
unfolding drop
mem-drop i k [] = refl
mem-drop i k (j ∷ js) = ground (arith, mem-drop i k js)

pub drop-IsOnce : (k : ℕ) (js : List ℕ) → IsOnce js → IsOnce (drop k js)
unfolding drop
drop-IsOnce k [] o = tt
drop-IsOnce k (j ∷ js) o = ground (arith, o, mem-drop j k js, drop-IsOnce k js o.1)

-- An index that is not in the list.
pub drop_missing : (k : ℕ) (js : List ℕ) → mem k js ≡ false → drop k js ≡ js
unfolding drop
drop_missing k [] m = refl
drop_missing k (j ∷ js) m =
    let e : (j == k) ≡ false = ground (arith, m) in
    rw (e, drop_missing k js (ground (arith, m))) refl

pub drop_head : (k : ℕ) (js : List ℕ) → mem k js ≡ false → drop k (k ∷ js) ≡ js
unfolding drop
drop_head k js m = let e : (k == k) ≡ true = ground arith in rw e (drop_missing k js m)

pub drop_other : (k j : ℕ) (ks : List ℕ) → (j == k) ≡ false → drop k (j ∷ ks) ≡ j ∷ drop k ks
unfolding drop
drop_other k j ks h = rw h refl

-- The index before another one.
abbrev pub before : ℕ → ℕ → List ℕ → ℕ
before k j [] = j
before k j (l ∷ js) = if l == k then j else before k l js

pub before-mem : (k j : ℕ) (js : List ℕ) → mem (before k j js) (j ∷ js) ≡ true
before-mem k j [] = ground arith
before-mem k j (l ∷ js) = ground (arith, before-mem k l js)

pub before_ne :
    (k j : ℕ) (js : List ℕ) → IsOnce (j ∷ js) → mem k js ≡ true → (before k j js == k) ≡ false
before_ne k j [] o m = cc
before_ne k j (l ∷ js) o m = elim (Bool-cases (l == k)) [
  | inl e ↦ let ne : (j == k) ≡ false = ground (arith, mem_ne k j (l ∷ js) o.0 m) in rw e ne
  | inr e ↦ rw e (before_ne k l js o.1 (ground (arith, e, m)))
]

module _ {T : Type 0} where
  pub IsChain-mem_pos :
      (values : List (InternValue T)) (i k : ℕ) (js : List ℕ)
      → IsChain values i js
      → mem k js ≡ true
      → 1 ≤ k
  IsChain-mem_pos values i k [] c m = cc
  IsChain-mem_pos values i k (j ∷ js) (e, pos, v, at, c) m = elim (Bool-cases (k == j)) [
    | inl f ↦ subst (λ l. 1 ≤ l) (sym ((==_iff k j).0 f)) pos
    | inr f ↦ IsChain-mem_pos values v.next k js c (ground (arith, f, m))
  ]

  -- Fuel above the length of the chain is enough to find the predecessor.
  pub predecessor_lem :
      (fuel : ℕ) (values : List (InternValue T)) (i j k : ℕ) (js : List ℕ)
      → IsChain values i (j ∷ js)
      → mem k js ≡ true
      → length js < fuel
      → predecessor fuel values j k ≡ some (before k j js)
  unfolding predecessor
  predecessor_lem zero values i j k js c m h = elim h [ ]
  predecessor_lem (suc fuel) values i j k [] c m h = cc
  predecessor_lem (suc fuel) values i j k (l ∷ js) (e, pos, v, at, (p, posl, u, atu, c)) m h =
      elim (Bool-cases (l == k)) [
        | inl f ↦ rw (at, p, f) refl
        | inr f ↦
            rw (at, p, f)
              (predecessor_lem fuel values l l k js (refl, posl, u, atu, c) (ground (arith, f, m))
                (omega arith))
      ]

  -- The slots have the same links, but that the predecessor leads to the index after `k`.
  abbrev pub SkipsLink : List (InternValue T) → List (InternValue T) → ℕ → ℕ → List ℕ → Type 0
  SkipsLink values values' b n js =
      (j : ℕ) (v : InternValue T)
      → mem j js ≡ true
      → get_elem? values j ≡ some v
      → (v' : InternValue T) × (get_elem? values' j ≡ some v')
        × (v'.next ≡ (if j == b then n else v.next))

  module _ (k : ℕ) (vk : InternValue T) (values values' : List (InternValue T))
      (at_k : get_elem? values k ≡ some vk) where
    -- A chain loses an index that is not its first.
    pub IsChain-drop :
        (i j : ℕ) (js : List ℕ)
        → IsChain values i (j ∷ js)
        → IsOnce (j ∷ js)
        → mem k js ≡ true
        → SkipsLink values values' (before k j js) vk.next (j ∷ js)
        → IsChain values' i (drop k (j ∷ js))
    IsChain-drop i j [] c o m s = cc
    IsChain-drop i j (l ∷ js) (e, pos, v, at, (p, posl, u, atu, c)) o m s =
        let ne : (j == k) ≡ false = ground (arith, mem_ne k j (l ∷ js) o.0 m) in
        let split : drop k (j ∷ l ∷ js) ≡ j ∷ drop k (l ∷ js) = drop_other k j (l ∷ js) ne in
        subst (IsChain values' i) (sym split) (elim (Bool-cases (l == k)) [
          | inl f ↦
              let (v', at', n) = s j v (ground arith) at in
              let q : u ≡ vk = cc (atu, at_k, (==_iff l k).0 f) in
              let away : mem k js ≡ false =
                subst (λ r. mem r js ≡ false) ((==_iff l k).0 f) o.1.0 in
              let n' : u.next ≡ v'.next =
                sym (n ∙ rw f (ground arith) ∙ ap (λ r. r.next) (sym q)) in
              (
                e,
                pos,
                v',
                at',
                subst (IsChain values' v'.next)
                    (sym (ap (λ r. drop k (r ∷ js)) ((==_iff l k).0 f) ∙ drop_head k js away))
                    (subst (λ r. IsChain values' r js) n'
                      (KeepsLinks-IsChain values values' u.next js
                        (λ a w ma b.
                          let (w', b', z) = s a w (ground (arith, ma)) b in
                          let nj : (a == j) ≡ false = mem_ne a j js (ground (arith, o.0)) ma in
                          (w', b', z ∙ rw (f, nj) refl))
                        c)),
              )
          | inr f ↦
              let (v', at', n) = s j v (ground arith) at in
              let nb : (j == before k l js) ≡ false =
                ground (arith, mem_ne (before k l js) j (l ∷ js) o.0 (before-mem k l js)) in
              (
                e,
                pos,
                v',
                at',
                subst (λ r. IsChain values' r (drop k (l ∷ js))) (sym (n ∙ rw (f, nb) refl))
                    (IsChain-drop v.next l js (p, posl, u, atu, c) o.1 (ground (arith, f, m))
                      (λ a w ma b.
                        let (w', b', z) = s a w (ground (arith, ma)) b in (w', b', z ∙ rw f refl))),
              )
        ])
