-- ===== src/Intern/Slots.antt =====
-- Changes of the slots of a pool of common/helpers/intern/intern.go, and what the chains keep.
use akvorado.Prelude.{
  ◌^◌, ◌%◌, refl, zero, suc, ◌≢◌, ◌||◌, ◌<◌, ℕ, ◌≤◌, ◌≡◌, sym, ◌∙◌, subst, true, false, some, List,
  [], ◌∷◌, ◌++◌, get_elem?, length, set, ◌==◌, if◌then◌else◌, arith, Bool-cases, inl, inr, ==_iff,
  get_elem?-set_self, get_elem?-set_ne,
}
use akvorado.Intern.{InternValue}
use akvorado.Intern.Chain.{IsChain, mem}
use akvorado.Intern.Pools.{IsOnce}

pub ne_of : (a b : ℕ) → (a == b) ≡ false → a ≢ b
ne_of a b = ground arith

pub wrap_small : (n : ℕ) → n < 2 ^ 32 → n % 2 ^ 32 ≡ n
wrap_small n h = omega arith

module _ {A : Type 0} where
  pub get_elem?-lt : (xs : List A) (i : ℕ) (v : A) → get_elem? xs i ≡ some v → i < length xs
  get_elem?-lt [] i v h = cc
  get_elem?-lt (x ∷ xs) zero v h = omega arith
  get_elem?-lt (x ∷ xs) (suc i) v h = omega (arith, get_elem?-lt xs i v h)

  pub get_elem?-set :
      (xs : List A) (k j : ℕ) (v : A)
      → k < length xs
      → get_elem? (set xs k v) j ≡ (if j == k then some v else get_elem? xs j)
  get_elem?-set xs k j v h = elim (Bool-cases (j == k)) [
    | inl e ↦ rw (e, (==_iff j k).0 e) (get_elem?-set_self xs k v h)
    | inr e ↦ rw e (get_elem?-set_ne xs v (λ q. ne_of j k e (sym q)))
  ]

  -- One more element, at the end.
  pub get_elem?-append :
      (xs : List A) (j : ℕ) (v : A)
      → get_elem? (xs ++ v ∷ []) j ≡ (if j == length xs then some v else get_elem? xs j)
  get_elem?-append [] zero v = refl
  get_elem?-append [] (suc j) v = ground arith
  get_elem?-append (x ∷ xs) zero v = ground arith
  get_elem?-append (x ∷ xs) (suc j) v = rw (get_elem?-append xs j v) (ground arith)

  pub get_elem?_end : (xs : List A) (v : A) → get_elem? xs (length xs) ≡ some v → ⊥
  get_elem?_end xs v h = omega (arith, get_elem?-lt xs (length xs) v h)

pub mem-append : (i n : ℕ) (js : List ℕ) → mem i (js ++ n ∷ []) ≡ (mem i js || (i == n))
mem-append i n [] = ground arith
mem-append i n (j ∷ js) = rw (mem-append i n js) (ground arith)

pub append-IsOnce : (n : ℕ) (js : List ℕ) → IsOnce js → mem n js ≡ false → IsOnce (js ++ n ∷ [])
append-IsOnce n [] o m = (refl, tt)
append-IsOnce n (j ∷ js) o m =
    (rw (mem-append j n js) (ground (arith, o, m)), append-IsOnce n js o.1 (ground (arith, m)))

-- The list of values has the same links at the indexes.
abbrev pub KeepsLinks : {T : Type 0} → List (InternValue T) → List (InternValue T) → List ℕ → Type 0
KeepsLinks {T} values values' js =
    (j : ℕ) (v : InternValue T)
    → mem j js ≡ true
    → get_elem? values j ≡ some v
    → (v' : InternValue T) × (get_elem? values' j ≡ some v') × (v'.next ≡ v.next)

-- The last index of a list.
abbrev pub LastIs : ℕ → List ℕ → Type 0
LastIs last [] = ⊥
LastIs last (j ∷ []) = last ≡ j
LastIs last (j ∷ k ∷ js) = LastIs last (k ∷ js)

pub LastIs-mem : (last : ℕ) (js : List ℕ) → LastIs last js → mem last js ≡ true
LastIs-mem last [] h = absurd h
LastIs-mem last (j ∷ []) h = ground (arith, h)
LastIs-mem last (j ∷ k ∷ js) h = ground (arith, LastIs-mem last (k ∷ js) h)

pub mem_ne : (j n : ℕ) (ns : List ℕ) → mem n ns ≡ false → mem j ns ≡ true → (j == n) ≡ false
mem_ne j n ns h k = elim (Bool-cases (j == n)) [
  | inr e ↦ e
  | inl e ↦ absurd (cc (h, k, (==_iff j n).0 e))
]

last_ne : (j last : ℕ) (js : List ℕ) → mem j js ≡ false → mem last js ≡ true → (j == last) ≡ false
last_ne j last js h k = elim (Bool-cases (j == last)) [
  | inr e ↦ e
  | inl e ↦ absurd (cc (h, k, (==_iff j last).0 e))
]

module _ {T : Type 0} (values values' : List (InternValue T)) where
  -- A chain only depends on its links.
  pub KeepsLinks-IsChain :
      (i : ℕ) (js : List ℕ)
      → KeepsLinks values values' js
      → IsChain values i js
      → IsChain values' i js
  KeepsLinks-IsChain i [] k c = c
  KeepsLinks-IsChain i (j ∷ js) k (p, pos, v, at, c) =
      let (v', at', e) = k j v (ground arith) at in
      (
        p,
        pos,
        v',
        at',
        subst (λ n. IsChain values' n js) (sym e)
            (KeepsLinks-IsChain v.next js (λ l w m. k l w (ground (arith, m))) c),
      )

  -- A chain gets another index at its end.
  pub IsChain-extend :
      (i last n : ℕ) (js : List ℕ)
      → 1 ≤ n
      → IsChain values i js
      → IsOnce js
      → ((j : ℕ) (v : InternValue T)
          → mem j js ≡ true
          → get_elem? values j ≡ some v
          → (v' : InternValue T) × (get_elem? values' j ≡ some v')
            × (v'.next ≡ (if j == last then n else v.next)))
      → (w : InternValue T) → get_elem? values' n ≡ some w
      → w.next ≡ 0
      → LastIs last js
      → IsChain values' i (js ++ n ∷ [])
  IsChain-extend i last n [] pos c once k w at e l = absurd l
  IsChain-extend i last n (j ∷ []) pos (p, q, v, at0, c) once k w at e l =
      let (v', at', f) = k j v (ground arith) at0 in
      let g : v'.next ≡ n = f ∙ ground (arith, l) in (p, q, v', at', (g, pos, w, at, e))
  IsChain-extend i last n (j ∷ j2 ∷ js) pos (p, q, v, at0, c) once k w at e l =
      let (v', at', f) = k j v (ground arith) at0 in
      let ne : (j == last) ≡ false =
        last_ne j last (j2 ∷ js) once.0 (LastIs-mem last (j2 ∷ js) l) in
      let g : v'.next ≡ v.next = f ∙ ground (arith, ne) in
      (
        p,
        q,
        v',
        at',
        subst (λ m. IsChain values' m ((j2 ∷ js) ++ n ∷ [])) (sym g)
            (IsChain-extend v.next last n (j2 ∷ js) pos c once.1
              (λ a b m. k a b (ground (arith, m))) w at e l),
      )
