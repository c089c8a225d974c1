-- ===== src/Intern/Shortened.antt =====
-- `Take` of common/helpers/intern/intern.go, for a value that is not the first of its chain.
use akvorado.Prelude.{
  ℕ, refl, ◌<◌, ◌≡◌, ◌==◌, ◌∙◌, sym, subst, ap, true, false, some, List, ◌∷◌, get_elem?, set,
  if◌then◌else◌, arith, Bool-cases, inl, inr, ==_iff,
}
use akvorado.Intern.{InternValue, Pool, head_of}
use akvorado.Intern.Chain.{mem, IsChain}
use akvorado.Intern.Pools.{IsOnce, IsPool}
use akvorado.Intern.Slots.{get_elem?-lt, get_elem?-set, KeepsLinks-IsChain, ne_of}
use akvorado.Intern.Adds.{Agree}
use akvorado.Intern.Drops.{drop, drop_missing, before, before-mem, IsChain-drop}
use akvorado.Intern.Removed.{IsRemoved}
use akvorado.Intern.Unlinked.{cleared, cleared_read, cleared_at, cleared-IsChain, only_chain}

module _ {T : Type 0} (hash : T → ℕ) (p : Pool T) (chains : ℕ → List ℕ)
    (pool : IsPool hash p chains) (k : ℕ) (v : InternValue T) (at : get_elem? p.values k ≡ some v)
    (pos : 0 < v.ref_count) (b : ℕ) (vb : InternValue T) (at_b : get_elem? p.values b ≡ some vb)
    (ne : (b == k) ≡ false) where
  abbrev skipping : InternValue T
  skipping = record vb { next = v.next }

  -- The predecessor leads to the next index.
  abbrev pub shortened : Pool T
  shortened = record (cleared hash p chains pool k v at pos) {
    values = set (cleared hash p chains pool k v at pos).values b (record vb { next = v.next });
  }

  pub cleared_before : get_elem? (cleared hash p chains pool k v at pos).values b ≡ some vb
  cleared_before = cleared_read hash p chains pool k v at pos b ∙ rw ne at_b

  skip_read :
      (j : ℕ)
      → get_elem? shortened.values j ≡ (
          if j == b
          then some skipping
          else get_elem? (cleared hash p chains pool k v at pos).values j)
  skip_read j =
      get_elem?-set (cleared hash p chains pool k v at pos).values b j skipping
        (get_elem?-lt (cleared hash p chains pool k v at pos).values b vb cleared_before)

  shortened_read :
      (j : ℕ)
      → (j == k) ≡ false
      → get_elem? shortened.values j ≡ (if j == b then some skipping else get_elem? p.values j)
  shortened_read j e =
      skip_read j
      ∙ ap (λ o. if j == b then some skipping else o)
          (cleared_read hash p chains pool k v at pos j ∙ rw e refl)

  not_before : (k == b) ≡ false
  not_before = ground (arith, ne)

  pub shortened-IsRemoved : IsRemoved p shortened k
  shortened-IsRemoved = record {
    unused = (
      record v { ref_count = 0 },
      skip_read k ∙ rw not_before (cleared_at hash p chains pool k v at pos),
      refl,
    );
    forth = λ j w e a. elim (Bool-cases (j == b)) [
      | inl f ↦
          let q : vb ≡ w = cc (at_b, a, (==_iff j b).0 f) in
          (
            skipping,
            shortened_read j e ∙ rw f refl,
            subst (λ u. Agree u skipping) q (refl, refl, refl),
          )
      | inr f ↦ (w, shortened_read j e ∙ rw f a, (refl, refl, refl))
    ];
    back = λ j w e a. elim (Bool-cases (j == b)) [
      | inl f ↦
          let q : some skipping ≡ some w = sym (shortened_read j e ∙ rw f refl) ∙ a in
          let r : skipping ≡ w = cc q in
          (
            vb,
            subst (λ i. get_elem? p.values i ≡ some vb) (sym ((==_iff j b).0 f)) at_b,
            subst (Agree vb) r (refl, refl, refl),
          )
      | inr f ↦ (w, sym (shortened_read j e ∙ rw f refl) ∙ a, (refl, refl, refl))
    ];
  }

  skip_links :
      (j : ℕ) (w : InternValue T)
      → get_elem? (cleared hash p chains pool k v at pos).values j ≡ some w
      → (w' : InternValue T) × (get_elem? shortened.values j ≡ some w')
        × (w'.next ≡ (if j == b then v.next else w.next))
  skip_links j w a = elim (Bool-cases (j == b)) [
    | inl f ↦ (skipping, skip_read j ∙ rw f refl, rw f refl)
    | inr f ↦ (w, skip_read j ∙ rw f a, rw f refl)
  ]

  -- The predecessor is in the chain of the value only.
  other_ne :
      (h j first : ℕ) (js : List ℕ)
      → (h == v.hash) ≡ false
      → chains v.hash ≡ first ∷ js
      → mem k js ≡ true
      → b ≡ before k first js
      → mem j (chains h) ≡ true
      → (j == b) ≡ false
  other_ne h j first js e split m q n = elim (Bool-cases (j == b)) [
    | inr f ↦ f
    | inl f ↦
        let there : mem b (chains v.hash) ≡ true =
          subst (λ l. mem b l ≡ true) (sym split)
            (subst (λ c. mem c (first ∷ js) ≡ true) (sym q) (before-mem k first js)) in
        let (w, a, c, hw, hs) = pool.used h j n in
        let (u, a', d, hu, ht) = pool.used v.hash b there in
        let same : w ≡ u = cc (a, a', (==_iff j b).0 f) in
        absurd (ne_of h v.hash e (sym hw ∙ ap (λ r. hash r.value) same ∙ hu))
  ]

  pub shortened-IsChain :
      (first : ℕ) (js : List ℕ)
      → chains v.hash ≡ first ∷ js
      → mem k js ≡ true
      → b ≡ before k first js
      → (h : ℕ) → IsChain shortened.values (head_of p h) (drop k (chains h))
  shortened-IsChain first js split m q h = elim (Bool-cases (h == v.hash)) [
    | inl e ↦
        let s : chains h ≡ first ∷ js = ap chains ((==_iff h v.hash).0 e) ∙ split in
        subst (λ l. IsChain shortened.values (head_of p h) (drop k l)) (sym s)
          (IsChain-drop k (record v { ref_count = 0 })
            (cleared hash p chains pool k v at pos).values shortened.values
            (cleared_at hash p chains pool k v at pos) (head_of p h) first js
            (subst (IsChain (cleared hash p chains pool k v at pos).values (head_of p h)) s
              (cleared-IsChain hash p chains pool k v at pos h))
            (subst IsOnce s (pool.once h)) m
            (λ j w n a.
              subst
                (λ c.
                  (w' : InternValue T) × (get_elem? shortened.values j ≡ some w')
                  × (w'.next ≡ (if j == c then v.next else w.next)))
                q (skip_links j w a)))
    | inr e ↦
        let away = only_chain hash p chains pool k v at pos h e in
        subst (IsChain shortened.values (head_of p h)) (sym (drop_missing k (chains h) away)) (
          KeepsLinks-IsChain (cleared hash p chains pool k v at pos).values shortened.values
            (head_of p h) (chains h)
            (λ j w n a.
              let (w', a', z) = skip_links j w a in
              (w', a', z ∙ rw (other_ne h j first js e split m q n) refl))
            (cleared-IsChain hash p chains pool k v at pos h))
  ]
