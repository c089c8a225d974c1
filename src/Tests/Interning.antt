-- ===== src/Tests/Interning.antt =====
-- Tests and examples for common/helpers/intern.
use native.Mathlib.Decide.{ℕ_discrete}
use akvorado.Prelude.{
  ◌∙◌, sym, subst, Option, ℕ, zero, suc, ◌%◌, ◌<◌, ◌≡◌, refl, Bool, true, false, some, List, [],
  ◌∷◌, ◌==◌, if◌then◌else◌, arith, Returns, ap, ==_iff, Bool-cases, inl, inr, get_elem?, ◌>>=◌,
}
use akvorado.GoMap
use akvorado.Intern.{InternValue, Pool, new_pool, blank_slot, put, ref, take, head_of}
use akvorado.Intern.Chain.{IsChain, mem}
use akvorado.Intern.Pools.{IsPool, IsOnce}
use akvorado.Intern.Lookup.{IsReference, ref-Returns}
use akvorado.Intern.Puts.{IsPut}
use akvorado.Intern.Takes.{IsTaken, take-Returns}
use akvorado.Intern.Puts.Run.{put-Returns}

-- Numbers with the same last digit collide.
abbrev digit : ℕ → ℕ
digit x = x % 10

abbrev slot : ℕ → ℕ → ℕ → InternValue ℕ
slot next count x = record { next = next; ref_count = count; hash = digit x; value = x }

-- Two values of one chain.
abbrev colliding : Pool ℕ
colliding = record {
  values = blank_slot 0 ∷ slot 2 2 5 ∷ slot 0 1 15 ∷ [];
  available_indexes = [];
  value_indexes = (5, 1) ∷ [];
}

abbrev add : ℕ → Pool ℕ → Option (Pool ℕ)
add x p = put digit (λ a b. a == b) 0 3 x p >>= λ r. some r.1

puts_collide : (add 5 (new_pool 0) >>= λ p. add 15 p >>= λ q. add 5 q) ≡ some colliding
unfolding put GoMap.get new_pool GoMap.put ℕ_discrete GoMap.delete
puts_collide = refl

abbrev chains_of : ℕ → List ℕ
chains_of h = if h == 5 then 1 ∷ 2 ∷ [] else []

head_of-colliding : (h : ℕ) → head_of colliding h ≡ (if h == 5 then 1 else 0)
unfolding head_of GoMap.get
head_of-colliding h = ground arith

colliding-IsChain : (h : ℕ) → IsChain colliding.values (head_of colliding h) (chains_of h)
colliding-IsChain h =
    subst (λ i. IsChain colliding.values i (chains_of h)) (sym (head_of-colliding h)) (go (h == 5))
  where
    go : (b : Bool) → IsChain colliding.values (if b then 1 else 0) (if b then 1 ∷ 2 ∷ [] else [])
    go true = (refl, omega arith, slot 2 2 5, refl, (refl, omega arith, slot 0 1 15, refl, refl))
    go false = refl

colliding-IsOnce : (h : ℕ) → IsOnce (chains_of h)
colliding-IsOnce h = go (h == 5)
  where
    go : (b : Bool) → IsOnce (if b then 1 ∷ 2 ∷ [] else [])
    go true = (refl, (refl, tt))
    go false = tt

mem-chains_of : (i h : ℕ) → mem i (chains_of h) ≡ true → (h ≡ 5) × (mem i (1 ∷ 2 ∷ []) ≡ true)
mem-chains_of i h m = elim (Bool-cases (h == 5)) [
  | inl e ↦ ((==_iff h 5).0 e, sym (ap (λ b. mem i (if b then 1 ∷ 2 ∷ [] else [])) e) ∙ m)
  | inr e ↦ absurd (cc (sym (ap (λ b. mem i (if b then 1 ∷ 2 ∷ [] else [])) e) ∙ m))
]

colliding_used :
    (h i : ℕ)
    → mem i (chains_of h) ≡ true
    → (v : InternValue ℕ) × (get_elem? colliding.values i ≡ some v)
      × 0 < v.ref_count
      × (digit v.value ≡ h)
      × (v.hash ≡ h)
colliding_used h zero m = absurd (cc (mem-chains_of 0 h m).1)
colliding_used h (suc zero) m =
    (slot 2 2 5, refl, omega arith, sym (mem-chains_of 1 h m).0, sym (mem-chains_of 1 h m).0)
colliding_used h (suc (suc zero)) m =
    (slot 0 1 15, refl, omega arith, sym (mem-chains_of 2 h m).0, sym (mem-chains_of 2 h m).0)
colliding_used h (suc (suc (suc i))) m =
    absurd (ground (arith, (mem-chains_of (suc (suc (suc i))) h m).1))

inj : {v w : InternValue ℕ} → some v ≡ some w → v ≡ w
inj e = cc e

colliding_chained :
    (i : ℕ) (v : InternValue ℕ)
    → get_elem? colliding.values i ≡ some v
    → 0 < v.ref_count
    → mem i (chains_of (digit v.value)) ≡ true
colliding_chained zero v at pos =
    subst (λ w. 0 < w.ref_count → mem 0 (chains_of (digit w.value)) ≡ true) (inj at)
      (λ z. elim z [ ]) pos
colliding_chained (suc zero) v at pos =
    subst (λ w. mem 1 (chains_of (digit w.value)) ≡ true) (inj at) refl
colliding_chained (suc (suc zero)) v at pos =
    subst (λ w. mem 2 (chains_of (digit w.value)) ≡ true) (inj at) refl
colliding_chained (suc (suc (suc i))) v at pos = cc

colliding-IsPool : IsPool digit colliding chains_of
colliding-IsPool = record {
  chain = colliding-IsChain;
  once = colliding-IsOnce;
  used = colliding_used;
  chained = colliding_chained;
  free = λ i m. cc;
  free_once = tt;
  reserved = omega arith;
}

ref-Returns_example :
    Returns
      (IsReference digit (λ a b. a == b) 15 colliding)
      (ref digit (λ a b. a == b) 3 15 colliding)
ref-Returns_example =
    ref-Returns digit (λ a b. a == b) (λ a b e. ap digit ((==_iff a b).0 e)) 15 colliding chains_of
      colliding-IsPool 3 (omega arith)

put-Returns_example :
    Returns (IsPut digit (λ a b. a == b) 25 colliding) (put digit (λ a b. a == b) 0 3 25 colliding)
put-Returns_example =
    put-Returns digit (λ a b. a == b) (λ a. ground arith) 25 colliding chains_of colliding-IsPool
      (omega arith) (omega arith, (omega arith, (omega arith, tt))) 0 3 (omega arith)

-- The second value of the chain, whose count is one.
take-Returns_example : Returns (IsTaken digit 2 colliding) (take 3 2 colliding)
take-Returns_example =
    take-Returns digit colliding chains_of colliding-IsPool 2 (slot 0 1 15) refl (omega arith) 3
      (omega arith) (omega arith)
