-- ===== src/Intern/Fresh.antt =====
-- The index that `newIndex` of common/helpers/intern/intern.go gives.
use akvorado.Prelude.{
  ◌++◌, subst, ◌^◌, sym, ap, [], ◌∙◌, arith, length-append, ◌<◌, ℕ, refl, ◌∷◌, ◌≤◌, ◌≡◌, ◌==◌,
}
use akvorado.Intern.{
  true, some, get_elem?, false, length, GoMap, List, ℕ, InternValue, Pool, new_index, blank_slot,
}
use akvorado.Intern.Chain.{mem}
use akvorado.Intern.Pools.{IsOnce, IsPool}
use akvorado.Intern.Slots.{wrap_small, mem_ne, get_elem?-append, get_elem?-lt, get_elem?_end}

module _ {T : Type 0} where
  -- The index is new: no value in use has it, and the pool has not changed elsewhere.
  pub record IsFresh (p : Pool T) (n : ℕ) (grown : Pool T) : Type 0 where
    pub pos : 1 ≤ n
    pub slot : n < length grown.values
    pub rest : (j : ℕ) → (j == n) ≡ false → get_elem? grown.values j ≡ get_elem? p.values j
    pub unused : (v : InternValue T) → get_elem? p.values n ≡ some v → v.ref_count ≡ 0
    pub indexes : grown.value_indexes ≡ p.value_indexes
    pub left :
        (j : ℕ)
        → mem j grown.available_indexes ≡ true
        → (mem j p.available_indexes ≡ true) × ((j == n) ≡ false)
    pub left_once : IsOnce grown.available_indexes

  module _ (null : T) (hash : T → ℕ) (chains : ℕ → List ℕ) where
    new_index-IsFresh_of :
        (values : List (InternValue T)) (ns : List ℕ) (m : GoMap ℕ ℕ)
        → length values < 2 ^ 32
        → let p : Pool T = record { values = values; available_indexes = ns; value_indexes = m } in
          (IsPool hash p chains → IsFresh p (new_index null p).0 (new_index null p).1)
    unfolding new_index
    new_index-IsFresh_of values [] m small h =
        subst
          (λ n.
            IsFresh (record { values = values; available_indexes = []; value_indexes = m }) n
              (record {
                values = values ++ blank_slot null ∷ [];
                available_indexes = [];
                value_indexes = m;
              }))
          (sym (wrap_small (length values) small))
          (record {
            pos = h.reserved;
            slot = rw (length-append values (blank_slot null ∷ [])) (omega arith);
            rest = λ j ne. get_elem?-append values j (blank_slot null) ∙ rw ne refl;
            unused = λ v a. absurd (get_elem?_end values v a);
            indexes = refl;
            left = λ j q. absurd (cc q);
            left_once = tt;
          })
    new_index-IsFresh_of values (n ∷ ns) m small h =
        let (pos, v, at, z) = h.free n (ground arith) in
        record {
          pos = pos;
          slot = get_elem?-lt values n v at;
          rest = λ j ne. refl;
          unused = λ w a. let q : v ≡ w = cc (at, a) in ap (λ u. u.ref_count) (sym q) ∙ z;
          indexes = refl;
          left = λ j q. (ground (arith, q), mem_ne j n ns h.free_once.0 q);
          left_once = h.free_once.1;
        }

    pub new_index-IsFresh :
        (p : Pool T)
        → length p.values < 2 ^ 32
        → IsPool hash p chains
        → IsFresh p (new_index null p).0 (new_index null p).1
    new_index-IsFresh p small h =
        new_index-IsFresh_of p.values p.available_indexes p.value_indexes small h
