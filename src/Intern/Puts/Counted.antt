-- ===== src/Intern/Puts/Counted.antt =====
-- `Put` of common/helpers/intern/intern.go, for a value that is in the pool.
use akvorado.Prelude.{
  ℕ, refl, ◌<◌, ◌≡◌, ◌==◌, ◌∙◌, ◌+◌, ◌%◌, ◌^◌, sym, subst, ap, Bool, true, some, List, get_elem?,
  set, if◌then◌else◌, arith, Bool-cases, inl, inr, ==_iff,
}
use akvorado.Intern.{InternValue, Pool, get}
use akvorado.Intern.Chain.{is_at, is_at_read}
use akvorado.Intern.Pools.{IsPool}
use akvorado.Intern.Slots.{wrap_small}
use akvorado.Intern.Counts.{recounted, recount_read, recount-IsPool}
use akvorado.Intern.Puts.{count_of, IsBelow, IsBelow-get_elem?, IsPut}

module _ {T : Type 0} (hash : T → ℕ) (equal : T → T → Bool) (x : T) (p : Pool T)
    (chains : ℕ → List ℕ) (pool : IsPool hash p chains) (below : IsBelow p.values) (k : ℕ)
    (vk : InternValue T) (at : get_elem? p.values k ≡ some vk) (pos : 0 < vk.ref_count) where
  abbrev more : ℕ
  more = (vk.ref_count + 1) % 2 ^ 32

  more_lem : more ≡ vk.ref_count + 1
  more_lem = wrap_small (vk.ref_count + 1) (IsBelow-get_elem? p.values k vk below at)

  pub more_pos : 0 < more
  more_pos = omega (arith, more_lem)

  abbrev pub counted : Pool T
  counted = record p {
    values = set p.values k (recounted hash p chains pool k vk at pos more more_pos);
  }

  counted_read :
      (j : ℕ)
      → get_elem? counted.values j
        ≡ (if j == k then some (record vk { ref_count = more }) else get_elem? p.values j)
  counted_read = recount_read hash p chains pool k vk at pos more more_pos

  pub counted-IsPut : is_at hash equal p.values x k ≡ true → IsPut hash equal x p (k, counted)
  unfolding count_of get
  counted-IsPut a = record {
    chains = chains;
    pool = recount-IsPool hash p chains pool k vk at pos more more_pos;
    value = (
      vk.value,
      rw (counted_read k) (ground arith),
      sym (is_at_read hash equal p.values x k vk at) ∙ a,
    );
    counts = λ j. elim (Bool-cases (j == k)) [
      | inl e ↦
          let atj : get_elem? p.values j ≡ some vk =
            subst (λ i. get_elem? p.values i ≡ some vk) (sym ((==_iff j k).0 e)) at in
          rw (counted_read j, e, atj) more_lem
      | inr e ↦ rw (counted_read j, e) refl
    ];
    kept = λ j w b q. elim (Bool-cases (j == k)) [
      | inl e ↦
          let same : vk ≡ w = cc (at, b, (==_iff j k).0 e) in
          rw (counted_read j, e) (ap (λ u. some u.value) same)
      | inr e ↦ rw (counted_read j, e, b) refl
    ];
  }
