-- ===== src/Intern.antt =====
-- common/helpers/intern/intern.go: a pool of values that are replaced by small numbers. Values with the
-- same hash are chained. `none` is an index out of range, or fuel that ran out; the fuel is an
-- argument.
pub mod Chain
pub mod Pools
pub mod Lookup
pub mod Slots
pub mod Fresh
pub mod Adds
pub mod Links
pub mod Counts
pub mod Puts
pub mod Drops
pub mod Removed
pub mod Unlinked
pub mod Shortened
pub mod Takes
use native.Mathlib.Decide.{ℕ_discrete}
use akvorado.Prelude.{
  ℕ, zero, suc, ◌+◌, ◌-◌, ◌%◌, ◌^◌, Bool, true, false, not, Option, none, some, List, [], ◌∷◌, ◌++◌,
  length, get_elem?, set, ◌==◌, if◌then◌else◌, ◌>>=◌,
}
use akvorado.GoMap
use akvorado.GoMap.{GoMap}

-- `internValue`
pub record InternValue (T : Type 0) : Type 0 where
  pub next : ℕ
  pub ref_count : ℕ
  pub hash : ℕ
  pub value : T

-- `Pool`, with the indexes that are available from the last one.
pub record Pool (T : Type 0) : Type 0 where
  pub values : List (InternValue T)
  pub available_indexes : List ℕ
  pub value_indexes : GoMap ℕ ℕ

module _ {T : Type 0} (null : T) where
  -- A slot that was never written.
  abbrev pub blank_slot : InternValue T
  blank_slot = record { next = 0; ref_count = 0; hash = 0; value = null }

  -- `NewPool`: the first slot is reserved.
  unfoldable pub new_pool : Pool T
  new_pool = record { values = blank_slot ∷ []; available_indexes = []; value_indexes = [] }

  -- `newIndex`, in `Put`. A reference is a uint32.
  unfoldable pub new_index : Pool T → ℕ × Pool T
  new_index p = elim p.available_indexes [
    | [] ↦ (length p.values % 2 ^ 32, record p { values = p.values ++ blank_slot ∷ [] })
    | index ∷ rest ↦ (index, record p { available_indexes = rest })
  ]

module _ {T : Type 0} where
  -- The head of the chain of a hash, 0 where there is none.
  unfoldable pub head_of : Pool T → ℕ → ℕ
  head_of p h = elim (GoMap.get ℕ_discrete h p.value_indexes) [ none ↦ 0 | some index ↦ index ]

  -- `Get`
  unfoldable pub get : Pool T → ℕ → Option T
  get p index = do v ← get_elem? p.values index; some v.value

  -- `p.values[index].next = next`
  unfoldable pub set_next : ℕ → ℕ → List (InternValue T) → Option (List (InternValue T))
  set_next index next values = do
    v ← get_elem? values index
    some (set values index (record v { next = next }))

  -- The loop of `Take` that looks for the predecessor.
  unfoldable pub predecessor : ℕ → List (InternValue T) → ℕ → ℕ → Option ℕ
  predecessor zero values prev index = none
  predecessor (suc fuel) values prev index = do
    v ← get_elem? values prev
    let rest = predecessor fuel values v.next index
    if v.next == index then some prev else rest

  -- The value at an index leaves its chain.
  unfoldable pub unlink : ℕ → ℕ → InternValue T → Pool T → Option (Pool T)
  unfolding head_of predecessor set_next
  unlink fuel index v p =
      if head_of p v.hash == index
      then some (record p {
        value_indexes =
            if v.next == 0
            then GoMap.delete ℕ_discrete v.hash p.value_indexes
            else GoMap.put ℕ_discrete v.hash v.next p.value_indexes;
      })
      else (do
        prev ← predecessor fuel p.values (head_of p v.hash) index
        values ← set_next prev v.next p.values
        some (record p { values = values }))

  -- `Take`. The count is a uint32.
  unfoldable pub take : ℕ → ℕ → Pool T → Option (Pool T)
  unfolding unlink
  take fuel index p = do
    v ← get_elem? p.values index
    let count = (v.ref_count + 2 ^ 32 - 1) % 2 ^ 32
    let counted = record p { values = set p.values index (record v { ref_count = count }) }
    if count == 0
        then unlink fuel index v
            (record counted { available_indexes = index ∷ p.available_indexes })
        else some counted

  -- `Len`
  unfoldable pub len : Pool T → ℕ
  len p = length p.values - length p.available_indexes - 1

  module _ (hash : T → ℕ) (equal : T → T → Bool) where
    -- The loop over a chain: the index of the value, or the last index of the chain.
    unfoldable pub walk : ℕ → List (InternValue T) → T → ℕ → ℕ → Option (Bool × ℕ)
    walk zero values x prev index = none
    walk (suc fuel) values x prev index = if index == 0 then some (false, prev) else (do
      v ← get_elem? values index
      let rest = walk fuel values x index v.next
      if equal v.value x then some (true, index) else rest)

    -- `Ref`
    unfoldable pub ref : ℕ → T → Pool T → Option (ℕ × Bool)
    unfolding walk head_of
    ref fuel x p = do
      r ← walk fuel p.values x 0 (head_of p (hash x))
      some (if r.0 then (r.1, true) else (0, false))

    -- `p.values[index].refCount++`, a uint32.
    unfoldable pub count_up : ℕ → Pool T → Option (Pool T)
    count_up index p = do
      v ← get_elem? p.values index
      some (record p {
        values = set p.values index (record v { ref_count = (v.ref_count + 1) % 2 ^ 32 });
      })

    -- `Put`: the reference, and the pool.
    unfoldable pub put : T → ℕ → T → Pool T → Option (ℕ × Pool T)
    unfolding walk head_of new_index set_next count_up
    put null fuel x p =
        let v : InternValue T = record { next = 0; ref_count = 1; hash = hash x; value = x } in
        let head = head_of p (hash x) in
        let (index, grown) = new_index null p in
        if head == 0
        then some (
          index,
          record grown {
            values = set grown.values index v;
            value_indexes = GoMap.put ℕ_discrete (hash x) index grown.value_indexes;
          },
        )
        else (walk fuel p.values x head head >>= λ (r : Bool × ℕ).
            (if r.0
              then (count_up r.1 p >>= λ counted. some (r.1, counted))
              else (set_next r.1 index grown.values >>= λ values.
                  some (index, record grown { values = set values index v }))))
