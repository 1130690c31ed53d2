-- ===== src/Crt/Search.antt =====
-- bsearch, rand and srand of freedll/src/crt_stdlib.c. `unsigned long` has 32 bits.
pub mod Found
use free_nt.Base.{
  ℕ, zero, suc, ◌+◌, ◌-◌, ◌*◌, ◌/◌, ◌%◌, ◌^◌, Bool, ◌||◌, not, Option, none, some, ltb, ◌==◌,
  if◌then◌else◌, u32, ℤ, pos, negsuc,
}

-- The loop of `freent_bsearch`; `order` is `compar(key, element)` for the element at an address.
unfoldable pub bsearch_from : (fuel : ℕ) → (order : ℕ → ℤ) → (base size low high : ℕ) → Option ℕ
bsearch_from zero order base size low high = none
bsearch_from (suc fuel) order base size low high =
    let mid = low + (high - low) / 2 in
    let lower = bsearch_from fuel order base size low mid in
    let upper = bsearch_from fuel order base size (mid + 1) high in
    if ltb low high
    then elim (order (base + mid * size)) [
      | pos n ↦ if n == 0 then some (base + mid * size) else upper
      | negsuc n ↦ lower
    ]
    else some 0

-- `freent_bsearch`; the pointers are not NULL where they are given, and the result NULL is 0.
unfoldable pub bsearch :
    (fuel : ℕ) → (has_key : Bool) → (compar : Option (ℕ → ℤ)) → (base count size : ℕ) → Option ℕ
bsearch fuel has_key none base count size = some 0
bsearch fuel has_key (some order) base count size =
    if not has_key || base == 0 || size == 0
    then some 0
    else bsearch_from fuel order base size 0 count

-- `freent_rand`: the number and the new state.
unfoldable pub rand : (state : ℕ) → ℕ × ℕ
rand state = let state' = u32 (state * 1103515245 + 12345) in (state' / 2 ^ 16 % 2 ^ 15, state')

-- `freent_srand`: the new state.
unfoldable pub srand : (seed : ℕ) → ℕ
srand seed = u32 seed
