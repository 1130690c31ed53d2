-- ===== src/Crt/Search/Found.antt =====
-- freent_bsearch of freedll/src/crt_stdlib.c against the elements of the array.
use std.Path.{subst}
use free_nt.Base.{
  ℕ, zero, suc, ◌+◌, ◌-◌, ◌*◌, ◌/◌, ◌<◌, ◌≤◌, ◌≡◌, ◌≢◌, ◌⊎◌, inl, inr, refl, ap, true, false,
  Option, some, ltb, ◌==◌, arith, ℤ, pos, negsuc, pos_part, neg_part, dec_lt,
}
use free_nt.Crt.Search.{bsearch_from, bsearch}

module _ (order : ℕ → ℤ) (base size : ℕ) where
  abbrev at : ℕ → ℤ
  at i = order (base + i * size)

  bsearch_end :
      (fuel low high : ℕ) → high ≤ low → bsearch_from (suc fuel) order base size low high ≡ some 0
  unfolding bsearch_from
  bsearch_end fuel low high l =
      let done : ltb low high ≡ false = ground arith in rw (bsearch_from, done) refl

  bsearch_here :
      (fuel low high : ℕ)
      → low < high
      → at (low + (high - low) / 2) ≡ pos 0
      → bsearch_from (suc fuel) order base size low high
        ≡ some (base + (low + (high - low) / 2) * size)
  unfolding bsearch_from
  bsearch_here fuel low high l e =
      let more : ltb low high ≡ true = ground arith in rw (bsearch_from, more, e) refl

  bsearch_above :
      (fuel low high n : ℕ)
      → low < high
      → at (low + (high - low) / 2) ≡ pos (suc n)
      → bsearch_from (suc fuel) order base size low high
        ≡ bsearch_from fuel order base size (low + (high - low) / 2 + 1) high
  unfolding bsearch_from
  bsearch_above fuel low high n l e =
      let more : ltb low high ≡ true = ground arith in
      let other : (suc n == 0) ≡ false = ground arith in rw (bsearch_from, more, e, other) refl

  bsearch_below :
      (fuel low high n : ℕ)
      → low < high
      → at (low + (high - low) / 2) ≡ negsuc n
      → bsearch_from (suc fuel) order base size low high
        ≡ bsearch_from fuel order base size low (low + (high - low) / 2)
  unfolding bsearch_from
  bsearch_below fuel low high n l e =
      let more : ltb low high ≡ true = ground arith in rw (bsearch_from, more, e) refl

  -- The array is in order: a key that comes behind an element comes behind those before it, and a key
  -- that comes before an element comes before those behind it.
  abbrev pub IsOrdered : ℕ → Type 0
  IsOrdered count =
      (i j : ℕ)
      → i < j
      → j < count
      → (pos_part (at j) ≢ 0 → pos_part (at i) ≢ 0) × (neg_part (at i) ≢ 0 → neg_part (at j) ≢ 0)

  -- An element that the comparison takes for equal.
  pub record Found (count : ℕ) (out : Option ℕ) : Type 0 where
    pub index : ℕ
    pub within : index < count
    pub equal : at index ≡ pos 0
    pub returns : out ≡ some (base + index * size)

  -- NULL, and no element is equal.
  pub record Missing (count : ℕ) (out : Option ℕ) : Type 0 where
    pub none_equal : (i : ℕ) → i < count → at i ≢ pos 0
    pub returns : out ≡ some 0

  positive_ne : (z : ℤ) → pos_part z ≢ 0 → z ≢ pos 0
  positive_ne z h e = h (ap pos_part e)

  negative_ne : (z : ℤ) → neg_part z ≢ 0 → z ≢ pos 0
  negative_ne z h e = h (ap neg_part e)

  sign_cases : (z : ℤ) → (z ≡ pos 0) ⊎ ((n : ℕ) × (z ≡ pos (suc n))) ⊎ ((n : ℕ) × (z ≡ negsuc n))
  sign_cases (pos zero) = inl refl
  sign_cases (pos (suc n)) = inr (inl (n, refl))
  sign_cases (negsuc n) = inr (inr (n, refl))

  excluded_up_to :
      (count mid n i : ℕ)
      → mid < count
      → IsOrdered count
      → at mid ≡ pos (suc n)
      → i < mid + 1
      → at i ≢ pos 0
  excluded_up_to count mid n i inside ordered e l =
      let positive : pos_part (at mid) ≢ 0 = λ z. absurd (ground (arith, z, e)) in
      elim (dec_lt i mid) [
        | yes k ↦ positive_ne (at i) ((ordered i mid k inside).0 positive)
        | no k ↦
            let same : mid ≡ i = omega (arith, k, l) in
            positive_ne (at i) (subst (λ j. pos_part (at j) ≢ 0) same positive)
      ]

  excluded_from :
      (count mid n i : ℕ) → IsOrdered count → at mid ≡ negsuc n → mid ≤ i → i < count → at i ≢ pos 0
  excluded_from count mid n i ordered e l within =
      let negative : neg_part (at mid) ≢ 0 = λ z. absurd (ground (arith, z, e)) in
      elim (dec_lt mid i) [
        | yes k ↦ negative_ne (at i) ((ordered mid i k within).1 negative)
        | no k ↦
            let same : mid ≡ i = omega (arith, k, l) in
            negative_ne (at i) (subst (λ j. neg_part (at j) ≢ 0) same negative)
      ]

  bsearch_from-split :
      (fuel low high count : ℕ)
      → high - low < fuel
      → high ≤ count
      → IsOrdered count
      → ((i : ℕ) → i < low → at i ≢ pos 0)
      → ((i : ℕ) → high ≤ i → i < count → at i ≢ pos 0)
      → Found count (bsearch_from fuel order base size low high)
        ⊎ Missing count (bsearch_from fuel order base size low high)
  bsearch_from-split zero low high count enough l ordered before behind = absurd (omega arith)
  bsearch_from-split (suc fuel) low high count enough l ordered before behind =
      elim (dec_lt low high) [
        | no done ↦ inr (record {
          none_equal = λ i within. elim (dec_lt i low) [
            | yes k ↦ before i k
            | no k ↦ behind i (omega (arith, done, k)) within
          ];
          returns = bsearch_end fuel low high (omega (arith, done));
        })
        | yes more ↦
            let mid = low + (high - low) / 2 in
            elim (sign_cases (at mid)) [
              | inl e ↦ inl (record {
                index = mid;
                within = omega (arith, more, l);
                equal = e;
                returns = bsearch_here fuel low high more e;
              })
              | inr (inl (n, e)) ↦ rw (bsearch_above fuel low high n more e) (
                  bsearch_from-split fuel (mid + 1) high count (omega (arith, more, enough)) l
                    ordered
                    (λ i k. excluded_up_to count mid n i (omega (arith, more, l)) ordered e k)
                    behind)
              | inr (inr (n, e)) ↦ rw (bsearch_below fuel low high n more e) (
                  bsearch_from-split fuel low mid count (omega (arith, more, enough))
                    (omega (arith, more, l)) ordered before
                    (λ i k within. excluded_from count mid n i ordered e k within))
            ]
      ]

  -- On an array in order, with more fuel than elements, the search returns: the address of an element
  -- that the comparison takes for equal, or NULL, and then no element is equal.
  pub bsearch-split :
      (fuel count : ℕ)
      → count < fuel
      → base ≢ 0
      → size ≢ 0
      → IsOrdered count
      → Found count (bsearch fuel true (some order) base count size)
        ⊎ Missing count (bsearch fuel true (some order) base count size)
  unfolding bsearch
  bsearch-split fuel count enough based sized ordered =
      let based' : (base == 0) ≡ false = ground arith in
      let sized' : (size == 0) ≡ false = ground arith in
      rw (bsearch, based', sized')
        (bsearch_from-split fuel 0 count count (omega arith) (omega arith) ordered
          (λ i l. absurd (omega (arith, l))) (λ i l k. absurd (omega (arith, l, k))))
