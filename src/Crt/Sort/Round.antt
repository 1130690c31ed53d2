-- ===== src/Crt/Sort/Round.antt =====
-- freent_qsort of freedll/src/crt_string.c on two elements: the rounds of its inner loop.
use native.Mathlib.Nat.{div-eq_of_lt, div-lt_self, div_self}
use free_nt.Base.{
  ℕ, suc, ◌+◌, ◌-◌, ◌*◌, ◌/◌, ◌^◌, ◌<◌, ◌≤◌, ◌≡◌, refl, ap, ap₂, ◌∙◌, true, false, some, ltb, leb,
  ◌==◌, u64, is_negative, arith,
}
use free_nt.Crt.Memory.{Bytes}
use free_nt.Crt.Sort.{
  Compar, is_positive, elements, swap_bytes, next_up, next_down, partition, median_of_three,
  SortStack, push_range, push_parts, next_lo, sort_parts, sort_round, sort_range,
}

pub push_parts_full :
    (s : SortStack) (lo mid hi size i j : ℕ)
    → 2 ≤ s.stack_ptr
    → ltb (push_parts s lo mid hi size i j).stack_ptr 2 ≡ false
unfolding push_parts push_range
push_parts_full s lo mid hi size i j h = ground arith

div_none : (a n : ℕ) → a < n → a / n ≡ 0
div_none a n h = div-eq_of_lt h

div_one : (n : ℕ) → 0 < n → n / n ≡ 1
div_one n h = div_self h

module _ (compar : Compar) (m : Bytes) (base size : ℕ) where
  abbrev other : ℕ
  other = base + size

  median_ascending :
      is_positive (compar m base base) ≡ false
      → is_positive (compar m base other) ≡ false
      → median_of_three compar m base base other ≡ (base, base, other)
  unfolding median_of_three
  median_ascending same ordered = rw (median_of_three, same, ordered, ordered) refl

  median_descending :
      is_positive (compar m base base) ≡ false
      → is_positive (compar m base other) ≡ true
      → median_of_three compar m base base other ≡ (other, base, base)
  unfolding median_of_three
  median_descending same ordered = rw (median_of_three, same, ordered, same) refl

  partition_over :
      (fuel lo mid hi i j : ℕ)
      → j < i
      → partition (suc fuel) compar m lo mid hi size i j ≡ some (m, i, j)
  unfolding partition
  partition_over fuel lo mid hi i j l =
      let done : leb i j ≡ false = ground arith in rw (partition, done) refl

module _ (compar : Compar) (m : Bytes) (base size : ℕ) (some_size : 0 < size)
    (in_memory : base + size < 2 ^ 64) where
  next_up_stays :
      (fuel : ℕ)
      → is_negative (compar m (base + size) base) ≡ false
      → next_up (suc fuel) compar m base base size 1 ≡ some 1
  unfolding next_up
  next_up_stays fuel ordered =
      let place : u64 (base + 1 * size) ≡ base + size = omega arith in
      rw (next_up, place, ordered) refl

  next_down_stays :
      (fuel : ℕ)
      → is_positive (compar m base base) ≡ false
      → next_down (suc fuel) compar m (base + size) base size 1 ≡ some 1
  unfolding next_down
  next_down_stays fuel ordered =
      let place : u64 (base + size + 2 ^ 64 - u64 (1 * size)) ≡ base = omega arith in
      rw (next_down, place, ordered) refl

  partition_ascending :
      (fuel : ℕ)
      → is_positive (compar m base base) ≡ false
      → is_negative (compar m (base + size) base) ≡ false
      → partition (suc (suc fuel)) compar m base base (base + size) size 1 1
        ≡ some (swap_bytes size m (base + size) base, 2, 0)
  unfolding partition
  partition_ascending fuel same ordered =
      let left : u64 (base + 1 * size) ≡ base + size = omega arith in
      let right : u64 (base + size + 2 ^ 64 - u64 (1 * size)) ≡ base = omega arith in
      let apart : (base + size == base) ≡ false = ground arith in
      let swapped = swap_bytes size m (base + size) base in
      rw (partition, next_up_stays fuel ordered, next_down_stays fuel same, left, right, apart)
        (partition_over compar swapped base size fuel base base (base + size) 2 0 (omega arith))

  middle : (base + size - base) / (size * 2) * size ≡ 0
  middle = ap (λ x. x * size) (div_none (base + size - base) (size * 2) (omega arith)) ∙ omega arith

  one_apart : elements (base + size) base size ≡ 1
  one_apart =
      let apart : u64 (base + size + 2 ^ 64 - base) ≡ size = omega arith in
      rw apart (div_one size some_size)

  none_apart : elements base base size ≡ 0
  none_apart =
      let apart : u64 (base + 2 ^ 64 - base) ≡ 0 = omega arith in
      rw apart (div_none 0 size some_size)

  next_lo_above : (lo mid hi i j : ℕ) → j < i → next_lo lo mid hi size i j ≡ u64 (mid + size)
  next_lo_above lo mid hi i j l = let over : leb i j ≡ false = ground arith in rw over refl

  sort_parts_lem :
      (fuel : ℕ) (s : SortStack) (lo mid hi i j : ℕ) (m' : Bytes)
      → partition fuel compar m lo mid hi size
          (u64 (elements mid lo size + 1))
          (elements hi mid size)
        ≡ some (m', i, j)
      → sort_parts fuel compar m s size (lo, mid, hi)
        ≡ some (m', push_parts s lo mid hi size i j, next_lo lo mid hi size i j, hi)
  unfolding sort_parts
  sort_parts_lem fuel s lo mid hi i j m' parted = rw (sort_parts, parted) refl

  sort_round_lem :
      (fuel : ℕ) (s : SortStack) (lo mid hi i j : ℕ) (m' : Bytes)
      → median_of_three compar m base base (base + size) ≡ (lo, mid, hi)
      → partition fuel compar m lo mid hi size
          (u64 (elements mid lo size + 1))
          (elements hi mid size)
        ≡ some (m', i, j)
      → sort_round fuel compar m s base (base + size) size
        ≡ some (m', push_parts s lo mid hi size i j, next_lo lo mid hi size i j, hi)
  unfolding sort_round
  sort_round_lem fuel s lo mid hi i j m' chosen parted =
      let at : base + (base + size - base) / (size * 2) * size ≡ base = omega (arith, middle) in
      let chosen' : median_of_three compar m base (base + (base + size - base) / (size * 2) * size)
            (base + size)
          ≡ (lo, mid, hi) =
        ap (λ x. median_of_three compar m base x (base + size)) at ∙ chosen in
      ap (λ t. sort_parts fuel compar m s size t) chosen'
      ∙ sort_parts_lem fuel s lo mid hi i j m' parted

  pub sort_range_round :
      (fuel : ℕ) (s s' : SortStack) (lo hi : ℕ) (m' : Bytes)
      → sort_round (suc fuel) compar m s base (base + size) size ≡ some (m', s', lo, hi)
      → hi ≤ lo
      → sort_range (suc (suc fuel)) compar m s base (base + size) size ≡ some (m', s')
  unfolding sort_range
  sort_range_round fuel s s' lo hi m' ran over =
      let more : ltb base (base + size) ≡ true = ground arith in
      let done : ltb lo hi ≡ false = ground arith in rw (sort_range, more, ran, done) refl

  pub round_ascending :
      (fuel : ℕ) (s : SortStack)
      → is_positive (compar m base base) ≡ false
      → is_positive (compar m base (base + size)) ≡ false
      → is_negative (compar m (base + size) base) ≡ false
      → sort_round (suc (suc fuel)) compar m s base (base + size) size
        ≡ some (
          swap_bytes size m (base + size) base,
          push_parts s base base (base + size) size 2 0,
          base + size,
          base + size,
        )
  round_ascending fuel s same ordered ordered' =
      let swapped = swap_bytes size m (base + size) base in
      let first : u64 (elements base base size + 1) ≡ 1 = omega (arith, none_apart) in
      let parted : partition (suc (suc fuel)) compar m base base (base + size) size
            (u64 (elements base base size + 1)) (elements (base + size) base size)
          ≡ some (swapped, 2, 0) =
        ap₂ (λ i j. partition (suc (suc fuel)) compar m base base (base + size) size i j) first
          one_apart
        ∙ partition_ascending fuel same ordered' in
      let next : u64 (base + size) ≡ base + size = omega arith in
      sort_round_lem (suc (suc fuel)) s base base (base + size) 2 0 swapped
        (median_ascending compar m base size same ordered) parted
      ∙ ap (λ x. some (swapped, push_parts s base base (base + size) size 2 0, x, base + size)) next

  -- The first index is not 0 for elements of two bytes or more.
  first_far : 1 < size → 0 < u64 (elements base (base + size) size + 1)
  first_far wide =
      let apart : u64 (base + 2 ^ 64 - (base + size)) ≡ 2 ^ 64 - size = omega arith in
      let less = div-lt_self {n = 2 ^ 64 - size} {k = size} (omega arith) wide in
      rw apart (omega (arith, less))

  pub round_descending :
      (fuel : ℕ) (s : SortStack)
      → 1 < size
      → is_positive (compar m base base) ≡ false
      → is_positive (compar m base (base + size)) ≡ true
      → sort_round (suc fuel) compar m s base (base + size) size
        ≡ some (
          m,
          push_parts s (base + size) base base size (u64 (elements base (base + size) size + 1)) 0,
          base + size,
          base,
        )
  round_descending fuel s wide same ordered =
      let i = u64 (elements base (base + size) size + 1) in
      let far = first_far wide in
      let parted : partition (suc fuel) compar m (base + size) base base size i
            (elements base base size)
          ≡ some (m, i, 0) =
        ap (λ j. partition (suc fuel) compar m (base + size) base base size i j) none_apart
        ∙ partition_over compar m base size fuel (base + size) base base i 0 far in
      let next : next_lo (base + size) base base size i 0 ≡ base + size =
        next_lo_above (base + size) base base i 0 far
        ∙ (let fits : u64 (base + size) ≡ base + size = omega arith in fits) in
      sort_round_lem (suc fuel) s (base + size) base base i 0 m
        (median_descending compar m base size same ordered) parted
      ∙ ap (λ x. some (m, push_parts s (base + size) base base size i 0, x, base)) next
