-- ===== src/Crt/Sort.antt =====
-- freent_qsort of freedll/src/crt_string.c. `compar` reads the elements at two addresses; a difference of
-- pointers is a word of 64 bits, and the size of an element is below 2^30.
pub mod Round
pub mod Pair
use free_nt.Base.{
  ℕ, zero, suc, ◌+◌, ◌-◌, ◌*◌, ◌/◌, ◌%◌, ◌^◌, Bool, true, false, ◌||◌, not, Option, none, some, ltb,
  leb, ◌==◌, if◌then◌else◌, update, u64, ℤ, pos, negsuc, is_negative, pos_part,
}
use free_nt.Crt.Memory.{Bytes}

abbrev pub Compar : Type 0
Compar = Bytes → (p q : ℕ) → ℤ

abbrev pub is_positive : ℤ → Bool
is_positive z = ltb 0 (pos_part z)

-- `a - b` in elements
abbrev pub elements : (a b size : ℕ) → ℕ
elements a b size = u64 (a + 2 ^ 64 - b) / size

-- The loop that swaps two elements byte by byte.
unfoldable pub swap_bytes : (n : ℕ) → Bytes → (p q : ℕ) → Bytes
swap_bytes zero m p q = m
swap_bytes (suc n) m p q = swap_bytes n (update (update m p (m q)) q (m p)) (p + 1) (q + 1)

-- `while (compar(lo + i * size, mid) < 0) i++;`
unfoldable pub next_up : (fuel : ℕ) → Compar → Bytes → (lo mid size i : ℕ) → Option ℕ
next_up zero compar m lo mid size i = none
next_up (suc fuel) compar m lo mid size i =
    let rest = next_up fuel compar m lo mid size (u64 (i + 1)) in
    if is_negative (compar m (u64 (lo + i * size)) mid) then rest else some i

-- `while (compar(hi - j * size, mid) > 0) j--;`
unfoldable pub next_down : (fuel : ℕ) → Compar → Bytes → (hi mid size j : ℕ) → Option ℕ
next_down zero compar m hi mid size j = none
next_down (suc fuel) compar m hi mid size j =
    let rest = next_down fuel compar m hi mid size (u64 (j + 2 ^ 64 - 1)) in
    if is_positive (compar m (u64 (hi + 2 ^ 64 - u64 (j * size))) mid) then rest else some j

-- The exchange of two elements, if they are not the same.
abbrev pub exchange : Bytes → (p q size : ℕ) → Bytes
exchange m p q size = if p == q then m else swap_bytes size m p q

-- `while (i <= j)`
unfoldable pub partition :
    (fuel : ℕ) → Compar → Bytes → (lo mid hi size i j : ℕ) → Option (Bytes × ℕ × ℕ)
unfolding next_up next_down
partition zero compar m lo mid hi size i j = none
partition (suc fuel) compar m lo mid hi size i j = elim (leb i j) [
  | false ↦ some (m, i, j)
  | true ↦ elim (next_up fuel compar m lo mid size i) [
    | none ↦ none
    | some i' ↦ elim (next_down fuel compar m hi mid size j) [
      | none ↦ none
      | some j' ↦ elim (leb i' j') [
        | false ↦ some (m, i', j')
        | true ↦
            let left = u64 (lo + i' * size) in
            let right = u64 (hi + 2 ^ 64 - u64 (j' * size)) in
            partition fuel compar (exchange m left right size) lo mid hi size (u64 (i' + 1))
              (u64 (j' + 2 ^ 64 - 1))
      ]
    ]
  ]
]

-- The pointers lo, mid and hi after the three comparisons, which exchange pointers and not elements.
unfoldable pub median_of_three : Compar → Bytes → (lo mid hi : ℕ) → ℕ × ℕ × ℕ
median_of_three compar m lo mid hi =
    let (lo₁, mid₁) = if is_positive (compar m lo mid) then (mid, lo) else (lo, mid) in
    let (lo₂, hi₂) = if is_positive (compar m lo₁ hi) then (hi, lo₁) else (lo₁, hi) in
    if is_positive (compar m mid₁ hi₂) then (lo₂, hi₂, mid₁) else (lo₂, mid₁, hi₂)

-- The stack: its cells and stack_ptr.
pub record SortStack : Type 0 where
  pub cells : ℕ → ℕ
  pub stack_ptr : ℕ

unfoldable pub push_range : SortStack → (lo hi : ℕ) → SortStack
push_range s lo hi = record {
  cells = update (update s.cells s.stack_ptr lo) (s.stack_ptr + 1) hi;
  stack_ptr = s.stack_ptr + 2;
}

-- The two pushes after a partition.
unfoldable pub push_parts : SortStack → (lo mid hi size i j : ℕ) → SortStack
unfolding push_range
push_parts s lo mid hi size i j =
    let s' = if ltb (elements mid lo size) j then push_range s (u64 (lo + j * size)) hi else s in
    if ltb i (elements hi mid size) then push_range s' (u64 (mid + i * size)) hi else s'

-- `lo` for the next round of the inner loop
abbrev pub next_lo : (lo mid hi size i j : ℕ) → ℕ
next_lo lo mid hi size i j =
    if leb i j
    then (if ltb (elements hi mid size) i then u64 (mid + i * size) else lo)
    else u64 (mid + size)

-- The body of the inner loop behind the choice of the pivot: memory, the stack, and lo and hi.
unfoldable pub sort_parts :
    (fuel : ℕ)
    → Compar
    → Bytes
    → SortStack
    → (size : ℕ) → ℕ × ℕ × ℕ
    → Option (Bytes × SortStack × ℕ × ℕ)
unfolding partition push_parts
sort_parts fuel compar m s size (lo, mid, hi) =
    elim (partition fuel compar m lo mid hi size (u64 (elements mid lo size + 1))
      (elements hi mid size)) [
        | none ↦ none
        | some (m', i, j) ↦
            some (m', push_parts s lo mid hi size i j, next_lo lo mid hi size i j, hi)
      ]

-- The body of the inner loop.
unfoldable pub sort_round :
    (fuel : ℕ) → Compar → Bytes → SortStack → (lo hi size : ℕ) → Option (Bytes × SortStack × ℕ × ℕ)
unfolding sort_parts median_of_three
sort_round fuel compar m s lo hi size =
    sort_parts fuel compar m s size
      (median_of_three compar m lo (lo + (hi - lo) / (size * 2) * size) hi)

-- `while (lo < hi)`
unfoldable pub sort_range :
    (fuel : ℕ) → Compar → Bytes → SortStack → (lo hi size : ℕ) → Option (Bytes × SortStack)
unfolding sort_round
sort_range zero compar m s lo hi size = none
sort_range (suc fuel) compar m s lo hi size = elim (ltb lo hi) [
  | false ↦ some (m, s)
  | true ↦ elim (sort_round fuel compar m s lo hi size) [
    | none ↦ none
    | some (m', s', lo', hi') ↦ sort_range fuel compar m' s' lo' hi' size
  ]
]

-- `while (stack_ptr < 2)`
unfoldable pub sort_stack : (fuel : ℕ) → Compar → Bytes → SortStack → (size : ℕ) → Option Bytes
unfolding sort_range
sort_stack zero compar m s size = none
sort_stack (suc fuel) compar m s size = elim (ltb s.stack_ptr 2) [
  | false ↦ some m
  | true ↦
      elim (sort_range fuel compar m (record s { stack_ptr = s.stack_ptr + 2 })
        (s.cells s.stack_ptr) (s.cells (s.stack_ptr + 1)) size) [
          | none ↦ none
          | some (m', s') ↦ sort_stack fuel compar m' s' size
        ]
]

-- `freent_qsort`; `stack` is what the stack holds before.
unfoldable pub qsort :
    (fuel : ℕ)
    → (compar : Option Compar) → Bytes
    → (stack : ℕ → ℕ) → (base nmemb size : ℕ) → Option Bytes
unfolding sort_stack
qsort fuel none m stack base nmemb size = some m
qsort fuel (some compar) m stack base nmemb size =
    if ltb nmemb 2 || size == 0
    then some m
    else sort_stack fuel compar m
        (record {
          cells = update (update stack 0 base) 1 (base + (nmemb - 1) * size);
          stack_ptr = 0;
        })
        size
