-- ===== src/Crt/Wide.antt =====
-- The wide string functions of freedll/src/crt_string.c. A wide string is the list of its characters
-- before the NUL, or a buffer as a function of the index; the buffers of a call do not overlap.
use free_nt.Base.{
  ℕ, zero, suc, ◌+◌, Bool, false, ◌&&◌, ◌||◌, not, Option, none, some, List, [], ◌∷◌, ◌==◌,
  if◌then◌else◌, update, ℤ, pos, negsuc, sub_ℕ,
}
use free_nt.Crt.Memory.{fill_up}

-- `freent_wcslen`, from index `len` on
unfoldable pub wcslen_from : (fuel : ℕ) → (s : ℕ → ℕ) → (len : ℕ) → Option ℕ
wcslen_from zero s len = none
wcslen_from (suc fuel) s len =
    let rest = wcslen_from fuel s (len + 1) in if s len == 0 then some len else rest

-- `freent_wcscmp`
unfoldable pub wcscmp : List ℕ → List ℕ → ℤ
wcscmp [] [] = pos 0
wcscmp [] (d ∷ ds) = sub_ℕ 0 d
wcscmp (c ∷ cs) [] = sub_ℕ c 0
wcscmp (c ∷ cs) (d ∷ ds) = let rest = wcscmp cs ds in if c == d then rest else sub_ℕ c d

abbrev pub is_zero : ℤ → Bool
is_zero (pos n) = n == 0
is_zero (negsuc n) = false

-- The loop of `freent_wcsncmp`, with `n` characters left.
unfoldable pub wcsncmp_from : (n : ℕ) → (s1 s2 : ℕ → ℕ) → (i : ℕ) → ℤ
wcsncmp_from zero s1 s2 i = sub_ℕ (s1 i) (s2 i)
wcsncmp_from (suc n) s1 s2 i =
    let rest = wcsncmp_from n s1 s2 (i + 1) in
    if s1 i == s2 i && not (n == 0 || s1 i == 0) then rest else sub_ℕ (s1 i) (s2 i)

-- `freent_wcsncmp`
unfoldable pub wcsncmp : (s1 s2 : ℕ → ℕ) → (n : ℕ) → ℤ
unfolding wcsncmp_from
wcsncmp s1 s2 n = if n == 0 then pos 0 else wcsncmp_from n s1 s2 0

-- `freent_wcscpy`, from index `i` on
unfoldable pub wcscpy_from : (fuel : ℕ) → (dest src : ℕ → ℕ) → (i : ℕ) → Option (ℕ → ℕ)
wcscpy_from zero dest src i = none
wcscpy_from (suc fuel) dest src i =
    let dest' = update dest i (src i) in
    let rest = wcscpy_from fuel dest' src (i + 1) in if src i == 0 then some dest' else rest

-- `freent_wcsncpy`, from index `i` on; the second loop clears what is left.
unfoldable pub wcsncpy_from : (n : ℕ) → (dest src : ℕ → ℕ) → (i : ℕ) → ℕ → ℕ
wcsncpy_from zero dest src i = dest
wcsncpy_from (suc n) dest src i =
    let rest = wcsncpy_from n (update dest i (src i)) src (i + 1) in
    if src i == 0 then fill_up (suc n) dest i 0 else rest
