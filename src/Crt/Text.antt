-- ===== src/Crt/Text.antt =====
-- The string functions of freedll/src/crt_string.c. A loop up to the terminator takes fuel and gives
-- `none` when it runs out; a result that is an `int` is a word of 32 bits.
use free_nt.Base.{
  ℕ, zero, suc, ◌+◌, ◌-◌, ◌^◌, ◌&&◌, ◌||◌, not, Option, none, some, ltb, ◌==◌, if◌then◌else◌,
  update, u8, u32,
}
use free_nt.Crt.Memory.{Bytes, fill_up}

-- The loop of `freent_strlen`
unfoldable pub strlen_from : ℕ → Bytes → (s len : ℕ) → Option ℕ
strlen_from zero m s len = none
strlen_from (suc fuel) m s len =
    let rest = strlen_from fuel m s (len + 1) in if m (s + len) == 0 then some len else rest

-- `freent_strlen`
unfoldable pub strlen : ℕ → Bytes → (s : ℕ) → Option ℕ
strlen fuel m s = strlen_from fuel m s 0

-- The loop of `freent_strnlen`
unfoldable pub strnlen_from : ℕ → Bytes → (s i : ℕ) → ℕ
strnlen_from zero m s i = i
strnlen_from (suc n) m s i =
    let rest = strnlen_from n m s (i + 1) in if m (s + i) == 0 then i else rest

-- `freent_strnlen`
unfoldable pub strnlen : Bytes → (s maxlen : ℕ) → ℕ
strnlen m s maxlen = strnlen_from maxlen m s 0

-- `freent_strcpy`
unfoldable pub strcpy : ℕ → Bytes → (d s : ℕ) → Option Bytes
strcpy zero m d s = none
strcpy (suc fuel) m d s =
    let m' = update m d (m s) in
    let rest = strcpy fuel m' (d + 1) (s + 1) in if m s == 0 then some m' else rest

-- `freent_strncpy`; the second loop clears what is left.
unfoldable pub strncpy : ℕ → Bytes → (d s : ℕ) → Bytes
strncpy zero m d s = m
strncpy (suc n) m d s =
    let rest = strncpy n (update m d (m s)) (d + 1) (s + 1) in
    if m s == 0 then fill_up (suc n) m d 0 else rest

-- `freent_strcat`
unfoldable pub strcat : ℕ → Bytes → (d s : ℕ) → Option Bytes
strcat fuel m d s = elim (strlen fuel m d) [ none ↦ none | some len ↦ strcpy fuel m (d + len) s ]

-- The loop of `freent_strncat`, and the terminator behind it.
unfoldable pub strncat_from : ℕ → Bytes → (d s : ℕ) → Bytes
strncat_from zero m d s = update m d 0
strncat_from (suc n) m d s =
    let rest = strncat_from n (update m d (m s)) (d + 1) (s + 1) in
    if m s == 0 then update m d 0 else rest

-- `freent_strncat`
unfoldable pub strncat : ℕ → Bytes → (d s n : ℕ) → Option Bytes
strncat fuel m d s n = elim (strlen fuel m d) [
  | none ↦ none
  | some len ↦ some (strncat_from n m (d + len) s)
]

-- `(unsigned char)x - (unsigned char)y` as an `int`
abbrev pub difference : (x y : ℕ) → ℕ
difference x y = u32 (x + 2 ^ 32 - y)

-- `freent_strcmp`
unfoldable pub strcmp : ℕ → Bytes → (s1 s2 : ℕ) → Option ℕ
strcmp zero m s1 s2 = none
strcmp (suc fuel) m s1 s2 =
    let rest = strcmp fuel m (s1 + 1) (s2 + 1) in
    if not (m s1 == 0) && m s1 == m s2 then rest else some (difference (m s1) (m s2))

-- The loop of `freent_strncmp`, with `n` characters left.
unfoldable pub strncmp_from : ℕ → Bytes → (s1 s2 : ℕ) → ℕ
strncmp_from zero m s1 s2 = difference (m s1) (m s2)
strncmp_from (suc n) m s1 s2 =
    let rest = strncmp_from n m (s1 + 1) (s2 + 1) in
    if m s1 == m s2 && not (n == 0 || m s1 == 0) then rest else difference (m s1) (m s2)

-- `freent_strncmp`
unfoldable pub strncmp : Bytes → (s1 s2 n : ℕ) → ℕ
strncmp m s1 s2 n = if n == 0 then 0 else strncmp_from n m s1 s2

-- The loop of `freent_strchr`; NULL is 0.
unfoldable pub strchr_from : ℕ → Bytes → (s target : ℕ) → Option ℕ
strchr_from zero m s target = none
strchr_from (suc fuel) m s target =
    let rest = strchr_from fuel m (s + 1) target in
    if m s == target then some s else if m s == 0 then some 0 else rest

-- `freent_strchr`
unfoldable pub strchr : ℕ → Bytes → (s c : ℕ) → Option ℕ
strchr fuel m s c = strchr_from fuel m s (u8 c)

-- The loop of `freent_strrchr`, down from `i`.
unfoldable pub strrchr_from : Bytes → (s target i : ℕ) → ℕ
strrchr_from m s target zero = if m s == target then s else 0
strrchr_from m s target (suc i) =
    let rest = strrchr_from m s target i in if m (s + suc i) == target then s + suc i else rest

-- `freent_strrchr`
unfoldable pub strrchr : ℕ → Bytes → (s c : ℕ) → Option ℕ
strrchr fuel m s c = elim (strlen fuel m s) [
  | none ↦ none
  | some len ↦ some (strrchr_from m s (u8 c) len)
]

-- The loop of `freent_strstr`, for `rounds` more starts.
unfoldable pub strstr_from : ℕ → Bytes → (at needle n_len : ℕ) → ℕ
strstr_from zero m at needle n_len = 0
strstr_from (suc rounds) m at needle n_len =
    let rest = strstr_from rounds m (at + 1) needle n_len in
    if strncmp m at needle n_len == 0 then at else rest

-- `freent_strstr`
unfoldable pub strstr : ℕ → Bytes → (haystack needle : ℕ) → Option ℕ
strstr fuel m haystack needle =
    if haystack == 0 || needle == 0 then some 0 else elim (strlen fuel m needle) [
      | none ↦ none
      | some n_len ↦ elim (strlen fuel m haystack) [
        | none ↦ none
        | some h_len ↦ some (
            if n_len == 0
            then haystack
            else if ltb h_len n_len
            then 0
            else strstr_from (h_len - n_len + 1) m haystack needle n_len)
      ]
    ]
