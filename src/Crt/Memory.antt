-- ===== src/Crt/Memory.antt =====
-- freedll/src/crt_memory.c on memory as a function of the address.
use free_nt.Base.{
  ℕ, zero, suc, ◌+◌, ◌-◌, ◌*◌, ◌/◌, ◌%◌, ◌^◌, ◌&&◌, Option, none, some, leb, ltb, ◌==◌,
  if◌then◌else◌, update, u8, u32,
}

abbrev pub Bytes : Type 0
Bytes = ℕ → ℕ

-- `for (i = 0; i < n; i++) d[i] = s[i];`
unfoldable pub copy_up : ℕ → Bytes → (d s : ℕ) → Bytes
copy_up zero m d s = m
copy_up (suc n) m d s = copy_up n (update m d (m s)) (d + 1) (s + 1)

-- `for (i = n; i > 0; i--) d[i - 1] = s[i - 1];`
unfoldable pub copy_down : ℕ → Bytes → (d s : ℕ) → Bytes
copy_down zero m d s = m
copy_down (suc n) m d s = copy_down n (update m (d + n) (m (s + n))) d s

-- `wd[i] = ws[i]`: the eight bytes are read before they are written.
unfoldable pub copy_word : Bytes → (d s : ℕ) → Bytes
copy_word m d s a = if leb d a && ltb a (d + 8) then m (s + (a - d)) else m a

unfoldable pub copy_words : ℕ → Bytes → (d s : ℕ) → Bytes
copy_words zero m d s = m
copy_words (suc n) m d s = copy_words n (copy_word m d s) (d + 8) (s + 8)

-- `freent_memcpy`
unfoldable pub memcpy : Bytes → (d s n : ℕ) → Bytes
memcpy m d s n =
    if d == s
    then m
    else if leb 8 n && d % 8 == 0 && s % 8 == 0
    then (let words = n / 8 in
        copy_up (n - words * 8) (copy_words words m d s) (d + words * 8) (s + words * 8))
    else copy_up n m d s

-- `freent_memmove`
unfoldable pub memmove : Bytes → (d s n : ℕ) → Bytes
memmove m d s n = if d == s then m else if ltb d s then copy_up n m d s else copy_down n m d s

-- `for (i = 0; i < n; i++) p[i] = fill;`
unfoldable pub fill_up : ℕ → Bytes → (p fill : ℕ) → Bytes
fill_up zero m p fill = m
fill_up (suc n) m p fill = fill_up n (update m p fill) (p + 1) fill

-- `wp[i] = pattern`, where each byte of `pattern` is `fill`.
unfoldable pub fill_word : Bytes → (p fill : ℕ) → Bytes
fill_word m p fill a = if leb p a && ltb a (p + 8) then fill else m a

unfoldable pub fill_words : ℕ → Bytes → (p fill : ℕ) → Bytes
fill_words zero m p fill = m
fill_words (suc n) m p fill = fill_words n (fill_word m p fill) (p + 8) fill

-- `freent_memset`
unfoldable pub memset : Bytes → (p c n : ℕ) → Bytes
memset m p c n =
    let fill = u8 c in
    if leb 8 n && p % 8 == 0
    then (let words = n / 8 in
        fill_up (n - words * 8) (fill_words words m p fill) (p + words * 8) fill)
    else fill_up n m p fill

-- `freent_memcmp`: the difference is an `int`.
unfoldable pub memcmp : ℕ → Bytes → (p1 p2 : ℕ) → ℕ
memcmp zero m p1 p2 = 0
memcmp (suc n) m p1 p2 =
    let rest = memcmp n m (p1 + 1) (p2 + 1) in
    if m p1 == m p2 then rest else u32 (m p1 + 2 ^ 32 - m p2)

-- The loop of `freent_memchr`, which returns NULL or an address.
unfoldable pub memchr_loop : ℕ → Bytes → (p target : ℕ) → Option ℕ
memchr_loop zero m p target = none
memchr_loop (suc n) m p target =
    let rest = memchr_loop n m (p + 1) target in if m p == target then some p else rest

-- `freent_memchr`
unfoldable pub memchr : Bytes → (p c n : ℕ) → Option ℕ
memchr m p c n = memchr_loop n m p (u8 c)
