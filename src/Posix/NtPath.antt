-- ===== src/Posix/NtPath.antt =====
-- The path conversion of ntposix/ntposix.c. A path is the list of its characters before the NUL, a
-- buffer of wide characters a function of the index.
pub mod Convert
use free_nt.Base.{
  ℕ, zero, suc, ◌+◌, ◌<◌, Bool, true, false, ◌&&◌, Option, none, some, List, [], ◌∷◌, ltb, leb,
  ◌==◌, if◌then◌else◌, update, length, get_or,
}

abbrev pub Wide : Type 0
Wide = ℕ → ℕ

-- `if (c == '/') c = '\\';`
abbrev pub backslash : ℕ → ℕ
backslash c = if c == b'/' then 0x5C else c

-- The loop of `ascii_to_unicode`: the buffer and the count of characters.
unfoldable pub ascii_to_unicode_from : List ℕ → (i max : ℕ) → Wide → ℕ × Wide
ascii_to_unicode_from [] i max b = (i, b)
ascii_to_unicode_from (c ∷ cs) i max b =
    let rest = ascii_to_unicode_from cs (i + 1) max (update b i (backslash c)) in
    if ltb (i + 1) max then rest else (i, b)

-- `ascii_to_unicode`
unfoldable pub ascii_to_unicode : List ℕ → Wide → (max : ℕ) → ℕ × Wide
unfolding ascii_to_unicode_from
ascii_to_unicode cs b max = let (i, b') = ascii_to_unicode_from cs 0 max b in (i, update b' i 0)

-- `for (i = 0; i < len && i + last < buffer_chars; i++)` with `buffer[first + i]` written, and the
-- terminator behind it.
unfoldable pub put_path : List ℕ → (i first last buffer_chars : ℕ) → Wide → Wide
put_path [] i first last buffer_chars b = update b (first + i) 0
put_path (c ∷ cs) i first last buffer_chars b =
    let rest = put_path cs (i + 1) first last buffer_chars (update b (first + i) (backslash c)) in
    if ltb (i + last) buffer_chars then rest else update b (first + i) 0

-- `\??\` at the start of the buffer
unfoldable pub put_prefix : Wide → Wide
put_prefix b = update (update (update (update b 0 0x5C) 1 b'?') 2 b'?') 3 0x5C

-- `make_nt_path`: whether it succeeds, and the buffer.
unfoldable pub make_nt_path : Option (List ℕ) → Wide → (buffer_chars : ℕ) → Bool × Wide
unfolding ascii_to_unicode put_path put_prefix
make_nt_path none b buffer_chars = (false, b)
make_nt_path (some cs) b buffer_chars =
    if leb buffer_chars (length cs + 16)
    then (false, b)
    else if get_or cs 0 0 == 0x5C
    then (true, (ascii_to_unicode cs b buffer_chars).1)
    else if leb 2 (length cs) && get_or cs 1 0 == b':'
    then (true, put_path cs 0 4 5 buffer_chars (put_prefix b))
    else if get_or cs 0 0 == b'/'
    then (true, put_path cs 0 6 7 buffer_chars (update (update (put_prefix b) 4 b'C') 5 b':'))
    else (false, b)

-- The loop of `strlen_w_local`
unfoldable pub strlen_w_from : (fuel : ℕ) → Wide → (n : ℕ) → Option ℕ
strlen_w_from zero b n = none
strlen_w_from (suc fuel) b n =
    let rest = strlen_w_from fuel b (n + 1) in if b n == 0 then some n else rest

-- `strlen_w_local`
unfoldable pub strlen_w : ℕ → Wide → Option ℕ
unfolding strlen_w_from
strlen_w fuel b = strlen_w_from fuel b 0
