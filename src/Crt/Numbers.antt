-- ===== src/Crt/Numbers.antt =====
-- atoi, atol, atoll, abs and labs of freedll/src/crt_string.c, on the characters of a string. A sum that
-- leaves the range of its type, which C leaves open, wraps round.
pub mod Print
use free_nt.Base.{
  ℕ, ◌+◌, ◌-◌, ◌*◌, ◌%◌, ◌^◌, Bool, true, false, ◌&&◌, ◌||◌, List, [], ◌∷◌, leb, ◌==◌,
  if◌then◌else◌, ℤ, pos, int_of, is_negative, neg_part,
}

abbrev pub is_blank : ℕ → Bool
is_blank c = c == b' ' || c == b'\t' || c == b'\n'

abbrev pub is_digit : ℕ → Bool
is_digit c = leb b'0' c && leb c b'9'

-- The first loop.
unfoldable pub skip_blanks : List ℕ → List ℕ
skip_blanks [] = []
skip_blanks (c ∷ cs) = let rest = skip_blanks cs in if is_blank c then rest else c ∷ cs

-- The last loop, on a word of `bits` bits.
unfoldable pub parse_digits : (bits : ℕ) → List ℕ → (result : ℕ) → ℕ
parse_digits bits [] result = result
parse_digits bits (c ∷ cs) result =
    let rest = parse_digits bits cs ((result * 10 + (c - b'0')) % 2 ^ bits) in
    if is_digit c then rest else result

-- `result * sign`
abbrev pub signed : (bits result : ℕ) → (negative : Bool) → ℤ
signed bits result negative =
    int_of bits (if negative then (2 ^ bits - result) % 2 ^ bits else result)

-- The sign, and the digits behind it.
unfoldable pub parse_signed : (bits : ℕ) → List ℕ → ℤ
unfolding parse_digits
parse_signed bits [] = pos 0
parse_signed bits (c ∷ cs) =
    if c == b'-'
    then signed bits (parse_digits bits cs 0) true
    else if c == b'+'
    then signed bits (parse_digits bits cs 0) false
    else signed bits (parse_digits bits (c ∷ cs) 0) false

-- `freent_atoi`, `freent_atol` and `freent_atoll`
unfoldable pub atoi : List ℕ → ℤ
unfolding parse_signed skip_blanks
atoi nptr = parse_signed 32 (skip_blanks nptr)

unfoldable pub atol : List ℕ → ℤ
unfolding atoi
atol nptr = atoi nptr

unfoldable pub atoll : List ℕ → ℤ
unfolding parse_signed skip_blanks
atoll nptr = parse_signed 64 (skip_blanks nptr)

-- `freent_abs` and `freent_labs`; the least number is its own negative.
unfoldable pub abs : ℤ → ℤ
abs j = if is_negative j then int_of 32 (neg_part j % 2 ^ 32) else j
