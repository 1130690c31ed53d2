-- ===== src/Crt/Format.antt =====
-- The formatting of freedll/src/crt_format.c. A function that calls `output_char` gives the list of the
-- characters that it passes to it. An `int` is an integer; widths and precisions stay below 2^31.
pub mod Print
pub mod Output
pub mod Fuel
mod Tests
use free_nt.Base.{
  ℕ, zero, suc, ◌+◌, ◌-◌, ◌*◌, ◌/◌, ◌%◌, ◌^◌, Bool, true, false, ◌&&◌, ◌||◌, not, List, [], ◌∷◌,
  ◌++◌, length, take, replicate, ltb, leb, ◌==◌, if◌then◌else◌, has_flag, set_flag, ℤ, pos, negsuc,
  pos_part, neg_part, ◌+ℤ◌, ◌-ℤ◌, is_negative, int_of, reverse,
}

-- FFLAG_ALT, FFLAG_ZERO, FFLAG_BLANK, FFLAG_SIGN, FFLAG_LEFT, FFLAG_SPACE
abbrev pub fflag_alt : ℕ
fflag_alt = 1

abbrev pub fflag_zero : ℕ
fflag_zero = 2

abbrev pub fflag_blank : ℕ
fflag_blank = 4

abbrev pub fflag_sign : ℕ
fflag_sign = 8

abbrev pub fflag_left : ℕ
fflag_left = 16

abbrev pub fflag_space : ℕ
fflag_space = 32

-- format_spec_t; the specifier is 0 at the end of the format.
pub record FormatSpec : Type 0 where
  pub flags : ℕ
  pub width : ℤ
  pub precision : ℤ
  pub length_modifier : ℕ
  pub specifier : ℕ

-- `digits_lower[d]` and `digits_upper[d]`
abbrev pub digit_char : Bool → ℕ → ℕ
digit_char is_upper d = if ltb d 10 then b'0' + d else (if is_upper then b'A' else b'a') + (d - 10)

-- The digits that the loop of `format_number` makes, the last one first; a number of 64 bits has at
-- most 64 of them.
unfoldable pub digits_of : (fuel : ℕ) → (v base : ℕ) → List ℕ
digits_of zero v base = []
digits_of (suc fuel) v base =
    let rest = digits_of fuel (v / base) base in
    (v % base) ∷ (if ltb 0 (v / base) then rest else [])

abbrev pub chars : Bool → List ℕ → List ℕ
chars is_upper [] = []
chars is_upper (d ∷ ds) = digit_char is_upper d ∷ chars is_upper ds

-- `format_number`: zeros up to the precision, the padding, and the digits.
unfoldable pub format_number :
    (value base : ℕ) → (is_upper : Bool) → (width precision : ℤ) → (pad_char : ℕ) → List ℕ
format_number value base is_upper width precision pad_char =
    let digits = digits_of 64 value base in
    let digit_count = length digits in
    let zeros = (if is_negative precision then 1 else pos_part precision) - digit_count in
    if value == 0 && not (is_negative precision) && pos_part precision == 0
    then []
    else replicate zeros b'0'
      ++ (replicate (pos_part (width -ℤ pos zeros -ℤ pos digit_count)) pad_char
          ++ chars is_upper (reverse digits))

-- A slot of the argument list read as the type that the length modifier names.
abbrev pub signed_argument : (length_modifier slot : ℕ) → ℤ
signed_argument length_modifier slot =
    if length_modifier == 1
    then int_of 8 (slot % 2 ^ 8)
    else if length_modifier == 2
    then int_of 16 (slot % 2 ^ 16)
    else if length_modifier == 3
    then int_of 64 (slot % 2 ^ 64)
    else int_of 32 (slot % 2 ^ 32)

abbrev pub unsigned_argument : (length_modifier slot : ℕ) → ℕ
unsigned_argument length_modifier slot =
    if length_modifier == 1
    then slot % 2 ^ 8
    else if length_modifier == 2
    then slot % 2 ^ 16
    else if length_modifier == 3
    then slot % 2 ^ 64
    else slot % 2 ^ 32

abbrev pub is_zero_padded : FormatSpec → Bool
is_zero_padded spec = has_flag spec.flags fflag_zero && not (has_flag spec.flags fflag_left)

abbrev pub spaces : ℤ → List ℕ
spaces n = replicate (pos_part n) b' '

-- case 'c': the padding stands behind the character.
unfoldable pub format_char : FormatSpec → (slot : ℕ) → List ℕ
format_char spec slot =
    (slot % 2 ^ 8) ∷ (if has_flag spec.flags fflag_left then [] else spaces (spec.width -ℤ pos 1))

-- case 's', for the characters at the pointer
unfoldable pub format_text : FormatSpec → (str : List ℕ) → List ℕ
format_text spec str =
    let len =
      if not (is_negative spec.precision) && ltb (pos_part spec.precision) (length str)
      then pos_part spec.precision
      else length str in
    let pad = spaces (spec.width -ℤ pos len) in
    if has_flag spec.flags fflag_left then take len str ++ pad else pad ++ take len str

-- case 'd' and case 'i'
abbrev pub sign_of : FormatSpec → ℤ → List ℕ
sign_of spec value =
    if is_negative value
    then b'-' ∷ []
    else if has_flag spec.flags fflag_sign
    then b'+' ∷ []
    else if has_flag spec.flags fflag_blank || has_flag spec.flags fflag_space
    then b' ' ∷ []
    else []

abbrev pub decimal_precision : FormatSpec → (sign_length : ℕ) → ℤ
decimal_precision spec sign_length =
    if is_negative spec.precision
    then (if is_zero_padded spec then spec.width -ℤ pos sign_length else pos 1)
    else spec.precision

unfoldable pub format_decimal : FormatSpec → (slot : ℕ) → List ℕ
unfolding format_number
format_decimal spec slot =
    let value = signed_argument spec.length_modifier slot in
    let sign = sign_of spec value in
    sign
    ++ format_number (pos_part value + neg_part value) 10 false (pos 0)
        (decimal_precision spec (length sign)) (if is_zero_padded spec then b'0' else b' ')

-- case 'u'. The test of the first padding loop takes one from the width before it reads the flag.
unfoldable pub format_unsigned : FormatSpec → (slot : ℕ) → List ℕ
unfolding digits_of
format_unsigned spec slot =
    let value = unsigned_argument spec.length_modifier slot in
    let signed = has_flag spec.flags fflag_sign || has_flag spec.flags fflag_blank in
    let sign =
      if signed && leb value 0x7FFFFFFFFFFFFFFF
      then (if has_flag spec.flags fflag_sign then b'+' else b' ') ∷ []
      else [] in
    let digits = digits_of 64 value 10 in
    let zeros = pos_part spec.precision - length digits in
    let width =
      (if signed then spec.width -ℤ pos 1 else spec.width) -ℤ pos zeros -ℤ pos (length digits) in
    sign
    ++ (replicate zeros b'0'
        ++ (if has_flag spec.flags fflag_left
            then chars false (reverse digits) ++ spaces (width -ℤ pos 1)
            else spaces width ++ chars false (reverse digits)))

-- case 'x' and case 'X'. `width -= (spec->width - width)` takes the prefix from the width once more.
unfoldable pub format_hex : FormatSpec → (slot : ℕ) → List ℕ
unfolding format_number
format_hex spec slot =
    let value = unsigned_argument spec.length_modifier slot in
    let prefixed = has_flag spec.flags fflag_alt && not (value == 0) in
    (if prefixed then b'0' ∷ (if spec.specifier == b'x' then b'x' else b'X') ∷ [] else [])
    ++ format_number value 16 (spec.specifier == b'X')
        (if prefixed then spec.width -ℤ pos 4 else spec.width)
        (if is_negative spec.precision then pos 1 else spec.precision)
        (if is_zero_padded spec then b'0' else b' ')

-- case 'o'
unfoldable pub format_octal : FormatSpec → (slot : ℕ) → List ℕ
unfolding format_number
format_octal spec slot =
    format_number (unsigned_argument spec.length_modifier slot) 8 false spec.width spec.precision
      (if is_zero_padded spec then b'0' else b' ')

-- case 'p'
unfoldable pub format_pointer : (slot : ℕ) → List ℕ
unfolding format_number
format_pointer slot = b'0' ∷ b'x' ∷ format_number (slot % 2 ^ 64) 16 false (pos 0) (negsuc 0) b' '
