-- ===== src/Crt/Numbers/Print.antt =====
-- Numbers printed by freedll/src/crt_format.c and read back by freent_atoi of
-- freedll/src/crt_string.c.
use native.Mathlib.Nat.{mod-eq_of_lt}
use mathlib.Core.List.{reverse-cons}
use free_nt.Base.{
  ℕ, zero, suc, ◌+◌, ◌-◌, ◌*◌, ◌/◌, ◌%◌, ◌^◌, ◌<◌, ◌≡◌, inl, inr, refl, ap, ap₂, ◌∙◌, Bool, true,
  false, ◌&&◌, List, [], ◌∷◌, ◌++◌, replicate, ◌-ℤ◌, length, length-append, reverse, ltb, ◌==◌,
  if◌then◌else◌, Bool-cases, arith, ℤ, pos, negsuc, int_of, pos_part,
}
use free_nt.Crt.Format.{FormatSpec, digits_of, chars, digit_char, format_number, format_decimal}
use free_nt.Crt.Numbers.{is_blank, is_digit, parse_digits, parse_signed, skip_blanks, atoi}

abbrev AllDigits : List ℕ → Type 0
AllDigits [] = Unit {0}
AllDigits (c ∷ cs) = (is_digit c ≡ true) × AllDigits cs

AllDigits-append : (cs ds : List ℕ) → AllDigits cs → AllDigits ds → AllDigits (cs ++ ds)
AllDigits-append [] ds h k = k
AllDigits-append (c ∷ cs) ds h k = (h.0, AllDigits-append cs ds h.1 k)

parse_digits-append :
    (bits : ℕ) (cs : List ℕ) (c result : ℕ)
    → AllDigits cs
    → is_digit c ≡ true
    → parse_digits bits (cs ++ (c ∷ [])) result
      ≡ (parse_digits bits cs result * 10 + (c - b'0')) % 2 ^ bits
unfolding parse_digits
parse_digits-append bits [] c result h digit = rw (parse_digits, digit) refl
parse_digits-append bits (x ∷ cs) c result h digit =
    rw (parse_digits, h.0)
      (parse_digits-append bits cs c ((result * 10 + (x - b'0')) % 2 ^ bits) h.1 digit)

chars-append :
    (is_upper : Bool) (xs ys : List ℕ)
    → chars is_upper (xs ++ ys) ≡ chars is_upper xs ++ chars is_upper ys
chars-append is_upper [] ys = refl
chars-append is_upper (x ∷ xs) ys =
    ap (λ t. digit_char is_upper x ∷ t) (chars-append is_upper xs ys)

digit_lem : (d : ℕ) → d < 10 → is_digit (digit_char false d) ≡ true
digit_lem d h = ground arith

digit_value : (d : ℕ) → d < 10 → digit_char false d - b'0' ≡ d
digit_value d h = ground arith

digits_of-AllDigits : (fuel v : ℕ) → AllDigits (chars false (reverse (digits_of fuel v 10)))
unfolding digits_of
digits_of-AllDigits zero v = tt
digits_of-AllDigits (suc fuel) v =
    let last : is_digit (digit_char false (v % 10)) ≡ true = digit_lem (v % 10) (omega arith) in
    elim (Bool-cases (ltb 0 (v / 10))) [
      | inl more ↦
          rw
            (
              digits_of,
              more,
              reverse-cons (v % 10) (digits_of fuel (v / 10) 10),
              chars-append false (reverse (digits_of fuel (v / 10) 10)) ((v % 10) ∷ []),
            )
            (AllDigits-append (chars false (reverse (digits_of fuel (v / 10) 10)))
              (digit_char false (v % 10) ∷ []) (digits_of-AllDigits fuel (v / 10)) (last, tt))
      | inr done ↦ rw (digits_of, done) (last, tt)
    ]

mod_word : (bits v w : ℕ) → w ≡ v → v < 2 ^ bits → w % 2 ^ bits ≡ v
mod_word bits v w same h = rw same (mod-eq_of_lt h)

parse_digits-digits_of :
    (fuel bits v : ℕ)
    → v < 2 ^ fuel
    → v < 2 ^ bits
    → parse_digits bits (chars false (reverse (digits_of fuel v 10))) 0 ≡ v
unfolding digits_of parse_digits
parse_digits-digits_of zero bits v few fits = omega arith
parse_digits-digits_of (suc fuel) bits v few fits =
    let last = digit_lem (v % 10) (omega arith) in
    let value = digit_value (v % 10) (omega arith) in
    elim (Bool-cases (ltb 0 (v / 10))) [
      | inl more ↦
          rw
            (
              digits_of,
              more,
              reverse-cons (v % 10) (digits_of fuel (v / 10) 10),
              chars-append false (reverse (digits_of fuel (v / 10) 10)) ((v % 10) ∷ []),
            )
            (parse_digits-append bits (chars false (reverse (digits_of fuel (v / 10) 10)))
                (digit_char false (v % 10)) 0 (digits_of-AllDigits fuel (v / 10)) last
              ∙ ap₂ (λ x y. (x * 10 + y) % 2 ^ bits)
                  (parse_digits-digits_of fuel bits (v / 10) (omega arith) (omega arith)) value
              ∙ mod_word bits v (v / 10 * 10 + v % 10) (omega arith) fits)
      | inr done ↦
          rw (digits_of, done, parse_digits, last, value)
            (mod_word bits v (0 * 10 + v % 10) (ground arith) fits)
    ]

digits_of_some : (v : ℕ) → 0 < length (digits_of 64 v 10)
unfolding digits_of
digits_of_some v = omega arith

-- "%d" with a width, which the source does not use.
abbrev pub plain : ℤ → FormatSpec
plain width = record {
  flags = 0;
  width = width;
  precision = negsuc 0;
  length_modifier = 0;
  specifier = b'd';
}

no_padding : (lead n : ℕ) → lead ≡ 0 → pos_part (pos 0 -ℤ pos lead -ℤ pos n) ≡ 0
no_padding lead n h = ground arith

join_none :
    (b : Bool) (lead pad : ℕ) (cs : List ℕ)
    → lead ≡ 0
    → pad ≡ 0
    → (if b && true && false then [] else replicate lead b'0' ++ (replicate pad b' ' ++ cs)) ≡ cs
join_none true zero zero cs h k = refl
join_none false zero zero cs h k = refl
join_none b (suc lead) pad cs h k = absurd (omega arith)
join_none b zero (suc pad) cs h k = absurd (omega arith)

format_number_plain :
    (v : ℕ)
    → format_number v 10 false (pos 0) (pos 1) b' ' ≡ chars false (reverse (digits_of 64 v 10))
unfolding format_number
format_number_plain v =
    let digits = digits_of 64 v 10 in
    let lead : 1 - length digits ≡ 0 = omega (arith, digits_of_some v) in
    join_none (v == 0) (1 - length digits)
      (pos_part (pos 0 -ℤ pos (1 - length digits) -ℤ pos (length digits)))
      (chars false (reverse digits)) lead (no_padding (1 - length digits) (length digits) lead)

parse_signed-minus :
    (bits : ℕ) (cs : List ℕ)
    → parse_signed bits (b'-' ∷ cs) ≡ int_of bits ((2 ^ bits - parse_digits bits cs 0) % 2 ^ bits)
unfolding parse_signed
parse_signed-minus bits cs = refl

digit_not_blank : (c : ℕ) → is_digit c ≡ true → is_blank c ≡ false
digit_not_blank c h = ground arith

parse_signed_digit :
    (bits c : ℕ) (cs : List ℕ)
    → is_digit c ≡ true
    → parse_signed bits (c ∷ cs) ≡ int_of bits (parse_digits bits (c ∷ cs) 0)
unfolding parse_signed
parse_signed_digit bits c cs h =
    let no_minus : (c == b'-') ≡ false = ground arith in
    let no_plus : (c == b'+') ≡ false = ground arith in rw (parse_signed, no_minus, no_plus) refl

parse_signed-digits :
    (bits : ℕ) (cs : List ℕ)
    → AllDigits cs
    → 0 < length cs
    → parse_signed bits (skip_blanks cs) ≡ int_of bits (parse_digits bits cs 0)
unfolding parse_signed skip_blanks
parse_signed-digits bits [] h l = absurd (omega arith)
parse_signed-digits bits (c ∷ cs) h l =
    let text : is_blank c ≡ false = digit_not_blank c h.0 in
    rw (skip_blanks, text) (parse_signed_digit bits c cs h.0)

format_decimal_positive :
    (width : ℤ) (slot n : ℕ)
    → int_of 32 (slot % 2 ^ 32) ≡ pos n
    → format_decimal (plain width) slot ≡ chars false (reverse (digits_of 64 n 10))
unfolding format_decimal
format_decimal_positive width slot n e =
    let magnitude : n + 0 ≡ n = omega arith in
    rw (format_decimal, e, magnitude) (format_number_plain n)

format_decimal_negative :
    (width : ℤ) (slot n : ℕ)
    → int_of 32 (slot % 2 ^ 32) ≡ negsuc n
    → format_decimal (plain width) slot ≡ b'-' ∷ chars false (reverse (digits_of 64 (suc n) 10))
unfolding format_decimal
format_decimal_negative width slot n e =
    let magnitude : 0 + suc n ≡ suc n = omega arith in
    rw (format_decimal, e, magnitude) (ap (λ t. b'-' ∷ t) (format_number_plain (suc n)))

length-chars : (is_upper : Bool) (ds : List ℕ) → length (chars is_upper ds) ≡ length ds
length-chars is_upper [] = refl
length-chars is_upper (d ∷ ds) = omega (arith, length-chars is_upper ds)

chars_of_cons : (d : ℕ) (ds : List ℕ) → 0 < length (chars false (reverse (d ∷ ds)))
chars_of_cons d ds = rw (reverse-cons d ds) (
    omega (arith, length-chars false (reverse ds ++ (d ∷ [])), length-append (reverse ds) (d ∷ [])))

chars_some : (fuel v : ℕ) → 0 < length (chars false (reverse (digits_of (suc fuel) v 10)))
unfolding digits_of
chars_some fuel v =
    chars_of_cons (v % 10) (if ltb 0 (v / 10) then digits_of fuel (v / 10) 10 else [])

-- What "%d" prints for an argument, freent_atoi reads as the `int` that the argument holds.
pub atoi-format_decimal :
    (width : ℤ) (slot : ℕ) → atoi (format_decimal (plain width) slot) ≡ int_of 32 (slot % 2 ^ 32)
unfolding atoi skip_blanks
atoi-format_decimal width slot =
    let w = slot % 2 ^ 32 in
    elim (Bool-cases (ltb w (2 ^ 31))) [
      | inl positive ↦
          let value : int_of 32 w ≡ pos w = rw positive refl in
          rw (format_decimal_positive width slot w value) (
            parse_signed-digits 32 (chars false (reverse (digits_of 64 w 10)))
              (digits_of-AllDigits 64 w) (chars_some 63 w)
            ∙ ap (λ r. int_of 32 r) (parse_digits-digits_of 64 32 w (omega arith) (omega arith)))
      | inr negative ↦
          let n = 2 ^ 32 - 1 - w in
          let value : int_of 32 w ≡ negsuc n = rw negative refl in
          let back : (2 ^ 32 - suc n) % 2 ^ 32 ≡ w = omega arith in
          rw (format_decimal_negative width slot n value) (
            parse_signed-minus 32 (chars false (reverse (digits_of 64 (suc n) 10)))
            ∙ ap (λ r. int_of 32 ((2 ^ 32 - r) % 2 ^ 32))
                (parse_digits-digits_of 64 32 (suc n) (omega arith) (ground arith))
            ∙ ap (λ r. int_of 32 r) back)
    ]
