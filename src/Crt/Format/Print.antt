-- ===== src/Crt/Format/Print.antt =====
-- The parser of format specifiers and `freent_vsnprintf`, freedll/src/crt_format.c. The arguments are
-- slots of 64 bits, and `texts` gives the characters of the string at an address.
use free_nt.Base.{
  ℕ, zero, suc, ◌+◌, ◌-◌, ◌*◌, ◌%◌, ◌^◌, true, false, ◌&&◌, ◌||◌, Option, none, some, List, [], ◌∷◌,
  ◌++◌, ltb, leb, ◌==◌, if◌then◌else◌, set_flag, update, ℤ, pos, negsuc, neg_part, is_negative,
  int_of, int32, u32,
}
use free_nt.Crt.Format.{
  FormatSpec, fflag_alt, fflag_zero, fflag_sign, fflag_left, fflag_space, format_char, format_text,
  format_decimal, format_unsigned, format_hex, format_octal, format_pointer,
}

-- The flag of a character.
abbrev pub flag_of : ℕ → Option ℕ
flag_of c =
    if c == b'#'
    then some fflag_alt
    else if c == b'0'
    then some fflag_zero
    else if c == b'-'
    then some fflag_left
    else if c == b' '
    then some fflag_space
    else if c == b'+'
    then some fflag_sign
    else none

-- The loops over the flags and over the digits of a number: the value and the rest of the format.
unfoldable pub parse_flags : List ℕ → (flags : ℕ) → ℕ × List ℕ
parse_flags [] flags = (flags, [])
parse_flags (c ∷ fmt) flags = elim (flag_of c) [
  | none ↦ (flags, c ∷ fmt)
  | some flag ↦ parse_flags fmt (set_flag flags flag)
]

unfoldable pub parse_number : List ℕ → (value : ℕ) → ℕ × List ℕ
parse_number [] value = (value, [])
parse_number (c ∷ fmt) value =
    let rest = parse_number fmt (value * 10 + (c - b'0')) in
    if leb b'0' c && leb c b'9' then rest else (value, c ∷ fmt)

-- `parse_length_modifier`
unfoldable pub parse_length_modifier : List ℕ → ℕ × List ℕ
parse_length_modifier [] = (0, [])
parse_length_modifier (c ∷ []) =
    if c == b'h'
    then (2, [])
    else if c == b'l'
    then (4, [])
    else if c == b'L'
    then (5, [])
    else if c == b'I'
    then (4, [])
    else (0, c ∷ [])
parse_length_modifier (c ∷ d ∷ []) =
    if c == b'h'
    then (if d == b'h' then (1, []) else (2, d ∷ []))
    else if c == b'l'
    then (if d == b'l' then (3, []) else (4, d ∷ []))
    else if c == b'L'
    then (5, d ∷ [])
    else if c == b'I'
    then (4, d ∷ [])
    else (0, c ∷ d ∷ [])
parse_length_modifier (c ∷ d ∷ e ∷ fmt) =
    if c == b'h'
    then (if d == b'h' then (1, e ∷ fmt) else (2, d ∷ e ∷ fmt))
    else if c == b'l'
    then (if d == b'l' then (3, e ∷ fmt) else (4, d ∷ e ∷ fmt))
    else if c == b'L'
    then (5, d ∷ e ∷ fmt)
    else if c == b'I'
    then (4, if d == b'6' && e == b'4' || d == b'3' && e == b'2' then fmt else d ∷ e ∷ fmt)
    else (0, c ∷ d ∷ e ∷ fmt)

module _ (slots : ℕ → ℕ) (texts : ℕ → List ℕ) where
  -- The width: the value, the flags, the next argument and the rest of the format.
  unfoldable pub parse_width : List ℕ → (flags ap : ℕ) → ℤ × ℕ × ℕ × List ℕ
  unfolding parse_number
  parse_width [] flags ap = (pos 0, flags, ap, [])
  parse_width (c ∷ fmt) flags ap =
      let width = int_of 32 (slots ap % 2 ^ 32) in
      let (value, rest) = parse_number (c ∷ fmt) 0 in
      if c == b'*'
      then (if is_negative width
          then (pos (neg_part width), set_flag flags fflag_left, ap + 1, fmt)
          else (width, flags, ap + 1, fmt))
      else (pos value, flags, ap, rest)

  -- The precision; without a point it is -1.
  unfoldable pub parse_precision : List ℕ → (ap : ℕ) → ℤ × ℕ × List ℕ
  unfolding parse_number
  parse_precision [] ap = (negsuc 0, ap, [])
  parse_precision (c ∷ []) ap = if c == b'.' then (pos 0, ap, []) else (negsuc 0, ap, c ∷ [])
  parse_precision (c ∷ d ∷ fmt) ap =
      let precision = int_of 32 (slots ap % 2 ^ 32) in
      let (value, rest) = parse_number (d ∷ fmt) 0 in
      if c == b'.'
      then (if d == b'*'
          then (if is_negative precision then negsuc 0 else precision, ap + 1, fmt)
          else (pos value, ap, rest))
      else (negsuc 0, ap, c ∷ d ∷ fmt)

  -- The specifier, and the format behind it.
  abbrev pub parse_specifier : List ℕ → ℕ × List ℕ
  parse_specifier [] = (0, [])
  parse_specifier (c ∷ fmt) = (c, fmt)

  -- `parse_format_specifier` up to the call of `format_argument`
  unfoldable pub parse_spec : List ℕ → (ap : ℕ) → FormatSpec × ℕ × List ℕ
  unfolding parse_flags parse_width parse_precision parse_length_modifier
  parse_spec fmt ap =
      let (flags, fmt₁) = parse_flags fmt 0 in
      let (width, flags', ap₁, fmt₂) = parse_width fmt₁ flags ap in
      let (precision, ap₂, fmt₃) = parse_precision fmt₂ ap₁ in
      let (length_modifier, fmt₄) = parse_length_modifier fmt₃ in
      let (specifier, fmt₅) = parse_specifier fmt₄ in
      (
        record {
          flags = flags';
          width = width;
          precision = precision;
          length_modifier = length_modifier;
          specifier = specifier;
        },
        ap₂,
        fmt₅,
      )

  -- "(null)" for a NULL pointer
  abbrev pub text_of : ℕ → List ℕ
  text_of p = if p == 0 then b'(' ∷ b'n' ∷ b'u' ∷ b'l' ∷ b'l' ∷ b')' ∷ [] else texts p

  -- `format_argument`: the characters, and the next argument.
  unfoldable pub format_argument : FormatSpec → (ap : ℕ) → List ℕ × ℕ
  format_argument spec ap =
      if spec.specifier == b'c'
      then (format_char spec (slots ap), ap + 1)
      else if spec.specifier == b's'
      then (format_text spec (text_of (slots ap)), ap + 1)
      else if spec.specifier == b'd' || spec.specifier == b'i'
      then (format_decimal spec (slots ap), ap + 1)
      else if spec.specifier == b'u'
      then (format_unsigned spec (slots ap), ap + 1)
      else if spec.specifier == b'x' || spec.specifier == b'X'
      then (format_hex spec (slots ap), ap + 1)
      else if spec.specifier == b'o'
      then (format_octal spec (slots ap), ap + 1)
      else if spec.specifier == b'p'
      then (format_pointer (slots ap), ap + 1)
      else (b'%' ∷ [], ap)

  -- The characters of the loop of `freent_vsnprintf`, on fuel.
  unfoldable pub print_from : (fuel : ℕ) → List ℕ → (ap : ℕ) → Option (List ℕ)
  unfolding parse_spec format_argument
  print_from zero fmt ap = none
  print_from (suc fuel) [] ap = some []
  print_from (suc fuel) (c ∷ fmt) ap = elim (c == b'%') [
    | false ↦ elim (print_from fuel fmt ap) [ none ↦ none | some out ↦ some (c ∷ out) ]
    | true ↦ elim fmt [
      | [] ↦ some []
      | d ∷ fmt' ↦
          let (spec, ap', rest) = parse_spec (d ∷ fmt') ap in
          let (text, ap'') = format_argument spec ap' in
          elim (print_from fuel rest ap'') [ none ↦ none | some out ↦ some (text ++ out) ]
    ]
  ]

-- output_ctx_t
pub record OutputCtx : Type 0 where
  pub buffer : ℕ → ℕ
  pub size : ℕ
  pub pos : ℕ

-- `output_char`
unfoldable pub output_char : OutputCtx → ℕ → OutputCtx
output_char ctx c =
    if ltb ctx.pos ctx.size
    then record ctx { buffer = update ctx.buffer ctx.pos c; pos = ctx.pos + 1 }
    else ctx

unfoldable pub output_text : OutputCtx → List ℕ → OutputCtx
output_text ctx [] = ctx
output_text ctx (c ∷ cs) = output_text (output_char ctx c) cs

-- `freent_vsnprintf`: the result, converted to an `int`, and the buffer.
unfoldable pub vsnprintf :
    (fuel : ℕ)
    → (slots : ℕ → ℕ) (texts : ℕ → List ℕ) → (buffer : ℕ → ℕ) (size : ℕ) → (format : List ℕ)
    → Option (ℤ × (ℕ → ℕ))
unfolding output_text
vsnprintf fuel slots texts buffer size format =
    if size == 0 then some (pos 0, buffer) else elim (print_from slots texts fuel format 0) [
      | none ↦ none
      | some out ↦
          let ctx = output_text (record { buffer = buffer; size = size; pos = 0 }) out in
          some (
            int32 (u32 ctx.pos),
            update ctx.buffer (if ltb ctx.pos ctx.size then ctx.pos else size - 1) 0,
          )
    ]
