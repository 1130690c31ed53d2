-- ===== src/Crt/Format/Fuel.antt =====
-- The loop of `freent_vsnprintf` of freedll/src/crt_format.c ends: its parsers give back no more of the
-- format than they are given.
use free_nt.Base.{
  ℕ, zero, suc, ◌+◌, ◌-◌, ◌*◌, ◌≤◌, ◌<◌, ◌≡◌, refl, List, [], ◌∷◌, length, ◌==◌, set_flag, Option,
  ◌++◌, some, none, Bool-cases, inl, inr, arith,
}
use free_nt.Crt.Format.Print.{
  flag_of, parse_flags, parse_number, parse_length_modifier, parse_width, parse_precision,
  parse_spec, parse_specifier, format_argument, print_from,
}

parse_flags_next :
    (c : ℕ) (fmt : List ℕ) (flags : ℕ) (next : Option ℕ)
    → flag_of c ≡ next
    → ((flags' : ℕ) → length (parse_flags fmt flags').1 ≤ length fmt)
    → length (parse_flags (c ∷ fmt) flags).1 ≤ suc (length fmt)
unfolding parse_flags
parse_flags_next c fmt flags none e h = rw (length, parse_flags, e) (omega arith)
parse_flags_next c fmt flags (some flag) e h =
    rw (length, parse_flags, e) (omega (arith, h (set_flag flags flag)))

parse_flags_shortens : (fmt : List ℕ) (flags : ℕ) → length (parse_flags fmt flags).1 ≤ length fmt
unfolding parse_flags
parse_flags_shortens [] flags = omega arith
parse_flags_shortens (c ∷ fmt) flags =
    parse_flags_next c fmt flags (flag_of c) refl (λ flags'. parse_flags_shortens fmt flags')

parse_number_shortens : (fmt : List ℕ) (n : ℕ) → length (parse_number fmt n).1 ≤ length fmt
unfolding parse_number
parse_number_shortens [] n = omega arith
parse_number_shortens (c ∷ fmt) n =
    let rest = parse_number_shortens fmt (n * 10 + (c - b'0')) in ground arith

parse_length_modifier_shortens : (fmt : List ℕ) → length (parse_length_modifier fmt).1 ≤ length fmt
unfolding parse_length_modifier
parse_length_modifier_shortens [] = omega arith
parse_length_modifier_shortens (c ∷ []) = ground arith
parse_length_modifier_shortens (c ∷ d ∷ []) = ground arith
parse_length_modifier_shortens (c ∷ d ∷ e ∷ fmt) = ground arith

module _ (slots : ℕ → ℕ) (texts : ℕ → List ℕ) where
  parse_width_shortens :
      (fmt : List ℕ) (flags ap : ℕ) → length (parse_width slots texts fmt flags ap).3 ≤ length fmt
  unfolding parse_width
  parse_width_shortens [] flags ap = omega arith
  parse_width_shortens (c ∷ fmt) flags ap =
      let rest = parse_number_shortens (c ∷ fmt) 0 in ground arith

  parse_precision_shortens :
      (fmt : List ℕ) (ap : ℕ) → length (parse_precision slots texts fmt ap).2 ≤ length fmt
  unfolding parse_precision
  parse_precision_shortens [] ap = omega arith
  parse_precision_shortens (c ∷ []) ap = ground arith
  parse_precision_shortens (c ∷ d ∷ fmt) ap =
      let rest = parse_number_shortens (d ∷ fmt) 0 in ground arith

  parse_specifier_shortens :
      (fmt : List ℕ) → length (parse_specifier slots texts fmt).1 ≤ length fmt
  parse_specifier_shortens [] = omega arith
  parse_specifier_shortens (c ∷ fmt) = omega arith

  parse_spec_shortens :
      (fmt : List ℕ) (ap : ℕ) → length (parse_spec slots texts fmt ap).2 ≤ length fmt
  unfolding parse_spec
  parse_spec_shortens fmt ap =
      let a = parse_flags fmt 0 in
      let b = parse_width slots texts a.1 a.0 ap in
      let c = parse_precision slots texts b.3 b.2 in
      let d = parse_length_modifier c.2 in
      omega (
        arith,
        parse_flags_shortens fmt 0,
        parse_width_shortens a.1 a.0 ap,
        parse_precision_shortens b.3 b.2,
        parse_length_modifier_shortens c.2,
        parse_specifier_shortens d.1,
      )

  -- The loop ends: one more than the characters of the format is enough fuel.
  pub print_from_total :
      (fuel : ℕ) (fmt : List ℕ) (ap : ℕ)
      → length fmt < fuel
      → (out : List ℕ) × print_from slots texts fuel fmt ap ≡ some out
  unfolding print_from
  print_from_total zero fmt ap h = absurd (omega arith)
  print_from_total (suc fuel) [] ap h = ([], refl)
  print_from_total (suc fuel) (c ∷ []) ap h = elim (Bool-cases (c == b'%')) [
    | inl percent ↦ ([], rw (print_from, percent) refl)
    | inr plain ↦
        let (out, same) = print_from_total fuel [] ap (omega arith) in
        (c ∷ out, rw (print_from, plain, same) refl)
  ]
  print_from_total (suc fuel) (c ∷ d ∷ fmt) ap h = elim (Bool-cases (c == b'%')) [
    | inl percent ↦
        let spec = parse_spec slots texts (d ∷ fmt) ap in
        let text = format_argument slots texts spec.0 spec.1 in
        let (out, same) =
          print_from_total fuel spec.2 text.1 (omega (arith, parse_spec_shortens (d ∷ fmt) ap)) in
        (text.0 ++ out, rw (print_from, percent, same) refl)
    | inr plain ↦
        let (out, same) = print_from_total fuel (d ∷ fmt) ap (omega arith) in
        (c ∷ out, rw (print_from, plain, same) refl)
  ]
