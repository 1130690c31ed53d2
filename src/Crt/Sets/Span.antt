-- ===== src/Crt/Sets/Span.antt =====
-- The spans of characters of a set, freedll/src/crt_stdlib.c and freedll/src/crt_string.c, on the
-- characters of a string.
use std.Path.{subst}
use free_nt.Base.{
  ℕ, zero, suc, ◌+◌, ◌-◌, ◌%◌, ◌^◌, ◌<◌, ◌≤◌, ◌≡◌, ◌≢◌, inl, inr, refl, sym, ap, ◌∙◌, Bool, true,
  false, ◌||◌, not, some, List, [], ◌∷◌, length, take, drop, ◌==◌, if◌then◌else◌, update, arith,
  Bool-cases,
}
use free_nt.Crt.Memory.{Bytes}
use free_nt.Crt.Text.{strchr, strchr_from}
use free_nt.Crt.Measure.{HasText}
use free_nt.Crt.Sets.{is_in, span_from}

abbrev pub elem : ℕ → List ℕ → Bool
elem c [] = false
elem c (d ∷ ds) = d == c || elem c ds

strchr_from-elem :
    (fuel : ℕ) (m : Bytes) (s c : ℕ) (ds : List ℕ)
    → length ds < fuel
    → HasText m s ds
    → s ≢ 0
    → c ≢ 0
    → (p : ℕ) × (strchr_from fuel m s c ≡ some p) × (not (p == 0) ≡ elem c ds)
unfolding strchr_from
strchr_from-elem zero m s c ds enough text based some_char = absurd (omega arith)
strchr_from-elem (suc fuel) m s c [] enough text based some_char = (0, ground arith, refl)
strchr_from-elem (suc fuel) m s c (d ∷ ds) enough text based some_char =
    let rest = strchr_from-elem fuel m (s + 1) c ds (omega arith) text.3 (omega arith) some_char in
    elim (Bool-cases (d == c)) [
      | inl same ↦ (s, ground (arith, text.0), ground arith)
      | inr other ↦ (rest.0, ground (arith, text.0, text.1, rest.1), ground (arith, rest.2))
    ]

pub is_in-elem :
    (fuel : ℕ) (m : Bytes) (set c : ℕ) (ds : List ℕ)
    → length ds < fuel
    → HasText m set ds
    → set ≢ 0
    → c ≢ 0
    → c < 256
    → is_in fuel m set c ≡ some (elem c ds)
unfolding is_in strchr
is_in-elem fuel m set c ds enough text based some_char byte =
    let narrow : c % 2 ^ 8 ≡ c = omega arith in
    let (p, found, same) = strchr_from-elem fuel m set c ds enough text based some_char in
    rw (is_in, strchr, narrow, found) (ap (λ b. some b) same)

-- How many characters at the start are in the set, or are not.
abbrev pub span_length : (inside : Bool) → (set cs : List ℕ) → ℕ
span_length inside ds [] = 0
span_length inside ds (c ∷ cs) =
    let rest = span_length inside ds cs in
    if (if inside then elem c ds else not (elem c ds)) then suc rest else 0

pub span_from_lem :
    (rounds fuel : ℕ) (m : Bytes) (p set : ℕ) (inside : Bool) (cs ds : List ℕ)
    → length cs < rounds
    → length ds < fuel
    → HasText m p cs
    → HasText m set ds
    → set ≢ 0
    → span_from rounds fuel m p set inside ≡ some (p + span_length inside ds cs)
unfolding span_from
span_from_lem zero fuel m p set inside cs ds more enough text chars based = absurd (omega arith)
span_from_lem (suc rounds) fuel m p set inside [] ds more enough text chars based =
    let done : (m p == 0) ≡ true = ground arith in
    rw (span_from, done) (ap (λ x. some x) (omega arith))
span_from_lem (suc rounds) fuel m p set inside (c ∷ cs) ds more enough text chars based =
    let going : (m p == 0) ≡ false = ground (arith, text.0, text.1) in
    let member : is_in fuel m set (m p) ≡ some (elem c ds) =
      ap (λ x. is_in fuel m set x) text.0
      ∙ is_in-elem fuel m set c ds enough chars based text.1 text.2 in
    let rest =
      span_from_lem rounds fuel m (p + 1) set inside cs ds (omega arith) enough text.3 chars
        based in
    elim (Bool-cases (if inside then elem c ds else not (elem c ds))) [
      | inl on ↦ rw (span_from, going, member, on) (rest ∙ ap (λ x. some x) (omega arith))
      | inr off ↦ rw (span_from, going, member, off) (ap (λ x. some x) (omega arith))
    ]

pub span_length_bound : (inside : Bool) (ds cs : List ℕ) → span_length inside ds cs ≤ length cs
span_length_bound inside ds [] = omega arith
span_length_bound inside ds (c ∷ cs) = ground (arith, span_length_bound inside ds cs)

pub HasText-drop :
    (m : Bytes) (p n : ℕ) (cs : List ℕ)
    → n ≤ length cs
    → HasText m p cs
    → HasText m (p + n) (drop n cs)
HasText-drop m p zero cs l text =
    let at : p ≡ p + 0 = omega arith in subst (λ x. HasText m x cs) at text
HasText-drop m p (suc n) [] l text = absurd (omega arith)
HasText-drop m p (suc n) (c ∷ cs) l text =
    let at : p + suc n ≡ p + 1 + n = omega arith in
    rw at (HasText-drop m (p + 1) n cs (omega arith) text.3)

pub HasText-cut :
    (m : Bytes) (p n : ℕ) (cs : List ℕ)
    → n ≤ length cs
    → HasText m p cs
    → HasText (update m (p + n) 0) p (take n cs)
HasText-cut m p zero cs l text = ground arith
HasText-cut m p (suc n) [] l text = absurd (omega arith)
HasText-cut m p (suc n) (c ∷ cs) l text =
    let at : p + suc n ≡ p + 1 + n = omega arith in
    let rest = HasText-cut m (p + 1) n cs (omega arith) text.3 in
    (
      ground (arith, text.0),
      text.1,
      text.2,
      subst (λ x. HasText (update m x 0) (p + 1) (take n cs)) (sym at) rest,
    )

pub text_end : (m : Bytes) (s : ℕ) (cs : List ℕ) → HasText m s cs → m (s + length cs) ≡ 0
text_end m s [] h = ap m {x = s + 0} {y = s} (omega arith) ∙ h
text_end m s (c ∷ cs) h =
    ap m {x = s + suc (length cs)} {y = s + 1 + length cs} (omega arith) ∙ text_end m (s + 1) cs h.3

pub text_inside :
    (m : Bytes) (s n : ℕ) (cs : List ℕ) → n < length cs → HasText m s cs → m (s + n) ≢ 0
text_inside m s n [] l h e = absurd (omega arith)
text_inside m s zero (c ∷ cs) l h e = h.1 (sym h.0 ∙ ap m {x = s} {y = s + 0} (omega arith) ∙ e)
text_inside m s (suc n) (c ∷ cs) l h e =
    text_inside m (s + 1) n cs (omega arith) h.3
      (ap m {x = s + 1 + n} {y = s + suc n} (omega arith) ∙ e)

pub length-drop : (n : ℕ) (cs : List ℕ) → length (drop n cs) ≡ length cs - n
length-drop zero cs = omega arith
length-drop (suc n) [] = omega arith
length-drop (suc n) (c ∷ cs) = omega (arith, length-drop n cs)
