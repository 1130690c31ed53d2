-- ===== src/Rtl/Convert.antt =====
-- RtlMultiByteToUnicodeN and RtlUnicodeToMultiByteN of freedll/src/stringconv.c. The source is the list
-- of its units, `none` for NULL; the result has what is stored from the start of the destination on and
-- the count, a ULONG, that is stored if there is a place for it.
use free_nt.Base.{
  ℕ, zero, suc, ◌^◌, ◌≤◌, u32, Bool-cases, inl, inr, ◌*◌, ◌/◌, ◌<◌, ◌≡◌, refl, ap, false, Option,
  none, some, List, [], ◌∷◌, take, take_all, length, ltb, ◌==◌, if◌then◌else◌, NtStatus,
  status_success, HasNoNul, arith,
}

pub record Conversion : Type 0 where
  pub status : NtStatus
  pub written : List ℕ
  pub bytes : ℕ

-- The loop of `RtlMultiByteToUnicodeN`, with room for `n` characters: it ends behind a NUL.
unfoldable pub widen_bytes : (n : ℕ) → List ℕ → List ℕ
widen_bytes zero source = []
widen_bytes (suc n) [] = []
widen_bytes (suc n) (c ∷ cs) = c ∷ (let rest = widen_bytes n cs in if c == 0 then [] else rest)

-- `RtlMultiByteToUnicodeN`
unfoldable pub multi_byte_to_unicode :
    (destination_char_count : ℕ) → (source : Option (List ℕ)) → Conversion
unfolding widen_bytes
multi_byte_to_unicode n none = record { status = status_success; written = []; bytes = 0 }
multi_byte_to_unicode n (some source) =
    let written = widen_bytes n source in
    record { status = status_success; written = written; bytes = u32 (length written * 2) }

-- The loop of `RtlUnicodeToMultiByteN`, with room for `n` bytes.
unfoldable pub narrow_chars : (n : ℕ) → List ℕ → List ℕ
narrow_chars zero source = []
narrow_chars (suc n) [] = []
narrow_chars (suc n) (c ∷ cs) = (if ltb 255 c then b'?' else c) ∷ narrow_chars n cs

-- `RtlUnicodeToMultiByteN`, for a source of `source_length` bytes
unfoldable pub unicode_to_multi_byte :
    (destination_char_count : ℕ) → (source : Option (List ℕ)) → (source_length : ℕ) → Conversion
unfolding narrow_chars
unicode_to_multi_byte n none source_length = record {
  status = status_success;
  written = [];
  bytes = 0;
}
unicode_to_multi_byte n (some source) source_length =
    let written = narrow_chars n (take (source_length / 2) source) in
    record { status = status_success; written = written; bytes = length written }

abbrev pub AllBytes : List ℕ → Type 0
AllBytes [] = Unit {0}
AllBytes (c ∷ cs) = (c < 256) × AllBytes cs

narrow_chars-widen_bytes :
    (n k : ℕ) (cs : List ℕ)
    → HasNoNul cs
    → AllBytes cs
    → narrow_chars k (widen_bytes n cs) ≡ take k (take n cs)
unfolding narrow_chars widen_bytes
narrow_chars-widen_bytes n zero cs h b = refl
narrow_chars-widen_bytes zero (suc k) cs h b = refl
narrow_chars-widen_bytes (suc n) (suc k) [] h b = refl
narrow_chars-widen_bytes (suc n) (suc k) (c ∷ cs) h b =
    let some_char : (c == 0) ≡ false = ground (arith, h.0) in
    let narrow : ltb 255 c ≡ false = ground (arith, b.0) in
    rw (some_char, narrow) (ap (λ t. c ∷ t) (narrow_chars-widen_bytes n k cs h.1 b.1))

widen_bytes-bound : (n : ℕ) (cs : List ℕ) → length (widen_bytes n cs) ≤ n
unfolding widen_bytes
widen_bytes-bound zero cs = omega arith
widen_bytes-bound (suc n) [] = omega arith
widen_bytes-bound (suc n) (c ∷ cs) =
    let rest = widen_bytes-bound n cs in
    elim (Bool-cases (c == 0)) [
      | inl nul ↦ rw (widen_bytes, nul) (omega arith)
      | inr char ↦ rw (widen_bytes, char) (omega (arith, rest))
    ]

-- Text without a NUL that is made wide, in room for `n` characters, less than 2^31, and narrow
-- again from the bytes that the first call counts, in room for `k`, is the text up to the smaller
-- room.
pub unicode_to_multi_byte-multi_byte_to_unicode :
    (n k : ℕ) (cs : List ℕ)
    → n < 2 ^ 31
    → HasNoNul cs
    → AllBytes cs
    → (unicode_to_multi_byte k
        (some (multi_byte_to_unicode n (some cs)).written)
        (multi_byte_to_unicode n (some cs)).bytes).written
      ≡ take k (take n cs)
unfolding unicode_to_multi_byte multi_byte_to_unicode
unicode_to_multi_byte-multi_byte_to_unicode n k cs small h b =
    let written = widen_bytes n cs in
    let bound = widen_bytes-bound n cs in
    let count : u32 (length written * 2) / 2 ≡ length written = omega arith in
    rw (count, take_all (length written) written (omega arith))
      (narrow_chars-widen_bytes n k cs h b)
