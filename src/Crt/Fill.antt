-- ===== src/Crt/Fill.antt =====
-- `freent_memset` of freedll/src/crt_memory.c, by words and bytes, against a fill of all bytes at once.
use free_nt.Base.{
  ℕ, zero, suc, ◌+◌, ◌-◌, ◌*◌, ◌/◌, ◌%◌, ◌≡◌, ap, ◌∙◌, ◌&&◌, leb, ltb, ◌==◌, if◌then◌else◌, update,
  u8, Bool-cases, inl, inr, arith,
}
use free_nt.Crt.Memory.{Bytes, fill_up, fill_word, fill_words, memset}

-- The `n` bytes at `p` set to `fill`.
abbrev pub filled : ℕ → Bytes → (p fill : ℕ) → Bytes
filled n m p fill a = if leb p a && ltb a (p + n) then fill else m a

fill_up-filled : (n : ℕ) (m : Bytes) (p fill a : ℕ) → fill_up n m p fill a ≡ filled n m p fill a
unfolding fill_up
fill_up-filled zero m p fill a = ground arith
fill_up-filled (suc n) m p fill a = fill_up-filled n (update m p fill) (p + 1) fill a ∙ ground arith

filled_join :
    (j k : ℕ) (m : Bytes) (p fill a : ℕ)
    → filled k (filled j m p fill) (p + j) fill a ≡ filled (j + k) m p fill a
filled_join j k m p fill a = ground arith

filled_ext :
    (n : ℕ) (m m' : Bytes) (p fill a : ℕ) → m a ≡ m' a → filled n m p fill a ≡ filled n m' p fill a
filled_ext n m m' p fill a same = ground arith

fill_words-filled :
    (n : ℕ) (m : Bytes) (p fill a : ℕ) → fill_words n m p fill a ≡ filled (n * 8) m p fill a
unfolding fill_words fill_word
fill_words-filled zero m p fill a = ground arith
fill_words-filled (suc n) m p fill a =
    let count : 8 + n * 8 ≡ suc n * 8 = omega arith in
    fill_words-filled n (fill_word m p fill) (p + 8) fill a
    ∙ filled_join 8 (n * 8) m p fill a
    ∙ ap (λ k. filled k m p fill a) count

-- The fill by words and bytes leaves memory as if all bytes had been set at once.
pub memset-filled : (m : Bytes) (p c n a : ℕ) → memset m p c n a ≡ filled n m p (u8 c) a
unfolding memset
memset-filled m p c n a = elim (Bool-cases (leb 8 n && p % 8 == 0)) [
  | inl wide ↦
      let k : ℕ = n / 8 * 8 in
      let total : k + (n - k) ≡ n = omega arith in
      rw wide (
        fill_up-filled (n - k) (fill_words (n / 8) m p (u8 c)) (p + k) (u8 c) a
        ∙ filled_ext (n - k) (fill_words (n / 8) m p (u8 c)) (filled k m p (u8 c)) (p + k) (u8 c) a
            (fill_words-filled (n / 8) m p (u8 c) a)
        ∙ filled_join k (n - k) m p (u8 c) a
        ∙ ap (λ j. filled j m p (u8 c) a) total)
  | inr narrow ↦ rw narrow (fill_up-filled n m p (u8 c) a)
]
