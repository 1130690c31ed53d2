-- ===== src/Crt/Copy.antt =====
-- The copies and fills of freedll/src/crt_memory.c, byte by byte and word by word, against a block copy.
use free_nt.Base.{
  ℕ, zero, suc, ◌+◌, ◌-◌, ◌*◌, ◌/◌, ◌%◌, ◌<◌, ◌≤◌, ◌≡◌, ◌⊎◌, inl, inr, ◌∙◌, ◌&&◌, leb, ltb, ◌==◌,
  if◌then◌else◌, update, arith, Bool-cases, dec_lt, ap,
}
use free_nt.Crt.Memory.{Bytes, copy_up, copy_down, copy_word, copy_words, memcpy, memmove}

-- The `n` bytes at `s` moved to `d` at once.
abbrev pub block : ℕ → Bytes → (d s : ℕ) → Bytes
block n m d s a = if leb d a && ltb a (d + n) then m (s + (a - d)) else m a

block_step :
    (n : ℕ) (m : Bytes) (d s : ℕ)
    → (d ≤ s) ⊎ (s + suc n ≤ d)
    → (a : ℕ) → block n (update m d (m s)) (d + 1) (s + 1) a ≡ block (suc n) m d s a
block_step n m d s apart a = elim (dec_lt d a) [
  | yes l ↦ let e : s + 1 + (a - (d + 1)) ≡ s + (a - d) = omega arith in rw e (ground arith)
  | no l ↦
      let e : a ≡ d ⊎ a < d = omega arith in
      elim e [
        | inl here ↦ (let home : s + (d - d) ≡ s = omega arith in rw (here, home) (ground arith))
        | inr under ↦ ground arith
      ]
]

pub copy_up-block :
    (n : ℕ) (m : Bytes) (d s : ℕ)
    → (d ≤ s) ⊎ (s + n ≤ d)
    → (a : ℕ) → copy_up n m d s a ≡ block n m d s a
unfolding copy_up
copy_up-block zero m d s apart a = ground arith
copy_up-block (suc n) m d s apart a =
    copy_up-block n (update m d (m s)) (d + 1) (s + 1) (ground arith) a ∙ block_step n m d s apart a

down_step :
    (n : ℕ) (m : Bytes) (d s : ℕ)
    → s ≤ d
    → (a : ℕ) → block n (update m (d + n) (m (s + n))) d s a ≡ block (suc n) m d s a
down_step n m d s above a = elim (Bool-cases (d + n == a)) [
  | inl last ↦ let at : s + (a - d) ≡ s + n = ground arith in rw at (ground arith)
  | inr other ↦ ground arith
]

copy_down-block :
    (n : ℕ) (m : Bytes) (d s : ℕ) → s ≤ d → (a : ℕ) → copy_down n m d s a ≡ block n m d s a
unfolding copy_down
copy_down-block zero m d s above a = ground arith
copy_down-block (suc n) m d s above a =
    copy_down-block n (update m (d + n) (m (s + n))) d s above a ∙ down_step n m d s above a

block_join :
    (j k : ℕ) (m : Bytes) (d s : ℕ)
    → (d ≤ s) ⊎ (s + (j + k) ≤ d)
    → (a : ℕ) → block k (block j m d s) (d + j) (s + j) a ≡ block (j + k) m d s a
block_join j k m d s apart a = elim (dec_lt a (d + j)) [
  | yes l ↦ ground arith
  | no l ↦ let e : s + j + (a - (d + j)) ≡ s + (a - d) = omega arith in rw e (ground arith)
]

block_ext :
    (n : ℕ) (m m' : Bytes) (d s : ℕ)
    → ((a : ℕ) → m a ≡ m' a)
    → (a : ℕ) → block n m d s a ≡ block n m' d s a
block_ext n m m' d s same a = ground (arith, same a, same (s + (a - d)))

copy_words-block :
    (n : ℕ) (m : Bytes) (d s : ℕ)
    → (d ≤ s) ⊎ (s + n * 8 ≤ d)
    → (a : ℕ) → copy_words n m d s a ≡ block (n * 8) m d s a
unfolding copy_words copy_word
copy_words-block zero m d s apart a = ground arith
copy_words-block (suc n) m d s apart a =
    let count : 8 + n * 8 ≡ suc n * 8 = omega arith in
    copy_words-block n (copy_word m d s) (d + 8) (s + 8) (ground arith) a
    ∙ block_join 8 (n * 8) m d s (ground arith) a
    ∙ ap (λ k. block k m d s a) count

-- Where the destination does not start inside the source, the copy by words and bytes leaves memory as
-- if all bytes had moved at once.
pub memcpy-block :
    (m : Bytes) (d s n : ℕ) → (d ≤ s) ⊎ (s + n ≤ d) → (a : ℕ) → memcpy m d s n a ≡ block n m d s a
unfolding memcpy
memcpy-block m d s n apart a = elim (Bool-cases (d == s)) [
  | inl same ↦ rw same (ground arith)
  | inr differ ↦ elim (Bool-cases (leb 8 n && d % 8 == 0 && s % 8 == 0)) [
    | inl wide ↦
        let k : ℕ = n / 8 * 8 in
        let total : k + (n - k) ≡ n = omega arith in
        rw (differ, wide)
          (copy_up-block (n - k) (copy_words (n / 8) m d s) (d + k) (s + k) (ground arith) a
            ∙ block_ext (n - k) (copy_words (n / 8) m d s) (block k m d s) (d + k) (s + k)
                (copy_words-block (n / 8) m d s (ground arith)) a
            ∙ block_join k (n - k) m d s (ground arith) a
            ∙ ap (λ j. block j m d s a) total)
    | inr narrow ↦ rw (differ, narrow) (copy_up-block n m d s apart a)
  ]
]

-- The move leaves memory as if all bytes had moved at once, whether the two places overlap or not.
pub memmove-block : (m : Bytes) (d s n a : ℕ) → memmove m d s n a ≡ block n m d s a
unfolding memmove
memmove-block m d s n a = elim (Bool-cases (d == s)) [
  | inl same ↦ rw same (ground arith)
  | inr differ ↦ elim (Bool-cases (ltb d s)) [
    | inl under ↦ rw (differ, under) (copy_up-block n m d s (ground arith) a)
    | inr over ↦ rw (differ, over) (copy_down-block n m d s (ground arith) a)
  ]
]
