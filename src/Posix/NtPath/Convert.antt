-- ===== src/Posix/NtPath/Convert.antt =====
-- `make_nt_path` of ntposix/ntposix.c against the path that it stands for.
use free_nt.Base.{
  ℕ, ◌+◌, ◌<◌, ◌≤◌, ◌≡◌, ◌⊎◌, inl, inr, refl, ap, ◌∙◌, Bool, true, false, ◌&&◌, Option, none, some,
  List, [], ◌∷◌, ◌++◌, map, ltb, leb, ◌==◌, if◌then◌else◌, update, update_self, update_ne, length,
  get_or, Bool-cases, arith,
}
use free_nt.Posix.NtPath.{
  Wide, backslash, ascii_to_unicode, ascii_to_unicode_from, put_path, put_prefix, make_nt_path,
}

abbrev pub object_prefix : List ℕ
object_prefix = 0x5C ∷ b'?' ∷ b'?' ∷ 0x5C ∷ []

-- The NT path of a path: a native path is kept, a drive path gets the object prefix, and a rooted path
-- the prefix and drive C.
abbrev pub nt_path : List ℕ → Option (List ℕ)
nt_path cs =
    if get_or cs 0 0 == 0x5C
    then some (map backslash cs)
    else if leb 2 (length cs) && get_or cs 1 0 == b':'
    then some (object_prefix ++ map backslash cs)
    else if get_or cs 0 0 == b'/'
    then some (object_prefix ++ (b'C' ∷ b':' ∷ map backslash cs))
    else none

-- The characters written from `at` on, and the terminator.
abbrev write_text : List ℕ → ℕ → Wide → Wide
write_text [] at b = update b at 0
write_text (c ∷ cs) at b = write_text cs (at + 1) (update b at c)

-- The buffer has the characters from `at` on, and a terminator.
abbrev pub HasWide : Wide → ℕ → List ℕ → Type 0
HasWide b at [] = b at ≡ 0
HasWide b at (c ∷ cs) = (b at ≡ c) × HasWide b (at + 1) cs

write_text_frame :
    (cs : List ℕ) (at : ℕ) (b : Wide) (j : ℕ)
    → (j < at) ⊎ (at + length cs < j)
    → write_text cs at b j ≡ b j
write_text_frame [] at b j out = update_ne b 0 (ground arith)
write_text_frame (c ∷ cs) at b j out =
    write_text_frame cs (at + 1) (update b at c) j (ground arith) ∙ update_ne b c (ground arith)

write_text-HasWide : (cs : List ℕ) (at : ℕ) (b : Wide) → HasWide (write_text cs at b) at cs
write_text-HasWide [] at b = update_self b at 0
write_text-HasWide (c ∷ cs) at b = (
  write_text_frame cs (at + 1) (update b at c) at (inl (omega arith)) ∙ update_self b at c,
  write_text-HasWide cs (at + 1) (update b at c),
)

put_path-write_text :
    (cs : List ℕ) (i first last chars : ℕ) (b : Wide)
    → i + length cs + last ≤ chars
    → put_path cs i first last chars b ≡ write_text (map backslash cs) (first + i) b
unfolding put_path
put_path-write_text [] i first last chars b room = refl
put_path-write_text (c ∷ cs) i first last chars b room =
    let more : ltb (i + last) chars ≡ true = ground arith in
    let at : first + (i + 1) ≡ first + i + 1 = omega arith in
    rw more (
      put_path-write_text cs (i + 1) first last chars (update b (first + i) (backslash c))
        (omega arith)
      ∙ ap (λ k. write_text (map backslash cs) k (update b (first + i) (backslash c))) at)

ascii_to_unicode-write_text :
    (cs : List ℕ) (i chars : ℕ) (b : Wide)
    → i + length cs + 1 ≤ chars
    → (let r = ascii_to_unicode_from cs i chars b in update r.1 r.0 0)
      ≡ write_text (map backslash cs) i b
unfolding ascii_to_unicode_from
ascii_to_unicode-write_text [] i chars b room = refl
ascii_to_unicode-write_text (c ∷ cs) i chars b room =
    let more : ltb (i + 1) chars ≡ true = ground arith in
    rw more (ascii_to_unicode-write_text cs (i + 1) chars (update b i (backslash c)) (omega arith))

length-map : (cs : List ℕ) → length (map backslash cs) ≡ length cs
length-map [] = refl
length-map (c ∷ cs) = omega (arith, length-map cs)

-- The call succeeds, the buffer holds the text and a terminator within its size, and nothing outside the
-- buffer is written.
pub record Converted (chars : ℕ) (b : Wide) (text : List ℕ) (out : Bool × Wide) : Type 0 where
  pub succeeds : out.0 ≡ true
  pub holds : HasWide out.1 0 text
  pub fits : length text < chars
  pub outside : (j : ℕ) → chars ≤ j → out.1 j ≡ b j

write_text-Converted :
    (chars : ℕ) (b : Wide) (text : List ℕ) (out : Bool × Wide)
    → length text < chars
    → out ≡ (true, write_text text 0 b)
    → Converted chars b text out
write_text-Converted chars b text out fits made = rw made (record {
  succeeds = refl;
  holds = write_text-HasWide text 0 b;
  fits = fits;
  outside = λ j far. write_text_frame text 0 b j (inr (omega arith));
})

some_text : {s t : List ℕ} → some s ≡ some t → s ≡ t
some_text h = ground arith

-- A path that has an NT path and is shorter than the buffer by more than 16 characters is converted to
-- its NT path, within the buffer.
pub make_nt_path-Converted :
    (cs text : List ℕ) (b : Wide) (chars : ℕ)
    → length cs + 16 < chars
    → nt_path cs ≡ some text
    → Converted chars b text (make_nt_path (some cs) b chars)
unfolding make_nt_path put_prefix ascii_to_unicode
make_nt_path-Converted cs text b chars room named =
    let fits : leb chars (length cs + 16) ≡ false = ground arith in
    elim (Bool-cases (get_or cs 0 0 == 0x5C)) [
      | inl native ↦
          let is_text : map backslash cs ≡ text = some_text (rw native at named) in
          rw (fits, native, ← is_text)
            (write_text-Converted chars b (map backslash cs) _ (omega (arith, length-map cs))
              (ap (λ w. (true, w)) (ascii_to_unicode-write_text cs 0 chars b (omega arith))))
      | inr other ↦ elim (Bool-cases (leb 2 (length cs) && get_or cs 1 0 == b':')) [
        | inl drive ↦
            let is_text : object_prefix ++ map backslash cs ≡ text =
              some_text (rw (other, drive) at named) in
            rw (fits, other, drive, ← is_text)
              (write_text-Converted chars b (object_prefix ++ map backslash cs) _
                (omega (arith, length-map cs))
                (ap (λ w. (true, w))
                  (put_path-write_text cs 0 4 5 chars (put_prefix b) (omega arith))))
        | inr no_drive ↦ elim (Bool-cases (get_or cs 0 0 == b'/')) [
          | inl rooted ↦
              let is_text : object_prefix ++ (b'C' ∷ b':' ∷ map backslash cs) ≡ text =
                some_text (rw (other, no_drive, rooted) at named) in
              rw (fits, other, no_drive, rooted, ← is_text)
                (write_text-Converted chars b (object_prefix ++ (b'C' ∷ b':' ∷ map backslash cs)) _
                  (omega (arith, length-map cs))
                  (ap (λ w. (true, w))
                    (put_path-write_text cs 0 6 7 chars
                      (update (update (put_prefix b) 4 b'C') 5 b':') (omega arith))))
          | inr no_root ↦ absurd (ground arith)
        ]
      ]
    ]

-- Every other path is refused, and the buffer is left alone.
pub make_nt_path_refused :
    (cs : List ℕ) (b : Wide) (chars : ℕ)
    → (chars ≤ length cs + 16) ⊎ (nt_path cs ≡ none)
    → make_nt_path (some cs) b chars ≡ (false, b)
unfolding make_nt_path
make_nt_path_refused cs b chars bad = ground arith
