-- ===== src/Crt/Measure.antt =====
-- Lengths, comparison, search and copying of strings, freedll/src/crt_string.c, against the list of the
-- characters that a string holds.
use free_nt.Base.{
  ℕ, zero, suc, ◌+◌, ◌<◌, ◌≤◌, ◌≡◌, ◌≢◌, ◌↔◌, ◌⊎◌, inl, inr, refl, sym, ◌∙◌, ap, false, Option,
  some, List, [], ◌∷◌, arith, length, ◌==◌, update, update_ne, ap₂, ℕ_discrete,
}
use free_nt.Crt.Memory.{Bytes, copy_up}
use free_nt.Crt.Copy.{block, copy_up-block}
use free_nt.Crt.Text.{strlen, strlen_from, strcmp, difference, strcpy}

-- The string at `s` has the characters `cs`.
abbrev pub HasText : Bytes → ℕ → List ℕ → Type 0
HasText m s [] = m s ≡ 0
HasText m s (c ∷ cs) = (m s ≡ c) × (c ≢ 0) × (c < 256) × HasText m (s + 1) cs

strlen_from_lem :
    (fuel : ℕ) (m : Bytes) (s len : ℕ) (cs : List ℕ)
    → length cs < fuel
    → HasText m (s + len) cs
    → strlen_from fuel m s len ≡ some (len + length cs)
unfolding strlen_from
strlen_from_lem zero m s len cs enough h = absurd (omega arith)
strlen_from_lem (suc fuel) m s len [] enough h = ground arith
strlen_from_lem (suc fuel) m s len (c ∷ cs) enough h =
    let at : s + len + 1 ≡ s + (len + 1) = omega arith in
    let behind : HasText m (s + (len + 1)) cs = rw (sym at) h.3 in
    let rest = strlen_from_lem fuel m s (len + 1) cs (omega arith) behind in
    ground (arith, h.0, h.1)

-- With more fuel than the string has characters, its length is found.
pub strlen_lem :
    (fuel : ℕ) (m : Bytes) (s : ℕ) (cs : List ℕ)
    → length cs < fuel
    → HasText m s cs
    → strlen fuel m s ≡ some (length cs)
unfolding strlen
strlen_lem fuel m s cs enough h =
    let at : s ≡ s + 0 = omega arith in
    let held : HasText m (s + 0) cs = rw (sym at) h in
    strlen_from_lem fuel m s 0 cs enough held ∙ ap (λ k. some k) (omega arith)

difference_zero : (x y c d : ℕ) → x ≡ c → y ≡ d → c < 256 → d < 256 → difference x y ≡ 0 → c ≡ d
difference_zero x y c d x_is y_is l k e = omega arith

-- The call returns, and 0 exactly for equal lists.
pub record Compared (cs ds : List ℕ) (out : Option ℕ) : Type 0 where
  pub result : ℕ
  pub returns : out ≡ some result
  pub equal : (result ≡ 0) ↔ (cs ≡ ds)

strcmp_stops :
    (fuel : ℕ) (m : Bytes) (s1 s2 : ℕ)
    → (m s1 ≡ 0) ⊎ (m s1 ≢ m s2)
    → strcmp (suc fuel) m s1 s2 ≡ some (difference (m s1) (m s2))
unfolding strcmp
strcmp_stops fuel m s1 s2 stops = ground arith

strcmp_goes :
    (fuel : ℕ) (m : Bytes) (s1 s2 : ℕ)
    → m s1 ≢ 0
    → m s1 ≡ m s2
    → strcmp (suc fuel) m s1 s2 ≡ strcmp fuel m (s1 + 1) (s2 + 1)
unfolding strcmp
strcmp_goes fuel m s1 s2 more same = ground arith

-- The comparison with more fuel than the first string has characters gives a result, and it is 0
-- exactly when the two strings have the same characters.
pub strcmp-Compared :
    (fuel : ℕ) (m : Bytes) (s1 s2 : ℕ) (cs ds : List ℕ)
    → length cs < fuel
    → HasText m s1 cs
    → HasText m s2 ds
    → Compared cs ds (strcmp fuel m s1 s2)
strcmp-Compared zero m s1 s2 cs ds enough h k = absurd (omega arith)
strcmp-Compared (suc fuel) m s1 s2 [] [] enough h k = record {
  result = 0;
  returns = strcmp_stops fuel m s1 s2 (inl h) ∙ ground arith;
  equal = (λ e. refl, λ e. refl);
}
strcmp-Compared (suc fuel) m s1 s2 [] (d ∷ ds) enough h k = record {
  result = difference (m s1) (m s2);
  returns = strcmp_stops fuel m s1 s2 (inl h);
  equal = (
    λ e.
        absurd (
          let same = difference_zero (m s1) (m s2) 0 d h k.0 (omega arith) k.2 e in k.1 (sym same)),
    λ e. ground arith,
  );
}
strcmp-Compared (suc fuel) m s1 s2 (c ∷ cs) [] enough h k = record {
  result = difference (m s1) (m s2);
  returns = strcmp_stops fuel m s1 s2 (inr (ground arith));
  equal = (
    λ e.
        absurd (let same = difference_zero (m s1) (m s2) c 0 h.0 k h.2 (omega arith) e in h.1 same),
    λ e. ground arith,
  );
}
strcmp-Compared (suc fuel) m s1 s2 (c ∷ cs) (d ∷ ds) enough h k = elim (ℕ_discrete c d) [
  | yes same ↦
      let rest = strcmp-Compared fuel m (s1 + 1) (s2 + 1) cs ds (omega arith) h.3 k.3 in
      record {
        result = rest.result;
        returns = strcmp_goes fuel m s1 s2 (ground arith) (ground arith) ∙ rest.returns;
        equal = (λ e. ap₂ (λ x xs. x ∷ xs) same (rest.equal.0 e), λ e. rest.equal.1 (ground arith));
      }
  | no differ ↦ record {
    result = difference (m s1) (m s2);
    returns = strcmp_stops fuel m s1 s2 (inr (ground arith));
    equal = (
      λ e. absurd (differ (difference_zero (m s1) (m s2) c d h.0 k.0 h.2 k.2 e)),
      λ e. absurd (ground arith),
    );
  }
]

pub HasText-update :
    (m : Bytes) (a v s : ℕ) (cs : List ℕ)
    → (a < s) ⊎ (s + length cs < a)
    → HasText m s cs
    → HasText (update m a v) s cs
HasText-update m a v s [] apart h = update_ne m v (ground arith) ∙ h
HasText-update m a v s (c ∷ cs) apart h = (
  update_ne m v (ground arith) ∙ h.0,
  h.1,
  h.2,
  HasText-update m a v (s + 1) cs (ground arith) h.3,
)

strcpy-copy_up :
    (fuel : ℕ) (m : Bytes) (d s : ℕ) (cs : List ℕ)
    → length cs < fuel
    → (d ≤ s) ⊎ (s + length cs < d)
    → HasText m s cs
    → strcpy fuel m d s ≡ some (copy_up (suc (length cs)) m d s)
unfolding strcpy copy_up
strcpy-copy_up zero m d s cs enough apart h = absurd (omega arith)
strcpy-copy_up (suc fuel) m d s [] enough apart h = ground arith
strcpy-copy_up (suc fuel) m d s (c ∷ cs) enough apart h =
    let rest =
      strcpy-copy_up fuel (update m d (m s)) (d + 1) (s + 1) cs (omega arith) (ground arith)
        (HasText-update m d (m s) (s + 1) cs (ground arith) h.3) in
    let more : m s == 0 ≡ false = ground (arith, h.0, h.1) in rw more rest

-- The call returns, and memory is as if `n` bytes had moved at once.
pub record Copied (n : ℕ) (m : Bytes) (d s : ℕ) (out : Option Bytes) : Type 0 where
  pub after : Bytes
  pub returns : out ≡ some after
  pub moved : (a : ℕ) → after a ≡ block n m d s a

-- With more fuel than the string has characters, and a destination that does not start inside the
-- string behind its first byte, the copy returns and has moved the characters and the terminator.
pub strcpy-Copied :
    (fuel : ℕ) (m : Bytes) (d s : ℕ) (cs : List ℕ)
    → length cs < fuel
    → (d ≤ s) ⊎ (s + length cs < d)
    → HasText m s cs
    → Copied (suc (length cs)) m d s (strcpy fuel m d s)
strcpy-Copied fuel m d s cs enough apart h = record {
  after = copy_up (suc (length cs)) m d s;
  returns = strcpy-copy_up fuel m d s cs enough apart h;
  moved = copy_up-block (suc (length cs)) m d s (ground arith);
}
