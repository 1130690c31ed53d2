-- ===== src/Dylib/Imports/Table.antt =====
-- The import address table after `NtdylibResolveImports` of ntdylib/src/exports.c.
use free_nt.Base.{
  ℕ, zero, suc, ◌+◌, ◌*◌, ◌/◌, ◌%◌, ◌^◌, ◌<◌, ◌≤◌, ◌≡◌, ◌≢◌, ◌⊎◌, inl, inr, refl, ap, ◌∙◌, Option,
  some, List, [], ◌∷◌, map, length, get_or, ◌==◌, if◌then◌else◌, arith, false, true, Bool-cases,
}
use free_nt.Crt.Memory.{Bytes}
use free_nt.Dylib.{Ptr, Module, read32, read64, write32, write64}
use free_nt.Dylib.Imports.{find_import, patch, resolve_thunks}

read32-write32 : (m : Bytes) (a v : ℕ) → v < 2 ^ 32 → read32 (write32 m a v) a ≡ v
unfolding write32
read32-write32 m a v h = ground arith

read32-write32_other :
    (m : Bytes) (a b v : ℕ) → (b + 4 ≤ a) ⊎ (a + 4 ≤ b) → read32 (write32 m a v) b ≡ read32 m b
unfolding write32
read32-write32_other m a b v apart = ground arith

write64-outside : (m : Bytes) (t v a : ℕ) → (a < t) ⊎ (t + 8 ≤ a) → write64 m t v a ≡ m a
unfolding write64 write32
write64-outside m t v a apart = ground arith

read64-write64 : (m : Bytes) (t v : ℕ) → v < 2 ^ 64 → read64 (write64 m t v) t ≡ v
unfolding write64
read64-write64 m t v h =
    let low =
      read32-write32_other (write32 m t (v % 2 ^ 32)) (t + 4) t (v / 2 ^ 32 % 2 ^ 32)
        (inl (omega arith)) in
    let low' = read32-write32 m t (v % 2 ^ 32) (omega arith) in
    let high =
      read32-write32 (write32 m t (v % 2 ^ 32)) (t + 4) (v / 2 ^ 32 % 2 ^ 32) (omega arith) in
    omega (arith, low, low', high)

-- Two memories that agree outside `[lo, hi)`
abbrev pub Agrees : (lo hi : ℕ) → Bytes → Bytes → Type 0
Agrees lo hi m m' = (a : ℕ) → (a < lo) ⊎ (hi ≤ a) → m' a ≡ m a

patch-Agrees :
    (lo hi : ℕ) (m m' : Bytes) (t v : ℕ)
    → lo ≤ t
    → t + 8 ≤ hi
    → Agrees lo hi m m'
    → Agrees lo hi m (patch m' t v)
patch-Agrees lo hi m m' t v low high same a out = elim (Bool-cases (v == 0)) [
  | inl none_found ↦ rw none_found (same a out)
  | inr found ↦ rw found (write64-outside m' t v a (ground arith) ∙ same a out)
]

pub read32-Agrees :
    (lo hi : ℕ) (m m' : Bytes) (o : ℕ)
    → (o + 4 ≤ lo) ⊎ (hi ≤ o)
    → Agrees lo hi m m'
    → read32 m' o ≡ read32 m o
read32-Agrees lo hi m m' o out same =
    ground (arith, same o, same (o + 1), same (o + 2), same (o + 3))

read64-Agrees :
    (lo hi : ℕ) (m m' : Bytes) (o : ℕ)
    → (o + 8 ≤ lo) ⊎ (hi ≤ o)
    → Agrees lo hi m m'
    → read64 m' o ≡ read64 m o
read64-Agrees lo hi m m' o out same = ground (
  arith,
  same o,
  same (o + 1),
  same (o + 2),
  same (o + 3),
  same (o + 4),
  same (o + 4 + 1),
  same (o + 4 + 2),
  same (o + 4 + 3),
)

-- The thunks at `o` have the values `vs`, and a 0 ends them.
abbrev pub HasThunks : Bytes → Ptr → List ℕ → Type 0
HasThunks m o [] = read64 m o ≡ 0
HasThunks m o (v ∷ vs) = (read64 m o ≡ v) × (v ≢ 0) × HasThunks m (o + 8) vs

-- The functions `procs` patched into the table at `t`.
abbrev pub patched : List ℕ → Bytes → Ptr → Bytes
patched [] m t = m
patched (p ∷ ps) m t = patched ps (patch m t p) (t + 8)

patched-Agrees :
    (lo hi : ℕ) (m m' : Bytes) (ps : List ℕ) (t : ℕ)
    → lo ≤ t
    → t + 8 * length ps ≤ hi
    → Agrees lo hi m m'
    → Agrees lo hi m (patched ps m' t)
patched-Agrees lo hi m m' [] t low high same = same
patched-Agrees lo hi m m' (p ∷ ps) t low high same =
    patched-Agrees lo hi m (patch m' t p) ps (t + 8) (omega arith) (omega arith)
      (patch-Agrees lo hi m m' t p low (omega arith) same)

-- What an entry holds in the end: the function, or what it held before if there is none.
abbrev pub entry_of : (old proc_addr : ℕ) → ℕ
entry_of old proc_addr = if proc_addr == 0 then old else proc_addr

read64-patch : (m : Bytes) (t p : ℕ) → p < 2 ^ 64 → read64 (patch m t p) t ≡ entry_of (read64 m t) p
read64-patch m t p h = elim (Bool-cases (p == 0)) [
  | inl none_found ↦ rw none_found refl
  | inr found ↦ rw found (read64-write64 m t p h)
]

abbrev pub AllWords : List ℕ → Type 0
AllWords [] = Unit {0}
AllWords (p ∷ ps) = (p < 2 ^ 64) × AllWords ps

patched-entry :
    (m : Bytes) (ps : List ℕ) (t j : ℕ)
    → AllWords ps
    → j < length ps
    → read64 (patched ps m t) (t + 8 * j) ≡ entry_of (read64 m (t + 8 * j)) (get_or ps j 0)
patched-entry m [] t j words l = absurd (omega arith)
patched-entry m (p ∷ ps) t zero words l =
    let at : t + 8 * 0 ≡ t = omega arith in
    let behind =
      patched-Agrees (t + 8) (t + 8 + 8 * length ps) (patch m t p) (patch m t p) ps (t + 8)
        (omega arith) (omega arith) (λ a out. refl) in
    let same =
      read64-Agrees (t + 8) (t + 8 + 8 * length ps) (patch m t p) (patched ps (patch m t p) (t + 8))
        t (inl (omega arith)) behind in
    rw at (same ∙ read64-patch m t p words.0)
patched-entry m (p ∷ ps) t (suc j) words l =
    let at : t + 8 * suc j ≡ t + 8 + 8 * j = omega arith in
    let before =
      read64-Agrees t (t + 8) m (patch m t p) (t + 8 + 8 * j) (inr (omega arith))
        (patch-Agrees t (t + 8) m m t p (omega arith) (omega arith) (λ a out. refl)) in
    rw at (
      patched-entry (patch m t p) ps (t + 8) j words.1 (omega arith)
      ∙ ap (λ old. entry_of old (get_or ps j 0)) before)

module _ (fuel : ℕ) (m : Bytes) (image : Ptr) (provider : Option Module) (lo hi : ℕ)
    (proc : ℕ → Ptr) where
  -- Each value stands for its function, whatever the table at `[lo, hi)` holds.
  abbrev pub Finds : List ℕ → Type 0
  Finds [] = Unit {0}
  Finds (v ∷ vs) =
      ((m' : Bytes) → Agrees lo hi m m' → find_import fuel m' image provider v ≡ some (proc v))
      × Finds vs

  resolve_next :
      (rounds : ℕ) (m' : Bytes) (o t p : Ptr)
      → (read64 m' o == 0) ≡ false
      → find_import fuel m' image provider (read64 m' o) ≡ some p
      → resolve_thunks (suc rounds) fuel m' image provider o t
        ≡ resolve_thunks rounds fuel (patch m' t p) image provider (o + 8) (t + 8)
  unfolding resolve_thunks
  resolve_next rounds m' o t p more found = rw (resolve_thunks, more, found) refl

  resolve_thunks-patched :
      (rounds : ℕ) (vs : List ℕ) (m' : Bytes) (o t : Ptr)
      → length vs < rounds
      → HasThunks m o vs
      → (o + 8 * suc (length vs) ≤ lo) ⊎ (hi ≤ o)
      → lo ≤ t
      → t + 8 * length vs ≤ hi
      → Agrees lo hi m m'
      → Finds vs
      → resolve_thunks rounds fuel m' image provider o t ≡ some (patched (map proc vs) m' t)
  unfolding resolve_thunks
  resolve_thunks-patched zero vs m' o t enough thunks apart low high same finds =
      absurd (omega arith)
  resolve_thunks-patched (suc rounds) [] m' o t enough thunks apart low high same finds =
      let read = read64-Agrees lo hi m m' o (ground arith) same in
      let ends : (read64 m' o == 0) ≡ true = ground arith in rw (resolve_thunks, ends) refl
  resolve_thunks-patched (suc rounds) (v ∷ vs) m' o t enough thunks apart low high same finds =
      let read : read64 m' o ≡ v = read64-Agrees lo hi m m' o (ground arith) same ∙ thunks.0 in
      let more : (v == 0) ≡ false = ground arith in
      let found : find_import fuel m' image provider (read64 m' o) ≡ some (proc v) =
        ap (λ x. find_import fuel m' image provider x) read ∙ finds.0 m' same in
      let more' : (read64 m' o == 0) ≡ false = ap (λ x. x == 0) read ∙ more in
      resolve_next rounds m' o t (proc v) more' found
      ∙ resolve_thunks-patched rounds vs (patch m' t (proc v)) (o + 8) (t + 8) (omega arith)
          thunks.2 (ground arith) (omega arith) (omega arith)
          (patch-Agrees lo hi m m' t (proc v) low (omega arith) same) finds.1

-- The memory that the loop leaves: each entry of the table holds its function, or what it held before
-- if there is none, and nothing outside the table has changed.
pub record Resolved (m : Bytes) (vs : List ℕ) (proc : ℕ → Ptr) (t : Ptr) (out : Option Bytes)
    : Type 0 where
  pub after : Bytes
  pub returns : out ≡ some after
  pub entry :
      (j : ℕ)
      → j < length vs
      → read64 after (t + 8 * j) ≡ entry_of (read64 m (t + 8 * j)) (proc (get_or vs j 0))
  pub outside : Agrees t (t + 8 * length vs) m after

get_or-map :
    (f : ℕ → ℕ) (xs : List ℕ) (j : ℕ) → j < length xs → get_or (map f xs) j 0 ≡ f (get_or xs j 0)
get_or-map f [] j l = absurd (omega arith)
get_or-map f (x ∷ xs) zero l = refl
get_or-map f (x ∷ xs) (suc j) l = get_or-map f xs j (omega arith)

length-map : (f : ℕ → ℕ) (xs : List ℕ) → length (map f xs) ≡ length xs
length-map f [] = refl
length-map f (x ∷ xs) = omega (arith, length-map f xs)

-- The thunks at `o` have the values `vs` and do not overlap the table at `t`, and each value stands for
-- an address below 2^64, whatever the table holds. With more rounds than there are thunks the loop
-- returns: each entry of the table holds its function, or what it held before if there is none, and
-- nothing outside the table has changed.
pub resolve_thunks-Resolved :
    (rounds fuel : ℕ) (m : Bytes) (image : Ptr) (provider : Option Module) (proc : ℕ → Ptr)
    (vs : List ℕ) (o t : Ptr)
    → length vs < rounds
    → HasThunks m o vs
    → (o + 8 * suc (length vs) ≤ t) ⊎ (t + 8 * length vs ≤ o)
    → Finds fuel m image provider t (t + 8 * length vs) proc vs
    → AllWords (map proc vs)
    → Resolved m vs proc t (resolve_thunks rounds fuel m image provider o t)
resolve_thunks-Resolved rounds fuel m image provider proc vs o t enough thunks apart finds words =
    let hi = t + 8 * length vs in
    let count = length-map proc vs in
    record {
      after = patched (map proc vs) m t;
      returns =
          resolve_thunks-patched fuel m image provider t hi proc rounds vs m o t enough thunks apart
            (omega arith) (omega arith) (λ a out. refl) finds;
      entry = λ j l.
          patched-entry m (map proc vs) t j words (omega (arith, count, l))
          ∙ ap (λ p. entry_of (read64 m (t + 8 * j)) p) (get_or-map proc vs j l);
      outside =
          patched-Agrees t hi m m (map proc vs) t (omega arith) (omega (arith, count))
            (λ a out. refl);
    }
