-- ===== src/Dylib/Modules/Names.antt =====
-- Lookup of a module by its name, ntdylib/src/exports.c.
use free_nt.Base.{
  HasNoNul, ℕ, ◌≡◌, ◌≢◌, ◌⊎◌, inl, inr, refl, ap, ap₂, true, false, Option, none, some, List, [],
  ◌∷◌, ◌++◌, Bool-cases, arith, ℕ_discrete,
}
use free_nt.Dylib.{Module}
use free_nt.Crt.Wide.{wcscmp, is_zero}
use free_nt.Dylib.Modules.{has_name, find_from, find_module_by_name, search_name}

wcscmp_same : (cs ds : List ℕ) → HasNoNul cs → HasNoNul ds → is_zero (wcscmp cs ds) ≡ true → cs ≡ ds
unfolding wcscmp
wcscmp_same [] [] h k e = refl
wcscmp_same [] (d ∷ ds) h k e = absurd (k.0 (ground arith))
wcscmp_same (c ∷ cs) [] h k e = absurd (h.0 (ground arith))
wcscmp_same (c ∷ cs) (d ∷ ds) h k e = elim (ℕ_discrete c d) [
  | yes same ↦ ap₂ (λ x xs. x ∷ xs) same (wcscmp_same cs ds h.1 k.1 (ground arith))
  | no differ ↦ absurd (differ (ground arith))
]

wcscmp_refl : (cs : List ℕ) → is_zero (wcscmp cs cs) ≡ true
unfolding wcscmp
wcscmp_refl [] = refl
wcscmp_refl (c ∷ cs) = ground (arith, wcscmp_refl cs)

-- The names of the modules have no terminator inside.
abbrev pub AllNamed : List Module → Type 0
AllNamed [] = Unit {0}
AllNamed (m ∷ ms) = ((cs : List ℕ) → m.base_name ≡ some cs → HasNoNul cs) × AllNamed ms

-- No module of the list has the name.
abbrev pub NoneNamed : List ℕ → List Module → Type 0
NoneNamed name [] = Unit {0}
NoneNamed name (m ∷ ms) = (m.base_name ≢ some name) × NoneNamed name ms

-- The module found is in the list with the name, and none before it has the name.
pub record Found (name : List ℕ) (ms : List Module) (m : Module) : Type 0 where
  pub before : List Module
  pub after : List Module
  pub list : ms ≡ before ++ m ∷ after
  pub named : m.base_name ≡ some name
  pub first : NoneNamed name before

differ : (cs name : List ℕ) → is_zero (wcscmp cs name) ≡ false → some cs ≢ some name
differ cs name other e =
    let same : cs ≡ name = ground arith in
    let zero_now : is_zero (wcscmp cs name) ≡ true = rw same (wcscmp_refl name) in ground arith

has_name_cases :
    (name : List ℕ) (o : Option (List ℕ))
    → HasNoNul name
    → ((cs : List ℕ) → o ≡ some cs → HasNoNul cs)
    → ((has_name name o ≡ true) × (o ≡ some name)) ⊎ ((has_name name o ≡ false) × (o ≢ some name))
unfolding has_name
has_name_cases name none h k = inr (refl, λ e. ground arith)
has_name_cases name (some cs) h k = elim (Bool-cases (is_zero (wcscmp cs name))) [
  | inl same ↦ inl (same, ap (λ t. some t) (wcscmp_same cs name (k cs refl) h same))
  | inr other ↦ inr (other, λ e. differ cs name other e)
]

find_from-split :
    (ms : List Module) (name : List ℕ)
    → HasNoNul name
    → AllNamed ms
    → ((m : Module) × (find_from ms name ≡ some m) × Found name ms m)
      ⊎ ((find_from ms name ≡ none) × NoneNamed name ms)
unfolding find_from
find_from-split [] name h k = inr (refl, tt)
find_from-split (m ∷ ms) name h k = elim (has_name_cases name m.base_name h k.0) [
  | inl hit ↦
      inl (m, rw hit.0, record { before = []; after = ms; list = refl; named = hit.1; first = tt })
  | inr miss ↦ elim (find_from-split ms name h k.1) [
    | inl (x, ran, found) ↦ inl (
      x,
      rw miss.0 ran,
      record {
        before = m ∷ found.before;
        after = found.after;
        list = ap (λ t. m ∷ t) found.list;
        named = found.named;
        first = (miss.1, found.first);
      },
    )
    | inr (ran, none_named) ↦ inr (rw miss.0 ran, (miss.1, none_named))
  ]
]

-- A lookup gives the first module of the list whose name is the lower case of the name asked for, and
-- gives none only if no module has that name.
pub find_module_by_name-Found :
    (ms : List Module) (name : List ℕ)
    → HasNoNul (search_name name)
    → AllNamed ms
    → ((m : Module) × (find_module_by_name ms (some name) ≡ some m) × Found (search_name name) ms m)
      ⊎ ((find_module_by_name ms (some name) ≡ none) × NoneNamed (search_name name) ms)
unfolding find_module_by_name
find_module_by_name-Found ms name h k = find_from-split ms (search_name name) h k
