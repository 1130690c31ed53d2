-- ===== src/Dylib/Modules/References.antt =====
-- Reference counts of loaded modules, ntdylib/src/exports.c and ntdylib/src/loader.c.
use free_nt.Base.{
  u64, ◌^◌, ℕ, ◌+◌, ◌-◌, ◌<◌, ◌≤◌, ◌≡◌, ◌≢◌, refl, ap, ap₂, ◌∙◌, true, false, some, List, [], ◌∷◌,
  ◌++◌, ◌==◌, if◌then◌else◌, has_flag, Bool-cases, inl, inr, arith,
}
use free_nt.Crt.Memory.{Bytes}
use free_nt.Dylib.{Ptr, Module}
use free_nt.Dylib.Modules.{
  Loader, get_module_handle, set_references, remove_module, load_again, drop_module, unload_dll,
}

-- The modules of the list that stand at the address have the count.
abbrev pub CountAt : Ptr → ℕ → List Module → Type 0
CountAt entry n [] = Unit {0}
CountAt entry n (m ∷ ms) = (m.entry ≡ entry → m.reference_count ≡ n) × CountAt entry n ms

set_references_back :
    (entry n k : ℕ) (ms : List Module)
    → CountAt entry n ms
    → set_references entry n (set_references entry k ms) ≡ ms
unfolding set_references
set_references_back entry n k [] h = refl
set_references_back entry n k (m ∷ ms) h = elim (Bool-cases (m.entry == entry)) [
  | inl here ↦
      let count = h.0 (ground arith) in
      rw (here, here)
        (ap₂ (λ (x : Module) xs. x ∷ xs) (ground arith) (set_references_back entry n k ms h.1))
  | inr other ↦ rw (other, other) (ap (λ xs. m ∷ xs) (set_references_back entry n k ms h.1))
]

pub load_again_found :
    (l : Loader) (name : List ℕ) (m : Module)
    → get_module_handle l.modules (some name) ≡ some m
    → load_again l name ≡ (
      some (record m { reference_count = u64 (m.reference_count + 1) }),
      record l { modules = set_references m.entry (u64 (m.reference_count + 1)) l.modules },
    )
unfolding load_again
load_again_found l name m found = rw (load_again, found)

pub unload_dll_kept :
    (memory : Bytes) (l : Loader) (m : Module)
    → m.base_address ≢ 0
    → 1 < m.reference_count
    → unload_dll memory l (some m)
      ≡ (true, record l { modules = set_references m.entry (m.reference_count - 1) l.modules })
unfolding unload_dll
unload_dll_kept memory l m based more = ground arith

-- Loading a library that is loaded, with less than 2^64 - 1 references, and unloading it again, leaves the
-- loader as it was.
pub unload_dll-load_again :
    (memory : Bytes) (l : Loader) (name : List ℕ) (m : Module)
    → get_module_handle l.modules (some name) ≡ some m
    → m.base_address ≢ 0
    → 0 < m.reference_count
    → m.reference_count + 1 < 2 ^ 64
    → CountAt m.entry m.reference_count l.modules
    → unload_dll memory (load_again l name).1 (load_again l name).0 ≡ (true, l)
unload_dll-load_again memory l name m found based referenced below counts =
    let k : ℕ = u64 (m.reference_count + 1) in
    let again : Module = record m { reference_count = k } in
    let l' : Loader = record l { modules = set_references m.entry k l.modules } in
    let one_less : k - 1 ≡ m.reference_count = omega arith in
    rw (load_again_found l name m found) (
      unload_dll_kept memory l' again based (omega arith)
      ∙ ap (λ ms. (true, record l { modules = ms }))
          (ap (λ n. set_references m.entry n l'.modules) one_less
            ∙ set_references_back m.entry m.reference_count k l.modules counts))

-- No module of the list stands at the address.
abbrev pub NoneAt : Ptr → List Module → Type 0
NoneAt entry [] = Unit {0}
NoneAt entry (m ∷ ms) = (m.entry ≢ entry) × NoneAt entry ms

remove_module_split :
    (m : Module) (before after : List Module)
    → NoneAt m.entry before
    → remove_module m.entry (before ++ m ∷ after) ≡ before ++ after
unfolding remove_module
remove_module_split m [] after h = ground arith
remove_module_split m (x ∷ before) after h =
    let other : x.entry == m.entry ≡ false = ground (arith, h.0) in
    rw other (ap (λ t. x ∷ t) (remove_module_split m before after h.1))

pub unload_dll_dropped :
    (memory : Bytes) (l : Loader) (m : Module)
    → m.base_address ≢ 0
    → m.reference_count ≤ 1
    → unload_dll memory l (some m) ≡ (true, drop_module memory l m)
unfolding unload_dll
unload_dll_dropped memory l m based last = ground arith

-- Unloading with the last reference takes the module, and no other, out of the list, and gives its
-- memory back unless it was loaded as a data file.
pub unload_dll_last :
    (memory : Bytes) (l : Loader) (m : Module) (before after : List Module)
    → m.base_address ≢ 0
    → m.reference_count ≤ 1
    → l.modules ≡ before ++ m ∷ after
    → NoneAt m.entry before
    → ((unload_dll memory l (some m)).0 ≡ true)
      × ((unload_dll memory l (some m)).1.modules ≡ before ++ after)
      × ((unload_dll memory l (some m)).1.released
          ≡ (if has_flag m.flags 2 then l.released else m.base_address ∷ l.released))
unfolding drop_module
unload_dll_last memory l m before after based last listed unique =
    rw (unload_dll_dropped memory l m based last) (
      refl,
      ap (λ ms. remove_module m.entry ms) listed ∙ remove_module_split m before after unique,
      refl,
    )
