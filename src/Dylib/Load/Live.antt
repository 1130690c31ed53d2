-- ===== src/Dylib/Load/Live.antt =====
-- The list of modules of ntdylib over any sequence of loads, unloads and clean-ups,
-- ntdylib/src/loader.c, ntdylib/src/exports.c and ntdylib/src/dllmain.c.
use std.Path.{subst}
use free_nt.Base.{
  ℕ, ◌≤◌, ◌^◌, ◌⊎◌, ap, u64, ◌+◌, ◌-◌, ◌<◌, ◌≡◌, ◌≢◌, inl, inr, refl, sym, Bool, true, false,
  Option, none, some, List, [], ◌∷◌, ◌==◌, arith, Bool-cases, nt_success, ℕ_discrete, dec_lt,
}
use free_nt.Crt.Memory.{Bytes}
use free_nt.Dylib.{Ptr, Module}
use free_nt.Dylib.Modules.{
  Loader, set_references, remove_module, load_again, drop_module, unload_dll, get_module_handle,
  find_from, find_module_by_name, has_name, search_name,
}
use free_nt.Dylib.Modules.References.{NoneAt, load_again_found, unload_dll_kept, unload_dll_dropped}
use free_nt.Dylib.Files.{LoadAnswers}
use free_nt.Dylib.Library.{Library, init, dll_main}
use free_nt.Dylib.Load.{load_new, load_dll}
use free_nt.Dylib.Load.Outcome.{Sure, Outcome, failed, loaded, load_new-Outcome}

-- Every module of the list has a base and between one and `most` references, and stands at an address of
-- its own.
abbrev pub AllLive : (most : ℕ) → List Module → Type 0
AllLive most [] = Unit {0}
AllLive most (m ∷ ms) =
    (m.base_address ≢ 0)
    × (0 < m.reference_count)
    × (m.reference_count ≤ most)
    × NoneAt m.entry ms
    × AllLive most ms

AllLive-weaken : (b b' : ℕ) (ms : List Module) → b ≤ b' → AllLive b ms → AllLive b' ms
AllLive-weaken b b' [] le h = tt
AllLive-weaken b b' (m ∷ ms) le h =
    (h.0, h.1, omega (arith, h.2, le), h.3, AllLive-weaken b b' ms le h.4)

-- The module is one of the list, or NULL.
abbrev pub IsListed : List Module → Option Module → Type 0
IsListed ms none = Unit {0}
IsListed [] (some m) = ⊥
IsListed (x ∷ xs) (some m) = (x ≡ m) ⊎ IsListed xs (some m)

IsListed-bound :
    (b : ℕ) (ms : List Module) (m : Module)
    → IsListed ms (some m)
    → AllLive b ms
    → m.reference_count ≤ b
IsListed-bound b [] m listed h = absurd listed
IsListed-bound b (x ∷ xs) m (inl same) h =
    let count = ap (λ (y : Module). y.reference_count) same in omega (arith, count, h.2)
IsListed-bound b (x ∷ xs) m (inr listed) h = IsListed-bound b xs m listed h.4

find_from-IsListed :
    (ms : List Module) (name : List ℕ) (m : Module)
    → find_from ms name ≡ some m
    → IsListed ms (some m)
unfolding find_from
find_from-IsListed [] name m found = absurd (cc)
find_from-IsListed (x ∷ xs) name m found = elim (Bool-cases (has_name name x.base_name)) [
  | inl here ↦ (let e : some x ≡ some m = rw (find_from, here) at found in inl (cc))
  | inr other ↦
      (let e : find_from xs name ≡ some m = rw (find_from, other) at found in
        inr (find_from-IsListed xs name m e))
]

get_module_handle-IsListed :
    (ms : List Module) (name : List ℕ) (m : Module)
    → get_module_handle ms (some name) ≡ some m
    → IsListed ms (some m)
unfolding get_module_handle find_module_by_name
get_module_handle-IsListed [] name m found = find_from-IsListed [] (search_name name) m found
get_module_handle-IsListed (x ∷ xs) name m found =
    find_from-IsListed (x ∷ xs) (search_name name) m found

set_references-NoneAt :
    (e entry n : ℕ) (ms : List Module) → NoneAt e ms → NoneAt e (set_references entry n ms)
unfolding set_references
set_references-NoneAt e entry n [] h = tt
set_references-NoneAt e entry n (m ∷ ms) h = elim (Bool-cases (m.entry == entry)) [
  | inl here ↦ rw (set_references, here) (h.0, set_references-NoneAt e entry n ms h.1)
  | inr other ↦ rw (set_references, other) (h.0, set_references-NoneAt e entry n ms h.1)
]

set_references-AllLive :
    (b entry n : ℕ) (ms : List Module)
    → 0 < n
    → n ≤ b
    → AllLive b ms
    → AllLive b (set_references entry n ms)
unfolding set_references
set_references-AllLive b entry n [] more most h = tt
set_references-AllLive b entry n (m ∷ ms) more most h =
    let apart = set_references-NoneAt m.entry entry n ms h.3 in
    let rest = set_references-AllLive b entry n ms more most h.4 in
    elim (Bool-cases (m.entry == entry)) [
      | inl here ↦ rw (set_references, here) (h.0, more, most, apart, rest)
      | inr other ↦ rw (set_references, other) (h.0, h.1, h.2, apart, rest)
    ]

remove_module-NoneAt :
    (e entry : ℕ) (ms : List Module) → NoneAt e ms → NoneAt e (remove_module entry ms)
unfolding remove_module
remove_module-NoneAt e entry [] h = tt
remove_module-NoneAt e entry (m ∷ ms) h = elim (Bool-cases (m.entry == entry)) [
  | inl here ↦ rw (remove_module, here) h.1
  | inr other ↦ rw (remove_module, other) (h.0, remove_module-NoneAt e entry ms h.1)
]

remove_module-AllLive :
    (b entry : ℕ) (ms : List Module) → AllLive b ms → AllLive b (remove_module entry ms)
unfolding remove_module
remove_module-AllLive b entry [] h = tt
remove_module-AllLive b entry (m ∷ ms) h = elim (Bool-cases (m.entry == entry)) [
  | inl here ↦ rw (remove_module, here) h.4
  | inr other ↦
      rw (remove_module, other)
        (
          h.0,
          h.1,
          h.2,
          remove_module-NoneAt m.entry entry ms h.3,
          remove_module-AllLive b entry ms h.4,
        )
]

load_again-AllLive :
    (b : ℕ) (l : Loader) (name : List ℕ) (found : Option Module)
    → get_module_handle l.modules (some name) ≡ found
    → b + 1 < 2 ^ 64
    → AllLive b l.modules
    → AllLive (b + 1) (load_again l name).1.modules
unfolding load_again
load_again-AllLive b l name none found below h =
    rw (load_again, found) (AllLive-weaken b (b + 1) l.modules (omega arith) h)
load_again-AllLive b l name (some m) found below h =
    let listed = get_module_handle-IsListed l.modules name m found in
    let count = IsListed-bound b l.modules m listed h in
    let word : u64 (m.reference_count + 1) ≡ m.reference_count + 1 = omega arith in
    rw (load_again_found l name m found) (
      set_references-AllLive (b + 1) m.entry (u64 (m.reference_count + 1)) l.modules
        (omega (arith, word)) (omega (arith, word))
        (AllLive-weaken b (b + 1) l.modules (omega arith) h))

unload_dll_unbased :
    (memory : Bytes) (l : Loader) (m : Module)
    → m.base_address ≡ 0
    → unload_dll memory l (some m) ≡ (false, l)
unfolding unload_dll
unload_dll_unbased memory l m none_at = ground arith

unload_dll-AllLive :
    (b : ℕ) (memory : Bytes) (l : Loader) (m : Option Module)
    → IsListed l.modules m
    → AllLive b l.modules
    → AllLive b (unload_dll memory l m).1.modules
unfolding unload_dll drop_module
unload_dll-AllLive b memory l none listed h = h
unload_dll-AllLive b memory l (some m) listed h = elim (ℕ_discrete m.base_address 0) [
  | yes unbased ↦ rw (unload_dll_unbased memory l m unbased) h
  | no based ↦ elim (dec_lt 1 m.reference_count) [
    | yes more ↦
        let count = IsListed-bound b l.modules m listed h in
        rw (unload_dll_kept memory l m based more) (
          set_references-AllLive b m.entry (m.reference_count - 1) l.modules (omega (arith, more))
            (omega (arith, count)) h)
    | no last ↦
        rw (unload_dll_dropped memory l m based (omega (arith, last)))
          (remove_module-AllLive b m.entry l.modules h)
  ]
]

init-AllLive :
    (b : ℕ) (l : Library) → AllLive b l.loader.modules → AllLive b (init l).1.loader.modules
unfolding init
init-AllLive b l h = elim (Bool-cases l.initialized) [
  | inl ready ↦ rw (init, ready) h
  | inr fresh ↦ rw (init, fresh) tt
]

init-NoneAt :
    (e : Ptr) (l : Library) → NoneAt e l.loader.modules → NoneAt e (init l).1.loader.modules
unfolding init
init-NoneAt e l h = elim (Bool-cases l.initialized) [
  | inl ready ↦ rw (init, ready) h
  | inr fresh ↦ rw (init, fresh) tt
]

dll_main-AllLive :
    (b reason : ℕ) (ready : Bool) (l : Library)
    → AllLive b l.loader.modules
    → AllLive b (dll_main reason (ready, l)).2.loader.modules
unfolding dll_main
dll_main-AllLive b reason true l h = elim (Bool-cases (reason == 1)) [
  | inl attach ↦ rw (dll_main, attach) h
  | inr other ↦ elim (Bool-cases (reason == 0)) [
    | inl detach ↦ rw (dll_main, other, detach) tt
    | inr thread ↦ rw (dll_main, other, thread) h
  ]
]
dll_main-AllLive b reason false l h = elim (Bool-cases (reason == 1)) [
  | inl attach ↦ elim (Bool-cases (nt_success (init l).0)) [
    | inl ok ↦ rw (dll_main, attach, ok) (init-AllLive b l h)
    | inr bad ↦ rw (dll_main, attach, bad) (init-AllLive b l h)
  ]
  | inr other ↦ elim (Bool-cases (reason == 0)) [
    | inl detach ↦ rw (dll_main, other, detach) h
    | inr thread ↦ rw (dll_main, other, thread) h
  ]
]

-- A call of the library: a load whose module structure is a buffer that no module of the list stands
-- at, an unload of a module of the list or of NULL, or the entry point of ntdylib itself.
pub data Step : Library → Library → Type 0 where
  load :
      (rounds fuel : ℕ) (k : LoadAnswers) (name : Option (List ℕ)) (flags : ℕ) (l : Library)
      (result : Option Module) (l' : Library)
      → NoneAt k.module_buffer l.loader.modules
      → load_dll rounds fuel k name flags l ≡ some (result, l')
      → Step l l'
  unload :
      (l : Library) (m : Option Module)
      → IsListed l.loader.modules m
      → Step l (record l { loader = (unload_dll l.memory l.loader m).1 })
  entry : (l : Library) (reason : ℕ) (ready : Bool) → Step l (dll_main reason (ready, l)).2

pub data Reach (l : Library) : Library → Type 0 where
  here : Reach l l
  next : {l' l'' : Library} → Reach l l' → Step l' l'' → Reach l l''

-- The loads among the calls.
abbrev pub loads_in : {l l' : Library} → Step l l' → ℕ
loads_in (load rounds fuel k name flags l result l' unused ran) = 1
loads_in (unload l m listed) = 0
loads_in (entry l reason ready) = 0

abbrev pub loads : {l l' : Library} → Reach l l' → ℕ
loads here = 0
loads (next run step) = loads run + loads_in step

Outcome-AllLive :
    (b : ℕ) (k : LoadAnswers) (l : Library) {r : Option Module × Library}
    → NoneAt k.module_buffer l.loader.modules
    → AllLive b l.loader.modules
    → Outcome k l r
    → AllLive (b + 1) r.1.loader.modules
Outcome-AllLive b k l unused h (failed l' same kept) =
    rw same (AllLive-weaken b (b + 1) l.loader.modules (omega arith) h)
Outcome-AllLive b k l unused h (loaded m l' front at based one) = rw front (
  based,
  omega (arith, one),
  omega (arith, one),
  subst (λ e. NoneAt e l.loader.modules) (sym at) unused,
  AllLive-weaken b (b + 1) l.loader.modules (omega arith) h,
)

Sure-map :
    (P Q : Option Module × Library → Type 0) (x : Option (Option Module × Library))
    → ((r : Option Module × Library) → P r → Q r)
    → Sure P x
    → Sure Q x
Sure-map P Q none k h = tt
Sure-map P Q (some r) k h = k r h

load_named-AllLive :
    (b rounds fuel : ℕ) (k : LoadAnswers) (c : ℕ) (cs : List ℕ) (flags : ℕ) (l : Library)
    (found : Option Module)
    → (load_again (init l).1.loader (c ∷ cs)).0 ≡ found
    → NoneAt k.module_buffer l.loader.modules
    → b + 1 < 2 ^ 64
    → AllLive b l.loader.modules
    → Sure
        (λ (r : Option Module × Library). AllLive (b + 1) r.1.loader.modules)
        (load_dll rounds fuel k (some (c ∷ cs)) flags l)
unfolding load_dll
load_named-AllLive b rounds fuel k c cs flags l (some m) found unused below h =
    rw (load_dll, found)
      (load_again-AllLive b (init l).1.loader (c ∷ cs)
        (get_module_handle (init l).1.loader.modules (some (c ∷ cs))) refl below
        (init-AllLive b l h))
load_named-AllLive b rounds fuel k c cs flags l none found unused below h =
    rw (load_dll, found)
      (Sure-map (Outcome k (init l).1) (λ r. AllLive (b + 1) r.1.loader.modules)
        (load_new rounds fuel k (c ∷ cs) flags (init l).1)
        (λ r outcome.
          Outcome-AllLive b k (init l).1 (init-NoneAt k.module_buffer l unused) (init-AllLive b l h)
            outcome)
        (load_new-Outcome rounds fuel k (c ∷ cs) flags (init l).1))

load_dll-AllLive :
    (b rounds fuel : ℕ) (k : LoadAnswers) (name : Option (List ℕ)) (flags : ℕ) (l : Library)
    → NoneAt k.module_buffer l.loader.modules
    → b + 1 < 2 ^ 64
    → AllLive b l.loader.modules
    → Sure
        (λ (r : Option Module × Library). AllLive (b + 1) r.1.loader.modules)
        (load_dll rounds fuel k name flags l)
unfolding load_dll
load_dll-AllLive b rounds fuel k none flags l unused below h =
    AllLive-weaken b (b + 1) _ (omega arith) (init-AllLive b l h)
load_dll-AllLive b rounds fuel k (some []) flags l unused below h =
    AllLive-weaken b (b + 1) _ (omega arith) (init-AllLive b l h)
load_dll-AllLive b rounds fuel k (some (c ∷ cs)) flags l unused below h =
    load_named-AllLive b rounds fuel k c cs flags l (load_again (init l).1.loader (c ∷ cs)).0 refl
      unused below h

Step-AllLive :
    (b : ℕ) {l l' : Library} (step : Step l l')
    → b + loads_in step < 2 ^ 64
    → AllLive b l.loader.modules
    → AllLive (b + loads_in step) l'.loader.modules
Step-AllLive b (load rounds fuel k name flags l result l' unused ran) below h =
    subst (λ r. Sure (λ (r : Option Module × Library). AllLive (b + 1) r.1.loader.modules) r) ran
      (load_dll-AllLive b rounds fuel k name flags l unused below h)
Step-AllLive b (unload l m listed) below h =
    AllLive-weaken b (b + 0) _ (omega arith) (unload_dll-AllLive b l.memory l.loader m listed h)
Step-AllLive b (entry l reason ready) below h =
    AllLive-weaken b (b + 0) _ (omega arith) (dll_main-AllLive b reason ready l h)

-- From a list in which this holds with at most `b` references to each module, after any sequence of
-- loads, unloads of listed modules and calls of the entry point in which `b` and the number of
-- loads stay below 2^64 together: every loaded module has a base address and between one reference
-- and that sum, and no two modules of the list stand at one address.
pub Reach-AllLive :
    (b : ℕ) {l l' : Library} (run : Reach l l')
    → b + loads run < 2 ^ 64
    → AllLive b l.loader.modules
    → AllLive (b + loads run) l'.loader.modules
Reach-AllLive b here below h = AllLive-weaken b (b + 0) _ (omega arith) h
Reach-AllLive b (next run step) below h =
    let before = Reach-AllLive b run (omega arith) h in
    AllLive-weaken (b + loads run + loads_in step) (b + (loads run + loads_in step)) _ (omega arith)
      (Step-AllLive (b + loads run) step (omega arith) before)
