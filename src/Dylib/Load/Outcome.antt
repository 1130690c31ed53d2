-- ===== src/Dylib/Load/Outcome.antt =====
-- What a load of ntdylib/src/loader.c leaves behind: one new module in front of the list, or the list as
-- it was.
use std.Path.{subst}
use free_nt.Base.{
  ℕ, ◌≡◌, ◌≢◌, inl, inr, refl, sym, ◌∙◌, NtStatus, Bool, true, false, Option, none, some, List, [],
  ◌∷◌, ◌==◌, if◌then◌else◌, arith, Bool-cases, nt_success,
}
use free_nt.Crt.Memory.{Bytes}
use free_nt.Dylib.{Ptr, Module, parse_headers}
use free_nt.Dylib.Imports.{Providers, ImportState, resolve_imports}
use free_nt.Dylib.Files.{LoadAnswers, open_and_read, store_bytes}
use free_nt.Dylib.Library.{Library}
use free_nt.Dylib.Load.{
  Mapped, allocate_image, map_headers_and_sections, map_file, module_of, relocate, link_module,
  finish_load, load_new, release,
}

-- What holds of a result, if there is one.
abbrev pub Sure {ℓ} : {A : Type ℓ} → (A → Type 0) → Option A → Type 0
Sure P none = Unit {0}
Sure P (some a) = P a

allocate_image-based :
    (k : LoadAnswers) (m : Bytes) (h : Ptr) → Sure (λ (r : Ptr × ℕ). r.0 ≢ 0) (allocate_image k m h)
unfolding allocate_image
allocate_image-based k m h = ground arith

map_headers_and_sections-base :
    (m : Bytes) (image headers base : Ptr) (size : ℕ)
    → (map_headers_and_sections m image headers base size).base ≡ base
unfolding map_headers_and_sections
map_headers_and_sections-base m image headers base size = refl

Sure-if {ℓ} :
    {A : Type ℓ} (P : A → Type 0) (b : Bool) (x : Option A)
    → Sure P x
    → Sure P (if b then none else x)
Sure-if P true x h = tt
Sure-if P false x h = h

abbrev stored : LoadAnswers → Bytes → (c : ℕ) (cs : List ℕ) → Bytes
stored k m c cs = store_bytes m k.image_buffer (c ∷ cs)

map_file_allocated :
    (k : LoadAnswers) (m : Bytes) (c : ℕ) (cs : List ℕ) (headers : Ptr) (place : Option (Ptr × ℕ))
    → (parse_headers (stored k m c cs) k.image_buffer true).1 ≡ some headers
    → allocate_image k (stored k m c cs) headers ≡ place
    → Sure (λ (i : Mapped). i.base ≢ 0) (map_file k m (c ∷ cs))
unfolding map_file
map_file_allocated k m c cs headers none parsed placed =
    rw (map_file, parsed, placed) (Sure-if (λ (i : Mapped). i.base ≢ 0) _ none tt)
map_file_allocated k m c cs headers (some (base, size)) parsed placed =
    let based : Sure (λ (r : Ptr × ℕ). r.0 ≢ 0) (some (base, size)) =
      subst (λ r. Sure (λ (r : Ptr × ℕ). r.0 ≢ 0) r) placed
        (allocate_image-based k (stored k m c cs) headers) in
    let mapped = map_headers_and_sections (stored k m c cs) k.image_buffer headers base size in
    let same = map_headers_and_sections-base (stored k m c cs) k.image_buffer headers base size in
    rw (map_file, parsed, placed)
      (Sure-if (λ (i : Mapped). i.base ≢ 0) _ (some mapped) (λ e. based (sym same ∙ e)))

map_file_parsed :
    (k : LoadAnswers) (m : Bytes) (c : ℕ) (cs : List ℕ) (found : Option Ptr)
    → (parse_headers (stored k m c cs) k.image_buffer true).1 ≡ found
    → Sure (λ (i : Mapped). i.base ≢ 0) (map_file k m (c ∷ cs))
unfolding map_file
map_file_parsed k m c cs none parsed = rw (map_file, parsed) tt
map_file_parsed k m c cs (some headers) parsed =
    map_file_allocated k m c cs headers (allocate_image k (stored k m c cs) headers) parsed refl

map_file-based :
    (k : LoadAnswers) (m : Bytes) (content : List ℕ)
    → Sure (λ (i : Mapped). i.base ≢ 0) (map_file k m content)
unfolding map_file
map_file-based k m [] = tt
map_file-based k m (c ∷ cs) =
    map_file_parsed k m c cs (parse_headers (stored k m c cs) k.image_buffer true).1 refl

abbrev providers_of : LoadAnswers → List Module → Providers
providers_of k modules = record {
  modules = modules;
  system = k.system;
  name_buffer = k.name_buffers;
  module_buffer = k.module_buffers;
}

link_module_resolved :
    (rounds fuel : ℕ) (k : LoadAnswers) (module_ : Module) (m : Bytes) (l : Library)
    (r : Option (NtStatus × ImportState))
    → resolve_imports rounds fuel
        (providers_of k (module_ ∷ l.loader.modules))
        (some module_)
        (record { memory = m; buffers = l.buffers })
      ≡ r
    → Sure
        (λ (l' : Library). l'.loader.modules ≡ module_ ∷ l.loader.modules)
        (link_module rounds fuel k module_ m l)
unfolding link_module
link_module_resolved rounds fuel k module_ m l none resolved = rw (link_module, resolved) tt
link_module_resolved rounds fuel k module_ m l (some (status, s)) resolved =
    rw (link_module, resolved) refl

link_module-front :
    (rounds fuel : ℕ) (k : LoadAnswers) (module_ : Module) (m : Bytes) (l : Library)
    → Sure
        (λ (l' : Library). l'.loader.modules ≡ module_ ∷ l.loader.modules)
        (link_module rounds fuel k module_ m l)
link_module-front rounds fuel k module_ m l =
    link_module_resolved rounds fuel k module_ m l
      (resolve_imports rounds fuel (providers_of k (module_ ∷ l.loader.modules)) (some module_)
        (record { memory = m; buffers = l.buffers }))
      refl

-- A load that fails leaves the list of modules and calls no entry point; one that does not puts a
-- module in front that stands at the new buffer, has a base and one reference.
pub data Outcome (k : LoadAnswers) (l : Library) : Option Module × Library → Type 0 where
  failed :
      (l' : Library)
      → l'.loader.modules ≡ l.loader.modules
      → l'.attached ≡ l.attached
      → Outcome k l (none, l')
  loaded :
      (module_ : Module) (l' : Library)
      → l'.loader.modules ≡ module_ ∷ l.loader.modules
      → module_.entry ≡ k.module_buffer
      → module_.base_address ≢ 0
      → module_.reference_count ≡ 1
      → Outcome k l (some module_, l')

module _ (rounds fuel : ℕ) (k : LoadAnswers) (name : List ℕ) (flags : ℕ) where
  abbrev mapped_into : Mapped → Library → Library
  mapped_into i l = record l { memory = i.memory }

  finish_linked :
      (i : Mapped) (l : Library) (m : Bytes) (status : NtStatus) (linked : Option Library)
      → i.base ≢ 0
      → (k.module_buffer == 0) ≡ false
      → relocate fuel k (module_of k name flags i) i.memory ≡ some (status, m)
      → nt_success status ≡ true
      → link_module rounds fuel k (module_of k name flags i) m (mapped_into i l) ≡ linked
      → Sure
          (λ (l' : Library). l'.loader.modules ≡ module_of k name flags i ∷ l.loader.modules)
          linked
      → Sure (Outcome k l) (finish_load rounds fuel k name flags i l)
  unfolding finish_load
  finish_linked i l m status none based room moved ok link front =
      rw (finish_load, room, moved, ok, link) tt
  finish_linked i l m status (some l') based room moved ok link front =
      rw (finish_load, room, moved, ok, link)
        (loaded (module_of k name flags i) l' front refl based refl)

  finish_relocated :
      (i : Mapped) (l : Library) (moved : Option (NtStatus × Bytes))
      → i.base ≢ 0
      → (k.module_buffer == 0) ≡ false
      → relocate fuel k (module_of k name flags i) i.memory ≡ moved
      → Sure (Outcome k l) (finish_load rounds fuel k name flags i l)
  unfolding finish_load
  finish_relocated i l none based room moved = rw (finish_load, room, moved) tt
  finish_relocated i l (some (status, m)) based room moved = elim (Bool-cases (nt_success status)) [
    | inl ok ↦
        (let link = link_module rounds fuel k (module_of k name flags i) m (mapped_into i l) in
          finish_linked i l m status link based room moved ok refl
            (link_module-front rounds fuel k (module_of k name flags i) m (mapped_into i l)))
    | inr bad ↦
        rw (finish_load, room, moved, bad)
          (failed (release i.base (record l { memory = m })) refl refl)
  ]

  finish_load-Outcome :
      (i : Mapped) (l : Library)
      → i.base ≢ 0
      → Sure (Outcome k l) (finish_load rounds fuel k name flags i l)
  unfolding finish_load
  finish_load-Outcome i l based = elim (Bool-cases (k.module_buffer == 0)) [
    | inl missing ↦ rw (finish_load, missing) (failed (release i.base (mapped_into i l)) refl refl)
    | inr room ↦
        finish_relocated i l (relocate fuel k (module_of k name flags i) i.memory) based room refl
  ]

  load_mapped :
      (l : Library) (content : List ℕ) (place : Option Mapped)
      → open_and_read fuel k name ≡ some content
      → map_file k l.memory content ≡ place
      → Sure (λ (i : Mapped). i.base ≢ 0) place
      → Sure (Outcome k l) (load_new rounds fuel k name flags l)
  unfolding load_new
  load_mapped l content none read placed based = rw (load_new, read, placed) (failed l refl refl)
  load_mapped l content (some i) read placed based =
      rw (load_new, read, placed) (finish_load-Outcome i l based)

  load_read :
      (l : Library) (content : Option (List ℕ))
      → open_and_read fuel k name ≡ content
      → Sure (Outcome k l) (load_new rounds fuel k name flags l)
  unfolding load_new
  load_read l none read = rw (load_new, read) tt
  load_read l (some content) read =
      load_mapped l content (map_file k l.memory content) read refl
        (map_file-based k l.memory content)

  pub load_new-Outcome : (l : Library) → Sure (Outcome k l) (load_new rounds fuel k name flags l)
  load_new-Outcome l = load_read l (open_and_read fuel k name) refl
