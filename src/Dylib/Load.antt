-- ===== src/Dylib/Load.antt =====
-- `NtdylibLoadDll` of ntdylib/src/loader.c, from the file to the list of modules. Heap buffers lie outside
-- the images.
pub mod Outcome
pub mod Live
mod Tests
use free_nt.Base.{
  ℕ, ◌+◌, true, false, ◌&&◌, ◌||◌, not, Option, none, some, List, [], ◌∷◌, ◌==◌, if◌then◌else◌, u32,
  NtStatus, nt_success, status_success,
}
use free_nt.Crt.Memory.{Bytes, memcpy, memset}
use free_nt.Dylib.{
  Ptr, Module, e_lfanew, parse_headers, image_base, size_of_image, size_of_headers,
  address_of_entry_point,
}
use free_nt.Dylib.Sections.{Protection, map_image_sections}
use free_nt.Dylib.Relocs.{process_relocs}
use free_nt.Dylib.Modules.{load_again}
use free_nt.Dylib.Imports.{Providers, resolve_imports}
use free_nt.Dylib.Library.{Library, init}
use free_nt.Dylib.Files.{LoadAnswers, base_name_of, store_bytes, open_and_read}

-- The memory of the image: at the base that it prefers, or where the kernel chooses.
unfoldable pub allocate_image : LoadAnswers → Bytes → (headers : Ptr) → Option (Ptr × ℕ)
allocate_image k m headers =
    let size =
      if size_of_image m headers == 0 then size_of_headers m headers else size_of_image m headers in
    let (status, base, rounded) = k.allocate (image_base m headers) size in
    let (status', base', rounded') = k.allocate 0 size in
    if nt_success status && not (base == 0)
    then some (base, rounded)
    else if nt_success status' && not (base' == 0)
    then some (base', rounded')
    else none

-- An image in memory: its base, its size, its headers there, memory, and the protections asked for.
pub record Mapped : Type 0 where
  pub base : Ptr
  pub size : ℕ
  pub headers : Ptr
  pub memory : Bytes
  pub protections : List Protection

-- The steps from the copy of the file at `image` to the mapped sections.
unfoldable pub map_headers_and_sections : Bytes → (image headers base : Ptr) → (size : ℕ) → Mapped
map_headers_and_sections m image headers base size =
    let zeroed = memset m base 0 size in
    let copied = memcpy zeroed base image (size_of_headers zeroed headers) in
    let (memory, protections) = map_image_sections copied image base headers in
    record {
      base = base;
      size = size;
      headers = base + e_lfanew copied image;
      memory = memory;
      protections = protections;
    }

unfoldable pub map_file : LoadAnswers → Bytes → (content : List ℕ) → Option Mapped
unfolding map_headers_and_sections allocate_image store_bytes
map_file k m [] = none
map_file k m (c ∷ cs) =
    let m' = store_bytes m k.image_buffer (c ∷ cs) in
    let (status, found) = parse_headers m' k.image_buffer true in
    elim found [
      | none ↦ none
      | some headers ↦
          if not (nt_success status) || headers == 0
          then none
          else elim (allocate_image k m' headers) [
            | none ↦ none
            | some (base, size) ↦
                some (map_headers_and_sections m' k.image_buffer headers base size)
          ]
    ]

-- The module structure of a mapped image.
abbrev pub module_of : LoadAnswers → (name : List ℕ) → (flags : ℕ) → Mapped → Module
module_of k name flags i = record {
  entry = k.module_buffer;
  base_address = i.base;
  full_path = if k.full_path then some name else none;
  base_name = if k.base_name then some (base_name_of name) else none;
  size_of_image = u32 i.size;
  flags = flags;
  reference_count = 1;
  headers = i.headers;
}

-- The relocations, if the image is not at the base that it prefers.
unfoldable pub relocate : (fuel : ℕ) → LoadAnswers → Module → Bytes → Option (NtStatus × Bytes)
relocate fuel k module_ m =
    if module_.base_address == k.stale_image_base
    then some (status_success, m)
    else process_relocs fuel m (some module_) module_.base_address

-- The module in front of the list, its imports, and its entry point.
unfoldable pub link_module :
    (rounds fuel : ℕ) → LoadAnswers → Module → Bytes → Library → Option Library
link_module rounds fuel k module_ m l =
    let modules = module_ ∷ l.loader.modules in
    let providers : Providers = record {
      modules = modules;
      system = k.system;
      name_buffer = k.name_buffers;
      module_buffer = k.module_buffers;
    } in
    elim (resolve_imports rounds fuel providers (some module_)
      (record { memory = m; buffers = l.buffers })) [
        | none ↦ none
        | some (status, s) ↦
            let entry = address_of_entry_point s.memory module_.headers in
            some (record l {
              loader = record l.loader { modules = modules };
              memory = s.memory;
              attached =
                  if nt_success status && not (entry == 0)
                  then (module_.base_address + entry) ∷ l.attached
                  else l.attached;
              buffers = s.buffers;
            })
      ]

-- Image memory given back to the kernel.
abbrev pub release : Ptr → Library → Library
release base l = record l { loader = record l.loader { released = base ∷ l.loader.released } }

-- The end of `NtdylibLoadDll`, for a mapped image.
unfoldable pub finish_load :
    (rounds fuel : ℕ)
    → LoadAnswers
    → (name : List ℕ) → (flags : ℕ) → Mapped
    → Library
    → Option (Option Module × Library)
unfolding relocate link_module
finish_load rounds fuel k name flags i l =
    let module_ = module_of k name flags i in
    let mapped = record l { memory = i.memory } in
    elim (k.module_buffer == 0) [
      | true ↦ some (none, release i.base mapped)
      | false ↦ elim (relocate fuel k module_ i.memory) [
        | none ↦ none
        | some (status, m) ↦ elim (nt_success status) [
          | false ↦ some (none, release i.base (record mapped { memory = m }))
          | true ↦ elim (link_module rounds fuel k module_ m mapped) [
            | none ↦ none
            | some l' ↦ some (some module_, l')
          ]
        ]
      ]
    ]

-- The load of a library that is not in the list.
unfoldable pub load_new :
    (rounds fuel : ℕ)
    → LoadAnswers
    → (name : List ℕ) → (flags : ℕ) → Library
    → Option (Option Module × Library)
unfolding open_and_read map_file finish_load
load_new rounds fuel k name flags l = elim (open_and_read fuel k name) [
  | none ↦ none
  | some content ↦ elim (map_file k l.memory content) [
    | none ↦ some (none, l)
    | some i ↦ finish_load rounds fuel k name flags i l
  ]
]

-- `NtdylibLoadDll`; the name is `none` for NULL.
unfoldable pub load_dll :
    (rounds fuel : ℕ)
    → LoadAnswers
    → (name : Option (List ℕ)) → (flags : ℕ) → Library
    → Option (Option Module × Library)
unfolding init load_new
load_dll rounds fuel k name flags l =
    let l' = (init l).1 in
    elim name [
      | none ↦ some (none, l')
      | some [] ↦ some (none, l')
      | some (c ∷ cs) ↦
          let (found, loader) = load_again l'.loader (c ∷ cs) in
          elim found [
            | some module_ ↦ some (some module_, record l' { loader = loader })
            | none ↦ load_new rounds fuel k (c ∷ cs) flags l'
          ]
    ]
