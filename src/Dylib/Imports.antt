-- ===== src/Dylib/Imports.antt =====
-- The resolution of imports, `NtdylibResolveImports` of ntdylib/src/exports.c. Sums of addresses stay
-- below 2^64, and the heap buffers of a call lie outside the images.
pub mod Table
use free_nt.Base.{
  ℕ, zero, suc, ◌+◌, ◌-◌, ◌*◌, ◌^◌, Bool, true, false, ◌&&◌, ◌||◌, not, Option, none, some, List,
  [], ◌∷◌, length, leb, ◌==◌, if◌then◌else◌, u16, NtStatus, status_success,
  status_invalid_parameter,
}
use free_nt.Crt.Memory.{Bytes}
use free_nt.Rtl.Handles.{LdrEntry, get_module_handle_a}
use free_nt.Dylib.{
  Ptr, Module, read32, read64, write64, e_lfanew, directory_address, directory_size,
}
use free_nt.Dylib.Exports.{find_export}
use free_nt.Dylib.Modules.{find_module_by_name}

abbrev pub image_directory_entry_import : ℕ
image_directory_entry_import = 1

-- IMAGE_IMPORT_DESCRIPTOR, the fields that are read.
pub record ImportDescriptor : Type 0 where
  pub original_first_thunk : ℕ
  pub name : ℕ
  pub first_thunk : ℕ

abbrev pub import_descriptor_at : Bytes → Ptr → ImportDescriptor
import_descriptor_at m p = record {
  original_first_thunk = read32 m p;
  name = read32 m (p + 12);
  first_thunk = read32 m (p + 16);
}

-- The characters of the string at an address: the loop of `NtdylibAnsiToUnicode`.
unfoldable pub text_at : (fuel : ℕ) → Bytes → Ptr → Option (List ℕ)
text_at zero m p = none
text_at (suc fuel) m p = elim (m p == 0) [
  | true ↦ some []
  | false ↦ elim (text_at fuel m (p + 1)) [ none ↦ none | some cs ↦ some (m p ∷ cs) ]
]

-- The function that a thunk with the value `v` stands for; NULL without a provider.
unfoldable pub find_import :
    (fuel : ℕ) → Bytes → (image : Ptr) → (provider : Option Module) → (v : ℕ) → Option Ptr
find_import fuel m image none v = some 0
find_import fuel m image (some provider) v =
    if leb (2 ^ 63) v
    then find_export fuel m (some provider) 0 (u16 v)
    else find_export fuel m (some provider) (image + v + 2) 0xFFFF

-- The entry of the import address table is patched if there is a function.
abbrev pub patch : Bytes → (thunk proc_addr : Ptr) → Bytes
patch m thunk proc_addr = if proc_addr == 0 then m else write64 m thunk proc_addr

-- The loop over the thunks of a descriptor, for `rounds` entries at most.
unfoldable pub resolve_thunks :
    (rounds fuel : ℕ)
    → Bytes
    → (image : Ptr) → (provider : Option Module) → (orig_thunk thunk : Ptr) → Option Bytes
resolve_thunks zero fuel m image provider orig_thunk thunk = none
resolve_thunks (suc rounds) fuel m image provider orig_thunk thunk =
    elim (read64 m orig_thunk == 0) [
      | true ↦ some m
      | false ↦ elim (find_import fuel m image provider (read64 m orig_thunk)) [
        | none ↦ none
        | some proc_addr ↦
            resolve_thunks rounds fuel (patch m thunk proc_addr) image provider (orig_thunk + 8)
              (thunk + 8)
      ]
    ]

-- The address of the structure for a module of the system, which `RtlZeroMemory` and three assignments
-- fill.
abbrev pub system_module : Bytes → (entry base : Ptr) → Module
system_module m entry base = record {
  entry = entry;
  base_address = base;
  full_path = none;
  base_name = none;
  size_of_image = 0;
  flags = 0;
  reference_count = 0;
  headers = base + e_lfanew m base;
}

-- Memory, and the number of heap buffers in use.
pub record ImportState : Type 0 where
  pub memory : Bytes
  pub buffers : ℕ

-- What a call is given: the loaded modules, the modules of the system, and for each descriptor what
-- `RtlAllocateHeap` gives for the name and for the structure of a provider, 0 for NULL.
pub record Providers : Type 0 where
  pub modules : List Module
  pub system : Option (List LdrEntry)
  pub name_buffer : ℕ → Ptr
  pub module_buffer : ℕ → Ptr

-- The provider of the module with the name, and whether its structure is a new buffer.
unfoldable pub find_provider : Bytes → Providers → (i : ℕ) → (name : List ℕ) → Option Module × Bool
find_provider m p i name = elim (find_module_by_name p.modules (some name)) [
  | some provider ↦ (some provider, false)
  | none ↦
      let hmodule = get_module_handle_a p.system (some name) in
      if hmodule == 0 || p.module_buffer i == 0
      then (none, false)
      else (some (system_module m (p.module_buffer i) hmodule), true)
]

-- Whether a module is in the list, by its address.
abbrev pub is_listed : List Module → Ptr → Bool
is_listed [] entry = false
is_listed (m ∷ ms) entry = m.entry == entry || is_listed ms entry

-- The buffer of a provider that is given back.
abbrev pub freed : Providers → (base : Ptr) → Option Module → ℕ
freed p base none = 0
freed p base (some provider) =
    if not (provider.base_address == base) && not (is_listed p.modules provider.entry) then 1 else 0

-- The thunks of a descriptor, if it has both tables.
abbrev pub resolve_table :
    (rounds fuel : ℕ)
    → Bytes
    → (image : Ptr) → (provider : Option Module) → ImportDescriptor
    → Option Bytes
resolve_table rounds fuel m image provider d =
    if d.first_thunk == 0 || d.original_first_thunk == 0
    then some m
    else resolve_thunks rounds fuel m image provider (image + d.original_first_thunk)
        (image + d.first_thunk)

-- The body of the loop over the descriptors.
unfoldable pub resolve_descriptor :
    (rounds fuel : ℕ)
    → Providers
    → (i : ℕ) → (image : Ptr) → ImportDescriptor
    → ImportState
    → Option ImportState
unfolding resolve_thunks find_provider
resolve_descriptor rounds fuel p i image d s = elim (text_at fuel s.memory (image + d.name)) [
  | none ↦ none
  | some name ↦
      let named = not (length name == 0) && not (p.name_buffer i == 0) in
      let (provider, is_new) = if named then find_provider s.memory p i name else (none, false) in
      elim (resolve_table rounds fuel s.memory image provider d) [
        | none ↦ none
        | some m ↦ some (record {
          memory = m;
          buffers =
              s.buffers
              + (if named then 1 else 0)
              + (if is_new then 1 else 0)
              - freed p image provider
              - (if named then 1 else 0);
        })
      ]
]

-- The loop over the descriptors from index `i` on.
unfoldable pub resolve_descriptors :
    (rounds fuel : ℕ)
    → Providers
    → (i : ℕ) → (image import_desc : Ptr) → ImportState
    → Option ImportState
unfolding resolve_descriptor
resolve_descriptors zero fuel p i image import_desc s = none
resolve_descriptors (suc rounds) fuel p i image import_desc s =
    elim ((import_descriptor_at s.memory (import_desc + 20 * i)).name == 0) [
      | true ↦ some s
      | false ↦
          elim (resolve_descriptor rounds fuel p i image
            (import_descriptor_at s.memory (import_desc + 20 * i)) s) [
              | none ↦ none
              | some s' ↦ resolve_descriptors rounds fuel p (i + 1) image import_desc s'
            ]
    ]

-- `NtdylibResolveImports`
unfoldable pub resolve_imports :
    (rounds fuel : ℕ) → Providers → Option Module → ImportState → Option (NtStatus × ImportState)
unfolding resolve_descriptors
resolve_imports rounds fuel p none s = some (status_invalid_parameter, s)
resolve_imports rounds fuel p (some module_) s =
    let address = directory_address s.memory module_.headers image_directory_entry_import in
    let size = directory_size s.memory module_.headers image_directory_entry_import in
    if module_.base_address == 0 || module_.headers == 0
    then some (status_invalid_parameter, s)
    else if address == 0 || size == 0
    then some (status_success, s)
    else elim (resolve_descriptors rounds fuel p 0 module_.base_address
        (module_.base_address + address) s) [ none ↦ none | some s' ↦ some (status_success, s') ]
