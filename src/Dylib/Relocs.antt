-- ===== src/Dylib/Relocs.antt =====
-- `NtdylibProcessRelocs` of ntdylib/src/loader.c.
pub mod Apply
use free_nt.Base.{
  ℕ, zero, suc, ◌+◌, ◌-◌, ◌*◌, ◌/◌, ◌%◌, ◌^◌, Bool, true, false, ◌&&◌, ◌||◌, Option, none, some,
  leb, ltb, ◌==◌, if◌then◌else◌, u32, u64, NtStatus, status_success, status_invalid_parameter,
}
use free_nt.Crt.Memory.{Bytes}
use free_nt.Dylib.{
  Ptr, Module, read16, read32, read64, write32, write64, image_base, directory_address,
  directory_size,
}

abbrev pub image_directory_entry_basereloc : ℕ
image_directory_entry_basereloc = 2

abbrev pub image_rel_based_highlow : ℕ
image_rel_based_highlow = 1

abbrev pub image_rel_based_dir64 : ℕ
image_rel_based_dir64 = 0

-- One entry of a block, for the page at `page_base`.
unfoldable pub apply_entry : Bytes → (page_base delta entry : ℕ) → Bytes
apply_entry m page_base delta entry =
    let type = entry / 4096 % 16 in
    let patch_addr = page_base + entry % 4096 in
    if type == 0
    then m
    else if type == image_rel_based_highlow
    then write32 m patch_addr (u32 (read32 m patch_addr + delta))
    else if type == image_rel_based_dir64
    then write64 m patch_addr (u64 (read64 m patch_addr + delta))
    else m

-- The entries of a block from `type_offsets` on.
unfoldable pub apply_entries :
    (num_entries : ℕ) → Bytes → (type_offsets page_base delta : ℕ) → Bytes
apply_entries zero m type_offsets page_base delta = m
apply_entries (suc n) m type_offsets page_base delta =
    apply_entries n (apply_entry m page_base delta (read16 m type_offsets)) (type_offsets + 2)
      page_base delta

-- `(block_size - sizeof(IMAGE_BASE_RELOCATION)) / sizeof(WORD)`, by words of 64 bits, as a DWORD.
abbrev pub num_entries : ℕ → ℕ
num_entries block_size = u32 (u64 (block_size + 2 ^ 64 - 8) / 2)

-- The loop over the blocks, on fuel.
unfoldable pub process_blocks :
    (fuel : ℕ) → Bytes → (reloc reloc_end load_base delta : ℕ) → Option Bytes
process_blocks zero m reloc reloc_end load_base delta = none
process_blocks (suc fuel) m reloc reloc_end load_base delta =
    let block_size = read32 m (reloc + 4) in
    let m' =
      apply_entries (num_entries block_size) m (reloc + 8) (load_base + read32 m reloc) delta in
    let rest = process_blocks fuel m' (reloc + block_size) reloc_end load_base delta in
    if ltb reloc reloc_end && ltb 0 block_size then rest else some m

-- `NtdylibProcessRelocs`
unfoldable pub process_relocs :
    (fuel : ℕ) → Bytes → Option Module → (load_base : Ptr) → Option (NtStatus × Bytes)
process_relocs fuel m none load_base = some (status_invalid_parameter, m)
process_relocs fuel m (some module_) load_base =
    let headers = module_.headers in
    let address = directory_address m headers image_directory_entry_basereloc in
    let size = directory_size m headers image_directory_entry_basereloc in
    let delta = u64 (load_base + 2 ^ 64 - image_base m headers) in
    if load_base == 0 || headers == 0
    then some (status_invalid_parameter, m)
    else if size == 0 || address == 0
    then some (status_success, m)
    else if delta == 0
    then some (status_success, m)
    else elim (process_blocks fuel m (load_base + address) (load_base + address + size) load_base
        delta) [ none ↦ none | some m' ↦ some (status_success, m') ]
