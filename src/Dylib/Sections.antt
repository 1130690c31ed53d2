-- ===== src/Dylib/Sections.antt =====
-- `NtdylibMapImageSections` of ntdylib/src/loader.c.
pub mod Contents
use free_nt.Base.{
  ℕ, zero, suc, ◌+◌, ◌-◌, ◌*◌, ◌/◌, ◌%◌, ◌^◌, Bool, true, false, ◌&&◌, ◌||◌, List, [], ◌∷◌, leb,
  ltb, ◌==◌, if◌then◌else◌, has_flag,
}
use free_nt.Crt.Memory.{Bytes, memcpy, memset}
use free_nt.Dylib.{Ptr, read32, number_of_sections, size_of_optional_header}

-- IMAGE_SECTION_HEADER, the fields that are read.
pub record Section : Type 0 where
  pub virtual_size : ℕ
  pub virtual_address : ℕ
  pub size_of_raw_data : ℕ
  pub pointer_to_raw_data : ℕ
  pub characteristics : ℕ

abbrev pub section_at : Bytes → Ptr → Section
section_at m p = record {
  virtual_size = read32 m (p + 8);
  virtual_address = read32 m (p + 12);
  size_of_raw_data = read32 m (p + 16);
  pointer_to_raw_data = read32 m (p + 20);
  characteristics = read32 m (p + 36);
}

-- PAGE_READONLY, PAGE_READWRITE, PAGE_EXECUTE_READ and PAGE_EXECUTE_READWRITE
abbrev pub page_readonly : ℕ
page_readonly = 2

abbrev pub page_readwrite : ℕ
page_readwrite = 4

abbrev pub page_execute_read : ℕ
page_execute_read = 0x20

abbrev pub page_execute_readwrite : ℕ
page_execute_readwrite = 0x40

-- The protection flags that a section gets.
unfoldable pub protect_of : ℕ → ℕ
protect_of characteristics =
    if has_flag characteristics 0x40000000
    then (if has_flag characteristics 0x80000000 then page_execute_readwrite else page_execute_read)
    else if has_flag characteristics 0x80000000
    then page_readwrite
    else page_readonly

-- `NtProtectVirtualMemory` as it is asked for: base, size, protection.
pub record Protection : Type 0 where
  pub base : Ptr
  pub size : ℕ
  pub protect : ℕ

-- `copy_size` and `virt_size` as the body of the loop sets them.
abbrev pub copy_size_of : Section → ℕ
copy_size_of s = if s.size_of_raw_data == 0 then s.virtual_size else s.size_of_raw_data

abbrev pub virt_size_of : Section → ℕ
virt_size_of s = if s.virtual_size == 0 then copy_size_of s else s.virtual_size

-- The copy and the zero fill of a section.
unfoldable pub fill_section : Bytes → (image load_base : Ptr) → Section → Bytes
fill_section m image load_base s =
    let dest = load_base + s.virtual_address in
    let m' =
      if ltb 0 s.pointer_to_raw_data && ltb 0 (copy_size_of s)
      then memcpy m dest (image + s.pointer_to_raw_data) (copy_size_of s)
      else m in
    if ltb (copy_size_of s) (virt_size_of s)
    then memset m' (dest + copy_size_of s) 0 (virt_size_of s - copy_size_of s)
    else m'

-- The body of the loop; a section with neither size is passed over.
unfoldable pub map_section :
    Bytes × List Protection → (image load_base : Ptr) → Section → Bytes × List Protection
unfolding fill_section protect_of
map_section (m, asked) image load_base s =
    if s.size_of_raw_data == 0 && s.virtual_size == 0 then (m, asked) else (
      fill_section m image load_base s,
      record {
        base = load_base + s.virtual_address;
        size = virt_size_of s;
        protect = protect_of s.characteristics;
      }
          ∷ asked,
    )

-- The loop, with `left` section headers of 40 bytes from `section` on.
unfoldable pub map_sections :
    (left : ℕ) → Bytes × List Protection → (section image load_base : Ptr) → Bytes × List Protection
map_sections zero r section image load_base = r
map_sections (suc left) r section image load_base =
    map_sections left (map_section r image load_base (section_at r.0 section)) (section + 40) image
      load_base

-- `NtdylibMapImageSections`: memory, and the protections asked for, the last one first.
unfoldable pub map_image_sections :
    Bytes → (image load_base headers : Ptr) → Bytes × List Protection
unfolding map_sections
map_image_sections m image load_base headers =
    map_sections (number_of_sections m headers) (m, [])
      (headers + 24 + size_of_optional_header m headers) image load_base
