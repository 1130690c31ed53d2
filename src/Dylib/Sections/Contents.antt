-- ===== src/Dylib/Sections/Contents.antt =====
-- What a section holds and how it is protected once `NtdylibMapImageSections` of ntdylib/src/loader.c
-- has mapped it.
use free_nt.Base.{
  ℕ, zero, suc, ◌+◌, ◌-◌, ◌≤◌, ◌≡◌, ◌⊎◌, inl, inr, refl, ◌∙◌, Bool, true, false, ◌&&◌, leb, ltb,
  if◌then◌else◌, has_flag, Bool-cases, arith,
}
use free_nt.Crt.Memory.{Bytes, memcpy, memset}
use free_nt.Crt.Copy.{block, memcpy-block}
use free_nt.Crt.Fill.{memset-filled}
use free_nt.Dylib.{Ptr}
use free_nt.Dylib.Sections.{
  Section, protect_of, fill_section, copy_size_of, virt_size_of, page_execute_read,
  page_execute_readwrite,
}

-- A section with bit 0x40000000 set, which is IMAGE_SCN_MEM_READ, is given an executable page, and a
-- writable one too if it is writable.
pub protect_of_readable :
    (characteristics : ℕ)
    → has_flag characteristics 0x40000000 ≡ true
    → protect_of characteristics
      ≡ (if has_flag characteristics 0x80000000 then page_execute_readwrite else page_execute_read)
unfolding protect_of
protect_of_readable characteristics readable = rw readable

copied : Bytes → (dest src copy : ℕ) → Bool → Bytes
copied m dest src copy has = if has && ltb 0 copy then memcpy m dest src copy else m

copied_lem :
    (m : Bytes) (dest src copy : ℕ) (has : Bool)
    → (dest ≤ src) ⊎ (src + copy ≤ dest)
    → (a : ℕ) → copied m dest src copy has a ≡ (if has then block copy m dest src a else m a)
unfolding copied
copied_lem m dest src copy false apart a = refl
copied_lem m dest src zero true apart a = ground arith
copied_lem m dest src (suc copy) true apart a =
    let some_copy : ltb 0 (suc copy) ≡ true = ground arith in
    rw some_copy (memcpy-block m dest src (suc copy) apart a)

fill_parts :
    (m : Bytes) (dest src copy virt : ℕ) (has : Bool)
    → (dest ≤ src) ⊎ (src + copy ≤ dest)
    → (a : ℕ)
    → (if ltb copy virt
          then memset (copied m dest src copy has) (dest + copy) 0 (virt - copy)
          else copied m dest src copy has)
        a
      ≡ (if leb (dest + copy) a && ltb a (dest + virt)
          then 0
          else if has
          then block copy m dest src a
          else m a)
fill_parts m dest src copy virt has apart a =
    let below = copied_lem m dest src copy has apart a in
    elim (Bool-cases (ltb copy virt)) [
      | inl longer ↦
          let reach : dest + copy + (virt - copy) ≡ dest + virt = ground arith in
          rw longer (
            memset-filled (copied m dest src copy has) (dest + copy) 0 (virt - copy) a
            ∙ rw (reach, below) refl)
      | inr full ↦
          let outside : leb (dest + copy) a && ltb a (dest + virt) ≡ false = ground arith in
          rw (full, outside) below
    ]

-- The section's byte at `a`: from the file, then zeros, and outside the section what was there.
abbrev pub section_byte : Bytes → (image load_base : Ptr) → Section → ℕ → ℕ
section_byte m image load_base s a =
    if leb (load_base + s.virtual_address + copy_size_of s) a
      && ltb a (load_base + s.virtual_address + virt_size_of s)
    then 0
    else if ltb 0 s.pointer_to_raw_data
    then block (copy_size_of s) m (load_base + s.virtual_address) (image + s.pointer_to_raw_data) a
    else m a

-- Where the image does not lie under the section's start: if the section has a position in the
-- file, a mapped section starts with the bytes of the file from there, as many as SizeOfRawData
-- says or VirtualSize if that is 0, and else with what memory held; behind that many bytes it holds
-- zeros up to its virtual size, and no byte outside of it has changed.
pub fill_section_lem :
    (m : Bytes) (image load_base : Ptr) (s : Section)
    → (load_base + s.virtual_address ≤ image + s.pointer_to_raw_data)
      ⊎ (image + s.pointer_to_raw_data + copy_size_of s ≤ load_base + s.virtual_address)
    → (a : ℕ) → fill_section m image load_base s a ≡ section_byte m image load_base s a
unfolding fill_section copied
fill_section_lem m image load_base s apart a =
    fill_parts m (load_base + s.virtual_address) (image + s.pointer_to_raw_data) (copy_size_of s)
      (virt_size_of s) (ltb 0 s.pointer_to_raw_data) apart a
