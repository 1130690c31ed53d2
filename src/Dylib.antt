-- ===== src/Dylib.antt =====
-- The library loader of ntdylib: images in memory by the structures of ntdylib/include/ntdylib.h, and
-- the parsing of headers in ntdylib/src/loader.c. Memory is a function of the address.
pub mod Relocs
pub mod Sections
pub mod Exports
pub mod Modules
pub mod Imports
pub mod Library
pub mod Files
pub mod Load
mod Tests
use free_nt.Base.{
  ℕ, ◌+◌, ◌-◌, ◌*◌, ◌/◌, ◌%◌, ◌^◌, Bool, true, false, ◌&&◌, ◌||◌, not, Option, none, some, List,
  leb, ltb, ◌==◌, if◌then◌else◌, NtStatus, status_success, status_invalid_parameter,
}
use free_nt.Crt.Memory.{Bytes}

abbrev pub Ptr : Type 0
Ptr = ℕ

-- A WORD, a DWORD and a ULONGLONG at an address, the lowest byte first.
abbrev pub read16 : Bytes → Ptr → ℕ
read16 m a = m a + 256 * m (a + 1)

abbrev pub read32 : Bytes → Ptr → ℕ
read32 m a = m a + 256 * m (a + 1) + 65536 * m (a + 2) + 16777216 * m (a + 3)

abbrev pub read64 : Bytes → Ptr → ℕ
read64 m a = read32 m a + 2 ^ 32 * read32 m (a + 4)

-- A DWORD and a ULONGLONG written.
unfoldable pub write32 : Bytes → Ptr → ℕ → Bytes
write32 m a v b =
    if leb a b && ltb b (a + 4)
    then (if b == a
        then v % 256
        else if b == a + 1
        then v / 256 % 256
        else if b == a + 2
        then v / 65536 % 256
        else v / 16777216 % 256)
    else m b

unfoldable pub write64 : Bytes → Ptr → ℕ → Bytes
unfolding write32
write64 m a v = write32 (write32 m a (v % 2 ^ 32)) (a + 4) (v / 2 ^ 32 % 2 ^ 32)

-- IMAGE_DOS_HEADER: e_magic, and e_lfanew behind fourteen and four words.
abbrev pub e_magic : Bytes → Ptr → ℕ
e_magic m base = read16 m base

abbrev pub e_lfanew : Bytes → Ptr → ℕ
e_lfanew m base = read16 m (base + 36)

abbrev pub image_dos_signature : ℕ
image_dos_signature = 0x5A4D

abbrev pub image_nt_signature : ℕ
image_nt_signature = 0x4554

-- IMAGE_FILE_HEADER of the NT headers at `h`
abbrev pub number_of_sections : Bytes → Ptr → ℕ
number_of_sections m h = read16 m (h + 6)

abbrev pub size_of_optional_header : Bytes → Ptr → ℕ
size_of_optional_header m h = read16 m (h + 20)

-- IMAGE_OPTIONAL_HEADER64 of the NT headers at `h`
abbrev pub address_of_entry_point : Bytes → Ptr → ℕ
address_of_entry_point m h = read32 m (h + 40)

abbrev pub image_base : Bytes → Ptr → ℕ
image_base m h = read64 m (h + 48)

abbrev pub size_of_image : Bytes → Ptr → ℕ
size_of_image m h = read32 m (h + 92)

abbrev pub size_of_headers : Bytes → Ptr → ℕ
size_of_headers m h = read32 m (h + 96)

-- DataDirectory[i]: its address and its size
abbrev pub directory_address : Bytes → Ptr → ℕ → ℕ
directory_address m h i = read32 m (h + 108 + 8 * i)

abbrev pub directory_size : Bytes → Ptr → ℕ → ℕ
directory_size m h i = read32 m (h + 112 + 8 * i)

-- `NtdylibParseHeaders`; its twin for 32 bits differs in the type of the result only. The headers are
-- stored if both pointers are not NULL: NULL at first, then the address.
unfoldable pub parse_headers : Bytes → (base : Ptr) → (has_out : Bool) → NtStatus × Option Ptr
parse_headers m base has_out =
    if base == 0 || not has_out
    then (status_invalid_parameter, none)
    else if e_magic m base == image_dos_signature
    then (if read32 m (base + e_lfanew m base) == image_nt_signature
        then (status_success, some (base + e_lfanew m base))
        else (status_invalid_parameter, some 0))
    else (status_invalid_parameter, some 0)

-- NTDYLIB_MODULE; `entry` is the address of the structure, and a name is `none` if its buffer is NULL.
pub record Module : Type 0 where
  pub entry : Ptr
  pub base_address : Ptr
  pub full_path : Option (List ℕ)
  pub base_name : Option (List ℕ)
  pub size_of_image : ℕ
  pub flags : ℕ
  pub reference_count : ℕ
  pub headers : Ptr
