-- ===== src/Rtl/Strings.antt =====
-- Counted strings, the version and the time of freedll/src/rtl.c. A structure is `none` for NULL.
use free_nt.Base.{
  ℕ, ◌+◌, ◌/◌, ◌*◌, Option, none, some, List, [], ◌∷◌, ltb, ◌==◌, if◌then◌else◌, has_flag, u16,
  NtStatus, status_success, status_invalid_parameter, status_no_memory, status_buffer_too_small,
}
use free_nt.Crt.Memory.{Bytes, memcpy}
use free_nt.Rtl.Bytes.{write16}

-- UNICODE_STRING and STRING; the lengths count bytes.
pub record CountedString : Type 0 where
  pub length : ℕ
  pub maximum_length : ℕ
  pub buffer : ℕ

-- `RtlCopyUnicodeString`: the destination and memory.
unfoldable pub copy_unicode_string :
    Bytes → (dest src : Option CountedString) → Option CountedString × Bytes
copy_unicode_string m none src = (none, m)
copy_unicode_string m (some dest) none = (some dest, m)
copy_unicode_string m (some dest) (some src) =
    let copy_length =
      if ltb dest.maximum_length src.length then dest.maximum_length else src.length in
    (some (record dest { length = u16 copy_length }), memcpy m dest.buffer src.buffer copy_length)

-- `RtlDuplicateUnicodeString`; `fresh` is what `RtlAllocateHeap` gives.
unfoldable pub duplicate_unicode_string :
    (flags fresh : ℕ)
    → Bytes
    → (src dest : Option CountedString) → NtStatus × Option CountedString × Bytes
duplicate_unicode_string flags fresh m none dest = (status_invalid_parameter, dest, m)
duplicate_unicode_string flags fresh m (some src) none = (status_invalid_parameter, none, m)
duplicate_unicode_string flags fresh m (some src) (some dest) =
    let length = if has_flag flags 1 then src.length + 2 else src.length in
    let copied = memcpy m fresh src.buffer src.length in
    if fresh == 0
    then (status_no_memory, some (record dest { maximum_length = u16 length; buffer = 0 }), m)
    else (
      status_success,
      some (record { length = src.length; maximum_length = u16 length; buffer = fresh }),
      if ltb src.length length then write16 copied (fresh + src.length / 2 * 2) 0 else copied,
    )

-- `RtlAppendUnicodeStringToString` and `RtlAppendStringToString`
unfoldable pub append_string :
    Bytes → (dest src : Option CountedString) → NtStatus × Option CountedString × Bytes
append_string m none src = (status_invalid_parameter, none, m)
append_string m (some dest) none = (status_invalid_parameter, some dest, m)
append_string m (some dest) (some src) =
    if ltb dest.maximum_length (dest.length + src.length)
    then (status_buffer_too_small, some dest, m)
    else (
      status_success,
      some (record dest { length = u16 (dest.length + src.length) }),
      memcpy m (dest.buffer + dest.length) src.buffer src.length,
    )

-- `\REGISTRY\USER`
abbrev pub current_user_key : List ℕ
current_user_key =
    0x5C ∷ b'R' ∷ b'E' ∷ b'G' ∷ b'I' ∷ b'S' ∷ b'T' ∷ b'R' ∷ b'Y' ∷ 0x5C ∷ b'U' ∷ b'S' ∷ b'E' ∷ b'R'
    ∷ []

-- `freent_wcscpy` of a constant
unfoldable pub put_wide : Bytes → (dest : ℕ) → List ℕ → Bytes
put_wide m dest [] = write16 m dest 0
put_wide m dest (c ∷ cs) = put_wide (write16 m dest c) (dest + 2) cs

-- `RtlFormatCurrentUserKeyPath`
unfoldable pub format_current_user_key_path :
    Bytes → (destination : Option CountedString) → NtStatus × Option CountedString × Bytes
unfolding put_wide
format_current_user_key_path m none = (status_buffer_too_small, none, m)
format_current_user_key_path m (some d) =
    if ltb d.maximum_length 30
    then (status_buffer_too_small, some d, m)
    else (status_success, some (record d { length = 28 }), put_wide m d.buffer current_user_key)

-- RTL_OSVERSIONINFOEXW, the fields that are read or written, and `RtlGetVersion`.
pub record VersionInformation : Type 0 where
  pub os_version_info_size : ℕ
  pub major_version : ℕ
  pub minor_version : ℕ
  pub build_number : ℕ
  pub platform_id : ℕ

unfoldable pub get_version : Option VersionInformation → NtStatus × Option VersionInformation
get_version none = (status_invalid_parameter, none)
get_version (some v) = if v.os_version_info_size == 4 then (status_success, some v) else (
  status_success,
  some (record v { major_version = 5; minor_version = 2; build_number = 0; platform_id = 1 }),
)
