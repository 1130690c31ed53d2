-- ===== src/Dylib/Files.antt =====
-- The file of a library: its path, its content and its base name, by ntdylib/src/loader.c. What the
-- kernel answers and what `RtlAllocateHeap` gives are arguments; the name of a library has less than 256
-- characters.
pub mod Content
use free_nt.Base.{
  ℕ, zero, suc, ◌+◌, Bool, true, false, ◌||◌, not, Option, none, some, List, [], ◌∷◌, ◌++◌, map,
  take, ◌==◌, if◌then◌else◌, update, u8, NtStatus, nt_success,
}
use free_nt.Crt.Memory.{Bytes}
use free_nt.Rtl.Handles.{LdrEntry}
use free_nt.Dylib.{Ptr}
use free_nt.Dylib.Modules.{lower}

-- STATUS_END_OF_FILE as ntdylib.h has it
abbrev pub status_end_of_file : NtStatus
status_end_of_file = 0xC0000014

-- The loop of `NtdylibReadFile`: the i-th call of `NtReadFile` answers with a status and the bytes that
-- it stores, and `grown` says whether the i-th `RtlReAllocateHeap` gives a buffer. The result is `none`
-- when the fuel runs out, and the empty list for NULL.
unfoldable pub read_file_from :
    (fuel : ℕ)
    → (answer : ℕ → NtStatus × List ℕ) → (grown : ℕ → Bool) → (i : ℕ) → (content : List ℕ)
    → Option (List ℕ)
read_file_from zero answer grown i content = none
read_file_from (suc fuel) answer grown i content =
    let (status, chunk) = answer i in
    elim (nt_success status) [
      | false ↦ if status == status_end_of_file then some content else some []
      | true ↦ elim chunk [
        | [] ↦ some content
        | c ∷ cs ↦ elim (grown i) [
          | false ↦ some []
          | true ↦ read_file_from fuel answer grown (i + 1) (content ++ (c ∷ cs))
        ]
      ]
    ]

-- `NtdylibReadFile`
unfoldable pub read_file :
    (fuel : ℕ) → (answer : ℕ → NtStatus × List ℕ) → (grown : ℕ → Bool) → Option (List ℕ)
unfolding read_file_from
read_file fuel answer grown = read_file_from fuel answer grown 0 []

-- Bytes stored at an address.
unfoldable pub store_bytes : Bytes → Ptr → List ℕ → Bytes
store_bytes m p [] = m
store_bytes m p (c ∷ cs) = store_bytes (update m p c) (p + 1) cs

-- The characters before the first NUL.
abbrev pub until_nul : List ℕ → List ℕ
until_nul [] = []
until_nul (c ∷ cs) = let rest = until_nul cs in if c == 0 then [] else c ∷ rest

-- The NT path that is opened: the low bytes of at most MAX_PATH characters behind `\??\`.
abbrev pub nt_path_of : List ℕ → List ℕ
nt_path_of name = 0x5C ∷ b'?' ∷ b'?' ∷ 0x5C ∷ until_nul (map u8 (take 260 name))

-- `last_sep`: what stands behind the last separator.
abbrev pub is_separator : ℕ → Bool
is_separator c = c == 0x5C || c == b'/'

unfoldable pub behind_last_sep : (path rest : List ℕ) → List ℕ
behind_last_sep [] rest = rest
behind_last_sep (c ∷ cs) rest = behind_last_sep cs (if is_separator c then cs else rest)

abbrev pub base_name_of : List ℕ → List ℕ
base_name_of path = map lower (behind_last_sep path path)

-- What a load is given: the kernel's answers, the buffers of the heap (0 for NULL), and the ImageBase
-- that is read from the copy of the file after its buffer has been given back.
pub record LoadAnswers : Type 0 where
  pub ansi_name : Bool
  pub unicode_name : Bool
  pub create_file : List ℕ → NtStatus × ℕ
  pub read_answer : ℕ → NtStatus × List ℕ
  pub grown : ℕ → Bool
  pub image_buffer : Ptr
  pub allocate : (base : Ptr) → (size : ℕ) → NtStatus × Ptr × ℕ
  pub module_buffer : Ptr
  pub full_path : Bool
  pub base_name : Bool
  pub stale_image_base : Ptr
  pub system : Option (List LdrEntry)
  pub name_buffers : ℕ → Ptr
  pub module_buffers : ℕ → Ptr

-- The file as `NtdylibLoadDll` opens and reads it; empty if that fails.
unfoldable pub open_and_read : (fuel : ℕ) → LoadAnswers → (name : List ℕ) → Option (List ℕ)
unfolding read_file
open_and_read fuel k name =
    let (status, file_handle) = k.create_file (nt_path_of name) in
    if not k.ansi_name || not k.unicode_name
    then some []
    else if not (nt_success status) || file_handle == 0
    then some []
    else read_file fuel k.read_answer k.grown
