-- ===== src/Rtl/Handles.antt =====
-- GetModuleHandleA and GetModuleHandleW of freedll/src/stringconv.c: the search in the list of modules
-- that the kernel's loader keeps in the PEB. A name buffer is the list of its characters before the NUL.
use free_nt.Base.{
  ℕ, ◌+◌, ◌*◌, Bool, false, ◌&&◌, Option, none, some, List, [], ◌∷◌, map, length, ltb, ◌==◌,
  if◌then◌else◌,
}
use free_nt.Crt.Wide.{wcscmp, is_zero}

-- LDR_DATA_TABLE_ENTRY, the fields that are read; `name_length` counts bytes, and a name is `none` if
-- its buffer is NULL.
pub record LdrEntry : Type 0 where
  pub dll_base : ℕ
  pub base_dll_name : Option (List ℕ)
  pub name_length : ℕ

-- `(WCHAR)c` for a signed `char`
abbrev pub widen : ℕ → ℕ
widen c = if ltb c 128 then c else 0xFF00 + c

-- The test on an entry by GetModuleHandleA. The name fits the buffer of 256 characters.
unfoldable pub has_name_a : (name : List ℕ) → LdrEntry → Bool
has_name_a name e = elim e.base_dll_name [
  | none ↦ false
  | some buffer ↦
      ltb 0 e.name_length
      && (length name * 2 == e.name_length && is_zero (wcscmp buffer (map widen name)))
]

-- The test on an entry by GetModuleHandleW.
unfoldable pub has_name_w : (name : List ℕ) → LdrEntry → Bool
has_name_w name e = elim e.base_dll_name [
  | none ↦ false
  | some buffer ↦ ltb 0 e.name_length && is_zero (wcscmp buffer name)
]

-- The walk in load order.
unfoldable pub find_entry : (LdrEntry → Bool) → List LdrEntry → ℕ
find_entry matches [] = 0
find_entry matches (e ∷ es) =
    let rest = find_entry matches es in if matches e then e.dll_base else rest

abbrev pub first_base : List LdrEntry → ℕ
first_base [] = 0
first_base (e ∷ es) = e.dll_base

-- `GetModuleHandleA` and `GetModuleHandleW`; the list is `none` if the PEB or its Ldr is NULL.
unfoldable pub get_module_handle_a : Option (List LdrEntry) → Option (List ℕ) → ℕ
unfolding find_entry has_name_a
get_module_handle_a none name = 0
get_module_handle_a (some es) none = first_base es
get_module_handle_a (some es) (some name) = find_entry (has_name_a name) es

unfoldable pub get_module_handle_w : Option (List LdrEntry) → Option (List ℕ) → ℕ
unfolding find_entry has_name_w
get_module_handle_w none name = 0
get_module_handle_w (some es) none = first_base es
get_module_handle_w (some es) (some name) = find_entry (has_name_w name) es
