-- ===== src/Dylib/Exports.antt =====
-- Export tables, ntdylib/src/exports.c.
pub mod Lookup
use free_nt.Base.{
  ℕ, zero, suc, ◌+◌, ◌-◌, ◌*◌, ◌/◌, ◌%◌, ◌^◌, Bool, true, false, ◌&&◌, ◌||◌, not, Option, none,
  some, leb, ltb, ◌==◌, if◌then◌else◌, u16, u32,
}
use free_nt.Crt.Memory.{Bytes}
use free_nt.Crt.Text.{strcmp}
use free_nt.Dylib.{Ptr, Module, read16, read32, directory_address, directory_size}

-- IMAGE_EXPORT_DIRECTORY, the fields that are read; the tables by their addresses.
pub record ExportTable : Type 0 where
  pub ordinal_base : ℕ
  pub num_functions : ℕ
  pub num_names : ℕ
  pub functions : Ptr
  pub names : Ptr
  pub ordinals : Ptr

abbrev pub export_table_at : Bytes → (base dir : Ptr) → ExportTable
export_table_at m base dir = record {
  ordinal_base = read32 m (dir + 16);
  num_functions = read32 m (dir + 20);
  num_names = read32 m (dir + 24);
  functions = base + read32 m (dir + 28);
  names = base + read32 m (dir + 32);
  ordinals = base + read32 m (dir + 36);
}

-- The address of the function with the index, NULL for an entry that is 0.
unfoldable pub function_at : Bytes → (base : Ptr) → ExportTable → (index : ℕ) → Ptr
function_at m base t index =
    let rva = read32 m (t.functions + 4 * index) in if rva == 0 then 0 else base + rva

-- The search by name, with `left` names from index `i` on: the address if the name is found, `some none`
-- if the search goes on by ordinal. `none` means that the comparison ran out of fuel.
unfoldable pub find_name :
    (fuel left i : ℕ) → Bytes → (base : Ptr) → ExportTable → (name : Ptr) → Option (Option Ptr)
find_name fuel zero i m base t name = some none
find_name fuel (suc left) i m base t name =
    elim (strcmp fuel m (base + read32 m (t.names + 4 * i)) name) [
      | none ↦ none
      | some order ↦ elim (order == 0 && ltb (read16 m (t.ordinals + 2 * i)) t.num_functions) [
        | true ↦ some (some (function_at m base t (read16 m (t.ordinals + 2 * i))))
        | false ↦ find_name fuel left (i + 1) m base t name
      ]
    ]

-- The search by ordinal: the difference of the two words is an `int` that becomes a ULONG.
unfoldable pub find_ordinal : Bytes → (base : Ptr) → ExportTable → (ordinal : ℕ) → Ptr
find_ordinal m base t ordinal =
    let func_index = u32 (ordinal + 2 ^ 32 - u16 t.ordinal_base) in
    if ordinal == 0xFFFF
    then 0
    else if ltb func_index t.num_functions
    then function_at m base t func_index
    else 0

-- Both searches in the table.
unfoldable pub find_in_table :
    (fuel : ℕ) → Bytes → (base : Ptr) → ExportTable → (name : Ptr) → (ordinal : ℕ) → Option Ptr
find_in_table fuel m base t name ordinal =
    if name == 0
    then some (find_ordinal m base t ordinal)
    else elim (find_name fuel t.num_names 0 m base t name) [
      | none ↦ none
      | some none ↦ some (find_ordinal m base t ordinal)
      | some (some address) ↦ some address
    ]

-- `NtdylibFindExport`; NULL is 0.
unfoldable pub find_export :
    (fuel : ℕ) → Bytes → Option Module → (name : Ptr) → (ordinal : ℕ) → Option Ptr
find_export fuel m none name ordinal = some 0
find_export fuel m (some module_) name ordinal =
    if module_.base_address == 0 || module_.headers == 0
    then some 0
    else if directory_address m module_.headers 0 == 0 || directory_size m module_.headers 0 == 0
    then some 0
    else find_in_table fuel m module_.base_address
        (export_table_at m module_.base_address
          (module_.base_address + directory_address m module_.headers 0))
        name ordinal

-- `NtdylibGetProcAddress`: a pointer below 2^16 is an ordinal.
unfoldable pub get_proc_address : (fuel : ℕ) → Bytes → Option Module → (name : Ptr) → Option Ptr
get_proc_address fuel m none name = some 0
get_proc_address fuel m (some module_) name =
    if name / 2 ^ 16 == 0
    then find_export fuel m (some module_) 0 (u16 name)
    else find_export fuel m (some module_) name 0xFFFF
