-- ===== src/Dylib/Modules.antt =====
-- The list of loaded modules of ntdylib: lookup, unloading and enumeration of ntdylib/src/exports.c and
-- the clean-up of ntdylib/src/loader.c. A wide string is the list of its characters before the NUL.
pub mod Names
pub mod References
use free_nt.Base.{
  u64, ℕ, zero, suc, ◌+◌, ◌-◌, ◌*◌, ◌^◌, Bool, true, false, ◌&&◌, ◌||◌, not, Option, none, some,
  List, [], ◌∷◌, map, take, length, leb, ltb, ◌==◌, if◌then◌else◌, has_flag, ℤ, pos, negsuc, sub_ℕ,
}
use free_nt.Crt.Memory.{Bytes}
use free_nt.Crt.Wide.{wcscmp, is_zero}
use free_nt.Dylib.{Ptr, Module, address_of_entry_point}

-- g_LoadedModules, the list that the `Next` fields make; the entry points that have been called with
-- DLL_PROCESS_DETACH, and the image memory given back.
pub record Loader : Type 0 where
  pub modules : List Module
  pub detached : List Ptr
  pub released : List Ptr

-- The lower case of an ASCII letter.
abbrev pub lower : ℕ → ℕ
lower c = if leb b'A' c && leb c b'Z' then c + 32 else c

-- The name that is searched for: at most MAX_PATH - 1 characters.
abbrev pub search_name : List ℕ → List ℕ
search_name name = map lower (take 259 name)

-- Whether a module's name is the one searched for.
unfoldable pub has_name : List ℕ → Option (List ℕ) → Bool
unfolding wcscmp
has_name name none = false
has_name name (some base_name) = is_zero (wcscmp base_name name)

-- The walk of `NtdylibFindModuleByName`.
unfoldable pub find_from : List Module → (name : List ℕ) → Option Module
find_from [] name = none
find_from (m ∷ ms) name =
    let rest = find_from ms name in if has_name name m.base_name then some m else rest

-- `NtdylibFindModuleByName`
unfoldable pub find_module_by_name : List Module → Option (List ℕ) → Option Module
unfolding find_from
find_module_by_name ms none = none
find_module_by_name ms (some name) = find_from ms (search_name name)

-- `NtdylibGetModuleHandle`
unfoldable pub get_module_handle : List Module → Option (List ℕ) → Option Module
unfolding find_module_by_name
get_module_handle [] none = none
get_module_handle (m ∷ ms) none = some m
get_module_handle ms (some name) = find_module_by_name ms (some name)

-- The reference count of the module at `entry` is set, if it is in the list.
unfoldable pub set_references : Ptr → ℕ → List Module → List Module
set_references entry n [] = []
set_references entry n (m ∷ ms) =
    (if m.entry == entry then record m { reference_count = n } else m) ∷ set_references entry n ms

-- `*prev = Module->Next` for the first link to the module.
unfoldable pub remove_module : Ptr → List Module → List Module
remove_module entry [] = []
remove_module entry (m ∷ ms) =
    let rest = remove_module entry ms in if m.entry == entry then ms else m ∷ rest

-- What `NtdylibLoadDll` does with a library that is loaded already.
unfoldable pub load_again : Loader → (name : List ℕ) → Option Module × Loader
load_again l name = elim (get_module_handle l.modules (some name)) [
  | none ↦ (none, l)
  | some m ↦ (
    some (record m { reference_count = u64 (m.reference_count + 1) }),
    record l { modules = set_references m.entry (u64 (m.reference_count + 1)) l.modules },
  )
]

-- The end of `NtdylibUnloadDll`, once no reference is left.
unfoldable pub drop_module : Bytes → Loader → Module → Loader
drop_module memory l m = record {
  modules = remove_module m.entry l.modules;
  detached =
      if not (m.headers == 0) && not (address_of_entry_point memory m.headers == 0)
      then (m.base_address + address_of_entry_point memory m.headers) ∷ l.detached
      else l.detached;
  released = if has_flag m.flags 2 then l.released else m.base_address ∷ l.released;
}

-- `NtdylibUnloadDll`
unfoldable pub unload_dll : Bytes → Loader → Option Module → Bool × Loader
unload_dll memory l none = (false, l)
unload_dll memory l (some m) =
    let count = if ltb 0 m.reference_count then m.reference_count - 1 else m.reference_count in
    if m.base_address == 0
    then (false, l)
    else if ltb 0 count
    then (true, record l { modules = set_references m.entry count l.modules })
    else (true, drop_module memory l m)

-- `NtdylibGetModules`: the entries stored, and their number.
unfoldable pub get_modules : List Module → (max_count : ℕ) → List Ptr × ℕ
get_modules ms max_count =
    let stored = take max_count (map (λ (m : Module). m.entry) ms) in (stored, length stored)
