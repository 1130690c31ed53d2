-- ===== src/Dylib/Load/Tests.antt =====
-- Runs of the import resolution, of the file read and of the list of modules of ntdylib.
use free_nt.Base.{
  ℕ, zero, suc, ◌+◌, ◌^◌, ◌≡◌, inl, inr, refl, true, none, some, List, [], ◌∷◌, update, arith,
  NtStatus,
}
use free_nt.Crt.Memory.{Bytes}
use free_nt.Dylib.{Module, read32}
use free_nt.Dylib.Exports.{find_export, find_in_table, find_ordinal, function_at}
use free_nt.Dylib.Imports.{find_import, resolve_thunks}
use free_nt.Dylib.Imports.Table.{Agrees, read32-Agrees, Resolved, resolve_thunks-Resolved}
use free_nt.Dylib.Modules.{
  has_name, remove_module, unload_dll, drop_module, load_again, get_module_handle, set_references,
}
use free_nt.Dylib.Files.{LoadAnswers, read_file}
use free_nt.Dylib.Files.Content.{read_file-concat}
use free_nt.Dylib.Library.{Library, init, dll_main}
use free_nt.Dylib.Load.{load_dll}
use free_nt.Dylib.Load.Live.{AllLive, Reach, here, next, entry, load, unload, Reach-AllLive}

-- At 4096 a module that exports its function at 48 with ordinal 1; at 256 a thunk for ordinal 1.
abbrev exports : Bytes
exports =
    update
      (update
        (update (update (update (update (update (λ a. 0) 8301 1) 8304 40) 4368 1) 4372 1) 4381 2)
        4608 48)
      256 1

abbrev images : Bytes
images = update exports 263 128

abbrev provider : Module
provider = record {
  entry = 16;
  base_address = 4096;
  full_path = none;
  base_name = none;
  size_of_image = 4096;
  flags = 0;
  reference_count = 1;
  headers = 8192;
}

found_by_ordinal :
    (m' : Bytes)
    → Agrees 512 520 images m'
    → find_import 1 m' 0 (some provider) (2 ^ 63 + 1) ≡ some 4144
unfolding find_import find_export find_in_table find_ordinal function_at
found_by_ordinal m' same =
    let directory : read32 m' 8300 ≡ 256 =
      read32-Agrees 512 520 images m' 8300 (inr (omega arith)) same in
    let size : read32 m' 8304 ≡ 40 =
      read32-Agrees 512 520 images m' 8304 (inr (omega arith)) same in
    let base : read32 m' 4368 ≡ 1 = read32-Agrees 512 520 images m' 4368 (inr (omega arith)) same in
    let count : read32 m' 4372 ≡ 1 =
      read32-Agrees 512 520 images m' 4372 (inr (omega arith)) same in
    let functions : read32 m' 4380 ≡ 512 =
      read32-Agrees 512 520 images m' 4380 (inr (omega arith)) same in
    let rva : read32 m' 4608 ≡ 48 = read32-Agrees 512 520 images m' 4608 (inr (omega arith)) same in
    rw (directory, size, find_in_table, find_ordinal, base, count, function_at, functions, rva) refl

resolve_thunks-Resolved_example :
    Resolved images
      ((2 ^ 63 + 1) ∷ [])
      (λ v. 4144)
      512
      (resolve_thunks 2 1 images 0 (some provider) 256 512)
resolve_thunks-Resolved_example =
    resolve_thunks-Resolved 2 1 images 0 (some provider) (λ v. 4144) ((2 ^ 63 + 1) ∷ []) 256 512
      (omega arith) (refl, (λ e. omega arith), refl) (inl (omega arith)) (found_by_ordinal, tt)
      (omega arith, tt)

-- Two pieces, and then STATUS_END_OF_FILE of the kernel.
abbrev answers : ℕ → NtStatus × List ℕ
answers zero = (0, 1 ∷ 2 ∷ [])
answers (suc zero) = (0, 3 ∷ [])
answers (suc (suc i)) = (0xC0000011, [])

read_file-concat_example : read_file 3 answers (λ i. true) ≡ some []
read_file-concat_example =
    read_file-concat answers (λ i. true) 3 ((1 ∷ 2 ∷ []) ∷ (3 ∷ []) ∷ []) (omega arith)
      (refl, refl, cc, refl, (refl, refl, cc, refl, tt)) (inr refl)

-- The kernel gives nothing.
abbrev silent : LoadAnswers
silent = record {
  ansi_name = true;
  unicode_name = true;
  create_file = λ name. (0xC0000034, 0);
  read_answer = λ i. (0xC0000011, []);
  grown = λ i. true;
  image_buffer = 0;
  allocate = λ base size. (0xC0000017, 0, 0);
  module_buffer = 32;
  full_path = true;
  base_name = true;
  stale_image_base = 0;
  system = none;
  name_buffers = λ i. 0;
  module_buffers = λ i. 0;
}

-- The provider under the name "a", with its references; a second module stands in front of it.
abbrev named : ℕ → Module
named n = record provider { base_name = some (b'a' ∷ []); reference_count = n }

abbrev first : Module
first = record provider { entry = 24; base_address = 65536 }

abbrev modules_before : List Module
modules_before = first ∷ named 1 ∷ []

abbrev before : Library
before = record {
  initialized = true;
  loader = record { modules = modules_before; detached = []; released = [] };
  memory = images;
  attached = [];
  buffers = 0;
}

abbrev after_load : Library
after_load = record before { loader = record before.loader { modules = first ∷ named 2 ∷ [] } }

loaded_again : load_dll 1 1 silent (some (b'a' ∷ [])) 0 before ≡ some (some (named 2), after_load)
unfolding load_dll init load_again get_module_handle set_references has_name
loaded_again = refl

-- The library is attached, the module "a" loaded once more, and the module in front unloaded.
abbrev calls :
    Reach before
      (record after_load { loader = (unload_dll images after_load.loader (some first)).1 })
unfolding dll_main
calls =
    next
      (next (next here (entry before 1 true)) (
        load 1 1 silent (some (b'a' ∷ [])) 0 before (some (named 2)) after_load
          (omega arith, (omega arith, tt)) loaded_again))
      (unload after_load (some first) (inl refl))

-- One module is left, with both its references.
Reach-AllLive_example : AllLive 2 (named 2 ∷ [])
unfolding dll_main unload_dll drop_module remove_module
Reach-AllLive_example = Reach-AllLive 1 calls (omega arith) (
  omega arith,
  omega arith,
  omega arith,
  (omega arith, tt),
  (omega arith, omega arith, omega arith, tt, tt),
)
