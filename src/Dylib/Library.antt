-- ===== src/Dylib/Library.antt =====
-- The state of ntdylib and its life: `NtdylibInit` and `NtdylibCleanup` of ntdylib/src/loader.c, and
-- ntdylib/src/dllmain.c.
use free_nt.Base.{
  ℕ, Bool, true, false, List, [], ◌∷◌, ◌==◌, if◌then◌else◌, NtStatus, nt_success, status_success,
}
use free_nt.Crt.Memory.{Bytes}
use free_nt.Dylib.{Ptr, Module}
use free_nt.Dylib.Modules.{Loader}

-- The state of the library: g_NtdylibInitialized, the loaded modules, memory, the entry points that
-- have been called with DLL_PROCESS_ATTACH, and the heap buffers that imports have taken and kept.
pub record Library : Type 0 where
  pub initialized : Bool
  pub loader : Loader
  pub memory : Bytes
  pub attached : List Ptr
  pub buffers : ℕ

-- `NtdylibInit`
unfoldable pub init : Library → NtStatus × Library
init l = if l.initialized then (status_success, l) else (
  status_success,
  record l { initialized = true; loader = record l.loader { modules = [] } },
)

-- The bases that `NtdylibCleanup` gives back, the last one first.
unfoldable pub release_all : List Module → (released : List Ptr) → List Ptr
release_all [] released = released
release_all (m ∷ ms) released =
    release_all ms (if m.base_address == 0 then released else m.base_address ∷ released)

-- `NtdylibCleanup`
unfoldable pub cleanup : Library → Library
unfolding release_all
cleanup l = record l {
  initialized = false;
  loader = record l.loader {
    modules = [];
    released = release_all l.loader.modules l.loader.released;
  };
}

-- `NtdylibDllMain`, with g_ntdylib_initialized of dllmain.c.
unfoldable pub dll_main : (reason : ℕ) → Bool × Library → Bool × Bool × Library
unfolding init cleanup
dll_main reason (ready, l) =
    if reason == 1
    then (if ready
        then (true, true, l)
        else (let (status, l') = init l in
            if nt_success status then (true, true, l') else (false, false, l')))
    else if reason == 0
    then (if ready then (true, false, cleanup l) else (true, false, l))
    else (true, ready, l)
