-- ===== src/Ntvm.antt =====
-- The machine for programs of DOS, ntvm/ntvm.c and ntvm/ntvm.h: its memory lies on the process heap of
-- FreeDLL. `given` says whether the pointer to the machine is not NULL.
pub mod Loaded
pub mod Ready
mod Tests
use free_nt.Base.{
  ℕ, ◌+◌, ◌*◌, ◌-◌, ◌^◌, Bool, true, false, ◌||◌, not, Option, none, some, ltb, ◌==◌, if◌then◌else◌,
  NtStatus, status_success, status_invalid_parameter, status_no_memory, status_buffer_too_small,
}
use free_nt.Heap.{Ptr, Heaps}
use free_nt.Crt.Memory.{Bytes, memcpy, memset}
use free_nt.Crt.Alloc.{calloc, free}

abbrev pub real_mode_memory : ℕ
real_mode_memory = 1024 * 1024

abbrev pub com_load_offset : ℕ
com_load_offset = 0x100

abbrev pub com_segment : ℕ
com_segment = 0x1000

-- NTVM_CPU
pub record NtvmCpu : Type 0 where
  pub ax : ℕ
  pub bx : ℕ
  pub cx : ℕ
  pub dx : ℕ
  pub si : ℕ
  pub di : ℕ
  pub bp : ℕ
  pub sp : ℕ
  pub cs : ℕ
  pub ds : ℕ
  pub es : ℕ
  pub ss : ℕ
  pub ip : ℕ
  pub flags : ℕ

-- NTVM
pub record Ntvm : Type 0 where
  pub memory : Ptr
  pub memory_size : ℕ
  pub cpu : NtvmCpu

-- `freent_memset(vm, 0, sizeof(*vm))`
abbrev pub cleared_cpu : NtvmCpu
cleared_cpu = record {
  ax = 0;
  bx = 0;
  cx = 0;
  dx = 0;
  si = 0;
  di = 0;
  bp = 0;
  sp = 0;
  cs = 0;
  ds = 0;
  es = 0;
  ss = 0;
  ip = 0;
  flags = 0;
}

abbrev pub cleared_vm : Ntvm
cleared_vm = record { memory = 0; memory_size = 0; cpu = cleared_cpu }

-- `NtvmInitialize`, over the arguments of `calloc`.
unfoldable pub initialize_vm :
    ℕ → (fresh again : Ptr) → (given : Bool) → Ntvm → Heaps → Option (NtStatus × Ntvm × Heaps)
initialize_vm fuel fresh again given vm h =
    if not given
    then some (status_invalid_parameter, vm, h)
    else elim (calloc fuel fresh again h 1 real_mode_memory) [
      | none ↦ none
      | some (memory, h') ↦ some (
          if memory == 0 then (status_no_memory, cleared_vm, h') else (
            status_success,
            record cleared_vm { memory = memory; memory_size = real_mode_memory },
            h',
          ))
    ]

-- The registers that `NtvmLoadCom` sets.
abbrev pub start_cpu : NtvmCpu → NtvmCpu
start_cpu cpu = record cpu {
  cs = com_segment;
  ds = com_segment;
  es = com_segment;
  ss = com_segment;
  ip = com_load_offset;
  sp = 0xFFFE;
  flags = 0x0202;
}

-- `NtvmLoadCom`; a NULL image is the address 0.
unfoldable pub load_com :
    (given : Bool) → Ntvm → Bytes → (image image_size : ℕ) → NtStatus × Ntvm × Bytes
load_com given vm m image image_size =
    let base = com_segment * 16 + com_load_offset in
    if not given || vm.memory == 0 || image == 0 || image_size == 0
    then (status_invalid_parameter, vm, m)
    else if ltb 0xFF00 image_size || ltb vm.memory_size (base + image_size)
    then (status_buffer_too_small, vm, m)
    else (let m' = memset m (vm.memory + com_segment * 16) 0 0x10000 in
        (
          status_success,
          record vm { cpu = start_cpu vm.cpu },
          memcpy m' (vm.memory + base) image image_size,
        ))

-- `NtvmDestroy`
unfoldable pub destroy_vm : (fresh : Ptr) → (given : Bool) → Ntvm → Heaps → Option (Ntvm × Heaps)
destroy_vm fresh given vm h =
    if not given
    then some (vm, h)
    else elim (free fresh h vm.memory) [ none ↦ none | some h' ↦ some (cleared_vm, h') ]
