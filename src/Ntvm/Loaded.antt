-- ===== src/Ntvm/Loaded.antt =====
-- What NtvmLoadCom of ntvm/ntvm.c leaves in the memory of the machine.
use free_nt.Base.{
  ℕ, ◌+◌, ◌-◌, ◌<◌, ◌≤◌, ◌≡◌, ◌≢◌, ◌⊎◌, inl, inr, refl, ◌∙◌, ap₂, true, ◌&&◌, arith, ltb, leb,
  if◌then◌else◌, NtStatus, status_success,
}
use free_nt.Crt.Memory.{Bytes, memcpy, memset}
use free_nt.Crt.Copy.{memcpy-block}
use free_nt.Crt.Fill.{filled, memset-filled}
use free_nt.Ntvm.{Ntvm, load_com, start_cpu}

-- The program runs from 1000:0100 with its stack at the end of the segment, which holds the image behind
-- its first 256 bytes and zeros elsewhere; no other byte and no other register is written.
pub record Loaded (vm : Ntvm) (m : Bytes) (image size : ℕ) (out : NtStatus × Ntvm × Bytes)
    : Type 0 where
  pub succeeds : out.0 ≡ status_success
  pub started : out.1 ≡ record vm {
    cpu = record vm.cpu {
      cs = 0x1000;
      ds = 0x1000;
      es = 0x1000;
      ss = 0x1000;
      ip = 0x100;
      sp = 0xFFFE;
      flags = 0x202;
    };
  }
  pub code : (i : ℕ) → i < size → out.2 (vm.memory + 0x10100 + i) ≡ m (image + i)
  pub blank :
      (i : ℕ) → i < 0x10000 → (i < 0x100) ⊎ (0x100 + size ≤ i) → out.2 (vm.memory + 0x10000 + i) ≡ 0
  pub kept : (a : ℕ) → (a < vm.memory + 0x10000) ⊎ (vm.memory + 0x20000 ≤ a) → out.2 a ≡ m a

-- The image lies outside the segment.
abbrev pub IsOutside : (vm : Ntvm) (image size : ℕ) → Type 0
IsOutside vm image size = (image + size ≤ vm.memory + 0x10000) ⊎ (vm.memory + 0x20000 ≤ image)

-- The memory afterwards, at one address.
abbrev segment : (m : Bytes) (memory image size a : ℕ) → ℕ
segment m memory image size a =
    if leb (memory + 0x10100) a && ltb a (memory + 0x10100 + size)
    then filled 0x10000 m (memory + 0x10000) 0 (image + (a - (memory + 0x10100)))
    else filled 0x10000 m (memory + 0x10000) 0 a

load_com_run :
    (vm : Ntvm) (m : Bytes) (image size : ℕ)
    → vm.memory ≢ 0
    → image ≢ 0
    → size ≢ 0
    → size ≤ 0xFF00
    → 0x10100 + size ≤ vm.memory_size
    → load_com true vm m image size ≡ (
      status_success,
      record vm { cpu = start_cpu vm.cpu },
      memcpy (memset m (vm.memory + 0x10000) 0 0x10000) (vm.memory + 0x10100) image size,
    )
unfolding load_com
load_com_run vm m image size some_memory some_image some_size small room = ground arith

written :
    (m : Bytes) (memory image size : ℕ)
    → size ≤ 0xFF00
    → (image + size ≤ memory + 0x10000) ⊎ (memory + 0x20000 ≤ image)
    → (a : ℕ)
    → memcpy (memset m (memory + 0x10000) 0 0x10000) (memory + 0x10100) image size a
      ≡ segment m memory image size a
written m memory image size small outside a =
    let m' : Bytes = memset m (memory + 0x10000) 0 0x10000 in
    let apart : (memory + 0x10100 ≤ image) ⊎ (image + size ≤ memory + 0x10100) = elim outside [
      | inl l ↦ inr (omega arith)
      | inr l ↦ inl (omega arith)
    ] in
    memcpy-block m' (memory + 0x10100) image size apart a
    ∙ ap₂ (λ x y. if leb (memory + 0x10100) a && ltb a (memory + 0x10100 + size) then x else y)
        (memset-filled m (memory + 0x10000) 0 0x10000 (image + (a - (memory + 0x10100))))
        (memset-filled m (memory + 0x10000) 0 0x10000 a)

segment_code :
    (m : Bytes) (memory image size i : ℕ)
    → (image + size ≤ memory + 0x10000) ⊎ (memory + 0x20000 ≤ image)
    → i < size
    → segment m memory image size (memory + 0x10100 + i) ≡ m (image + i)
segment_code m memory image size i outside l =
    let back : memory + 0x10100 + i - (memory + 0x10100) ≡ i = omega arith in
    rw (segment, back) (ground arith)

segment_blank :
    (m : Bytes) (memory image size i : ℕ)
    → i < 0x10000
    → (i < 0x100) ⊎ (0x100 + size ≤ i)
    → segment m memory image size (memory + 0x10000 + i) ≡ 0
segment_blank m memory image size i l out = ground arith

segment_kept :
    (m : Bytes) (memory image size a : ℕ)
    → size ≤ 0xFF00
    → (a < memory + 0x10000) ⊎ (memory + 0x20000 ≤ a)
    → segment m memory image size a ≡ m a
segment_kept m memory image size a small out = ground arith

-- An image of 1 to 0xFF00 bytes outside the segment, which the memory of the machine has room for, is
-- loaded: the call succeeds, sets the registers, puts the image at 1000:0100, clears the rest of the segment
-- and writes nothing else.
pub load_com-Loaded :
    (vm : Ntvm) (m : Bytes) (image size : ℕ)
    → vm.memory ≢ 0
    → image ≢ 0
    → size ≢ 0
    → size ≤ 0xFF00
    → 0x10100 + size ≤ vm.memory_size
    → IsOutside vm image size
    → Loaded vm m image size (load_com true vm m image size)
load_com-Loaded vm m image size some_memory some_image some_size small room outside =
    let ran = load_com_run vm m image size some_memory some_image some_size small room in
    let after = written m vm.memory image size small outside in
    rw ran (record {
      succeeds = refl;
      started = refl;
      code = λ i l. after _ ∙ segment_code m vm.memory image size i outside l;
      blank = λ i l out. after _ ∙ segment_blank m vm.memory image size i l out;
      kept = λ a out. after a ∙ segment_kept m vm.memory image size a small out;
    })
