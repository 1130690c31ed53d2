-- ===== src/Ntvm/Ready.antt =====
-- What NtvmInitialize of ntvm/ntvm.c promises NtvmLoadCom.
use free_nt.Base.{
  ℕ, ◌+◌, ◌*◌, ◌^◌, ◌<◌, ◌≤◌, ◌≡◌, ◌≢◌, ◌∙◌, true, false, Option, some, List, arith, length, ◌==◌,
  if◌then◌else◌, NtStatus, status_success, status_no_memory,
}
use free_nt.Heap.{Heaps, align_up}
use free_nt.Heap.Layout.{Block}
use free_nt.Heap.Fit.{first_fit}
use free_nt.Heap.Serve.{IsHeap}
use free_nt.Heap.Size.{Sized}
use free_nt.Crt.Fill.{filled}
use free_nt.Crt.Alloc.{calloc}
use free_nt.Crt.Alloc.Cleared.{Cleared, calloc-Cleared}
use free_nt.Ntvm.{Ntvm, initialize_vm, load_com, cleared_vm, cleared_cpu}
use free_nt.Ntvm.Loaded.{Loaded, IsOutside, load_com-Loaded}

-- The machine whose memory is at `q`.
abbrev pub machine : (q : ℕ) → Ntvm
machine q = record { memory = q; memory_size = 1024 * 1024; cpu = cleared_cpu }

-- Without memory the call fails. Else it gives the machine at `q`, whose memory has 1 MiB of zeros, and
-- every image of 1 to 0xFF00 bytes outside the segment can be loaded.
pub record Ready (q : ℕ) (vm : Ntvm) (out : Option (NtStatus × Ntvm × Heaps)) : Type 0 where
  pub after : Heaps
  pub fails : q ≡ 0 → out ≡ some (status_no_memory, cleared_vm, after)
  pub succeeds : q ≢ 0 → out ≡ some (status_success, machine q, after)
  pub room : q ≢ 0 → Sized after q (1024 * 1024)
  pub zero : q ≢ 0 → (i : ℕ) → i < 1024 * 1024 → after.bytes (q + i) ≡ 0
  pub loads :
      q ≢ 0
      → (image size : ℕ) → image ≢ 0
      → size ≢ 0
      → size ≤ 0xFF00
      → IsOutside (machine q) image size
      → Loaded (machine q) after.bytes image size (load_com true (machine q) after.bytes image size)

initialize_run :
    (fuel fresh again : ℕ) (vm : Ntvm) (h h' : Heaps) (q : ℕ)
    → calloc fuel fresh again h 1 (1024 * 1024) ≡ some (q, h')
    → initialize_vm fuel fresh again true vm h
      ≡ some
          (if q == 0 then (status_no_memory, cleared_vm, h') else (status_success, machine q, h'))
unfolding initialize_vm
initialize_run fuel fresh again vm h h' q ran = rw (initialize_vm, ran)

filled_zero : (n : ℕ) (m : ℕ → ℕ) (q i : ℕ) → i < n → filled n m q 0 (q + i) ≡ 0
filled_zero n m q i l = ground arith

Ready-Cleared :
    (fuel fresh again : ℕ) (vm : Ntvm) (h : Heaps) (q : ℕ)
    → Cleared h q (1024 * 1024) (calloc fuel fresh again h 1 (1024 * 1024))
    → Ready q vm (initialize_vm fuel fresh again true vm h)
Ready-Cleared fuel fresh again vm h q done =
    let ran = initialize_run fuel fresh again vm h done.after q done.returns in
    record {
      after = done.after;
      fails = λ none_given. let e : q == 0 ≡ true = ground arith in ran ∙ rw e;
      succeeds = λ given. let e : q == 0 ≡ false = ground arith in ran ∙ rw e;
      room = done.room;
      zero = λ given i l. done.zero given (q + i) ∙ filled_zero (1024 * 1024) h.bytes q i l;
      loads = λ given image size some_image some_size small outside.
          load_com-Loaded (machine q) done.after.bytes image size given some_image some_size small
            (omega arith) outside;
    }

-- On a process heap that is laid out, with more fuel than it has blocks, the call returns. If first fit
-- finds 1 MiB, it gives a machine with that memory, cleared, into which every image of 1 to 0xFF00 bytes
-- outside the segment can be loaded; else it returns STATUS_NO_MEMORY.
pub initialize_vm-Ready :
    (fuel fresh again : ℕ) (vm : Ntvm) (h : Heaps) (end : ℕ) (bs : List Block)
    → length bs < fuel
    → h.process_heap ≢ 0
    → end < 2 ^ 64
    → IsHeap h h.process_heap end bs
    → Ready
        ((first_fit (h.process_heap + 32) (align_up (1 * (1024 * 1024))) bs).0)
        vm
        (initialize_vm fuel fresh again true vm h)
initialize_vm-Ready fuel fresh again vm h end bs enough made bound heap =
    Ready-Cleared fuel fresh again vm h _ (
      calloc-Cleared fuel fresh again h end 1 (1024 * 1024) bs enough made bound (omega arith)
        (omega arith) (omega arith) heap)
