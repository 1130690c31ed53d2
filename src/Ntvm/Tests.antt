-- ===== src/Ntvm/Tests.antt =====
-- Runs of ntvm/ntvm.c on a small heap and a small image.
use free_nt.Base.{◌+◌, ◌-◌, ◌^◌, refl, inr, true, none, some, List, [], ◌∷◌, arith, update}
use free_nt.Heap.{HeapHeader, Heaps, heap_signature, align_up}
use free_nt.Heap.Layout.{Block, chunk_at}
use free_nt.Heap.Fit.{unused}
use free_nt.Heap.Serve.{IsHeap}
use free_nt.Crt.Memory.{Bytes}
use free_nt.Ntvm.{initialize_vm, load_com, cleared_vm}
use free_nt.Ntvm.Loaded.{Loaded, load_com-Loaded}
use free_nt.Ntvm.Ready.{Ready, machine, initialize_vm-Ready}

abbrev header : HeapHeader
header = record {
  signature = heap_signature;
  flags = 0;
  total_size = 2 ^ 21;
  next_heap = 0;
  first_chunk = 40;
}

-- A process heap of 2 MiB at 8, one free block.
abbrev heap : Heaps
heap = record {
  headers = update (λ a. none) 8 (some header);
  chunks = update (λ a. none) 40 (some (chunk_at 0 40 (unused (2 ^ 21 - 64)) []));
  bytes = λ a. 0xCC;
  process_heap = 8;
  heap_list = 8;
}

abbrev one_block : List Block
one_block = unused (2 ^ 21 - 64) ∷ []

heap-IsHeap : IsHeap heap 8 (2 ^ 21 + 8) one_block
heap-IsHeap = record {
  header = header;
  held = refl;
  signed = refl;
  first = refl;
  laid = (refl, refl);
}

initialize_vm-Ready_example : Ready 72 cleared_vm (initialize_vm 2 0 0 true cleared_vm heap)
unfolding align_up
initialize_vm-Ready_example =
    initialize_vm-Ready 2 0 0 cleared_vm heap (2 ^ 21 + 8) one_block (omega arith) (omega arith)
      (omega arith) heap-IsHeap

-- "int 20h" at 2 MiB.
abbrev image : Bytes
image = update (update (λ a. 0) (2 ^ 21) 0xCD) (2 ^ 21 + 1) 0x20

load_com-Loaded_example :
    Loaded (machine 72) image (2 ^ 21) 2 (load_com true (machine 72) image (2 ^ 21) 2)
load_com-Loaded_example =
    load_com-Loaded (machine 72) image (2 ^ 21) 2 (omega arith) (omega arith) (omega arith)
      (omega arith) (omega arith) (inr (omega arith))
