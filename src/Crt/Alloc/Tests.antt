-- ===== src/Crt/Alloc/Tests.antt =====
-- Runs of freent_calloc and freent_strdup on a small process heap.
use free_nt.Base.{refl, inr, none, some, List, [], ◌∷◌, arith, update}
use free_nt.Heap.{HeapHeader, Heaps, heap_signature, align_up}
use free_nt.Heap.Layout.{Block, chunk_at}
use free_nt.Heap.Fit.{unused}
use free_nt.Heap.Serve.{IsHeap}
use free_nt.Crt.Alloc.{calloc, strdup}
use free_nt.Crt.Alloc.Cleared.{Cleared, calloc-Cleared}
use free_nt.Crt.Alloc.Duplicated.{Duplicated, strdup-Duplicated}

abbrev header : HeapHeader
header = record {
  signature = heap_signature;
  flags = 0;
  total_size = 264;
  next_heap = 0;
  first_chunk = 40;
}

abbrev free_200 : List Block
free_200 = unused 200 ∷ []

-- A process heap at 8 with a free block of 200 bytes, and "a" at 300 behind it.
abbrev heap : Heaps
heap = record {
  headers = update (λ a. none) 8 (some header);
  chunks = update (λ a. none) 40 (some (chunk_at 0 40 (unused 200) []));
  bytes = update (λ a. 0) 300 b'a';
  process_heap = 8;
  heap_list = 8;
}

heap-IsHeap : IsHeap heap 8 272 free_200
heap-IsHeap = record {
  header = header;
  held = refl;
  signed = refl;
  first = refl;
  laid = (refl, refl);
}

calloc-Cleared_example : Cleared heap 72 20 (calloc 2 0 0 heap 5 4)
unfolding align_up
calloc-Cleared_example =
    calloc-Cleared 2 0 0 heap 272 5 4 free_200 (omega arith) (omega arith) (omega arith)
      (omega arith) (omega arith) (omega arith) heap-IsHeap

strdup-Duplicated_example : Duplicated heap (b'a' ∷ []) 72 (strdup 2 2 0 0 heap 300)
unfolding align_up
strdup-Duplicated_example =
    strdup-Duplicated 2 2 0 0 heap 272 300 (b'a' ∷ []) free_200 (omega arith) (omega arith)
      (omega arith) (omega arith) (omega arith) (refl, omega arith, omega arith, refl)
      (inr (omega arith)) heap-IsHeap
