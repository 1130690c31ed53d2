-- ===== src/Heap/Tests.antt =====
-- Runs of the heap manager of freedll/src/heap.c on small heaps.
use free_nt.Base.{◌+◌, ◌-◌, ◌^◌, ◌≡◌, refl, none, some, List, [], ◌∷◌, arith, update}
use free_nt.Heap.{HeapHeader, Heaps, heap_signature, align_up}
use free_nt.Heap.Allocate.{
  free_heap, allocate_heap, size_heap, allocate_from, find_chunk, use_chunk, split_chunk, set_prev,
  take_chunk,
}
use free_nt.Heap.Layout.{Block, chunk_at}
use free_nt.Heap.Fit.{used, unused}
use free_nt.Heap.Serve.{IsHeap, Allocated, allocate_heap-first_fit}
use free_nt.Heap.Release.{Freed, free_heap-release}
use free_nt.Heap.Size.{Sized, allocate_heap-size_heap, allocate_heap_wraps}

abbrev no_heap : Heaps
no_heap = record {
  headers = λ a. none;
  chunks = λ a. none;
  bytes = λ a. 0;
  process_heap = 0;
  heap_list = 0;
}

-- A used block of 8 bytes and a free one of 200.
abbrev blocks : List Block
blocks = used 8 ∷ unused 200 ∷ []

abbrev header : HeapHeader
header = record {
  signature = heap_signature;
  flags = 0;
  total_size = 304;
  next_heap = 0;
  first_chunk = 40;
}

abbrev small : Heaps
small = record no_heap {
  headers = update (λ a. none) 8 (some header);
  chunks =
      update (update (λ a. none) 40 (some (chunk_at 0 40 (used 8) (unused 200 ∷ [])))) 80
        (some (chunk_at 40 80 (unused 200) []));
}

small-IsHeap : IsHeap small 8 312 blocks
small-IsHeap = record {
  header = header;
  held = refl;
  signed = refl;
  first = refl;
  laid = (refl, (refl, refl));
}

allocate_heap-first_fit_example :
    Allocated small 8 312 112 (used 8 ∷ used 24 ∷ unused 144 ∷ []) (allocate_heap 3 0 small 8 20)
unfolding align_up
allocate_heap-first_fit_example =
    allocate_heap-first_fit 3 0 small 8 312 20 blocks (omega arith) (omega arith) (omega arith)
      (omega arith) (omega arith) small-IsHeap

-- The same heap once 20 bytes are taken, 24 after rounding.
abbrev taken : Heaps
taken = record small {
  chunks =
      update
        (update (update small.chunks 136 (some (chunk_at 80 136 (unused 144) []))) 80
          (some (record (chunk_at 40 80 (unused 24) (unused 144 ∷ [])) { size = 24 })))
        80 (some (chunk_at 40 80 (used 24) (unused 144 ∷ [])));
}

allocate_heap-size_heap_example : Sized taken 112 20
unfolding allocate_heap allocate_from find_chunk align_up use_chunk split_chunk set_prev take_chunk
allocate_heap-size_heap_example =
    allocate_heap-size_heap 3 0 small taken 8 312 20 112 blocks (omega arith) (omega arith)
      (omega arith) (omega arith) (omega arith) small-IsHeap refl (omega arith)

-- A heap of one free block of 200 bytes.
abbrev fresh_heap : Heaps
fresh_heap = record small { chunks = update (λ a. none) 40 (some (chunk_at 0 40 (unused 200) [])) }

fresh_heap-IsHeap : IsHeap fresh_heap 8 272 (unused 200 ∷ [])
fresh_heap-IsHeap = record {
  header = header;
  held = refl;
  signed = refl;
  first = refl;
  laid = (refl, refl);
}

-- The same heap once a block of 0 bytes is taken.
abbrev wrapped : Heaps
wrapped = record fresh_heap {
  chunks =
      update
        (update (update fresh_heap.chunks 72 (some (chunk_at 40 72 (unused 168) []))) 40
          (some (record (chunk_at 0 40 (unused 0) (unused 168 ∷ [])) { size = 0 })))
        40 (some (chunk_at 0 40 (used 0) (unused 168 ∷ [])));
}

allocate_heap_wraps_example : (72 ≡ 8 + 64) × (size_heap wrapped 72 ≡ some 0)
unfolding allocate_heap allocate_from find_chunk align_up use_chunk split_chunk set_prev take_chunk
allocate_heap_wraps_example =
    allocate_heap_wraps 1 0 fresh_heap wrapped 8 272 (2 ^ 64 - 3) 72 200 [] (omega arith)
      (omega arith) (omega arith) (omega arith) (omega arith) (omega arith) fresh_heap-IsHeap refl

-- A used block of 8 bytes between free ones of 16 and of 40.
abbrev between_free : Heaps
between_free = record small {
  chunks =
      update
        (update (update (λ a. none) 40 (some (chunk_at 0 40 (unused 16) (used 8 ∷ unused 40 ∷ []))))
          88 (some (chunk_at 40 88 (used 8) (unused 40 ∷ []))))
        128 (some (chunk_at 88 128 (unused 40) []));
}

between_free-IsHeap : IsHeap between_free 8 200 (unused 16 ∷ used 8 ∷ unused 40 ∷ [])
between_free-IsHeap = record {
  header = header;
  held = refl;
  signed = refl;
  first = refl;
  laid = (refl, (refl, (refl, refl)));
}

free_heap-release_example :
    Freed between_free 8 200 (unused 128 ∷ []) (free_heap between_free 8 120)
free_heap-release_example =
    free_heap-release between_free 8 200 8 (unused 16 ∷ []) (unused 40 ∷ []) (omega arith)
      (omega arith) between_free-IsHeap
