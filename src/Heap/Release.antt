-- ===== src/Heap/Release.antt =====
-- What `RtlFreeHeap` of freedll/src/heap.c promises of a heap.
use free_nt.Base.{
  ℕ, ◌+◌, ◌^◌, ◌<◌, ◌≤◌, ◌≡◌, ◌≢◌, refl, sym, ◌∙◌, Bool, true, Option, some, List, [], ◌∷◌, ◌++◌,
  arith,
}
use free_nt.Heap.{
  Ptr, Chunk, chunk_inuse, Chunks, Heaps, heap_block_signature, heap_signature, HeapHeader,
}
use free_nt.Heap.Allocate.{free_chunk, free_data, free_heap, chunk_of}
use free_nt.Heap.Layout.{Block, head_at, behind, IsLaidOut, end_bound}
use free_nt.Heap.Fit.{used}
use free_nt.Heap.Free.{release, place, head_at-release, free_chunk-Released_any}
use free_nt.Heap.Serve.{IsHeap}

-- The call succeeds and leaves the heap with the blocks `bs`, and the headers of all heaps as they were.
pub record Freed (h : Heaps) (p end : Ptr) (bs : List Block) (out : Option (Bool × Heaps))
    : Type 0 where
  pub after : Heaps
  pub returns : out ≡ some (true, after)
  pub heap : IsHeap after p end bs
  pub headers : after.headers ≡ h.headers

place_bound :
    (m : Chunks) (prev start end n : ℕ) (before after : List Block)
    → IsLaidOut m prev start end (before ++ used n ∷ after)
    → place start before + 32 ≤ end
place_bound m prev start end n [] after h =
    let over = end_bound m start (behind start n) end after h.1 in omega arith
place_bound m prev start end n (b ∷ before) after h =
    place_bound m start (behind start b.size) end n before after h.1

first_kept :
    (start n : ℕ) (before after : List Block)
    → head_at start (before ++ used n ∷ after) ≡ head_at start (release before n after)
first_kept start n [] [] = refl
first_kept start n [] (c ∷ after) = ground arith
first_kept start n (a ∷ before) after = sym (head_at-release start a before after n)

free_data_run :
    (h : Heaps) (at : Ptr) (c : Chunk) (m : Chunks)
    → at + 32 < 2 ^ 64
    → h.chunks at ≡ some c
    → c.signature ≡ heap_block_signature
    → c.state ≡ chunk_inuse
    → free_chunk h.chunks at c ≡ some m
    → free_data h (at + 32) ≡ some (true, record h { chunks = m })
unfolding free_data
free_data_run h at c m bound held signed in_use ran =
    let home : chunk_of (at + 32) ≡ at = omega arith in
    rw (free_data, home, held, signed, in_use, home, ran)

free_heap_run :
    (h : Heaps) (p ptr : Ptr) (hdr : HeapHeader)
    → p ≢ 0
    → ptr ≢ 0
    → h.headers p ≡ some hdr
    → hdr.signature ≡ heap_signature
    → free_heap h p ptr ≡ free_data h ptr
unfolding free_heap
free_heap_run h p ptr hdr some_heap given held signed = ground arith

-- Freeing the data of a used block of a heap that is laid out succeeds and leaves the heap laid out:
-- the block is free and joined to the blocks behind it and before it that are free, as `release` says.
pub free_heap-release :
    (h : Heaps) (p end n : ℕ) (before after : List Block)
    → p ≢ 0
    → end < 2 ^ 64
    → IsHeap h p end (before ++ used n ∷ after)
    → Freed h p end (release before n after) (free_heap h p (place (p + 32) before + 32))
free_heap-release h p end n before after some_heap bound heap =
    let at : Ptr = place (p + 32) before in
    let inside = place_bound h.chunks 0 (p + 32) end n before after heap.laid in
    let done =
      free_chunk-Released_any h.chunks (p + 32) end n before after (omega arith) bound heap.laid in
    record {
      after = record h { chunks = done.moved.after };
      returns =
          free_heap_run h p (at + 32) heap.header some_heap (omega arith) heap.held heap.signed
          ∙ free_data_run h at done.chunk done.moved.after (omega arith) done.held done.signed
              done.in_use done.moved.returns;
      heap = record {
        header = heap.header;
        held = heap.held;
        signed = heap.signed;
        first = heap.first ∙ first_kept (p + 32) n before after;
        laid = done.moved.laid;
      };
      headers = refl;
    }
