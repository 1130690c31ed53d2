-- ===== src/Heap/Size.antt =====
-- The sizes that `RtlAllocateHeap` and `RtlSizeHeap` of freedll/src/heap.c agree on, and the heap that
-- `InitializeProcessHeap` makes.
use free_nt.Base.{
  ℕ, suc, ◌+◌, ◌-◌, ◌^◌, ◌<◌, ◌≤◌, ◌≡◌, ◌≢◌, refl, sym, ◌∙◌, ap, false, some, List, [], ◌∷◌, arith,
  ◌==◌, update, update_self, length,
}
use free_nt.Heap.{
  Ptr, HeapHeader, Heaps, heap_signature, align_up, get_process_heap, heap_default_size,
}
use free_nt.Heap.Allocate.{allocate_heap, chunk_of, size_heap}
use free_nt.Heap.Layout.{Block, behind, chunk_at, IsLaidOut, end_bound}
use free_nt.Heap.Fit.{first_fit, used, unused}
use free_nt.Heap.Serve.{IsHeap, Served, first_fit-Served, align_up_bounds, allocate_heap-first_fit}

-- The size known for the data at `q` is no less than `size`.
pub record Sized (h : Heaps) (q size : ℕ) : Type 0 where
  pub room : ℕ
  pub known : size_heap h q ≡ some room
  pub enough : size ≤ room

size_heap-Served : (h : Heaps) (q n : ℕ) → q ≢ 0 → Served h.chunks q n → Sized h q n
unfolding size_heap
size_heap-Served h q n given served = record {
  room = served.chunk.size;
  known = ground (arith, served.held, served.signed);
  enough = served.room;
}

Sized-weaken : (h : Heaps) (q n size : ℕ) → size ≤ n → Sized h q n → Sized h q size
Sized-weaken h q n size le sized = record {
  room = sized.room;
  known = sized.known;
  enough = (let e = sized.enough in omega arith);
}

-- For a size above 0 and less than 2^64 - 71, and more fuel than blocks: if the allocation on a
-- heap that is laid out gives memory, the size of what it gave is at least the size asked for.
pub allocate_heap-size_heap :
    (fuel fresh : ℕ) (h h' : Heaps) (p end size q : ℕ) (bs : List Block)
    → length bs < fuel
    → p ≢ 0
    → end < 2 ^ 64
    → size ≢ 0
    → size + 71 < 2 ^ 64
    → IsHeap h p end bs
    → allocate_heap fuel fresh h p size ≡ some (q, h')
    → q ≢ 0
    → Sized h' q size
allocate_heap-size_heap fuel fresh h h' p end size q bs enough some_heap bound asked small heap ran
      given =
    let bounds = align_up_bounds size (omega arith) in
    let done =
      allocate_heap-first_fit fuel fresh h p end size bs enough some_heap bound asked
        (omega (arith, bounds.1)) heap in
    let same : some ((first_fit (p + 32) (align_up size) bs).0, done.after) ≡ some (q, h') =
      sym done.returns ∙ ran in
    let same_q : (first_fit (p + 32) (align_up size) bs).0 ≡ q = ground arith in
    let same_h : done.after ≡ h' = ground arith in
    let some_q : (first_fit (p + 32) (align_up size) bs).0 ≢ 0 = ground arith in
    let served =
      first_fit-Served done.after.chunks 0 (p + 32) end (align_up size) bs bound done.heap.laid
        some_q in
    let sized = size_heap-Served done.after _ (align_up size) some_q served in
    let wide = Sized-weaken done.after _ (align_up size) size bounds.0 sized in
    rw (sym same_q, sym same_h) wide

abbrev first_header : Ptr → HeapHeader
first_header fresh = record {
  signature = heap_signature;
  flags = 0;
  total_size = heap_default_size;
  next_heap = 0;
  first_chunk = fresh + 32;
}

abbrev with_process_heap : Ptr → Heaps → Heaps
with_process_heap fresh h = record h {
  headers = update h.headers fresh (some (first_header fresh));
  chunks =
      update h.chunks (fresh + 32)
        (some (chunk_at 0 (fresh + 32) (unused (heap_default_size - 64)) []));
  process_heap = fresh;
  heap_list = fresh;
}

get_process_heap_run :
    (fresh : ℕ) (h : Heaps)
    → h.process_heap ≡ 0
    → fresh ≢ 0
    → get_process_heap fresh h ≡ (fresh, with_process_heap fresh h)
unfolding get_process_heap
get_process_heap_run fresh h none_yet given =
    let some_memory : fresh == 0 ≡ false = ground arith in rw (none_yet, some_memory)

-- The first use of the process heap, where the system gives memory at `fresh`, makes a heap there of one
-- free block that fills the memory.
pub get_process_heap-IsHeap :
    (fresh : ℕ) (h : Heaps)
    → h.process_heap ≡ 0
    → fresh ≢ 0
    → ((get_process_heap fresh h).0 ≡ fresh)
      × IsHeap
          ((get_process_heap fresh h).1)
          fresh
          (fresh + heap_default_size)
          (unused (heap_default_size - 64) ∷ [])
get_process_heap-IsHeap fresh h none_yet given =
    let ran = get_process_heap_run fresh h none_yet given in
    rw ran (
      refl,
      record {
        header = first_header fresh;
        held = update_self h.headers fresh _;
        signed = refl;
        first = refl;
        laid = (update_self h.chunks (fresh + 32) _, omega arith);
      },
    )

align_up_wraps : (size : ℕ) → 2 ^ 64 ≤ size + 7 → size < 2 ^ 64 → align_up size ≡ 0
unfolding align_up
align_up_wraps size huge word = omega arith

first_fit_none :
    (start room : ℕ) (bs : List Block)
    → 64 ≤ room
    → first_fit start 0 (unused room ∷ bs) ≡ (start + 32, used 0 ∷ unused (room - 0 - 32) ∷ bs)
first_fit_none start room bs roomy = ground arith

size_heap_at :
    (h : Heaps) (prev start : Ptr) (b : Block) (bs : List Block)
    → start + 32 < 2 ^ 64
    → h.chunks start ≡ some (chunk_at prev start b bs)
    → size_heap h (start + 32) ≡ some b.size
unfolding size_heap
size_heap_at h prev start b bs bound held =
    let home : chunk_of (start + 32) ≡ start = omega arith in ground arith

-- A request of the seven largest sizes is rounded up to 0: on a heap whose first block is free and has
-- room for two headers it gives an address, and the size of the data there is 0.
pub allocate_heap_wraps :
    (fuel fresh : ℕ) (h h' : Heaps) (p end size q room : ℕ) (bs : List Block)
    → length bs < fuel
    → p ≢ 0
    → end < 2 ^ 64
    → 2 ^ 64 ≤ size + 7
    → size < 2 ^ 64
    → 64 ≤ room
    → IsHeap h p end (unused room ∷ bs)
    → allocate_heap (suc fuel) fresh h p size ≡ some (q, h')
    → (q ≡ p + 64) × (size_heap h' q ≡ some 0)
allocate_heap_wraps fuel fresh h h' p end size q room bs enough some_heap bound huge word roomy heap
      ran =
    let none_asked : align_up size ≡ 0 = align_up_wraps size huge word in
    let done =
      allocate_heap-first_fit (suc fuel) fresh h p end size (unused room ∷ bs) (omega arith)
        some_heap bound (omega arith) (omega (arith, none_asked)) heap in
    let left : List Block = used 0 ∷ unused (room - 0 - 32) ∷ bs in
    let found : first_fit (p + 32) (align_up size) (unused room ∷ bs) ≡ (p + 32 + 32, left) =
      ap (λ n. first_fit (p + 32) n (unused room ∷ bs)) none_asked
      ∙ first_fit_none (p + 32) room bs roomy in
    let inside = end_bound h.chunks 0 (p + 32) end (unused room ∷ bs) heap.laid in
    let over = end_bound h.chunks (p + 32) (behind (p + 32) room) end bs heap.laid.1 in
    let laid : IsLaidOut done.after.chunks 0 (p + 32) end left = rw found at done.heap.laid in
    let sized =
      size_heap_at done.after 0 (p + 32) (used 0) (unused (room - 0 - 32) ∷ bs) (omega arith)
        laid.0 in
    let same : some ((first_fit (p + 32) (align_up size) (unused room ∷ bs)).0, done.after)
        ≡ some (q, h') =
      sym done.returns ∙ ran in
    let same_h : done.after ≡ h' = ground arith in
    let same_q : (first_fit (p + 32) (align_up size) (unused room ∷ bs)).0 ≡ q = ground arith in
    let at : q ≡ p + 32 + 32 = sym same_q ∙ ap (λ r. r.0) found in
    (at ∙ omega arith, rw (at, sym same_h) sized)
