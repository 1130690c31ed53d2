-- ===== src/Heap/Serve.antt =====
-- What `RtlAllocateHeap` and `RtlSizeHeap` of freedll/src/heap.c promise of a heap.
use free_nt.Base.{
  ℕ, ◌+◌, ◌-◌, ◌^◌, ◌<◌, ◌≤◌, ◌≡◌, ◌≢◌, refl, sym, ◌∙◌, ap, true, Option, some, List, [], ◌∷◌,
  arith, leb, length, Bool-cases, inl, inr,
}
use free_nt.Heap.{
  Ptr, HeapHeader, Chunk, chunk_inuse, Chunks, Heaps, heap_signature, heap_block_signature,
  align_up,
}
use free_nt.Heap.Allocate.{find_chunk, allocate_from, allocate_heap, chunk_of}
use free_nt.Heap.Layout.{Block, head_at, behind, chunk_at, IsLaidOut, end_bound}
use free_nt.Heap.Fit.{fits, first_fit, cut, used, unused}
use free_nt.Heap.Fit.Search.{find_chunk-first_fit}

-- There is a heap at `p` whose blocks end at `end`.
pub record IsHeap (h : Heaps) (p end : Ptr) (bs : List Block) : Type 0 where
  pub header : HeapHeader
  pub held : h.headers p ≡ some header
  pub signed : header.signature ≡ heap_signature
  pub first : header.first_chunk ≡ head_at (p + 32) bs
  pub laid : IsLaidOut h.chunks 0 (p + 32) end bs

-- The call gives `q` and leaves the heap with the blocks `bs`, and the headers of all heaps and the data
-- as they were.
pub record Allocated (h : Heaps) (p end q : Ptr) (bs : List Block) (out : Option (Ptr × Heaps))
    : Type 0 where
  pub after : Heaps
  pub returns : out ≡ some (q, after)
  pub heap : IsHeap after p end bs
  pub headers : after.headers ≡ h.headers
  pub bytes : after.bytes ≡ h.bytes

pub align_up_bounds :
    (size : ℕ) → size + 7 < 2 ^ 64 → (size ≤ align_up size) × (align_up size ≤ size + 7)
unfolding align_up
align_up_bounds size small = (omega arith, omega arith)

allocate_heap_run :
    (fuel fresh : ℕ) (h : Heaps) (p size q : ℕ) (hdr : HeapHeader) (m : Chunks)
    → p ≢ 0
    → size ≢ 0
    → h.headers p ≡ some hdr
    → hdr.signature ≡ heap_signature
    → find_chunk fuel h.chunks hdr.first_chunk (align_up size) ≡ some (q, m)
    → allocate_heap fuel fresh h p size ≡ some (q, record h { chunks = m })
unfolding allocate_heap allocate_from
allocate_heap_run fuel fresh h p size q hdr m some_heap asked held signed ran = ground arith

first_fit-head_at :
    (start at n : ℕ) (bs : List Block) → head_at start ((first_fit at n bs).1) ≡ head_at start bs
first_fit-head_at start at n [] = refl
first_fit-head_at start at n (b ∷ bs) = ground arith

-- On a heap that is laid out, a request of some bytes whose rounded size is less than 2^64 - 64,
-- with as much fuel as there are blocks and one more, returns, and what it gives and leaves is
-- `first_fit` of the size rounded up.
pub allocate_heap-first_fit :
    (fuel fresh : ℕ) (h : Heaps) (p end size : ℕ) (bs : List Block)
    → length bs < fuel
    → p ≢ 0
    → end < 2 ^ 64
    → size ≢ 0
    → align_up size + 64 < 2 ^ 64
    → IsHeap h p end bs
    → Allocated h p end
        ((first_fit (p + 32) (align_up size) bs).0)
        ((first_fit (p + 32) (align_up size) bs).1)
        (allocate_heap fuel fresh h p size)
allocate_heap-first_fit fuel fresh h p end size bs enough some_heap bound asked small heap =
    let n : ℕ = align_up size in
    let found =
      find_chunk-first_fit fuel h.chunks 0 (p + 32) end n bs enough (omega arith) bound
        (omega arith) heap.laid in
    let searched : find_chunk fuel h.chunks heap.header.first_chunk n
        ≡ some ((first_fit (p + 32) n bs).0, found.after) =
      ap (λ a. find_chunk fuel h.chunks a n) heap.first ∙ found.returns in
    record {
      after = record h { chunks = found.after };
      returns =
          allocate_heap_run fuel fresh h p size _ heap.header found.after some_heap asked heap.held
            heap.signed searched;
      heap = record {
        header = heap.header;
        held = heap.held;
        signed = heap.signed;
        first = heap.first ∙ sym (first_fit-head_at (p + 32) (p + 32) n bs);
        laid = found.laid;
      };
      headers = refl;
      bytes = refl;
    }

-- The data at `q` is that of a used chunk of `n` bytes or more.
pub record Served (m : Chunks) (q n : ℕ) : Type 0 where
  pub chunk : Chunk
  pub held : m (chunk_of q) ≡ some chunk
  pub signed : chunk.signature ≡ heap_block_signature
  pub in_use : chunk.state ≡ chunk_inuse
  pub room : n ≤ chunk.size

cut-Served :
    (m : Chunks) (prev start end size n : ℕ) (bs : List Block)
    → start + 32 < 2 ^ 64
    → n + 32 ≤ size
    → IsLaidOut m prev start end (cut size n bs)
    → Served m (start + 32) n
cut-Served m prev start end size n bs bound room h =
    let home : chunk_of (start + 32) ≡ start = omega arith in
    elim (Bool-cases (leb (n + 64) size)) [
      | inl roomy ↦
          let laid : IsLaidOut m prev start end (used n ∷ unused (size - n - 32) ∷ bs) =
            rw roomy at h in
          record {
            chunk = chunk_at prev start (used n) (unused (size - n - 32) ∷ bs);
            held = rw home laid.0;
            signed = refl;
            in_use = refl;
            room = omega arith;
          }
      | inr tight ↦
          let laid : IsLaidOut m prev start end (used size ∷ bs) = rw tight at h in
          record {
            chunk = chunk_at prev start (used size) bs;
            held = rw home laid.0;
            signed = refl;
            in_use = refl;
            room = omega arith;
          }
    ]

end_bound_cut :
    (m : Chunks) (prev start end size n : ℕ) (bs : List Block)
    → IsLaidOut m prev start end (cut size n bs)
    → start + 32 ≤ end
end_bound_cut m prev start end size n bs h = elim (Bool-cases (leb (n + 64) size)) [
  | inl roomy ↦
      let laid : IsLaidOut m prev start end (used n ∷ unused (size - n - 32) ∷ bs) =
        rw roomy at h in
      let over = end_bound m start (behind start n) end (unused (size - n - 32) ∷ bs) laid.1 in
      omega arith
  | inr tight ↦
      let laid : IsLaidOut m prev start end (used size ∷ bs) = rw tight at h in
      let over = end_bound m start (behind start size) end bs laid.1 in omega arith
]

fits-room : (n : ℕ) (b : Block) → fits n b ≡ true → n + 32 ≤ b.size
fits-room n b h = ground arith

pub first_fit-Served :
    (m : Chunks) (prev start end n : ℕ) (bs : List Block)
    → end < 2 ^ 64
    → IsLaidOut m prev start end ((first_fit start n bs).1)
    → (first_fit start n bs).0 ≢ 0
    → Served m ((first_fit start n bs).0) n
first_fit-Served m prev start end n [] bound h found = absurd (found refl)
first_fit-Served m prev start end n (b ∷ bs) bound h found = elim (Bool-cases (fits n b)) [
  | inl fit ↦
      let laid : IsLaidOut m prev start end (cut b.size n bs) = rw fit at h in
      let inside = end_bound_cut m prev start end b.size n bs laid in
      rw fit (cut-Served m prev start end b.size n bs (omega arith) (fits-room n b fit) laid)
  | inr unfit ↦
      let laid : IsLaidOut m prev start end (b ∷ (first_fit (behind start b.size) n bs).1) =
        rw unfit at h in
      let other : (first_fit (behind start b.size) n bs).0 ≢ 0 = rw unfit at found in
      rw unfit (first_fit-Served m start (behind start b.size) end n bs bound laid.1 other)
]
