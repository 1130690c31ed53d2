-- ===== src/Heap/Allocate.antt =====
-- `RtlAllocateHeap`, `RtlFreeHeap`, `RtlReAllocateHeap` and `RtlSizeHeap` of freedll/src/heap.c.
use free_nt.Base.{
  ℕ, zero, suc, ◌+◌, ◌-◌, ◌^◌, Bool, true, false, ◌&&◌, Option, none, some, leb, ◌==◌,
  if◌then◌else◌, update, u64,
}
use free_nt.Crt.Memory.{memcpy}
use free_nt.Heap.{
  Ptr, Chunk, chunk_inuse, chunk_free, is_free, Chunks, Heaps, heap_signature, heap_block_signature,
  chunk_header_size, align_up, initialize_process_heap,
}

-- `p->Prev = q` if `p` is not NULL.
unfoldable pub set_prev : Chunks → (p q : Ptr) → Option Chunks
set_prev m p q = elim (p == 0) [
  | true ↦ some m
  | false ↦ elim (m p) [ none ↦ none | some c ↦ some (update m p (some (record c { prev = q }))) ]
]

-- A chunk of `remaining` bytes is cut off behind the first `alloc_size` of the chunk `c` at `p`, and the
-- writes are made in the order of the source.
unfoldable pub split_chunk : Chunks → Ptr → Chunk → ℕ → Option Chunks
split_chunk m p c alloc_size =
    let new_chunk = u64 (p + chunk_header_size + alloc_size) in
    let remaining = u64 (u64 (c.size + 2 ^ 64 - alloc_size) + 2 ^ 64 - chunk_header_size) in
    let m₁ = update m new_chunk (
      some (record {
        signature = heap_block_signature;
        state = chunk_free;
        size = remaining;
        next = c.next;
        prev = p;
      })) in
    elim (set_prev m₁ c.next new_chunk) [
      | none ↦ none
      | some m₂ ↦ some (update m₂ p (some (record c { next = new_chunk; size = alloc_size })))
    ]

-- `chunk->Flags = HEAP_CHUNK_INUSE`, and the address of the data.
unfoldable pub take_chunk : Chunks → Ptr → Option (Ptr × Chunks)
take_chunk m p = elim (m p) [
  | none ↦ none
  | some c ↦ some (p + chunk_header_size, update m p (some (record c { state = chunk_inuse })))
]

-- What the loop does with a chunk that fits.
unfoldable pub use_chunk : Chunks → Ptr → Chunk → ℕ → Option (Ptr × Chunks)
use_chunk m p c alloc_size =
    elim (leb (u64 (u64 (alloc_size + chunk_header_size) + chunk_header_size)) c.size) [
      | true ↦ elim (split_chunk m p c alloc_size) [ none ↦ none | some m' ↦ take_chunk m' p ]
      | false ↦ take_chunk m p
    ]

-- The search for the first chunk that fits, on fuel; the address is 0 if there is none.
unfoldable pub find_chunk : ℕ → Chunks → Ptr → ℕ → Option (Ptr × Chunks)
find_chunk zero m p alloc_size = none
find_chunk (suc fuel) m p alloc_size = elim (p == 0) [
  | true ↦ some (0, m)
  | false ↦ elim (m p) [
    | none ↦ none
    | some c ↦ elim (is_free c.state && leb (u64 (alloc_size + chunk_header_size)) c.size) [
      | true ↦ use_chunk m p c alloc_size
      | false ↦ find_chunk fuel m c.next alloc_size
    ]
  ]
]

-- The allocation from the heap at `p`.
unfoldable pub allocate_from : ℕ → Heaps → Ptr → ℕ → Option (Ptr × Heaps)
allocate_from fuel h p alloc_size = elim (h.headers p) [
  | none ↦ none
  | some hdr ↦
      if hdr.signature == heap_signature
      then elim (find_chunk fuel h.chunks hdr.first_chunk alloc_size) [
        | none ↦ none
        | some (q, m) ↦ some (q, record h { chunks = m })
      ]
      else some (0, h)
]

-- `RtlAllocateHeap`: a NULL heap means the process heap, which is made if there is none.
unfoldable pub allocate_heap : ℕ → (fresh : Ptr) → Heaps → (heap : Ptr) → ℕ → Option (Ptr × Heaps)
allocate_heap fuel fresh h heap size =
    if size == 0
    then some (0, h)
    else (let p = if heap == 0 then h.process_heap else heap in
        if p == 0
        then (let (ready, h') = initialize_process_heap fresh h in
            if ready then allocate_from fuel h' h'.process_heap (align_up size) else some (0, h'))
        else allocate_from fuel h p (align_up size))

-- The free chunk behind `p` is joined to it.
unfoldable pub join_next : Chunks → Ptr → Option Chunks
join_next m p = elim (m p) [
  | none ↦ none
  | some c ↦ elim (c.next == 0) [
    | true ↦ some m
    | false ↦ elim (m c.next) [
      | none ↦ none
      | some n ↦ elim (is_free n.state) [
        | false ↦ some m
        | true ↦
            set_prev
              (update m p (
                some (record c {
                  size = u64 (c.size + u64 (chunk_header_size + n.size));
                  next = n.next;
                })))
              n.next p
      ]
    ]
  ]
]

-- `p` is joined to the free chunk before it.
unfoldable pub join_prev : Chunks → Ptr → Option Chunks
join_prev m p = elim (m p) [
  | none ↦ none
  | some c ↦ elim (c.prev == 0) [
    | true ↦ some m
    | false ↦ elim (m c.prev) [
      | none ↦ none
      | some b ↦ elim (is_free b.state) [
        | false ↦ some m
        | true ↦
            set_prev
              (update m c.prev (
                some (record b {
                  size = u64 (b.size + u64 (chunk_header_size + c.size));
                  next = c.next;
                })))
              c.next c.prev
      ]
    ]
  ]
]

-- The chunk `c` at `p` is marked free and joined to its free neighbours.
unfoldable pub free_chunk : Chunks → Ptr → Chunk → Option Chunks
free_chunk m p c = elim (join_next (update m p (some (record c { state = chunk_free }))) p) [
  | none ↦ none
  | some m' ↦ join_prev m' p
]

-- The header of the chunk whose data is at `ptr`, by a difference of words.
abbrev pub chunk_of : Ptr → Ptr
chunk_of ptr = u64 (ptr + 2 ^ 64 - chunk_header_size)

-- What `RtlFreeHeap` does once the heap is known to be one.
unfoldable pub free_data : Heaps → Ptr → Option (Bool × Heaps)
free_data h ptr = elim (h.chunks (chunk_of ptr)) [
  | none ↦ none
  | some c ↦
      if c.signature == heap_block_signature
      then elim (is_free c.state) [
        | true ↦ some (false, h)
        | false ↦ elim (free_chunk h.chunks (chunk_of ptr) c) [
          | none ↦ none
          | some m ↦ some (true, record h { chunks = m })
        ]
      ]
      else some (false, h)
]

-- `RtlFreeHeap`
unfoldable pub free_heap : Heaps → (heap ptr : Ptr) → Option (Bool × Heaps)
free_heap h heap ptr =
    if ptr == 0
    then some (false, h)
    else (let p = if heap == 0 then h.process_heap else heap in
        if p == 0 then some (false, h) else elim (h.headers p) [
          | none ↦ none
          | some hdr ↦ if hdr.signature == heap_signature then free_data h ptr else some (false, h)
        ])

-- `RtlReAllocateHeap`
unfoldable pub reallocate_heap :
    ℕ → (fresh : Ptr) → Heaps → (heap ptr : Ptr) → ℕ → Option (Ptr × Heaps)
reallocate_heap fuel fresh h heap ptr size =
    if ptr == 0
    then allocate_heap fuel fresh h heap size
    else if size == 0
    then elim (free_heap h heap ptr) [ none ↦ none | some (freed, h') ↦ some (0, h') ]
    else elim (h.chunks (chunk_of ptr)) [
      | none ↦ none
      | some c ↦
          if leb size c.size then some (ptr, h) else elim (allocate_heap fuel fresh h heap size) [
            | none ↦ none
            | some (new_ptr, h') ↦
                if new_ptr == 0
                then some (0, h')
                else elim (free_heap (record h' { bytes = memcpy h'.bytes new_ptr ptr c.size }) heap
                    ptr) [ none ↦ none | some (freed, h'') ↦ some (new_ptr, h'') ]
          ]
    ]

-- `RtlSizeHeap`
unfoldable pub size_heap : Heaps → Ptr → Option ℕ
size_heap h ptr = if ptr == 0 then some 0 else elim (h.chunks (chunk_of ptr)) [
  | none ↦ none
  | some c ↦ some (if c.signature == heap_block_signature then c.size else 0)
]
