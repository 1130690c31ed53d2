-- ===== src/Heap.antt =====
-- The heap manager of FreeDLL, freedll/src/heap.c. Headers of heaps and of chunks live at addresses,
-- 0 is NULL, and a read of an address that holds no header is a fault, `none`.
pub mod Allocate
pub mod Fit
pub mod Layout
pub mod Join
pub mod Free
pub mod Release
pub mod Serve
pub mod Size
mod Tests
use free_nt.Base.{
  ℕ, zero, suc, ◌+◌, ◌-◌, ◌*◌, ◌/◌, ◌%◌, ◌^◌, Bool, true, false, ◌&&◌, Option, none, some, List, [],
  ◌∷◌, leb, ltb, ◌==◌, if◌then◌else◌, update, u64,
}

abbrev pub Ptr : Type 0
Ptr = ℕ

abbrev pub heap_signature : ℕ
heap_signature = 0x46484541

abbrev pub heap_block_signature : ℕ
heap_block_signature = 0x424C4542

abbrev pub heap_default_size : ℕ
heap_default_size = 64 * 1024

-- HEAP_CHUNK_INUSE and HEAP_CHUNK_FREE: a chunk's flags are one of the two words.
pub data ChunkState : Type 0 where
  chunk_inuse chunk_free : ChunkState

abbrev pub is_free : ChunkState → Bool
is_free chunk_inuse = false
is_free chunk_free = true

-- sizeof(HEAP_HEADER) and sizeof(HEAP_CHUNK_HEADER): two ULONGs of 4 bytes and three words of 8.
abbrev pub header_size : ℕ
header_size = 32

abbrev pub chunk_header_size : ℕ
chunk_header_size = 32

-- HEAP_HEADER
pub record HeapHeader : Type 0 where
  pub signature : ℕ
  pub flags : ℕ
  pub total_size : ℕ
  pub next_heap : Ptr
  pub first_chunk : Ptr

-- HEAP_CHUNK_HEADER
pub record Chunk : Type 0 where
  pub signature : ℕ
  pub state : ChunkState
  pub size : ℕ
  pub next : Ptr
  pub prev : Ptr

-- The chunk headers in memory.
abbrev pub Chunks : Type 0
Chunks = Ptr → Option Chunk

-- The memory of the heaps, g_ProcessHeap and g_HeapList.
pub record Heaps : Type 0 where
  pub headers : Ptr → Option HeapHeader
  pub chunks : Chunks
  pub bytes : ℕ → ℕ
  pub process_heap : Ptr
  pub heap_list : Ptr

-- `ALIGN_UP(x, sizeof(ULONG_PTR))`: masking the low bits off rounds down to a multiple of 8.
unfoldable pub align_up : ℕ → ℕ
align_up x = u64 (x + 7) / 8 * 8

-- The only chunk of a new heap at `p` with `size` bytes.
unfoldable pub first_free_chunk : Ptr → ℕ → Chunks → Chunks
first_free_chunk p size chunks = update chunks (p + header_size) (
    some (record {
      signature = heap_block_signature;
      state = chunk_free;
      size = size;
      next = 0;
      prev = 0;
    }))

-- `InitializeProcessHeap`, at the memory that the system gives (0 for none).
unfoldable pub initialize_process_heap : (fresh : Ptr) → Heaps → Bool × Heaps
unfolding first_free_chunk
initialize_process_heap fresh h =
    if h.process_heap == 0
    then (if fresh == 0 then (false, h) else (
      true,
      record h {
        headers = update h.headers fresh (
            some (record {
              signature = heap_signature;
              flags = 0;
              total_size = heap_default_size;
              next_heap = 0;
              first_chunk = fresh + header_size;
            }));
        chunks =
            first_free_chunk fresh (heap_default_size - header_size - chunk_header_size) h.chunks;
        process_heap = fresh;
        heap_list = fresh;
      },
    ))
    else (true, h)

-- `GetProcessHeap`
unfoldable pub get_process_heap : (fresh : Ptr) → Heaps → Ptr × Heaps
unfolding initialize_process_heap
get_process_heap fresh h =
    let (ready, h') = initialize_process_heap fresh h in
    if ready then (h'.process_heap, h') else (0, h')

-- `CreateHeap`, at the memory that the system gives for the size asked; RtlCreateHeap calls it. The
-- size of the chunk is a difference of words, which wraps.
unfoldable pub create_heap : (flags reserve_size : ℕ) → (fresh : Ptr) → Heaps → Ptr × Heaps
unfolding first_free_chunk
create_heap flags reserve_size fresh h =
    let size = if ltb 0 reserve_size then reserve_size else heap_default_size in
    let chunk_size = u64 (size + 2 ^ 64 - header_size - chunk_header_size) in
    let some_room = ltb 0 chunk_size in
    if fresh == 0 then (0, h) else (
      fresh,
      record h {
        headers = update h.headers fresh (
            some (record {
              signature = heap_signature;
              flags = flags;
              total_size = size;
              next_heap = h.heap_list;
              first_chunk = if some_room then fresh + header_size else 0;
            }));
        chunks = if some_room then first_free_chunk fresh chunk_size h.chunks else h.chunks;
        heap_list = fresh;
      },
    )

-- The walk of `DestroyHeap` to the heap before `p`, and the write that takes `p`, whose successor is
-- `next`, out of the list.
unfoldable pub unlink_heap : ℕ → Heaps → (at p next : Ptr) → Option Heaps
unlink_heap zero h at p next = none
unlink_heap (suc fuel) h at p next = elim (at == 0) [
  | true ↦ some h
  | false ↦ elim (h.headers at) [
    | none ↦ none
    | some hdr ↦ elim (hdr.next_heap == p) [
      | true ↦
          some (record h { headers = update h.headers at (some (record hdr { next_heap = next })) })
      | false ↦ unlink_heap fuel h hdr.next_heap p next
    ]
  ]
]

-- The memory goes back to the system.
unfoldable pub drop_heap : Heaps → Ptr → Heaps
drop_heap h p = record h { headers = update h.headers p none }

-- `DestroyHeap`; RtlDestroyHeap calls it.
unfoldable pub destroy_heap : ℕ → Heaps → Ptr → Option (Bool × Heaps)
unfolding unlink_heap drop_heap
destroy_heap fuel h p = if p == 0 then some (false, h) else elim (h.headers p) [
  | none ↦ none
  | some hdr ↦
      if hdr.signature == heap_signature
      then (if h.heap_list == p
          then some (true, drop_heap (record h { heap_list = hdr.next_heap }) p)
          else elim (unlink_heap fuel h h.heap_list p hdr.next_heap) [
            | none ↦ none
            | some h' ↦ some (true, drop_heap h' p)
          ])
      else some (false, h)
]
