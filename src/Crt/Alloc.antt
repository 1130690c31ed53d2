-- ===== src/Crt/Alloc.antt =====
-- The allocation functions of freedll/src/crt_stdlib.c and freent_strdup of freedll/src/crt_string.c, on
-- the process heap of freedll/src/heap.c. `fresh` and `again` are the memory that the system gives for
-- the process heap, if it has to be made, when GetProcessHeap and when RtlAllocateHeap asks for it.
pub mod Cleared
pub mod Duplicated
mod Tests
use free_nt.Base.{
  ℕ, ◌+◌, ◌-◌, ◌*◌, ◌/◌, ◌^◌, ◌&&◌, Option, none, some, ltb, ◌==◌, if◌then◌else◌, u64,
}
use free_nt.Heap.{Ptr, Heaps, get_process_heap}
use free_nt.Heap.Allocate.{allocate_heap, free_heap, reallocate_heap}
use free_nt.Crt.Memory.{memcpy, memset}
use free_nt.Crt.Text.{strlen}

-- `freent_malloc`
unfoldable pub malloc : ℕ → (fresh again : Ptr) → Heaps → (size : ℕ) → Option (Ptr × Heaps)
malloc fuel fresh again h size =
    if size == 0
    then some (0, h)
    else (let (heap, h') = get_process_heap fresh h in allocate_heap fuel again h' heap size)

-- `freent_free`; what RtlFreeHeap returns is dropped.
unfoldable pub free : (fresh : Ptr) → Heaps → (ptr : Ptr) → Option Heaps
free fresh h ptr =
    if ptr == 0
    then some h
    else (let (heap, h') = get_process_heap fresh h in
        elim (free_heap h' heap ptr) [ none ↦ none | some (freed, h'') ↦ some h'' ])

-- `freent_calloc`
unfoldable pub calloc : ℕ → (fresh again : Ptr) → Heaps → (count size : ℕ) → Option (Ptr × Heaps)
unfolding malloc
calloc fuel fresh again h count size =
    if ltb 0 size && ltb ((2 ^ 64 - 1) / size) count
    then some (0, h)
    else (let total = u64 (count * size) in
        elim (malloc fuel fresh again h total) [
          | none ↦ none
          | some (ptr, h') ↦
              some (ptr, if ptr == 0 then h' else record h' { bytes = memset h'.bytes ptr 0 total })
        ])

-- `freent_realloc`
unfoldable pub realloc : ℕ → (fresh again : Ptr) → Heaps → (ptr : Ptr) → ℕ → Option (Ptr × Heaps)
unfolding malloc free
realloc fuel fresh again h ptr size =
    if ptr == 0
    then malloc fuel fresh again h size
    else if size == 0
    then elim (free fresh h ptr) [ none ↦ none | some h' ↦ some (0, h') ]
    else (let (heap, h') = get_process_heap fresh h in reallocate_heap fuel again h' heap ptr size)

-- `freent_strdup`; `steps` is the fuel for the length of the string.
unfoldable pub strdup :
    (steps fuel : ℕ) → (fresh again : Ptr) → Heaps → (s : Ptr) → Option (Ptr × Heaps)
strdup steps fuel fresh again h s = elim (strlen steps h.bytes s) [
  | none ↦ none
  | some n ↦
      let len = u64 (n + 1) in
      let (heap, h') = get_process_heap fresh h in
      elim (allocate_heap fuel again h' heap len) [
        | none ↦ none
        | some (dup, h'') ↦
            some (dup, if dup == 0 then h'' else record h'' { bytes = memcpy h''.bytes dup s len })
      ]
]
