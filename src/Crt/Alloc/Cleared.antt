-- ===== src/Crt/Alloc/Cleared.antt =====
-- What freent_calloc of freedll/src/crt_stdlib.c promises of the process heap of freedll/src/heap.c.
use native.Mathlib.Nat.{div-lt_iff_lt-mul}
use free_nt.Base.{
  ℕ, ◌+◌, ◌-◌, ◌*◌, ◌/◌, ◌^◌, ◌<◌, ◌≤◌, ◌≡◌, ◌≢◌, ◌∙◌, ap, true, false, Option, some, List, arith,
  length, ltb, ◌==◌, u64, lt→ltb, if◌then◌else◌,
}
use free_nt.Heap.{Ptr, Heaps, get_process_heap, align_up}
use free_nt.Heap.Allocate.{allocate_heap, size_heap}
use free_nt.Heap.Layout.{Block}
use free_nt.Heap.Fit.{first_fit}
use free_nt.Heap.Serve.{IsHeap, allocate_heap-first_fit, align_up_bounds}
use free_nt.Heap.Size.{Sized, allocate_heap-size_heap}
use free_nt.Crt.Memory.{Bytes, memset}
use free_nt.Crt.Fill.{filled, memset-filled}
use free_nt.Crt.Alloc.{malloc, calloc}

-- The call gives `q`. If that is not NULL, at least `n` bytes are there, these are zero, and no other byte
-- is written.
pub record Cleared (h : Heaps) (q n : ℕ) (out : Option (Ptr × Heaps)) : Type 0 where
  pub after : Heaps
  pub returns : out ≡ some (q, after)
  pub room : q ≢ 0 → Sized after q n
  pub zero : q ≢ 0 → (a : ℕ) → after.bytes a ≡ filled n h.bytes q 0 a

pub get_process_heap_kept :
    (fresh : Ptr) (h : Heaps) → h.process_heap ≢ 0 → get_process_heap fresh h ≡ (h.process_heap, h)
unfolding get_process_heap
get_process_heap_kept fresh h made = ground arith

-- The guard against an overflow, by the division.
too_many :
    (count size : ℕ) → size ≢ 0 → 2 ^ 64 ≤ count * size → ltb ((2 ^ 64 - 1) / size) count ≡ true
too_many count size some_size over =
    lt→ltb _ _
      ((div-lt_iff_lt-mul {k = size} {x = 2 ^ 64 - 1} {y = count} (omega arith)).1 (omega arith))

not_too_many :
    (count size : ℕ) → size ≢ 0 → count * size < 2 ^ 64 → ltb ((2 ^ 64 - 1) / size) count ≡ false
not_too_many count size some_size fits =
    let over : ¬ ((2 ^ 64 - 1) / size < count) = λ l.
      let more = (div-lt_iff_lt-mul {k = size} {x = 2 ^ 64 - 1} {y = count} (omega arith)).0 l in
      omega arith in
    ground (arith, over)

-- A product that does not fit a word gives NULL and leaves the heap as it was.
pub calloc_overflows :
    (fuel : ℕ) (fresh again : Ptr) (h : Heaps) (count size : ℕ)
    → size ≢ 0
    → 2 ^ 64 ≤ count * size
    → calloc fuel fresh again h count size ≡ some (0, h)
unfolding calloc
calloc_overflows fuel fresh again h count size some_size over =
    let many = too_many count size some_size over in ground arith

pub malloc-allocate_heap :
    (fuel : ℕ) (fresh again : Ptr) (h : Heaps) (n : ℕ)
    → h.process_heap ≢ 0
    → n ≢ 0
    → malloc fuel fresh again h n ≡ allocate_heap fuel again h h.process_heap n
unfolding malloc
malloc-allocate_heap fuel fresh again h n made some_bytes =
    let asks : n == 0 ≡ false = ground arith in
    let kept = get_process_heap_kept fresh h made in rw (asks, kept)

calloc_run :
    (fuel : ℕ) (fresh again : Ptr) (h h' : Heaps) (count size : ℕ) (q : Ptr)
    → size ≢ 0
    → count * size < 2 ^ 64
    → malloc fuel fresh again h (count * size) ≡ some (q, h')
    → calloc fuel fresh again h count size
      ≡ some (q, if q == 0 then h' else record h' { bytes = memset h'.bytes q 0 (count * size) })
unfolding calloc
calloc_run fuel fresh again h h' count size q some_size fits ran =
    let few = not_too_many count size some_size fits in
    let sized : ltb 0 size ≡ true = ground arith in
    let word : u64 (count * size) ≡ count * size = omega arith in rw (sized, few, word, ran, word)

pub Sized-bytes :
    (h : Heaps) (m : Bytes) (q n : ℕ) → Sized h q n → Sized (record h { bytes = m }) q n
unfolding size_heap
Sized-bytes h m q n s = record { room = s.room; known = s.known; enough = s.enough }

zeroed_at :
    (h h' : Heaps) (q n : ℕ) (out : Option (Ptr × Heaps))
    → h'.bytes ≡ h.bytes
    → (q ≢ 0 → Sized h' q n)
    → out ≡ some (q, if q == 0 then h' else record h' { bytes = memset h'.bytes q 0 n })
    → Cleared h q n out
zeroed_at h h' q n out same sized ran = record {
  after = if q == 0 then h' else record h' { bytes = memset h'.bytes q 0 n };
  returns = ran;
  room = λ given.
      let there : q == 0 ≡ false = ground arith in rw there (Sized-bytes h' _ q n (sized given));
  zero = λ given a.
      let there : q == 0 ≡ false = ground arith in
      rw there (memset-filled h'.bytes q 0 n a ∙ ap (λ m. filled n m q 0 a) same);
}

-- On a process heap that is laid out, with more fuel than it has blocks, a request for `count` objects of
-- `size` bytes, some bytes in all and less than the largest words by a rounding, returns; what it gives is
-- what `first_fit` of the rounded product gives, and memory that it gives is cleared.
pub calloc-Cleared :
    (fuel : ℕ) (fresh again : Ptr) (h : Heaps) (end count size : ℕ) (bs : List Block)
    → length bs < fuel
    → h.process_heap ≢ 0
    → end < 2 ^ 64
    → size ≢ 0
    → count * size ≢ 0
    → count * size + 71 < 2 ^ 64
    → IsHeap h h.process_heap end bs
    → Cleared h
        ((first_fit (h.process_heap + 32) (align_up (count * size)) bs).0)
        (count * size)
        (calloc fuel fresh again h count size)
calloc-Cleared fuel fresh again h end count size bs enough made bound some_size some_bytes small
      heap =
    let n : ℕ = count * size in
    let q : Ptr = (first_fit (h.process_heap + 32) (align_up n) bs).0 in
    let bounds = align_up_bounds n (omega arith) in
    let done =
      allocate_heap-first_fit fuel again h h.process_heap end n bs enough made bound some_bytes
        (omega (arith, bounds.1)) heap in
    let ran : malloc fuel fresh again h n ≡ some (q, done.after) =
      malloc-allocate_heap fuel fresh again h n made some_bytes ∙ done.returns in
    zeroed_at h done.after q n _ done.bytes
      (allocate_heap-size_heap fuel again h done.after h.process_heap end n q bs enough made bound
        some_bytes small heap done.returns)
      (calloc_run fuel fresh again h done.after count size q some_size (omega arith) ran)
