-- ===== src/Heap/Join.antt =====
-- The joins of `RtlFreeHeap` in freedll/src/heap.c on the list of blocks.
use free_nt.Base.{
  ℕ, ◌+◌, ◌^◌, ◌<◌, ◌≡◌, ◌≢◌, refl, sym, ◌∙◌, ap, true, false, some, List, [], ◌∷◌, arith,
  if◌then◌else◌, update, update_self, update_ne, u64, Bool-cases, inl, inr,
}
use free_nt.Heap.{
  Ptr, Chunk, ChunkState, chunk_inuse, chunk_free, is_free, Chunks, heap_block_signature,
}
use free_nt.Heap.Allocate.{set_prev, join_next, join_prev}
use free_nt.Heap.Layout.{
  Block, head_at, behind, chunk_at, IsLaidOut, Moved, end_bound, update_below, set_prev-Moved,
}
use free_nt.Heap.Fit.{used, unused}

-- A free block of `size` bytes takes in the block behind it if that is free.
abbrev pub merge_next : ℕ → List Block → List Block
merge_next size [] = unused size ∷ []
merge_next size (c ∷ bs) =
    if is_free c.state then unused (size + (32 + c.size)) ∷ bs else unused size ∷ c ∷ bs

-- A free block takes in the free block of `size` bytes behind it.
abbrev pub merge_prev : Block → ℕ → List Block → List Block
merge_prev a size bs =
    if is_free a.state then unused (a.size + (32 + size)) ∷ bs else a ∷ unused size ∷ bs

-- The header of a free block that has taken in the one behind it.
abbrev grown : (prev start : Ptr) → (size more : ℕ) → List Block → Chunk
grown prev start size more bs = record {
  signature = heap_block_signature;
  state = chunk_free;
  size = size + (32 + more);
  next = head_at (behind (behind start size) more) bs;
  prev = prev;
}

absorb :
    (m : Chunks) (prev prev' start end : Ptr) (size more : ℕ) (bs : List Block)
    → 0 < start
    → IsLaidOut m prev' (behind (behind start size) more) end bs
    → Moved m prev start end (unused (size + (32 + more)) ∷ bs) (
        set_prev
          (update m start (some (grown prev start size more bs)))
          (head_at (behind (behind start size) more) bs)
          start)
absorb m prev prev' start end size more bs some_start h =
    let at : Ptr = behind (behind start size) more in
    let c : Chunk = grown prev start size more bs in
    let m₁ : Chunks = update m start (some c) in
    let moved =
      set_prev-Moved m₁ prev' start at end bs (omega arith)
        (update_below m start prev' at end (some c) bs (omega arith) h) in
    let meets : at ≡ behind start (size + (32 + more)) = omega arith in
    record {
      after = moved.after;
      returns = moved.returns;
      laid = (
        moved.below start (omega arith)
            ∙ update_self m start (some c)
            ∙ ap (λ a. some (record c { next = head_at a bs })) meets,
        rw (sym meets) moved.laid,
      );
      below = λ a l. moved.below a (omega arith) ∙ update_ne m (some c) (omega arith);
    }

join_next_run :
    (m m' : Chunks) (p total : ℕ) (c n : Chunk)
    → m p ≡ some c
    → c.next ≢ 0
    → m c.next ≡ some n
    → is_free n.state ≡ true
    → u64 (c.size + u64 (32 + n.size)) ≡ total
    → set_prev (update m p (some (record c { size = total; next = n.next }))) n.next p ≡ some m'
    → join_next m p ≡ some m'
unfolding join_next
join_next_run m m' p total c n held more next_held free sum ran = ground arith

join_next_none :
    (m : Chunks) (p : ℕ) (c : Chunk) → m p ≡ some c → c.next ≡ 0 → join_next m p ≡ some m
unfolding join_next
join_next_none m p c held last = ground arith

join_next_busy :
    (m : Chunks) (p : ℕ) (c n : Chunk)
    → m p ≡ some c
    → c.next ≢ 0
    → m c.next ≡ some n
    → is_free n.state ≡ false
    → join_next m p ≡ some m
unfolding join_next
join_next_busy m p c n held more next_held busy = ground arith

join_prev_run :
    (m m' : Chunks) (p total : ℕ) (c b : Chunk)
    → m p ≡ some c
    → c.prev ≢ 0
    → m c.prev ≡ some b
    → is_free b.state ≡ true
    → u64 (b.size + u64 (32 + c.size)) ≡ total
    → set_prev (update m c.prev (some (record b { size = total; next = c.next }))) c.next c.prev
      ≡ some m'
    → join_prev m p ≡ some m'
unfolding join_prev
join_prev_run m m' p total c b held more prev_held free sum ran = ground arith

pub join_prev_none :
    (m : Chunks) (p : ℕ) (c : Chunk) → m p ≡ some c → c.prev ≡ 0 → join_prev m p ≡ some m
unfolding join_prev
join_prev_none m p c held first = ground arith

join_prev_busy :
    (m : Chunks) (p : ℕ) (c b : Chunk)
    → m p ≡ some c
    → c.prev ≢ 0
    → m c.prev ≡ some b
    → is_free b.state ≡ false
    → join_prev m p ≡ some m
unfolding join_prev
join_prev_busy m p c b held more prev_held busy = ground arith

pub join_next-Moved :
    (m : Chunks) (prev start end : Ptr) (size : ℕ) (bs : List Block)
    → 0 < start
    → end < 2 ^ 64
    → IsLaidOut m prev start end (unused size ∷ bs)
    → Moved m prev start end (merge_next size bs) (join_next m start)
join_next-Moved m prev start end size [] some_start bound h = record {
  after = m;
  returns = join_next_none m start (chunk_at prev start (unused size) []) h.0 refl;
  laid = h;
  below = λ a l. refl;
}
join_next-Moved m prev start end size (c ∷ bs) some_start bound h =
    elim (Bool-cases (is_free c.state)) [
      | inl free ↦
          let over =
            end_bound m (behind start size) (behind (behind start size) c.size) end bs h.1.1 in
          let done = absorb m prev (behind start size) start end size c.size bs some_start h.1.1 in
          record {
            after = done.after;
            returns =
                join_next_run m done.after start (size + (32 + c.size))
                  (chunk_at prev start (unused size) (c ∷ bs))
                  (chunk_at start (behind start size) c bs) h.0 (omega arith) h.1.0 free
                  (omega arith) done.returns;
            laid = rw free done.laid;
            below = done.below;
          }
      | inr busy ↦ record {
        after = m;
        returns =
            join_next_busy m start (chunk_at prev start (unused size) (c ∷ bs))
              (chunk_at start (behind start size) c bs) h.0 (omega arith) h.1.0 busy;
        laid = rw busy h;
        below = λ a l. refl;
      }
    ]

abbrev block_of : ChunkState → ℕ → Block
block_of state size = record { state = state; size = size }

join_prev-by_state :
    (m : Chunks) (prev start end : Ptr) (state : ChunkState) (size more : ℕ) (bs : List Block)
    → 0 < start
    → end < 2 ^ 64
    → IsLaidOut m prev start end (block_of state size ∷ unused more ∷ bs)
    → Moved m prev start end
        (merge_prev (block_of state size) more bs)
        (join_prev m (behind start size))
join_prev-by_state m prev start end chunk_inuse size more bs some_start bound h = record {
  after = m;
  returns =
      join_prev_busy m (behind start size) (chunk_at start (behind start size) (unused more) bs)
        (chunk_at prev start (used size) (unused more ∷ bs)) h.1.0 (omega arith) h.0 refl;
  laid = h;
  below = λ a l. refl;
}
join_prev-by_state m prev start end chunk_free size more bs some_start bound h =
    let over = end_bound m (behind start size) (behind (behind start size) more) end bs h.1.1 in
    let done = absorb m prev (behind start size) start end size more bs some_start h.1.1 in
    record {
      after = done.after;
      returns =
          join_prev_run m done.after (behind start size) (size + (32 + more))
            (chunk_at start (behind start size) (unused more) bs)
            (chunk_at prev start (unused size) (unused more ∷ bs)) h.1.0 (omega arith) h.0 refl
            (omega arith) done.returns;
      laid = done.laid;
      below = done.below;
    }

pub join_prev-Moved :
    (m : Chunks) (prev start end : Ptr) (a : Block) (more : ℕ) (bs : List Block)
    → 0 < start
    → end < 2 ^ 64
    → IsLaidOut m prev start end (a ∷ unused more ∷ bs)
    → Moved m prev start end (merge_prev a more bs) (join_prev m (behind start a.size))
join_prev-Moved m prev start end a more bs some_start bound h =
    join_prev-by_state m prev start end a.state a.size more bs some_start bound h
