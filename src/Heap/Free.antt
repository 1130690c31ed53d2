-- ===== src/Heap/Free.antt =====
-- `RtlFreeHeap` of freedll/src/heap.c frees a block of the list and joins it to its free neighbours.
use std.Path.{subst}
use free_nt.Base.{
  ℕ, ◌+◌, ◌^◌, ◌<◌, ◌≡◌, refl, sym, ◌∙◌, ap, some, List, [], ◌∷◌, ◌++◌, arith, if◌then◌else◌,
  update, update_self, update_ne, Bool-cases, inl, inr,
}
use free_nt.Heap.{Ptr, Chunk, chunk_inuse, chunk_free, is_free, Chunks, heap_block_signature}
use free_nt.Heap.Allocate.{join_next, join_prev, free_chunk}
use free_nt.Heap.Layout.{Block, head_at, behind, chunk_at, IsLaidOut, Moved, update_below}
use free_nt.Heap.Fit.{used, unused}
use free_nt.Heap.Join.{merge_next, merge_prev, join_next-Moved, join_prev-Moved, join_prev_none}

-- The size and what lies behind of a free block of `n` bytes once it has taken in a free block behind it.
abbrev pub grown_size : ℕ → List Block → ℕ
grown_size n [] = n
grown_size n (c ∷ bs) = if is_free c.state then n + (32 + c.size) else n

abbrev pub grown_tail : List Block → List Block
grown_tail [] = []
grown_tail (c ∷ bs) = if is_free c.state then bs else c ∷ bs

merge_next_lem :
    (n : ℕ) (bs : List Block) → merge_next n bs ≡ unused (grown_size n bs) ∷ grown_tail bs
merge_next_lem n [] = refl
merge_next_lem n (c ∷ bs) = elim (Bool-cases (is_free c.state)) [
  | inl free ↦ rw free
  | inr busy ↦ rw busy
]

-- The blocks once the used block of `n` bytes behind the blocks `before` is free.
abbrev pub release : (before : List Block) → ℕ → (after : List Block) → List Block
release [] n after = merge_next n after
release (a ∷ []) n after = merge_prev a (grown_size n after) (grown_tail after)
release (a ∷ b ∷ before) n after = a ∷ release (b ∷ before) n after

-- Where the block behind the blocks `before` starts.
abbrev pub place : Ptr → List Block → Ptr
place start [] = start
place start (b ∷ before) = place (behind start b.size) before

laid_as :
    (m : Chunks) (prev start end : Ptr) {bs cs : List Block}
    → bs ≡ cs
    → IsLaidOut m prev start end bs
    → IsLaidOut m prev start end cs
laid_as m prev start end same h = subst (λ x. IsLaidOut m prev start end x) same h

free_chunk_run :
    (m m₁ m₂ : Chunks) (p : Ptr) (c : Chunk)
    → join_next (update m p (some (record c { state = chunk_free }))) p ≡ some m₁
    → join_prev m₁ p ≡ some m₂
    → free_chunk m p c ≡ some m₂
unfolding free_chunk
free_chunk_run m m₁ m₂ p c forward back = rw (free_chunk, forward, back)

free_chunk-first :
    (m : Chunks) (start end n : ℕ) (after : List Block)
    → 0 < start
    → end < 2 ^ 64
    → IsLaidOut m 0 start end (used n ∷ after)
    → Moved m 0 start end
        (merge_next n after)
        (free_chunk m start (chunk_at 0 start (used n) after))
free_chunk-first m start end n after some_start bound h =
    let c : Chunk = chunk_at 0 start (unused n) after in
    let m₀ : Chunks = update m start (some c) in
    let laid₀ : IsLaidOut m₀ 0 start end (unused n ∷ after) = (
      update_self m start (some c),
      update_below m start start (behind start n) end (some c) after (omega arith) h.1,
    ) in
    let joined = join_next-Moved m₀ 0 start end n after some_start bound laid₀ in
    let shape = merge_next_lem n after in
    let laid : IsLaidOut joined.after 0 start end (unused (grown_size n after) ∷ grown_tail after) =
      laid_as joined.after 0 start end shape joined.laid in
    record {
      after = joined.after;
      returns =
          free_chunk_run m joined.after joined.after start (chunk_at 0 start (used n) after)
            joined.returns
            (join_prev_none joined.after start
              (chunk_at 0 start (unused (grown_size n after)) (grown_tail after)) laid.0 refl);
      laid = joined.laid;
      below = λ a l. joined.below a l ∙ update_ne m (some c) (omega arith);
    }

free_chunk-pair :
    (m : Chunks) (prev start end n : ℕ) (a : Block) (after : List Block)
    → 0 < start
    → end < 2 ^ 64
    → IsLaidOut m prev start end (a ∷ used n ∷ after)
    → Moved m prev start end
        (merge_prev a (grown_size n after) (grown_tail after))
        (free_chunk m (behind start a.size) (chunk_at start (behind start a.size) (used n) after))
free_chunk-pair m prev start end n a after some_start bound h =
    let p : Ptr = behind start a.size in
    let c : Chunk = chunk_at start p (unused n) after in
    let m₀ : Chunks = update m p (some c) in
    let laid₀ : IsLaidOut m₀ start p end (unused n ∷ after) = (
      update_self m p (some c),
      update_below m p p (behind p n) end (some c) after (omega arith) h.1.1,
    ) in
    let joined = join_next-Moved m₀ start p end n after (omega arith) bound laid₀ in
    let shape = merge_next_lem n after in
    let laid₁ : IsLaidOut joined.after start p end
        (unused (grown_size n after) ∷ grown_tail after) =
      laid_as joined.after start p end shape joined.laid in
    let held : joined.after start
        ≡ some (chunk_at prev start a (unused (grown_size n after) ∷ grown_tail after)) =
      joined.below start (omega arith) ∙ update_ne m (some c) (omega arith) ∙ h.0 in
    let done =
      join_prev-Moved joined.after prev start end a (grown_size n after) (grown_tail after)
        some_start bound (held, laid₁) in
    record {
      after = done.after;
      returns =
          free_chunk_run m joined.after done.after p (chunk_at start p (used n) after)
            joined.returns done.returns;
      laid = done.laid;
      below =
          λ x l. done.below x l ∙ joined.below x (omega arith) ∙ update_ne m (some c) (omega arith);
    }

pub head_at-release :
    (start : Ptr) (b : Block) (before after : List Block) (n : ℕ)
    → head_at start (release (b ∷ before) n after) ≡ start
head_at-release start b [] after n = ground arith
head_at-release start b (c ∷ before) after n = refl

-- The header of the block of `n` bytes behind `before`, and what freeing it leaves.
pub record Released (m : Chunks) (prev start end : Ptr) (before : List Block) (n : ℕ)
    (after : List Block) : Type 0 where
  pub chunk : Chunk
  pub held : m (place start before) ≡ some chunk
  pub signed : chunk.signature ≡ heap_block_signature
  pub in_use : chunk.state ≡ chunk_inuse
  pub moved :
      Moved m prev start end (release before n after) (free_chunk m (place start before) chunk)

free_chunk-Released :
    (m : Chunks) (prev start end n : ℕ) (a : Block) (before after : List Block)
    → 0 < start
    → end < 2 ^ 64
    → IsLaidOut m prev start end (a ∷ (before ++ used n ∷ after))
    → Released m prev start end (a ∷ before) n after
free_chunk-Released m prev start end n a [] after some_start bound h = record {
  chunk = chunk_at start (behind start a.size) (used n) after;
  held = h.1.0;
  signed = refl;
  in_use = refl;
  moved = free_chunk-pair m prev start end n a after some_start bound h;
}
free_chunk-Released m prev start end n a (b ∷ before) after some_start bound h =
    let at : Ptr = behind start a.size in
    let rest = free_chunk-Released m start at end n b before after (omega arith) bound h.1 in
    record {
      chunk = rest.chunk;
      held = rest.held;
      signed = rest.signed;
      in_use = rest.in_use;
      moved = record {
        after = rest.moved.after;
        returns = rest.moved.returns;
        laid = (
          rest.moved.below start (omega arith)
              ∙ h.0
              ∙ ap (λ x. some (record (chunk_at prev start a []) { next = x }))
                  (sym (head_at-release at b before after n)),
          rest.moved.laid,
        );
        below = λ x l. rest.moved.below x (omega arith);
      };
    }

pub free_chunk-Released_any :
    (m : Chunks) (start end n : ℕ) (before after : List Block)
    → 0 < start
    → end < 2 ^ 64
    → IsLaidOut m 0 start end (before ++ used n ∷ after)
    → Released m 0 start end before n after
free_chunk-Released_any m start end n [] after some_start bound h = record {
  chunk = chunk_at 0 start (used n) after;
  held = h.0;
  signed = refl;
  in_use = refl;
  moved = free_chunk-first m start end n after some_start bound h;
}
free_chunk-Released_any m start end n (a ∷ before) after some_start bound h =
    free_chunk-Released m 0 start end n a before after some_start bound h
