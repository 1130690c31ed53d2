-- ===== src/Heap/Fit.antt =====
-- `RtlAllocateHeap` of freedll/src/heap.c takes the first block that fits.
pub mod Search
use free_nt.Base.{
  ℕ, zero, suc, ◌+◌, ◌-◌, ◌^◌, ◌<◌, ◌≤◌, ◌≡◌, ◌≢◌, refl, sym, ◌∙◌, ap, Bool, true, false, ◌&&◌,
  Option, none, some, List, [], ◌∷◌, arith, leb, ltb, ◌==◌, if◌then◌else◌, update, update_self,
  update_ne, length, u64, Bool-cases, inl, inr, leb→le, tests,
}
use free_nt.Heap.{
  Ptr, Chunk, ChunkState, chunk_inuse, chunk_free, is_free, Chunks, Heaps, heap_block_signature,
}
use free_nt.Heap.Allocate.{set_prev, split_chunk, take_chunk, use_chunk, find_chunk}
use free_nt.Heap.Layout.{
  Block, head_at, behind, chunk_at, IsLaidOut, Moved, end_bound, update_below, set_prev-Moved,
  behind_word, rest_word,
}

abbrev pub used : ℕ → Block
used n = record { state = chunk_inuse; size = n }

abbrev pub unused : ℕ → Block
unused n = record { state = chunk_free; size = n }

-- A block of `size` bytes is used for `n`, and what is left is a block if a header fits.
abbrev pub cut : (size n : ℕ) → List Block → List Block
cut size n bs = if leb (n + 64) size then used n ∷ unused (size - n - 32) ∷ bs else used size ∷ bs

abbrev pub fits : ℕ → Block → Bool
fits n b = is_free b.state && leb (n + 32) b.size

-- The address given and the blocks afterwards: the first block that fits is used.
abbrev pub first_fit : Ptr → ℕ → List Block → Ptr × List Block
first_fit start n [] = (0, [])
first_fit start n (b ∷ bs) =
    let rest = first_fit (behind start b.size) n bs in
    if fits n b then (start + 32, cut b.size n bs) else (rest.0, b ∷ rest.1)

-- The result of an allocation: the address and the blocks.
pub record Gives (m : Chunks) (prev start end : Ptr) (q : Ptr) (bs : List Block)
    (out : Option (Ptr × Chunks)) : Type 0 where
  pub after : Chunks
  pub returns : out ≡ some (q, after)
  pub laid : IsLaidOut after prev start end bs
  pub below : (a : Ptr) → a < start → after a ≡ m a

take_chunk-Gives :
    (m : Chunks) (prev start end : Ptr) (b : Block) (bs : List Block)
    → IsLaidOut m prev start end (b ∷ bs)
    → Gives m prev start end (start + 32) (used b.size ∷ bs) (take_chunk m start)
unfolding take_chunk
take_chunk-Gives m prev start end b bs h = record {
  after = update m start (some (chunk_at prev start (used b.size) bs));
  returns = rw (h.0, take_chunk);
  laid = (
    update_self m start _,
    update_below m start start (behind start b.size) end _ bs (omega arith) h.1,
  );
  below = λ a l. update_ne m _ (omega arith);
}

split_chunk_run :
    (m m' : Chunks) (start new n left : ℕ) (c : Chunk)
    → u64 (start + 32 + n) ≡ new
    → u64 (u64 (c.size + 2 ^ 64 - n) + 2 ^ 64 - 32) ≡ left
    → set_prev
        (update m new (
          some (record {
            signature = heap_block_signature;
            state = chunk_free;
            size = left;
            next = c.next;
            prev = start;
          })))
        c.next
        new
      ≡ some m'
    → split_chunk m start c n ≡ some (update m' start (some (record c { next = new; size = n })))
unfolding split_chunk
split_chunk_run m m' start new n left c place rest ran = ground arith

split_chunk-Moved :
    (m : Chunks) (prev start end n : Ptr) (b : Block) (bs : List Block)
    → 0 < start
    → end < 2 ^ 64
    → n + 64 ≤ b.size
    → IsLaidOut m prev start end (b ∷ bs)
    → Moved m prev start end
        ((record b { size = n }) ∷ unused (b.size - n - 32) ∷ bs)
        (split_chunk m start (chunk_at prev start b bs) n)
split_chunk-Moved m prev start end n b bs some_start bound room h =
    let over = end_bound m start (behind start b.size) end bs h.1 in
    let new : Ptr = behind start n in
    let next : Ptr = head_at (behind start b.size) bs in
    let place : u64 (behind start n) ≡ behind start n =
      behind_word start n end (omega arith) bound in
    let left = rest_word b.size n (omega arith) (omega arith) in
    let meets : behind start b.size ≡ behind new (b.size - n - 32) = omega arith in
    let c : Chunk = record {
      signature = heap_block_signature;
      state = chunk_free;
      size = b.size - n - 32;
      next = next;
      prev = start;
    } in
    let m₁ : Chunks = update m new (some c) in
    let laid₁ : IsLaidOut m₁ start (behind start b.size) end bs =
      update_below m new start (behind start b.size) end (some c) bs (omega arith) h.1 in
    let moved : Moved m₁ new (behind start b.size) end bs (set_prev m₁ next new) =
      set_prev-Moved m₁ start new (behind start b.size) end bs (omega arith) laid₁ in
    let tail : IsLaidOut moved.after new (behind new (b.size - n - 32)) end bs =
      rw (sym meets) moved.laid in
    let held : moved.after new ≡ some (chunk_at start new (unused (b.size - n - 32)) bs) =
      moved.below new (omega arith)
      ∙ update_self m new (some c)
      ∙ ap (λ a. some (record c { next = head_at a bs })) meets in
    let d : Chunk = record (chunk_at prev start b bs) { next = new; size = n } in
    record {
      after = update moved.after start (some d);
      returns =
          split_chunk_run m moved.after start new n (b.size - n - 32) (chunk_at prev start b bs)
            place left moved.returns;
      laid = (
        update_self moved.after start (some d),
        update_below moved.after start start new end (some d) (unused (b.size - n - 32) ∷ bs)
            (omega arith) (held, tail),
      );
      below = λ a l.
          update_ne moved.after (some d) (omega arith)
          ∙ moved.below a (omega arith)
          ∙ update_ne m (some c) (omega arith);
    }

use_chunk_split :
    (m m' : Chunks) (p n : ℕ) (c : Chunk)
    → n + 64 < 2 ^ 64
    → leb (n + 64) c.size ≡ true
    → split_chunk m p c n ≡ some m'
    → use_chunk m p c n ≡ take_chunk m' p
unfolding use_chunk
use_chunk_split m m' p n c small roomy ran = ground arith

use_chunk_whole :
    (m : Chunks) (p n : ℕ) (c : Chunk)
    → n + 64 < 2 ^ 64
    → leb (n + 64) c.size ≡ false
    → use_chunk m p c n ≡ take_chunk m p
unfolding use_chunk
use_chunk_whole m p n c small tight = ground arith

pub use_chunk-Gives :
    (m : Chunks) (prev start end n : Ptr) (b : Block) (bs : List Block)
    → 0 < start
    → end < 2 ^ 64
    → n + 64 < 2 ^ 64
    → IsLaidOut m prev start end (b ∷ bs)
    → Gives m prev start end
        (start + 32)
        (cut b.size n bs)
        (use_chunk m start (chunk_at prev start b bs) n)
use_chunk-Gives m prev start end n b bs some_start bound small h =
    elim (Bool-cases (leb (n + 64) b.size)) [
      | inl roomy ↦
          let split =
            split_chunk-Moved m prev start end n b bs some_start bound
              (leb→le (n + 64) b.size roomy) h in
          let taken =
            take_chunk-Gives split.after prev start end (record b { size = n })
              (unused (b.size - n - 32) ∷ bs) split.laid in
          record {
            after = taken.after;
            returns =
                use_chunk_split m split.after start n (chunk_at prev start b bs) small roomy
                  split.returns
                ∙ taken.returns;
            laid = rw roomy taken.laid;
            below = λ a l. taken.below a l ∙ split.below a l;
          }
      | inr tight ↦
          let taken = take_chunk-Gives m prev start end b bs h in
          record {
            after = taken.after;
            returns =
                use_chunk_whole m start n (chunk_at prev start b bs) small tight ∙ taken.returns;
            laid = rw tight taken.laid;
            below = taken.below;
          }
    ]
