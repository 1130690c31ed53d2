-- ===== src/Heap/Layout.antt =====
-- The list of blocks that the chunk headers of a heap in freedll/src/heap.c stand for: the chunks lie
-- one behind the other, and their links say so.
use free_nt.Base.{
  ℕ, ◌+◌, ◌-◌, ◌<◌, ◌≤◌, ◌≡◌, refl, ◌∙◌, false, Option, some, List, [], ◌∷◌, arith, ◌==◌, update,
  update_self, update_ne, u64, ◌^◌,
}
use free_nt.Heap.Allocate.{set_prev}
use free_nt.Heap.{Ptr, Chunk, ChunkState, Chunks, heap_block_signature}

pub record Block : Type 0 where
  pub state : ChunkState
  pub size : ℕ

-- The address of the first of the blocks that start at `start`, NULL if there are none.
abbrev pub head_at : Ptr → List Block → Ptr
head_at start [] = 0
head_at start (b ∷ bs) = start

-- Where the block behind a block of `size` bytes at `start` begins.
abbrev pub behind : Ptr → ℕ → Ptr
behind start size = start + 32 + size

abbrev pub chunk_at : (prev start : Ptr) → Block → List Block → Chunk
chunk_at prev start b bs = record {
  signature = heap_block_signature;
  state = b.state;
  size = b.size;
  next = head_at (behind start b.size) bs;
  prev = prev;
}

-- The blocks are the chunks from `start` to `end`; `prev` is the chunk before them.
abbrev pub IsLaidOut : Chunks → (prev start end : Ptr) → List Block → Type 0
IsLaidOut m prev start end [] = start ≡ end
IsLaidOut m prev start end (b ∷ bs) =
    (m start ≡ some (chunk_at prev start b bs)) × IsLaidOut m start (behind start b.size) end bs

pub end_bound :
    (m : Chunks) (prev start end : Ptr) (bs : List Block)
    → IsLaidOut m prev start end bs
    → start ≤ end
end_bound m prev start end [] h = omega arith
end_bound m prev start end (b ∷ bs) h =
    let rest = end_bound m start (behind start b.size) end bs h.1 in omega arith

-- A write below the blocks does not touch them.
pub update_below :
    (m : Chunks) (a prev start end : Ptr) (c : Option Chunk) (bs : List Block)
    → a < start
    → IsLaidOut m prev start end bs
    → IsLaidOut (update m a c) prev start end bs
update_below m a prev start end c [] below h = h
update_below m a prev start end c (b ∷ bs) below h = (
  update_ne m c (omega arith) ∙ h.0,
  update_below m a start (behind start b.size) end c bs (omega arith) h.1,
)

-- A map that agrees with another from `start` on holds the same blocks.
pub record Moved (m : Chunks) (prev start end : Ptr) (bs : List Block) (out : Option Chunks)
    : Type 0 where
  pub after : Chunks
  pub returns : out ≡ some after
  pub laid : IsLaidOut after prev start end bs
  pub below : (a : Ptr) → a < start → after a ≡ m a

pub set_prev-Moved :
    (m : Chunks) (prev q start end : Ptr) (bs : List Block)
    → 0 < start
    → IsLaidOut m prev start end bs
    → Moved m q start end bs (set_prev m (head_at start bs) q)
unfolding set_prev
set_prev-Moved m prev q start end [] some_start h = record {
  after = m;
  returns = refl;
  laid = h;
  below = λ a l. refl;
}
set_prev-Moved m prev q start end (b ∷ bs) some_start h =
    let given : start == 0 ≡ false = ground arith in
    record {
      after = update m start (some (chunk_at q start b bs));
      returns = rw (given, h.0, set_prev);
      laid = (
        update_self m start _,
        update_below m start start (behind start b.size) end _ bs (omega arith) h.1,
      );
      below = λ a l. update_ne m _ (omega arith);
    }

pub behind_word :
    (start n end : ℕ) → behind start n ≤ end → end < 2 ^ 64 → u64 (behind start n) ≡ behind start n
behind_word start n end l bound = omega arith

pub rest_word :
    (size n : ℕ)
    → n + 32 ≤ size
    → size < 2 ^ 64
    → u64 (u64 (size + 2 ^ 64 - n) + 2 ^ 64 - 32) ≡ size - n - 32
rest_word size n l bound = omega arith
