-- ===== src/Heap/Fit/Search.antt =====
-- The search of `RtlAllocateHeap` in freedll/src/heap.c against `first_fit` on the list of blocks.
use free_nt.Base.{
  ℕ, zero, suc, ◌+◌, ◌^◌, ◌<◌, ◌≡◌, refl, sym, ◌∙◌, ap, true, false, ◌&&◌, some, List, [], ◌∷◌,
  arith, leb, length, Bool-cases, inl, inr,
}
use free_nt.Heap.{Ptr, Chunk, is_free, Chunks}
use free_nt.Heap.Allocate.{use_chunk, find_chunk}
use free_nt.Heap.Layout.{Block, head_at, behind, chunk_at, IsLaidOut}
use free_nt.Heap.Fit.{fits, first_fit, cut, Gives, use_chunk-Gives}

find_chunk_used :
    (fuel : ℕ) (m : Chunks) (p n : ℕ) (c : Chunk)
    → 0 < p
    → n + 64 < 2 ^ 64
    → m p ≡ some c
    → is_free c.state && leb (n + 32) c.size ≡ true
    → find_chunk (suc fuel) m p n ≡ use_chunk m p c n
unfolding find_chunk
find_chunk_used fuel m p n c some_p small held fit = ground arith

find_chunk_skipped :
    (fuel : ℕ) (m : Chunks) (p n : ℕ) (c : Chunk)
    → 0 < p
    → n + 64 < 2 ^ 64
    → m p ≡ some c
    → is_free c.state && leb (n + 32) c.size ≡ false
    → find_chunk (suc fuel) m p n ≡ find_chunk fuel m c.next n
unfolding find_chunk
find_chunk_skipped fuel m p n c some_p small held fit = ground arith

find_chunk_end : (fuel : ℕ) (m : Chunks) (n : ℕ) → find_chunk (suc fuel) m 0 n ≡ some (0, m)
unfolding find_chunk
find_chunk_end fuel m n = refl

head_at_kept :
    (start at n : ℕ) (bs : List Block) → head_at start ((first_fit at n bs).1) ≡ head_at start bs
head_at_kept start at n [] = refl
head_at_kept start at n (b ∷ bs) = ground arith

first_fit_used :
    (start n : ℕ) (b : Block) (bs : List Block)
    → fits n b ≡ true
    → first_fit start n (b ∷ bs) ≡ (start + 32, cut b.size n bs)
first_fit_used start n b bs fit = rw fit

first_fit_skipped :
    (start n : ℕ) (b : Block) (bs : List Block)
    → fits n b ≡ false
    → first_fit start n (b ∷ bs)
      ≡ ((first_fit (behind start b.size) n bs).0, b ∷ (first_fit (behind start b.size) n bs).1)
first_fit_skipped start n b bs fit = rw fit

pub find_chunk-first_fit :
    (fuel : ℕ) (m : Chunks) (prev start end n : Ptr) (bs : List Block)
    → length bs < fuel
    → 0 < start
    → end < 2 ^ 64
    → n + 64 < 2 ^ 64
    → IsLaidOut m prev start end bs
    → Gives m prev start end
        ((first_fit start n bs).0)
        ((first_fit start n bs).1)
        (find_chunk fuel m (head_at start bs) n)
find_chunk-first_fit zero m prev start end n bs enough some_start bound small h =
    absurd (omega arith)
find_chunk-first_fit (suc fuel) m prev start end n [] enough some_start bound small h = record {
  after = m;
  returns = find_chunk_end fuel m n;
  laid = h;
  below = λ a l. refl;
}
find_chunk-first_fit (suc fuel) m prev start end n (b ∷ bs) enough some_start bound small h =
    elim (Bool-cases (fits n b)) [
      | inl fit ↦
          let used = use_chunk-Gives m prev start end n b bs some_start bound small h in
          let found = first_fit_used start n b bs fit in
          record {
            after = used.after;
            returns =
                find_chunk_used fuel m start n (chunk_at prev start b bs) some_start small h.0 fit
                ∙ used.returns
                ∙ ap (λ r. some (r.0, used.after)) (sym found);
            laid = rw found used.laid;
            below = used.below;
          }
      | inr unfit ↦
          let at : Ptr = behind start b.size in
          let rest =
            find_chunk-first_fit fuel m start at end n bs (omega arith) (omega arith) bound small
              h.1 in
          let found = first_fit_skipped start n b bs unfit in
          let held : rest.after start ≡ some (chunk_at prev start b ((first_fit at n bs).1)) =
            rest.below start (omega arith)
            ∙ h.0
            ∙ ap (λ a. some (record (chunk_at prev start b bs) { next = a }))
                (sym (head_at_kept at at n bs)) in
          record {
            after = rest.after;
            returns =
                find_chunk_skipped fuel m start n (chunk_at prev start b bs) some_start small h.0
                  unfit
                ∙ rest.returns
                ∙ ap (λ r. some (r.0, rest.after)) (sym found);
            laid = rw found (held, rest.laid);
            below = λ a l. rest.below a (omega arith);
          }
    ]
