-- ===== src/Crt/Alloc/Duplicated.antt =====
-- What freent_strdup of freedll/src/crt_string.c promises of the process heap of freedll/src/heap.c.
use free_nt.Base.{
  ℕ, suc, ◌+◌, ◌-◌, ◌^◌, ◌<◌, ◌≤◌, ◌≡◌, ◌≢◌, ◌⊎◌, inl, inr, refl, ◌∙◌, ap, false, Option, some,
  List, [], ◌∷◌, arith, length, ◌==◌, u64, if◌then◌else◌, Bool-cases,
}
use free_nt.Heap.{Ptr, Heaps, Chunks, align_up}
use free_nt.Heap.Allocate.{allocate_heap}
use free_nt.Heap.Layout.{Block, behind, IsLaidOut, end_bound}
use free_nt.Heap.Fit.{first_fit, fits}
use free_nt.Heap.Serve.{IsHeap, allocate_heap-first_fit, align_up_bounds}
use free_nt.Crt.Memory.{Bytes, memcpy}
use free_nt.Crt.Copy.{block, memcpy-block}
use free_nt.Crt.Measure.{HasText, strlen_lem}
use free_nt.Crt.Text.{strlen}
use free_nt.Crt.Alloc.{strdup}
use free_nt.Crt.Alloc.Cleared.{get_process_heap_kept}

-- The call gives `q`. If that is not NULL, the string is there, and no byte outside it is written.
pub record Duplicated (h : Heaps) (cs : List ℕ) (q : ℕ) (out : Option (Ptr × Heaps)) : Type 0 where
  pub after : Heaps
  pub returns : out ≡ some (q, after)
  pub text : q ≢ 0 → HasText after.bytes q cs
  pub kept : q ≢ 0 → (a : ℕ) → (a < q) ⊎ (q + length cs < a) → after.bytes a ≡ h.bytes a

-- An address that first fit gives lies between the first header and the end.
first_fit_within :
    (m : Chunks) (prev start end n : ℕ) (bs : List Block)
    → IsLaidOut m prev start end bs
    → (first_fit start n bs).0 ≢ 0
    → (start + 32 ≤ (first_fit start n bs).0) × ((first_fit start n bs).0 ≤ end)
first_fit_within m prev start end n [] h given = absurd (given refl)
first_fit_within m prev start end n (b ∷ bs) h given =
    let over = end_bound m start (behind start b.size) end bs h.1 in
    elim (Bool-cases (fits n b)) [
      | inl fit ↦ rw fit (omega arith, omega arith)
      | inr unfit ↦
          let other : (first_fit (behind start b.size) n bs).0 ≢ 0 = rw unfit at given in
          let rest = first_fit_within m start (behind start b.size) end n bs h.1 other in
          rw unfit (omega (arith, rest.0), rest.1)
    ]

moved :
    (m m' : Bytes) (q s : ℕ) (cs : List ℕ)
    → m' q ≡ m s
    → ((i : ℕ) → i ≤ length cs → m' (q + i) ≡ m (s + i))
    → HasText m s cs
    → HasText m' q cs
moved m m' q s [] here same h = here ∙ h
moved m m' q s (c ∷ cs) here same h = (
  here ∙ h.0,
  h.1,
  h.2,
  moved m m' (q + 1) (s + 1) cs (same 1 (omega arith))
      (λ i l.
        let at_q : q + suc i ≡ q + 1 + i = omega arith in
        let at_s : s + suc i ≡ s + 1 + i = omega arith in
        rw (at_q, at_s) at (same (suc i) (omega arith)))
      h.3,
)

HasText-moved :
    (m m' : Bytes) (q s : ℕ) (cs : List ℕ)
    → ((i : ℕ) → i ≤ length cs → m' (q + i) ≡ m (s + i))
    → HasText m s cs
    → HasText m' q cs
HasText-moved m m' q s cs same h =
    let at_q : q + 0 ≡ q = omega arith in
    let at_s : s + 0 ≡ s = omega arith in
    let here : m' q ≡ m s = rw (at_q, at_s) at (same 0 (omega arith)) in
    moved m m' q s cs here same h

block_in : (n : ℕ) (m : Bytes) (q s i : ℕ) → i < n → block n m q s (q + i) ≡ m (s + i)
block_in n m q s i l = let back : q + i - q ≡ i = omega arith in rw back (ground arith)

block_out : (n : ℕ) (m : Bytes) (q s a : ℕ) → (a < q) ⊎ (q + n ≤ a) → block n m q s a ≡ m a
block_out n m q s a out = ground arith

strdup_run :
    (steps fuel : ℕ) (fresh again : Ptr) (h h' : Heaps) (s n q : ℕ)
    → strlen steps h.bytes s ≡ some n
    → n + 1 < 2 ^ 64
    → h.process_heap ≢ 0
    → allocate_heap fuel again h h.process_heap (n + 1) ≡ some (q, h')
    → strdup steps fuel fresh again h s
      ≡ some (q, if q == 0 then h' else record h' { bytes = memcpy h'.bytes q s (n + 1) })
unfolding strdup
strdup_run steps fuel fresh again h h' s n q measured small made ran =
    let word : u64 (n + 1) ≡ n + 1 = omega arith in
    let kept = get_process_heap_kept fresh h made in rw (strdup, measured, word, kept, ran, word)

copied_at :
    (h h' : Heaps) (s q : ℕ) (cs : List ℕ) (out : Option (Ptr × Heaps))
    → h'.bytes ≡ h.bytes
    → (q ≢ 0 → (q ≤ s) ⊎ (s + (length cs + 1) ≤ q))
    → HasText h.bytes s cs
    → out
      ≡ some (q, if q == 0 then h' else record h' { bytes = memcpy h'.bytes q s (length cs + 1) })
    → Duplicated h cs q out
copied_at h h' s q cs out same apart held ran =
    let n : ℕ = length cs + 1 in
    let copy : q ≢ 0 → (a : ℕ) → memcpy h'.bytes q s n a ≡ block n h.bytes q s a =
      λ given a. memcpy-block h'.bytes q s n (apart given) a ∙ ap (λ m. block n m q s a) same in
    record {
      after = if q == 0 then h' else record h' { bytes = memcpy h'.bytes q s n };
      returns = ran;
      text = λ given.
          let there : q == 0 ≡ false = ground arith in
          rw there (
            HasText-moved h.bytes _ q s cs
              (λ i l. copy given (q + i) ∙ block_in n h.bytes q s i (omega arith)) held);
      kept = λ given a out_of.
          let there : q == 0 ≡ false = ground arith in
          rw there (
            copy given a
            ∙ block_out n h.bytes q s a
                (elim out_of [ inl l ↦ inl l | inr l ↦ inr (omega arith) ]));
    }

-- The string lies before the heap or behind it.
abbrev pub IsApart : (p end s n : ℕ) → Type 0
IsApart p end s n = (s + n ≤ p) ⊎ (end ≤ s)

-- On a process heap that is laid out, with more fuel than it has blocks and more than the string has
-- characters, a string that lies outside the heap is duplicated: the call returns, what it gives is what
-- `first_fit` of the size of the string gives, and memory that it gives holds the string.
pub strdup-Duplicated :
    (steps fuel : ℕ) (fresh again : Ptr) (h : Heaps) (end s : ℕ) (cs : List ℕ) (bs : List Block)
    → length cs < steps
    → length bs < fuel
    → h.process_heap ≢ 0
    → end < 2 ^ 64
    → length cs + 72 < 2 ^ 64
    → HasText h.bytes s cs
    → IsApart h.process_heap end s (length cs + 1)
    → IsHeap h h.process_heap end bs
    → Duplicated h cs
        ((first_fit (h.process_heap + 32) (align_up (length cs + 1)) bs).0)
        (strdup steps fuel fresh again h s)
strdup-Duplicated steps fuel fresh again h end s cs bs enough_steps enough made bound small held
      apart heap =
    let n : ℕ = length cs + 1 in
    let q : Ptr = (first_fit (h.process_heap + 32) (align_up n) bs).0 in
    let bounds = align_up_bounds n (omega arith) in
    let done =
      allocate_heap-first_fit fuel again h h.process_heap end n bs enough made bound (omega arith)
        (omega (arith, bounds.1)) heap in
    let within : q ≢ 0 → (h.process_heap + 32 + 32 ≤ q) × (q ≤ end) =
      first_fit_within h.chunks 0 (h.process_heap + 32) end (align_up n) bs heap.laid in
    copied_at h done.after s q cs _ done.bytes
      (λ given.
        let l = within given in
        elim apart [
          | inl before ↦ inr (omega (arith, l.0, before))
          | inr behind ↦ inl (omega (arith, l.1, behind))
        ])
      held
      (strdup_run steps fuel fresh again h done.after s (length cs) q
        (strlen_lem steps h.bytes s cs enough_steps held) (omega arith) made done.returns)
