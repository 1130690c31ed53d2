-- ===== src/Tty/Ring/Queue.antt =====
-- The rings of nttty/tty.c against the bounded queue of the bytes that they hold.
use native.Mathlib.Nat.{mod-add-mod, mod-eq_of_lt, mod-eq-sub-mod, add-zero}
use free_nt.Base.{
  ℕ, zero, suc, ◌+◌, ◌-◌, ◌%◌, ◌^◌, ◌≤◌, ◌<◌, ◌≡◌, ◌≢◌, refl, ap, ap₂, ◌∙◌, sym, List, [], ◌∷◌,
  ◌++◌, Option, none, some, arith, dec_lt, update, update_ne, update_self, length, leb,
  if◌then◌else◌, NtStatus, status_success, status_buffer_overflow, status_no_data_detected,
}
use free_nt.Tty.Ring.{Ring, push, pop}

-- A FIFO of at most `size` bytes, oldest first.
abbrev pub Queue : Type 0
Queue = List ℕ

unfoldable pub enqueue : ℕ → Queue → ℕ → NtStatus × Queue
enqueue size q ch =
    if leb size (length q) then (status_buffer_overflow, q) else (status_success, q ++ (ch ∷ []))

unfoldable pub dequeue : Queue → NtStatus × Option ℕ × Queue
dequeue [] = (status_no_data_detected, none, [])
dequeue (x ∷ q) = (status_success, some x, q)

-- The indices stay in the array and the tail stands where the queue ends.
pub record IsValid (size : ℕ) (r : Ring) : Type 0 where
  pub small : size < 2 ^ 31
  pub head_in : r.head < size
  pub count_in : r.count ≤ size
  pub tail_at : r.tail ≡ (r.head + r.count) % size

-- What is left of it once the erase character has been used: no access leaves the array.
pub record IsInBounds (size : ℕ) (r : Ring) : Type 0 where
  pub small : size < 2 ^ 31
  pub head_in : r.head < size
  pub tail_in : r.tail < size
  pub count_in : r.count ≤ size

module _ (buf : ℕ → ℕ) (size : ℕ) where
  -- the `n` bytes from index `h` on, going round at `size`
  abbrev pub window : ℕ → ℕ → Queue
  window h zero = []
  window h (suc n) = buf h ∷ window ((h + 1) % size) n

  pub length-window : (h n : ℕ) → length (window h n) ≡ n
  length-window h zero = refl
  length-window h (suc n) = ap suc (length-window ((h + 1) % size) n)

  pub window_of_ne_zero : (h n : ℕ) → n ≢ 0 → window h n ≡ buf h ∷ window ((h + 1) % size) (n - 1)
  window_of_ne_zero h zero p = absurd (p refl)
  window_of_ne_zero h (suc n) p = ap (λ k. window h (suc k)) (omega arith)

abbrev pub contents : ℕ → Ring → Queue
contents size r = window r.buf size r.head r.count

pub length-contents : (size : ℕ) (r : Ring) → length (contents size r) ≡ r.count
length-contents size r = length-window r.buf size r.head r.count

-- Fewer than `size` steps round the ring do not come back to the start.
add-mod-ne : {size h k : ℕ} → h < size → suc k < size → (h + suc k) % size ≢ h
add-mod-ne {size} {h} {k} hh hk = elim (dec_lt (h + suc k) size) [
  | yes p ↦ omega (arith, mod-eq_of_lt p)
  | no p ↦ omega (
    arith,
    mod-eq-sub-mod {n = h + suc k} {m = size} (omega arith),
    mod-eq_of_lt {n = h + suc k - size} {m = size} (omega arith),
  )
]

add-mod_shift : (size h n : ℕ) → (h + suc n) % size ≡ ((h + 1) % size + n) % size
add-mod_shift size h n = rw mod-add-mod (ap (λ k. k % size) (omega arith))

-- A write just behind a window that is not full leaves the window alone.
pub window-update :
    (buf : ℕ → ℕ) (size x n h i : ℕ)
    → h < size
    → n < size
    → i ≡ (h + n) % size
    → window (update buf i x) size h n ≡ window buf size h n
window-update buf size x zero h i hh hn e = refl
window-update buf size x (suc n) h i hh hn e = ap₂ ◌∷◌ (update_ne buf x (rw e (add-mod-ne hh hn))) (
    window-update buf size x n ((h + 1) % size) i (omega arith) (omega arith)
      (e ∙ add-mod_shift size h n))

-- Such a write extends the window by the byte.
window-suc :
    (buf : ℕ → ℕ) (size n h i : ℕ)
    → h < size
    → i ≡ (h + n) % size
    → window buf size h (suc n) ≡ window buf size h n ++ (buf i ∷ [])
window-suc buf size zero h i hh e = ap (λ k. buf k ∷ []) (sym (e ∙ rw add-zero (mod-eq_of_lt hh)))
window-suc buf size (suc n) h i hh e =
    ap (λ q. buf h ∷ q)
      (window-suc buf size n ((h + 1) % size) i (omega arith) (e ∙ add-mod_shift size h n))

-- So a push at the tail appends the byte.
window-push :
    (buf : ℕ → ℕ) (size x n h i : ℕ)
    → h < size
    → n < size
    → i ≡ (h + n) % size
    → window (update buf i x) size h (suc n) ≡ window buf size h n ++ (x ∷ [])
window-push buf size x n h i hh hn e =
    window-suc (update buf i x) size n h i hh e
    ∙ ap₂ (λ q b. q ++ (b ∷ [])) (window-update buf size x n h i hh hn e) (update_self buf i x)

next-tail :
    (size h n i : ℕ)
    → 0 < size
    → size < 2 ^ 31
    → i ≡ (h + n) % size
    → (i + 1) % 2 ^ 32 % size ≡ (h + (n + 1)) % size
next-tail size h n i pos small e =
    let in_range : i < size = omega arith in
    let no_wrap : (i + 1) % 2 ^ 32 ≡ i + 1 = omega arith in
    rw (no_wrap, e, mod-add-mod) (ap (λ k. k % size) (omega arith))

-- A push is an enqueue of the contents, and keeps the ring valid.
pub push_refines :
    {size : ℕ} {r : Ring} (ch : ℕ)
    → IsValid size r
    → let (s, r') = push size r ch in
      ((s, contents size r') ≡ enqueue size (contents size r) ch) × IsValid size r'
unfolding push enqueue
push_refines {size} {r} ch v = ground (
  arith,
  length-contents size r,
  window-push r.buf size ch r.count r.head r.tail,
  next-tail size r.head r.count r.tail,
)

-- A pop is a dequeue of the contents, and keeps the ring valid.
pub pop_refines :
    {size : ℕ} {r : Ring}
    → IsValid size r
    → let (s, out, r') = pop size r in
      ((s, out, contents size r') ≡ dequeue (contents size r)) × IsValid size r'
unfolding pop dequeue
pop_refines {size} {r} v =
    ground
      (arith, window_of_ne_zero r.buf size r.head r.count, add-mod_shift size r.head (r.count - 1))
