-- ===== src/Tty/Ring/Erase.antt =====
-- What flushing and the erase character do to a ring of nttty/tty.c.
use native.Mathlib.Nat.{mod-eq_of_lt, mod-eq-sub-mod, mod-lt, mod-add-mod}
use free_nt.Base.{
  ℕ, zero, suc, ◌+◌, ◌-◌, ◌%◌, ◌≤◌, ◌<◌, ◌≡◌, ◌≢◌, ap, refl, sym, ◌∙◌, [], ◌∷◌, arith, dec_lt, take,
}
use free_nt.Tty.Ring.{Ring, push, pop, reset, erase}
use free_nt.Tty.Ring.Queue.{IsValid, IsInBounds, window, window-update, contents}

pub IsValid-IsInBounds : {size : ℕ} {r : Ring} → IsValid size r → IsInBounds size r
IsValid-IsInBounds {size} {r} v = omega arith

pub reset-contents :
    {size : ℕ} {r : Ring}
    → IsInBounds size r
    → IsValid size (reset r) × (contents size (reset r) ≡ [])
unfolding reset
reset-contents {size} v = (
  record {
    small = v.small;
    head_in = omega arith;
    count_in = omega arith;
    tail_at = sym (mod-eq_of_lt (omega arith));
  },
  refl,
)

pub push-IsInBounds :
    {size : ℕ} {r : Ring} (ch : ℕ) → IsInBounds size r → IsInBounds size (push size r ch).1
unfolding push
push-IsInBounds ch v = ground arith

pub pop-IsInBounds : {size : ℕ} {r : Ring} → IsInBounds size r → IsInBounds size (pop size r).2
unfolding pop
pop-IsInBounds v = ground arith

pub reset-IsInBounds : {size : ℕ} {r : Ring} → IsInBounds size r → IsInBounds size (reset r)
unfolding reset
reset-IsInBounds v = ground arith

pub erase-IsInBounds : {size : ℕ} {r : Ring} → IsInBounds size r → IsInBounds size (erase r)
unfolding erase
erase-IsInBounds v = ground arith

-- The bytes that a reader would get after an erase are the old ones less the newest.
take-window :
    (buf : ℕ → ℕ) (size h n k : ℕ) → k ≤ n → take k (window buf size h n) ≡ window buf size h k
take-window buf size h n zero p = refl
take-window buf size h zero (suc k) p = absurd (omega arith)
take-window buf size h (suc n) (suc k) p =
    ap (λ q. buf h ∷ q) (take-window buf size ((h + 1) % size) n k (omega arith))

pub erase-contents :
    (size : ℕ) (r : Ring) → contents size (erase r) ≡ take (r.count - 1) (contents size r)
unfolding erase
erase-contents size r = sym (take-window r.buf size r.head r.count (r.count - 1) (omega arith))

-- Neighbours have different remainders.
mod-step-ne : (size a : ℕ) → 1 < size → (a + 1) % size ≢ a % size
mod-step-ne size a big e =
    let q : ℕ = a % size in
    let below : q < size = mod-lt a (omega arith) in
    let same : (q + 1) % size ≡ q = mod-add-mod a size 1 ∙ e in
    elim (dec_lt (q + 1) size) [
      | yes p ↦ omega (arith, mod-eq_of_lt p)
      | no p ↦ omega (
        arith,
        mod-eq-sub-mod {n = q + 1} {m = size} (omega arith),
        mod-eq_of_lt {n = q + 1 - size} {m = size} (omega arith),
      )
    ]

-- An erase leaves the tail where it was: the ring is valid no more.
pub erase-not-IsValid :
    {size : ℕ} {r : Ring} → IsValid size r → 1 < size → 0 < r.count → ¬ IsValid size (erase r)
unfolding erase
erase-not-IsValid {size} {r} v big some_bytes w = mod-step-ne size (r.head + (r.count - 1)) big (
    ap (λ k. k % size) {x = r.head + (r.count - 1) + 1} {y = r.head + r.count} (omega arith)
    ∙ sym v.tail_at
    ∙ w.tail_at)

-- The next push writes behind the erased byte and brings that one back in place of the new one.
pub push-erase :
    {size : ℕ} {r : Ring} (ch : ℕ)
    → IsValid size r
    → 0 < r.count
    → r.count < size
    → contents size (push size (erase r) ch).1 ≡ contents size r
unfolding erase push
push-erase {size} {r} ch v some_bytes room =
    ground (arith, window-update r.buf size ch r.count r.head r.tail)
