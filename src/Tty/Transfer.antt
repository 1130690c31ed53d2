-- ===== src/Tty/Transfer.antt =====
-- How much `NttyRead` and `NttyWrite` of nttty/tty.c transfer, and which bytes.
use native.Mathlib.Decide.{ℕ_discrete, dec_lt}
use free_nt.Base.{
  ℕ, zero, suc, ◌+◌, ◌-◌, ◌<◌, ◌≤◌, min, ◌≡◌, ◌≢◌, refl, ◌∙◌, Option, none, some, List, [], ◌∷◌,
  ◌++◌, append-nil, append_assoc, arith, length, take, drop, take-cons, take-nil, NtStatus,
  status_success, status_buffer_overflow, status_no_data_detected,
}
use free_nt.Tty.Ring.{Ring, ibuf_size, obuf_size, push, pop}
use free_nt.Tty.Ring.Queue.{
  IsValid, contents, length-contents, window_of_ne_zero, push_refines, pop_refines, enqueue,
  dequeue,
}
use free_nt.Tty.Cooked.{read_loop, read_status, write_loop}

pub pop_empty :
    (size : ℕ) (r : Ring) → r.count ≡ 0 → pop size r ≡ (status_no_data_detected, none, r)
unfolding pop
pop_empty size r e = ground arith

pub pop_cons :
    {size : ℕ} {r : Ring}
    → IsValid size r
    → r.count ≢ 0
    → let (s, out, r') = pop size r in
      (s ≡ status_success)
      × (out ≡ some (r.buf r.head))
      × (contents size r ≡ r.buf r.head ∷ contents size r')
      × (r'.count ≡ r.count - 1)
      × IsValid size r'
unfolding pop dequeue
pop_cons {size} {r} v ne =
    ground (arith, pop_refines v, window_of_ne_zero r.buf size r.head r.count)

pub push_full :
    (size : ℕ) (r : Ring) (ch : ℕ) → size ≤ r.count → push size r ch ≡ (status_buffer_overflow, r)
unfolding push
push_full size r ch h = ground arith

pub push_room :
    {size : ℕ} {r : Ring} (ch : ℕ)
    → IsValid size r
    → r.count < size
    → let (s, r') = push size r ch in
      (s ≡ status_success)
      × (contents size r' ≡ contents size r ++ (ch ∷ []))
      × (r'.count ≡ r.count + 1)
      × IsValid size r'
unfolding push enqueue
push_room {size} {r} ch v room = ground (arith, push_refines ch v, length-contents size r)

-- What a read of `len` bytes from a buffer leaves.
pub record Reads (len : ℕ) (b : Ring) (status : Option NtStatus)
    (out : Option NtStatus × List ℕ × Ring) : Type 0 where
  pub bytes : out.1 ≡ take len (contents ibuf_size b)
  pub rest : contents ibuf_size out.2 ≡ drop len (contents ibuf_size b)
  pub valid : IsValid ibuf_size out.2
  pub final : b.count < len → out.0 ≡ some status_no_data_detected

pub contents_empty : (size : ℕ) (r : Ring) → r.count ≡ 0 → contents size r ≡ []
contents_empty size r e = rw e

read_loop_empty :
    (len : ℕ) (status : Option NtStatus) (b : Ring)
    → b.count ≡ 0
    → read_loop (suc len) status b ≡ (some status_no_data_detected, [], b)
unfolding read_loop
read_loop_empty len status b e = ground (arith, pop_empty ibuf_size b e)

read_loop_cons :
    (len : ℕ) (status : Option NtStatus) {b : Ring}
    → IsValid ibuf_size b
    → b.count ≢ 0
    → read_loop (suc len) status b ≡ (
        let (s, cs, b') = read_loop len (some status_success) (pop ibuf_size b).2 in
        (s, b.buf b.head ∷ cs, b'))
unfolding read_loop
read_loop_cons len status {b} v ne = ground (arith, pop_cons v ne)

pub read_loop-Reads :
    (len : ℕ) (status : Option NtStatus) {b : Ring}
    → IsValid ibuf_size b
    → Reads len b status (read_loop len status b)
unfolding read_loop
read_loop-Reads zero status v = record {
  bytes = refl;
  rest = refl;
  valid = v;
  final = λ h. elim h [ ];
}
read_loop-Reads (suc len) status {b} v = elim (ℕ_discrete b.count 0) [
  | yes e ↦ rw (read_loop_empty len status b e) (record {
    bytes = rw (contents_empty ibuf_size b e);
    rest = rw (contents_empty ibuf_size b e);
    valid = v;
    final = λ h. refl;
  })
  | no ne ↦
      let step = pop_cons v ne in
      let ih = read_loop-Reads len (some status_success) step.4 in
      rw (read_loop_cons len status v ne) (record {
        bytes = ground (arith, step, ih.bytes);
        rest = ground (arith, step, ih.rest);
        valid = ih.valid;
        final = λ h. ih.final (ground (arith, step));
      })
]

-- The status that a read of `len` bytes from a queue returns.
abbrev pub read_outcome : ℕ → List ℕ → Option NtStatus
read_outcome zero q = none
read_outcome (suc len) [] = some status_no_data_detected
read_outcome (suc len) (c ∷ q) = some status_success

pub read_loop_outcome :
    (len : ℕ) {b : Ring}
    → IsValid ibuf_size b
    → (let (s, cs, b') = read_loop len none b in read_status cs s)
      ≡ read_outcome len (contents ibuf_size b)
unfolding read_loop
read_loop_outcome zero v = refl
read_loop_outcome (suc len) {b} v = elim (ℕ_discrete b.count 0) [
  | yes e ↦ rw (read_loop_empty len none b e, contents_empty ibuf_size b e)
  | no ne ↦ rw (read_loop_cons len none v ne, (pop_cons v ne).2)
]

-- What a write of `bytes` leaves, started with `i` bytes written.
pub record Writes (bytes : List ℕ) (b : Ring) (i : ℕ) (out : ℕ × Ring) : Type 0 where
  pub count : out.0 ≡ i + min (length bytes) (obuf_size - b.count)
  pub filled : contents obuf_size out.1 ≡ contents obuf_size b ++ take (obuf_size - b.count) bytes
  pub valid : IsValid obuf_size out.1

write_loop_full :
    (c : ℕ) (cs : List ℕ) (i : ℕ) (b : Ring)
    → obuf_size ≤ b.count
    → write_loop (c ∷ cs) i b ≡ (i, b)
unfolding write_loop
write_loop_full c cs i b h = ground (arith, push_full obuf_size b c h)

write_loop_room :
    (c : ℕ) (cs : List ℕ) (i : ℕ) {b : Ring}
    → IsValid obuf_size b
    → b.count < obuf_size
    → write_loop (c ∷ cs) i b ≡ write_loop cs (i + 1) (push obuf_size b c).1
unfolding write_loop
write_loop_room c cs i v h = ground (arith, push_room c v h)

pub write_loop-Writes :
    (bytes : List ℕ) (i : ℕ) {b : Ring}
    → IsValid obuf_size b
    → Writes bytes b i (write_loop bytes i b)
unfolding write_loop
write_loop-Writes [] i {b} v = record {
  count = omega arith;
  filled = rw (take-nil (obuf_size - b.count), append-nil);
  valid = v;
}
write_loop-Writes (c ∷ cs) i {b} v = elim (dec_lt b.count obuf_size) [
  | no full ↦
      let none_left : obuf_size - b.count ≡ 0 = omega arith in
      rw (write_loop_full c cs i b (omega arith))
        (record { count = omega arith; filled = rw (none_left, append-nil); valid = v })
  | yes room ↦
      let step = push_room c v room in
      let ih = write_loop-Writes cs (i + 1) step.3 in
      let left : obuf_size - (push obuf_size b c).1.count ≡ obuf_size - b.count - 1 =
        omega (arith, step.2) in
      rw (write_loop_room c cs i v room) (record {
        count = omega (arith, ih.count, left);
        filled =
            ih.filled
            ∙ rw (step.1, left, take-cons (obuf_size - b.count) c cs (omega arith))
                (append_assoc (contents obuf_size b) (c ∷ []) _);
        valid = ih.valid;
      })
]
