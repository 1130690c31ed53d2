-- ===== src/Tty/Typing.antt =====
-- What the characters that are typed and printed one by one leave in the buffers of a device.
use free_nt.Base.{
  ℕ, ◌+◌, ◌-◌, min, ◌≡◌, refl, sym, ap, ◌∙◌, List, [], ◌∷◌, ◌++◌, append-nil, append_assoc, arith,
  length, length-append, take, take-nil, take_all, take-append, dec_lt,
}
use free_nt.Tty.Ring.{Ring, ibuf_size, obuf_size, push}
use free_nt.Tty.Ring.Queue.{IsValid, contents}
use free_nt.Tty.Types.{Device}
use free_nt.Tty.Transfer.{push_full, push_room}
use free_nt.Tty.Input.{echo_char, buffer_char}
use free_nt.Tty.Io.{DeviceIsValid}

-- From one ring to the next, `bytes` were pushed, and those that found no room were lost.
pub record Gains (size : ℕ) (r : Ring) (bytes : List ℕ) (r' : Ring) : Type 0 where
  pub gained : contents size r' ≡ contents size r ++ take (size - r.count) bytes
  pub count : r'.count ≡ min size (r.count + length bytes)
  pub valid : IsValid size r'

module _ {size : ℕ} {r : Ring} where
  pub Gains-nothing : IsValid size r → Gains size r [] r
  Gains-nothing v = record {
    gained = sym (rw (take-nil, append-nil));
    count = omega arith;
    valid = v;
  }

  pub push-Gains : (ch : ℕ) → IsValid size r → Gains size r (ch ∷ []) (push size r ch).1
  push-Gains ch v = elim (dec_lt r.count size) [
    | yes room ↦
        let step = push_room ch v room in
        record {
          gained = step.1 ∙ rw (take_all (size - r.count) (ch ∷ []) (omega arith));
          count = omega (arith, step.2);
          valid = step.3;
        }
    | no full ↦
        let none_left : size - r.count ≡ 0 = omega arith in
        rw (push_full size r ch (omega arith))
          (record { gained = rw (none_left, append-nil); count = omega arith; valid = v })
  ]

  pub Gains-append :
      {xs ys : List ℕ} {r₁ r₂ : Ring}
      → Gains size r xs r₁
      → Gains size r₁ ys r₂
      → Gains size r (xs ++ ys) r₂
  Gains-append {xs} {ys} {r₁} g h =
      let room : size - r₁.count ≡ size - r.count - length xs = omega (arith, g.count) in
      record {
        gained = h.gained ∙ rw (g.gained, room, take-append) (append_assoc (contents size r) _ _);
        count = omega (arith, g.count, h.count, length-append xs ys);
        valid = h.valid;
      }

abbrev pub with_buffers : Ring → Ring → Device → Device
with_buffers i o d = record d { input_buf = i; output_buf = o }

-- From one device to the next, `typed` went to the input and `shown` to the output, and nothing else
-- changed.
pub record Takes (d : Device) (typed shown : List ℕ) (d' : Device) : Type 0 where
  pub input : Gains ibuf_size d.input_buf typed d'.input_buf
  pub output : Gains obuf_size d.output_buf shown d'.output_buf
  pub frame : d' ≡ with_buffers d'.input_buf d'.output_buf d

module _ {d : Device} where
  pub echo-Takes : (ch : ℕ) → DeviceIsValid d → Takes d [] (ch ∷ []) (echo_char d ch)
  unfolding echo_char
  echo-Takes ch v = record {
    input = Gains-nothing v.input;
    output = push-Gains ch v.output;
    frame = refl;
  }

  pub buffer-Takes : (ch : ℕ) → DeviceIsValid d → Takes d (ch ∷ []) [] (buffer_char d ch)
  unfolding buffer_char
  buffer-Takes ch v = record {
    input = push-Gains ch v.input;
    output = Gains-nothing v.output;
    frame = refl;
  }

  pub Takes-nothing : DeviceIsValid d → Takes d [] [] d
  Takes-nothing v = record {
    input = Gains-nothing v.input;
    output = Gains-nothing v.output;
    frame = refl;
  }

  pub Takes-append :
      {xs ys ss ts : List ℕ} {d₁ d₂ : Device}
      → Takes d xs ss d₁
      → Takes d₁ ys ts d₂
      → Takes d (xs ++ ys) (ss ++ ts) d₂
  Takes-append {d₂} t u = record {
    input = Gains-append t.input u.input;
    output = Gains-append t.output u.output;
    frame = u.frame ∙ ap (with_buffers d₂.input_buf d₂.output_buf) t.frame;
  }

  pub Takes-IsValid : {xs ss : List ℕ} {d' : Device} → Takes d xs ss d' → DeviceIsValid d'
  Takes-IsValid t = record { input = t.input.valid; output = t.output.valid }
