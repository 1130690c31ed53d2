-- ===== src/Tty/Bounds.antt =====
-- The handlers of nttty/tty.c keep the indices of both buffers of a device in bounds.
use free_nt.Base.{ℕ, zero, suc, ◌+◌, Option, none, some, List, [], ◌∷◌, arith, if_keeps}
use free_nt.Tty.Ring.{Ring, ibuf_size, obuf_size, pop, reset, erase}
use free_nt.Tty.Ring.Queue.{IsInBounds}
use free_nt.Tty.Ring.Erase.{push-IsInBounds, pop-IsInBounds, reset-IsInBounds, erase-IsInBounds}
use free_nt.Tty.Types.{Device, Discipline, cooked_disc, raw_disc}
use free_nt.Tty.Cooked.{read_loop, write_loop, cooked_read, cooked_write, flush_input, flush_output}
use free_nt.Tty.Input.{
  echo_char, buffer_char, erase_char, kill_line, accept_char, cooked_input, put_output,
  cooked_output, raw_input,
}
use free_nt.Tty.Ioctl.{
  IoctlData, IoctlResult, null_data, termios_data, winsize_data, selector_data, flush_selected,
  cooked_ioctl,
}
use free_nt.Tty.Io.{read_table, write_table}
use free_nt.Tty.Table.{table, raw_output, raw_ioctl}

pub record DeviceIsInBounds (d : Device) : Type 0 where
  pub input : IsInBounds ibuf_size d.input_buf
  pub output : IsInBounds obuf_size d.output_buf

pub read_loop-IsInBounds :
    (len : ℕ) (status : Option ℕ) {b : Ring}
    → IsInBounds ibuf_size b
    → IsInBounds ibuf_size (read_loop len status b).2
unfolding read_loop
read_loop-IsInBounds zero status v = v
read_loop-IsInBounds (suc len) status {b} v = ground (
  arith,
  pop-IsInBounds v,
  read_loop-IsInBounds len (some (pop ibuf_size b).0) (pop-IsInBounds v),
)

pub write_loop-IsInBounds :
    (bytes : List ℕ) (i : ℕ) {b : Ring}
    → IsInBounds obuf_size b
    → IsInBounds obuf_size (write_loop bytes i b).1
unfolding write_loop
write_loop-IsInBounds [] i v = v
write_loop-IsInBounds (c ∷ cs) i v =
    ground (arith, push-IsInBounds c v, write_loop-IsInBounds cs (i + 1) (push-IsInBounds c v))

pub echo-IsInBounds : {d : Device} (ch : ℕ) → DeviceIsInBounds d → DeviceIsInBounds (echo_char d ch)
unfolding echo_char
echo-IsInBounds ch v = record { input = v.input; output = push-IsInBounds ch v.output }

pub buffer-IsInBounds :
    {d : Device} (ch : ℕ) → DeviceIsInBounds d → DeviceIsInBounds (buffer_char d ch)
unfolding buffer_char
buffer-IsInBounds ch v = record { input = push-IsInBounds ch v.input; output = v.output }

pub flush_input-IsInBounds : {d : Device} → DeviceIsInBounds d → DeviceIsInBounds (flush_input d).1
unfolding flush_input
flush_input-IsInBounds v = record { input = reset-IsInBounds v.input; output = v.output }

pub flush_output-IsInBounds :
    {d : Device} → DeviceIsInBounds d → DeviceIsInBounds (flush_output d).1
unfolding flush_output
flush_output-IsInBounds v = record { input = v.input; output = reset-IsInBounds v.output }

pub erase_char-IsInBounds : {d : Device} → DeviceIsInBounds d → DeviceIsInBounds (erase_char d)
unfolding erase_char
erase_char-IsInBounds {d} v =
    let erased : DeviceIsInBounds (record d { input_buf = erase d.input_buf }) = record {
      input = erase-IsInBounds v.input;
      output = v.output;
    } in
    if_keeps DeviceIsInBounds _
      (if_keeps DeviceIsInBounds _
        (echo-IsInBounds 8 (echo-IsInBounds b' ' (echo-IsInBounds 8 erased))) erased)
      v

pub kill_line-IsInBounds : {d : Device} → DeviceIsInBounds d → DeviceIsInBounds (kill_line d)
unfolding kill_line
kill_line-IsInBounds {d} v =
    let killed : DeviceIsInBounds (record d { input_buf = reset d.input_buf }) = record {
      input = reset-IsInBounds v.input;
      output = v.output;
    } in
    if_keeps DeviceIsInBounds _ (echo-IsInBounds b'\n' killed) killed

pub accept_char-IsInBounds :
    {d : Device} (ch : ℕ) → DeviceIsInBounds d → DeviceIsInBounds (accept_char d ch)
unfolding accept_char
accept_char-IsInBounds ch v =
    let buffered = buffer-IsInBounds _ v in
    if_keeps DeviceIsInBounds _ (echo-IsInBounds _ buffered) buffered

-- A status with a device whose buffers are in bounds.
pub record ReplyIsInBounds (r : ℕ × Device) : Type 0 where
  pub device : DeviceIsInBounds r.1

pub cooked_input-IsInBounds :
    {d : Device} (ch : ℕ) → DeviceIsInBounds d → ReplyIsInBounds (cooked_input d ch)
unfolding cooked_input
cooked_input-IsInBounds {d} ch v =
    ground (arith, erase_char-IsInBounds v, kill_line-IsInBounds v, accept_char-IsInBounds ch v)

pub put_output-IsInBounds :
    {d : Device} (ch : ℕ) → DeviceIsInBounds d → ReplyIsInBounds (put_output d ch)
unfolding put_output
put_output-IsInBounds ch v = record {
  device = record { input = v.input; output = push-IsInBounds ch v.output };
}

pub cooked_output-IsInBounds :
    {d : Device} (ch : ℕ) → DeviceIsInBounds d → ReplyIsInBounds (cooked_output d ch)
unfolding cooked_output
cooked_output-IsInBounds {d} ch v =
    ground (arith, echo-IsInBounds b'\n' (echo-IsInBounds b'\r' v), put_output-IsInBounds ch v)

pub cooked_read-IsInBounds :
    {d : Device} (len : ℕ) → DeviceIsInBounds d → DeviceIsInBounds (cooked_read d len).2
unfolding cooked_read
cooked_read-IsInBounds len v = record {
  input = read_loop-IsInBounds len none v.input;
  output = v.output;
}

pub cooked_write-IsInBounds :
    {d : Device} (bytes : List ℕ) → DeviceIsInBounds d → DeviceIsInBounds (cooked_write d bytes).2
unfolding cooked_write
cooked_write-IsInBounds bytes v = record {
  input = v.input;
  output = write_loop-IsInBounds bytes 0 v.output;
}

pub table_read-IsInBounds :
    (disc : Discipline) {d : Device} (len : ℕ)
    → DeviceIsInBounds d
    → DeviceIsInBounds ((table disc).read_fn d len).2
table_read-IsInBounds disc {d} len v = rw read_table (cooked_read-IsInBounds len v)

pub table_write-IsInBounds :
    (disc : Discipline) {d : Device} (bytes : List ℕ)
    → DeviceIsInBounds d
    → DeviceIsInBounds ((table disc).write_fn d bytes).2
table_write-IsInBounds disc bytes v = rw write_table (cooked_write-IsInBounds bytes v)

pub table_input-IsInBounds :
    (disc : Discipline) {d : Device} (ch : ℕ)
    → DeviceIsInBounds d
    → ReplyIsInBounds ((table disc).input_fn d ch)
unfolding raw_input
table_input-IsInBounds cooked_disc ch v = cooked_input-IsInBounds ch v
table_input-IsInBounds raw_disc ch v = record {
  device = record { input = push-IsInBounds ch v.input; output = v.output };
}

pub table_output-IsInBounds :
    (disc : Discipline) {d : Device} (ch : ℕ)
    → DeviceIsInBounds d
    → ReplyIsInBounds ((table disc).output_fn d ch)
unfolding raw_output
table_output-IsInBounds cooked_disc ch v = cooked_output-IsInBounds ch v
table_output-IsInBounds raw_disc ch v = put_output-IsInBounds ch v

-- What `ioctl` leaves, if it is defined.
abbrev pub DefinedIsInBounds : IoctlResult → Type 0
DefinedIsInBounds none = Unit {0}
DefinedIsInBounds (some (s, d, p)) = DeviceIsInBounds d

pub flush_selected-IsInBounds :
    {d : Device} (selector : ℕ) → DeviceIsInBounds d → DeviceIsInBounds (flush_selected d selector)
unfolding flush_selected
flush_selected-IsInBounds selector v = ground arith

pub cooked_ioctl-IsInBounds :
    {d : Device} (cmd : ℕ) (p : IoctlData)
    → DeviceIsInBounds d
    → DefinedIsInBounds (cooked_ioctl d cmd p)
unfolding cooked_ioctl
cooked_ioctl-IsInBounds cmd null_data v = ground arith
cooked_ioctl-IsInBounds cmd (termios_data t) v = ground arith
cooked_ioctl-IsInBounds cmd (winsize_data w) v = ground arith
cooked_ioctl-IsInBounds cmd (selector_data n) v = ground (arith, flush_selected-IsInBounds n v)

pub table_ioctl-IsInBounds :
    (disc : Discipline) {d : Device} (cmd : ℕ) (p : IoctlData)
    → DeviceIsInBounds d
    → DefinedIsInBounds ((table disc).ioctl_fn d cmd p)
unfolding raw_ioctl
table_ioctl-IsInBounds cooked_disc cmd p v = cooked_ioctl-IsInBounds cmd p v
table_ioctl-IsInBounds raw_disc cmd p v = cooked_ioctl-IsInBounds cmd p v
