-- ===== src/Tty/Safety.antt =====
-- Every sequence of calls on a device of nttty/tty.c keeps its buffers in bounds.
use free_nt.Base.{Option-cases, inl, inr, List, [], ◌∷◌, arith}
use free_nt.Tty.Ring.Erase.{pop-IsInBounds}
use free_nt.Tty.Types.{Device}
use free_nt.Tty.Api
use free_nt.Tty.Api.{Reply, ReadReply}
use free_nt.Tty.Control
use free_nt.Tty.Control.{IoctlReply, is_null, ioctl_with}
use free_nt.Tty.Calls.{
  Op, read, write, get_char, put_char, key, set_termios, set_winsize, ioctl, handle_break, flush,
  set_line_disc, set_foreground_group, apply, run,
}
use free_nt.Tty.Bounds.{
  DeviceIsInBounds, table_read-IsInBounds, table_write-IsInBounds, table_input-IsInBounds,
  table_output-IsInBounds, put_output-IsInBounds, table_ioctl-IsInBounds,
}

-- Each call keeps both buffers in bounds.
apply-IsInBounds : (op : Op) {d : Device} → DeviceIsInBounds d → DeviceIsInBounds (apply op d)
unfolding apply Api.read Api.write Api.get_char Api.put_char Api.set_termios Api.set_winsize
    Control.ioctl Api.handle_break Api.flush Api.set_line_disc Control.set_foreground_group
apply-IsInBounds (read len) {d} v = elim (Option-cases d.line_disc) [
  | inl e ↦ ground arith
  | inr (disc, e) ↦ ground (arith, table_read-IsInBounds disc len v)
]
apply-IsInBounds (write bytes) {d} v = elim (Option-cases d.line_disc) [
  | inl e ↦ ground arith
  | inr (disc, e) ↦ ground (arith, table_write-IsInBounds disc bytes v)
]
apply-IsInBounds get_char {d} v =
    let popped = pop-IsInBounds v.input in record { input = popped; output = v.output }
apply-IsInBounds (put_char ch) {d} v = elim (Option-cases d.line_disc) [
  | inl e ↦ ground (arith, put_output-IsInBounds ch v)
  | inr (disc, e) ↦ ground (arith, table_output-IsInBounds disc ch v)
]
apply-IsInBounds (key ch) {d} v = elim (Option-cases d.line_disc) [
  | inl e ↦ ground arith
  | inr (disc, e) ↦ ground (arith, table_input-IsInBounds disc ch v)
]
apply-IsInBounds (set_termios t) v = ground arith
apply-IsInBounds (set_winsize w) v = ground arith
apply-IsInBounds (ioctl code input output) {d} v = elim (Option-cases d.line_disc) [
  | inl e ↦ ground arith
  | inr (disc, e) ↦
      ground
        (arith, table_ioctl-IsInBounds disc code input v, table_ioctl-IsInBounds disc code output v)
]
apply-IsInBounds handle_break {d} v = elim (Option-cases d.line_disc) [
  | inl e ↦ ground arith
  | inr (disc, e) ↦ ground (arith, table_input-IsInBounds disc 0 v)
]
apply-IsInBounds (flush selector) v = ground arith
apply-IsInBounds (set_line_disc n) v = ground arith
apply-IsInBounds (set_foreground_group pgid) v = ground arith

-- No sequence of calls and keys, erase and kill characters and control codes included, moves an index
-- or a count of a device's buffers out of bounds.
pub run-IsInBounds :
    (ops : List Op) {d : Device} → DeviceIsInBounds d → DeviceIsInBounds (run ops d)
unfolding run
run-IsInBounds [] v = v
run-IsInBounds (op ∷ ops) v = run-IsInBounds ops (apply-IsInBounds op v)
