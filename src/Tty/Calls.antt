-- ===== src/Tty/Calls.antt =====
-- Sequences of calls on a device of nttty/tty.c.
use free_nt.Base.{ℕ, true, Option, none, some, List, [], ◌∷◌}
use free_nt.Tty.Types.{Device, Termios, Winsize, Discipline}
use free_nt.Tty.Ioctl.{IoctlData}
use free_nt.Tty.Table.{table}
use free_nt.Tty.Api
use free_nt.Tty.Api.{Reply, ReadReply}
use free_nt.Tty.Control
use free_nt.Tty.Control.{IoctlReply}

-- The calls that can change a device, a character from the keyboard among them.
pub data Op : Type 0 where
  read : ℕ → Op
  write : List ℕ → Op
  get_char : Op
  put_char : ℕ → Op
  key : ℕ → Op
  set_termios : Termios → Op
  set_winsize : Winsize → Op
  ioctl : ℕ → (input output : IoctlData) → Op
  handle_break : Op
  flush : ℕ → Op
  set_line_disc : ℕ → Op
  set_foreground_group : ℕ → Op

-- The device that a reply leaves.
abbrev pub left_by : Device → Option Device → Device
left_by d none = d
left_by d (some d') = d'

abbrev pub typed_on : Device → Option Discipline → ℕ → Device
typed_on d none ch = d
typed_on d (some disc) ch = ((table disc).input_fn d ch).1

abbrev pub ioctl_left_by : Device → Option IoctlReply → Device
ioctl_left_by d none = d
ioctl_left_by d (some r) = left_by d r.device

unfoldable pub apply : Op → Device → Device
apply (read len) d = left_by d (Api.read (some d) true true len).device
apply (write bytes) d = left_by d (Api.write (some d) (some bytes) true).device
apply get_char d = left_by d (Api.get_char (some d) true).device
apply (put_char ch) d = left_by d (Api.put_char (some d) ch).device
apply (key ch) d = typed_on d d.line_disc ch
apply (set_termios t) d = left_by d (Api.set_termios (some d) (some t)).device
apply (set_winsize w) d = left_by d (Api.set_winsize (some d) (some w)).device
apply (ioctl code input output) d =
    ioctl_left_by d (Control.ioctl (some d) code input output 0 true)
apply handle_break d = left_by d (Api.handle_break (some d)).device
apply (flush selector) d = left_by d (Api.flush (some d) selector).device
apply (set_line_disc n) d = left_by d (Api.set_line_disc (some d) n).device
apply (set_foreground_group pgid) d = left_by d (Control.set_foreground_group (some d) pgid).device

unfoldable pub run : List Op → Device → Device
run [] d = d
run (op ∷ ops) d = run ops (apply op d)
