-- ===== src/Tty/Table.antt =====
-- The raw line discipline of nttty/tty.c and the two tables of line discipline functions.
use free_nt.Base.{
  ℕ, Option, none, List, set_flag, clear_flag, bit_or, NtStatus, status_success,
  status_not_supported,
}
use free_nt.Tty.Types.{Device, Discipline, cooked_disc, raw_disc, ntty_open, ntty_icanon, ntty_echo}
use free_nt.Tty.Cooked.{
  cooked_open, cooked_close, read_loop, read_status, cooked_read, cooked_write,
}
use free_nt.Tty.Input.{cooked_input, cooked_output, put_output, raw_input}
use free_nt.Tty.Ioctl.{IoctlData, IoctlResult, cooked_ioctl}

-- `NttyRawModeRead`: the same loop, with a text of its own.
unfoldable pub raw_read : Device → ℕ → Option NtStatus × List ℕ × Device
unfolding read_loop
raw_read d len =
    let (s, cs, b) = read_loop len none d.input_buf in
    (read_status cs s, cs, record d { input_buf = b })

unfoldable pub raw_open : Device → NtStatus × Device
raw_open d = (
  status_success,
  record d {
    tty_flags = record d.tty_flags { flags = set_flag d.tty_flags.flags ntty_open };
    termios = record d.termios {
      c_lflag = clear_flag d.termios.c_lflag (bit_or ntty_icanon ntty_echo);
    };
  },
)

unfoldable pub raw_close : Device → NtStatus × Device
unfolding cooked_close
raw_close d = cooked_close d

unfoldable pub raw_write : Device → List ℕ → NtStatus × ℕ × Device
unfolding cooked_write
raw_write d bytes = cooked_write d bytes

unfoldable pub raw_ioctl : Device → ℕ → IoctlData → IoctlResult
unfolding cooked_ioctl
raw_ioctl d cmd p = cooked_ioctl d cmd p

unfoldable pub raw_output : Device → ℕ → NtStatus × Device
unfolding put_output
raw_output d ch = put_output d ch

unfoldable pub cooked_modem_ctrl : Device → ℕ → NtStatus
cooked_modem_ctrl d cmd = status_not_supported

unfoldable pub raw_modem_ctrl : Device → ℕ → NtStatus
raw_modem_ctrl d cmd = status_not_supported

-- NTTY_LINE_DISCIPLINE
pub record LineDiscipline : Type 0 where
  pub open_fn : Device → NtStatus × Device
  pub close_fn : Device → NtStatus × Device
  pub read_fn : Device → ℕ → Option NtStatus × List ℕ × Device
  pub write_fn : Device → List ℕ → NtStatus × ℕ × Device
  pub ioctl_fn : Device → ℕ → IoctlData → IoctlResult
  pub input_fn : Device → ℕ → NtStatus × Device
  pub output_fn : Device → ℕ → NtStatus × Device
  pub modem_ctrl_fn : Device → ℕ → NtStatus

abbrev pub ntty_cooked_disc : LineDiscipline
ntty_cooked_disc = record {
  open_fn = cooked_open;
  close_fn = cooked_close;
  read_fn = cooked_read;
  write_fn = cooked_write;
  ioctl_fn = cooked_ioctl;
  input_fn = cooked_input;
  output_fn = cooked_output;
  modem_ctrl_fn = cooked_modem_ctrl;
}

abbrev pub ntty_raw_disc : LineDiscipline
ntty_raw_disc = record {
  open_fn = raw_open;
  close_fn = raw_close;
  read_fn = raw_read;
  write_fn = raw_write;
  ioctl_fn = raw_ioctl;
  input_fn = raw_input;
  output_fn = raw_output;
  modem_ctrl_fn = raw_modem_ctrl;
}

-- What the pointer `line_disc` leads to.
abbrev pub table : Discipline → LineDiscipline
table cooked_disc = ntty_cooked_disc
table raw_disc = ntty_raw_disc
