-- ===== src/Tty/Types.antt =====
-- The constants and structures of nttty/tty.h, and the two initialisers of nttty/tty.c.
use free_nt.Base.{ℕ, Option, none, update, bit_or}
use free_nt.Tty.Ring.{Ring}

-- An array before the first write: `RtlZeroMemory`.
abbrev pub zeros : ℕ → ℕ
zeros i = 0

-- line disciplines
abbrev pub ntty_cooked : ℕ
ntty_cooked = 0

abbrev pub ntty_raw : ℕ
ntty_raw = 1

abbrev pub ntty_cbreak : ℕ
ntty_cbreak = 2

-- flag words
abbrev pub ntty_cs8 : ℕ
ntty_cs8 = 0x0300

abbrev pub ntty_cread : ℕ
ntty_cread = 0x0800

abbrev pub ntty_clocal : ℕ
ntty_clocal = 0x8000

abbrev pub ntty_inlcr : ℕ
ntty_inlcr = 0x0040

abbrev pub ntty_icrnl : ℕ
ntty_icrnl = 0x0100

abbrev pub ntty_ixon : ℕ
ntty_ixon = 0x0200

abbrev pub ntty_ixany : ℕ
ntty_ixany = 0x0400

abbrev pub ntty_opost : ℕ
ntty_opost = 0x0001

abbrev pub ntty_onlcr : ℕ
ntty_onlcr = 0x0004

abbrev pub ntty_isig : ℕ
ntty_isig = 0x0080

abbrev pub ntty_icanon : ℕ
ntty_icanon = 0x0100

abbrev pub ntty_echo : ℕ
ntty_echo = 0x0008

abbrev pub ntty_echoe : ℕ
ntty_echoe = 0x0010

abbrev pub ntty_echok : ℕ
ntty_echok = 0x0020

abbrev pub ntty_echonl : ℕ
ntty_echonl = 0x0040

abbrev pub ntty_open : ℕ
ntty_open = 0x00000001

abbrev pub ntty_b9600 : ℕ
ntty_b9600 = 13

-- indices of `c_cc`
abbrev pub ntty_vintr : ℕ
ntty_vintr = 0

abbrev pub ntty_vquit : ℕ
ntty_vquit = 1

abbrev pub ntty_verase : ℕ
ntty_verase = 2

abbrev pub ntty_vkill : ℕ
ntty_vkill = 3

abbrev pub ntty_veof : ℕ
ntty_veof = 4

abbrev pub ntty_vsusp : ℕ
ntty_vsusp = 9

-- IOCTL commands
abbrev pub ntty_tcgets : ℕ
ntty_tcgets = 0x5401

abbrev pub ntty_tcsets : ℕ
ntty_tcsets = 0x5402

abbrev pub ntty_tcsetsw : ℕ
ntty_tcsetsw = 0x5403

abbrev pub ntty_tcsetsf : ℕ
ntty_tcsetsf = 0x5404

abbrev pub ntty_tcflsh : ℕ
ntty_tcflsh = 0x540B

abbrev pub ntty_tiocgwinsz : ℕ
ntty_tiocgwinsz = 0x5413

abbrev pub ntty_tiocswinsz : ℕ
ntty_tiocswinsz = 0x5414

-- NTTY_TERMIOS
pub record Termios : Type 0 where
  pub c_iflag : ℕ
  pub c_oflag : ℕ
  pub c_cflag : ℕ
  pub c_lflag : ℕ
  pub c_line : ℕ
  pub c_cc : ℕ → ℕ
  pub c_ispeed : ℕ
  pub c_ospeed : ℕ

-- NTTY_WINSIZE
pub record Winsize : Type 0 where
  pub ws_row : ℕ
  pub ws_col : ℕ
  pub ws_xpixel : ℕ
  pub ws_ypixel : ℕ

-- NTTY_FLAGS
pub record TtyFlags : Type 0 where
  pub flags : ℕ
  pub state : ℕ

-- A pointer to one of the two static tables of line discipline functions.
pub data Discipline : Type 0 where
  cooked_disc raw_disc : Discipline

-- NTTY_DEVICE, without the three callbacks, which nothing sets or calls. Handles and pointers are
-- numbers with 0 for NULL; `next` is the address of the next device.
pub record Device : Type 0 where
  pub id : ℕ
  pub type : ℕ
  pub subtype : ℕ
  pub device_name : ℕ → ℕ
  pub device_handle : ℕ
  pub process_handle : ℕ
  pub owner_pid : ℕ
  pub owner_uid : ℕ
  pub owner_gid : ℕ
  pub mode : ℕ
  pub termios : Termios
  pub winsize : Winsize
  pub tty_flags : TtyFlags
  pub input_buf : Ring
  pub output_buf : Ring
  pub line_disc : Option Discipline
  pub foreground_pgid : ℕ
  pub session_leader_pid : ℕ
  pub session_leader_handle : ℕ
  pub bytes_read : ℕ
  pub bytes_written : ℕ
  pub input_errors : ℕ
  pub output_errors : ℕ
  pub ref_count : ℕ
  pub input_ready_event : ℕ
  pub output_ready_event : ℕ
  pub control_lock : ℕ
  pub next : ℕ

-- The fifteen special characters, written in the order of the source over zeros.
abbrev pub init_cc : ℕ → ℕ
init_cc =
    let cc = update zeros ntty_vintr 0x03 in
    let cc = update cc ntty_vquit 0x1C in
    let cc = update cc ntty_verase 0x08 in
    let cc = update cc ntty_vkill 0x15 in
    let cc = update cc ntty_veof 0x04 in
    let cc = update cc 5 0x00 in
    let cc = update cc 6 0x00 in
    let cc = update cc 7 0x11 in
    let cc = update cc 8 0x13 in
    let cc = update cc ntty_vsusp 0x1A in
    let cc = update cc 10 0x19 in
    let cc = update cc 11 0x12 in
    let cc = update cc 12 0x17 in let cc = update cc 13 0x16 in update cc 14 0x14

-- `NttyInitTermios`: what it leaves in the structure.
unfoldable pub init_termios : Termios
init_termios = record {
  c_iflag = bit_or (bit_or ntty_icrnl ntty_ixon) ntty_ixany;
  c_oflag = bit_or ntty_opost ntty_onlcr;
  c_cflag = bit_or (bit_or ntty_cs8 ntty_cread) ntty_clocal;
  c_lflag =
      bit_or
        (bit_or (bit_or (bit_or (bit_or ntty_isig ntty_icanon) ntty_echo) ntty_echoe) ntty_echok)
        ntty_echonl;
  c_line = ntty_cooked;
  c_cc = init_cc;
  c_ispeed = ntty_b9600;
  c_ospeed = ntty_b9600;
}

-- `NttyInitWinsize`: what it leaves in the structure.
unfoldable pub init_winsize : Winsize
init_winsize = record { ws_row = 25; ws_col = 80; ws_xpixel = 640; ws_ypixel = 400 }

-- A buffer after `RtlZeroMemory`.
abbrev pub zero_ring : Ring
zero_ring = record { buf = zeros; head = 0; tail = 0; count = 0; lock = 0 }

-- A device record after `RtlZeroMemory`.
abbrev pub zero_device : Device
zero_device = record {
  id = 0;
  type = 0;
  subtype = 0;
  device_name = zeros;
  device_handle = 0;
  process_handle = 0;
  owner_pid = 0;
  owner_uid = 0;
  owner_gid = 0;
  mode = 0;
  termios = record {
    c_iflag = 0;
    c_oflag = 0;
    c_cflag = 0;
    c_lflag = 0;
    c_line = 0;
    c_cc = zeros;
    c_ispeed = 0;
    c_ospeed = 0;
  };
  winsize = record { ws_row = 0; ws_col = 0; ws_xpixel = 0; ws_ypixel = 0 };
  tty_flags = record { flags = 0; state = 0 };
  input_buf = zero_ring;
  output_buf = zero_ring;
  line_disc = none;
  foreground_pgid = 0;
  session_leader_pid = 0;
  session_leader_handle = 0;
  bytes_read = 0;
  bytes_written = 0;
  input_errors = 0;
  output_errors = 0;
  ref_count = 0;
  input_ready_event = 0;
  output_ready_event = 0;
  control_lock = 0;
  next = 0;
}
