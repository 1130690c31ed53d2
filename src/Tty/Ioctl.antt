-- ===== src/Tty/Ioctl.antt =====
-- `NttyCookedModeIoctl` of nttty/tty.c.
use free_nt.Base.{
  ℕ, Option, none, some, ◌||◌, ◌==◌, if◌then◌else◌, NtStatus, status_success, status_not_supported,
}
use free_nt.Tty.Types.{
  Device, Termios, Winsize, ntty_tcgets, ntty_tcsets, ntty_tcsetsw, ntty_tcsetsf, ntty_tiocgwinsz,
  ntty_tiocswinsz, ntty_tcflsh,
}
use free_nt.Tty.Cooked.{flush_input, flush_output}

-- What the untyped pointer `Data` points at.
pub data IoctlData : Type 0 where
  null_data : IoctlData
  termios_data : Termios → IoctlData
  winsize_data : Winsize → IoctlData
  selector_data : ℕ → IoctlData

-- Status, device and what `Data` points at afterwards; `none` where the memory is read or written
-- as a structure that it does not hold, which C leaves undefined.
abbrev pub IoctlResult : Type 0
IoctlResult = Option (NtStatus × Device × IoctlData)

-- A NULL pointer breaks out of the switch.
abbrev pub not_supported : Device → IoctlResult
not_supported d = some (status_not_supported, d, null_data)

unfoldable pub get_termios_data : Device → IoctlData → IoctlResult
get_termios_data d null_data = not_supported d
get_termios_data d (termios_data t) = some (status_success, d, termios_data d.termios)
get_termios_data d _ = none

unfoldable pub set_termios_data : Device → IoctlData → IoctlResult
set_termios_data d null_data = not_supported d
set_termios_data d (termios_data t) =
    some (status_success, record d { termios = t }, termios_data t)
set_termios_data d _ = none

unfoldable pub get_winsize_data : Device → IoctlData → IoctlResult
get_winsize_data d null_data = not_supported d
get_winsize_data d (winsize_data w) = some (status_success, d, winsize_data d.winsize)
get_winsize_data d _ = none

unfoldable pub set_winsize_data : Device → IoctlData → IoctlResult
set_winsize_data d null_data = not_supported d
set_winsize_data d (winsize_data w) =
    some (status_success, record d { winsize = w }, winsize_data w)
set_winsize_data d _ = none

-- NTTY_TCFLSH: the three tests of `*Selector`, one after the other.
unfoldable pub flush_selected : Device → ℕ → Device
unfolding flush_input flush_output
flush_selected d selector =
    let d₁ = if selector == 0 then (flush_input d).1 else d in
    let d₂ = if selector == 1 then (flush_output d₁).1 else d₁ in
    if selector == 2 then (flush_output (flush_input d₂).1).1 else d₂

unfoldable pub flush_data : Device → IoctlData → IoctlResult
unfolding flush_selected
flush_data d null_data = not_supported d
flush_data d (selector_data n) = some (status_success, flush_selected d n, selector_data n)
flush_data d _ = none

unfoldable pub cooked_ioctl : Device → ℕ → IoctlData → IoctlResult
unfolding get_termios_data set_termios_data get_winsize_data set_winsize_data flush_data
cooked_ioctl d cmd p =
    if cmd == ntty_tcgets
    then get_termios_data d p
    else if cmd == ntty_tcsets || (cmd == ntty_tcsetsw || cmd == ntty_tcsetsf)
    then set_termios_data d p
    else if cmd == ntty_tiocgwinsz
    then get_winsize_data d p
    else if cmd == ntty_tiocswinsz
    then set_winsize_data d p
    else if cmd == ntty_tcflsh
    then flush_data d p
    else some (status_not_supported, d, p)
