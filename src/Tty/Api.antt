-- ===== src/Tty/Api.antt =====
-- The functions on one device that nttty/tty.h declares. A device pointer is an option, and an
-- out-pointer a Boolean that says whether it was given.
use free_nt.Base.{
  ℕ, Bool, Option, none, some, List, [], ◌==◌, ◌&&◌, if◌then◌else◌, NtStatus, status_success,
  status_invalid_parameter, status_not_supported,
}
use free_nt.Tty.Ring.{pop_input_char}
use free_nt.Tty.Types.{
  Device, Termios, Winsize, Discipline, cooked_disc, raw_disc, ntty_cooked, ntty_raw, ntty_cbreak,
}
use free_nt.Tty.Cooked
use free_nt.Tty.Input.{put_output}
use free_nt.Tty.Table.{table}

-- The status, the device and what went through the out-pointer.
pub record Reply (A : Type 0) : Type 0 where
  pub status : NtStatus
  pub device : Option Device
  pub out : Option A

module _ {A : Type 0} where
  abbrev pub reply : NtStatus → Device → A → Reply A
  reply s d a = record { status = s; device = some d; out = some a }

  abbrev pub refuse : NtStatus → Option Device → Reply A
  refuse s d = record { status = s; device = d; out = none }

  abbrev pub invalid : Option Device → Reply A
  invalid d = refuse status_invalid_parameter d

-- A reply that carries no value.
abbrev pub done : NtStatus × Device → Reply (Unit {0})
done (s, d) = record { status = s; device = some d; out = none }

-- What `NttyRead` returns: the status is `none` where an unset variable is returned.
pub record ReadReply : Type 0 where
  pub status : Option NtStatus
  pub device : Option Device
  pub bytes : List ℕ

-- `NttyRead`; the bytes are stored in the buffer, and their number in `*BytesRead`.
unfoldable pub read : Option Device → (has_buffer has_count : Bool) → ℕ → ReadReply
read none has_buffer has_count len = record {
  status = some status_invalid_parameter;
  device = none;
  bytes = [];
}
read (some d) has_buffer has_count len =
    if has_buffer && has_count
    then elim d.line_disc [
      | none ↦ record { status = some status_not_supported; device = some d; bytes = [] }
      | some disc ↦
          let (s, cs, d') = (table disc).read_fn d len in
          record { status = s; device = some d'; bytes = cs }
    ]
    else record { status = some status_invalid_parameter; device = some d; bytes = [] }

-- `NttyWrite`; the buffer is `none` for NULL, and the value is `*BytesWritten`.
unfoldable pub write : Option Device → Option (List ℕ) → (has_count : Bool) → Reply ℕ
write none buffer has_count = invalid none
write (some d) none has_count = invalid (some d)
write (some d) (some bytes) has_count =
    if has_count
    then elim d.line_disc [
      | none ↦ refuse status_not_supported (some d)
      | some disc ↦ let (s, n, d') = (table disc).write_fn d bytes in reply s d' n
    ]
    else invalid (some d)

-- `NttyGetChar`
unfoldable pub get_char : Option Device → (has_out : Bool) → Reply ℕ
unfolding pop_input_char
get_char none has_out = invalid none
get_char (some d) has_out =
    if has_out
    then (let (s, ch, b) = pop_input_char d.input_buf in
        record { status = s; device = some (record d { input_buf = b }); out = ch })
    else invalid (some d)

-- `NttyPutChar`
unfoldable pub put_char : Option Device → ℕ → Reply (Unit {0})
unfolding put_output
put_char none ch = invalid none
put_char (some d) ch = elim d.line_disc [
  | some disc ↦ done ((table disc).output_fn d ch)
  | none ↦ done (put_output d ch)
]

-- `NttyGetTermios`
unfoldable pub get_termios : Option Device → (has_out : Bool) → Reply Termios
get_termios none has_out = invalid none
get_termios (some d) has_out =
    if has_out then reply status_success d d.termios else invalid (some d)

-- `NttySetTermios`
unfoldable pub set_termios : Option Device → Option Termios → Reply (Unit {0})
set_termios none t = invalid none
set_termios (some d) none = invalid (some d)
set_termios (some d) (some t) = done (status_success, record d { termios = t })

-- `NttyGetWinsize`
unfoldable pub get_winsize : Option Device → (has_out : Bool) → Reply Winsize
get_winsize none has_out = invalid none
get_winsize (some d) has_out =
    if has_out then reply status_success d d.winsize else invalid (some d)

-- `NttySetWinsize`
unfoldable pub set_winsize : Option Device → Option Winsize → Reply (Unit {0})
set_winsize none w = invalid none
set_winsize (some d) none = invalid (some d)
set_winsize (some d) (some w) = done (status_success, record d { winsize = w })

-- `NttySendSignal`
unfoldable pub send_signal : Option Device → ℕ → Reply (Unit {0})
unfolding Cooked.send_signal
send_signal none signal = invalid none
send_signal (some d) signal = done (Cooked.send_signal d signal)

-- `NttyHandleBreak`
unfoldable pub handle_break : Option Device → Reply (Unit {0})
handle_break none = invalid none
handle_break (some d) = elim d.line_disc [
  | some disc ↦ done ((table disc).input_fn d 0)
  | none ↦ done (status_success, d)
]

-- `NttyFlushInputBuffer`
unfoldable pub flush_input_buffer : Option Device → Reply (Unit {0})
unfolding Cooked.flush_input
flush_input_buffer none = invalid none
flush_input_buffer (some d) = done (Cooked.flush_input d)

-- `NttyFlushOutputBuffer`
unfoldable pub flush_output_buffer : Option Device → Reply (Unit {0})
unfolding Cooked.flush_output
flush_output_buffer none = invalid none
flush_output_buffer (some d) = done (Cooked.flush_output d)

-- `NttyFlush`
unfoldable pub flush : Option Device → ℕ → Reply (Unit {0})
unfolding flush_input_buffer flush_output_buffer
flush none selector = invalid none
flush (some d) selector =
    if selector == 0
    then flush_input_buffer (some d)
    else if selector == 1
    then flush_output_buffer (some d)
    else flush_output_buffer (flush_input_buffer (some d)).device

-- The switch of `NttySetLineDisc`.
unfoldable pub discipline_of : ℕ → Option Discipline
discipline_of n =
    if n == ntty_cooked
    then some cooked_disc
    else if n == ntty_raw
    then some raw_disc
    else if n == ntty_cbreak
    then some cooked_disc
    else none

-- `NttySetLineDisc`, and `NttySetMode`, which calls it.
unfoldable pub set_line_disc : Option Device → ℕ → Reply (Unit {0})
unfolding discipline_of
set_line_disc none n = invalid none
set_line_disc (some d) n = elim (discipline_of n) [
  | none ↦ invalid (some d)
  | some disc ↦ done (
    status_success,
    record d { line_disc = some disc; termios = record d.termios { c_line = n } },
  )
]

unfoldable pub set_mode : Option Device → ℕ → Reply (Unit {0})
unfolding set_line_disc
set_mode d n = set_line_disc d n

-- `NttyGetLineDisc`, and `NttyGetMode`, which calls it.
unfoldable pub get_line_disc : Option Device → (has_out : Bool) → Reply ℕ
get_line_disc none has_out = invalid none
get_line_disc (some d) has_out =
    if has_out then reply status_success d d.termios.c_line else invalid (some d)

unfoldable pub get_mode : Option Device → (has_out : Bool) → Reply ℕ
unfolding get_line_disc
get_mode d has_out = get_line_disc d has_out
