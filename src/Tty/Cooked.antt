-- ===== src/Tty/Cooked.antt =====
-- The cooked line discipline of nttty/tty.c: opening and closing, read and write, and what the
-- input handlers call. A function takes the device itself, since its callers have tested the
-- pointer, and returns the new device beside its results.
use free_nt.Base.{
  ℕ, zero, suc, ◌+◌, true, false, Option, none, some, List, [], ◌∷◌, u64, set_flag, clear_flag,
  NtStatus, nt_success, status_success, status_not_implemented,
}
use free_nt.Tty.Ring.{Ring, pop_input_char, push_output_char, reset}
use free_nt.Tty.Types.{Device, ntty_open}

-- `NttySendSignal` on a device: delivery is not implemented, and nothing changes.
unfoldable pub send_signal : Device → ℕ → NtStatus × Device
send_signal d signal = (status_not_implemented, d)

-- `NttyFlushInputBuffer` and `NttyFlushOutputBuffer` on a device
unfoldable pub flush_input : Device → NtStatus × Device
unfolding reset
flush_input d = (status_success, record d { input_buf = reset d.input_buf })

unfoldable pub flush_output : Device → NtStatus × Device
unfolding reset
flush_output d = (status_success, record d { output_buf = reset d.output_buf })

-- `d.tty_flags.flags |= NTTY_OPEN`, and `&= ~NTTY_OPEN`
unfoldable pub cooked_open : Device → NtStatus × Device
cooked_open d = (
  status_success,
  record d { tty_flags = record d.tty_flags { flags = set_flag d.tty_flags.flags ntty_open } },
)

unfoldable pub cooked_close : Device → NtStatus × Device
cooked_close d = (
  status_success,
  record d { tty_flags = record d.tty_flags { flags = clear_flag d.tty_flags.flags ntty_open } },
)

-- `Buffer[i++] = ch`
abbrev pub store_char : Option ℕ → List ℕ → List ℕ
store_char none cs = cs
store_char (some c) cs = c ∷ cs

-- The loop of both read functions, with `left` rounds to go: the status of the last pop (`none`
-- while no pop has set the variable), the bytes stored from here on, and the buffer.
unfoldable pub read_loop : ℕ → Option NtStatus → Ring → Option NtStatus × List ℕ × Ring
unfolding pop_input_char
read_loop zero status b = (status, [], b)
read_loop (suc left) status b =
    let (s, ch, b') = pop_input_char b in
    elim (nt_success s) [
      | true ↦ let (s', cs, b'') = read_loop left (some s) b' in (s', store_char ch cs, b'')
      | false ↦ (some s, [], b')
    ]

-- What `NttyCookedModeRead` and `NttyRawModeRead` return once the loop is done: success if it stored a
-- byte, else its status, which is `none` where the variable is returned unset.
abbrev pub read_status : List ℕ → Option NtStatus → Option NtStatus
read_status [] s = s
read_status (c ∷ cs) s = some status_success

-- `NttyCookedModeRead`: the bytes are those of the buffer, and their number is `*ReadLen`.
unfoldable pub cooked_read : Device → ℕ → Option NtStatus × List ℕ × Device
unfolding read_loop
cooked_read d len =
    let (s, cs, b) = read_loop len none d.input_buf in
    (read_status cs s, cs, record d { input_buf = b })

-- The loop of `NttyCookedModeWrite`; the list is `Buffer[i..Len)`.
unfoldable pub write_loop : List ℕ → ℕ → Ring → ℕ × Ring
unfolding push_output_char
write_loop [] i b = (i, b)
write_loop (c ∷ cs) i b =
    let (s, b') = push_output_char b c in
    elim (nt_success s) [ true ↦ write_loop cs (i + 1) b' | false ↦ (i, b') ]

-- `NttyCookedModeWrite`: the number is `*WrittenLen`.
unfoldable pub cooked_write : Device → List ℕ → NtStatus × ℕ × Device
unfolding write_loop
cooked_write d bytes =
    let (n, b) = write_loop bytes 0 d.output_buf in
    (status_success, n, record d { output_buf = b; bytes_written = u64 (d.bytes_written + n) })
