-- ===== src/Tty/Input.antt =====
-- What the disciplines of nttty/tty.c do with one character: typed (`input`) and printed (`output`).
use free_nt.Base.{
  ℕ, Bool, ◌&&◌, ltb, ◌==◌, if◌then◌else◌, has_flag, NtStatus, status_success, status_end_of_file,
}
use free_nt.Tty.Ring.{push_input_char, push_output_char, reset, erase}
use free_nt.Tty.Types.{
  Device, Termios, ntty_isig, ntty_icanon, ntty_echo, ntty_echoe, ntty_echok, ntty_icrnl,
  ntty_inlcr, ntty_opost, ntty_onlcr, ntty_vintr, ntty_vquit, ntty_vsusp, ntty_verase, ntty_vkill,
  ntty_veof,
}
use free_nt.Tty.Cooked.{send_signal}

-- `NttyPushOutputChar(&Tty->output_buf, ch)` for its effect
unfoldable pub echo_char : Device → ℕ → Device
unfolding push_output_char
echo_char d ch = record d { output_buf = (push_output_char d.output_buf ch).1 }

-- `NttyPushInputChar(&Tty->input_buf, ch)` for its effect
unfoldable pub buffer_char : Device → ℕ → Device
unfolding push_input_char
buffer_char d ch = record d { input_buf = (push_input_char d.input_buf ch).1 }

-- The branch of the erase character.
unfoldable pub erase_char : Device → Device
unfolding echo_char erase
erase_char d =
    if ltb 0 d.input_buf.count
    then (let d' : Device = record d { input_buf = erase d.input_buf } in
        if has_flag d.termios.c_lflag ntty_echoe
        then echo_char (echo_char (echo_char d' 0x08) b' ') 0x08
        else d')
    else d

-- The branch of the kill character.
unfoldable pub kill_line : Device → Device
unfolding echo_char reset
kill_line d =
    let d' : Device = record d { input_buf = reset d.input_buf } in
    if has_flag d.termios.c_lflag ntty_echok then echo_char d' b'\n' else d'

-- ICRNL, then INLCR.
unfoldable pub translate : Termios → ℕ → ℕ
translate t ch =
    let ch' = if has_flag t.c_iflag ntty_icrnl && ch == b'\r' then b'\n' else ch in
    if has_flag t.c_iflag ntty_inlcr && ch' == b'\n' then b'\r' else ch'

-- The branch of every other character: translate, buffer, echo.
unfoldable pub accept_char : Device → ℕ → Device
unfolding translate buffer_char echo_char
accept_char d ch =
    let ch' = translate d.termios ch in
    let d' = buffer_char d ch' in
    if has_flag d.termios.c_lflag ntty_echo then echo_char d' ch' else d'

-- `flag` is set in `c_lflag`, and `ch` is the special character of that index.
abbrev pub is_special : Device → ℕ → ℕ → ℕ → Bool
is_special d ch flag index = has_flag d.termios.c_lflag flag && ch == d.termios.c_cc index

-- `NttyCookedModeInput`
unfoldable pub cooked_input : Device → ℕ → NtStatus × Device
unfolding send_signal erase_char kill_line accept_char
cooked_input d ch =
    if is_special d ch ntty_isig ntty_vintr
    then send_signal d ntty_vintr
    else if is_special d ch ntty_isig ntty_vquit
    then send_signal d ntty_vquit
    else if is_special d ch ntty_isig ntty_vsusp
    then send_signal d ntty_vsusp
    else if is_special d ch ntty_icanon ntty_verase
    then (status_success, erase_char d)
    else if is_special d ch ntty_icanon ntty_vkill
    then (status_success, kill_line d)
    else if is_special d ch ntty_icanon ntty_veof
    then (status_end_of_file, d)
    else (status_success, accept_char d ch)

-- `NttyPushOutputChar` as the last step: its status is returned.
unfoldable pub put_output : Device → ℕ → NtStatus × Device
unfolding push_output_char
put_output d ch = let (s, b) = push_output_char d.output_buf ch in (s, record d { output_buf = b })

-- `NttyCookedModeOutput`
unfoldable pub cooked_output : Device → ℕ → NtStatus × Device
unfolding echo_char put_output
cooked_output d ch =
    if has_flag d.termios.c_oflag ntty_opost
      && (ch == b'\n' && has_flag d.termios.c_oflag ntty_onlcr)
    then (status_success, echo_char (echo_char d b'\r') b'\n')
    else put_output d ch

-- `NttyRawModeInput`
unfoldable pub raw_input : Device → ℕ → NtStatus × Device
unfolding push_input_char
raw_input d ch = let (s, b) = push_input_char d.input_buf ch in (s, record d { input_buf = b })
