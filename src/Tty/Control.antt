-- ===== src/Tty/Control.antt =====
-- The rest of the functions on one device of nttty/tty.c: control codes, process groups, counts and
-- statistics.
use free_nt.Base.{
  ℕ, Bool, true, false, ◌&&◌, Option, none, some, if◌then◌else◌, NtStatus, nt_success,
  status_success, status_invalid_parameter, status_not_supported,
}
use free_nt.Tty.Types.{Device}
use free_nt.Tty.Ioctl.{IoctlData, null_data, termios_data, winsize_data, selector_data}
use free_nt.Tty.Table.{LineDiscipline, table}
use free_nt.Tty.Api.{Reply, reply, invalid, done}

-- What `NttyIoctl` returns, and what its two buffers and `*BytesReturned` hold afterwards.
pub record IoctlReply : Type 0 where
  pub status : NtStatus
  pub device : Option Device
  pub input : IoctlData
  pub output : IoctlData
  pub bytes : Option ℕ

abbrev pub is_null : IoctlData → Bool
is_null null_data = true
is_null (termios_data _) = false
is_null (winsize_data _) = false
is_null (selector_data _) = false

-- `*BytesReturned` after a call of the discipline's function.
pub returned : Bool → NtStatus → IoctlData → ℕ → Option ℕ
returned false s output output_length = none
returned true s output output_length =
    some (if nt_success s then (if is_null output then 0 else output_length) else 0)

-- `data` is the input buffer if there is one, else the output buffer, and goes back to its place.
pub ioctl_with :
    LineDiscipline → Device → ℕ → (input output : IoctlData) → ℕ → Bool → Option IoctlReply
unfolding returned
ioctl_with l d code input output output_length has_bytes = elim (is_null input) [
  | true ↦ elim (l.ioctl_fn d code output) [
    | none ↦ none
    | some (s, d', output') ↦ some (record {
      status = s;
      device = some d';
      input = input;
      output = output';
      bytes = returned has_bytes s output output_length;
    })
  ]
  | false ↦ elim (l.ioctl_fn d code input) [
    | none ↦ none
    | some (s, d', input') ↦ some (record {
      status = s;
      device = some d';
      input = input';
      output = output;
      bytes = returned has_bytes s output output_length;
    })
  ]
]

-- A return before the discipline's function is called: nothing is written.
abbrev pub ioctl_refused : NtStatus → Option Device → (input output : IoctlData) → Option IoctlReply
ioctl_refused s d input output =
    some (record { status = s; device = d; input = input; output = output; bytes = none })

-- `NttyIoctl`. `none` is the undefined case of `IoctlResult`.
unfoldable pub ioctl :
    Option Device → ℕ → (input output : IoctlData) → ℕ → (has_bytes : Bool) → Option IoctlReply
unfolding ioctl_with
ioctl none code input output output_length has_bytes =
    ioctl_refused status_invalid_parameter none input output
ioctl (some d) code input output output_length has_bytes =
    if is_null input && is_null output
    then ioctl_refused status_invalid_parameter (some d) input output
    else elim d.line_disc [
      | none ↦ ioctl_refused status_not_supported (some d) input output
      | some disc ↦ ioctl_with (table disc) d code input output output_length has_bytes
    ]

-- `NttySetForegroundGroup`
unfoldable pub set_foreground_group : Option Device → ℕ → Reply (Unit {0})
set_foreground_group none pgid = invalid none
set_foreground_group (some d) pgid = done (status_success, record d { foreground_pgid = pgid })

-- `NttyGetForegroundGroup`
unfoldable pub get_foreground_group : Option Device → (has_out : Bool) → Reply ℕ
get_foreground_group none has_out = invalid none
get_foreground_group (some d) has_out =
    if has_out then reply status_success d d.foreground_pgid else invalid (some d)

-- `NttyGetInputCount`
unfoldable pub get_input_count : Option Device → (has_out : Bool) → Reply ℕ
get_input_count none has_out = invalid none
get_input_count (some d) has_out =
    if has_out then reply status_success d d.input_buf.count else invalid (some d)

-- `NttyGetOutputCount`
unfoldable pub get_output_count : Option Device → (has_out : Bool) → Reply ℕ
get_output_count none has_out = invalid none
get_output_count (some d) has_out =
    if has_out then reply status_success d d.output_buf.count else invalid (some d)

-- The four out-parameters of `NttyGetStats`, each written if its pointer was given.
pub record Stats : Type 0 where
  pub bytes_read : Option ℕ
  pub bytes_written : Option ℕ
  pub input_errors : Option ℕ
  pub output_errors : Option ℕ

abbrev pub given : Bool → ℕ → Option ℕ
given false n = none
given true n = some n

-- `NttyGetStats`
unfoldable pub get_stats : Option Device → (r w i o : Bool) → Reply Stats
get_stats none r w i o = invalid none
get_stats (some d) r w i o = reply status_success d (record {
  bytes_read = given r d.bytes_read;
  bytes_written = given w d.bytes_written;
  input_errors = given i d.input_errors;
  output_errors = given o d.output_errors;
})
