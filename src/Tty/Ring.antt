-- ===== src/Tty/Ring.antt =====
-- The input and output buffers of a terminal, NTTY_IBUF and NTTY_OBUF of nttty/tty.h, and the
-- functions of nttty/tty.c that fill and drain them.
pub mod Erase
pub mod Queue
use free_nt.Base.{
  ℕ, ◌+◌, ◌-◌, ◌%◌, Option, none, some, NtStatus, status_success, status_buffer_overflow,
  status_no_data_detected, leb, ◌==◌, if◌then◌else◌, update, u32,
}

-- NTTY_IBUF and NTTY_OBUF differ in the size of `buf` alone. The lock is a handle, 0 for none.
pub record Ring : Type 0 where
  pub buf : ℕ → ℕ
  pub head : ℕ
  pub tail : ℕ
  pub count : ℕ
  pub lock : ℕ

abbrev pub ibuf_size : ℕ
ibuf_size = 1024

abbrev pub obuf_size : ℕ
obuf_size = 4096

-- The common body of `NttyPushInputChar` and `NttyPushOutputChar`, at the size of the buffer.
unfoldable pub push : ℕ → Ring → ℕ → NtStatus × Ring
push size r ch = if leb size r.count then (status_buffer_overflow, r) else (
  status_success,
  record r {
    buf = update r.buf r.tail ch;
    tail = u32 (r.tail + 1) % size;
    count = u32 (r.count + 1);
  },
)

-- The common body of `NttyPopInputChar` and `NttyPopOutputChar`; the option is what goes through
-- `*Ch`, and `count--` runs only at a count that is not 0.
unfoldable pub pop : ℕ → Ring → NtStatus × Option ℕ × Ring
pop size r = if r.count == 0 then (status_no_data_detected, none, r) else (
  status_success,
  some (r.buf r.head),
  record r { head = u32 (r.head + 1) % size; count = r.count - 1 },
)

unfoldable pub push_input_char : Ring → ℕ → NtStatus × Ring
push_input_char r ch = push ibuf_size r ch

unfoldable pub pop_input_char : Ring → NtStatus × Option ℕ × Ring
pop_input_char r = pop ibuf_size r

unfoldable pub push_output_char : Ring → ℕ → NtStatus × Ring
push_output_char r ch = push obuf_size r ch

unfoldable pub pop_output_char : Ring → NtStatus × Option ℕ × Ring
pop_output_char r = pop obuf_size r

-- What `NttyFlushInputBuffer`, `NttyFlushOutputBuffer` and the kill character do to a buffer.
unfoldable pub reset : Ring → Ring
reset r = record r { head = 0; tail = 0; count = 0 }

-- What the erase character does to the input buffer: the count alone goes down.
unfoldable pub erase : Ring → Ring
erase r = record r { count = r.count - 1 }
