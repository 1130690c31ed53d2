-- ===== src/Tty/Io.antt =====
-- `NttyRead` and `NttyWrite` of nttty/tty.c against the queues of the device.
use free_nt.Base.{
  ℕ, ◌+◌, ◌-◌, min, ◌≡◌, refl, ap, none, some, true, List, ◌++◌, arith, length, take, drop,
  status_success, u64,
}
use free_nt.Tty.Ring.{ibuf_size, obuf_size}
use free_nt.Tty.Ring.Queue.{Queue, IsValid, contents}
use free_nt.Tty.Types.{Device, Discipline, cooked_disc, raw_disc}
use free_nt.Tty.Cooked.{read_loop, read_status, write_loop, cooked_read, cooked_write}
use free_nt.Tty.Table.{table, raw_read, raw_write}
use free_nt.Tty.Transfer.{read_outcome, read_loop_outcome, read_loop-Reads, write_loop-Writes}
use free_nt.Tty.Api.{Reply, ReadReply, read, write}

-- Both buffers are valid.
pub record DeviceIsValid (d : Device) : Type 0 where
  pub input : IsValid ibuf_size d.input_buf
  pub output : IsValid obuf_size d.output_buf

abbrev pub input_queue : Device → Queue
input_queue d = contents ibuf_size d.input_buf

abbrev pub output_queue : Device → Queue
output_queue d = contents obuf_size d.output_buf

-- A reply of `NttyRead` that took `len` bytes off the input queue and changed nothing else.
pub record HasRead (d : Device) (len : ℕ) (r : ReadReply) : Type 0 where
  pub after : Device
  pub device : r.device ≡ some after
  pub bytes : r.bytes ≡ take len (input_queue d)
  pub status : r.status ≡ read_outcome len (input_queue d)
  pub rest : input_queue after ≡ drop len (input_queue d)
  pub frame : after ≡ record d { input_buf = after.input_buf }
  pub valid : DeviceIsValid after

-- A reply of `NttyWrite` that queued as many bytes as fit, and said so.
pub record HasWritten (d : Device) (bytes : List ℕ) (r : Reply ℕ) : Type 0 where
  pub after : Device
  pub device : r.device ≡ some after
  pub status : r.status ≡ status_success
  pub count : r.out ≡ some (min (length bytes) (obuf_size - d.output_buf.count))
  pub filled : output_queue after ≡ output_queue d ++ take (obuf_size - d.output_buf.count) bytes
  pub total :
      after.bytes_written
      ≡ u64 (d.bytes_written + min (length bytes) (obuf_size - d.output_buf.count))
  pub input : input_queue after ≡ input_queue d
  pub valid : DeviceIsValid after

pub read_table :
    (disc : Discipline) (d : Device) (len : ℕ) → (table disc).read_fn d len ≡ cooked_read d len
unfolding cooked_read raw_read
read_table cooked_disc d len = refl
read_table raw_disc d len = refl

pub write_table :
    (disc : Discipline) (d : Device) (bytes : List ℕ)
    → (table disc).write_fn d bytes ≡ cooked_write d bytes
unfolding cooked_write raw_write
write_table cooked_disc d bytes = refl
write_table raw_disc d bytes = refl

module _ (d : Device) {disc : Discipline} (attached : d.line_disc ≡ some disc) where
  read_runs :
      (len : ℕ)
      → read (some d) true true len ≡ (
          let (s, cs, b) = read_loop len none d.input_buf in
          record {
            status = read_status cs s;
            device = some (record d { input_buf = b });
            bytes = cs;
          })
  unfolding read cooked_read
  read_runs len = ground (arith, read_table disc d len)

  write_runs :
      (bytes : List ℕ)
      → write (some d) (some bytes) true ≡ (
          let (n, b) = write_loop bytes 0 d.output_buf in
          record {
            status = status_success;
            device = some (record d { output_buf = b; bytes_written = u64 (d.bytes_written + n) });
            out = some n;
          })
  unfolding write cooked_write
  write_runs bytes = ground (arith, write_table disc d bytes)

  -- `NttyRead` takes the oldest bytes, at most `len`, keeps the others in order, touches nothing else
  -- of the device, and returns success exactly if it took a byte; the status of a read of no
  -- bytes is that of an unset variable.
  pub read_lem : (len : ℕ) → DeviceIsValid d → HasRead d len (read (some d) true true len)
  read_lem len v =
      let loop = read_loop-Reads len none v.input in
      rw (read_runs len) (record {
        after = record d { input_buf = (read_loop len none d.input_buf).2 };
        device = refl;
        bytes = loop.bytes;
        status = read_loop_outcome len v.input;
        rest = loop.rest;
        frame = refl;
        valid = record { input = loop.valid; output = v.output };
      })

  -- `NttyWrite` queues the first bytes, as many as there is room for, behind those that wait, reports
  -- and counts that number, and leaves the input alone.
  pub write_lem :
      (bytes : List ℕ) → DeviceIsValid d → HasWritten d bytes (write (some d) (some bytes) true)
  write_lem bytes v =
      let loop = write_loop-Writes bytes 0 v.output in
      rw (write_runs bytes) (record {
        after = record d {
          output_buf = (write_loop bytes 0 d.output_buf).1;
          bytes_written = u64 (d.bytes_written + (write_loop bytes 0 d.output_buf).0);
        };
        device = refl;
        status = refl;
        count = ap some (omega (arith, loop.count));
        filled = loop.filled;
        total = ap (λ n. u64 (d.bytes_written + n)) (omega (arith, loop.count));
        input = refl;
        valid = record { input = v.input; output = loop.valid };
      })
