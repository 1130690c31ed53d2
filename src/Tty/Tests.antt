-- ===== src/Tty/Tests.antt =====
-- The theorems on the terminal buffers and disciplines of nttty/tty.c at concrete devices, and runs.
use free_nt.Base.{ℕ, ◌+◌, ◌≡◌, refl, true, some, List, [], ◌∷◌, map, arith}
use free_nt.Tty.Ring.{Ring, push, erase}
use free_nt.Tty.Ring.Queue.{IsValid, contents}
use free_nt.Tty.Ring.Erase.{push-erase}
use free_nt.Tty.Types.{Device, cooked_disc, zero_device, zero_ring, init_termios}
use free_nt.Tty.Input.{translate}
use free_nt.Tty.Api.{read, write}
use free_nt.Tty.Io.{DeviceIsValid, HasRead, HasWritten, read_lem, write_lem}
use free_nt.Tty.Lines.{type_all, expand_all, AllOrdinary}
use free_nt.Tty.Session.{read-type_all_cooked}
use free_nt.Tty.Calls.{Op, run}
use free_nt.Tty.Calls
use free_nt.Tty.Bounds.{DeviceIsInBounds}
use free_nt.Tty.Safety.{run-IsInBounds}

-- Two bytes, 73 and 70, round the end of a ring of four.
abbrev wrapped : Ring
wrapped = record { buf = λ i. 70 + i; head = 3; tail = 1; count = 2; lock = 9 }

wrapped-IsValid : IsValid 4 wrapped
wrapped-IsValid = omega arith

-- After 73, 70, erase and 65 a reader gets 73 and 70.
push-erase_example : contents 4 (push 4 (erase wrapped) 65).1 ≡ 73 ∷ 70 ∷ []
push-erase_example = push-erase 65 wrapped-IsValid (omega arith) (omega arith)

-- A new terminal, cooked, and a raw one.
abbrev console : Device
console = record zero_device { termios = init_termios; line_disc = some cooked_disc; ref_count = 1 }

console-DeviceIsValid : DeviceIsValid console
console-DeviceIsValid = record { input = omega arith; output = omega arith }

-- A terminal where 65, 66 and 67 wait.
abbrev busy : Device
busy = record console { input_buf = record zero_ring { buf = λ i. 65 + i; tail = 3; count = 3 } }

busy-DeviceIsValid : DeviceIsValid busy
busy-DeviceIsValid = record { input = omega arith; output = omega arith }

read_lem_example : HasRead busy 2 (read (some busy) true true 2)
read_lem_example = read_lem busy refl 2 busy-DeviceIsValid

write_lem_example :
    HasWritten busy (104 ∷ 105 ∷ []) (write (some busy) (some (104 ∷ 105 ∷ [])) true)
write_lem_example = write_lem busy refl (104 ∷ 105 ∷ []) busy-DeviceIsValid

abbrev line : List ℕ
line = b'l' ∷ b's' ∷ b'\r' ∷ []

line_ordinary : AllOrdinary console.termios line
unfolding init_termios
line_ordinary = (
  (refl, refl, refl, refl, refl, refl),
  ((refl, refl, refl, refl, refl, refl), ((refl, refl, refl, refl, refl, refl), tt)),
)

expand_newline : expand_all console.termios (b'a' ∷ b'\n' ∷ []) ≡ b'a' ∷ b'\r' ∷ b'\n' ∷ []
unfolding expand_all init_termios
expand_newline = refl

read-type_all_cooked_example :
    (read (some (type_all cooked_disc line console)) true true 3).bytes
    ≡ map (translate console.termios) line
read-type_all_cooked_example =
    read-type_all_cooked line console-DeviceIsValid refl line_ordinary refl (omega arith)

translated_line : map (translate console.termios) line ≡ b'l' ∷ b's' ∷ b'\n' ∷ []
unfolding translate init_termios
translated_line = refl

abbrev script : List Op
script = Calls.key b'a' ∷ Calls.key 8 ∷ Calls.key b'b' ∷ Calls.read 5 ∷ Calls.flush 7 ∷ []

run-IsInBounds_example : DeviceIsInBounds (run script console)
run-IsInBounds_example =
    run-IsInBounds script (record { input = omega arith; output = omega arith })
