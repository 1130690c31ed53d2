-- ===== src/Posix/Tests.antt =====
-- Runs of ntposix/ntposix.c on small tables.
use free_nt.Base.{ℕ, zero, suc, ◌≡◌, refl, some, List, [], ◌∷◌, update, arith, pos, NtStatus}
use free_nt.Posix.{Handle, Fds, Process, fd_alloc}
use free_nt.Posix.NtPath.{Wide, make_nt_path}
use free_nt.Posix.NtPath.Convert.{Converted, make_nt_path-Converted}
use free_nt.Posix.Calls.{CreateRequest, nposix_open, keep_handle, free_slot}
use free_nt.Posix.Table.{filled}
use free_nt.Posix.Handles.{held, Balanced, Call, open_file, close, dup, run, run-Balanced}
use free_nt.Posix.Files.{Asks, nposix_open-Asks}
use free_nt.Posix.Descriptors.{Undone, nposix_close-keep_handle}

abbrev no_fds : Fds
no_fds = λ i. free_slot

abbrev started : Process
started = record { fds = no_fds; given = []; closed = [] }

abbrev stack : Wide
stack = λ i. 0xCCCC

-- "/a"
abbrev slash_a : List ℕ
slash_a = b'/' ∷ b'a' ∷ []

-- "\??\C:\a"
abbrev nt_a : List ℕ
nt_a = 0x5C ∷ b'?' ∷ b'?' ∷ 0x5C ∷ b'C' ∷ b':' ∷ 0x5C ∷ b'a' ∷ []

make_nt_path-Converted_example : Converted 1024 stack nt_a (make_nt_path (some slash_a) stack 1024)
make_nt_path-Converted_example = make_nt_path-Converted slash_a nt_a stack 1024 (omega arith) refl

abbrev grant : CreateRequest → NtStatus × Handle
grant r = (0, 72)

nposix_open-Asks_example :
    Asks grant nt_a 2 started (nposix_open grant stack (some slash_a) 2 started)
nposix_open-Asks_example =
    nposix_open-Asks grant stack slash_a nt_a 2 started (omega arith, (omega arith, tt))
      (omega arith) refl

abbrev calls : List Call
calls = open_file grant stack (some slash_a) 2 ∷ dup (λ h. (0, 76)) (pos 0) ∷ close (pos 0) ∷ []

held_none : (h n : ℕ) → held h no_fds n ≡ 0
unfolding held
held_none h zero = refl
held_none h (suc n) = omega (arith, held_none h n)

started-Balanced : Balanced started
started-Balanced h = omega (arith, held_none h 256)

run-Balanced_example : Balanced (run calls started)
run-Balanced_example = run-Balanced calls started started-Balanced

abbrev opened : Process
opened = record started { fds = update no_fds 0 (filled 72 2); given = 72 ∷ [] }

nposix_close-keep_handle_example : Undone started 72 (pos 0) opened
unfolding keep_handle fd_alloc
nposix_close-keep_handle_example =
    nposix_close-keep_handle started 72 2 (pos 0) opened (omega arith) refl refl
