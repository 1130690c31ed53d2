-- ===== src/Posix/Descriptors.antt =====
-- Descriptors that are not open, and a descriptor that is closed again, in ntposix/ntposix.c.
use free_nt.Base.{
  ℕ, ◌<◌, ◌≤◌, ◌≡◌, ◌≢◌, ◌⊎◌, inl, inr, refl, sym, ap, ◌∙◌, Bool, false, none, List, ◌∷◌, update,
  ◌==◌, Bool-cases, arith, ℤ, pos, negsuc, is_negative, NtStatus,
}
use free_nt.Posix.{Handle, Fd, Fds, Process, fd_handle, nposix_max_fds, minus}
use free_nt.Posix.Calls.{
  keep_handle, nposix_close, nposix_read, nposix_write, nposix_lseek, nposix_dup, nposix_fstat,
  Standard, free_slot,
}
use free_nt.Posix.Table.{filled, fd_alloc-Takes, fd_handle-filled}
use free_nt.Posix.Handles.{keep_handle_taken, keep_handle_full, nposix_close_done}

-- The descriptor is negative, behind the table, or of a free slot.
abbrev pub IsBad : Fds → ℤ → Type 0
IsBad fds (negsuc n) = Unit {0}
IsBad fds (pos n) = (nposix_max_fds ≤ n) ⊎ ((fds n).in_use ≡ false)

fd_handle-IsBad : (fds : Fds) (fd : ℤ) → IsBad fds fd → fd_handle fds fd ≡ 0
unfolding fd_handle
fd_handle-IsBad fds (negsuc n) bad = refl
fd_handle-IsBad fds (pos n) bad = ground arith

-- Each call on a bad descriptor returns its error, -9 or for `nposix_fstat` -22, whatever the kernel
-- would answer, and leaves the process as it is.
pub bad_descriptor :
    (fd : ℤ) (p : Process) (read_file : Handle → ℕ → NtStatus × ℕ)
    (write_file : Handle → List ℕ → NtStatus × ℕ) (query_position : Handle → NtStatus × ℤ)
    (query_standard : Handle → NtStatus × Standard) (query_basic : Handle → NtStatus × ℕ)
    (set_position : Handle → ℤ → NtStatus) (duplicate : Handle → NtStatus × Handle)
    (count whence : ℕ) (bytes : List ℕ) (offset : ℤ) (st : Bool)
    → IsBad p.fds fd
    → (nposix_close fd p ≡ (minus 9, p))
      × (nposix_read read_file fd count p ≡ minus 9)
      × (nposix_write write_file fd bytes p ≡ minus 9)
      × (nposix_lseek query_position query_standard set_position fd offset whence p ≡ minus 9)
      × (nposix_dup duplicate fd p ≡ (minus 9, p))
      × (nposix_fstat query_standard query_basic fd st p ≡ (minus 22, none))
unfolding nposix_close nposix_read nposix_write nposix_lseek nposix_dup nposix_fstat
bad_descriptor fd p read_file write_file query_position query_standard query_basic set_position
      duplicate count whence bytes offset st bad =
    let empty = fd_handle-IsBad p.fds fd bad in
    (rw empty, rw empty, rw empty, rw empty, rw empty, rw empty)

-- The handle of another descriptor than that of the slot.
fd_handle-update_ne :
    (fds : Fds) (slot : ℕ) (v : Fd) (fd : ℤ)
    → fd ≢ pos slot
    → fd_handle (update fds slot v) fd ≡ fd_handle fds fd
unfolding fd_handle
fd_handle-update_ne fds slot v (negsuc n) other = refl
fd_handle-update_ne fds slot v (pos n) other = ground arith

fd_handle-free : (fds : Fds) (slot : ℕ) → (fds slot).in_use ≡ false → fd_handle fds (pos slot) ≡ 0
unfolding fd_handle
fd_handle-free fds slot free = ground arith

ℤ-cases : (z : ℤ) (n : ℕ) → (z ≡ pos n) ⊎ (z ≢ pos n)
ℤ-cases (negsuc m) n = inr (λ e. ground arith)
ℤ-cases (pos m) n = elim (Bool-cases (m == n)) [
  | inl same ↦ inl (ground arith)
  | inr other ↦ inr (λ e. ground arith)
]

-- Closing the descriptor succeeds, gives the handle back to the kernel, and every descriptor has the
-- handle that it had before the handle was kept.
pub record Undone (before : Process) (handle : Handle) (fd : ℤ) (kept : Process) : Type 0 where
  pub after : Process
  pub closes : nposix_close fd kept ≡ (pos 0, after)
  pub returned : after.closed ≡ handle ∷ before.closed
  pub same : (other : ℤ) → fd_handle after.fds other ≡ fd_handle before.fds other

keep_handle-taken_Undone :
    (p : Process) (handle flags slot : ℕ)
    → handle ≢ 0
    → slot < nposix_max_fds
    → (p.fds slot).in_use ≡ false
    → Undone p handle
        (pos slot)
        (record p { fds = update p.fds slot (filled handle flags); given = handle ∷ p.given })
keep_handle-taken_Undone p handle flags slot some_handle l free =
    let fds : Fds = update p.fds slot (filled handle flags) in
    let kept : Process = record p { fds = fds; given = handle ∷ p.given } in
    let there = fd_handle-filled p.fds slot handle flags l in
    record {
      after = record kept {
        fds = update fds slot free_slot;
        closed = fd_handle fds (pos slot) ∷ p.closed;
      };
      closes = nposix_close_done (pos slot) kept (λ e. some_handle (sym there ∙ e));
      returned = ap (λ h. h ∷ p.closed) there;
      same = λ other. elim (ℤ-cases other slot) [
        | inl here ↦ rw here (
            fd_handle-free (update fds slot free_slot) slot (ground arith)
            ∙ sym (fd_handle-free p.fds slot free))
        | inr else_where ↦
            fd_handle-update_ne fds slot free_slot other else_where
            ∙ fd_handle-update_ne p.fds slot (filled handle flags) other else_where
      ];
    }

-- A handle that is kept and not refused has a descriptor, and closing it undoes the keeping.
pub nposix_close-keep_handle :
    (p : Process) (handle flags : ℕ) (fd : ℤ) (kept : Process)
    → handle ≢ 0
    → keep_handle p handle flags ≡ (fd, kept)
    → is_negative fd ≡ false
    → Undone p handle fd kept
nposix_close-keep_handle p handle flags fd kept some_handle ran accepted =
    elim (fd_alloc-Takes p.fds handle flags) [
      | inl taken ↦
          let done = keep_handle_taken p handle taken.slot flags taken.result in
          let same : (
            pos taken.slot,
            record p {
              fds = update p.fds taken.slot (filled handle flags);
              given = handle ∷ p.given;
            },
          )
              ≡ (fd, kept) =
            sym done ∙ ran in
          rw (ap (λ r. r.0) (sym same), ap (λ r. r.1) (sym same))
            (keep_handle-taken_Undone p handle flags taken.slot some_handle taken.in_table
              taken.free)
      | inr full ↦
          let done = keep_handle_full p handle flags full.result in
          let refused : fd ≡ minus 24 = ap (λ r. r.0) (sym ran ∙ done) in absurd (ground arith)
    ]
