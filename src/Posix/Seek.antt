-- ===== src/Posix/Seek.antt =====
-- `nposix_lseek` of ntposix/ntposix.c: the position asked for and the value returned.
use free_nt.Base.{
  ℕ, ◌-◌, ◌^◌, ◌<◌, ◌≤◌, ◌≡◌, ◌≢◌, ◌⊎◌, inl, inr, ap, ◌∙◌, true, false, ◌==◌, arith, ℤ, pos, negsuc,
  ◌+ℤ◌, NtStatus, nt_success,
}
use free_nt.Posix.{Handle, Process, fd_handle, minus}
use free_nt.Posix.Calls.{nposix_lseek, set_offset, Standard}

module _ (query_position : Handle → NtStatus × ℤ) (query_standard : Handle → NtStatus × Standard)
    (set_position : Handle → ℤ → NtStatus) (fd offset : ℤ) (whence : ℕ) (p : Process) where
  -- The position that `whence` counts from: the start, the position now, or the end of the file.
  abbrev pub CountsFrom : Handle → ℤ → Type 0
  CountsFrom handle from =
      ((whence ≡ 0) × (from ≡ pos 0))
      ⊎ ((whence ≡ 1)
          × (nt_success (query_position handle).0 ≡ true)
          × ((query_position handle).1 ≡ from))
      ⊎ ((whence ≡ 2)
          × (nt_success (query_standard handle).0 ≡ true)
          × ((query_standard handle).1.end_of_file ≡ from))

  abbrev seek : ℤ
  seek = nposix_lseek query_position query_standard set_position fd offset whence p

  start_add : (z : ℤ) → z ≡ pos 0 +ℤ z
  start_add (pos n) = ground arith
  start_add (negsuc n) = ground arith

  nposix_lseek-set_offset :
      (handle : Handle) (from : ℤ)
      → handle ≢ 0
      → fd_handle p.fds fd ≡ handle
      → CountsFrom handle from
      → seek ≡ set_offset set_position handle (from +ℤ offset)
  unfolding nposix_lseek
  nposix_lseek-set_offset handle from some_handle is_open base =
      let given : handle == 0 ≡ false = ground arith in
      elim base [
        | inl start ↦
            rw (is_open, given, start.0, start.1)
              (ap (λ z. set_offset set_position handle z) (start_add offset))
        | inr (inl here) ↦ rw (is_open, given, here.0, here.1, here.2)
        | inr (inr back) ↦ rw (is_open, given, back.0, back.1, back.2)
      ]

  -- On an open descriptor, with a position that can be counted from and a target below 2^31 that the
  -- kernel sets, the call returns the target.
  pub nposix_lseek_target :
      (handle : Handle) (from : ℤ) (target : ℕ)
      → handle ≢ 0
      → fd_handle p.fds fd ≡ handle
      → CountsFrom handle from
      → from +ℤ offset ≡ pos target
      → nt_success (set_position handle (pos target)) ≡ true
      → target < 2 ^ 31
      → seek ≡ pos target
  unfolding set_offset
  nposix_lseek_target handle from target some_handle is_open base lands set small =
      nposix_lseek-set_offset handle from some_handle is_open base ∙ rw (lands, set) (ground arith)

  -- The same with a target from 2^31 to 2^32: the position is set, and the value returned is negative,
  -- which a caller takes for an error.
  pub nposix_lseek_far :
      (handle : Handle) (from : ℤ) (target : ℕ)
      → handle ≢ 0
      → fd_handle p.fds fd ≡ handle
      → CountsFrom handle from
      → from +ℤ offset ≡ pos target
      → nt_success (set_position handle (pos target)) ≡ true
      → 2 ^ 31 ≤ target
      → target < 2 ^ 32
      → seek ≡ negsuc (2 ^ 32 - 1 - target)
  unfolding set_offset
  nposix_lseek_far handle from target some_handle is_open base lands set big small =
      nposix_lseek-set_offset handle from some_handle is_open base ∙ rw (lands, set) (ground arith)

  -- A target before the start of the file is refused with -22, whatever the kernel would answer to a set position.
  pub nposix_lseek_negative :
      (handle : Handle) (from : ℤ) (n : ℕ)
      → handle ≢ 0
      → fd_handle p.fds fd ≡ handle
      → CountsFrom handle from
      → from +ℤ offset ≡ negsuc n
      → seek ≡ minus 22
  unfolding set_offset
  nposix_lseek_negative handle from n some_handle is_open base lands =
      nposix_lseek-set_offset handle from some_handle is_open base ∙ rw lands
