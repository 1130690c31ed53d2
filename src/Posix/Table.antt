-- ===== src/Posix/Table.antt =====
-- The table of descriptors of ntposix/ntposix.c: which slot `fd_alloc` takes.
use free_nt.Base.{
  ℕ, zero, suc, ◌+◌, ◌<◌, ◌≡◌, ◌⊎◌, inl, inr, refl, true, false, update, ◌==◌, Bool-cases, arith, ℤ,
  pos, negsuc,
}
use free_nt.Posix.{Handle, Fd, Fds, fd_alloc, fd_alloc_from, fd_handle, nposix_max_fds}

abbrev pub filled : Handle → ℕ → Fd
filled handle flags = record { handle = handle; flags = flags; in_use = true }

-- The call takes the first slot that is free, and no other slot changes.
pub record Takes (fds : Fds) (handle : Handle) (flags : ℕ) (out : ℤ × Fds) : Type 0 where
  pub slot : ℕ
  pub in_table : slot < nposix_max_fds
  pub free : (fds slot).in_use ≡ false
  pub first : (i : ℕ) → i < slot → (fds i).in_use ≡ true
  pub result : out ≡ (pos slot, update fds slot (filled handle flags))

-- The call finds every slot in use, and changes none.
pub record Full (fds : Fds) (out : ℤ × Fds) : Type 0 where
  pub used : (i : ℕ) → i < nposix_max_fds → (fds i).in_use ≡ true
  pub result : out ≡ (negsuc 0, fds)

fd_alloc_from-split :
    (rounds i : ℕ) (fds : Fds) (handle : Handle) (flags : ℕ)
    → i + rounds ≡ nposix_max_fds
    → ((j : ℕ) → j < i → (fds j).in_use ≡ true)
    → Takes fds handle flags (fd_alloc_from rounds i fds handle flags)
      ⊎ Full fds (fd_alloc_from rounds i fds handle flags)
unfolding fd_alloc_from
fd_alloc_from-split zero i fds handle flags total before =
    inr (record { used = λ j l. before j (omega arith); result = refl })
fd_alloc_from-split (suc rounds) i fds handle flags total before =
    elim (Bool-cases ((fds i).in_use)) [
      | inl busy ↦
          rw (fd_alloc_from, busy)
            (fd_alloc_from-split rounds (i + 1) fds handle flags (omega arith) (λ j l.
              elim (Bool-cases (j == i)) [
                | inl here ↦ let at : j ≡ i = ground arith in rw at busy
                | inr other ↦ before j (ground arith)
              ]))
      | inr free ↦
          rw (fd_alloc_from, free)
            (inl (record {
              slot = i;
              in_table = omega arith;
              free = free;
              first = before;
              result = refl;
            }))
    ]

-- A handle is put into the lowest slot that is free; only with every slot in use is the result -1, and
-- then the table is as before.
pub fd_alloc-Takes :
    (fds : Fds) (handle : Handle) (flags : ℕ)
    → Takes fds handle flags (fd_alloc fds handle flags) ⊎ Full fds (fd_alloc fds handle flags)
unfolding fd_alloc
fd_alloc-Takes fds handle flags =
    fd_alloc_from-split nposix_max_fds 0 fds handle flags refl (λ j l. absurd (omega arith))

-- The handle of a slot.
pub fd_handle-filled :
    (fds : Fds) (slot : ℕ) (handle : Handle) (flags : ℕ)
    → slot < nposix_max_fds
    → fd_handle (update fds slot (filled handle flags)) (pos slot) ≡ handle
unfolding fd_handle
fd_handle-filled fds slot handle flags l = ground arith
