-- ===== src/Posix.antt =====
-- The POSIX layer of ntposix/ntposix.c: its state and the table of descriptors. The kernel's answers
-- are arguments.
pub mod NtPath
pub mod Calls
pub mod Table
pub mod Handles
pub mod Files
pub mod Seek
mod Tests
pub mod Descriptors
use free_nt.Base.{
  ℕ, zero, suc, ◌+◌, Bool, true, false, ◌||◌, List, ◌∷◌, ltb, leb, ◌==◌, if◌then◌else◌, update, ℤ,
  pos, negsuc, is_negative, pos_part,
}

abbrev pub Handle : Type 0
Handle = ℕ

abbrev pub nposix_max_fds : ℕ
nposix_max_fds = 256

-- NP_FD
pub record Fd : Type 0 where
  pub handle : Handle
  pub flags : ℕ
  pub in_use : Bool

-- Fds
abbrev pub Fds : Type 0
Fds = ℕ → Fd

-- The descriptors, and the handles that the kernel has given to the layer and got back by NtClose, the
-- last one first.
pub record Process : Type 0 where
  pub fds : Fds
  pub given : List Handle
  pub closed : List Handle

-- `fd < 0 || fd >= NPOSIX_MAX_FDS`
abbrev pub out_of_table : ℤ → Bool
out_of_table fd = is_negative fd || leb nposix_max_fds (pos_part fd)

-- `fd_handle`; NULL is 0.
unfoldable pub fd_handle : Fds → ℤ → Handle
fd_handle fds fd =
    if out_of_table fd
    then 0
    else if (fds (pos_part fd)).in_use
    then (fds (pos_part fd)).handle
    else 0

-- The loop of `fd_alloc`, with `rounds` slots left from `i` on.
unfoldable pub fd_alloc_from : (rounds i : ℕ) → Fds → Handle → ℕ → ℤ × Fds
fd_alloc_from zero i fds handle flags = (negsuc 0, fds)
fd_alloc_from (suc rounds) i fds handle flags = elim ((fds i).in_use) [
  | true ↦ fd_alloc_from rounds (i + 1) fds handle flags
  | false ↦ (pos i, update fds i (record { handle = handle; flags = flags; in_use = true }))
]

-- `fd_alloc`
unfoldable pub fd_alloc : Fds → Handle → ℕ → ℤ × Fds
unfolding fd_alloc_from
fd_alloc fds handle flags = fd_alloc_from nposix_max_fds 0 fds handle flags

-- `nt_to_errno`
unfoldable pub nt_to_errno : ℕ → ℕ
nt_to_errno status =
    if status == 0xC0000034 || status == 0xC000000F
    then 2
    else if status == 0xC0000022
    then 13
    else if status == 0xC000000D
    then 22
    else 5

-- `-e` as an `int`
abbrev pub minus : ℕ → ℤ
minus zero = pos 0
minus (suc n) = negsuc n
