-- ===== src/Posix/Calls.antt =====
-- The calls of ntposix/ntposix.c on files and descriptors. An argument with the name of a kernel call
-- without its `Nt` is what the kernel answers to it.
use free_nt.Base.{
  ℕ, ◌+◌, ◌*◌, ◌^◌, Bool, false, ◌||◌, not, Option, none, some, List, ◌∷◌, ◌==◌, if◌then◌else◌,
  update, NtStatus, nt_success, status_end_of_file, u16, u64, neg_part, ◌-◌, bit_and, has_flag,
  set_flag, ℤ, pos, ◌+ℤ◌, is_negative, pos_part, to_long,
}
use free_nt.Posix.{Handle, Fd, Process, fd_handle, fd_alloc, nt_to_errno, minus}
use free_nt.Posix.NtPath.{Wide, make_nt_path, strlen_w}

abbrev pub nposix_max_path : ℕ
nposix_max_path = 1024

-- What `NtCreateFile` is asked for: the object's name, its length in bytes, and the words.
pub record CreateRequest : Type 0 where
  pub name : Wide
  pub name_length : ℕ
  pub attributes : ℕ
  pub access : ℕ
  pub file_attributes : ℕ
  pub share : ℕ
  pub disposition : ℕ
  pub options : ℕ

-- SYNCHRONIZE | FILE_READ_ATTRIBUTES, FILE_READ_DATA, FILE_WRITE_DATA, FILE_APPEND_DATA
abbrev pub base_access : ℕ
base_access = 0x100080

abbrev pub file_read_data : ℕ
file_read_data = 1

abbrev pub file_write_data : ℕ
file_write_data = 2

abbrev pub file_append_data : ℕ
file_append_data = 4

-- The access mask that `nposix_open` asks for.
unfoldable pub access_of : ℕ → ℕ
access_of flags =
    let mode = bit_and flags 3 in
    let access =
      if mode == 1
      then set_flag base_access file_write_data
      else if mode == 2
      then set_flag base_access (set_flag file_read_data file_write_data)
      else set_flag base_access file_read_data in
    if has_flag flags 0x400 then set_flag access file_append_data else access

-- FILE_OVERWRITE_IF, FILE_OPEN_IF or FILE_OPEN
unfoldable pub disposition_of : ℕ → ℕ
disposition_of flags = if has_flag flags 0x200 then 5 else if has_flag flags 0x40 then 3 else 1

-- The request for a name of `n` characters in the buffer.
unfoldable pub open_request : Wide → (n flags : ℕ) → CreateRequest
unfolding access_of disposition_of
open_request name n flags = record {
  name = name;
  name_length = u16 (n * 2);
  attributes = 0x40;
  access = access_of flags;
  file_attributes = 0x80;
  share = 7;
  disposition = disposition_of flags;
  options = 0x60;
}

-- A handle that the kernel has given goes into the table, or back to the kernel if the table is full.
unfoldable pub keep_handle : Process → Handle → (flags : ℕ) → ℤ × Process
keep_handle p handle flags =
    let (fd, fds) = fd_alloc p.fds handle flags in
    if is_negative fd
    then (minus 24, record p { given = handle ∷ p.given; closed = handle ∷ p.closed })
    else (fd, record p { fds = fds; given = handle ∷ p.given })

-- `nposix_open`; `stack` is what its buffer holds before.
unfoldable pub nposix_open :
    (create_file : CreateRequest → NtStatus × Handle)
    → (stack : Wide) → Option (List ℕ)
    → (flags : ℕ) → Process
    → Option (ℤ × Process)
unfolding keep_handle open_request
nposix_open create_file stack path flags p =
    let (converted, name) = make_nt_path path stack nposix_max_path in
    if not converted then some (minus 22, p) else elim (strlen_w nposix_max_path name) [
      | none ↦ none
      | some n ↦
          let (status, handle) = create_file (open_request name n flags) in
          if nt_success status
          then some (keep_handle p handle flags)
          else some (minus (nt_to_errno status), p)
    ]

abbrev pub free_slot : Fd
free_slot = record { handle = 0; flags = 0; in_use = false }

-- `nposix_close`
unfoldable pub nposix_close : ℤ → Process → ℤ × Process
nposix_close fd p =
    let handle = fd_handle p.fds fd in
    if handle == 0 then (minus 9, p) else (
      pos 0,
      record p { fds = update p.fds (pos_part fd) free_slot; closed = handle ∷ p.closed },
    )

-- `nposix_read`, with the status and the count that the kernel answers.
unfoldable pub nposix_read :
    (read_file : Handle → (count : ℕ) → NtStatus × ℕ) → ℤ → (count : ℕ) → Process → ℤ
nposix_read read_file fd count p =
    let handle = fd_handle p.fds fd in
    if handle == 0
    then minus 9
    else (let (status, information) = read_file handle count in
        if status == status_end_of_file
        then pos 0
        else if nt_success status
        then to_long (pos information)
        else minus (nt_to_errno status))

-- `nposix_write`
unfoldable pub nposix_write :
    (write_file : Handle → List ℕ → NtStatus × ℕ) → ℤ → List ℕ → Process → ℤ
nposix_write write_file fd bytes p =
    let handle = fd_handle p.fds fd in
    if handle == 0
    then minus 9
    else (let (status, information) = write_file handle bytes in
        if nt_success status then to_long (pos information) else minus (nt_to_errno status))

-- FILE_STANDARD_INFORMATION
pub record Standard : Type 0 where
  pub end_of_file : ℤ
  pub directory : Bool

-- The end of `nposix_lseek`, for the position that it has computed.
unfoldable pub set_offset : (set_position : Handle → ℤ → NtStatus) → Handle → ℤ → ℤ
set_offset set_position handle position =
    if is_negative position
    then minus 22
    else (let status = set_position handle position in
        if nt_success status then to_long position else minus (nt_to_errno status))

-- `nposix_lseek`
unfoldable pub nposix_lseek :
    (query_position : Handle → NtStatus × ℤ)
    → (query_standard : Handle → NtStatus × Standard) → (set_position : Handle → ℤ → NtStatus)
    → (fd offset : ℤ) → (whence : ℕ) → Process
    → ℤ
unfolding set_offset
nposix_lseek query_position query_standard set_position fd offset whence p =
    let handle = fd_handle p.fds fd in
    if handle == 0
    then minus 9
    else if whence == 0
    then set_offset set_position handle offset
    else if whence == 1
    then (let (status, position) = query_position handle in
        if nt_success status
        then set_offset set_position handle (position +ℤ offset)
        else minus (nt_to_errno status))
    else if whence == 2
    then (let (status, standard) = query_standard handle in
        if nt_success status
        then set_offset set_position handle (standard.end_of_file +ℤ offset)
        else minus (nt_to_errno status))
    else minus 22

-- `nposix_dup`
unfoldable pub nposix_dup : (duplicate : Handle → NtStatus × Handle) → ℤ → Process → ℤ × Process
unfolding keep_handle
nposix_dup duplicate fd p =
    let source = fd_handle p.fds fd in
    if source == 0
    then (minus 9, p)
    else (let (status, handle) = duplicate source in
        if nt_success status
        then keep_handle p handle ((p.fds (pos_part fd)).flags)
        else (minus (nt_to_errno status), p))

-- NP_STAT
pub record Stat : Type 0 where
  pub size : ℕ
  pub attributes : ℕ
  pub mode : ℕ

-- `nposix_fstat`; `st` says whether the pointer is not NULL, and nothing is stored on an error.
unfoldable pub nposix_fstat :
    (query_standard : Handle → NtStatus × Standard)
    → (query_basic : Handle → NtStatus × ℕ) → ℤ
    → (st : Bool) → Process
    → ℤ × Option Stat
nposix_fstat query_standard query_basic fd st p =
    let handle = fd_handle p.fds fd in
    if handle == 0 || not st
    then (minus 22, none)
    else (let (status, standard) = query_standard handle in
        if nt_success status
        then (let (status', attributes) = query_basic handle in
            if nt_success status'
            then (
              pos 0,
              some (record {
                size = u64 (pos_part standard.end_of_file + 2 ^ 64 - neg_part standard.end_of_file);
                attributes = attributes;
                mode = if standard.directory then 0x41ED else 0x81A4;
              }),
            )
            else (minus (nt_to_errno status'), none))
        else (minus (nt_to_errno status), none))
