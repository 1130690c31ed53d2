-- ===== src/Posix/Handles.antt =====
-- No handle of the kernel is lost by the calls of ntposix/ntposix.c: what the kernel has given is in the
-- table or closed.
use free_nt.Base.{
  if_keeps, ℕ_discrete, ℕ, zero, suc, ◌+◌, ◌<◌, ◌≤◌, ◌≡◌, ◌≢◌, inl, inr, refl, ap₂, Bool, true,
  false, ◌&&◌, Option, none, some, List, [], ◌∷◌, update, update_self, update_ne, ◌==◌,
  if◌then◌else◌, Bool-cases, Option-cases, arith, ℤ, pos, negsuc, pos_part, NtStatus, nt_success,
}
use free_nt.Posix.{Handle, Fd, Fds, Process, fd_alloc, fd_handle, nposix_max_fds, minus}
use free_nt.Posix.NtPath.{Wide, make_nt_path, strlen_w}
use free_nt.Posix.Calls.{
  CreateRequest, open_request, keep_handle, nposix_open, nposix_close, nposix_dup, nposix_max_path,
  free_slot,
}
use free_nt.Posix.Table.{filled, fd_alloc-Takes}

abbrev pub count : ℕ → List ℕ → ℕ
count h [] = 0
count h (x ∷ xs) = if x == h then count h xs + 1 else count h xs

abbrev pub one_if : Bool → ℕ
one_if true = 1
one_if false = 0

abbrev pub holds : Handle → Fd → Bool
holds h fd = fd.in_use && (fd.handle == h)

-- How many of the first `n` slots hold the handle.
unfoldable pub held : Handle → Fds → ℕ → ℕ
held h fds zero = 0
held h fds (suc n) = held h fds n + one_if (holds h (fds n))

-- Each handle has been given as often as it has been closed or is in the table.
abbrev pub Balanced : Process → Type 0
Balanced p = (h : Handle) → count h p.given ≡ count h p.closed + held h p.fds nposix_max_fds

held_above :
    (h : Handle) (fds : Fds) (i : ℕ) (fd : Fd) (n : ℕ)
    → n ≤ i
    → held h (update fds i fd) n ≡ held h fds n
unfolding held
held_above h fds i fd zero l = refl
held_above h fds i fd (suc n) l =
    let other : update fds i fd n ≡ fds n = update_ne fds fd (omega arith) in
    ap₂ (λ a b. a + one_if (holds h b)) (held_above h fds i fd n (omega arith)) other

held-update :
    (h : Handle) (fds : Fds) (i : ℕ) (fd : Fd) (n : ℕ)
    → i < n
    → held h (update fds i fd) n + one_if (holds h (fds i)) ≡ held h fds n + one_if (holds h fd)
unfolding held
held-update h fds i fd zero l = absurd (omega arith)
held-update h fds i fd (suc n) l = elim (Bool-cases (i == n)) [
  | inl last ↦
      let at : i ≡ n = ground arith in
      let below = held_above h fds i fd n (omega arith) in
      let here : update fds i fd n ≡ fd = rw (← at) (update_self fds i fd) in
      rw (here, at, below) (omega arith)
  | inr other ↦
      let rest = held-update h fds i fd n (ground arith) in
      let here : update fds i fd n ≡ fds n = update_ne fds fd (ground arith) in
      rw here (omega (arith, rest))
]

pub keep_handle_taken :
    (p : Process) (handle slot : ℕ) (flags : ℕ)
    → fd_alloc p.fds handle flags ≡ (pos slot, update p.fds slot (filled handle flags))
    → keep_handle p handle flags ≡ (
      pos slot,
      record p { fds = update p.fds slot (filled handle flags); given = handle ∷ p.given },
    )
unfolding keep_handle
keep_handle_taken p handle slot flags e = rw e

pub keep_handle_full :
    (p : Process) (handle flags : ℕ)
    → fd_alloc p.fds handle flags ≡ (negsuc 0, p.fds)
    → keep_handle p handle flags
      ≡ (minus 24, record p { given = handle ∷ p.given; closed = handle ∷ p.closed })
unfolding keep_handle
keep_handle_full p handle flags e = rw e

keep_handle-Balanced :
    (p : Process) (handle flags : ℕ) → Balanced p → Balanced (keep_handle p handle flags).1
keep_handle-Balanced p handle flags b h = elim (fd_alloc-Takes p.fds handle flags) [
  | inl taken ↦
      let moved =
        held-update h p.fds taken.slot (filled handle flags) nposix_max_fds taken.in_table in
      rw (keep_handle_taken p handle taken.slot flags taken.result)
        (ground (arith, b h, moved, taken.free))
  | inr full ↦ rw (keep_handle_full p handle flags full.result) (ground (arith, b h))
]

-- What a descriptor with a handle says of its slot.
pub fd_handle_slot :
    (fds : Fds) (fd : ℤ)
    → fd_handle fds fd ≢ 0
    → (pos_part fd < nposix_max_fds)
      × ((fds (pos_part fd)).in_use ≡ true)
      × ((fds (pos_part fd)).handle ≡ fd_handle fds fd)
unfolding fd_handle
fd_handle_slot fds (pos n) some_handle = ground arith
fd_handle_slot fds (negsuc n) some_handle = absurd (some_handle refl)

pub nposix_close_done :
    (fd : ℤ) (p : Process)
    → fd_handle p.fds fd ≢ 0
    → nposix_close fd p ≡ (
      pos 0,
      record p {
        fds = update p.fds (pos_part fd) free_slot;
        closed = fd_handle p.fds fd ∷ p.closed;
      },
    )
unfolding nposix_close
nposix_close_done fd p some_handle =
    let given : fd_handle p.fds fd == 0 ≡ false = ground arith in rw given

nposix_close_refused :
    (fd : ℤ) (p : Process) → fd_handle p.fds fd ≡ 0 → nposix_close fd p ≡ (minus 9, p)
unfolding nposix_close
nposix_close_refused fd p empty = rw empty

nposix_close-Balanced : (fd : ℤ) (p : Process) → Balanced p → Balanced (nposix_close fd p).1
nposix_close-Balanced fd p b h = elim (ℕ_discrete (fd_handle p.fds fd) 0) [
  | yes empty ↦ rw (nposix_close_refused fd p empty) (b h)
  | no some_handle ↦
      let slot = fd_handle_slot p.fds fd some_handle in
      let moved = held-update h p.fds (pos_part fd) free_slot nposix_max_fds slot.0 in
      rw (nposix_close_done fd p some_handle) (ground (arith, b h, moved, slot.1, slot.2))
]

nposix_dup-Balanced :
    (duplicate : Handle → NtStatus × Handle) (fd : ℤ) (p : Process)
    → Balanced p
    → Balanced (nposix_dup duplicate fd p).1
unfolding nposix_dup
nposix_dup-Balanced duplicate fd p b =
    if_keeps (λ (r : ℤ × Process). Balanced r.1) (fd_handle p.fds fd == 0) b
      (if_keeps (λ (r : ℤ × Process). Balanced r.1) (nt_success (duplicate (fd_handle p.fds fd)).0)
        (keep_handle-Balanced p (duplicate (fd_handle p.fds fd)).1 ((p.fds (pos_part fd)).flags) b)
        b)

-- The process after a call that may have faulted.
abbrev pub after_call : Process → Option (ℤ × Process) → Process
after_call p none = p
after_call p (some r) = r.1

nposix_open-Balanced :
    (create_file : CreateRequest → NtStatus × Handle) (stack : Wide) (path : Option (List ℕ))
    (flags : ℕ) (p : Process)
    → Balanced p
    → Balanced (after_call p (nposix_open create_file stack path flags p))
unfolding nposix_open
nposix_open-Balanced create_file stack path flags p b =
    elim (Bool-cases ((make_nt_path path stack nposix_max_path).0)) [
      | inr refused ↦ rw refused b
      | inl converted ↦
          elim (Option-cases
            (strlen_w nposix_max_path (make_nt_path path stack nposix_max_path).1)) [
              | inl endless ↦ rw (converted, endless) b
              | inr (n, measured) ↦
                  let answer : NtStatus × Handle =
                    create_file
                      (open_request (make_nt_path path stack nposix_max_path).1 n flags) in
                  elim (Bool-cases (nt_success answer.0)) [
                    | inl granted ↦
                        rw (converted, measured, granted) (keep_handle-Balanced p answer.1 flags b)
                    | inr refused ↦ rw (converted, measured, refused) b
                  ]
            ]
    ]

-- The calls that change the table, with the kernel's answers.
pub data Call : Type 0 where
  open_file : (CreateRequest → NtStatus × Handle) → Wide → Option (List ℕ) → ℕ → Call
  close : ℤ → Call
  dup : (Handle → NtStatus × Handle) → ℤ → Call

pub apply : Call → Process → Process
apply (open_file create_file stack path flags) p =
    after_call p (nposix_open create_file stack path flags p)
apply (close fd) p = (nposix_close fd p).1
apply (dup duplicate fd) p = (nposix_dup duplicate fd p).1

pub run : List Call → Process → Process
run [] p = p
run (c ∷ cs) p = run cs (apply c p)

apply-Balanced : (c : Call) (p : Process) → Balanced p → Balanced (apply c p)
unfolding apply
apply-Balanced (open_file create_file stack path flags) p b =
    nposix_open-Balanced create_file stack path flags p b
apply-Balanced (close fd) p b = nposix_close-Balanced fd p b
apply-Balanced (dup duplicate fd) p b = nposix_dup-Balanced duplicate fd p b

-- Whatever is called and whatever the kernel answers, a process in which each handle has been given as
-- often as it was closed or is in the table stays one: the layer loses no handle and closes none twice.
pub run-Balanced : (cs : List Call) (p : Process) → Balanced p → Balanced (run cs p)
unfolding run
run-Balanced [] p b = b
run-Balanced (c ∷ cs) p b = run-Balanced cs (apply c p) (apply-Balanced c p b)
