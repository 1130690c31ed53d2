-- ===== src/Posix/Files.antt =====
-- What the calls of ntposix/ntposix.c return: opening a path, closing again, and bad descriptors.
use free_nt.Base.{
  HasNoNul, ℕ, zero, suc, ◌+◌, ◌*◌, ◌<◌, ◌≤◌, ◌≡◌, inl, inr, ap, ◌∙◌, true, false, ◌&&◌, Option,
  some, List, [], ◌∷◌, map, leb, ◌==◌, if◌then◌else◌, Bool-cases, arith, ℤ, NtStatus, nt_success,
  length, get_or,
}
use free_nt.Posix.{Handle, Process, minus, nt_to_errno}
use free_nt.Posix.NtPath.{Wide, make_nt_path, strlen_w, strlen_w_from, backslash}
use free_nt.Posix.NtPath.Convert.{HasWide, nt_path, make_nt_path-Converted}
use free_nt.Posix.Calls.{CreateRequest, open_request, keep_handle, nposix_open, nposix_max_path}

map-HasNoNul : (cs : List ℕ) → HasNoNul cs → HasNoNul (map backslash cs)
map-HasNoNul [] h = tt
map-HasNoNul (c ∷ cs) h = ((λ e. h.0 (ground arith)), map-HasNoNul cs h.1)

as_text : {s t : List ℕ} → some s ≡ some t → HasNoNul s → HasNoNul t
as_text {s} {t} same h = let e : s ≡ t = ground arith in rw (← e) h

nt_path-HasNoNul : (cs text : List ℕ) → HasNoNul cs → nt_path cs ≡ some text → HasNoNul text
nt_path-HasNoNul cs text h named = elim (Bool-cases (get_or cs 0 0 == 0x5C)) [
  | inl native ↦ as_text (rw native at named) (map-HasNoNul cs h)
  | inr other ↦ elim (Bool-cases (leb 2 (length cs) && get_or cs 1 0 == b':')) [
    | inl drive ↦
        as_text (rw (other, drive) at named)
          (omega arith, (omega arith, (omega arith, (omega arith, map-HasNoNul cs h))))
    | inr no_drive ↦ elim (Bool-cases (get_or cs 0 0 == b'/')) [
      | inl rooted ↦ as_text (rw (other, no_drive, rooted) at named) (
        omega arith,
        (
          omega arith,
          (omega arith, (omega arith, (omega arith, (omega arith, map-HasNoNul cs h)))),
        ),
      )
      | inr no_root ↦ absurd (ground arith)
    ]
  ]
]

strlen_w_from_lem :
    (fuel : ℕ) (b : Wide) (at : ℕ) (text : List ℕ)
    → length text < fuel
    → HasNoNul text
    → HasWide b at text
    → strlen_w_from fuel b at ≡ some (at + length text)
unfolding strlen_w_from
strlen_w_from_lem zero b at text enough h w = absurd (omega arith)
strlen_w_from_lem (suc fuel) b at [] enough h w = ground arith
strlen_w_from_lem (suc fuel) b at (c ∷ cs) enough h w =
    let rest = strlen_w_from_lem fuel b (at + 1) cs (omega arith) h.1 w.1 in
    let more : b at == 0 ≡ false = ground (arith, w.0, h.0) in
    rw more (rest ∙ ap (λ k. some k) (omega arith))

-- The call asks the kernel once, for the object `text`, and its answer is the result: the handle in the
-- table, or the error.
pub record Asks (create_file : CreateRequest → NtStatus × Handle) (text : List ℕ) (flags : ℕ)
    (p : Process) (out : Option (ℤ × Process)) : Type 0 where
  pub request : CreateRequest
  pub named : HasWide request.name 0 text
  pub sized : request.name_length ≡ length text * 2
  pub answered :
      out
      ≡ some (
          if nt_success (create_file request).0
          then keep_handle p (create_file request).1 flags
          else (minus (nt_to_errno (create_file request).0), p))

nposix_open_run :
    (create_file : CreateRequest → NtStatus × Handle) (stack : Wide) (path : Option (List ℕ))
    (flags n : ℕ) (p : Process)
    → (make_nt_path path stack nposix_max_path).0 ≡ true
    → strlen_w nposix_max_path (make_nt_path path stack nposix_max_path).1 ≡ some n
    → nposix_open create_file stack path flags p
      ≡ some (
          let r = open_request (make_nt_path path stack nposix_max_path).1 n flags in
          if nt_success (create_file r).0
          then keep_handle p (create_file r).1 flags
          else (minus (nt_to_errno (create_file r).0), p))
unfolding nposix_open
nposix_open_run create_file stack path flags n p converted measured =
    elim (Bool-cases (
      nt_success
        (create_file (open_request (make_nt_path path stack nposix_max_path).1 n flags)).0)) [
          | inl granted ↦ rw (converted, measured, granted)
          | inr refused ↦ rw (converted, measured, refused)
        ]

-- A path without NUL that has an NT path and at most 1007 characters is opened: the kernel is asked for
-- the NT path.
pub nposix_open-Asks :
    (create_file : CreateRequest → NtStatus × Handle) (stack : Wide) (cs text : List ℕ) (flags : ℕ)
    (p : Process)
    → HasNoNul cs
    → length cs ≤ 1007
    → nt_path cs ≡ some text
    → Asks create_file text flags p (nposix_open create_file stack (some cs) flags p)
unfolding strlen_w open_request
nposix_open-Asks create_file stack cs text flags p whole short named =
    let made = make_nt_path-Converted cs text stack nposix_max_path (omega arith) named in
    let measured =
      strlen_w_from_lem nposix_max_path (make_nt_path (some cs) stack nposix_max_path).1 0 text
        made.fits (nt_path-HasNoNul cs text whole named) made.holds in
    record {
      request =
          open_request (make_nt_path (some cs) stack nposix_max_path).1 (0 + length text) flags;
      named = made.holds;
      sized = (let fits = made.fits in omega arith);
      answered =
          nposix_open_run create_file stack (some cs) flags (0 + length text) p made.succeeds
            measured;
    }
