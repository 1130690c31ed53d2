-- ===== src/Tty/Session.antt =====
-- Whole exchanges on a terminal of nttty/tty.c: what is typed comes back from `NttyRead`.
use free_nt.Base.{
  ℕ, suc, ◌≤◌, ◌≡◌, refl, ap, ◌∙◌, true, some, List, [], ◌∷◌, map, arith, length, take_all,
}
use free_nt.Tty.Ring.{ibuf_size}
use free_nt.Tty.Types.{Device, Discipline, cooked_disc, raw_disc}
use free_nt.Tty.Input.{translate}
use free_nt.Tty.Api.{read}
use free_nt.Tty.Transfer.{contents_empty}
use free_nt.Tty.Io.{DeviceIsValid, input_queue, read_lem}
use free_nt.Tty.Typing.{Takes, Takes-IsValid}
use free_nt.Tty.Lines.{type_all, AllOrdinary, type_all-cooked, type_all-raw}

length-map : {A B : Type 0} (f : A → B) (xs : List A) → length (map f xs) ≡ length xs
length-map f [] = refl
length-map f (x ∷ xs) = ap suc (length-map f xs)

-- With nothing waiting and room for all of it, what was taken comes back from one read.
read_back :
    {d d' : Device} {disc : Discipline} {typed shown : List ℕ}
    → Takes d typed shown d'
    → d.line_disc ≡ some disc
    → d.input_buf.count ≡ 0
    → length typed ≤ ibuf_size
    → (read (some d') true true (length typed)).bytes ≡ typed
read_back {d} {d'} {typed} t attached e fits =
    let here : d'.line_disc ≡ some _ = ap (λ (f : Device). f.line_disc) t.frame ∙ attached in
    let reply = read_lem d' here (length typed) (Takes-IsValid t) in
    let queued : input_queue d' ≡ typed =
      t.input.gained
      ∙ rw (contents_empty ibuf_size d.input_buf e) (take_all _ typed (omega arith)) in
    reply.bytes ∙ rw queued (take_all (length typed) typed (omega arith))

-- Raw mode is transparent: up to a buffer of bytes of any values, typed on a raw terminal where none
-- waits, come back unchanged from one `NttyRead`.
pub read-type_all_raw :
    (cs : List ℕ) {d : Device}
    → DeviceIsValid d
    → d.line_disc ≡ some raw_disc
    → d.input_buf.count ≡ 0
    → length cs ≤ ibuf_size
    → (read (some (type_all raw_disc cs d)) true true (length cs)).bytes ≡ cs
read-type_all_raw cs v attached e fits = read_back (type_all-raw cs v) attached e fits

-- A line of at most 1024 characters that are not special, typed on a cooked terminal where none
-- waits, comes back from one `NttyRead`, translated character by character.
pub read-type_all_cooked :
    (cs : List ℕ) {d : Device}
    → DeviceIsValid d
    → d.line_disc ≡ some cooked_disc
    → AllOrdinary d.termios cs
    → d.input_buf.count ≡ 0
    → length cs ≤ ibuf_size
    → (read (some (type_all cooked_disc cs d)) true true (length cs)).bytes
      ≡ map (translate d.termios) cs
read-type_all_cooked cs {d} v attached o e fits =
    let back =
      read_back (type_all-cooked cs v o) attached e
        (omega (arith, length-map (translate d.termios) cs)) in
    rw length-map at back
