-- ===== src/Tty/Lines.antt =====
-- Typing and printing through the line disciplines of nttty/tty.c, character after character.
use free_nt.Base.{
  ℕ, ◌≡◌, refl, ap, false, ◌&&◌, Bool-cases, inl, inr, ◌==◌, if◌then◌else◌, has_flag, List, [], ◌∷◌,
  ◌++◌, map, arith, status_success,
}
use free_nt.Tty.Types.{
  Device, Termios, Discipline, cooked_disc, raw_disc, ntty_isig, ntty_icanon, ntty_echo, ntty_opost,
  ntty_onlcr, ntty_vintr, ntty_vquit, ntty_vsusp, ntty_verase, ntty_vkill, ntty_veof,
}
use free_nt.Tty.Input.{
  echo_char, buffer_char, translate, accept_char, cooked_input, put_output, cooked_output,
  raw_input,
}
use free_nt.Tty.Table.{table}
use free_nt.Tty.Io.{DeviceIsValid}
use free_nt.Tty.Typing.{Takes, echo-Takes, buffer-Takes, Takes-nothing, Takes-append, Takes-IsValid}

-- The keyboard: the discipline's `input` at each character in turn.
unfoldable pub type_all : Discipline → List ℕ → Device → Device
type_all disc [] d = d
type_all disc (c ∷ cs) d = type_all disc cs ((table disc).input_fn d c).1

-- A program that prints: the discipline's `output` at each character in turn.
unfoldable pub print_all : Discipline → List ℕ → Device → Device
print_all disc [] d = d
print_all disc (c ∷ cs) d = print_all disc cs ((table disc).output_fn d c).1

-- `ch` is none of the characters that the cooked discipline handles by itself.
abbrev pub IsOrdinary : Termios → ℕ → Type 0
IsOrdinary t ch =
    (has_flag t.c_lflag ntty_isig && ch == t.c_cc ntty_vintr ≡ false)
    × (has_flag t.c_lflag ntty_isig && ch == t.c_cc ntty_vquit ≡ false)
    × (has_flag t.c_lflag ntty_isig && ch == t.c_cc ntty_vsusp ≡ false)
    × (has_flag t.c_lflag ntty_icanon && ch == t.c_cc ntty_verase ≡ false)
    × (has_flag t.c_lflag ntty_icanon && ch == t.c_cc ntty_vkill ≡ false)
    × (has_flag t.c_lflag ntty_icanon && ch == t.c_cc ntty_veof ≡ false)

abbrev pub AllOrdinary : Termios → List ℕ → Type 0
AllOrdinary t [] = Unit {0}
AllOrdinary t (c ∷ cs) = IsOrdinary t c × AllOrdinary t cs

-- What the echo shows of characters that were buffered.
abbrev pub echoed : Termios → List ℕ → List ℕ
echoed t cs = if has_flag t.c_lflag ntty_echo then cs else []

accept-Takes :
    {d : Device} (ch : ℕ)
    → DeviceIsValid d
    → let c = translate d.termios ch in
      Takes d (c ∷ []) (echoed d.termios (c ∷ [])) (accept_char d ch)
unfolding accept_char
accept-Takes {d} ch v = elim (Bool-cases (has_flag d.termios.c_lflag ntty_echo)) [
  | inl on ↦
      let b = buffer-Takes (translate d.termios ch) v in
      rw on (Takes-append b (echo-Takes (translate d.termios ch) (Takes-IsValid b)))
  | inr off ↦ rw off (buffer-Takes (translate d.termios ch) v)
]

cooked_input_ordinary :
    (d : Device) (ch : ℕ)
    → IsOrdinary d.termios ch
    → cooked_input d ch ≡ (status_success, accept_char d ch)
unfolding cooked_input
cooked_input_ordinary d ch (a, b, c, e, f, g) = rw (a, b, c, e, f, g)

echoed-cons :
    (t : Termios) (c : ℕ) (cs : List ℕ) → echoed t (c ∷ cs) ≡ echoed t (c ∷ []) ++ echoed t cs
echoed-cons t c cs = ground arith

raw_input_buffers : (d : Device) (ch : ℕ) → (raw_input d ch).1 ≡ buffer_char d ch
unfolding raw_input buffer_char
raw_input_buffers d ch = refl

put_output_echoes : (d : Device) (ch : ℕ) → (put_output d ch).1 ≡ echo_char d ch
unfolding put_output echo_char
put_output_echoes d ch = refl

-- Characters that are not special, typed on a cooked terminal, are translated, buffered in order and,
-- if ECHO is set, shown in order; what finds a full buffer is lost, and nothing else changes.
pub type_all-cooked :
    (cs : List ℕ) {d : Device}
    → DeviceIsValid d
    → AllOrdinary d.termios cs
    → let typed = map (translate d.termios) cs in
      Takes d typed (echoed d.termios typed) (type_all cooked_disc cs d)
unfolding type_all accept_char
type_all-cooked [] {d} v o = elim (Bool-cases (has_flag d.termios.c_lflag ntty_echo)) [
  | inl on ↦ rw on (Takes-nothing v)
  | inr off ↦ rw off (Takes-nothing v)
]
type_all-cooked (c ∷ cs) {d} v (o, os) =
    let t : Termios = d.termios in
    let first = accept-Takes c v in
    let same : (accept_char d c).termios ≡ t = ap (λ (e : Device). e.termios) first.frame in
    let rest = type_all-cooked cs (Takes-IsValid first) (rw same os) in
    rw (cooked_input_ordinary d c o, echoed-cons t (translate t c) (map (translate t) cs))
      (Takes-append first (rw same at rest))

-- On a raw terminal every character is buffered as it is, and none is shown.
pub type_all-raw :
    (cs : List ℕ) {d : Device} → DeviceIsValid d → Takes d cs [] (type_all raw_disc cs d)
unfolding type_all
type_all-raw [] v = Takes-nothing v
type_all-raw (c ∷ cs) {d} v =
    let first = buffer-Takes c v in
    rw (raw_input_buffers d c) (Takes-append first (type_all-raw cs (Takes-IsValid first)))

-- What the output processing makes of a character.
unfoldable pub expand : Termios → ℕ → List ℕ
expand t ch =
    if has_flag t.c_oflag ntty_opost && (ch == b'\n' && has_flag t.c_oflag ntty_onlcr)
    then b'\r' ∷ b'\n' ∷ []
    else ch ∷ []

unfoldable pub expand_all : Termios → List ℕ → List ℕ
unfolding expand
expand_all t [] = []
expand_all t (c ∷ cs) = expand t c ++ expand_all t cs

cooked_output-Takes :
    {d : Device} (ch : ℕ)
    → DeviceIsValid d
    → Takes d [] (expand d.termios ch) (cooked_output d ch).1
unfolding cooked_output expand
cooked_output-Takes {d} ch v =
    elim (Bool-cases (
      has_flag d.termios.c_oflag ntty_opost
      && (ch == b'\n' && has_flag d.termios.c_oflag ntty_onlcr))) [
        | inl on ↦
            let first = echo-Takes b'\r' v in
            rw on (Takes-append first (echo-Takes b'\n' (Takes-IsValid first)))
        | inr off ↦ rw off (rw (put_output_echoes d ch) (echo-Takes ch v))
      ]

-- What is printed on a cooked terminal is queued in order with every newline as carriage return and
-- newline, if OPOST and ONLCR are set; what finds a full buffer is lost, and nothing else changes.
pub print_all-cooked :
    (cs : List ℕ) {d : Device}
    → DeviceIsValid d
    → Takes d [] (expand_all d.termios cs) (print_all cooked_disc cs d)
unfolding print_all expand_all
print_all-cooked [] v = Takes-nothing v
print_all-cooked (c ∷ cs) {d} v =
    let first = cooked_output-Takes c v in
    let same : (cooked_output d c).1.termios ≡ d.termios =
      ap (λ (e : Device). e.termios) first.frame in
    Takes-append first (rw same at (print_all-cooked cs (Takes-IsValid first)))
