-- ===== src/Installer/Patches.antt =====
-- The copy of a registry file with other keys, in `execute_installation` of installer/src/installer.c.
use free_nt.Base.{
  ℕ, zero, suc, ◌≤◌, ◌<◌, ◌≡◌, refl, ◌∙◌, ap, true, false, List, [], ◌∷◌, ◌++◌, ◌==◌, if◌then◌else◌,
  codes, length, length-append, arith, starts_with, drop,
}
use free_nt.Installer.{Text, HasNoLf}

-- `fgets` with `room` characters for a line: the line with its LF, or as much of it as fits, and the rest.
unfoldable pub fgets : (room : ℕ) → Text → Text × Text
fgets zero cs = ([], cs)
fgets (suc room) [] = ([], [])
fgets (suc room) (c ∷ cs) = elim (c == b'\n') [
  | true ↦ (c ∷ [], cs)
  | false ↦ (let (line, rest) = fgets room cs in (c ∷ line, rest))
]

-- `line` has 512 characters with the NUL.
abbrev pub line_room : ℕ
line_room = 511

abbrev pub local_machine : Text
local_machine = codes "[HKEY_LOCAL_MACHINE\\"

-- What is written for a line: a key of the machine goes to the hive that is loaded.
unfoldable pub redirect : Text → Text
redirect line =
    if starts_with local_machine line
    then codes "[HKEY_LOCAL_MACHINE\\FreeNT_System\\" ++ drop 20 line
    else line

-- The loop over the file, on fuel.
unfoldable pub patch_file : ℕ → (room : ℕ) → Text → Text
unfolding fgets redirect
patch_file zero room src = []
patch_file (suc fuel) room [] = []
patch_file (suc fuel) room (c ∷ cs) =
    let (line, rest) = fgets room (c ∷ cs) in redirect line ++ patch_file fuel room rest

-- A line of a registry file: a key of the machine, or one that does not begin like these.
pub data Line : Type 0 where
  machine_key other : Text → Line

-- The file before and after.
abbrev pub line_before : Line → Text
line_before (machine_key k) = codes "[HKEY_LOCAL_MACHINE\\" ++ k ++ b'\n' ∷ []
line_before (other t) = t ++ b'\n' ∷ []

abbrev pub line_after : Line → Text
line_after (machine_key k) = codes "[HKEY_LOCAL_MACHINE\\FreeNT_System\\" ++ k ++ b'\n' ∷ []
line_after (other t) = t ++ b'\n' ∷ []

abbrev pub IsRegistryLine : Line → Type 0
IsRegistryLine (machine_key k) = HasNoLf k × (length k < 491)
IsRegistryLine (other t) =
    HasNoLf t × (length t < 511) × (starts_with local_machine (t ++ b'\n' ∷ []) ≡ false)

abbrev pub AllRegistryLines : List Line → Type 0
AllRegistryLines [] = Unit {0}
AllRegistryLines (l ∷ ls) = IsRegistryLine l × AllRegistryLines ls

abbrev pub joined : (Line → Text) → List Line → Text
joined f [] = []
joined f (l ∷ ls) = f l ++ joined f ls

fgets-HasNoLf :
    (room : ℕ) (l rest : Text)
    → HasNoLf l
    → length l < room
    → fgets room ((l ++ b'\n' ∷ []) ++ rest) ≡ (l ++ b'\n' ∷ [], rest)
unfolding fgets
fgets-HasNoLf zero l rest h few = absurd (omega arith)
fgets-HasNoLf (suc room) [] rest h few = refl
fgets-HasNoLf (suc room) (c ∷ cs) rest h few =
    let other : c == b'\n' ≡ false = ground arith in
    let behind = fgets-HasNoLf room cs rest h.1 (omega arith) in rw (fgets, other, behind)

patch_round :
    (fuel : ℕ) (line rest : Text)
    → HasNoLf line
    → length line < 511
    → patch_file (suc fuel) 511 ((line ++ b'\n' ∷ []) ++ rest)
      ≡ redirect (line ++ b'\n' ∷ []) ++ patch_file fuel 511 rest
unfolding patch_file
patch_round fuel [] rest h few = refl
patch_round fuel (c ∷ cs) rest h few =
    let cut = fgets-HasNoLf 511 (c ∷ cs) rest h few in rw (patch_file, cut)

HasNoLf-append : (s t : Text) → HasNoLf s → HasNoLf t → HasNoLf (s ++ t)
HasNoLf-append [] t h k = k
HasNoLf-append (c ∷ cs) t h k = (h.0, HasNoLf-append cs t h.1 k)

local_machine-HasNoLf : HasNoLf local_machine
local_machine-HasNoLf = ground arith

redirect_other : (t : Text) → starts_with local_machine t ≡ false → redirect t ≡ t
unfolding redirect
redirect_other t h = rw (redirect, h)

redirect_key :
    (k : Text) → redirect (local_machine ++ k) ≡ codes "[HKEY_LOCAL_MACHINE\\FreeNT_System\\" ++ k
unfolding redirect
redirect_key k = refl

patch_line :
    (fuel : ℕ) (l : Line) (rest : Text)
    → IsRegistryLine l
    → patch_file (suc fuel) 511 (line_before l ++ rest) ≡ line_after l ++ patch_file fuel 511 rest
patch_line fuel (other t) rest h =
    patch_round fuel t rest h.0 h.1
    ∙ ap (λ x. x ++ patch_file fuel 511 rest) (redirect_other (t ++ b'\n' ∷ []) h.2)
patch_line fuel (machine_key k) rest h =
    let size : length (local_machine ++ k) < 511 =
      omega (arith, length-append local_machine k, h.1) in
    patch_round fuel (local_machine ++ k) rest
      (HasNoLf-append local_machine k local_machine-HasNoLf h.0) size
    ∙ ap (λ x. x ++ patch_file fuel 511 rest) (redirect_key (k ++ b'\n' ∷ []))

-- With as much fuel as there are lines, a file of lines that fit the buffer is copied whole: the keys of the
-- machine go to the hive that is loaded, under the rest of their names, and the other lines are as they were.
pub patch_file-joined :
    (fuel : ℕ) (ls : List Line)
    → length ls ≤ fuel
    → AllRegistryLines ls
    → patch_file fuel 511 (joined line_before ls) ≡ joined line_after ls
unfolding patch_file
patch_file-joined zero [] enough h = refl
patch_file-joined zero (l ∷ ls) enough h = absurd (omega arith)
patch_file-joined (suc fuel) [] enough h = refl
patch_file-joined (suc fuel) (l ∷ ls) enough h =
    patch_line fuel l (joined line_before ls) h.0
    ∙ ap (λ t. line_after l ++ t) (patch_file-joined fuel ls (omega arith) h.1)
