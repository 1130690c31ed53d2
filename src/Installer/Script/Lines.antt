-- ===== src/Installer/Script/Lines.antt =====
-- The script that `run_diskpart` of installer/src/installer.c writes, for commands given line by line.
use std.Path.{subst}
use free_nt.Base.{
  ℕ, zero, suc, ◌<◌, ◌≡◌, ◌≢◌, refl, sym, ap, Bool, true, false, Option, some, List, [], ◌∷◌, ◌++◌,
  map, ◌==◌, codes, take, length, arith,
}
use free_nt.Installer.{Text, HasNoLf}
use free_nt.Installer.Script.{
  run_command, remove_file, cmd_room, cut_line, strip_cr, put_line, script_lines, echo_line,
  run_diskpart, temp_dir_of,
}

-- A line of a script: no LF, and a last character that is no CR.
abbrev pub IsLine : Text → Type 0
IsLine [] = ⊥
IsLine (c ∷ []) = (c ≢ b'\n') × (c ≢ b'\r')
IsLine (c ∷ d ∷ ds) = (c ≢ b'\n') × IsLine (d ∷ ds)

abbrev pub AllLines : List Text → Type 0
AllLines [] = Unit {0}
AllLines (l ∷ ls) = IsLine l × AllLines ls

-- The lines one after the other, with CR LF or LF behind each.
abbrev pub unlines : (crlf : Bool) → List Text → Text
unlines crlf [] = []
unlines true (l ∷ ls) = (l ++ b'\r' ∷ []) ++ b'\n' ∷ unlines true ls
unlines false (l ∷ ls) = l ++ b'\n' ∷ unlines false ls

cut_line-HasNoLf : (l rest : Text) → HasNoLf l → cut_line (l ++ b'\n' ∷ rest) ≡ (l, some rest)
unfolding cut_line
cut_line-HasNoLf [] rest h = refl
cut_line-HasNoLf (c ∷ cs) rest h =
    let other : c == b'\n' ≡ false = ground arith in
    let behind = cut_line-HasNoLf cs rest h.1 in rw (cut_line, other, behind)

IsLine-HasNoLf : (l : Text) → IsLine l → HasNoLf l
IsLine-HasNoLf [] h = absurd h
IsLine-HasNoLf (c ∷ []) h = (h.0, tt)
IsLine-HasNoLf (c ∷ d ∷ ds) h = (h.0, IsLine-HasNoLf (d ∷ ds) h.1)

cr-HasNoLf : (l : Text) → HasNoLf l → HasNoLf (l ++ b'\r' ∷ [])
cr-HasNoLf [] h = (omega arith, tt)
cr-HasNoLf (c ∷ cs) h = (h.0, cr-HasNoLf cs h.1)

strip_cr-IsLine : (l : Text) → IsLine l → strip_cr l ≡ l
unfolding strip_cr
strip_cr-IsLine [] h = absurd h
strip_cr-IsLine (c ∷ []) h = (let other : c == b'\r' ≡ false = ground arith in rw other)
strip_cr-IsLine (c ∷ d ∷ ds) h = ap (λ t. c ∷ t) (strip_cr-IsLine (d ∷ ds) h.1)

strip_cr-append : (l : Text) → strip_cr (l ++ b'\r' ∷ []) ≡ l
unfolding strip_cr
strip_cr-append [] = refl
strip_cr-append (c ∷ []) = refl
strip_cr-append (c ∷ d ∷ ds) = ap (λ t. c ∷ t) (strip_cr-append (d ∷ ds))

put_line-IsLine : (l : Text) (ls : List Text) → IsLine l → put_line l ls ≡ l ∷ ls
put_line-IsLine [] ls h = absurd h
put_line-IsLine (c ∷ cs) ls h = refl

-- One round of the loop on a line with LF behind it.
script_round :
    (fuel : ℕ) (l t rest : Text) (ls : List Text)
    → HasNoLf t
    → strip_cr t ≡ l
    → IsLine l
    → script_lines fuel rest ≡ some ls
    → script_lines (suc fuel) (t ++ b'\n' ∷ rest) ≡ some (l ∷ ls)
unfolding script_lines strip_cr
script_round fuel l [] rest ls plain strips line ran =
    absurd (subst (λ t. IsLine t) (sym strips) line)
script_round fuel l (c ∷ cs) rest ls plain strips line ran =
    let cut = cut_line-HasNoLf (c ∷ cs) rest plain in
    rw (script_lines, cut, ran, cut, strips) (ap (λ x. some x) (put_line-IsLine l ls line))

script_lines-unlines :
    (crlf : Bool) (fuel : ℕ) (ls : List Text)
    → length ls < fuel
    → AllLines ls
    → script_lines fuel (unlines crlf ls) ≡ some ls
unfolding script_lines
script_lines-unlines crlf zero ls enough h = absurd (omega arith)
script_lines-unlines crlf (suc fuel) [] enough h = refl
script_lines-unlines true (suc fuel) (l ∷ ls) enough h =
    script_round fuel l (l ++ b'\r' ∷ []) (unlines true ls) ls (cr-HasNoLf l (IsLine-HasNoLf l h.0))
      (strip_cr-append l) h.0 (script_lines-unlines true fuel ls (omega arith) h.1)
script_lines-unlines false (suc fuel) (l ∷ ls) enough h =
    script_round fuel l l (unlines false ls) ls (IsLine-HasNoLf l h.0) (strip_cr-IsLine l h.0) h.0
      (script_lines-unlines false fuel ls (omega arith) h.1)

-- With more fuel than there are lines, commands with CR LF or LF behind each line are put into the script line by
-- line, in order; then the script is run and removed.
pub run_diskpart-unlines :
    (crlf : Bool) (fuel : ℕ) (temp : Option Text) (ls : List Text)
    → length ls < fuel
    → AllLines ls
    → run_diskpart fuel temp (unlines crlf ls)
      ≡ some (
          map (echo_line (temp_dir_of temp)) ls
          ++ run_command
              (take cmd_room (codes "diskpart /s " ++ temp_dir_of temp ++ codes "\\dp_script.txt"))
            ∷ remove_file (take cmd_room (temp_dir_of temp ++ codes "\\dp_script.txt"))
            ∷ [])
unfolding run_diskpart
run_diskpart-unlines crlf fuel temp ls enough h =
    let ran = script_lines-unlines crlf fuel ls enough h in rw (run_diskpart, ran)
