-- ===== src/Installer/Script.antt =====
-- `run_diskpart` of installer/src/installer.c: the commands that write a script and run it. The command
-- that the function forms first, which would select the disk, is not run.
pub mod Lines
use free_nt.Base.{
  ℕ, ℤ, zero, suc, ◌+◌, ◌-◌, ◌≤◌, ◌<◌, ◌≡◌, ◌≢◌, ◌⊎◌, inl, inr, refl, sym, ◌∙◌, ap, Bool, true,
  false, List, [], ◌∷◌, ◌++◌, map, ◌==◌, ltb, if◌then◌else◌, codes, take, length, arith, Option,
  none, some, Bool-cases,
}
use free_nt.Installer.{Text}

-- What the installer asks of the system.
pub data Action : Type 0 where
  run_command : Text → Action
  remove_file : Text → Action
  -- `MoveFileEx` of C:\Windows to C:\WNT, and `dism` for an image and an index
  move_windows : Action
  apply_image : Text → ℤ → Action
  write_file : Text → Text → Action

-- The room of `cmd`, less the NUL: `snprintf` cuts what it forms.
abbrev pub cmd_room : ℕ
cmd_room = 519

-- The line up to LF, and what is behind that, if there is one.
unfoldable pub cut_line : Text → Text × Option Text
cut_line [] = ([], none)
cut_line (c ∷ cs) = elim (c == b'\n') [
  | true ↦ ([], some cs)
  | false ↦ (let (line, rest) = cut_line cs in (c ∷ line, rest))
]

-- A CR at the end is not part of the line.
unfoldable pub strip_cr : Text → Text
strip_cr [] = []
strip_cr (c ∷ []) = if c == b'\r' then [] else c ∷ []
strip_cr (c ∷ d ∷ ds) = c ∷ strip_cr (d ∷ ds)

abbrev pub put_line : Text → List Text → List Text
put_line [] lines = lines
put_line (c ∷ cs) lines = (c ∷ cs) ∷ lines

-- The loop over the commands: the lines that are put into the script.
unfoldable pub script_lines : ℕ → Text → Option (List Text)
unfolding cut_line strip_cr
script_lines zero p = none
script_lines (suc fuel) [] = some []
script_lines (suc fuel) (c ∷ cs) =
    let (line, rest) = cut_line (c ∷ cs) in
    elim rest [
      | none ↦ some (put_line (strip_cr line) [])
      | some p ↦ elim (script_lines fuel p) [
        | none ↦ none
        | some lines ↦ some (put_line (strip_cr line) lines)
      ]
    ]

unfoldable pub echo_line : (temp_dir line : Text) → Action
echo_line temp_dir line =
    run_command
      (take cmd_room (codes "echo " ++ line ++ codes " >> " ++ temp_dir ++ codes "\\dp_script.txt"))

abbrev pub x_temp : Text
x_temp = codes "X:\\Temp"

abbrev pub temp_dir_of : Option Text → Text
temp_dir_of none = x_temp
temp_dir_of (some dir) = dir

-- `run_diskpart`; `temp` is what `getenv("TEMP")` gives.
unfoldable pub run_diskpart : ℕ → (temp : Option Text) → (commands : Text) → Option (List Action)
unfolding script_lines echo_line
run_diskpart fuel temp commands =
    let temp_dir = temp_dir_of temp in
    elim (script_lines fuel commands) [
      | none ↦ none
      | some lines ↦ some (
          map (echo_line temp_dir) lines
          ++ run_command
              (take cmd_room (codes "diskpart /s " ++ temp_dir ++ codes "\\dp_script.txt"))
            ∷ remove_file (take cmd_room (temp_dir ++ codes "\\dp_script.txt"))
            ∷ [])
    ]
