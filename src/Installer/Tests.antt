-- ===== src/Installer/Tests.antt =====
-- Runs of installer/src/installer.c.
use free_nt.Base.{
  ◌≡◌, refl, true, false, none, some, List, [], ◌∷◌, ◌++◌, codes, pos, negsuc, arith, map, take,
}
use free_nt.Installer.{Text, Config, Disk, default_config, read_int, trim_newline}
use free_nt.Installer.Screens.{Key, key_down, key_enter, key_char, select_disk, wizard}
use free_nt.Installer.Screens.Confirmed.{Confirmed, wizard-Confirmed}
use free_nt.Installer.Arguments.{parse_arguments}
use free_nt.Installer.Arguments.Written.{
  Opt, disk, word, wim, bios, AreWritable, command_line, parse_arguments-command_line,
}
use free_nt.Installer.Script.{
  run_command, remove_file, cmd_room, echo_line, run_diskpart, temp_dir_of,
}
use free_nt.Installer.Script.Lines.{unlines, run_diskpart-unlines}
use free_nt.Installer.Patches.{
  patch_file, Line, machine_key, other, line_before, line_after, joined, patch_file-joined,
}
use free_nt.Installer.Steps.{Host, execute_installation}
use free_nt.Installer.Steps.Order.{
  KernelInstalled, execute_installation_faults, execute_installation-KernelInstalled,
}

abbrev two_disks : List Disk
two_disks =
    record { number = pos 0; model = codes "A" } ∷ record { number = pos 3; model = codes "B" } ∷ []

-- The second disk, a BIOS, no image, the index 2.
abbrev presses : List Key
presses = key_down ∷ key_enter ∷ key_down ∷ key_enter ∷ key_char b' ' ∷ []

abbrev confirmed : Config
confirmed = record default_config {
  disk_number = pos 3;
  partition_style = b'B';
  wim_path = [];
  wim_index = pos 2;
}

abbrev entered : List Text
entered = codes "skip" ∷ codes "2" ∷ []

wizard-Confirmed_example : Confirmed two_disks default_config confirmed
unfolding wizard select_disk trim_newline read_int
wizard-Confirmed_example =
    wizard-Confirmed (λ t. false) two_disks presses entered default_config confirmed [] refl

-- Disk 12, then disk -3, which stays; a word that is no option; an image; the style of a BIOS.
abbrev options : List Opt
options =
    disk (record { negative = false; digits = 1 ∷ 2 ∷ [] })
    ∷ word (codes "--help")
    ∷ wim (codes "D:\\a.wim")
    ∷ disk (record { negative = true; digits = 3 ∷ [] })
    ∷ bios
    ∷ []

options-AreWritable : AreWritable options
options-AreWritable = (
  ((omega arith, (omega arith, tt)), omega arith),
  ((refl, refl, refl, refl), (omega arith, (((omega arith, tt), omega arith), (tt, tt)))),
)

parse_arguments-command_line_example :
    parse_arguments (command_line options) default_config ≡ record default_config {
      disk_number = negsuc 2;
      partition_style = b'B';
      wim_path = codes "D:\\a.wim";
    }
parse_arguments-command_line_example =
    parse_arguments-command_line options default_config options-AreWritable

abbrev two_lines : List Text
two_lines = codes "clean" ∷ codes "active" ∷ []

run_diskpart-unlines_example :
    run_diskpart 3 none (unlines true two_lines)
    ≡ some (
        map (echo_line (temp_dir_of none)) two_lines
        ++ run_command
            (take cmd_room (codes "diskpart /s " ++ temp_dir_of none ++ codes "\\dp_script.txt"))
          ∷ remove_file (take cmd_room (temp_dir_of none ++ codes "\\dp_script.txt"))
          ∷ [])
run_diskpart-unlines_example =
    run_diskpart-unlines true 3 none two_lines (omega arith) (ground arith)

abbrev registry : List Line
registry = other (codes "") ∷ machine_key (codes "SYSTEM]") ∷ other (codes "\"a\"=\"b\"") ∷ []

patch_file-joined_example :
    patch_file 3 511 (joined line_before registry) ≡ joined line_after registry
patch_file-joined_example = patch_file-joined 3 registry (omega arith) (ground arith)

abbrev host : Host
host = record {
  temp = none;
  program = some (codes "X:\\freent\\installer.exe");
  full_path = λ p. p;
  reads = λ p. none;
  writes = λ p. true;
  has_windows = true;
  moves_windows = true;
}

abbrev kernel_mode : Config
kernel_mode = record default_config { freent_kernel = true }

execute_installation_faults_example : execute_installation host default_config ≡ none
execute_installation_faults_example = execute_installation_faults host default_config refl

execute_installation-KernelInstalled_example :
    KernelInstalled host kernel_mode (execute_installation host kernel_mode)
execute_installation-KernelInstalled_example =
    execute_installation-KernelInstalled host kernel_mode refl
