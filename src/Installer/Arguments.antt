-- ===== src/Installer/Arguments.antt =====
-- The command line of installer/src/installer.c, as `main` reads it.
pub mod Written
use free_nt.Base.{
  ◌≤◌, ◌≡◌, Bool, true, false, ◌||◌, List, [], ◌∷◌, if◌then◌else◌, codes, same_text, pos, take_all,
  length,
}
use free_nt.Installer.{Text, Config, default_config, set_wim_path, read_int}

-- An option that takes a value, and what it does with it.
abbrev pub takes_value : Text → Bool
takes_value arg =
    same_text arg (codes "--disk")
    || same_text arg (codes "--wim")
    || same_text arg (codes "--index")

unfoldable pub set_option : (arg value : Text) → Config → Config
set_option arg value c =
    if same_text arg (codes "--disk")
    then record c { disk_number = read_int value }
    else if same_text arg (codes "--wim")
    then set_wim_path value c
    else if same_text arg (codes "--index")
    then record c { wim_index = read_int value }
    else c

-- An option without a value; what is no option is passed over.
unfoldable pub set_flag_option : (arg : Text) → Config → Config
set_flag_option arg c =
    if same_text arg (codes "--bios")
    then record c { partition_style = b'B' }
    else if same_text arg (codes "--uefi")
    then record c { partition_style = b'U' }
    else if same_text arg (codes "--freent-kernel")
    then record c { freent_kernel = true }
    else c

-- The loop of `main`.
unfoldable pub parse_arguments : List Text → Config → Config
unfolding set_option set_flag_option
parse_arguments [] c = c
parse_arguments (arg ∷ []) c = set_flag_option arg c
parse_arguments (arg ∷ value ∷ args) c = elim (takes_value arg) [
  | true ↦ parse_arguments args (set_option arg value c)
  | false ↦ parse_arguments (value ∷ args) (set_flag_option arg c)
]
