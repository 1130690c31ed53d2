-- ===== src/Installer.antt =====
-- The installer, installer/src/installer.c: the configuration that its command line and its screens fill
-- in, and what the screens share. A string is the list of its characters before the NUL.
pub mod Screens
pub mod Arguments
pub mod Script
pub mod Patches
pub mod Removal
pub mod Steps
mod Tests
use free_nt.Base.{
  ℕ, ◌≢◌, ◌-◌, Bool, true, false, ◌||◌, List, [], ◌∷◌, ◌==◌, leb, ltb, if◌then◌else◌, take, codes,
  ◌&&◌, ◌*◌, ◌+◌, ℤ, pos, sub_ℕ, min, get_or, length,
}

abbrev pub Text : Type 0
Text = List ℕ

abbrev pub max_disks : ℕ
max_disks = 32

abbrev pub max_path_len : ℕ
max_path_len = 260

-- `config`; the style of the partitions is the letter U or B.
pub record Config : Type 0 where
  pub disk_number : ℤ
  pub partition_style : ℕ
  pub wim_path : Text
  pub wim_index : ℤ
  pub step : ℤ
  pub freent_kernel : Bool

-- The values that `main` starts from.
abbrev pub default_config : Config
default_config = record {
  disk_number = pos 0;
  partition_style = b'U';
  wim_path = [];
  wim_index = pos 1;
  step = pos 0;
  freent_kernel = false;
}

-- An element of `disks`; its size and whether it is removable are never set.
pub record Disk : Type 0 where
  pub number : ℤ
  pub model : Text

-- `strncpy(config.wim_path, path, MAX_PATH_LEN - 1)` and the NUL behind it
abbrev pub set_wim_path : Text → Config → Config
set_wim_path path c = record c { wim_path = take (max_path_len - 1) path }

-- The characters that `atoi` of the C library skips.
abbrev pub is_space : ℕ → Bool
is_space c = c == b' ' || leb 9 c && leb c 13

unfoldable pub skip_spaces : Text → Text
skip_spaces [] = []
skip_spaces (c ∷ cs) = let rest = skip_spaces cs in if is_space c then rest else c ∷ cs

unfoldable pub read_digits : Text → ℕ → ℕ
read_digits [] n = n
read_digits (c ∷ cs) n =
    let rest = read_digits cs (n * 10 + (c - b'0')) in if leb b'0' c && leb c b'9' then rest else n

abbrev pub read_signed : Text → ℤ
read_signed [] = pos 0
read_signed (c ∷ cs) =
    if c == b'-'
    then sub_ℕ 0 (read_digits cs 0)
    else if c == b'+'
    then pos (read_digits cs 0)
    else pos (read_digits (c ∷ cs) 0)

-- `atoi` of the C library, whose result is open beyond the range of `int`.
unfoldable pub read_int : Text → ℤ
unfolding skip_spaces read_digits
read_int s = read_signed (skip_spaces s)

-- `trim_newline`: the loop takes CR and LF off the end.
unfoldable pub trim_newline : Text → Text
trim_newline [] = []
trim_newline (c ∷ cs) = elim (trim_newline cs) [
  | [] ↦ if c == b'\n' || c == b'\r' then [] else c ∷ []
  | d ∷ ds ↦ c ∷ d ∷ ds
]

-- A line has no LF but the one behind it.
abbrev pub HasNoLf : Text → Type 0
HasNoLf [] = Unit {0}
HasNoLf (c ∷ cs) = (c ≢ b'\n') × HasNoLf cs
