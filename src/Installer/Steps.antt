-- ===== src/Installer/Steps.antt =====
-- `execute_installation` of installer/src/installer.c: what it asks of the system, in order. Messages on the
-- screen are left out.

pub mod Order
use free_nt.Base.{
  ℕ, suc, ◌-◌, Bool, true, false, Option, none, some, List, [], ◌∷◌, ◌++◌, ◌==◌, if◌then◌else◌,
  codes, take, length, drop, not,
}
use free_nt.Installer.{Text, Config, max_path_len}
use free_nt.Installer.Script.{
  Action, run_command, remove_file, move_windows, write_file, apply_image, cmd_room, run_diskpart,
  temp_dir_of,
}
use free_nt.Installer.Patches.{patch_file, line_room}
use free_nt.Installer.Removal.{remove_components}

-- What the system answers: TEMP, `_pgmptr`, `_fullpath`, the files that can be read and written, whether
-- C:\Windows is there and whether it can be moved.
pub record Host : Type 0 where
  pub temp : Option Text
  pub program : Option Text
  pub full_path : Text → Text
  pub reads : Text → Option Text
  pub writes : Text → Bool
  pub has_windows : Bool
  pub moves_windows : Bool

-- The path before the last backslash.
unfoldable pub before_backslash : Text → Option Text
before_backslash [] = none
before_backslash (c ∷ cs) = elim (before_backslash cs) [
  | some dir ↦ some (c ∷ dir)
  | none ↦ if c == 0x5C then some [] else none
]

abbrev pub or_whole : Text → Option Text → Text
or_whole path none = path
or_whole path (some dir) = dir

-- `installer_dir`
unfoldable pub installer_dir : Host → Text
unfolding before_backslash
installer_dir host = elim host.program [
  | none ↦ codes ".\\"
  | some [] ↦ codes ".\\"
  | some (c ∷ cs) ↦ (let path = host.full_path (c ∷ cs) in or_whole path (before_backslash path))
]

abbrev pub uefi_commands : Text
uefi_commands =
    codes "clean\nconvert gpt\ncreate partition efi size=100\n"
    ++ codes "format quick fs=fat32 label=System\nassign letter=S\ncreate partition msr size=16\n"
    ++ codes "create partition primary\nformat quick fs=ntfs label=FreeNT\nassign letter=C\n"

abbrev pub bios_commands : Text
bios_commands =
    codes "clean\nconvert mbr\ncreate partition primary\n"
    ++ codes "format quick fs=ntfs label=FreeNT\nassign letter=C\nactive\n"

-- Step 1; the fuel is one more than the characters of the commands.
unfoldable pub partition_disk : Host → Config → Option (List Action)
partition_disk host c =
    let commands = if c.partition_style == b'U' then uefi_commands else bios_commands in
    run_diskpart (suc (length commands)) host.temp commands

unfoldable pub copy_command : (dir file : Text) → Action
copy_command dir file = run_command (
    take cmd_room
      (codes "xcopy /Y \"" ++ dir ++ codes "\\" ++ file ++ codes "\" C:\\WNT\\System32\\ 2>nul"))

-- The programs of FreeNT.
unfoldable pub copy_programs : (dir : Text) → List Action
unfolding copy_command
copy_programs dir =
    copy_command dir (codes "freedll.dll")
    ∷ copy_command dir (codes "ntdylib.dll")
    ∷ copy_command dir (codes "freent.exe")
    ∷ copy_command dir (codes "liberty.exe")
    ∷ []

-- Step 2
unfoldable pub install_image : Host → Config → List Action
install_image host c =
    if c.freent_kernel
    then run_command (codes "xcopy /E /I /Y X:\\Windows C:\\WNT 2>nul")
      ∷ (copy_programs (installer_dir host)
          ++ copy_command (installer_dir host) (codes "native.exe") ∷ [])
    else elim c.wim_path [ [] ↦ [] | d ∷ ds ↦ apply_image (d ∷ ds) c.wim_index ∷ [] ]

-- Step 3
unfoldable pub rename_windows : Host → List Action
rename_windows host =
    if host.has_windows
    then move_windows
      ∷ (if host.moves_windows then [] else run_command (codes "rename C:\\Windows WNT") ∷ [])
    else []

-- The path of a registry file, which the array names from `.\`.
unfoldable pub registry_path : Host → (file : Text) → Text
unfolding before_backslash
registry_path host file = elim host.program [
  | none ↦ take (max_path_len - 1) file
  | some [] ↦ take (max_path_len - 1) file
  | some (c ∷ cs) ↦ elim (before_backslash (take (max_path_len - 1) (c ∷ cs))) [
    | none ↦ take (max_path_len - 1) file
    | some dir ↦ take (max_path_len - 1) (dir ++ codes "\\patches\\" ++ drop 2 file)
  ]
]

-- One round of step 5 for the file with that number.
unfoldable pub import_registry : Host → (file number : Text) → List Action
unfolding registry_path
import_registry host file number = elim (host.reads (registry_path host file)) [
  | none ↦ []
  | some content ↦
      (let temp_path =
          take cmd_room
            (temp_dir_of host.temp ++ codes "\\freent_patch_" ++ number ++ codes ".reg") in
        if host.writes temp_path
        then write_file temp_path (patch_file (length content) line_room content)
          ∷ run_command (take cmd_room (codes "reg import \"" ++ temp_path ++ codes "\" 2>nul"))
          ∷ remove_file temp_path
          ∷ []
        else [])
]

-- Step 5
unfoldable pub patch_registry : Host → List Action
unfolding import_registry
patch_registry host =
    run_command (codes "reg load HKLM\\FreeNT_System C:\\WNT\\System32\\config\\SYSTEM 2>nul")
    ∷ (import_registry host (codes ".\\patches\\osname.reg") (codes "0")
        ++ import_registry host (codes ".\\patches\\smss.reg") (codes "1")
        ++ import_registry host (codes ".\\patches\\systemroot.reg") (codes "2")
        ++ run_command (codes "reg unload HKLM\\FreeNT_System 2>nul") ∷ [])

-- Step 7
unfoldable pub install_shell : Host → List Action
install_shell host =
    copy_command (installer_dir host) (codes "native.exe")
    ∷ run_command (
        take cmd_room (
          codes "reg import \""
          ++ installer_dir host
          ++ codes "\\nativeshell\\install\\add.reg\" 2>nul"))
    ∷ []

unfoldable pub write_boot : Config → List Action
write_boot c =
    if c.partition_style == b'U'
    then run_command (codes "bcdboot C:\\WNT /s S: /f UEFI /l en-us 2>nul") ∷ []
    else run_command (codes "bootsect /nt60 C: /mbr 2>nul")
      ∷ run_command (codes "bootrec /fixmbr 2>nul")
      ∷ run_command (codes "bootrec /fixboot 2>nul")
      ∷ []

-- The steps behind the removal of components.
unfoldable pub finish_installation : Host → Config → List Action
unfolding patch_registry install_shell write_boot
finish_installation host c =
    patch_registry host
    ++ (if c.freent_kernel then [] else copy_programs (installer_dir host))
    ++ install_shell host
    ++ write_boot c

-- The steps in their order: the copy of the kernel leaves out the third and the fourth.
unfoldable pub in_order :
    (kernel : Bool)
    → (partition image rename : List Action) → (removal : Option (List Action))
    → (finish : List Action) → Option (List Action)
in_order true partition image rename removal finish = some (partition ++ image ++ finish)
in_order false partition image rename none finish = none
in_order false partition image rename (some removed) finish =
    some (partition ++ image ++ rename ++ removed ++ finish)

-- `execute_installation`
unfoldable pub execute_installation : Host → Config → Option (List Action)
unfolding partition_disk install_image rename_windows finish_installation in_order
execute_installation host c = elim (partition_disk host c) [
  | none ↦ none
  | some partition ↦
      in_order c.freent_kernel partition (install_image host c) (rename_windows host)
        remove_components (finish_installation host c)
]
