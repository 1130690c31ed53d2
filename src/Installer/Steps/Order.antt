-- ===== src/Installer/Steps/Order.antt =====
-- What the installation of installer/src/installer.c does in its two modes.
use free_nt.Base.{
  suc, ◌≡◌, ◌⊎◌, inl, inr, refl, ◌∙◌, ap, ap₂, Bool, true, false, Option, none, some, List, [], ◌∷◌,
  ◌++◌, map, append_assoc, ◌==◌, if◌then◌else◌, codes, take, length, arith, Bool-cases,
}
use free_nt.Installer.{Text, Config}
use free_nt.Installer.Script.{Action, run_command, remove_file, cmd_room, echo_line, temp_dir_of}
use free_nt.Installer.Script.Lines.{AllLines, run_diskpart-unlines}
use free_nt.Installer.Removal.{until_null, to_remove_files, remove_components}
use free_nt.Installer.Steps.{
  Host, partition_disk, uefi_commands, bios_commands, installer_dir, copy_command, copy_programs,
  install_image, finish_installation, patch_registry, install_shell, write_boot,
  execute_installation, in_order, rename_windows,
}

until_null_runs_on : (xs : List Text) → until_null (map (λ x. some x) xs) ≡ none
unfolding until_null
until_null_runs_on [] = refl
until_null_runs_on (x ∷ xs) = (let rest = until_null_runs_on xs in rw (until_null, rest))

remove_components_faults : remove_components ≡ none
unfolding remove_components
remove_components_faults =
    (let over = until_null_runs_on to_remove_files in rw (remove_components, over))

-- The lines of the script for a style.
abbrev pub partition_lines : Bool → List Text
partition_lines true =
    codes "clean"
    ∷ codes "convert gpt"
    ∷ codes "create partition efi size=100"
    ∷ codes "format quick fs=fat32 label=System"
    ∷ codes "assign letter=S"
    ∷ codes "create partition msr size=16"
    ∷ codes "create partition primary"
    ∷ codes "format quick fs=ntfs label=FreeNT"
    ∷ codes "assign letter=C"
    ∷ []
partition_lines false =
    codes "clean"
    ∷ codes "convert mbr"
    ∷ codes "create partition primary"
    ∷ codes "format quick fs=ntfs label=FreeNT"
    ∷ codes "assign letter=C"
    ∷ codes "active"
    ∷ []

-- The partition script for the text TEMP.
abbrev pub partition_actions : (temp : Option Text) → (uefi : Bool) → List Action
partition_actions temp uefi =
    map (echo_line (temp_dir_of temp)) (partition_lines uefi)
    ++ run_command
        (take cmd_room (codes "diskpart /s " ++ temp_dir_of temp ++ codes "\\dp_script.txt"))
      ∷ remove_file (take cmd_room (temp_dir_of temp ++ codes "\\dp_script.txt"))
      ∷ []

uefi_lines-AllLines : AllLines (partition_lines true)
uefi_lines-AllLines = ground arith

bios_lines-AllLines : AllLines (partition_lines false)
bios_lines-AllLines = ground arith

partition_disk-partition_actions :
    (host : Host) (c : Config)
    → partition_disk host c ≡ some (partition_actions host.temp (c.partition_style == b'U'))
unfolding partition_disk
partition_disk-partition_actions host c = elim (Bool-cases (c.partition_style == b'U')) [
  | inl uefi ↦
      rw (partition_disk, uefi)
        (run_diskpart-unlines false (suc (length uefi_commands)) host.temp (partition_lines true)
          (omega arith) uefi_lines-AllLines)
  | inr bios ↦
      rw (partition_disk, bios)
        (run_diskpart-unlines false (suc (length bios_commands)) host.temp (partition_lines false)
          (omega arith) bios_lines-AllLines)
]

-- The system is asked to do `a`.
abbrev pub Asked : Action → List Action → Type 0
Asked a [] = ⊥
Asked a (b ∷ bs) = (b ≡ a) ⊎ Asked a bs

Asked-left : (a : Action) (xs ys : List Action) → Asked a xs → Asked a (xs ++ ys)
Asked-left a [] ys h = absurd h
Asked-left a (x ∷ xs) ys (inl e) = inl e
Asked-left a (x ∷ xs) ys (inr h) = inr (Asked-left a xs ys h)

Asked-right : (a : Action) (xs ys : List Action) → Asked a ys → Asked a (xs ++ ys)
Asked-right a [] ys h = h
Asked-right a (x ∷ xs) ys h = inr (Asked-right a xs ys h)

-- The programs that the copy of the kernel brings.
abbrev pub kernel_programs : List Text
kernel_programs =
    codes "freedll.dll"
    ∷ codes "ntdylib.dll"
    ∷ codes "freent.exe"
    ∷ codes "liberty.exe"
    ∷ codes "native.exe"
    ∷ []

abbrev pub AllAsked : (Text → Action) → List Text → List Action → Type 0
AllAsked f [] acts = Unit {0}
AllAsked f (x ∷ xs) acts = Asked (f x) acts × AllAsked f xs acts

-- The command that ends the installation.
abbrev pub last_command : (uefi : Bool) → Action
last_command true = run_command (codes "bcdboot C:\\WNT /s S: /f UEFI /l en-us 2>nul")
last_command false = run_command (codes "bootrec /fixboot 2>nul")

-- The disk is partitioned first, all programs are copied, and the boot configuration is written last.
pub record KernelInstalled (host : Host) (c : Config) (out : Option (List Action)) : Type 0 where
  pub between : List Action
  pub returns :
      out
      ≡ some (
          partition_actions host.temp (c.partition_style == b'U')
          ++ between
          ++ last_command (c.partition_style == b'U') ∷ [])
  pub copies : AllAsked (copy_command (installer_dir host)) kernel_programs between

abbrev image_actions : Host → List Action
image_actions host =
    run_command (codes "xcopy /E /I /Y X:\\Windows C:\\WNT 2>nul")
    ∷ map (copy_command (installer_dir host)) kernel_programs

install_image-image_actions :
    (host : Host) (c : Config) → c.freent_kernel ≡ true → install_image host c ≡ image_actions host
unfolding install_image copy_programs
install_image-image_actions host c kernel = rw kernel

abbrev before_last : (uefi : Bool) → List Action
before_last true = []
before_last false =
    run_command (codes "bootsect /nt60 C: /mbr 2>nul")
    ∷ run_command (codes "bootrec /fixmbr 2>nul")
    ∷ []

write_boot-last_command :
    (c : Config)
    → write_boot c
      ≡ before_last (c.partition_style == b'U') ++ last_command (c.partition_style == b'U') ∷ []
unfolding write_boot
write_boot-last_command c = elim (Bool-cases (c.partition_style == b'U')) [
  | inl uefi ↦ rw (write_boot, uefi)
  | inr bios ↦ rw (write_boot, bios)
]

image_copies :
    (host : Host) (more : List Action)
    → AllAsked (copy_command (installer_dir host)) kernel_programs (image_actions host ++ more)
image_copies host more = (
  inr (inl refl),
  (
    inr (inr (inl refl)),
    (
      inr (inr (inr (inl refl))),
      (inr (inr (inr (inr (inl refl)))), (inr (inr (inr (inr (inr (inl refl))))), tt)),
    ),
  ),
)

in_order_runs :
    (host : Host) (c : Config) (partition : List Action)
    → partition_disk host c ≡ some partition
    → execute_installation host c
      ≡ in_order c.freent_kernel partition
          (install_image host c)
          (rename_windows host)
          remove_components
          (finish_installation host c)
unfolding execute_installation
in_order_runs host c partition parted = rw (execute_installation, parted)

in_order_kernel :
    (kernel : Bool) (partition image rename finish : List Action) (removal : Option (List Action))
    → kernel ≡ true
    → in_order kernel partition image rename removal finish ≡ some (partition ++ image ++ finish)
unfolding in_order
in_order_kernel true partition image rename finish removal e = refl
in_order_kernel false partition image rename finish removal e = absurd (cc)

in_order_image :
    (kernel : Bool) (partition image rename finish : List Action) (removal : Option (List Action))
    → kernel ≡ false
    → removal ≡ none
    → in_order kernel partition image rename removal finish ≡ none
unfolding in_order
in_order_image true partition image rename finish removal e over = absurd (cc)
in_order_image false partition image rename finish removal e over = rw (in_order, over)

-- With an image, or with no image and no copy of the kernel, the installation reads behind an array.
pub execute_installation_faults :
    (host : Host) (c : Config) → c.freent_kernel ≡ false → execute_installation host c ≡ none
execute_installation_faults host c image =
    in_order_runs host c _ (partition_disk-partition_actions host c)
    ∙ in_order_image c.freent_kernel _ _ _ _ _ image remove_components_faults

-- What comes before the last command.
abbrev middle : Host → Config → List Action
middle host c =
    patch_registry host
    ++ (if c.freent_kernel then [] else copy_programs (installer_dir host))
    ++ install_shell host
    ++ before_last (c.partition_style == b'U')

finish_installation-last_command :
    (host : Host) (c : Config)
    → finish_installation host c ≡ middle host c ++ last_command (c.partition_style == b'U') ∷ []
unfolding finish_installation
finish_installation-last_command host c =
    let last : List Action = last_command (c.partition_style == b'U') ∷ [] in
    let before : List Action = before_last (c.partition_style == b'U') in
    let copies : List Action = if c.freent_kernel then [] else copy_programs (installer_dir host) in
    ap (λ t. patch_registry host ++ copies ++ install_shell host ++ t) (write_boot-last_command c)
    ∙ simp (append_assoc)

regroup :
    (parts image mid last : List Action)
    → (parts ++ image) ++ (mid ++ last) ≡ (parts ++ (image ++ mid)) ++ last
regroup parts image mid last = simp (append_assoc)

-- The copy of the kernel returns: the disk is partitioned by the script for its style first, then all programs
-- are copied, and the boot configuration for the style is written last.
pub execute_installation-KernelInstalled :
    (host : Host) (c : Config)
    → c.freent_kernel ≡ true
    → KernelInstalled host c (execute_installation host c)
execute_installation-KernelInstalled host c kernel =
    let image : List Action = image_actions host in
    let last : List Action = last_command (c.partition_style == b'U') ∷ [] in
    let parts : List Action = partition_actions host.temp (c.partition_style == b'U') in
    record {
      between = image ++ middle host c;
      returns =
          in_order_runs host c _ (partition_disk-partition_actions host c)
          ∙ in_order_kernel c.freent_kernel _ _ _ _ _ kernel
          ∙ ap₂ (λ x y. some ((parts ++ x) ++ y)) (install_image-image_actions host c kernel)
              (finish_installation-last_command host c)
          ∙ ap (λ t. some t) (regroup parts image (middle host c) last);
      copies = image_copies host (middle host c);
    }
