-- ===== src/Installer/Screens.antt =====
-- The screens of installer/src/installer.c, on the keys that are pressed and the lines that are entered.
-- Drawing has no effect on the configuration, nor have the keys that only close a message.
pub mod Selection
pub mod Confirmed
use free_nt.Base.{
  ℕ, ◌+◌, ◌-◌, Bool, true, false, ◌||◌, not, Option, none, some, List, [], ◌∷◌, ◌==◌, ltb, leb,
  if◌then◌else◌, ◌&&◌, ℤ, pos, negsuc, get_or, length, map, codes, same_text, take, is_negative,
}
use free_nt.Installer.{Text, Config, Disk, set_wim_path, read_int, trim_newline, max_path_len}

-- What `getch` returns.
pub data Key : Type 0 where
  key_up key_down key_enter : Key
  key_char : ℕ → Key

-- What a screen comes to: the configuration and the input that is left, `exit`, or no more input.
pub data Outcome (A : Type 0) : Type 0 where
  chosen : Config → List A → Outcome A
  exited waits : Outcome A

abbrev pub is_enter : Key → Bool
is_enter key_up = false
is_enter key_down = false
is_enter key_enter = true
is_enter (key_char c) = c == b'\n'

abbrev pub is_quit : Key → Bool
is_quit key_up = false
is_quit key_down = false
is_quit key_enter = false
is_quit (key_char c) = c == b'q' || c == b'Q'

-- The line that is marked after a key.
unfoldable pub next_highlight : (num_disks highlight : ℕ) → Key → ℕ
next_highlight num_disks highlight key_up = if ltb 0 highlight then highlight - 1 else highlight
next_highlight num_disks highlight key_down =
    if ltb (highlight + 1) num_disks && ltb highlight 14 then highlight + 1 else highlight
next_highlight num_disks highlight key_enter = highlight
next_highlight num_disks highlight (key_char c) = highlight

-- `disks[highlight].number`: an element that no disk was put into is 0.
abbrev pub disk_at : List Disk → ℕ → ℤ
disk_at disks highlight = get_or (map (λ d. d.number) disks) highlight (pos 0)

-- `screen_disk_selection`, with the line `highlight` marked.
unfoldable pub select_disk : List Disk → (highlight : ℕ) → List Key → Config → Outcome Key
unfolding next_highlight
select_disk disks highlight [] c = waits
select_disk disks highlight (k ∷ ks) c = elim (is_enter k) [
  | true ↦ chosen (record c { disk_number = disk_at disks highlight }) ks
  | false ↦ elim (is_quit k) [
    | true ↦ exited
    | false ↦ select_disk disks (next_highlight (length disks) highlight k) ks c
  ]
]

abbrev pub screen_disk_selection : List Disk → List Key → Config → Outcome Key
screen_disk_selection disks ks c = select_disk disks 0 ks c

abbrev pub next_choice : (choice : ℕ) → Key → ℕ
next_choice choice key_up = 0
next_choice choice key_down = 1
next_choice choice key_enter = choice
next_choice choice (key_char c) = choice

-- `screen_partition_style`, with `choice` marked.
unfoldable pub select_style : (choice : ℕ) → List Key → Config → Outcome Key
select_style choice [] c = waits
select_style choice (k ∷ ks) c = elim (is_enter k) [
  | true ↦ chosen (record c { partition_style = if choice == 0 then b'U' else b'B' }) ks
  | false ↦ elim (is_quit k) [ true ↦ exited | false ↦ select_style (next_choice choice k) ks c ]
]

unfoldable pub screen_partition_style : List Key → Config → Outcome Key
unfolding select_style
screen_partition_style ks c = select_style (if c.partition_style == b'B' then 1 else 0) ks c

-- `strcasecmp(a, b) == 0`
abbrev pub fold_case : ℕ → ℕ
fold_case c = if leb b'A' c && leb c b'Z' then c + 32 else c

abbrev pub same_word : Text → Text → Bool
same_word a b = same_text (map fold_case a) (map fold_case b)

abbrev pub drives : List Text
drives =
    codes "D:\\sources\\install.wim"
    ∷ codes "E:\\sources\\install.wim"
    ∷ codes "F:\\sources\\install.wim"
    ∷ codes "X:\\sources\\install.wim"
    ∷ []

-- The search for an image: `opens` says which files `fopen` opens.
unfoldable pub scan_drives : (opens : Text → Bool) → List Text → Config → Config
scan_drives opens [] c = c
scan_drives opens (d ∷ ds) c =
    let rest = scan_drives opens ds c in if opens d then set_wim_path d c else rest

-- The first loop of `screen_dism_config`, on what `getnstr` reads.
unfoldable pub enter_path : (opens : Text → Bool) → List Text → Config → Outcome Text
unfolding scan_drives
enter_path opens [] c = waits
enter_path opens (line ∷ lines) c =
    let input = trim_newline (take (max_path_len - 1) line) in
    elim (same_word input (codes "scan")) [
      | true ↦ enter_path opens lines (scan_drives opens drives c)
      | false ↦
          if same_word input (codes "skip")
          then chosen (record c { wim_path = [] }) lines
          else if ltb 0 (length input)
          then chosen (set_wim_path input c) lines
          else chosen c lines
    ]

abbrev pub is_index : ℤ → Bool
is_index (pos n) = ltb 0 n
is_index (negsuc n) = false

-- The second loop.
unfoldable pub enter_index : List Text → Config → Outcome Text
enter_index [] c = waits
enter_index (line ∷ lines) c =
    let idx = read_int (take 16 line) in
    elim (is_index idx) [
      | true ↦ chosen (record c { wim_index = idx }) lines
      | false ↦ enter_index lines c
    ]

-- The second loop after the first.
unfoldable pub then_index : Outcome Text → Outcome Text
unfolding enter_index
then_index (chosen c lines) = enter_index lines c
then_index exited = exited
then_index waits = waits

unfoldable pub screen_dism_config : (opens : Text → Bool) → List Text → Config → Outcome Text
unfolding enter_path then_index
screen_dism_config opens lines c =
    if c.freent_kernel then chosen c lines else then_index (enter_path opens lines c)

-- `screen_summary`
unfoldable pub screen_summary : List Key → Config → Outcome Key
screen_summary [] c = waits
screen_summary (k ∷ ks) c = if is_quit k then exited else chosen c ks

-- The screens of `main` one after the other, up to the installation.
unfoldable pub wizard :
    (opens : Text → Bool) → List Disk → List Key → List Text → Config → Outcome Key
unfolding screen_partition_style screen_dism_config screen_summary
wizard opens disks ks lines c = elim (screen_disk_selection disks ks c) [
  | exited ↦ exited
  | waits ↦ waits
  | chosen c1 ks1 ↦ elim (screen_partition_style ks1 c1) [
    | exited ↦ exited
    | waits ↦ waits
    | chosen c2 ks2 ↦ elim (screen_dism_config opens lines c2) [
      | exited ↦ exited
      | waits ↦ waits
      | chosen c3 lines3 ↦ screen_summary ks2 c3
    ]
  ]
]
