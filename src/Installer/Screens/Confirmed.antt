-- ===== src/Installer/Screens/Confirmed.antt =====
-- What the screens of installer/src/installer.c have settled when the installation starts.
use std.Path.{subst}
use free_nt.Base.{
  ℕ, ◌-◌, ◌≡◌, ◌⊎◌, inl, inr, refl, sym, ◌∙◌, ap, Bool, true, false, List, [], ◌∷◌, arith, ◌==◌,
  if◌then◌else◌, Bool-cases, length, ℤ, take, codes, ltb,
}
use free_nt.Installer.{Text, Config, Disk, set_wim_path, read_int, trim_newline, max_path_len}
use free_nt.Installer.Screens.{
  disk_at, Key, is_enter, is_quit, is_index, next_choice, select_style, screen_partition_style,
  Outcome, chosen, exited, waits, enter_path, enter_index, then_index, scan_drives, drives,
  same_word, screen_dism_config, screen_summary, screen_disk_selection, wizard,
}
use free_nt.Installer.Screens.Selection.{IsMarked, select_disk-Selected}

-- The style is that of UEFI or that of a BIOS.
abbrev pub IsStyle : ℕ → Type 0
IsStyle s = (s ≡ b'U') ⊎ (s ≡ b'B')

-- A screen that fills in other fields keeps these.
pub record Styled (c c' : Config) : Type 0 where
  pub style : IsStyle c'.partition_style
  pub disk : c'.disk_number ≡ c.disk_number
  pub kernel : c'.freent_kernel ≡ c.freent_kernel

choice-IsStyle : (choice : ℕ) → IsStyle (if choice == 0 then b'U' else b'B')
choice-IsStyle choice = elim (Bool-cases (choice == 0)) [
  | inl e ↦ rw e (inl refl)
  | inr e ↦ rw e (inr refl)
]

select_style-Styled :
    (choice : ℕ) (ks : List Key) (c c' : Config) (rest : List Key)
    → select_style choice ks c ≡ chosen c' rest
    → Styled c c'
unfolding select_style
select_style-Styled choice [] c c' rest ran = absurd (cc)
select_style-Styled choice (k ∷ ks) c c' rest ran = elim (Bool-cases (is_enter k)) [
  | inl enter ↦
      let style : ℕ = if choice == 0 then b'U' else b'B' in
      let out : chosen (record c { partition_style = style }) ks ≡ chosen c' rest =
        rw (select_style, enter) at ran in
      let same : record c { partition_style = style } ≡ c' = cc in
      subst (λ x. Styled c x) same
        (record { style = choice-IsStyle choice; disk = refl; kernel = refl })
  | inr other ↦ elim (Bool-cases (is_quit k)) [
    | inl quit ↦
        let out : exited ≡ chosen c' rest = rw (select_style, other, quit) at ran in absurd (cc)
    | inr go ↦
        let on : select_style (next_choice choice k) ks c ≡ chosen c' rest =
          rw (select_style, other, go) at ran in
        select_style-Styled (next_choice choice k) ks c c' rest on
  ]
]

-- The image screen keeps all but the path and the index.
pub record SameTarget (c c' : Config) : Type 0 where
  pub disk : c'.disk_number ≡ c.disk_number
  pub style : c'.partition_style ≡ c.partition_style
  pub kernel : c'.freent_kernel ≡ c.freent_kernel

kept_target :
    (c : Config) (path : Text) (i : ℤ) → SameTarget c (record c { wim_path = path; wim_index = i })
kept_target c path i = record { disk = refl; style = refl; kernel = refl }

SameTarget-trans : (a b c : Config) → SameTarget a b → SameTarget b c → SameTarget a c
SameTarget-trans a b c f g = record {
  disk = g.disk ∙ f.disk;
  style = g.style ∙ f.style;
  kernel = g.kernel ∙ f.kernel;
}

scan_drives-SameTarget :
    (opens : Text → Bool) (ds : List Text) (c : Config) → SameTarget c (scan_drives opens ds c)
unfolding scan_drives
scan_drives-SameTarget opens [] c = kept_target c c.wim_path c.wim_index
scan_drives-SameTarget opens (d ∷ ds) c = elim (Bool-cases (opens d)) [
  | inl found ↦ rw found (kept_target c (take (max_path_len - 1) d) c.wim_index)
  | inr lacking ↦ rw lacking (scan_drives-SameTarget opens ds c)
]

enter_path-SameTarget :
    (opens : Text → Bool) (lines : List Text) (c c' : Config) (rest : List Text)
    → enter_path opens lines c ≡ chosen c' rest
    → SameTarget c c'
unfolding enter_path
enter_path-SameTarget opens [] c c' rest ran = absurd (cc)
enter_path-SameTarget opens (line ∷ lines) c c' rest ran =
    let input : Text = trim_newline (take (max_path_len - 1) line) in
    elim (Bool-cases (same_word input (codes "scan"))) [
      | inl scan ↦
          let on : enter_path opens lines (scan_drives opens drives c) ≡ chosen c' rest =
            rw (enter_path, scan) at ran in
          SameTarget-trans c (scan_drives opens drives c) c' (scan_drives-SameTarget opens drives c)
            (enter_path-SameTarget opens lines (scan_drives opens drives c) c' rest on)
      | inr other ↦ elim (Bool-cases (same_word input (codes "skip"))) [
        | inl skip ↦
            let out : chosen (record c { wim_path = [] }) lines ≡ chosen c' rest =
              rw (enter_path, other, skip) at ran in
            let same : record c { wim_path = [] } ≡ c' = cc in
            subst (λ x. SameTarget c x) same (kept_target c [] c.wim_index)
        | inr typed ↦ elim (Bool-cases (ltb 0 (length input))) [
          | inl new ↦
              let out : chosen (set_wim_path input c) lines ≡ chosen c' rest =
                rw (enter_path, other, typed, new) at ran in
              let same : set_wim_path input c ≡ c' = cc in
              subst (λ x. SameTarget c x) same
                (kept_target c (take (max_path_len - 1) input) c.wim_index)
          | inr old ↦
              let out : chosen c lines ≡ chosen c' rest =
                rw (enter_path, other, typed, old) at ran in
              let same : c ≡ c' = cc in
              subst (λ x. SameTarget c x) same (kept_target c c.wim_path c.wim_index)
        ]
      ]
    ]

-- An index that is entered is positive.
pub record Indexed (c c' : Config) : Type 0 where
  pub index : is_index c'.wim_index ≡ true
  pub target : SameTarget c c'

enter_index-Indexed :
    (lines : List Text) (c c' : Config) (rest : List Text)
    → enter_index lines c ≡ chosen c' rest
    → Indexed c c'
unfolding enter_index
enter_index-Indexed [] c c' rest ran = absurd (cc)
enter_index-Indexed (line ∷ lines) c c' rest ran =
    let idx : ℤ = read_int (take 16 line) in
    elim (Bool-cases (is_index idx)) [
      | inl good ↦
          let out : chosen (record c { wim_index = idx }) lines ≡ chosen c' rest =
            rw (enter_index, good) at ran in
          let same : record c { wim_index = idx } ≡ c' = cc in
          subst (λ x. Indexed c x) same
            (record { index = good; target = kept_target c c.wim_path idx })
      | inr bad ↦
          let on : enter_index lines c ≡ chosen c' rest = rw (enter_index, bad) at ran in
          enter_index-Indexed lines c c' rest on
    ]

Outcome-cases :
    {A : Type 0} (o : Outcome A)
    → ((c : Config) × ((rest : List A) × (o ≡ chosen c rest))) ⊎ ((o ≡ exited) ⊎ (o ≡ waits))
Outcome-cases (chosen c rest) = inl (c, (rest, refl))
Outcome-cases exited = inr (inl refl)
Outcome-cases waits = inr (inr refl)

-- The configuration after the screens.
pub record Confirmed (disks : List Disk) (c c' : Config) : Type 0 where
  pub highlight : ℕ
  pub marked : IsMarked (length disks) highlight
  pub disk : c'.disk_number ≡ disk_at disks highlight
  pub style : IsStyle c'.partition_style
  pub index : (c.freent_kernel ≡ false) → is_index c'.wim_index ≡ true
  pub kernel : c'.freent_kernel ≡ c.freent_kernel

dism_skipped :
    (opens : Text → Bool) (lines : List Text) (c : Config)
    → c.freent_kernel ≡ true
    → screen_dism_config opens lines c ≡ chosen c lines
unfolding screen_dism_config
dism_skipped opens lines c kernel = ground arith

dism_pages :
    (opens : Text → Bool) (lines : List Text) (c : Config)
    → c.freent_kernel ≡ false
    → screen_dism_config opens lines c ≡ then_index (enter_path opens lines c)
unfolding screen_dism_config
dism_pages opens lines c image = ground arith

screen_dism_config-Indexed :
    (opens : Text → Bool) (lines : List Text) (c c' : Config) (rest : List Text)
    → screen_dism_config opens lines c ≡ chosen c' rest
    → SameTarget c c' × (c.freent_kernel ≡ false → is_index c'.wim_index ≡ true)
unfolding then_index
screen_dism_config-Indexed opens lines c c' rest ran = elim (Bool-cases c.freent_kernel) [
  | inl kernel ↦
      let out : chosen c lines ≡ chosen c' rest = sym (dism_skipped opens lines c kernel) ∙ ran in
      let same : c ≡ c' = cc in
      (subst (λ x. SameTarget c x) same (kept_target c c.wim_path c.wim_index), λ e. absurd (cc))
  | inr image ↦
      let paged : then_index (enter_path opens lines c) ≡ chosen c' rest =
        sym (dism_pages opens lines c image) ∙ ran in
      elim (Outcome-cases (enter_path opens lines c)) [
        | inl (c1, (lines1, e1)) ↦
            let on : enter_index lines1 c1 ≡ chosen c' rest = rw (then_index, e1) at paged in
            let first = enter_path-SameTarget opens lines c c1 lines1 e1 in
            let second = enter_index-Indexed lines1 c1 c' rest on in
            (SameTarget-trans c c1 c' first second.target, λ e. second.index)
        | inr (inl e1) ↦
            (let out : exited ≡ chosen c' rest = rw (then_index, e1) at paged in absurd (cc))
        | inr (inr e1) ↦
            (let out : waits ≡ chosen c' rest = rw (then_index, e1) at paged in absurd (cc))
      ]
]

summary_same :
    (ks : List Key) (c c' : Config) (rest : List Key)
    → screen_summary ks c ≡ chosen c' rest
    → c ≡ c'
unfolding screen_summary
summary_same [] c c' rest ran = absurd (cc)
summary_same (k ∷ ks) c c' rest ran = elim (Bool-cases (is_quit k)) [
  | inl quit ↦ (let out : exited ≡ chosen c' rest = rw (screen_summary, quit) at ran in absurd (cc))
  | inr go ↦ (let out : chosen c ks ≡ chosen c' rest = rw (screen_summary, go) at ran in cc)
]

settled :
    (disks : List Disk) (opens : Text → Bool) (ks ks1 ks2 rest : List Key)
    (lines lines3 : List Text) (c c1 c2 c3 c' : Config)
    → screen_disk_selection disks ks c ≡ chosen c1 ks1
    → screen_partition_style ks1 c1 ≡ chosen c2 ks2
    → screen_dism_config opens lines c2 ≡ chosen c3 lines3
    → screen_summary ks2 c3 ≡ chosen c' rest
    → Confirmed disks c c'
unfolding screen_partition_style
settled disks opens ks ks1 ks2 rest lines lines3 c c1 c2 c3 c' e1 e2 e3 last =
    let first = select_disk-Selected disks 0 ks c c1 ks1 (omega arith, inr refl) e1 in
    let second = select_style-Styled _ ks1 c1 c2 ks2 e2 in
    let third = screen_dism_config-Indexed opens lines c2 c3 lines3 e3 in
    let disk1 : c1.disk_number ≡ disk_at disks first.highlight =
      ap (λ x. x.disk_number) first.config in
    let kernel1 : c1.freent_kernel ≡ c.freent_kernel = ap (λ x. x.freent_kernel) first.config in
    subst (λ x. Confirmed disks c x) (summary_same ks2 c3 c' rest last)
      (record {
        highlight = first.highlight;
        marked = first.marked;
        disk = third.0.disk ∙ second.disk ∙ disk1;
        style = subst (λ x. IsStyle x) (sym third.0.style) second.style;
        index = λ image. third.1 (second.kernel ∙ kernel1 ∙ image);
        kernel = third.0.kernel ∙ second.kernel ∙ kernel1;
      })

-- If the screens end with a configuration, its disk is one of the first 15 found, or 0 if none was found, its
-- partition style is one of the two, and its image index is positive unless the mode is the copy of the
-- kernel; the mode is the one that the screens started with.
pub wizard-Confirmed :
    (opens : Text → Bool) (disks : List Disk) (ks : List Key) (lines : List Text) (c c' : Config)
    (rest : List Key)
    → wizard opens disks ks lines c ≡ chosen c' rest
    → Confirmed disks c c'
unfolding wizard
wizard-Confirmed opens disks ks lines c c' rest ran =
    elim (Outcome-cases (screen_disk_selection disks ks c)) [
      | inr (inl e) ↦ (let out : exited ≡ chosen c' rest = rw (wizard, e) at ran in absurd (cc))
      | inr (inr e) ↦ (let out : waits ≡ chosen c' rest = rw (wizard, e) at ran in absurd (cc))
      | inl (c1, (ks1, e1)) ↦ elim (Outcome-cases (screen_partition_style ks1 c1)) [
        | inr (inl e) ↦
            (let out : exited ≡ chosen c' rest = rw (wizard, e1, e) at ran in absurd (cc))
        | inr (inr e) ↦
            (let out : waits ≡ chosen c' rest = rw (wizard, e1, e) at ran in absurd (cc))
        | inl (c2, (ks2, e2)) ↦ elim (Outcome-cases (screen_dism_config opens lines c2)) [
          | inr (inl e) ↦
              (let out : exited ≡ chosen c' rest = rw (wizard, e1, e2, e) at ran in absurd (cc))
          | inr (inr e) ↦
              (let out : waits ≡ chosen c' rest = rw (wizard, e1, e2, e) at ran in absurd (cc))
          | inl (c3, (lines3, e3)) ↦
              let last : screen_summary ks2 c3 ≡ chosen c' rest = rw (wizard, e1, e2, e3) at ran in
              settled disks opens ks ks1 ks2 rest lines lines3 c c1 c2 c3 c' e1 e2 e3 last
        ]
      ]
    ]
