-- ===== src/Installer/Screens/Selection.antt =====
-- Which disk the screens of installer/src/installer.c can choose.
use free_nt.Base.{
  ℕ, zero, suc, ◌+◌, ◌<◌, ◌≡◌, ◌⊎◌, inl, inr, sym, ◌∙◌, ap, List, [], ◌∷◌, ◌++◌, arith, length,
  replicate, Bool-cases,
}
use free_nt.Installer.{Config, Disk}
use free_nt.Installer.Screens.{
  Key, key_up, key_down, key_enter, key_char, is_enter, is_quit, next_highlight, disk_at,
  select_disk, chosen, exited,
}

-- A line that can be marked: one of the first 15 disks, or the first line if there is none.
abbrev pub IsMarked : (num_disks highlight : ℕ) → Type 0
IsMarked num_disks highlight = (highlight < 15) × ((highlight < num_disks) ⊎ (highlight ≡ 0))

next_highlight-IsMarked :
    (n highlight : ℕ) (k : Key) → IsMarked n highlight → IsMarked n (next_highlight n highlight k)
unfolding next_highlight
next_highlight-IsMarked n highlight key_up m = ground arith
next_highlight-IsMarked n highlight key_down m = ground arith
next_highlight-IsMarked n highlight key_enter m = m
next_highlight-IsMarked n highlight (key_char c) m = m

-- What the screen leaves: the number of a disk that can be marked, and all else as it was.
pub record Selected (disks : List Disk) (c c' : Config) : Type 0 where
  pub highlight : ℕ
  pub marked : IsMarked (length disks) highlight
  pub config : c' ≡ record c { disk_number = disk_at disks highlight }

pub select_disk-Selected :
    (disks : List Disk) (highlight : ℕ) (ks : List Key) (c c' : Config) (rest : List Key)
    → IsMarked (length disks) highlight
    → select_disk disks highlight ks c ≡ chosen c' rest
    → Selected disks c c'
unfolding select_disk
select_disk-Selected disks highlight [] c c' rest m ran = absurd (cc)
select_disk-Selected disks highlight (k ∷ ks) c c' rest m ran = elim (Bool-cases (is_enter k)) [
  | inl enter ↦
      let out : chosen (record c { disk_number = disk_at disks highlight }) ks ≡ chosen c' rest =
        rw (select_disk, enter) at ran in
      record { highlight = highlight; marked = m; config = cc }
  | inr other ↦ elim (Bool-cases (is_quit k)) [
    | inl quit ↦
        let out : exited ≡ chosen c' rest = rw (select_disk, other, quit) at ran in absurd (cc)
    | inr go ↦
        let on : select_disk disks (next_highlight (length disks) highlight k) ks c
            ≡ chosen c' rest =
          rw (select_disk, other, go) at ran in
        select_disk-Selected disks (next_highlight (length disks) highlight k) ks c c' rest
          (next_highlight-IsMarked (length disks) highlight k m) on
  ]
]

goes_down :
    (n highlight : ℕ)
    → highlight + 1 < n
    → highlight < 14
    → next_highlight n highlight key_down ≡ highlight + 1
unfolding next_highlight
goes_down n highlight l few = ground arith

select_disk_down :
    (disks : List Disk) (n highlight : ℕ) (ks : List Key) (c : Config)
    → highlight + n < 15
    → highlight + n < length disks
    → select_disk disks highlight (replicate n key_down ++ key_enter ∷ ks) c
      ≡ chosen (record c { disk_number = disk_at disks (highlight + n) }) ks
unfolding select_disk
select_disk_down disks zero highlight ks c few there =
    ap (λ i. chosen (record c { disk_number = disk_at disks i }) ks) {x = highlight}
      {y = highlight + 0} (omega arith)
select_disk_down disks (suc n) highlight ks c few there =
    let down = goes_down (length disks) highlight (omega arith) (omega arith) in
    let at : highlight + 1 + n ≡ highlight + suc n = omega arith in
    rw (down, sym at) (select_disk_down disks n (highlight + 1) ks c (omega arith) (omega arith))

-- Each of the first 15 disks can be chosen: by as many presses of the key that goes down as there are disks
-- before it, and the key that enters.
pub select_disk_reaches :
    (disks : List Disk) (i : ℕ) (ks : List Key) (c : Config)
    → i < 15
    → i < length disks
    → select_disk disks 0 (replicate i key_down ++ key_enter ∷ ks) c
      ≡ chosen (record c { disk_number = disk_at disks i }) ks
select_disk_reaches disks i ks c few there =
    select_disk_down disks i 0 ks c (omega arith) (omega arith)
    ∙ ap (λ j. chosen (record c { disk_number = disk_at disks j }) ks) {x = 0 + i} {y = i}
        (omega arith)
