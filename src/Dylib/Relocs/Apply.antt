-- ===== src/Dylib/Relocs/Apply.antt =====
-- What `NtdylibProcessRelocs` of ntdylib/src/loader.c does to memory.
use free_nt.Base.{
  ℕ, zero, suc, ◌+◌, ◌-◌, ◌/◌, ◌%◌, ◌^◌, ◌<◌, ◌≡◌, ◌≢◌, ◌⊎◌, inl, inr, refl, ap, ◌∙◌, true, false,
  ◌&&◌, ◌||◌, some, ltb, ◌==◌, u64, NtStatus, status_success, status_invalid_parameter, Bool-cases,
  arith,
}
use free_nt.Crt.Memory.{Bytes}
use free_nt.Dylib.{Ptr, Module, read16, read32, image_base, directory_address, directory_size}
use free_nt.Dylib.Relocs.{
  apply_entry, apply_entries, num_entries, process_blocks, process_relocs,
  image_directory_entry_basereloc,
}

apply_entry_other :
    (m : Bytes) (page_base delta entry : ℕ)
    → entry / 4096 % 16 ≢ 1
    → apply_entry m page_base delta entry ≡ m
unfolding apply_entry
apply_entry_other m page_base delta entry other = ground arith

-- No entry of the block at `reloc` has the type that is patched.
abbrev pub EntriesIgnored : Bytes → (n at : ℕ) → Type 0
EntriesIgnored m zero at = Unit {0}
EntriesIgnored m (suc n) at = (read16 m at / 4096 % 16 ≢ 1) × EntriesIgnored m n (at + 2)

-- The blocks of the table from one address on, none of whose entries has the type that is patched.
pub data Ignored (m : Bytes) (reloc_end : ℕ) : (reloc : ℕ) → Type 0 where
  ends :
      {reloc : ℕ}
      → ltb reloc reloc_end && ltb 0 (read32 m (reloc + 4)) ≡ false
      → Ignored m reloc_end reloc
  block :
      {reloc : ℕ}
      → ltb reloc reloc_end && ltb 0 (read32 m (reloc + 4)) ≡ true
      → EntriesIgnored m (num_entries (read32 m (reloc + 4))) (reloc + 8)
      → Ignored m reloc_end (reloc + read32 m (reloc + 4))
      → Ignored m reloc_end reloc

apply_entries_other :
    (n : ℕ) (m : Bytes) (at page_base delta : ℕ)
    → EntriesIgnored m n at
    → apply_entries n m at page_base delta ≡ m
unfolding apply_entries
apply_entries_other zero m at page_base delta h = refl
apply_entries_other (suc n) m at page_base delta h =
    rw (apply_entry_other m page_base delta (read16 m at) h.0)
      (apply_entries_other n m (at + 2) page_base delta h.1)

process_blocks_end :
    (fuel : ℕ) (m : Bytes) (reloc reloc_end load_base delta : ℕ)
    → ltb reloc reloc_end && ltb 0 (read32 m (reloc + 4)) ≡ false
    → process_blocks (suc fuel) m reloc reloc_end load_base delta ≡ some m
unfolding process_blocks
process_blocks_end fuel m reloc reloc_end load_base delta done = rw done

process_blocks_next :
    (fuel : ℕ) (m : Bytes) (reloc reloc_end load_base delta : ℕ)
    → ltb reloc reloc_end && ltb 0 (read32 m (reloc + 4)) ≡ true
    → process_blocks (suc fuel) m reloc reloc_end load_base delta
      ≡ process_blocks fuel
          (apply_entries
            (num_entries (read32 m (reloc + 4)))
            m
            (reloc + 8)
            (load_base + read32 m reloc)
            delta)
          (reloc + read32 m (reloc + 4))
          reloc_end
          load_base
          delta
unfolding process_blocks
process_blocks_next fuel m reloc reloc_end load_base delta more = rw more

process_blocks_other :
    (fuel : ℕ) (m : Bytes) (reloc reloc_end load_base delta : ℕ)
    → 0 < fuel
    → reloc_end < reloc + fuel
    → Ignored m reloc_end reloc
    → process_blocks fuel m reloc reloc_end load_base delta ≡ some m
process_blocks_other zero m reloc reloc_end load_base delta fuelled enough h = absurd (omega arith)
process_blocks_other (suc fuel) m reloc reloc_end load_base delta fuelled enough (ends done) =
    process_blocks_end fuel m reloc reloc_end load_base delta done
process_blocks_other (suc fuel) m reloc reloc_end load_base delta fuelled enough
      (block more entries rest) =
    let before : reloc < reloc_end = ground arith in
    let grows : 0 < read32 m (reloc + 4) = ground arith in
    process_blocks_next fuel m reloc reloc_end load_base delta more
    ∙ ap (λ w. process_blocks fuel w (reloc + read32 m (reloc + 4)) reloc_end load_base delta)
        (apply_entries_other (num_entries (read32 m (reloc + 4))) m (reloc + 8)
          (load_base + read32 m reloc) delta entries)
    ∙ process_blocks_other fuel m (reloc + read32 m (reloc + 4)) reloc_end load_base delta
        (omega arith) (omega arith) rest

process_blocks_total :
    (fuel : ℕ) (m : Bytes) (reloc reloc_end load_base delta : ℕ)
    → 0 < fuel
    → reloc_end < reloc + fuel
    → (m' : Bytes) × (process_blocks fuel m reloc reloc_end load_base delta ≡ some m')
process_blocks_total zero m reloc reloc_end load_base delta fuelled enough = absurd (omega arith)
process_blocks_total (suc fuel) m reloc reloc_end load_base delta fuelled enough =
    elim (Bool-cases (ltb reloc reloc_end && ltb 0 (read32 m (reloc + 4)))) [
      | inl more ↦
          let before : reloc < reloc_end = ground arith in
          let grows : 0 < read32 m (reloc + 4) = ground arith in
          rw (process_blocks_next fuel m reloc reloc_end load_base delta more) (
            process_blocks_total fuel _ (reloc + read32 m (reloc + 4)) reloc_end load_base delta
              (omega arith) (omega arith))
      | inr done ↦ (m, process_blocks_end fuel m reloc reloc_end load_base delta done)
    ]

process_relocs_cases :
    (fuel : ℕ) (m : Bytes) (module_ : Module) (load_base : Ptr)
    → ((status : NtStatus) × (process_relocs fuel m (some module_) load_base ≡ some (status, m))
        × (load_base ≢ 0 → module_.headers ≢ 0 → status ≡ status_success))
      ⊎ ((m' : Bytes)
          → process_blocks fuel m
              (load_base + directory_address m module_.headers image_directory_entry_basereloc)
              (load_base
                + directory_address m module_.headers image_directory_entry_basereloc
                + directory_size m module_.headers image_directory_entry_basereloc)
              load_base
              (u64 (load_base + 2 ^ 64 - image_base m module_.headers))
            ≡ some m'
          → process_relocs fuel m (some module_) load_base ≡ some (status_success, m'))
unfolding process_relocs
process_relocs_cases fuel m module_ load_base =
    elim (Bool-cases (load_base == 0 || module_.headers == 0)) [
      | inl bad ↦ inl (status_invalid_parameter, rw bad, λ based headed. absurd (ground arith))
      | inr good ↦
          elim (Bool-cases (
            directory_size m module_.headers image_directory_entry_basereloc == 0
            || directory_address m module_.headers image_directory_entry_basereloc == 0)) [
              | inl empty ↦ inl (status_success, rw (good, empty), λ based headed. refl)
              | inr some_table ↦
                  elim (Bool-cases (u64 (load_base + 2 ^ 64 - image_base m module_.headers) == 0)) [
                    | inl at_base ↦
                        inl (status_success, rw (good, some_table, at_base), λ based headed. refl)
                    | inr moved ↦ inr (λ m' ran. rw (good, some_table, moved, ran))
                  ]
            ]
    ]

-- Any relocation table is worked off: with more fuel than the table has bytes the call returns.
pub process_relocs_total :
    (fuel : ℕ) (m : Bytes) (module_ : Module) (load_base : Ptr)
    → directory_size m module_.headers image_directory_entry_basereloc < fuel
    → (status : NtStatus) × (m' : Bytes) × (process_relocs fuel m (some module_) load_base
        ≡ some (status, m'))
process_relocs_total fuel m module_ load_base enough =
    elim (process_relocs_cases fuel m module_ load_base) [
      | inl (status, ran, fine) ↦ (status, m, ran)
      | inr blocks ↦
          let (m', ran) =
            process_blocks_total fuel m
              (load_base + directory_address m module_.headers image_directory_entry_basereloc)
              (load_base
                + directory_address m module_.headers image_directory_entry_basereloc
                + directory_size m module_.headers image_directory_entry_basereloc)
              load_base (u64 (load_base + 2 ^ 64 - image_base m module_.headers)) (omega arith)
              (omega arith) in
          (status_success, m', blocks m' ran)
    ]

-- For an image and headers at addresses other than 0, and a table none of whose entries has type 1, no
-- relocation is made: with more fuel than the table has bytes the call returns STATUS_SUCCESS and
-- memory is as before, whatever the distance of the image from the base that it prefers.
pub process_relocs_ignores :
    (fuel : ℕ) (m : Bytes) (module_ : Module) (load_base : Ptr)
    → directory_size m module_.headers image_directory_entry_basereloc < fuel
    → load_base ≢ 0
    → module_.headers ≢ 0
    → Ignored m
        (load_base
          + directory_address m module_.headers image_directory_entry_basereloc
          + directory_size m module_.headers image_directory_entry_basereloc)
        (load_base + directory_address m module_.headers image_directory_entry_basereloc)
    → process_relocs fuel m (some module_) load_base ≡ some (status_success, m)
process_relocs_ignores fuel m module_ load_base enough based headed h =
    elim (process_relocs_cases fuel m module_ load_base) [
      | inl (status, ran, fine) ↦ ran ∙ ap (λ s. some (s, m)) (fine based headed)
      | inr blocks ↦
          blocks m (process_blocks_other fuel m _ _ load_base _ (omega arith) (omega arith) h)
    ]
