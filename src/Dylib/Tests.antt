-- ===== src/Dylib/Tests.antt =====
-- Runs of the loader of ntdylib on small images.
use free_nt.Base.{ℕ, ◌≡◌, ◌⊎◌, inl, refl, some, List, [], ◌∷◌, update, arith, status_success}
use free_nt.Crt.Memory.{Bytes}
use free_nt.Dylib.{Module, read32}
use free_nt.Dylib.Relocs.{num_entries, process_relocs}
use free_nt.Dylib.Relocs.Apply.{EntriesIgnored, Ignored, ends, block, process_relocs_ignores}
use free_nt.Dylib.Sections.{Section, fill_section}
use free_nt.Dylib.Sections.Contents.{section_byte, fill_section_lem}
use free_nt.Dylib.Exports.{ExportTable, find_name}
use free_nt.Dylib.Exports.Lookup.{HasNames, Exported, NotExported, find_name-Exported}
use free_nt.Dylib.Modules.{Loader}

abbrev zeros : Bytes
zeros = λ a. 0

-- NT headers at 512 with a relocation directory of 10 bytes at 8; an image at 4096 whose only entry has
-- type 10.
abbrev image : Bytes
image = update (update (update (update (update zeros 636 8) 640 10) 4108 10) 4112 5) 4113 0xA0

abbrev loaded : Module
loaded = record {
  entry = 16;
  base_address = 4096;
  full_path = some (b'a' ∷ []);
  base_name = some (b'a' ∷ []);
  size_of_image = 4096;
  flags = 0;
  reference_count = 1;
  headers = 512;
}

image-EntriesIgnored : EntriesIgnored image (num_entries (read32 image 4108)) 4112
image-EntriesIgnored = (omega arith, tt)

image-Ignored : Ignored image 4114 4104
image-Ignored = block refl image-EntriesIgnored (ends refl)

process_relocs_ignores_example :
    process_relocs 11 image (some loaded) 4096 ≡ some (status_success, image)
process_relocs_ignores_example =
    process_relocs_ignores 11 image loaded 4096 (omega arith) (omega arith) (omega arith)
      image-Ignored

-- Two bytes of raw data at 8 of the file, six bytes in memory.
abbrev text_section : Section
text_section = record {
  virtual_size = 6;
  virtual_address = 16;
  size_of_raw_data = 2;
  pointer_to_raw_data = 8;
  characteristics = 0x60000020;
}

fill_section_lem_example :
    fill_section image 4104 4096 text_section 4112 ≡ section_byte image 4104 4096 text_section 4112
fill_section_lem_example = fill_section_lem image 4104 4096 text_section (inl (omega arith)) 4112

-- The name "a" gives the ordinal 1, whose function is at 50 of the image at 1000.
abbrev exporting : Bytes
exporting =
    update (update (update (update (update zeros 104 50) 120 200) 130 1) 1200 b'a') 2000 b'a'

abbrev table : ExportTable
table = record {
  ordinal_base = 1;
  num_functions = 2;
  num_names = 1;
  functions = 100;
  names = 120;
  ordinals = 130;
}

abbrev table_texts : ℕ → List ℕ
table_texts i = b'a' ∷ []

table-HasNames : HasNames 5 exporting 1000 table 2000 (b'a' ∷ []) table_texts
table-HasNames i l =
    let at : i ≡ 0 = omega arith in rw at ((refl, omega arith, omega arith, refl), omega arith)

find_name-Exported_example :
    Exported 5 exporting 1000 table 2000
      (b'a' ∷ [])
      table_texts
      (find_name 5 1 0 exporting 1000 table 2000)
    ⊎ NotExported 5 exporting 1000 table 2000
        (b'a' ∷ [])
        table_texts
        (find_name 5 1 0 exporting 1000 table 2000)
find_name-Exported_example =
    find_name-Exported 5 exporting 1000 table 2000 (b'a' ∷ []) table_texts table-HasNames
      (refl, omega arith, omega arith, refl)

abbrev loader : Loader
loader = record { modules = loaded ∷ []; detached = []; released = [] }
