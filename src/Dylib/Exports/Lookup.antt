-- ===== src/Dylib/Exports/Lookup.antt =====
-- The searches in an export table, ntdylib/src/exports.c, against the names that the table holds.
use std.Path.{subst}
use free_nt.Base.{
  ℕ, zero, suc, ◌+◌, ◌-◌, ◌*◌, ◌^◌, ◌<◌, ◌≤◌, ◌≡◌, ◌≢◌, ◌⊎◌, inl, inr, refl, false, ◌&&◌, Option,
  none, some, List, leb, ltb, ◌==◌, if◌then◌else◌, u16, u32, length, Bool-cases, arith, ℕ_discrete,
  dec_lt,
}
use free_nt.Crt.Memory.{Bytes}
use free_nt.Crt.Text.{strcmp}
use free_nt.Crt.Measure.{HasText, strcmp-Compared}
use free_nt.Dylib.{Ptr, read16, read32}
use free_nt.Dylib.Exports.{ExportTable, function_at, find_name, find_ordinal}

-- An ordinal of the table gives the function with its index; any other gives NULL.
pub find_ordinal_lem :
    (m : Bytes) (base : Ptr) (t : ExportTable) (ordinal : ℕ)
    → ordinal < 0xFFFF
    → t.num_functions ≤ 2 ^ 32 - 2 ^ 16
    → find_ordinal m base t ordinal ≡ (
        if leb (u16 t.ordinal_base) ordinal && ltb ordinal (u16 t.ordinal_base + t.num_functions)
        then function_at m base t (ordinal - u16 t.ordinal_base)
        else 0)
unfolding find_ordinal
find_ordinal_lem m base t ordinal word few =
    let given : ordinal == 0xFFFF ≡ false = ground arith in
    elim (Bool-cases (leb (u16 t.ordinal_base) ordinal)) [
      | inl above ↦
          let index : u32 (ordinal + 2 ^ 32 - u16 t.ordinal_base) ≡ ordinal - u16 t.ordinal_base =
            ground arith in
          let within : ltb (ordinal - u16 t.ordinal_base) t.num_functions
              ≡ ltb ordinal (u16 t.ordinal_base + t.num_functions) =
            ground arith in
          rw (find_ordinal, given, index, above, within)
      | inr under ↦
          let index : ltb (u32 (ordinal + 2 ^ 32 - u16 t.ordinal_base)) t.num_functions ≡ false =
            ground arith in
          rw (find_ordinal, given, index, under)
    ]

module _ (fuel : ℕ) (m : Bytes) (base : Ptr) (t : ExportTable) (name : Ptr) (wanted : List ℕ)
    (texts : ℕ → List ℕ) where
  abbrev name_at : ℕ → Ptr
  name_at i = base + read32 m (t.names + 4 * i)

  abbrev ordinal_at : ℕ → ℕ
  ordinal_at i = read16 m (t.ordinals + 2 * i)

  -- The table's names are `texts`, each shorter than the fuel.
  abbrev pub HasNames : Type 0
  HasNames = (i : ℕ) → i < t.num_names → HasText m (name_at i) (texts i) × (length (texts i) < fuel)

  -- The name at `i` does not give the function: it is another, or its ordinal is out of the table.
  abbrev pub Misses : ℕ → Type 0
  Misses i = (texts i ≢ wanted) ⊎ (t.num_functions ≤ ordinal_at i)

  -- The first name of the table that is wanted and has an ordinal in the table gives the function.
  pub record Exported (out : Option (Option Ptr)) : Type 0 where
    pub index : ℕ
    pub in_table : index < t.num_names
    pub same : texts index ≡ wanted
    pub has_function : ordinal_at index < t.num_functions
    pub first : (j : ℕ) → j < index → Misses j
    pub found : out ≡ some (some (function_at m base t (ordinal_at index)))

  -- No name of the table gives a function.
  pub record NotExported (out : Option (Option Ptr)) : Type 0 where
    pub all_miss : (j : ℕ) → j < t.num_names → Misses j
    pub not_found : out ≡ some none

  find_name_hit :
      (left i order : ℕ)
      → strcmp fuel m (name_at i) name ≡ some order
      → order ≡ 0
      → ordinal_at i < t.num_functions
      → find_name fuel (suc left) i m base t name
        ≡ some (some (function_at m base t (ordinal_at i)))
  unfolding find_name
  find_name_hit left i order ran same l = rw (ran, find_name) (ground arith)

  find_name_miss :
      (left i order : ℕ)
      → strcmp fuel m (name_at i) name ≡ some order
      → (order ≢ 0) ⊎ (t.num_functions ≤ ordinal_at i)
      → find_name fuel (suc left) i m base t name ≡ find_name fuel left (i + 1) m base t name
  unfolding find_name
  find_name_miss left i order ran other = rw (ran, find_name) (ground arith)

  find_name_end : (i : ℕ) → find_name fuel 0 i m base t name ≡ some none
  unfolding find_name
  find_name_end i = refl

  extend : (i : ℕ) → Misses i → ((j : ℕ) → j < i → Misses j) → (j : ℕ) → j < i + 1 → Misses j
  extend i here before j l = elim (dec_lt j i) [
    | yes k ↦ before j k
    | no k ↦ let at : i ≡ j = omega arith in subst Misses at here
  ]

  find_name-split :
      (left i : ℕ)
      → i + left ≡ t.num_names
      → HasNames
      → HasText m name wanted
      → ((j : ℕ) → j < i → Misses j)
      → Exported (find_name fuel left i m base t name)
        ⊎ NotExported (find_name fuel left i m base t name)
  find_name-split zero i total names text before =
      inr (record { all_miss = λ j l. before j (omega arith); not_found = find_name_end i })
  find_name-split (suc left) i total names text before =
      let held = names i (omega arith) in
      let order = strcmp-Compared fuel m (name_at i) name (texts i) wanted held.1 held.0 text in
      elim (ℕ_discrete order.result 0) [
        | no differ ↦
            (let rest =
                find_name-split left (i + 1) (omega arith) names text
                  (extend i (inl (λ e. differ (order.equal.1 e))) before) in
              let step = find_name_miss left i order.result order.returns (inl differ) in
              rw step rest)
        | yes same ↦ elim (dec_lt (ordinal_at i) t.num_functions) [
          | yes l ↦ inl (record {
            index = i;
            in_table = omega arith;
            same = order.equal.0 same;
            has_function = l;
            first = before;
            found = find_name_hit left i order.result order.returns same l;
          })
          | no far ↦
              (let rest =
                  find_name-split left (i + 1) (omega arith) names text
                    (extend i (inr (omega arith)) before) in
                let step = find_name_miss left i order.result order.returns (inr (omega arith)) in
                rw step rest)
        ]
      ]

  -- The search gives the function of the first name of the table that is wanted and whose ordinal is in
  -- the table, and goes on by ordinal only if there is no such name.
  pub find_name-Exported :
      HasNames
      → HasText m name wanted
      → Exported (find_name fuel t.num_names 0 m base t name)
        ⊎ NotExported (find_name fuel t.num_names 0 m base t name)
  find_name-Exported names text =
      find_name-split t.num_names 0 (omega arith) names text (λ j l. absurd (omega arith))
