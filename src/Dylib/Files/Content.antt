-- ===== src/Dylib/Files/Content.antt =====
-- What `NtdylibReadFile` of ntdylib/src/loader.c gives for a file that comes in pieces.
use std.Path.{subst}
use free_nt.Base.{
  ℕ, zero, suc, ◌+◌, ◌<◌, ◌≡◌, ◌≢◌, ◌⊎◌, inl, inr, refl, ◌∙◌, Bool, true, false, some, List, [],
  ◌∷◌, ◌++◌, append-nil, append_assoc, length, ◌==◌, ◌||◌, if◌then◌else◌, arith, NtStatus,
  nt_success, Bool-cases,
}
use free_nt.Dylib.Files.{read_file, read_file_from, status_end_of_file}

abbrev pub concat : List (List ℕ) → List ℕ
concat [] = []
concat (c ∷ cs) = c ++ concat cs

module _ (answer : ℕ → NtStatus × List ℕ) (grown : ℕ → Bool) where
  -- From the i-th call on the kernel gives the pieces, none of them empty, and the buffer grows for each.
  abbrev pub GivesFrom : ℕ → List (List ℕ) → Type 0
  GivesFrom i [] = Unit {0}
  GivesFrom i (c ∷ cs) =
      (nt_success (answer i).0 ≡ true)
      × ((answer i).1 ≡ c)
      × (c ≢ [])
      × (grown i ≡ true)
      × GivesFrom (i + 1) cs

  -- The answer that ends the loop: nothing read, or a failure.
  abbrev pub Stops : NtStatus × List ℕ → Type 0
  Stops a = ((nt_success a.0 ≡ true) × (a.1 ≡ [])) ⊎ (nt_success a.0 ≡ false)

  -- Whether it stands for the end of the file.
  abbrev pub is_end : NtStatus → Bool
  is_end status = nt_success status || status == status_end_of_file

  read_piece :
      (fuel i : ℕ) (content : List ℕ) (c : ℕ) (cs : List ℕ)
      → nt_success (answer i).0 ≡ true
      → (answer i).1 ≡ c ∷ cs
      → grown i ≡ true
      → read_file_from (suc fuel) answer grown i content
        ≡ read_file_from fuel answer grown (i + 1) (content ++ (c ∷ cs))
  unfolding read_file_from
  read_piece fuel i content c cs ok piece room = rw (read_file_from, ok, piece, room) refl

  read_end :
      (fuel i : ℕ) (content : List ℕ)
      → Stops (answer i)
      → read_file_from (suc fuel) answer grown i content
        ≡ some (if is_end (answer i).0 then content else [])
  unfolding read_file_from
  read_end fuel i content (inl (ok, empty)) = rw (read_file_from, ok, empty) refl
  read_end fuel i content (inr failed) =
      rw (read_file_from, failed)
        (elim (Bool-cases ((answer i).0 == status_end_of_file)) [
          | inl same ↦ rw same refl
          | inr other ↦ rw other refl
        ])

  read_file_from-concat :
      (fuel i : ℕ) (content : List ℕ) (pieces : List (List ℕ))
      → length pieces < fuel
      → GivesFrom i pieces
      → Stops (answer (i + length pieces))
      → read_file_from fuel answer grown i content
        ≡ some (if is_end (answer (i + length pieces)).0 then content ++ concat pieces else [])
  read_file_from-concat zero i content pieces enough gives stops = absurd (omega arith)
  read_file_from-concat (suc fuel) i content [] enough gives stops =
      let at : i + 0 ≡ i = omega arith in
      rw (append-nil content)
        (rw at (read_end fuel i content (subst (λ n. Stops (answer n)) at stops)))
  read_file_from-concat (suc fuel) i content ([] ∷ pieces) enough gives stops =
      absurd (gives.2 refl)
  read_file_from-concat (suc fuel) i content ((c ∷ cs) ∷ pieces) enough gives stops =
      let at : i + suc (length pieces) ≡ i + 1 + length pieces = omega arith in
      rw at (
        rw (← append_assoc content (c ∷ cs) (concat pieces)) (
          read_piece fuel i content c cs gives.0 gives.1 gives.3
          ∙ read_file_from-concat fuel (i + 1) (content ++ (c ∷ cs)) pieces (omega arith) gives.4
              (subst (λ n. Stops (answer n)) at stops)))

  -- The kernel gives the file in pieces that are not empty, the buffer grows for each, and the next call
  -- reads nothing or fails: with more fuel than there are pieces the read returns all pieces in order
  -- after a call that succeeds or has the status that the header calls STATUS_END_OF_FILE, 0xC0000014,
  -- and NULL after every other failure.
  pub read_file-concat :
      (fuel : ℕ) (pieces : List (List ℕ))
      → length pieces < fuel
      → GivesFrom 0 pieces
      → Stops (answer (length pieces))
      → read_file fuel answer grown
        ≡ some (if is_end (answer (length pieces)).0 then concat pieces else [])
  unfolding read_file
  read_file-concat fuel pieces enough gives stops =
      let at : length pieces ≡ 0 + length pieces = omega arith in
      rw at (
        read_file_from-concat fuel 0 [] pieces enough gives
          (subst (λ n. Stops (answer n)) at stops))
