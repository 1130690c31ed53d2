-- ===== src/Crt/Sets.antt =====
-- The functions on a string and a set of characters: strspn, strcspn and strpbrk of
-- freedll/src/crt_stdlib.c and strtok of freedll/src/crt_string.c.
pub mod Span
pub mod Token
use free_nt.Base.{
  ℕ, zero, suc, ◌+◌, ◌-◌, Bool, true, false, ◌||◌, not, Option, none, some, ◌==◌, if◌then◌else◌,
  update,
}
use free_nt.Crt.Memory.{Bytes}
use free_nt.Crt.Text.{strchr}

-- `freent_strchr(set, c) != NULL`
unfoldable pub is_in : (fuel : ℕ) → Bytes → (set c : ℕ) → Option Bool
is_in fuel m set c = elim (strchr fuel m set c) [ none ↦ none | some p ↦ some (not (p == 0)) ]

-- The loops: from `p` on while the characters are in the set, or while they are not.
unfoldable pub span_from : (rounds fuel : ℕ) → Bytes → (p set : ℕ) → (inside : Bool) → Option ℕ
unfolding is_in
span_from zero fuel m p set inside = none
span_from (suc rounds) fuel m p set inside = elim (m p == 0) [
  | true ↦ some p
  | false ↦ elim (is_in fuel m set (m p)) [
    | none ↦ none
    | some member ↦ elim (if inside then member else not member) [
      | true ↦ span_from rounds fuel m (p + 1) set inside
      | false ↦ some p
    ]
  ]
]

-- `freent_strspn` and `freent_strcspn`
unfoldable pub strspn : (rounds fuel : ℕ) → Bytes → (s accept : ℕ) → Option ℕ
unfolding span_from
strspn rounds fuel m s accept =
    if s == 0 || accept == 0
    then some 0
    else elim (span_from rounds fuel m s accept true) [ none ↦ none | some p ↦ some (p - s) ]

unfoldable pub strcspn : (rounds fuel : ℕ) → Bytes → (s reject : ℕ) → Option ℕ
unfolding span_from
strcspn rounds fuel m s reject =
    if s == 0 || reject == 0
    then some 0
    else elim (span_from rounds fuel m s reject false) [ none ↦ none | some p ↦ some (p - s) ]

-- `freent_strpbrk`; NULL is 0.
unfoldable pub strpbrk : (rounds fuel : ℕ) → Bytes → (s accept : ℕ) → Option ℕ
unfolding span_from
strpbrk rounds fuel m s accept =
    if s == 0 || accept == 0 then some 0 else elim (span_from rounds fuel m s accept false) [
      | none ↦ none
      | some p ↦ some (if m p == 0 then 0 else p)
    ]

-- What `freent_strtok` returns, its static pointer and memory.
pub record TokenState : Type 0 where
  pub token : ℕ
  pub next : ℕ
  pub memory : Bytes

-- The end of the token at `start`.
abbrev pub cut_token : Bytes → (start stop : ℕ) → TokenState
cut_token m start stop =
    if m stop == 0
    then record { token = start; next = 0; memory = m }
    else record { token = start; next = stop + 1; memory = update m stop 0 }

-- `freent_strtok`
unfoldable pub strtok : (rounds fuel : ℕ) → Bytes → (next s delim : ℕ) → Option TokenState
strtok rounds fuel m next s delim =
    let from = if s == 0 then next else s in
    if from == 0 || m from == 0
    then some (record { token = 0; next = from; memory = m })
    else elim (span_from rounds fuel m from delim true) [
      | none ↦ none
      | some start ↦ elim (m start == 0) [
        | true ↦ some (record { token = 0; next = 0; memory = m })
        | false ↦ elim (span_from rounds fuel m start delim false) [
          | none ↦ none
          | some stop ↦ some (cut_token m start stop)
        ]
      ]
    ]
