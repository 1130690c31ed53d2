-- ===== src/Crt/Runs.antt =====
-- Runs of the searches, the sort, the tokens and the numbers of freedll/src/crt_string.c and
-- freedll/src/crt_stdlib.c.
use free_nt.Base.{
  ℕ, ◌-◌, ◌^◌, ◌≡◌, ◌⊎◌, refl, true, some, [], ◌∷◌, update, arith, ℤ, pos, int_of, sub_ℕ,
}
use free_nt.Crt.Memory.{Bytes}
use free_nt.Crt.Search.{bsearch}
use free_nt.Crt.Search.Found.{IsOrdered, Found, Missing, bsearch-split}
use free_nt.Crt.Sets.{strtok}
use free_nt.Crt.Sets.Token.{NoToken, Token, strtok-split}
use free_nt.Crt.Format.{format_decimal}
use free_nt.Crt.Numbers.{atoi}
use free_nt.Crt.Numbers.Print.{plain, atoi-format_decimal}

-- The elements 8, 10, 12 stand for themselves, the key is 10.
abbrev order : ℕ → ℤ
order a = sub_ℕ 10 a

order-IsOrdered : IsOrdered order 8 2 3
order-IsOrdered i j l within = (λ h. ground arith, λ h. ground arith)

bsearch-split_example :
    Found order 8 2 3 (bsearch 4 true (some order) 8 3 2)
    ⊎ Missing order 8 2 3 (bsearch 4 true (some order) 8 3 2)
bsearch-split_example =
    bsearch-split order 8 2 4 3 (omega arith) (omega arith) (omega arith) order-IsOrdered

-- " ab" at 8, " " at 16
abbrev words : Bytes
words = update (update (update (update (λ a. 0) 8 b' ') 9 b'a') 10 b'b') 16 b' '

strtok-split_example :
    NoToken (b' ' ∷ []) (b' ' ∷ b'a' ∷ b'b' ∷ []) words (strtok 4 2 words 0 8 16)
    ⊎ Token (b' ' ∷ []) (b' ' ∷ b'a' ∷ b'b' ∷ []) words 8 (strtok 4 2 words 0 8 16)
strtok-split_example =
    strtok-split 4 2 words 0 8 16 (b' ' ∷ b'a' ∷ b'b' ∷ []) (b' ' ∷ []) (omega arith) (omega arith)
      (omega arith) (omega arith)
      (
        refl,
        omega arith,
        omega arith,
        (refl, omega arith, omega arith, (refl, omega arith, omega arith, refl)),
      )
      (refl, omega arith, omega arith, refl)

-- The argument 2^32 - 42 is the `int` -42.
atoi-format_decimal_example :
    atoi (format_decimal (plain (pos 5)) (2 ^ 32 - 42)) ≡ int_of 32 (2 ^ 32 - 42)
atoi-format_decimal_example = atoi-format_decimal (pos 5) (2 ^ 32 - 42)

-- Elements of two bytes with the first bytes 1 and 2 at 8 and 10
abbrev pair : Bytes
pair = update (update (λ a. 0) 8 1) 10 2

abbrev by_byte : Bytes → (p q : ℕ) → ℤ
by_byte m p q = sub_ℕ (m p) (m q)
