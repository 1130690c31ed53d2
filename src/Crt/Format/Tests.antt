-- ===== src/Crt/Format/Tests.antt =====
-- Runs of freedll/src/crt_format.c.
use free_nt.Base.{[], ◌∷◌, arith}
use free_nt.Crt.Format.Output.{Formats, vsnprintf-Printed}

-- "a%d" with the argument 42 into 3 characters
vsnprintf-Printed_example : Formats 4 (λ i. 42) (λ p. []) (λ a. 7) 3 (b'a' ∷ b'%' ∷ b'd' ∷ [])
vsnprintf-Printed_example =
    vsnprintf-Printed 4 (λ i. 42) (λ p. []) (λ a. 7) 3 (b'a' ∷ b'%' ∷ b'd' ∷ []) (omega arith)
      (omega arith)
