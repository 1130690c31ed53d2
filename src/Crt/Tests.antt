-- ===== src/Crt/Tests.antt =====
-- Runs of freedll/src/crt_memory.c and freedll/src/crt_string.c.
use free_nt.Base.{update, ◌≡◌, inr, refl, [], ◌∷◌, arith}
use free_nt.Crt.Memory.{Bytes, memcpy}
use free_nt.Crt.Copy.{block, memcpy-block}
use free_nt.Crt.Measure.{HasText}

-- "ab" at 8, "a" at 16.
abbrev memory : Bytes
memory = update (update (update (λ a. 0) 8 97) 9 98) 16 97

memcpy-block_example : memcpy memory 32 8 10 33 ≡ block 10 memory 32 8 33
memcpy-block_example = memcpy-block memory 32 8 10 (inr (omega arith)) 33

ab : HasText memory 8 (97 ∷ 98 ∷ [])
ab = (refl, omega arith, omega arith, (refl, omega arith, omega arith, refl))
