-- ===== src/Base/Word.antt =====
-- Words of fixed width as native numbers, and flag words.
use Prim.Native.Nat.{ℕ, ◌-◌, ◌%◌, ◌^◌, bit_and, bit_or}
use mathlib.Core.Bool.{Bool, not}
use free_nt.Base.Tests.{◌==◌}

-- UCHAR, USHORT, ULONG and ULONGLONG conversions
abbrev pub u8 : ℕ → ℕ
u8 n = n % 2 ^ 8

abbrev pub u16 : ℕ → ℕ
u16 n = n % 2 ^ 16

abbrev pub u32 : ℕ → ℕ
u32 n = n % 2 ^ 32

abbrev pub u64 : ℕ → ℕ
u64 n = n % 2 ^ 64

-- `flags & mask` as a condition, `flags | mask`, and `flags & ~mask` on a ULONG
abbrev pub has_flag : ℕ → ℕ → Bool
has_flag flags mask = not (bit_and flags mask == 0)

abbrev pub set_flag : ℕ → ℕ → ℕ
set_flag flags mask = bit_or flags mask

abbrev pub clear_flag : ℕ → ℕ → ℕ
clear_flag flags mask = bit_and flags (2 ^ 32 - 1 - mask)
