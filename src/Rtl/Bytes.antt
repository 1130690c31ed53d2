-- ===== src/Rtl/Bytes.antt =====
-- The functions on memory of freedll/src/rtl.c.
use free_nt.Base.{ℕ, zero, suc, ◌+◌, ◌-◌, ◌/◌, ◌%◌, ◌&&◌, leb, ◌==◌, if◌then◌else◌, update, u32}
use free_nt.Crt.Memory.{Bytes, memcpy, memmove, memset}

-- `RtlMoveMemory`, `RtlCopyMemory`, `RtlFillMemory` and `RtlZeroMemory`
unfoldable pub move_memory : Bytes → (dest src length : ℕ) → Bytes
move_memory m dest src length = memmove m dest src length

unfoldable pub copy_memory : Bytes → (dest src length : ℕ) → Bytes
copy_memory m dest src length = memcpy m dest src length

unfoldable pub fill_memory : Bytes → (dest length fill : ℕ) → Bytes
fill_memory m dest length fill = memset m dest fill length

unfoldable pub zero_memory : Bytes → (dest length : ℕ) → Bytes
zero_memory m dest length = memset m dest 0 length

-- A USHORT at an address, the low byte first.
abbrev pub write16 : Bytes → (a v : ℕ) → Bytes
write16 m a v = update (update m a (v % 256)) (a + 1) (v / 256 % 256)

-- The loop of `RtlFillMemoryUShort`.
unfoldable pub fill_ushorts : (n : ℕ) → Bytes → (dest value : ℕ) → Bytes
fill_ushorts zero m dest value = m
fill_ushorts (suc n) m dest value = fill_ushorts n (write16 m dest value) (dest + 2) value

-- `RtlFillMemoryUShort`
unfoldable pub fill_memory_ushort : Bytes → (dest length value : ℕ) → Bytes
unfolding fill_ushorts
fill_memory_ushort m dest length value = fill_ushorts (length / 2) m dest value

-- The loops of the comparisons: the index of the first difference, or the length.
unfoldable pub compare_from : (n : ℕ) → (ℕ → ℕ) → Bytes → (p1 p2 i : ℕ) → ℕ
compare_from zero upper m p1 p2 i = i
compare_from (suc n) upper m p1 p2 i =
    let rest = compare_from n upper m p1 p2 (i + 1) in
    if upper (m (p1 + i)) == upper (m (p2 + i)) then rest else i

abbrev pub upper_case : ℕ → ℕ
upper_case c = if leb b'a' c && leb c b'z' then c - b'a' + b'A' else c

-- `RtlCompareMemory` and `RtlCompareMemoryUpr`, whose result is a ULONG.
unfoldable pub compare_memory : Bytes → (src1 src2 length : ℕ) → ℕ
unfolding compare_from
compare_memory m src1 src2 length = u32 (compare_from length (λ c. c) m src1 src2 0)

unfoldable pub compare_memory_upr : Bytes → (src1 src2 length : ℕ) → ℕ
unfolding compare_from
compare_memory_upr m src1 src2 length = u32 (compare_from length upper_case m src1 src2 0)
