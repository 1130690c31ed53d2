-- ===== src/Rtl/Tests.antt =====
-- Runs of freedll/src/stringconv.c.
use free_nt.Base.{◌≡◌, some, [], ◌∷◌, arith}
use free_nt.Rtl.Convert.{
  multi_byte_to_unicode, unicode_to_multi_byte, unicode_to_multi_byte-multi_byte_to_unicode,
}

unicode_to_multi_byte-multi_byte_to_unicode_example :
    (unicode_to_multi_byte 2
      (some (multi_byte_to_unicode 3 (some (b'a' ∷ b'b' ∷ []))).written)
      (multi_byte_to_unicode 3 (some (b'a' ∷ b'b' ∷ []))).bytes).written
    ≡ b'a' ∷ b'b' ∷ []
unicode_to_multi_byte-multi_byte_to_unicode_example =
    unicode_to_multi_byte-multi_byte_to_unicode 3 2 (b'a' ∷ b'b' ∷ []) (omega arith)
      (omega arith, (omega arith, tt)) (omega arith, (omega arith, tt))
