-- ===== src/Base/Status.antt =====
-- NTSTATUS as its 32-bit pattern, with the published values of the codes that the sources name.
use Prim.Native.Nat.{ℕ, ◌^◌}
use mathlib.Core.Bool.{Bool}
use free_nt.Base.Tests.{ltb}

abbrev pub NtStatus : Type 0
NtStatus = ℕ

-- `NT_SUCCESS`: the pattern read as a signed word is not negative.
abbrev pub nt_success : NtStatus → Bool
nt_success s = ltb s (2 ^ 31)

abbrev pub status_success : NtStatus
status_success = 0

abbrev pub status_buffer_overflow : NtStatus
status_buffer_overflow = 0x80000005

abbrev pub status_no_data_detected : NtStatus
status_no_data_detected = 0x80000022

abbrev pub status_unsuccessful : NtStatus
status_unsuccessful = 0xC0000001

abbrev pub status_not_implemented : NtStatus
status_not_implemented = 0xC0000002

abbrev pub status_invalid_parameter : NtStatus
status_invalid_parameter = 0xC000000D

abbrev pub status_end_of_file : NtStatus
status_end_of_file = 0xC0000011

abbrev pub status_no_memory : NtStatus
status_no_memory = 0xC0000017

abbrev pub status_buffer_too_small : NtStatus
status_buffer_too_small = 0xC0000023

abbrev pub status_not_supported : NtStatus
status_not_supported = 0xC00000BB

abbrev pub status_not_initialized : NtStatus
status_not_initialized = 0xC0000719
