-- ===== src/Rtl.antt =====
-- The run-time library of FreeDLL, freedll/src/rtl.c and freedll/src/stringconv.c, on memory as a
-- function of the address.
pub mod Handles
pub mod Convert
pub mod Strings
pub mod Bytes
mod Tests
