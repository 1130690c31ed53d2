-- ===== src/Crt.antt =====
-- The C runtime of FreeDLL: freedll/src/crt_memory.c, crt_string.c, crt_stdlib.c and crt_format.c. Memory
-- is a function of the address, and the objects a call is given do not go round its end.
pub mod Memory
pub mod Copy
pub mod Fill
pub mod Text
pub mod Measure
pub mod Wide
pub mod Sets
pub mod Numbers
pub mod Search
pub mod Sort
pub mod Alloc
pub mod Format
mod Tests
mod Runs
