-- ===== src/Tty.antt =====
-- The terminal subsystem, nttty/tty.c and nttty/tty.h.
pub mod Ring
pub mod Types
pub mod Cooked
pub mod Input
pub mod Ioctl
pub mod Table
pub mod Api
pub mod Control
pub mod Transfer
pub mod Io
pub mod Typing
pub mod Lines
pub mod Session
pub mod Calls
pub mod Bounds
pub mod Safety
pub mod Registry
mod Tests
