-- ===== src/Libc.antt =====
-- The C library of programs built inside the system (fs/lib).
pub mod Path
pub mod Heap
pub mod Stdio
pub mod Strings
