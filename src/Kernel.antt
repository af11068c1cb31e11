-- ===== src/Kernel.antt =====
-- kernel/kernel.c, one child for each part of it.
pub mod Layout
pub mod Threads
pub mod Names
pub mod UserMemory
pub mod Disk
pub mod Nvme
pub mod Fs
pub mod Files
pub mod Console
pub mod Keyboard
pub mod Division
pub mod Paging
pub mod Process
