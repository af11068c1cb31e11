-- ===== src/Shell.antt =====
-- The shell, user/sh.c.
pub mod Paths
pub mod Editor
