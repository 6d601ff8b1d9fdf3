-- ===== src/Misc.antt =====
-- The kernel's own C library: src/misc. initrd/libc/string.c repeats the same functions for programs.
pub mod Util
pub mod Mem
pub mod Printf
