-- ===== src/Libc.antt =====
-- The C library of user programs, initrd/libc/.
pub mod Str
