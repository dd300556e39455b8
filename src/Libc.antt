-- ===== src/Libc.antt =====
-- The functions of libc/src/string, which the kernel links.
pub mod Memory
pub mod Strings
