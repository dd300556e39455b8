-- ===== src/Mm.antt =====
-- The memory manager, kernel/src/MM.
pub mod Physical
pub mod Virtual
pub mod Paging
pub mod Hooks
