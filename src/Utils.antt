-- ===== src/Utils.antt =====
-- kernel/src/Utils.
pub mod LinkedList
