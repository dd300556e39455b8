-- ===== src/Drivers.antt =====
-- kernel/src/Drivers.
pub mod RamDisk
pub mod Tty
pub mod Manager
pub mod Keyboard
