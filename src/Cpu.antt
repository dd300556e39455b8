-- ===== src/Cpu.antt =====
-- kernel/src/CPU.
pub mod Ports
pub mod Pic
pub mod Idt
