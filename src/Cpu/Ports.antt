-- ===== src/Cpu/Ports.antt =====
-- The ports of kernel/include/CPU/IO.h. The writes to ports are kept in order; what a read gives is up
-- to the devices, a function of the writes before it and of the port.
use mcpgos.Base.{ℕ, ◌%◌, ◌^◌, List, [], ◌∷◌, ◌++◌}

-- A write of 8, 16 or 32 bits to a port.
pub data PortWrite : Type 0 where
  byte_to word_to long_to : (port val : ℕ) → PortWrite

abbrev pub PortLog : Type 0
PortLog = List PortWrite

abbrev pub Devices : Type 0
Devices = PortLog → ℕ → ℕ

abbrev pub outb : ℕ → ℕ → PortLog → PortLog
outb port val log = log ++ (byte_to port val ∷ [])

abbrev pub outw : ℕ → ℕ → PortLog → PortLog
outw port val log = log ++ (word_to port val ∷ [])

abbrev pub outl : ℕ → ℕ → PortLog → PortLog
outl port val log = log ++ (long_to port val ∷ [])

abbrev pub inb : Devices → ℕ → PortLog → ℕ
inb devices port log = devices log port % 256

abbrev pub inw : Devices → ℕ → PortLog → ℕ
inw devices port log = devices log port % 65536

abbrev pub inl : Devices → ℕ → PortLog → ℕ
inl devices port log = devices log port % 2 ^ 32
