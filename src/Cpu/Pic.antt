-- ===== src/Cpu/Pic.antt =====
-- The interrupt controllers (kernel/src/CPU/PIC.c) and the timer chip (kernel/src/CPU/Pit.c).
use mcpgos.Base.{ℕ, ◌+◌, ◌/◌, ltb, if◌then◌else◌}
use mcpgos.Base.Words.{shr, low_bits, u8}
use mcpgos.Cpu.Ports.{PortLog, outb}

abbrev pub pic1_command : ℕ
pic1_command = 0x20

abbrev pub pic1_data : ℕ
pic1_data = 0x21

abbrev pub pic2_command : ℕ
pic2_command = 0xA0

abbrev pub pic2_data : ℕ
pic2_data = 0xA1

abbrev pub pic_irq_offset : ℕ
pic_irq_offset = 0x20

unfoldable pub pic_init : PortLog → PortLog
pic_init log =
    let start = outb pic2_command 0x11 (outb pic1_command 0x11 log) in
    let offsets = outb pic2_data (u8 (pic_irq_offset + 7)) (outb pic1_data pic_irq_offset start) in
    let cascade = outb pic2_data 0x02 (outb pic1_data 0x04 offsets) in
    let mode = outb pic2_data 0x01 (outb pic1_data 0x01 cascade) in
    outb pic2_data 0x00 (outb pic1_data 0x00 mode)

unfoldable pub pic_eoi : ℕ → PortLog → PortLog
pic_eoi irq log = outb pic1_command 0x20 (if ltb 7 irq then outb pic2_command 0x20 log else log)

abbrev pub pit_mcr : ℕ
pit_mcr = 0x43

abbrev pub pit_channel0 : ℕ
pit_channel0 = 0x40

-- The 16-bit divisor goes out as two bytes.
unfoldable pub pit_reconfigure_c0 : ℕ → PortLog → PortLog
pit_reconfigure_c0 div log =
    outb pit_channel0 (low_bits (shr div 8) 8)
      (outb pit_channel0 (low_bits div 8) (outb pit_mcr 0x34 log))

unfoldable pub pit_init : PortLog → PortLog
unfolding pit_reconfigure_c0
pit_init log = pit_reconfigure_c0 (0x1234DE / 1000) log
