-- ===== src/Cpu/Idt/Tests.antt =====
-- A table, and interrupts with a handler that counts.
use mcpgos.Base.{arith, ℕ, ◌+◌, ◌*◌, ◌≤◌, ◌<◌, ◌≡◌, refl, ◌≢◌, some, [], ◌++◌, ◌==◌, if◌then◌else◌}
use mcpgos.Base.Run.{Cmd, ok}
use mcpgos.Cpu.Idt.{
  IdtTable, Core, IntHandlers, hangs, handled, gate_int32, descriptor, idt_init, type_attributes,
  global_int_handler,
}
use mcpgos.Cpu.Idt.Table.{has_own_entry, idt_init_lem}
use mcpgos.Cpu.Idt.Descriptor.{Fields, descriptor-Fields}
use mcpgos.Cpu.Idt.Dispatch.{eoi_writes, Answers, global_int_handler_lem}
use mcpgos.Scheduler.Frames.{IdtFrame}

abbrev empty : IdtTable
empty v = 0

abbrev raw : ℕ → ℕ
raw v = 0x100000 + v * 16

abbrev keyboard : ℕ
keyboard = 0x21

idt_init_lem_example :
    (keyboard < 256
      → idt_init 0x90000 raw empty keyboard ≡ (
          if keyboard == 0x83
          then descriptor (raw keyboard) gate_int32 3
          else if has_own_entry keyboard
          then descriptor (raw keyboard) gate_int32 0
          else descriptor 0x90000 gate_int32 3))
    × (256 ≤ keyboard → idt_init 0x90000 raw empty keyboard ≡ empty keyboard)
idt_init_lem_example = idt_init_lem 0x90000 raw empty keyboard

-- What a descriptor is for a kernel entry point at 0x12345678.
kernel_gate : descriptor 0x12345678 gate_int32 0 ≡ 0x12348E0000085678
unfolding descriptor type_attributes
kernel_gate = refl

abbrev frame_of : ℕ → IdtFrame
frame_of n = record {
  gs = 0;
  fs = 0;
  es = 0;
  ds = 0;
  edi = 0;
  esi = 0;
  ebp = 0;
  pushed_esp = 0;
  ebx = 0;
  edx = 0;
  ecx = 0;
  eax = 0;
  interrupt_number = n;
  error_code = 0;
  eip = 0;
  cs = 0;
  eflags = 0;
  user_esp = 0;
  ss = 0;
}

abbrev counts : IdtFrame → Cmd (Core ℕ) IdtFrame
counts f c = ok f (record c { rest = c.rest + 1 })

abbrev only_counter : IntHandlers ℕ
only_counter v = some counts

abbrev quiet : Core ℕ
quiet = record { screen = λ a. 0; ports = []; rest = 0 }

global_int_handler_lem_example :
    ((0x2A ≤ 0x1E)
      → (screen : ℕ → ℕ) × ((global_int_handler only_counter (frame_of 0x2A) quiet ≡ hangs screen)
          × (screen 0xB8000 ≡ (if 0x2A == 0x0E then b'P' else b':'))
          × (screen 0xB8002 ≡ (if 0x2A == 0x0E then b'F' else b'/'))
          × ((a : ℕ) → a ≢ 0xB8000 → a ≢ 0xB8002 → screen a ≡ quiet.screen a)))
    × ((g : IdtFrame) (d : Core ℕ)
        → 0x1E < 0x2A
        → 0x2A < 256
        → Answers only_counter (frame_of 0x2A) quiet g d
        → global_int_handler only_counter (frame_of 0x2A) quiet
          ≡ handled (ok g (record d { ports = d.ports ++ eoi_writes 0x2A })))
global_int_handler_lem_example = global_int_handler_lem only_counter (frame_of 0x2A) quiet

descriptor-Fields_example : Fields (descriptor 0x12345678 gate_int32 3) 0x12345678 0xE 3 0
descriptor-Fields_example =
    descriptor-Fields 0x12345678 gate_int32 3 (omega arith) (omega arith) (omega arith)
