-- ===== src/Cpu/Idt.antt =====
-- The interrupt table and the dispatch of interrupts, kernel/src/CPU/IDT.c. The entry points in
-- kernel/src/CPU/IDTAsm.asm are known by their addresses.
pub mod Table
pub mod Descriptor
pub mod Dispatch
mod Tests
use mcpgos.Base.{
  ℕ, zero, suc, ◌+◌, ◌-◌, ◌/◌, bit_or, ◌&&◌, Option, none, some, List, [], ◌∷◌, leb, ◌==◌,
  if◌then◌else◌, assign,
}
use mcpgos.Base.Words.{u8, shl, shr, low_bits}
use mcpgos.Base.Run.{Run, Cmd, pure, ◌>>=◌, ◌>>◌, modify}
use mcpgos.Cpu.Ports.{PortLog}
use mcpgos.Cpu.Pic.{pic_eoi}
use mcpgos.Scheduler.Frames.{IdtFrame}

abbrev pub gate_task32 : ℕ
gate_task32 = 0x5

abbrev pub gate_int32 : ℕ
gate_int32 = 0xE

-- `IdtTable`, by the index of the entry.
abbrev pub IdtTable : Type 0
IdtTable = ℕ → ℕ

-- `typeAttributes`.
pub type_attributes : (gate_type min_dpl : ℕ) → ℕ
type_attributes gate_type min_dpl =
    let attributes = u8 (bit_or (bit_or (shl 1 7) (shl min_dpl 5)) (low_bits gate_type 4)) in
    if gate_type == gate_task32 then u8 (bit_or attributes (shl 1 4)) else attributes

-- `GdtKernelCode` is 8.
pub descriptor : (callback gate_type min_dpl : ℕ) → ℕ
descriptor callback gate_type min_dpl =
    let low = low_bits callback 16 in
    let high = shl (low_bits (shr callback 16) 16) 48 in
    let selector = shl 0x08 16 in
    bit_or (bit_or (bit_or low high) selector) (shl (type_attributes gate_type min_dpl) 40)

pub set_entry : (index callback gate_type min_dpl : ℕ) → IdtTable → IdtTable
set_entry index callback gate_type min_dpl table =
    assign table index (descriptor callback gate_type min_dpl)

-- The loop of `IdtInit`, with `n` rounds left.
pub default_entries : ℕ → ℕ → (int_default : ℕ) → IdtTable → IdtTable
default_entries zero i int_default table = table
default_entries (suc n) i int_default table =
    default_entries n (i + 1) int_default (set_entry i int_default gate_int32 3 table)

-- The vectors that have an entry point of their own, but 0x83, in the order of the calls.
abbrev pub kernel_vectors : List ℕ
kernel_vectors =
    0x00 ∷ 0x01 ∷ 0x02 ∷ 0x03 ∷ 0x04 ∷ 0x05 ∷ 0x06 ∷ 0x07 ∷ 0x08 ∷ 0x0A ∷ 0x0B ∷ 0x0C ∷ 0x0D ∷ 0x0E
    ∷ 0x10 ∷ 0x11 ∷ 0x12 ∷ 0x13 ∷ 0x14 ∷ 0x1E ∷ 0x20 ∷ 0x21 ∷ 0x22 ∷ 0x23 ∷ 0x24 ∷ 0x25 ∷ 0x26
    ∷ 0x27 ∷ 0x28 ∷ 0x29 ∷ 0x2A ∷ 0x2B ∷ 0x2C ∷ 0x2D ∷ 0x2E ∷ 0x2F ∷ []

-- The calls of `IdtSetEntry` for those vectors, where `raw v` is the entry point of the vector `v`.
pub kernel_entries : List ℕ → (raw : ℕ → ℕ) → IdtTable → IdtTable
kernel_entries [] raw table = table
kernel_entries (v ∷ vs) raw table = kernel_entries vs raw (set_entry v (raw v) gate_int32 0 table)

-- `IdtInit` before `IdtLoad`.
pub idt_init : (int_default : ℕ) (raw : ℕ → ℕ) → IdtTable → IdtTable
idt_init int_default raw table =
    set_entry 0x83 (raw 0x83) gate_int32 3
      (kernel_entries kernel_vectors raw (default_entries 256 0 int_default table))

-- The state that an interrupt works on: the bytes of the screen's memory, the ports, and the rest.
pub record Core (S : Type 0) : Type 0 where
  pub screen : ℕ → ℕ
  pub ports : PortLog
  pub rest : S

-- An interrupt ends in a loop that never ends, with this screen; or what it ran comes to an end.
pub data Handled (S : Type 0) : Type 0 where
  hangs : (screen : ℕ → ℕ) → Handled S
  handled : Run (Core S) IdtFrame → Handled S

-- `IdtIntHandlers`; `none` is NULL.
abbrev pub IntHandlers : Type 0 → Type 0
IntHandlers S = ℕ → Option (IdtFrame → Cmd (Core S) IdtFrame)

module _ {S : Type 0} where
  unfoldable pub set_handler :
      ℕ → Option (IdtFrame → Cmd (Core S) IdtFrame) → IntHandlers S → IntHandlers S
  set_handler i callback handlers = assign handlers i callback

  -- Two characters at the start of the screen.
  abbrev pub show : ℕ → ℕ → Core S → Handled S
  show a b c = hangs (assign (assign c.screen 0xB8000 a) 0xB8002 b)

  -- The call of the handler, if there is one.
  pub call_handler : Option (IdtFrame → Cmd (Core S) IdtFrame) → IdtFrame → Cmd (Core S) IdtFrame
  call_handler none frame = pure frame
  call_handler (some f) frame = f frame

  -- The test for the vectors of the two controllers.
  pub acknowledge : ℕ → Core S → Core S
  acknowledge n c = record c {
    ports = if leb 0x20 n && leb n 0x2F then pic_eoi (n - 0x20) c.ports else c.ports;
  }

  -- The body after the two tests that hang.
  pub run_handler : IntHandlers S → IdtFrame → Cmd (Core S) IdtFrame
  run_handler handlers frame = do
    result ← call_handler (handlers (u8 frame.interrupt_number)) frame
    modify (acknowledge (u8 frame.interrupt_number))
    pure result

  pub global_int_handler : IntHandlers S → IdtFrame → Core S → Handled S
  global_int_handler handlers frame c =
      if frame.interrupt_number == 0x0E
      then show b'P' b'F' c
      else if leb frame.interrupt_number 0x1E
      then show b':' b'/' c
      else handled (run_handler handlers frame c)
