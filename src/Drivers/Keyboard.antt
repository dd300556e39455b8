-- ===== src/Drivers/Keyboard.antt =====
-- The keyboard driver, kernel/src/Drivers/PS2Keyboard.c, which does not yet read a key.
use mcpgos.Base.{ℕ, Bool, false, Option, some, List}
use mcpgos.Base.Run.{Cmd, pure, ◌>>◌, modify, placed}
use mcpgos.Io.{IoStream}
use mcpgos.Drivers.Manager.{Dm, register_driver}
use mcpgos.Scheduler.Frames.{IdtFrame}
use mcpgos.Cpu.Idt.{Core, IntHandlers, set_handler}

-- `PS2KbdCommand`: the command, and pointers to its data and to their size.
pub record KbdCommand : Type 0 where
  pub command : ℕ
  pub payload : ℕ
  pub payload_size : ℕ

abbrev pub kbd_irq1_handler : {S : Type 0} → IdtFrame → Cmd (Core S) IdtFrame
kbd_irq1_handler frame = pure frame

pub kbd_send_command : KbdCommand → Bool
kbd_send_command cmd = false

-- What `PS2KbdInit` works on: `IdtIntHandlers`, and the drivers.
pub record Keyboard (S T : Type 0) : Type 0 where
  pub handlers : IntHandlers S
  pub drivers : Dm T

pub kbd_init :
    {S T : Type 0}
    → Option (IoStream T (List ℕ))
    → IoStream T (List ℕ)
    → (driver_id : ℕ → Option (List ℕ)) → (def : ℕ) → Cmd (Keyboard S T) (Unit {0})
kbd_init stream tty driver_id def = do
  modify λ s. record s { handlers = set_handler 0x21 (some kbd_irq1_handler) s.handlers }
  (λ s. placed (λ d. record s { drivers = d }) (register_driver stream tty driver_id def s.drivers))
  pure tt
