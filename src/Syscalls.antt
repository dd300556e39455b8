-- ===== src/Syscalls.antt =====
-- System calls, kernel/src/Syscalls/Syscalls.c: the dispatch and the two calls.
pub mod Calls
use mcpgos.Base.{
  ℕ, zero, suc, ◌+◌, ◌*◌, ◌≤◌, ◌<◌, ◌≡◌, Option, none, some, List, [], ◌∷◌, arith, leb,
  if◌then◌else◌, assign,
}
use mcpgos.Base.Words.{u32}
use mcpgos.Base.Run.{Cmd, ok, fault, pure, ◌>>=◌, ◌>>◌, placed}
use mcpgos.Cpu.Idt.{Core, IntHandlers, set_handler}
use mcpgos.Io.{IoStream, io_write}
use mcpgos.Kprintf.{kprintf}
use mcpgos.Scheduler.Frames.{IdtFrame}

abbrev pub handler_amount : ℕ
handler_amount = 2

-- A `SyscallHandler` gets five registers.
abbrev pub SyscallHandler : Type 0 → Type 0
SyscallHandler S = (ebx ecx edx esi edi : ℕ) → Cmd S ℕ

-- A NULL handler is called all the same, which is a fault.
pub call_syscall : {S : Type 0} → Option (SyscallHandler S) → IdtFrame → Cmd S IdtFrame
call_syscall none frame = λ _. fault
call_syscall (some f) frame = do
  r ← f frame.ebx frame.ecx frame.edx frame.esi frame.edi
  pure (record frame { eax = u32 r })

pub syscall_int_handler : {S : Type 0} → (ℕ → Option (SyscallHandler S)) → IdtFrame → Cmd S IdtFrame
syscall_int_handler handlers frame =
    if leb handler_amount frame.eax then pure frame else call_syscall (handlers frame.eax) frame

abbrev pub hello : List ℕ
hello = b'H' ∷ b'e' ∷ b'l' ∷ b'l' ∷ b'o' ∷ b' ' ∷ b'w' ∷ b'o' ∷ b'r' ∷ b'l' ∷ b'd' ∷ 10 ∷ []

module _ {S : Type 0} (stream : Option (IoStream S (List ℕ))) (tty : IoStream S (List ℕ)) where
  -- The loop of `SyscallTest`, with `k` rounds left.
  pub test_loop : ℕ → Cmd S (Unit {0})
  test_loop zero = pure tt
  test_loop (suc k) = kprintf stream tty hello [] >> test_loop k

  pub syscall_test : ℕ → Cmd S ℕ
  syscall_test n = test_loop n >> pure (u32 (n * 2))

-- `tty` is `TTYStream` for buffers given by their bytes, and `tty_at` for those given by their address.
module _ {S : Type 0} (tty_at : IoStream S ℕ) (stream : Option (IoStream S (List ℕ)))
    (tty : IoStream S (List ℕ)) where
  pub syscall_tty_write : (buffer size : ℕ) → Cmd S ℕ
  syscall_tty_write buffer size = io_write tty_at buffer size >> pure size

  -- `SyscallHandlers` after `SyscallInit`.
  pub syscall_handlers : (ℕ → Option (SyscallHandler S)) → ℕ → Option (SyscallHandler S)
  syscall_handlers handlers =
      assign (assign handlers 0 (some (λ ebx _ _ _ _. syscall_test stream tty ebx))) 1
        (some (λ ebx ecx _ _ _. syscall_tty_write ebx ecx))

  -- The handler that `SyscallInit` sets.
  abbrev pub syscall_interrupt : (ℕ → Option (SyscallHandler S)) → IdtFrame → Cmd (Core S) IdtFrame
  syscall_interrupt handlers frame c =
      placed (λ r. record c { rest = r })
        (syscall_int_handler (syscall_handlers handlers) frame c.rest)

  -- `IdtIntHandlers` after it.
  unfoldable pub syscall_init : (ℕ → Option (SyscallHandler S)) → IntHandlers S → IntHandlers S
  syscall_init handlers = set_handler 0x83 (some (syscall_interrupt handlers))

-- A number past the table changes nothing. Any other number calls its handler with five registers
-- of the frame, and the handler's result is what the caller finds in EAX, and all that it finds
-- changed; a number with no handler is a fault.
pub syscall_int_handler_lem :
    {S : Type 0} (handlers : ℕ → Option (SyscallHandler S)) (f : IdtFrame) (s : S)
    → (handler_amount ≤ f.eax → syscall_int_handler handlers f s ≡ ok f s)
      × (f.eax < handler_amount → handlers f.eax ≡ none → syscall_int_handler handlers f s ≡ fault)
      × ((h : SyscallHandler S) (r : ℕ) (t : S)
          → f.eax < handler_amount
          → handlers f.eax ≡ some h
          → h f.ebx f.ecx f.edx f.esi f.edi s ≡ ok r t
          → syscall_int_handler handlers f s ≡ ok (record f { eax = u32 r }) t)
unfolding syscall_int_handler call_syscall
syscall_int_handler_lem handlers f s =
    (λ l. ground arith, λ l e. ground arith, λ h r t l e d. ground (arith, e, d))
