-- ===== src/Kernel/Tests.antt =====
-- A start of the kernel, with interrupts after it, and a panic.
mod Loaded
use mcpgos.Base.{
  ℕ, zero, suc, ◌+◌, ◌-◌, ◌*◌, ◌/◌, ◌%◌, ◌^◌, ◌≤◌, ◌<◌, bit_and, bit_or, ◌≡◌, refl, sym, ap, ◌∙◌,
  ◌≢◌, ◌↔◌, inl, inr, Bool, true, false, not, ◌&&◌, ◌||◌, Option, none, some, List, [], ◌∷◌, map,
  arith, ltb, leb, ◌==◌, if◌then◌else◌, assign, eq→==, ne→==, ==→eq, ==→ne, lt→ltb, le→ltb, ltb→lt,
  ltb→le, Bool-cases, Option-cases, length, get_elem?, length-append, All,
}
use mcpgos.Base.Run.{
  Reason, Run, Cmd, ok, panic, fault, out_of_fuel, pure, and_then, ◌>>=◌, ◌>>◌, assert, in_bounds,
  modify, end_of, assertion_failed, no_virtual_pages, placed, then_returns, true_case, false_case,
  assert-true,
}
use mcpgos.Base.Words.{u32}
use mcpgos.Libc.Memory.{Bytes}
use mcpgos.Libc.Strings.{IsString}
use mcpgos.Utils.LinkedList.{Ptr, null}
use mcpgos.Cpu.Ports.{byte_to, Devices}
use mcpgos.Cpu.Idt.{Core, handled, global_int_handler}
use mcpgos.Mm.Virtual.{PageTableEntry}
use mcpgos.Drivers.Tty.{TtyState}
use mcpgos.Scheduler.{running, Sched}
use mcpgos.Scheduler.Frames.{CpuFrame, IdtFrame, save_frame, load_frame}
use mcpgos.Scheduler.Irq.{irq_handler}
use mcpgos.Scheduler.Start.{Memory}
use mcpgos.Scheduler.Start.First.{begins}
use mcpgos.Syscalls.Calls.{hellos}
use mcpgos.Vfs.Devfs.{Places, empty_root}
use mcpgos.Kernel.{Parts, Kernel, with_console, Boot, kmain}
use mcpgos.Kernel.Start.{IsLaidOut, HasMemory, IsBlank, IsUp}
use mcpgos.Drivers.Tty.At.{Reads, behind}
use mcpgos.Scheduler.Frames.Registers.{Begins, SameRegisters}
use mcpgos.Kernel.Start.Main.{kmain_lem}
use mcpgos.Kernel.Interrupts.{Shows, kernel_interrupts}
use mcpgos.Kernel.Threads.{threads_begin}
use mcpgos.Kernel.Rounds.{Interrupted, CanRead, IsRequest, every_request_returns}
use mcpgos.Kernel.Sleeper.{test_thread_never_wakes}
use mcpgos.Scheduler.Create.{sleep}
use mcpgos.Scheduler.Irq.Current.{thread_now}
use mcpgos.Scheduler.Start.Ready.{HasTurn}
use mcpgos.Kernel.Tests.Loaded.{
  strings, boot, screen, loaded, devices, to_2000, loaded-IsBlank, boot-IsLaidOut, boot-HasMemory,
}

kmain_lem_example :
    (t : Kernel) × ((kmain devices to_2000 6 boot loaded ≡ ok tt t) × IsUp devices 6 boot loaded t)
kmain_lem_example =
    kmain_lem devices to_2000 6 boot loaded 2000 (λ _. null) loaded-IsBlank boot-IsLaidOut
      boot-HasMemory (omega arith) refl (omega arith)

-- The frame of an interrupt.
abbrev frame_of : (vector eax : ℕ) → IdtFrame
frame_of vector eax = record {
  gs = 0;
  fs = 0;
  es = 0;
  ds = 0;
  edi = 0;
  esi = 0;
  ebp = 0;
  pushed_esp = 0;
  ebx = 100;
  edx = 0;
  ecx = 3;
  eax = eax;
  interrupt_number = vector;
  error_code = 0;
  eip = 0;
  cs = 8;
  eflags = 0x200;
  user_esp = 0;
  ss = 16;
}

threads_begin_example :
    (t : Kernel) × (a b : IdtFrame) × (c d : Core Parts) × ((kmain devices to_2000 6 boot loaded
        ≡ ok tt t)
      × (global_int_handler t.int_handlers
            (frame_of 0x20 0)
            (record { screen = λ _. 0; ports = []; rest = t.parts })
          ≡ handled (ok a c))
      × Begins 5000 (u32 (boot.idle.stack + 128)) a
      × (global_int_handler t.int_handlers (frame_of 0x20 1) c ≡ handled (ok b d))
      × Begins 6000 (u32 (boot.test.stack + 128)) b)
threads_begin_example =
    threads_begin devices to_2000 6 boot loaded 2000 (λ _. null) (frame_of 0x20 0) (frame_of 0x20 1)
      (λ _. 0) [] loaded-IsBlank boot-IsLaidOut boot-HasMemory (omega arith) refl (omega arith) refl
      refl refl

-- Two ticks, the call that writes to the terminal between them, and an interrupt with no handler.
abbrev requests : List IdtFrame
requests = frame_of 0x20 0 ∷ frame_of 0x83 1 ∷ frame_of 0x20 7 ∷ frame_of 0x2E 0 ∷ []

asked-CanRead : CanRead boot 100 3
asked-CanRead p = (
  p.devfs.vfs.memory 100 ∷ p.devfs.vfs.memory 101 ∷ p.devfs.vfs.memory 102 ∷ [],
  (refl, (λ s. refl, (λ s. refl, (λ s. refl, tt)))),
)

requests-IsRequest : All (IsRequest boot) requests
requests-IsRequest = (
  (omega arith, omega arith, λ e. absurd (omega (arith, e))),
  (
    (omega arith, omega arith, λ _ _. asked-CanRead),
    (
      (omega arith, omega arith, λ e. absurd (omega (arith, e))),
      ((omega arith, omega arith, λ e. absurd (omega (arith, e))), tt),
    ),
  ),
)

every_request_returns_example :
    (t : Kernel) × (d : Core Parts) × ((kmain devices to_2000 6 boot loaded ≡ ok tt t)
      × Interrupted t.int_handlers requests
          (record { screen = λ _. 0; ports = []; rest = t.parts })
          d
      × HasTurn boot.idle boot.test d.rest.sched)
every_request_returns_example =
    every_request_returns devices to_2000 6 boot loaded 2000 (λ _. null) requests (λ _. 0) []
      loaded-IsBlank boot-IsLaidOut boot-HasMemory (omega arith) refl (omega arith) refl (λ _. refl)
      requests-IsRequest

test_thread_never_wakes_example :
    (t : Kernel) × (d e z : Core Parts) × (r : Sched) × (back : IdtFrame) × ((kmain devices to_2000
          6 boot loaded
        ≡ ok tt t)
      × Interrupted t.int_handlers
          (frame_of 0x20 0 ∷ frame_of 0x20 1 ∷ [])
          (record { screen = λ _. 0; ports = []; rest = t.parts })
          d
      × (thread_now d.rest.sched ≡ boot.test.thread)
      × (sleep (thread_now d.rest.sched) 1000 d.rest.sched ≡ ok tt r)
      × (global_int_handler t.int_handlers
            (frame_of 0x20 2)
            (record d { rest = record (d.rest) { sched = r } })
          ≡ handled (ok back e))
      × SameRegisters (frame_of 0x20 1) back
      × Interrupted t.int_handlers requests e z
      × (thread_now z.rest.sched ≡ boot.idle.thread))
test_thread_never_wakes_example =
    test_thread_never_wakes devices to_2000 6 boot loaded 2000 (λ _. null) (frame_of 0x20 0)
      (frame_of 0x20 1) (frame_of 0x20 2) 1000 requests (λ _. 0) [] loaded-IsBlank boot-IsLaidOut
      boot-HasMemory (omega arith) refl (omega arith) refl (λ _. refl) refl refl refl (omega arith)
      requests-IsRequest

abbrev reason : List ℕ
reason = b'O' ∷ b'o' ∷ b'p' ∷ b's' ∷ []

started :
    (t : Kernel) × ((kmain devices to_2000 6 boot loaded ≡ ok tt t) × IsUp devices 6 boot loaded t)
started =
    kmain_lem devices to_2000 6 boot loaded 2000 (λ _. null) loaded-IsBlank boot-IsLaidOut
      boot-HasMemory (omega arith) refl (omega arith)

abbrev core : Core Parts
core = record { screen = λ _. 0; ports = []; rest = loaded.parts }

-- The call that writes three bytes of the memory.
abbrev asked : IdtFrame
asked = frame_of 0x83 1

kernel_interrupts_example :
    ((g : IdtFrame) (r : Sched)
      → asked.interrupt_number ≡ 0x20
      → irq_handler 6 asked core.rest.sched ≡ ok g r
      → global_int_handler started.0.int_handlers asked core
        ≡ handled (
            ok g (record core {
              rest = record (core.rest) { sched = r };
              ports = byte_to 0x20 0x20 ∷ [];
            })))
    × (asked.interrupt_number ≡ 0x83
        → asked.eax ≡ 0
        → (q : Parts) × ((global_int_handler started.0.int_handlers asked core
              ≡ handled (ok (record asked { eax = u32 (100 * 2) }) (record core { rest = q })))
            × Shows core.rest (hellos [] 100) q))
    × (asked.interrupt_number ≡ 0x83
        → asked.eax ≡ 1
        → (bytes : List ℕ) → length bytes ≡ 3
        → Reads (λ x. boot.load (with_console x core.rest)) 100 bytes
        → (q : Parts) × ((global_int_handler started.0.int_handlers asked core
              ≡ handled (ok (record asked { eax = u32 3 }) (record core { rest = q })))
            × Shows core.rest bytes q))
    × (asked.interrupt_number ≡ 0x83
        → asked.eax ≡ 1
        → (bytes : List ℕ) → length bytes < 3
        → Reads (λ x. boot.load (with_console x core.rest)) 100 bytes
        → ((x : TtyState) → boot.load (with_console x core.rest) (behind 100 bytes) ≡ none)
        → global_int_handler started.0.int_handlers asked core ≡ handled fault)
    × (asked.interrupt_number ≡ 0x83
        → 2 ≤ asked.eax
        → global_int_handler started.0.int_handlers asked core ≡ handled (ok asked core))
kernel_interrupts_example = kernel_interrupts devices 6 boot loaded started.0 started.1.1 asked core
