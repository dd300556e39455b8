-- ===== src/Kernel/Threads.antt =====
-- From `KMain` to the first threads.
use mcpgos.Base.{ℕ, ◌+◌, ◌<◌, ◌≡◌, ◌∙◌, ◌≢◌, false, [], ◌∷◌, ◌++◌, arith}
use mcpgos.Base.Run.{Cmd, ok}
use mcpgos.Utils.LinkedList.{Ptr, null}
use mcpgos.Cpu.Ports.{byte_to, PortLog, Devices}
use mcpgos.Cpu.Idt.{Core, handled, global_int_handler}
use mcpgos.Scheduler.Frames.{IdtFrame}
use mcpgos.Base.Words.{u32}
use mcpgos.Scheduler.Frames.Registers.{Begins, loaded-Begins}
use mcpgos.Scheduler.Start.First.{begins, both_threads_begin}
use mcpgos.Kernel.{Parts, Kernel, Boot, kmain}
use mcpgos.Kernel.Start.{IsLaidOut, HasMemory, IsBlank}
use mcpgos.Kernel.Start.Main.{kmain_lem}
use mcpgos.Kernel.Interrupts.{kernel_interrupts}

-- From the state that the loader leaves, as `kmain_lem` takes it, with no interrupt yet: `KMain`
-- comes to the point where it lets interrupts in. Then the first timer interrupt returns with the
-- instruction pointer at the entry of the first thread, and the next one, whatever the first thread has
-- done to its registers, at the entry of the second: each with interrupts on, in the segments of the
-- kernel, with the end of the thread's stack in EBP and in the place of the user's stack pointer, and
-- with 0 in the other registers.
pub threads_begin :
    (devices : Devices) (realloc : (old : Ptr) (size : ℕ) → Cmd (Ptr → Ptr) Ptr) (fuel : ℕ)
    (boot : Boot) (s : Kernel) (p : Ptr) (m : Ptr → Ptr) (f g : IdtFrame) (screen : ℕ → ℕ)
    (ports : PortLog)
    → IsBlank s
    → IsLaidOut boot s.parts.devfs.vfs.memory
    → HasMemory boot
    → 5 < fuel
    → realloc s.parts.devfs.root.children 4 s.parts.devfs.cells ≡ ok p m
    → p ≢ null
    → s.parts.sched.initialized ≡ false
    → f.interrupt_number ≡ 0x20
    → g.interrupt_number ≡ 0x20
    → (t : Kernel) × (a b : IdtFrame) × (c d : Core Parts) × ((kmain devices realloc fuel boot s
          ≡ ok tt t)
        × (global_int_handler t.int_handlers f
              (record { screen = screen; ports = ports; rest = t.parts })
            ≡ handled (ok a c))
        × Begins boot.idle_entry (u32 (boot.idle.stack + 128)) a
        × (global_int_handler t.int_handlers g c ≡ handled (ok b d))
        × Begins boot.test_entry (u32 (boot.test.stack + 128)) b)
threads_begin devices realloc fuel boot s p m f g screen ports blank laid has room moved np i nf
      ng =
    let (t, (run, up)) = kmain_lem devices realloc fuel boot s p m blank laid has room moved np in
    let (a, b, (first, second, _, _, _, _)) =
      both_threads_begin boot.process boot.element boot.idle boot.test boot.idle_name
        boot.idle_entry boot.test_name boot.test_entry t.parts.sched up.sched has.process
        has.element has.idle has.test has.threads_apart fuel f g (up.initialized ∙ i)
        (omega arith) in
    let c0 : Core Parts = record { screen = screen; ports = ports; rest = t.parts } in
    let c = record c0 {
      rest = record (t.parts) { sched = a };
      ports = ports ++ byte_to 0x20 0x20 ∷ [];
    } in
    let (at_first, _, _, _, _) = kernel_interrupts devices fuel boot s t up f c0 in
    let (at_second, _, _, _, _) = kernel_interrupts devices fuel boot s t up g c in
    (
      t,
      begins f boot.idle boot.idle_entry,
      begins g boot.test boot.test_entry,
      c,
      _,
      (
        run,
        at_first _ a nf first,
        loaded-Begins f boot.idle_entry (u32 (boot.idle.stack + 128)),
        at_second _ b ng second,
        loaded-Begins g boot.test_entry (u32 (boot.test.stack + 128)),
      ),
    )
