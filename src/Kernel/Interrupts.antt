-- ===== src/Kernel/Interrupts.antt =====
-- Interrupts after `KMain`: the timer and the system calls.
use mathlib.Core.List.{append-nil}
use mcpgos.Base.{
  ℕ, ◌*◌, ◌≤◌, ◌<◌, ◌≡◌, refl, ap, ◌∙◌, inr, Option, none, List, [], ◌∷◌, ◌++◌, arith, length,
}
use mcpgos.Base.Run.{ok, fault, placed}
use mcpgos.Base.Words.{u32}
use mcpgos.Base.Alike.{Alike-placed}
use mcpgos.Io.{insert_stream_callbacks, io_write}
use mcpgos.Kprintf.Streams.{Writes}
use mcpgos.Cpu.Ports.{byte_to, Devices}
use mcpgos.Cpu.Idt.{Core, handled, global_int_handler}
use mcpgos.Cpu.Idt.Dispatch.{eoi_writes, global_int_handler_lem, global_int_handler-faults}
use mcpgos.Drivers.Tty.Console.{Shown, Shown_nothing, tty_write-Shown, tty_io_write-Alike}
use mcpgos.Drivers.Tty.{TtyState, tty_write}
use mcpgos.Drivers.Tty.At.{Reads, behind, tty_io_write_at-Reads, tty_io_write_at-faults}
use mcpgos.Scheduler.{Sched}
use mcpgos.Scheduler.Frames.{IdtFrame}
use mcpgos.Scheduler.Irq.{irq_handler}
use mcpgos.Syscalls.{
  syscall_int_handler, syscall_handlers, syscall_interrupt, syscall_int_handler_lem,
}
use mcpgos.Syscalls.Calls.{hellos, call_test, call_tty_write, call_tty_write-faults}
use mcpgos.Kernel.{Parts, Kernel, console, with_console, kernel_stream, address_stream, Boot}
use mcpgos.Kernel.Start.{timer_handler, IsUp}

-- Of the parts only the terminal has changed, and it shows `out` behind what it showed.
pub record Shows (p : Parts) (out : List ℕ) (q : Parts) : Type 0 where
  pub else_same : q ≡ with_console (console q) p
  pub shown : Shown (console p) out (console q)

unchanged_screen : (p : Parts) → Shows p [] p
unchanged_screen p = record { else_same = refl; shown = Shown_nothing (console p) }

kernel_stream-Writes : (p : Parts) → Writes (Shows p) kernel_stream
unfolding io_write insert_stream_callbacks kernel_stream
kernel_stream-Writes p = record {
  write = λ buf n out q e h.
      Alike-placed (λ c. with_console c q)
        (tty_io_write-Alike (console p) buf n out (console q) e h.shown)
        (λ o c g. record { else_same = ap (with_console c) h.else_same; shown = g });
}

module _ (load : Parts → ℕ → Option ℕ) (p : Parts) (bytes : List ℕ) (n a : ℕ) where
  address_stream-Reads :
      length bytes ≡ n
      → Reads (λ x. load (with_console x p)) a bytes
      → io_write (address_stream load) a n p ≡ ok n (with_console (tty_write bytes (console p)) p)
  unfolding io_write address_stream insert_stream_callbacks
  address_stream-Reads e r =
      ap (placed (λ c. with_console c p))
        (tty_io_write_at-Reads (λ x. load (with_console x p)) bytes n a (console p) e r)

  address_stream-faults :
      length bytes < n
      → Reads (λ x. load (with_console x p)) a bytes
      → ((x : TtyState) → load (with_console x p) (behind a bytes) ≡ none)
      → io_write (address_stream load) a n p ≡ fault
  unfolding io_write address_stream insert_stream_callbacks
  address_stream-faults l r d =
      ap (placed (λ c. with_console c p))
        (tty_io_write_at-faults (λ x. load (with_console x p)) bytes n a (console p) r d l)

module _ (devices : Devices) (fuel : ℕ) (boot : Boot) (s t : Kernel)
    (up : IsUp devices fuel boot s t) (f : IdtFrame) (c : Core Parts) where
  -- How the processor reads while the terminal changes.
  abbrev reader : Parts → TtyState → ℕ → Option ℕ
  reader p x = boot.load (with_console x p)

  -- A system call that returns gives its frame back, and no controller is told.
  answered :
      (g : IdtFrame) (q : Parts)
      → f.interrupt_number ≡ 0x83
      → syscall_int_handler
          (syscall_handlers (address_stream boot.load) none kernel_stream s.syscalls)
          f
          c.rest
        ≡ ok g q
      → global_int_handler t.int_handlers f c ≡ handled (ok g (record c { rest = q }))
  answered g q e run =
      let (_, runs) = global_int_handler_lem t.int_handlers f c in
      runs g (record c { rest = q }) (omega (arith, e)) (omega (arith, e))
        (inr (
          syscall_interrupt (address_stream boot.load) none kernel_stream s.syscalls,
          ap t.int_handlers e ∙ up.syscall,
          ap (placed (λ p. record c { rest = p })) run,
        ))
      ∙ ap (λ l. handled (ok g (record c { rest = q; ports = l })))
          (ap (λ n. c.ports ++ eoi_writes n) e ∙ append-nil c.ports)

  -- In the kernel that `KMain` has set up, the timer's interrupt runs the handler of the scheduler,
  -- changes no other part, and is acknowledged at the first controller. At the interrupt 0x83, the
  -- number 0 in EAX prints as many lines on the terminal as EBX says, and 1 prints the bytes from EBX
  -- on, as many as ECX says, if all of them can be read and do not depend on what the terminal shows;
  -- EAX holds the result, no other register and no other part has changed, and nothing is acknowledged.
  -- If such bytes stop before that at one that is never readable, the call is a fault. Any other number
  -- changes nothing.
  pub kernel_interrupts :
      ((g : IdtFrame) (r : Sched)
        → f.interrupt_number ≡ 0x20
        → irq_handler fuel f c.rest.sched ≡ ok g r
        → global_int_handler t.int_handlers f c
          ≡ handled (
              ok g (record c {
                rest = record (c.rest) { sched = r };
                ports = c.ports ++ byte_to 0x20 0x20 ∷ [];
              })))
      × (f.interrupt_number ≡ 0x83
          → f.eax ≡ 0
          → (q : Parts) × ((global_int_handler t.int_handlers f c
                ≡ handled (ok (record f { eax = u32 (f.ebx * 2) }) (record c { rest = q })))
              × Shows c.rest (hellos [] f.ebx) q))
      × (f.interrupt_number ≡ 0x83
          → f.eax ≡ 1
          → (bytes : List ℕ) → length bytes ≡ f.ecx
          → Reads (reader c.rest) f.ebx bytes
          → (q : Parts) × ((global_int_handler t.int_handlers f c
                ≡ handled (ok (record f { eax = u32 f.ecx }) (record c { rest = q })))
              × Shows c.rest bytes q))
      × (f.interrupt_number ≡ 0x83
          → f.eax ≡ 1
          → (bytes : List ℕ) → length bytes < f.ecx
          → Reads (reader c.rest) f.ebx bytes
          → ((x : TtyState) → reader c.rest x (behind f.ebx bytes) ≡ none)
          → global_int_handler t.int_handlers f c ≡ handled fault)
      × (f.interrupt_number ≡ 0x83
          → 2 ≤ f.eax
          → global_int_handler t.int_handlers f c ≡ handled (ok f c))
  kernel_interrupts =
      let (_, runs) = global_int_handler_lem t.int_handlers f c in
      let p = c.rest in
      let w = kernel_stream-Writes p in
      let (same, _, _) =
        syscall_int_handler_lem
          (syscall_handlers (address_stream boot.load) none kernel_stream s.syscalls) f p in
      (
        λ g r e run.
            runs g (record c { rest = record p { sched = r } }) (omega (arith, e))
              (omega (arith, e))
              (inr (
                timer_handler fuel,
                ap t.int_handlers e ∙ up.timer,
                ap (placed (λ r. record c { rest = record p { sched = r } })) run,
              ))
            ∙ ap
                (λ n. handled (
                  ok g
                    (record c { rest = record p { sched = r }; ports = c.ports ++ eoi_writes n })))
                e,
        λ e n.
            let (q, (run, shows)) =
              call_test (Shows p) kernel_stream w (address_stream boot.load) s.syscalls f [] p
                (unchanged_screen p) n in
            (
              q,
              (
                answered (record f { eax = u32 (f.ebx * 2) }) q e
                    (run ∙ ap (λ x. ok (record f { eax = x }) q) (omega arith)),
                shows,
              ),
            ),
        λ e n bytes len reads.
            let q = with_console (tty_write bytes (console p)) p in
            (
              q,
              (
                answered (record f { eax = u32 f.ecx }) q e
                    (call_tty_write (Shows p) kernel_stream w (address_stream boot.load) s.syscalls
                      f [] p (unchanged_screen p) q n
                      (address_stream-Reads boot.load p bytes f.ecx f.ebx len reads)),
                record {
                  else_same = refl;
                  shown =
                      tty_write-Shown (console p) bytes [] (console p) (Shown_nothing (console p));
                },
              ),
            ),
        λ e n bytes len reads stops.
            global_int_handler-faults t.int_handlers f c _ (omega (arith, e)) (omega (arith, e))
              (ap t.int_handlers e ∙ up.syscall)
              (ap (placed (λ r. record c { rest = r })) (
                call_tty_write-faults (Shows p) kernel_stream w (address_stream boot.load)
                  s.syscalls f [] p (unchanged_screen p) n
                  (address_stream-faults boot.load p bytes f.ecx f.ebx len reads stops))),
        λ e l. answered f p e (same l),
      )
