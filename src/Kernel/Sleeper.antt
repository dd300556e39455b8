-- ===== src/Kernel/Sleeper.antt =====
-- The second thread of the kernel, `SchedSleepTest`, and what becomes of it.
use mathlib.Core.Path.{subst}
use mcpgos.Base.{
  ℕ, ◌≤◌, ◌<◌, ◌≡◌, sym, ap, ◌∙◌, ◌≢◌, inl, inr, false, none, List, [], ◌∷◌, ◌++◌, arith, All,
}
use mcpgos.Base.Run.{Cmd, ok, end_of}
use mcpgos.Base.Words.{sub32}
use mcpgos.Utils.LinkedList.{Ptr, null}
use mcpgos.Cpu.Ports.{byte_to, PortLog, Devices}
use mcpgos.Cpu.Idt.{Core, handled, global_int_handler}
use mcpgos.Scheduler.{Sched}
use mcpgos.Scheduler.Create.{sleep}
use mcpgos.Scheduler.Irq.{irq_handler}
use mcpgos.Scheduler.Irq.Current.{thread_now}
use mcpgos.Scheduler.Frames.{IdtFrame, save_frame, load_frame}
use mcpgos.Scheduler.Frames.Registers.{SameRegisters, resumed-SameRegisters}
use mcpgos.Scheduler.Start.First.{both_threads_begin}
use mcpgos.Scheduler.Start.Rounds.{TwoThreads, HasPlaces, InRounds, now_at_y}
use mcpgos.Scheduler.Start.Turns.{Runs}
use mcpgos.Scheduler.Start.Asleep.{sleep-slept, slept, falls_asleep}
use mcpgos.Scheduler.Start.Ready.{
  started_threads, IsReady, timer-IsReady, IsAlone, timer-IsAlone, first-IsAlone, threads-HasPlaces,
}
use mcpgos.Kernel.{Parts, Kernel, Boot, kmain}
use mcpgos.Kernel.Start.{IsLaidOut, HasMemory, IsBlank}
use mcpgos.Kernel.Start.Main.{kmain_lem}
use mcpgos.Kernel.Interrupts.{kernel_interrupts}
use mcpgos.Kernel.Rounds.{Interrupted, no_more, returned, IsRequest, requests_return}

abbrev pub threads_of : Boot → TwoThreads
threads_of boot = started_threads boot.process boot.element boot.idle boot.test

boot-HasPlaces : (boot : Boot) → HasMemory boot → HasPlaces (threads_of boot)
boot-HasPlaces boot has =
    threads-HasPlaces boot.process boot.element boot.idle boot.test boot.idle_name boot.idle_entry
      boot.test_name boot.test_entry has.process has.element has.idle has.test has.threads_apart

module _ (fuel : ℕ) (boot : Boot) (has : HasMemory boot) (enough : 3 ≤ fuel) where
  abbrev Ready : Sched → Type 0
  Ready =
      IsReady boot.process boot.element boot.idle boot.test boot.idle_name boot.idle_entry
        boot.test_name boot.test_entry

  abbrev Alone : Sched → Type 0
  Alone =
      IsAlone boot.process boot.element boot.idle boot.test boot.idle_name boot.idle_entry
        boot.test_name boot.test_entry has.process has.element has.idle has.test has.threads_apart

  -- What an interrupt that returns leaves.
  after_timer :
      (f g : IdtFrame) (s t : Sched)
      → Ready s
      → irq_handler fuel f s ≡ ok g t
      → InRounds (threads_of boot) t × Runs t
  after_timer f g s t r e =
      let (h, u, (run, among, runs)) =
        timer-IsReady boot.process boot.element boot.idle boot.test boot.idle_name boot.idle_entry
          boot.test_name boot.test_entry has.process has.element has.idle has.test has.threads_apart
          fuel f s r enough in
      subst (λ v. InRounds (threads_of boot) v × Runs v) (ap (end_of s) (sym run ∙ e)) (among, runs)

-- From the state that the loader leaves, as `every_request_returns` takes it: behind `KMain` two
-- timer interrupts begin the two threads. Then the second one goes to sleep, for any time that is
-- not 1 modulo 2^32: the interrupt that `SchedSleep` raises returns with every register what it was
-- when the second interrupt stopped the first thread. Whatever interrupts come then, none of them
-- one of the processor's exceptions, and each call that writes to the terminal with a buffer that
-- can be read in every state and is no part of the screen, each returns, and behind them the first
-- thread is still the current one: the second thread never comes back.
pub test_thread_never_wakes :
    (devices : Devices) (realloc : (old : Ptr) (size : ℕ) → Cmd (Ptr → Ptr) Ptr) (fuel : ℕ)
    (boot : Boot) (s : Kernel) (p : Ptr) (m : Ptr → Ptr) (f g h : IdtFrame) (millis : ℕ)
    (fs : List IdtFrame) (screen : ℕ → ℕ) (ports : PortLog)
    → IsBlank s
    → IsLaidOut boot s.parts.devfs.vfs.memory
    → HasMemory boot
    → 5 < fuel
    → realloc s.parts.devfs.root.children 4 s.parts.devfs.cells ≡ ok p m
    → p ≢ null
    → s.parts.sched.initialized ≡ false
    → ((v : ℕ) → s.int_handlers v ≡ none)
    → f.interrupt_number ≡ 0x20
    → g.interrupt_number ≡ 0x20
    → h.interrupt_number ≡ 0x20
    → sub32 millis 1 ≢ 0
    → All (IsRequest boot) fs
    → (t : Kernel) × (d e z : Core Parts) × (r : Sched) × (back : IdtFrame) × ((kmain devices
            realloc fuel boot s
          ≡ ok tt t)
        × Interrupted t.int_handlers
            (f ∷ g ∷ [])
            (record { screen = screen; ports = ports; rest = t.parts })
            d
        × (thread_now d.rest.sched ≡ boot.test.thread)
        × (sleep (thread_now d.rest.sched) millis d.rest.sched ≡ ok tt r)
        × (global_int_handler t.int_handlers h (record d { rest = record (d.rest) { sched = r } })
            ≡ handled (ok back e))
        × SameRegisters g back
        × Interrupted t.int_handlers fs e z
        × (thread_now z.rest.sched ≡ boot.idle.thread))
test_thread_never_wakes devices realloc fuel boot s p m f g h millis fs screen ports blank laid has
      room moved np i no_handlers nf ng nh long requests =
    let (t, (run, up)) = kmain_lem devices realloc fuel boot s p m blank laid has room moved np in
    let w = threads_of boot in
    let places = boot-HasPlaces boot has in
    let (a, b, (first, second, at_test, kept, _, _)) =
      both_threads_begin boot.process boot.element boot.idle boot.test boot.idle_name
        boot.idle_entry boot.test_name boot.test_entry t.parts.sched up.sched has.process
        has.element has.idle has.test has.threads_apart fuel f g (up.initialized ∙ i)
        (omega arith) in
    let in_a =
      after_timer fuel boot has (omega arith) f _ t.parts.sched a
        (inl (up.sched, up.initialized ∙ i)) first in
    let (in_b, _) = after_timer fuel boot has (omega arith) g _ a b (inr in_a) second in
    let now = now_at_y w places b in_b at_test in
    let (v, (third, among, runs, sleeps)) =
      falls_asleep w places b in_b fuel millis h at_test long (omega arith) in
    let c0 : Core Parts = record { screen = screen; ports = ports; rest = t.parts } in
    let c = record c0 {
      rest = record (t.parts) { sched = a };
      ports = ports ++ byte_to 0x20 0x20 ∷ [];
    } in
    let d = record c {
      rest = record (t.parts) { sched = b };
      ports = c.ports ++ byte_to 0x20 0x20 ∷ [];
    } in
    let u = record d { rest = record (t.parts) { sched = slept w places b in_b millis } } in
    let e = record u {
      rest = record (t.parts) { sched = v };
      ports = d.ports ++ byte_to 0x20 0x20 ∷ [];
    } in
    let (at_first, _, _, _, _) = kernel_interrupts devices fuel boot s t up f c0 in
    let (at_second, _, _, _, _) = kernel_interrupts devices fuel boot s t up g c in
    let (at_third, _, _, _, _) = kernel_interrupts devices fuel boot s t up h u in
    let (z, (rest, alone)) =
      requests_return devices fuel boot s t up no_handlers (Alone fuel boot has (omega arith))
        (λ x y q.
          timer-IsAlone boot.process boot.element boot.idle boot.test boot.idle_name boot.idle_entry
            boot.test_name boot.test_entry has.process has.element has.idle has.test
            has.threads_apart fuel x y q (omega arith))
        fs e requests (among, runs, sleeps) in
    (
      t,
      d,
      e,
      z,
      _,
      load_frame h (save_frame g),
      (
        run,
        returned (at_first _ a nf first) (returned (at_second _ b ng second) no_more),
        now,
        ap (λ q. sleep q millis b) now ∙ sleep-slept w places b in_b millis,
        at_third _ v nh third ∙ ap (λ x. handled (ok (load_frame h x) e)) kept,
        resumed-SameRegisters g h,
        rest,
        first-IsAlone boot.process boot.element boot.idle boot.test boot.idle_name boot.idle_entry
            boot.test_name boot.test_entry has.process has.element has.idle has.test
            has.threads_apart z.rest.sched alone,
      ),
    )
