-- ===== src/Kernel/Rounds.antt =====
-- The kernel at work: one interrupt behind the other.
use mathlib.Core.Path.{subst}
use mcpgos.Syscalls.Calls.{hellos}
use mcpgos.Base.{
  ℕ, zero, suc, ◌≤◌, ◌<◌, ◌≡◌, refl, sym, ap, ◌∙◌, ◌≢◌, ◌⊎◌, inl, inr, false, none, List, [], ◌∷◌,
  arith, ◌==◌, Bool-cases, length, All,
}
use mcpgos.Base.Run.{Cmd, ok}
use mcpgos.Utils.LinkedList.{Ptr, null}
use mcpgos.Cpu.Ports.{PortLog, Devices}
use mcpgos.Cpu.Idt.{Core, IntHandlers, handled, global_int_handler}
use mcpgos.Cpu.Idt.Dispatch.{global_int_handler_lem}
use mcpgos.Scheduler.{Sched}
use mcpgos.Scheduler.Irq.{irq_handler}
use mcpgos.Scheduler.Frames.{IdtFrame}
use mcpgos.Scheduler.Start.Ready.{HasTurn, IsReady, HasTurn-IsReady, timer-IsReady}
use mcpgos.Drivers.Tty.At.{Reads}
use mcpgos.Kernel.{Parts, Kernel, with_console, Boot, kmain}
use mcpgos.Kernel.Start.{IsLaidOut, HasMemory, IsBlank, IsUp}
use mcpgos.Kernel.Start.Main.{kmain_lem}
use mcpgos.Kernel.Interrupts.{Shows, kernel_interrupts}

-- From `c` to `d` by interrupts with these frames, of which each is handled and goes back.
pub data Interrupted (handlers : IntHandlers Parts)
    : List IdtFrame → (c d : Core Parts) → Type 0 where
  no_more : {c : Core Parts} → Interrupted handlers [] c c
  returned :
      {f g : IdtFrame} {fs : List IdtFrame} {c d e : Core Parts}
      → global_int_handler handlers f c ≡ handled (ok g d)
      → Interrupted handlers fs d e
      → Interrupted handlers (f ∷ fs) c e

-- In every state the `n` bytes at an address can be read, and do not depend on what the terminal shows.
abbrev pub CanRead : Boot → (address n : ℕ) → Type 0
CanRead boot a n =
    (p : Parts)
    → (bytes : List ℕ) × ((length bytes ≡ n) × Reads (λ x. boot.load (with_console x p)) a bytes)

-- An interrupt that is none of the processor's exceptions, and, if it is the call that writes to the
-- terminal, comes with a buffer that can be read.
abbrev pub IsRequest : Boot → IdtFrame → Type 0
IsRequest boot f =
    (0x1E < f.interrupt_number)
    × (f.interrupt_number < 256)
    × (f.interrupt_number ≡ 0x83 → f.eax ≡ 1 → CanRead boot f.ebx f.ecx)

-- The numbers of the two calls, and the others.
call-cases : (n : ℕ) → (n ≡ 0) ⊎ (n ≡ 1) ⊎ (2 ≤ n)
call-cases zero = inl refl
call-cases (suc zero) = inr (inl refl)
call-cases (suc (suc n)) = inr (inr (omega arith))

-- Where every timer interrupt keeps `Fit` of the scheduler, so does every request.
module _ (devices : Devices) (fuel : ℕ) (boot : Boot) (s t : Kernel)
    (up : IsUp devices fuel boot s t) (no_others : (v : ℕ) → s.int_handlers v ≡ none)
    (Fit : Sched → Type 0)
    (timer-Fit : (f : IdtFrame) (r : Sched)
      → Fit r
      → (g : IdtFrame) × (u : Sched) × ((irq_handler fuel f r ≡ ok g u) × Fit u)) where
  abbrev Returns : IdtFrame → Core Parts → Type 0
  Returns f c =
      (g : IdtFrame) × (d : Core Parts) × ((global_int_handler t.int_handlers f c
          ≡ handled (ok g d))
        × Fit d.rest.sched)

  timer-Returns :
      (f : IdtFrame) (c : Core Parts) → f.interrupt_number ≡ 0x20 → Fit c.rest.sched → Returns f c
  timer-Returns f c e r =
      let (timer, _, _, _, _) = kernel_interrupts devices fuel boot s t up f c in
      let (g, u, (run, again)) = timer-Fit f c.rest.sched r in (g, _, (timer g u e run, again))

  -- The terminal is no part of the scheduler.
  shown-Fit :
      (c : Core Parts) (out : List ℕ) (q : Parts)
      → Shows c.rest out q
      → Fit c.rest.sched
      → Fit q.sched
  shown-Fit c out q h r = subst Fit (sym (ap (λ u. u.sched) h.else_same)) r

  call-Returns :
      (f : IdtFrame) (c : Core Parts)
      → (f.interrupt_number ≡ 0x83 → f.eax ≡ 1 → CanRead boot f.ebx f.ecx)
      → f.interrupt_number ≡ 0x83
      → Fit c.rest.sched
      → Returns f c
  call-Returns f c readable e r =
      let (_, test, write, _, other) = kernel_interrupts devices fuel boot s t up f c in
      elim (call-cases f.eax) [
        | inl n ↦
            let (q, (run, shows)) = test e n in
            (_, _, (run, shown-Fit c (hellos [] f.ebx) q shows r))
        | inr (inl n) ↦
            let (bytes, (len, reads)) = readable e n c.rest in
            let (q, (run, shows)) = write e n bytes len reads in
            (_, _, (run, shown-Fit c bytes q shows r))
        | inr (inr l) ↦ (f, c, (other e l, r))
      ]

  unused-Returns :
      (f : IdtFrame) (c : Core Parts)
      → IsRequest boot f
      → f.interrupt_number ≢ 0x20
      → f.interrupt_number ≢ 0x83
      → Fit c.rest.sched
      → Returns f c
  unused-Returns f c (l, m, _) nt nc r =
      let (_, runs) = global_int_handler_lem t.int_handlers f c in
      (
        f,
        _,
        (
          runs f c l m
              (inl (up.others f.interrupt_number nt nc ∙ no_others f.interrupt_number, refl, refl)),
          r,
        ),
      )

  request-Returns :
      (f : IdtFrame) (c : Core Parts) → IsRequest boot f → Fit c.rest.sched → Returns f c
  request-Returns f c l r = elim (Bool-cases (f.interrupt_number == 0x20)) [
    | inl e ↦ timer-Returns f c (ground (arith, e)) r
    | inr nt ↦ elim (Bool-cases (f.interrupt_number == 0x83)) [
      | inl e ↦ call-Returns f c l.2 (ground (arith, e)) r
      | inr nc ↦ unused-Returns f c l (ground (arith, nt)) (ground (arith, nc)) r
    ]
  ]

  pub requests_return :
      (fs : List IdtFrame) (c : Core Parts)
      → All (IsRequest boot) fs
      → Fit c.rest.sched
      → (d : Core Parts) × (Interrupted t.int_handlers fs c d × Fit d.rest.sched)
  requests_return [] c l r = (c, (no_more, r))
  requests_return (f ∷ fs) c (l, ls) r =
      let (g, d, (run, again)) = request-Returns f c l r in
      let (e, (rest, at_last)) = requests_return fs d ls again in (e, (returned run rest, at_last))

-- From the state that the loader leaves, as `kmain_lem` takes it, with no interrupt yet and no
-- handler set: `KMain` comes to the point where it lets interrupts in. Then whatever interrupts
-- come, in any order and with any registers, none of them one of the processor's exceptions, and
-- each call that writes to the terminal with a buffer that can be read in every state and is no
-- part of the screen, each of them is handled and gives back a frame; behind them all one of the
-- two threads is the current one, and it runs.
pub every_request_returns :
    (devices : Devices) (realloc : (old : Ptr) (size : ℕ) → Cmd (Ptr → Ptr) Ptr) (fuel : ℕ)
    (boot : Boot) (s : Kernel) (p : Ptr) (m : Ptr → Ptr) (fs : List IdtFrame) (screen : ℕ → ℕ)
    (ports : PortLog)
    → IsBlank s
    → IsLaidOut boot s.parts.devfs.vfs.memory
    → HasMemory boot
    → 5 < fuel
    → realloc s.parts.devfs.root.children 4 s.parts.devfs.cells ≡ ok p m
    → p ≢ null
    → s.parts.sched.initialized ≡ false
    → ((v : ℕ) → s.int_handlers v ≡ none)
    → All (IsRequest boot) fs
    → (t : Kernel) × (d : Core Parts) × ((kmain devices realloc fuel boot s ≡ ok tt t)
        × Interrupted t.int_handlers fs
            (record { screen = screen; ports = ports; rest = t.parts })
            d
        × HasTurn boot.idle boot.test d.rest.sched)
every_request_returns devices realloc fuel boot s p m fs screen ports blank laid has room moved np i
      no_handlers requests =
    let (t, (run, up)) = kmain_lem devices realloc fuel boot s p m blank laid has room moved np in
    let Ready =
      IsReady boot.process boot.element boot.idle boot.test boot.idle_name boot.idle_entry
        boot.test_name boot.test_entry in
    let (d, (all, ready)) =
      requests_return devices fuel boot s t up no_handlers Ready
        (λ f r q.
          let (g, u, (run, among, runs)) =
            timer-IsReady boot.process boot.element boot.idle boot.test boot.idle_name
              boot.idle_entry boot.test_name boot.test_entry has.process has.element has.idle
              has.test has.threads_apart fuel f r q (omega arith) in
          (g, u, (run, inr (among, runs))))
        fs (record { screen = screen; ports = ports; rest = t.parts }) requests
        (inl (up.sched, up.initialized ∙ i)) in
    (
      t,
      d,
      (
        run,
        all,
        HasTurn-IsReady boot.process boot.element boot.idle boot.test boot.idle_name boot.idle_entry
            boot.test_name boot.test_entry has.process has.element has.idle has.test
            has.threads_apart d.rest.sched ready,
      ),
    )
