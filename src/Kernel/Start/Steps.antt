-- ===== src/Kernel/Start/Steps.antt =====
-- The calls of `KMain`, one by one.
use mcpgos.Base.{ℕ, ◌+◌, ◌≤◌, ◌<◌, ◌≡◌, refl, ap, ◌≢◌, none, some, [], arith, assign}
use mcpgos.Base.Run.{Cmd, ok, placed, then_returns}
use mcpgos.Utils.LinkedList.{Ptr, null, Heap}
use mcpgos.Cpu.Ports.{Devices}
use mcpgos.Cpu.Pic.{pic_init, pit_init}
use mcpgos.Cpu.Idt.{idt_init, set_handler}
use mcpgos.Mm.Physical.{Pm}
use mcpgos.Mm.Physical.{bitmap_bytes}
use mcpgos.Mm.Physical.Init.{init_allocator_lem}
use mcpgos.Drivers.Manager.{said_driver}
use mcpgos.Drivers.Tty.{TtyState, tty_init_state}
use mcpgos.Drivers.Tty.Console.{Shown, Shown_nothing}
use mcpgos.Scheduler.{Sched}
use mcpgos.Scheduler.Start.{sched_handlers}
use mcpgos.Scheduler.Start.Initial.{IsStarted, sched_init_lem}
use mcpgos.Syscalls.{syscall_handlers, syscall_interrupt, syscall_init}
use mcpgos.Vfs.{Vfs}
use mcpgos.Vfs.Devfs.{empty_root}
use mcpgos.Vfs.Devfs.Add.{said_device}
use mcpgos.Kernel.{
  Kernel, console, with_console, kernel_stream, address_stream, Boot, tty_id, tty_init,
  start_machine, start_scheduler,
}
use mcpgos.Kernel.Drivers.{tty_name, registered, register_as_lem, tty_added, add_tty_lem}
use mcpgos.Kernel.Start.{IsLaidOut, HasMemory, timer_handler}

-- The states between the calls.
abbrev pub machine_up : Boot → Kernel → Pm → Kernel
machine_up boot k pm =
    let c = console k.parts in
    record k {
      idt_table = idt_init boot.int_default boot.raw k.idt_table;
      vm = record (k.vm) { pm = pm };
      parts = with_console (record c { ports = pit_init (pic_init c.ports) }) k.parts;
    }

abbrev pub tty_up : Boot → Kernel → (p : Ptr) (m : Ptr → Ptr) → Heap → TtyState → TtyState → Kernel
tty_up boot k p m h d e =
    let devfs = tty_added boot k.parts.devfs p m h d in
    registered (record k { parts = record (k.parts) { devfs = devfs } }) boot.tty_driver tty_id e

abbrev pub sched_up : ℕ → Kernel → Sched → Kernel
sched_up fuel k r = record k {
  parts = record (k.parts) { sched = r };
  int_handlers = sched_handlers (λ p. p.sched) (λ r p. record p { sched = r }) fuel k.int_handlers;
}

abbrev pub syscalls_up : Boot → Kernel → Kernel
syscalls_up boot k = record k {
  syscalls = syscall_handlers (address_stream boot.load) none kernel_stream k.syscalls;
  int_handlers =
      syscall_init (address_stream boot.load) none kernel_stream k.syscalls k.int_handlers;
}

abbrev pub devfs_up : Boot → Kernel → Vfs TtyState → Kernel
devfs_up boot k v =
    let devfs = record (k.parts.devfs) {
      vfs = v;
      root_directory = boot.places.root_dir;
      root = empty_root boot.places;
    } in
    record k { parts = record (k.parts) { devfs = devfs } }

module _ (devices : Devices) (realloc : (old : Ptr) (size : ℕ) → Cmd (Ptr → Ptr) Ptr) (fuel : ℕ)
    (boot : Boot) where
  pub start_machine_lem :
      (k : Kernel)
      → 64 + boot.kernel_size_pages ≤ bitmap_bytes
      → (pm : Pm) × (start_machine devices realloc fuel boot k ≡ ok tt (machine_up boot k pm))
  unfolding start_machine
  start_machine_lem k fits =
      let (pm, run, _, _) = (init_allocator_lem boot.kernel_size_pages k.vm.pm).0 fits in
      (pm, then_returns _ tt _ (ap (placed _) run) refl)

  pub start_scheduler_lem :
      (k : Kernel)
      → IsLaidOut boot k.parts.devfs.vfs.memory
      → HasMemory boot
      → 0 < fuel
      → k.parts.sched.process_list ≡ null
      → (r : Sched) × ((start_scheduler devices realloc fuel boot k ≡ ok tt (sched_up fuel k r))
          × IsStarted boot.process boot.element boot.idle boot.test boot.idle_name boot.idle_entry
              boot.test_name boot.test_entry r
          × (r.initialized ≡ k.parts.sched.initialized))
  unfolding start_scheduler
  start_scheduler_lem k laid has room none_yet =
      let (r, (run, started, initialized)) =
        sched_init_lem fuel boot.process boot.element boot.idle boot.test boot.idle_name
          boot.idle_entry boot.test_name boot.test_entry k.parts.sched room has.process has.element
          has.idle has.test has.idle_apart has.test_apart has.elements_apart has.threads_apart
          laid.idle_name laid.test_name none_yet in
      (
        r,
        (
          then_returns _ tt (record k { parts = record (k.parts) { sched = r } })
              (ap (placed _) run) refl,
          started,
          initialized,
        ),
      )

  -- The last calls leave the handlers that they set.
  pub handlers_lem :
      (k : Kernel) (r : Sched)
      → let t = (syscalls_up boot (sched_up fuel k r)).int_handlers in
        (t 0x20 ≡ some (timer_handler fuel))
        × (t 0x83
            ≡ some (syscall_interrupt (address_stream boot.load) none kernel_stream k.syscalls))
        × ((v : ℕ) → v ≢ 0x20 → v ≢ 0x83 → t v ≡ k.int_handlers v)
  unfolding syscall_init sched_handlers set_handler
  handlers_lem k r = (refl, refl, λ v n m. ground arith)

  pub device_leads :
      (f : Ptr → Ptr) → assign f boot.tty_entry boot.tty_device boot.tty_entry ≡ boot.tty_device
  device_leads f = ground arith

  pub tty_init_lem :
      (k : Kernel) (p : Ptr) (m : Ptr → Ptr)
      → k.driver_count ≡ 0
      → IsLaidOut boot k.parts.devfs.vfs.memory
      → HasMemory boot
      → k.parts.devfs.device_list ≡ null
      → k.parts.devfs.root.children_amount ≡ 0
      → 3 < fuel
      → realloc k.parts.devfs.root.children 4 k.parts.devfs.cells ≡ ok p m
      → p ≢ null
      → (h : Heap) × (d e : TtyState) × ((tty_init devices realloc fuel boot k
            ≡ ok tt (tty_up boot k p m h d e))
          × Shown
              (tty_init_state devices (console k.parts))
              (said_driver (said_device [] tty_name) tty_id)
              e)
  unfolding tty_init
  tty_init_lem k p m empty laid has no_device amount room moved np =
      let c = tty_init_state devices (console k.parts) in
      let u = record k { parts = with_console c k.parts } in
      let (h, d, (run, said)) =
        add_tty_lem devices realloc fuel boot c [] u p m no_device amount has.tty_entry
          has.tty_inode laid.tty_device laid.tty_name_at laid.tty_name_is room moved np
          (Shown_nothing c) in
      let v = record u {
        parts = record (u.parts) { devfs = tty_added boot u.parts.devfs p m h d };
      } in
      let (e, (reg, said_too)) =
        register_as_lem c (said_device [] tty_name) v boot.tty_driver tty_id laid.tty_driver
          (omega (arith, empty)) said in
      (h, d, e, (then_returns _ tt v run reg, said_too))
