-- ===== src/Kernel/Start.antt =====
-- The state before `KMain`, and what it has set up when it lets interrupts in.
pub mod Steps
pub mod Main
use mcpgos.Base.{
  ℕ, zero, suc, ◌+◌, ◌-◌, ◌*◌, ◌/◌, ◌%◌, ◌^◌, ◌≤◌, ◌<◌, bit_and, bit_or, ◌≡◌, refl, sym, ap, ◌∙◌,
  ◌≢◌, ◌↔◌, ◌⊎◌, inl, inr, Bool, true, false, not, ◌&&◌, ◌||◌, Option, none, some, List, [], ◌∷◌,
  ◌++◌, map, arith, ltb, leb, ◌==◌, if◌then◌else◌, assign, eq→==, ne→==, ==→eq, ==→ne, lt→ltb,
  le→ltb, ltb→lt, ltb→le, Bool-cases, Option-cases, length, get_elem?, length-append, All,
}
use mcpgos.Base.Run.{
  Reason, Run, Cmd, ok, panic, fault, out_of_fuel, pure, and_then, ◌>>=◌, ◌>>◌, assert, in_bounds,
  modify, end_of, assertion_failed, no_virtual_pages, placed, then_returns, true_case, false_case,
  assert-true,
}
use mcpgos.Libc.Memory.{Bytes}
use mcpgos.Libc.Strings.{IsString}
use mcpgos.Utils.LinkedList.{Ptr, null, Heap}
use mcpgos.Cpu.Ports.{Devices}
use mcpgos.Cpu.Pic.{pic_init, pit_init}
use mcpgos.Cpu.Idt.{Core, idt_init, set_handler}
use mcpgos.Scheduler.Frames.{IdtFrame}
use mcpgos.Mm.Physical.{Pm, bitmap_bytes}
use mcpgos.Mm.Physical.Init.{init_allocator_lem}
use mcpgos.Drivers.Manager.{said_driver, dm_init}
use mcpgos.Drivers.Tty.{TtyState, tty_init_state, tty_stream}
use mcpgos.Drivers.Tty.Console.{Shown, Shown_nothing}
use mcpgos.Scheduler.{Sched}
use mcpgos.Scheduler.Start.{sched_irq_handler, sched_handlers}
use mcpgos.Scheduler.Start.Initial.{IsStarted, IsAllocated, sched_init_lem}
use mcpgos.Syscalls.{syscall_handlers, syscall_interrupt, syscall_init}
use mcpgos.Vfs.{Vfs}
use mcpgos.Vfs.Register.{said_of}
use mcpgos.Vfs.Registry.{IsRegistry}
use mcpgos.Vfs.Devfs.{empty_root}
use mcpgos.Vfs.Devfs.Add.{said_device}
use mcpgos.Vfs.Devfs.Init.{devfs_name, devfs_init-Speaks}
use mcpgos.Kernel.{
  Parts, Kernel, console, with_console, kernel_stream, address_stream, Boot, tty_id, ram_disk_id,
  register_as, add_tty, tty_init, ram_disk_start, start_machine, start_scheduler, start_syscalls,
  kmain,
}
use mcpgos.Kernel.Drivers.{
  tty_name, terminal-Speaks, registered, register_as_lem, ram_disk_start_lem, tty_added,
  add_tty_lem,
}

-- The static objects have places of their own, and the strings are in memory.
pub record IsLaidOut (boot : Boot) (mem : Bytes) : Type 0 where
  pub tty_driver : boot.tty_driver ≢ null
  pub ram_disk_driver : boot.ram_disk_driver ≢ null
  pub tty_device : boot.tty_device ≢ null
  pub info : boot.places.info ≢ null
  pub tty_name_at : boot.tty_name ≢ null
  pub tty_name_is : IsString mem boot.tty_name tty_name
  pub devfs_string_at : boot.places.devfs_string ≢ null
  pub devfs_string_is : IsString mem boot.places.devfs_string devfs_name
  pub idle_name : boot.idle_name ≢ null
  pub test_name : boot.test_name ≢ null
  -- The kernel fits in the table of pages.
  pub kernel_fits : 64 + boot.kernel_size_pages ≤ bitmap_bytes

-- `malloc` has returned memory, and not the same twice where it matters.
pub record HasMemory (boot : Boot) : Type 0 where
  pub tty_entry : boot.tty_entry ≢ null
  pub tty_inode : boot.tty_inode ≢ null
  pub devfs_entry : boot.devfs_entry ≢ null
  pub process : boot.process ≢ null
  pub element : boot.element ≢ null
  pub idle : IsAllocated boot.idle
  pub test : IsAllocated boot.test
  pub idle_apart : boot.element ≢ boot.idle.element
  pub test_apart : boot.element ≢ boot.test.element
  pub elements_apart : boot.idle.element ≢ boot.test.element
  pub threads_apart : boot.idle.thread ≢ boot.test.thread

-- Nothing is registered, as in the memory that the loader has cleared.
pub record IsBlank (k : Kernel) : Type 0 where
  pub device_list : k.parts.devfs.device_list ≡ null
  pub children_amount : k.parts.devfs.root.children_amount ≡ 0
  pub fs_list : k.parts.devfs.vfs.fs_list ≡ null
  pub process_list : k.parts.sched.process_list ≡ null

-- The terminal as `TTYInit` leaves it, after the chips were set up.
abbrev pub first_screen : Devices → Kernel → TtyState
first_screen devices k =
    let c = console k.parts in
    tty_init_state devices (record c { ports = pit_init (pic_init c.ports) })

-- What is printed.
abbrev pub greeting : List ℕ
greeting =
    said_of (said_driver (said_driver (said_device [] tty_name) tty_id) ram_disk_id) devfs_name

abbrev pub timer_handler : ℕ → IdtFrame → Cmd (Core Parts) IdtFrame
timer_handler fuel =
    sched_irq_handler {S = Parts} (λ p. p.sched) (λ r p. record p { sched = r }) fuel

-- The state in which `KMain` lets interrupts in, from the state `s`.
pub record IsUp (devices : Devices) (fuel : ℕ) (boot : Boot) (s t : Kernel) : Type 0 where
  pub driver_count : t.driver_count ≡ 2
  pub first_driver : t.driver_list 0 ≡ boot.tty_driver
  pub second_driver : t.driver_list 1 ≡ boot.ram_disk_driver
  pub filesystems :
      IsRegistry t.parts.devfs.vfs (boot.devfs_entry ∷ []) ((devfs_name, boot.places.info) ∷ [])
  pub device_list : t.parts.devfs.device_list ≡ boot.tty_entry
  pub device : t.parts.devfs.device_of boot.tty_entry ≡ boot.tty_device
  -- The directory of the devices is empty.
  pub root : t.parts.devfs.root ≡ empty_root boot.places
  pub sched :
      IsStarted boot.process boot.element boot.idle boot.test boot.idle_name boot.idle_entry
        boot.test_name boot.test_entry t.parts.sched
  pub initialized : t.parts.sched.initialized ≡ s.parts.sched.initialized
  pub timer : t.int_handlers 0x20 ≡ some (timer_handler fuel)
  pub syscall :
      t.int_handlers 0x83
      ≡ some (syscall_interrupt (address_stream boot.load) none kernel_stream s.syscalls)
  pub others : (v : ℕ) → v ≢ 0x20 → v ≢ 0x83 → t.int_handlers v ≡ s.int_handlers v
  pub screen : Shown (first_screen devices s) greeting (console t.parts)
