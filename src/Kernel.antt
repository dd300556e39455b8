-- ===== src/Kernel.antt =====
-- The start of the kernel, kernel/src/KMain.c, and its end, kernel/src/KPanic.c, over the state of
-- all parts that the start sets up. What `malloc` returns, and what the linker gives, are arguments;
-- the memory that `malloc` takes from the page tables is not in this state.
pub mod Drivers
pub mod Start
pub mod Panic
pub mod Interrupts
pub mod Threads
pub mod Rounds
pub mod Sleeper
mod Tests
use mcpgos.Base.{
  ℕ, zero, suc, ◌+◌, ◌-◌, ◌*◌, ◌/◌, ◌%◌, ◌^◌, ◌≤◌, ◌<◌, bit_and, bit_or, ◌≡◌, refl, sym, ap, ◌∙◌,
  ◌≢◌, ◌↔◌, ◌⊎◌, inl, inr, Bool, true, false, not, ◌&&◌, ◌||◌, Option, none, some, List, [], ◌∷◌,
  ◌++◌, map, arith, ltb, leb, ◌==◌, if◌then◌else◌, assign, eq→==, ne→==, ==→eq, ==→ne, lt→ltb,
  le→ltb, ltb→lt, ltb→le, Bool-cases, Option-cases, length, get_elem?, length-append, All,
}
use mcpgos.Base.Run.{
  Reason, Run, Cmd, ok, panic, fault, out_of_fuel, pure, and_then, ◌>>=◌, ◌>>◌, assert, in_bounds,
  modify, end_of, assertion_failed, no_virtual_pages, placed, then_returns, true_case, false_case,
  assert-true,
}
use mcpgos.Io.{IoStream, insert_stream_callbacks}
use mcpgos.Kprintf.{kprintf}
use mcpgos.Utils.LinkedList.{Ptr}
use mcpgos.Cpu.Ports.{PortLog, Devices}
use mcpgos.Cpu.Pic.{pic_init, pit_init}
use mcpgos.Cpu.Idt.{IdtTable, IntHandlers, idt_init}
use mcpgos.Mm.Physical
use mcpgos.Mm.Virtual.{Vm, vm_init_allocator}
use mcpgos.Drivers.Manager.{Dm, dm_init, register_driver}
use mcpgos.Drivers.Tty.{
  TtyState, tty_init_state, tty_io_write, tty_io_write_at, tty_io_can_write, tty_stream,
}
use mcpgos.Drivers.RamDisk.{ram_disk_init}
use mcpgos.Scheduler.{Sched}
use mcpgos.Scheduler.Start.{Memory, sched_init, sched_handlers}
use mcpgos.Syscalls.{SyscallHandler, syscall_handlers, syscall_init}
use mcpgos.Vfs.{vfs_init}
use mcpgos.Vfs.Devfs.{Places, Devfs, on_vfs, devfs_init, add_device}

-- What the handlers of interrupts work on. The terminal is the console of the file systems.
pub record Parts : Type 0 where
  pub devfs : Devfs TtyState
  pub sched : Sched

pub record Kernel : Type 0 where
  pub idt_table : IdtTable
  pub int_handlers : IntHandlers Parts
  pub syscalls : ℕ → Option (SyscallHandler Parts)
  pub vm : Vm
  pub driver_count : ℕ
  pub driver_list : ℕ → Ptr
  -- `DriverID` of a DmDriverDefinition.
  pub driver_id : Ptr → Option (List ℕ)
  pub parts : Parts

abbrev pub console : Parts → TtyState
console p = p.devfs.vfs.console

abbrev pub with_console : TtyState → Parts → Parts
with_console c p = record p {
  devfs = record (p.devfs) { vfs = record (p.devfs.vfs) { console = c } };
}

-- Calls on a part of the state.
abbrev pub on_terminal : {A : Type 0} → Cmd TtyState A → Cmd Parts A
on_terminal m p = placed (λ c. with_console c p) (m (console p))

abbrev pub on_parts : {A : Type 0} → Cmd Parts A → Cmd Kernel A
on_parts m k = placed (λ p. record k { parts = p }) (m k.parts)

abbrev pub on_devfs : {A : Type 0} → Cmd (Devfs TtyState) A → Cmd Kernel A
on_devfs m k = placed (λ d. record k { parts = record (k.parts) { devfs = d } }) (m k.parts.devfs)

abbrev pub on_sched : {A : Type 0} → Cmd Sched A → Cmd Kernel A
on_sched m k = placed (λ r. record k { parts = record (k.parts) { sched = r } }) (m k.parts.sched)

abbrev pub on_dm : {A : Type 0} → Cmd (Dm TtyState) A → Cmd Kernel A
on_dm m k =
    placed
      (λ d. record k {
        driver_count = d.driver_count;
        driver_list = d.driver_list;
        parts = with_console d.console k.parts;
      })
      (m (record {
        driver_count = k.driver_count;
        driver_list = k.driver_list;
        console = console k.parts;
      }))

-- A change of the terminal, and writes to ports.
abbrev pub terminal_changes : (TtyState → TtyState) → Cmd Kernel (Unit {0})
terminal_changes f = on_parts (on_terminal (modify f))

abbrev pub writes_ports : (PortLog → PortLog) → Cmd Kernel (Unit {0})
writes_ports f = terminal_changes (λ c. record c { ports = f c.ports })

-- `TTYStream`, on the state of the handlers of interrupts.
pub kernel_stream : IoStream Parts (List ℕ)
unfolding insert_stream_callbacks
kernel_stream =
    insert_stream_callbacks (some (λ buf len. on_terminal (tty_io_write buf len))) none none
      (some (on_terminal tty_io_can_write)) none none none

-- And for a buffer at an address, where `load` reads a byte in a state of the kernel.
pub address_stream : (load : Parts → ℕ → Option ℕ) → IoStream Parts ℕ
unfolding insert_stream_callbacks
address_stream load =
    insert_stream_callbacks
      (some (λ buf len p. on_terminal (tty_io_write_at (λ c. load (with_console c p)) buf len) p))
      none none (some (on_terminal tty_io_can_write)) none none none

-- The places of the static objects and strings, and what `malloc` returns, in the order of the calls.
pub record Boot : Type 0 where
  pub int_default : ℕ
  pub raw : ℕ → ℕ
  pub kernel_size_pages : ℕ
  pub places : Places
  pub tty_device : Ptr
  pub tty_name : Ptr
  pub tty_operations : Ptr
  pub tty_driver : Ptr
  pub ram_disk_driver : Ptr
  pub tty_entry : Ptr
  pub tty_inode : Ptr
  pub process : Ptr
  pub element : Ptr
  pub idle : Memory
  pub test : Memory
  pub devfs_entry : Ptr
  pub idle_name : Ptr
  pub idle_entry : Ptr
  pub test_name : Ptr
  pub test_entry : Ptr
  -- The byte that the processor reads at an address, `none` for a page fault. A byte of the screen
  -- depends on what the terminal shows.
  pub load : Parts → ℕ → Option ℕ

abbrev pub tty_id : List ℕ
tty_id = b'T' ∷ b'T' ∷ b'Y' ∷ []

abbrev pub ram_disk_id : List ℕ
ram_disk_id = b'R' ∷ b'a' ∷ b'm' ∷ b'D' ∷ b'i' ∷ b's' ∷ b'k' ∷ []

-- `DriverDefinition.DriverID = id; DmRegisterDriver(&DriverDefinition);`.
pub register_as : (def : Ptr) (id : List ℕ) → Cmd Kernel (Unit {0})
register_as def id = do
  modify λ k. record k { driver_id = assign k.driver_id def (some id) }
  ids ← λ k. ok k.driver_id k
  on_dm (register_driver none tty_stream ids def)
  pure tt

module _ (devices : Devices) (realloc : (old : Ptr) (size : ℕ) → Cmd (Ptr → Ptr) Ptr) (fuel : ℕ)
    (boot : Boot) where
  -- The device that `TTYInit` fills in and adds.
  pub add_tty : Cmd Kernel (Unit {0})
  add_tty = on_devfs (
      modify (λ d. record d {
        devices =
            assign d.devices boot.tty_device
              (record { name = boot.tty_name; operations = boot.tty_operations });
      })
      >> add_device none tty_stream boot.places realloc fuel boot.tty_entry boot.tty_inode
          boot.tty_device)

  pub tty_init : Cmd Kernel (Unit {0})
  tty_init = do
    terminal_changes (tty_init_state devices)
    add_tty
    register_as boot.tty_driver tty_id

  -- `RamDiskInit`.
  pub ram_disk_start : Cmd Kernel (Unit {0})
  ram_disk_start = do
    modify λ k. record k { driver_id = assign k.driver_id boot.ram_disk_driver (some ram_disk_id) }
    ids ← λ k. ok k.driver_id k
    on_dm (ram_disk_init none tty_stream ids boot.ram_disk_driver)

  -- The processor's tables and its chips, and the memory.
  pub start_machine : Cmd Kernel (Unit {0})
  start_machine = do
    modify λ k. record k { idt_table = idt_init boot.int_default boot.raw k.idt_table }
    writes_ports pic_init
    writes_ports pit_init
    λ k.
        placed (λ p. record k { vm = record (k.vm) { pm = p } })
          (Physical.init_allocator boot.kernel_size_pages k.vm.pm)
    λ k. placed (λ v. record k { vm = v }) (vm_init_allocator k.vm)

  -- `SchedInit`.
  pub start_scheduler : Cmd Kernel (Unit {0})
  start_scheduler = do
    on_sched (
        sched_init fuel boot.process boot.element boot.idle boot.test boot.idle_name boot.idle_entry
          boot.test_name boot.test_entry)
    modify λ k. record k {
      int_handlers =
          sched_handlers (λ p. p.sched) (λ r p. record p { sched = r }) fuel k.int_handlers;
    }

  -- `SyscallInit`.
  pub start_syscalls : Cmd Kernel (Unit {0})
  start_syscalls = modify λ k. record k {
    syscalls = syscall_handlers (address_stream boot.load) none kernel_stream k.syscalls;
    int_handlers =
        syscall_init (address_stream boot.load) none kernel_stream k.syscalls k.int_handlers;
  }

  -- `KMain` before it lets interrupts in and waits for them.
  pub kmain : Cmd Kernel (Unit {0})
  kmain = do
    start_machine
    on_dm dm_init
    tty_init
    ram_disk_start
    start_scheduler
    start_syscalls
    on_devfs (on_vfs vfs_init)
    on_devfs (devfs_init none tty_stream boot.places fuel boot.devfs_entry)
