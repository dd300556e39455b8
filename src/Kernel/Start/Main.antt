-- ===== src/Kernel/Start/Main.antt =====
-- `KMain`, from the first call to the last.
use mcpgos.Base.{ℕ, ◌<◌, ◌≡◌, refl, ap, ◌≢◌, none, [], arith}
use mcpgos.Base.Run.{Cmd, ok, placed, then_returns}
use mcpgos.Utils.LinkedList.{Ptr, null}
use mcpgos.Cpu.Ports.{Devices}
use mcpgos.Drivers.Manager.{dm_init}
use mcpgos.Drivers.Tty.{tty_stream}
use mcpgos.Drivers.Tty.Console.{Shown}
use mcpgos.Vfs.Devfs.Init.{devfs_init-Speaks}
use mcpgos.Kernel.{Kernel, Boot, ram_disk_id, start_syscalls, kmain}
use mcpgos.Kernel.Drivers.{terminal-Speaks, registered, ram_disk_start_lem}
use mcpgos.Kernel.Start.{IsLaidOut, HasMemory, IsBlank, first_screen, IsUp}
use mcpgos.Kernel.Start.Steps.{
  machine_up, tty_up, sched_up, syscalls_up, devfs_up, start_machine_lem, start_scheduler_lem,
  handlers_lem, device_leads, tty_init_lem,
}

module _ (devices : Devices) (realloc : (old : Ptr) (size : ℕ) → Cmd (Ptr → Ptr) Ptr) (fuel : ℕ)
    (boot : Boot) where
  -- With enough fuel, from a state in which nothing is registered, with the static objects and the
  -- strings in their places, memory from `malloc`, and a `realloc` that returns a place, `KMain`
  -- returns from every part's start and lets interrupts in. Then the terminal and the RAM disk are the
  -- registered drivers, in this order; `devfs` is the one file system; the terminal is the one device
  -- in the list of devices, but the directory of the devices is empty; the scheduler has the process
  -- of the kernel with its two threads; the timer's interrupt leads to the scheduler and 0x83 to the
  -- system calls, and the other vectors are as before; and the terminal shows the four lines that
  -- were printed, behind what it showed before.
  pub kmain_lem :
      (s : Kernel) (p : Ptr) (m : Ptr → Ptr)
      → IsBlank s
      → IsLaidOut boot s.parts.devfs.vfs.memory
      → HasMemory boot
      → 5 < fuel
      → realloc s.parts.devfs.root.children 4 s.parts.devfs.cells ≡ ok p m
      → p ≢ null
      → (t : Kernel) × ((kmain devices realloc fuel boot s ≡ ok tt t) × IsUp devices fuel boot s t)
  unfolding kmain start_syscalls dm_init
  kmain_lem s p m blank laid has room moved np =
      let c = first_screen devices s in
      let (pm, machine) = start_machine_lem devices realloc fuel boot s laid.kernel_fits in
      let k1 = machine_up boot s pm in
      let k2 = record k1 { driver_count = 0 } in
      let (h, d, e, (tty, said3)) =
        tty_init_lem devices realloc fuel boot k2 p m refl laid has blank.device_list
          blank.children_amount (omega arith) moved np in
      let k3 = tty_up boot k2 p m h d e in
      let (f, (disk, said4)) =
        ram_disk_start_lem devices realloc fuel boot c _ k3 laid.ram_disk_driver (omega arith)
          said3 in
      let k4 = registered k3 boot.ram_disk_driver ram_disk_id f in
      let (r, (sched, started, initialized)) =
        start_scheduler_lem devices realloc fuel boot k4 laid has (omega arith)
          blank.process_list in
      let k5 = sched_up fuel k4 r in
      let k6 = syscalls_up boot k5 in
      let (v, (files, registry, _, shown)) =
        devfs_init-Speaks none tty_stream boot.places (Shown c) (terminal-Speaks c) fuel
          boot.devfs_entry k6.parts.devfs [] [] _
          (record { linked = tt; head = blank.fs_list; known = tt }) tt (omega arith) room
          has.devfs_entry refl laid.info laid.devfs_string_at laid.devfs_string_is tt tt said4 in
      let (timer, syscall, others) = handlers_lem devices realloc fuel boot k4 r in
      (
        devfs_up boot k6 v,
        (
          then_returns _ tt k1 machine (
              then_returns _ tt k3 tty
                (then_returns _ tt k4 disk (then_returns _ tt k5 sched (ap (placed _) files)))),
          record {
            driver_count = refl;
            first_driver = refl;
            second_driver = refl;
            filesystems = registry;
            device_list = refl;
            device = device_leads devices realloc fuel boot s.parts.devfs.device_of;
            root = refl;
            sched = started;
            initialized = initialized;
            timer = timer;
            syscall = syscall;
            others = others;
            screen = shown;
          },
        ),
      )
