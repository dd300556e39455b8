-- ===== src/Kernel/Drivers.antt =====
-- The drivers and the device of the terminal, as `KMain` sets them up.
use mathlib.Core.Path.{subst}
use mcpgos.Base.{
  ℕ, suc, ◌<◌, ◌≡◌, refl, sym, ap, ◌∙◌, ◌≢◌, Option, none, some, List, [], ◌∷◌, arith, assign,
}
use mcpgos.Base.Run.{Cmd, ok, placed, then_returns}
use mcpgos.Kprintf.Speaks.{Speaks, Writes-Speaks}
use mcpgos.Libc.Strings.{IsString}
use mcpgos.Utils.LinkedList.{Ptr, null, Heap}
use mcpgos.Cpu.Ports.{Devices}
use mcpgos.Drivers.Manager.{said_driver, register_driver-Speaks}
use mcpgos.Drivers.Tty.{TtyState, tty_stream}
use mcpgos.Drivers.Tty.Console.{Shown, tty_stream-Writes}
use mcpgos.Drivers.RamDisk.{ram_disk_init}
use mcpgos.Vfs.Devfs.{Devfs}
use mcpgos.Vfs.Devfs.Add.{said_device, device_added, add_device-Speaks}
use mcpgos.Vfs.Devfs.Listing.{IsDevfs}
use mcpgos.Kernel.{
  Kernel, console, with_console, Boot, ram_disk_id, register_as, add_tty, ram_disk_start,
}

-- The name of the terminal's device.
abbrev pub tty_name : List ℕ
tty_name = b't' ∷ b't' ∷ b'y' ∷ []

pub terminal-Speaks : (c : TtyState) → Speaks (Shown c) none tty_stream
terminal-Speaks c = Writes-Speaks (Shown c) tty_stream (tty_stream-Writes c)

-- A driver is in the table, under its name.
abbrev pub registered : Kernel → Ptr → List ℕ → TtyState → Kernel
registered k def id c = record k {
  driver_id = assign k.driver_id def (some id);
  driver_count = suc k.driver_count;
  driver_list = assign k.driver_list k.driver_count def;
  parts = with_console c k.parts;
}

named : (f : Ptr → Option (List ℕ)) (def : Ptr) (id : List ℕ) → assign f def (some id) def ≡ some id
named f def id = ground arith

module _ (c : TtyState) (out : List ℕ) (k : Kernel) (def : Ptr) (id : List ℕ) (n : def ≢ 0)
    (room : k.driver_count < 32) (shown : Shown c out (console k.parts)) where
  pub register_as_lem :
      (d : TtyState) × ((register_as def id k ≡ ok tt (registered k def id d))
        × Shown c (said_driver out id) d)
  unfolding register_as
  register_as_lem =
      let (d, (run, said)) =
        register_driver-Speaks (Shown c) none tty_stream (terminal-Speaks c)
          (assign k.driver_id def (some id))
          (record {
            driver_count = k.driver_count;
            driver_list = k.driver_list;
            console = console k.parts;
          })
          def id out n room (named k.driver_id def id) shown in
      (d, (then_returns _ 1 (registered k def id d) (ap (placed _) run) refl, said))

module _ (boot : Boot) where
  -- The devices with the one of the terminal.
  abbrev pub with_tty : Devfs TtyState → Devfs TtyState
  with_tty s = record s {
    devices =
        assign s.devices boot.tty_device
          (record { name = boot.tty_name; operations = boot.tty_operations });
  }

  -- The device file system after it was added as the first device.
  abbrev pub tty_added :
      Devfs TtyState → (p : Ptr) (m : Ptr → Ptr) → Heap → TtyState → Devfs TtyState
  tty_added s p m h d =
      device_added boot.places (with_tty s) boot.tty_entry boot.tty_inode boot.tty_device
        boot.tty_entry p 0 m h d

  tty_name_lem : (s : Devfs TtyState) → ((with_tty s).devices boot.tty_device).name ≡ boot.tty_name
  tty_name_lem s = ground arith

module _ (devices : Devices) (realloc : (old : Ptr) (size : ℕ) → Cmd (Ptr → Ptr) Ptr) (fuel : ℕ)
    (boot : Boot) where
  pub ram_disk_start_lem :
      (c : TtyState) (out : List ℕ) (k : Kernel)
      → boot.ram_disk_driver ≢ 0
      → k.driver_count < 32
      → Shown c out (console k.parts)
      → (d : TtyState) × ((ram_disk_start devices realloc fuel boot k
            ≡ ok tt (registered k boot.ram_disk_driver ram_disk_id d))
          × Shown c (said_driver out ram_disk_id) d)
  unfolding ram_disk_start ram_disk_init
  ram_disk_start_lem c out k n room shown =
      let (d, (run, said)) =
        register_driver-Speaks (Shown c) none tty_stream (terminal-Speaks c)
          (assign k.driver_id boot.ram_disk_driver (some ram_disk_id))
          (record {
            driver_count = k.driver_count;
            driver_list = k.driver_list;
            console = console k.parts;
          })
          boot.ram_disk_driver ram_disk_id out n room
          (named k.driver_id boot.ram_disk_driver ram_disk_id) shown in
      (d, (ap (placed _) (then_returns _ 1 _ run refl), said))

  pub add_tty_lem :
      (c : TtyState) (out : List ℕ) (k : Kernel) (p : Ptr) (m : Ptr → Ptr)
      → k.parts.devfs.device_list ≡ null
      → k.parts.devfs.root.children_amount ≡ 0
      → boot.tty_entry ≢ null
      → boot.tty_inode ≢ null
      → boot.tty_device ≢ null
      → boot.tty_name ≢ null
      → IsString k.parts.devfs.vfs.memory boot.tty_name tty_name
      → 3 < fuel
      → realloc k.parts.devfs.root.children 4 k.parts.devfs.cells ≡ ok p m
      → p ≢ null
      → Shown c out (console k.parts)
      → (h : Heap) × (d : TtyState) × ((add_tty devices realloc fuel boot k
            ≡ ok tt (record k {
              parts = record (k.parts) { devfs = tty_added boot k.parts.devfs p m h d };
            }))
          × Shown c (said_device out tty_name) d)
  unfolding add_tty
  add_tty_lem c out k p m none_yet amount en inn dn nn str room moved np shown =
      let s = with_tty boot k.parts.devfs in
      let named : (s.devices boot.tty_device).name ≡ boot.tty_name =
        tty_name_lem boot k.parts.devfs in
      let dev : IsDevfs boot.places s [] [] = record {
        linked = tt;
        head = none_yet;
        leads = refl;
        amount = amount;
        listed = tt;
      } in
      let (h, d, (run, _, said)) =
        add_device-Speaks (Shown c) none tty_stream (terminal-Speaks c) fuel boot.places realloc
          boot.tty_entry boot.tty_inode boot.tty_device s tty_name out [] [] p m dev (omega arith)
          en refl inn (λ j l. absurd (omega (arith, l))) dn (λ z. nn (sym named ∙ z))
          (subst (λ q. IsString s.vfs.memory q tty_name) (sym named) str) room (omega arith) moved
          np (λ j l. absurd (omega (arith, l))) shown in
      (h, d, (ap (placed _) run, said))
