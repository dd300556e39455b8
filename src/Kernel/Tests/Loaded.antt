-- ===== src/Kernel/Tests/Loaded.antt =====
-- The kernel as the loader leaves it, and the memory and the places of its objects.
use mcpgos.Base.{ℕ, ◌+◌, ◌*◌, refl, false, none, some, [], arith, ltb, ◌==◌, if◌then◌else◌, assign}
use mcpgos.Base.Run.{Cmd, ok}
use mcpgos.Libc.Memory.{Bytes}
use mcpgos.Utils.LinkedList.{Ptr, null}
use mcpgos.Cpu.Ports.{Devices}
use mcpgos.Mm.Virtual.{PageTableEntry}
use mcpgos.Drivers.Tty.{TtyState}
use mcpgos.Scheduler.{running, Sched}
use mcpgos.Scheduler.Frames.{CpuFrame}
use mcpgos.Vfs.Devfs.{Places, empty_root}
use mcpgos.Kernel.{Kernel, Boot}
use mcpgos.Kernel.Start.{IsLaidOut, HasMemory, IsBlank}

abbrev pub places : Places
places = record {
  info = 50;
  instance_at = 51;
  root_dir = 52;
  root_dir_ops = 53;
  empty_string = 99;
  devfs_string = 200;
}

abbrev pub strings : Bytes
strings =
    assign
      (assign
        (assign
          (assign (assign (assign (assign (assign (λ _. 0) 100 b't') 101 b't') 102 b'y') 200 b'd')
            201 b'e')
          202 b'v')
        203 b'f')
      204 b's'

abbrev pub boot : Boot
boot = record {
  int_default = 4096;
  raw = λ v. 8192 + 16 * v;
  kernel_size_pages = 40;
  places = places;
  tty_device = 60;
  tty_name = 100;
  tty_operations = 61;
  tty_driver = 62;
  ram_disk_driver = 63;
  tty_entry = 1000;
  tty_inode = 1100;
  process = 1200;
  element = 1300;
  idle = record { thread = 1400; element = 1500; stack = 1600 };
  test = record { thread = 1700; element = 1800; stack = 1900 };
  devfs_entry = 2100;
  idle_name = 300;
  idle_entry = 5000;
  test_name = 310;
  test_entry = 6000;
  load = λ p a. if ltb a 4096 then some (p.devfs.vfs.memory a) else none;
}

abbrev pub no_frame : CpuFrame
no_frame = record {
  gs = 0;
  fs = 0;
  ss = 0;
  es = 0;
  ds = 0;
  cs = 0;
  edi = 0;
  esi = 0;
  ebp = 0;
  esp = 0;
  ebx = 0;
  edx = 0;
  ecx = 0;
  eax = 0;
  eip = 0;
  eflags = 0;
}

abbrev pub no_page : PageTableEntry
no_page = record {
  present = false;
  writable = false;
  user = false;
  write_through = false;
  cached = false;
  accessed = false;
  dirty = false;
  reserved = false;
  global = false;
  available = 0;
  phys_address = 0;
}

abbrev pub no_sched : Sched
no_sched = record {
  elements = λ _. none;
  thread_of = λ _. null;
  process_of = λ _. null;
  threads = λ _. record {
    parent_process = null;
    thread_name = null;
    state = running;
    remaining_cpu_time = 0;
    cpu_frame = no_frame;
  };
  processes = λ _. record {
    process_id = 0;
    user_id = 0;
    is_kernel_mode = false;
    page_directory = null;
    threads = null;
  };
  tick_counter = 0;
  process_list = null;
  curr_iterated_proc = null;
  curr_iterated_thread = null;
  initialized = false;
  current_pid = 0;
  paging = record {
    words = λ _. 0;
    pm = record { bitmap = λ _. 0; top = 0 };
    directory = null;
    directory_phys = 0;
    cr3 = 0;
    cell = λ p. p;
    kernel_tables = 0;
    zero_identity = 0;
  };
}

-- The screen of the loader, with its cursor in row 3.
abbrev pub screen : TtyState
screen = record { text = λ _. 0x720; cursor_x = 0; cursor_y = 0; attribute = 0; ports = [] }

abbrev pub loaded : Kernel
loaded = record {
  idt_table = λ _. 0;
  int_handlers = λ _. none;
  syscalls = λ _. none;
  vm = record { tables = λ _. no_page; pm = record { bitmap = λ _. 0; top = 0 } };
  driver_count = 0;
  driver_list = λ _. null;
  driver_id = λ _. none;
  parts = record {
    sched = no_sched;
    devfs = record {
      vfs = record {
        elements = λ _. none;
        filesystem_of = λ _. null;
        infos = λ _. record { name = null; create_callback = none };
        fs_list = null;
        memory = strings;
        console = screen;
      };
      device_list = null;
      device_of = λ _. null;
      devices = λ _. record { name = null; operations = null };
      root_directory = null;
      root = record (empty_root places) { children_amount = 0; children = null };
      inodes = λ _. record { base = (empty_root places).inode; device = null };
      cells = λ _. null;
    };
  };
}

-- The chip of the screen has its cursor at the start of row 3.
abbrev pub devices : Devices
devices log port = if port == 0x3D5 then 0 else 255

-- A `realloc` of nothing returns the address 2000.
abbrev pub to_2000 : (old : Ptr) (size : ℕ) → Cmd (Ptr → Ptr) Ptr
to_2000 old size cells = ok 2000 cells

pub loaded-IsBlank : IsBlank loaded
loaded-IsBlank = record {
  device_list = refl;
  children_amount = refl;
  fs_list = refl;
  process_list = refl;
}

pub boot-IsLaidOut : IsLaidOut boot strings
boot-IsLaidOut = record {
  tty_driver = omega arith;
  ram_disk_driver = omega arith;
  tty_device = omega arith;
  info = omega arith;
  tty_name_at = omega arith;
  tty_name_is = (omega arith, refl, (omega arith, refl, (omega arith, refl, refl)));
  devfs_string_at = omega arith;
  devfs_string_is = (
    omega arith,
    refl,
    (omega arith, refl, (omega arith, refl, (omega arith, refl, (omega arith, refl, refl)))),
  );
  idle_name = omega arith;
  test_name = omega arith;
  kernel_fits = omega arith;
}

pub boot-HasMemory : HasMemory boot
boot-HasMemory = record {
  tty_entry = omega arith;
  tty_inode = omega arith;
  devfs_entry = omega arith;
  process = omega arith;
  element = omega arith;
  idle = (omega arith, omega arith);
  test = (omega arith, omega arith);
  idle_apart = omega arith;
  test_apart = omega arith;
  elements_apart = omega arith;
  threads_apart = omega arith;
}
