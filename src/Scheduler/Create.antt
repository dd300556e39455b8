-- ===== src/Scheduler/Create.antt =====
-- `SchedCreateProcess`, `SchedCreateThread` and `SchedSleep` up to its interrupt. What `malloc`
-- returns for a structure, NULL if it fails, is an argument.
pub mod Lists
pub mod Threads
use mcpgos.Base.{ℕ, ◌+◌, Bool, true, false, not, some, ◌==◌, if◌then◌else◌, assign}
use mcpgos.Base.Words.{u32}
use mcpgos.Base.Run.{
  Cmd, ok, panic, fault, out_of_fuel, pure, ◌>>=◌, ◌>>◌, assert, in_bounds, modify,
}
use mcpgos.Utils.LinkedList.{Ptr, null, links, Heap, push_back}
use mcpgos.Scheduler.{running, sleeping, Sched, time_per_thread}
use mcpgos.Mm.Paging.{alloc_page_directory}
use mcpgos.Scheduler.Irq.{on_paging}
use mcpgos.Scheduler.Frames.{CpuFrame}

abbrev pub gdt_kernel_code : ℕ
gdt_kernel_code = 0x08

abbrev pub gdt_kernel_data : ℕ
gdt_kernel_data = 0x10

abbrev pub gdt_user_code : ℕ
gdt_user_code = 0x18

abbrev pub gdt_user_data : ℕ
gdt_user_data = 0x20

-- A call on the elements of the lists.
unfoldable pub on_elements : {A : Type 0} → Cmd Heap A → Cmd Sched A
on_elements m s = elim (m s.elements) [
  | ok a h ↦ ok a (record s { elements = h })
  | panic r ↦ panic r
  | fault ↦ fault
  | out_of_fuel ↦ out_of_fuel
]

-- A new element, linked to nothing.
abbrev pub new_element : Ptr → Sched → Sched
new_element e s = record s { elements = assign s.elements e (some (links null null)) }

-- The branch of `allocPageDir`.
pub give_directory : (alloc_page_dir : Bool) (process directory : Ptr) → Cmd Sched (Unit {0})
give_directory true process directory = do
  pd ← on_paging (alloc_page_directory directory)
  modify λ s. record s {
    processes = assign s.processes process (record (s.processes process) { page_directory = pd });
  }
give_directory false process directory = pure tt

pub create_process :
    (fuel : ℕ) (process element directory : Ptr) (kernel_mode alloc_page_dir : Bool) (uid : ℕ)
    → Cmd Sched Ptr
create_process fuel process element directory kernel_mode alloc_page_dir uid = do
  assert (not (process == null))
  assert (not (element == null))
  modify λ s. record s {
    processes = assign s.processes process (record {
      process_id = s.current_pid;
      user_id = uid;
      is_kernel_mode = kernel_mode;
      page_directory = null;
      threads = null;
    });
    current_pid = u32 (s.current_pid + 1);
  }
  give_directory alloc_page_dir process directory
  modify λ s. record (new_element element s) { process_of = assign s.process_of element process }
  list ← λ s. ok s.process_list s
  elim (list == null) [
    | true ↦ modify λ s. record s { process_list = element }
    | false ↦ on_elements (push_back fuel list element)
  ]
  pure process

-- The frame that a new thread starts with.
unfoldable pub first_frame : (kernel_mode : Bool) (eip stack : ℕ) → CpuFrame
first_frame kernel_mode eip stack =
    let code = if kernel_mode then gdt_kernel_code else gdt_user_code + 3 in
    let data_segment = if kernel_mode then gdt_kernel_data else gdt_user_data + 3 in
    record {
      gs = data_segment;
      fs = data_segment;
      ss = data_segment;
      es = data_segment;
      ds = data_segment;
      cs = code;
      edi = 0;
      esi = 0;
      ebp = stack;
      esp = stack;
      ebx = 0;
      edx = 0;
      ecx = 0;
      eax = 0;
      eip = eip;
      eflags = 0x200;
    }

-- `owner->IsKernelMode` is read before `owner` is tested.
pub create_thread :
    (fuel : ℕ) (thread element : Ptr) (owner name : Ptr) (eip stack : ℕ) → Cmd Sched Ptr
create_thread fuel thread element owner name eip stack = do
  in_bounds (not (owner == null))
  kernel_mode ← λ s. ok (s.processes owner).is_kernel_mode s
  assert (not (owner == null))
  assert (not (name == null))
  assert (not (thread == null))
  assert (not (element == null))
  modify λ s. record s {
    threads = assign s.threads thread (record {
      parent_process = owner;
      thread_name = name;
      state = running;
      remaining_cpu_time = time_per_thread;
      cpu_frame = first_frame kernel_mode eip stack;
    });
  }
  modify λ s. record (new_element element s) { thread_of = assign s.thread_of element thread }
  list ← λ s. ok (s.processes owner).threads s
  elim (list == null) [
    | true ↦ modify λ s. record s {
      processes = assign s.processes owner (record (s.processes owner) { threads = element });
    }
    | false ↦ on_elements (push_back fuel list element)
  ]
  pure thread

-- `SchedSleep` before `SchedTick`, which raises the timer's interrupt.
unfoldable pub sleep : (thread : Ptr) (millis : ℕ) → Cmd Sched (Unit {0})
sleep thread millis = do
  assert (not (thread == null))
  modify λ s. record s {
    threads =
        assign s.threads thread
          (record (s.threads thread) { state = sleeping; remaining_cpu_time = millis });
  }
