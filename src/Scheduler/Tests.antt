-- ===== src/Scheduler/Tests.antt =====
-- The frames, and the first process and thread.
use mcpgos.Base.{◌+◌, ◌≡◌, refl, true, false, none, some, [], ◌∷◌, arith, if◌then◌else◌, assign}
use mcpgos.Base.Words.{u32}
use mcpgos.Base.Run.{ok}
use mcpgos.Mm.Paging.{Paging}
use mcpgos.Utils.LinkedList.{null, links}
use mcpgos.Utils.LinkedList.Chain.{first_or, IsList}
use mcpgos.Scheduler.{SchedThread, Sched}
use mcpgos.Scheduler.Frames.{CpuFrame, IdtFrame}
use mcpgos.Scheduler.Create.{create_process, create_thread}
use mcpgos.Scheduler.Create.Lists.{create_process_lem}
use mcpgos.Scheduler.Create.Threads.{new_thread, IsNewThread, create_thread_lem}

abbrev cpu : CpuFrame
cpu = record {
  gs = 1;
  fs = 2;
  ss = 3;
  es = 4;
  ds = 5;
  cs = 6;
  edi = 7;
  esi = 8;
  ebp = 9;
  esp = 10;
  ebx = 11;
  edx = 12;
  ecx = 13;
  eax = 14;
  eip = 15;
  eflags = 16;
}

abbrev idt : IdtFrame
idt = record {
  gs = 21;
  fs = 22;
  es = 23;
  ds = 24;
  edi = 25;
  esi = 26;
  ebp = 27;
  pushed_esp = 28;
  ebx = 29;
  edx = 30;
  ecx = 31;
  eax = 32;
  interrupt_number = 33;
  error_code = 34;
  eip = 35;
  cs = 36;
  eflags = 37;
  user_esp = 38;
  ss = 39;
}

abbrev no_thread : SchedThread
no_thread = new_thread null null true 0 0

-- No page table but one in the making.
abbrev no_tables : Paging
no_tables = record {
  words = λ a. 0;
  pm = record { bitmap = λ a. 0; top = 0 };
  directory = null;
  directory_phys = 0;
  cr3 = 0;
  cell = λ p. p;
  kernel_tables = 0x100000;
  zero_identity = 0x200000;
}

-- One process at 21, by the element at 20, with one thread, by the element at 10.
abbrev one_process : Sched
one_process = record {
  elements = assign (assign (λ _. none) 10 (some (links null null))) 20 (some (links null null));
  thread_of = assign (λ _. null) 10 11;
  process_of = assign (λ _. null) 20 21;
  threads = λ _. no_thread;
  processes = λ _. record {
    process_id = 0;
    user_id = 0;
    is_kernel_mode = true;
    page_directory = null;
    threads = 10;
  };
  tick_counter = 0;
  process_list = 20;
  curr_iterated_proc = 20;
  curr_iterated_thread = 10;
  initialized = true;
  current_pid = 1;
  paging = no_tables;
}

create_process_lem_example :
    (t : Sched) × ((create_process 5 31 30 99 false true 1000 one_process ≡ ok 31 t)
      × (t.process_list ≡ first_or null (20 ∷ 30 ∷ []))
      × IsList t.elements (20 ∷ 30 ∷ [])
      × (t.process_of 30 ≡ 31)
      × ((t.processes 31).process_id ≡ one_process.current_pid)
      × ((t.processes 31).page_directory ≡ (if true then 99 else null))
      × ((t.processes 31).threads ≡ null)
      × (t.current_pid ≡ u32 (one_process.current_pid + 1)))
create_process_lem_example =
    create_process_lem 5 31 30 99 false true 1000 one_process (20 ∷ []) (omega arith) (omega arith)
      (omega arith, refl, refl, tt) refl refl (omega arith)

create_thread_lem_example :
    (t : Sched) × ((create_thread 5 13 12 21 77 5000 6000 one_process ≡ ok 13 t)
      × ((t.processes 21).threads ≡ first_or null (10 ∷ 12 ∷ []))
      × IsList t.elements (10 ∷ 12 ∷ [])
      × (t.thread_of 12 ≡ 13)
      × IsNewThread 21 77 true 5000 6000 (t.threads 13))
create_thread_lem_example =
    create_thread_lem 5 13 12 21 77 5000 6000 one_process (10 ∷ []) (omega arith) (omega arith)
      (omega arith) (omega arith) (omega arith, refl, refl, tt) refl refl (omega arith)
