-- ===== src/Scheduler/Irq/Tests.antt =====
-- Runs of the timer interrupt.
use mcpgos.Base.{inr, ℕ, ◌+◌, ◌-◌, ◌≡◌, refl, ◌≢◌, true, none, some, arith, assign}
use mcpgos.Base.Run.{ok, end_of}
use mcpgos.Base.Words.{u64}
use mcpgos.Mm.Paging.{
  Paging, switch_page_directory, virt_to_phys, get_table_entry, get_table_addr, get_table,
}
use mcpgos.Utils.LinkedList.{Ptr, null, links, load}
use mcpgos.Scheduler.{time_per_thread, TaskState, running, sleeping, SchedThread, Process, Sched}
use mcpgos.Scheduler.Frames.{CpuFrame, IdtFrame, save_frame, load_frame}
use mcpgos.Scheduler.Irq.{
  next_of, current_thread, current_process, pick_process, pick_next_thread, after_pick, pick_loop,
  pick_next_task, tick_running, tick_sleeping, tick, save_context, on_paging, switch_context,
  irq_handler,
}
use mcpgos.Scheduler.Frames.Registers.{Carries, SameRegisters}
use mcpgos.Scheduler.Irq.Current.{thread_now}
use mcpgos.Scheduler.Irq.Interrupt.{no_interrupt, interrupt, irq_handler_lem, sleeper_never_wakes}
use mcpgos.Scheduler.Irq.Slice.{thread_keeps_the_cpu}
use mcpgos.Scheduler.Irq.Reach.{
  Follows, with_threads, same_process, next_process, Reach, awake, asleep,
}
use mcpgos.Scheduler.Irq.Turn.{next_thread_runs}

abbrev no_frame : CpuFrame
no_frame = record {
  gs = 0;
  fs = 0;
  ss = 0;
  es = 0;
  ds = 0;
  cs = 0;
  edi = 0;
  esi = 0;
  ebp = 0;
  esp = 0;
  ebx = 0;
  edx = 0;
  ecx = 0;
  eax = 0;
  eip = 0;
  eflags = 0;
}

abbrev frame_at : ℕ → IdtFrame
frame_at n = record {
  gs = 0;
  fs = 0;
  es = 0;
  ds = 0;
  edi = 0;
  esi = 0;
  ebp = 0;
  pushed_esp = 0;
  ebx = 0;
  edx = 0;
  ecx = 0;
  eax = 0;
  interrupt_number = 0x20;
  error_code = 0;
  eip = n;
  cs = 0x08;
  eflags = 0x200;
  user_esp = 0;
  ss = 0x10;
}

abbrev thread_with : TaskState → ℕ → SchedThread
thread_with st n = record {
  parent_process = 21;
  thread_name = 30;
  state = st;
  remaining_cpu_time = n;
  cpu_frame = no_frame;
}

abbrev kernel_process : Process
kernel_process = record {
  process_id = 0;
  user_id = 0;
  is_kernel_mode = true;
  page_directory = 40;
  threads = 10;
}

-- A directory at 41 in which nothing is mapped.
abbrev no_tables : Paging
no_tables = record {
  words = λ a. 0;
  pm = record { bitmap = λ a. 0; top = 0 };
  directory = 41;
  directory_phys = 0;
  cr3 = 0;
  cell = λ p. p;
  kernel_tables = 0x100000;
  zero_identity = 0x200000;
}

-- A process with a running thread at 11, of `n` ticks, and a sleeping one at 13.
abbrev one_asleep : ℕ → Sched
one_asleep n = record {
  elements =
      assign (assign (assign (λ _. none) 10 (some (links 12 null))) 12 (some (links null 10))) 20
        (some (links null null));
  thread_of = assign (assign (λ _. null) 10 11) 12 13;
  process_of = assign (λ _. null) 20 21;
  threads = assign (λ _. thread_with running n) 13 (thread_with sleeping 5);
  processes = λ _. kernel_process;
  tick_counter = 7;
  process_list = 20;
  curr_iterated_proc = 20;
  curr_iterated_thread = 10;
  initialized = true;
  current_pid = 1;
  paging = no_tables;
}

abbrev next_frame : ℕ → Sched → IdtFrame → Sched
next_frame n s f = end_of s (irq_handler n f s)

abbrev after_one : Sched
after_one = next_frame 9 (one_asleep 1) (frame_at 100)

abbrev after_two : Sched
after_two = next_frame 9 after_one (frame_at 200)

one_interrupt : irq_handler 9 (frame_at 100) (one_asleep 1) ≡ ok (frame_at 100) after_one
unfolding irq_handler save_context tick tick_running tick_sleeping switch_context on_paging
    switch_page_directory virt_to_phys get_table_entry get_table_addr get_table next_of
    current_thread current_process pick_process pick_next_thread after_pick pick_loop pick_next_task
    load save_frame load_frame
one_interrupt = refl

two_interrupts : irq_handler 9 (frame_at 200) after_one ≡ ok (frame_at 200) after_two
unfolding irq_handler save_context tick tick_running tick_sleeping switch_context on_paging
    switch_page_directory virt_to_phys get_table_entry get_table_addr get_table next_of
    current_thread current_process pick_process pick_next_thread after_pick pick_loop pick_next_task
    load save_frame load_frame
two_interrupts = refl

irq_handler_lem_example :
    ((after_one.threads (thread_now after_one)).state ≡ running)
    × ((p : Ptr)
        → ((one_asleep 1).threads p).state ≡ running
        → (after_one.threads p).state ≡ running)
    × ((p : Ptr)
        → p ≢ 11
        → ((one_asleep 1).threads p).state ≡ sleeping
        → (after_one.threads p).state ≡ sleeping)
irq_handler_lem_example =
    irq_handler_lem 9 (frame_at 100) (frame_at 100) (one_asleep 1) after_one one_interrupt

sleeper_never_wakes_example : (after_two.threads 13).state ≡ sleeping
sleeper_never_wakes_example = sleeper_never_wakes 13 (one_asleep 1) after_two refl refl (
    interrupt 9 (frame_at 100) (frame_at 100) after_one one_interrupt
      (interrupt 9 (frame_at 200) (frame_at 200) after_two two_interrupts no_interrupt))

thread_keeps_the_cpu_example :
    (t : Sched) × ((irq_handler 0 (frame_at 100) (one_asleep 2) ≡ ok (frame_at 100) t)
      × (t.curr_iterated_thread ≡ (one_asleep 2).curr_iterated_thread)
      × ((t.threads (thread_now (one_asleep 2))).remaining_cpu_time
          ≡ ((one_asleep 2).threads (thread_now (one_asleep 2))).remaining_cpu_time - 1)
      × (t.tick_counter ≡ u64 ((one_asleep 2).tick_counter + 1)))
thread_keeps_the_cpu_example =
    thread_keeps_the_cpu 0 (frame_at 100) (one_asleep 2) refl
      (omega arith, omega arith, omega arith, omega arith) (inr (omega arith, omega arith)) refl
      (omega arith)

-- A process with a sleeping thread at 11, a running one at 13, and the current one at 15.
abbrev in_turn : Sched
in_turn = record (one_asleep 1) {
  elements =
      assign
        (assign (assign (assign (λ _. none) 10 (some (links 12 null))) 12 (some (links 14 10))) 14
          (some (links null 12)))
        20 (some (links null null));
  thread_of = assign (assign (assign (λ _. null) 10 11) 12 13) 14 15;
  threads = assign (λ _. thread_with running 1) 11 (thread_with sleeping 5);
  curr_iterated_thread = 14;
}

behind_last : Follows in_turn 20 20
behind_last = record {
  element = omega arith;
  link = links null null;
  linked = refl;
  next = refl;
  not_null = omega arith;
  has_process = omega arith;
}

-- From the last thread to the first of the same process, which sleeps, and on to the second.
to_second : Reach in_turn 1 2 20 14 20 12
to_second =
    asleep
      (next_process (links null 12) (omega arith) refl refl (with_threads behind_last (omega arith))
        (omega arith))
      (record { element = omega arith; thread = omega arith; state = refl })
      (awake (same_process (links 12 null) (omega arith) refl (omega arith))
        (record { element = omega arith; thread = omega arith; state = refl }))

next_thread_runs_example :
    (g : IdtFrame) × (t : Sched) × ((irq_handler 3 (frame_at 100) in_turn ≡ ok g t)
      × (in_turn.thread_of 12 ≢ thread_now in_turn → Carries g (in_turn.threads 13).cpu_frame)
      × (in_turn.thread_of 12 ≡ thread_now in_turn → SameRegisters (frame_at 100) g)
      × (t.curr_iterated_thread ≡ 12)
      × (t.curr_iterated_proc ≡ 20)
      × ((t.threads 13).state ≡ running)
      × ((t.threads 13).remaining_cpu_time ≡ time_per_thread)
      × Carries (frame_at 100) (t.threads 15).cpu_frame)
next_thread_runs_example =
    next_thread_runs 3 1 2 (frame_at 100) in_turn 20 12 refl
      (omega arith, omega arith, omega arith, omega arith) refl (omega arith) to_second
      (omega arith) (omega arith) (omega arith) (inr (omega arith, omega arith))
