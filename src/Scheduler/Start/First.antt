-- ===== src/Scheduler/Start/First.antt =====
-- The first timer interrupts after `SchedInit`.
use mathlib.Core.Path.{subst}
use mcpgos.Base.{
  ℕ, ◌+◌, ◌-◌, ◌≤◌, ◌<◌, ◌≡◌, refl, sym, ap, ◌∙◌, ◌≢◌, inl, true, false, arith, ◌==◌, if◌then◌else◌,
  assign, ne→==,
}
use mcpgos.Base.Run.{ok}
use mcpgos.Base.Words.{u64}
use mcpgos.Utils.LinkedList.{Ptr, null, links}
use mcpgos.Mm.Paging.{Paging}
use mcpgos.Scheduler.{running, SchedThread, Sched, time_per_thread}
use mcpgos.Scheduler.Frames.{CpuFrame, IdtFrame, save_frame, load_frame}
use mcpgos.Scheduler.Irq.{with_time, irq_handler}
use mcpgos.Scheduler.Irq.Current.{thread_now}
use mcpgos.Scheduler.Irq.Begin.{first_interrupt}
use mcpgos.Scheduler.Irq.Reach.{same_process, Reach, awake}
use mcpgos.Scheduler.Irq.Slice.{HasCurrent, assign_same}
use mcpgos.Scheduler.Irq.Turn.{kept_frame, next_thread_loads}
use mcpgos.Scheduler.Create.{first_frame}
use mcpgos.Scheduler.Create.Threads.{new_thread}
use mcpgos.Scheduler.Start.{Memory, stack_allocate}
use mcpgos.Scheduler.Start.Initial.{IsStarted, IsAllocated}

-- The registers with which a thread begins at `entry`, on its stack, in the kernel's mode.
abbrev pub begins : IdtFrame → (memory : Memory) (entry : Ptr) → IdtFrame
begins f memory entry = load_frame f (first_frame true entry (stack_allocate memory.stack 128))

elsewhere : (f : Ptr → SchedThread) (p q : Ptr) (v : SchedThread) → q ≢ p → assign f p v q ≡ f q
elsewhere f p q v n = ground arith

other_frame :
    (g : IdtFrame) (p q : Ptr) → p ≢ q → (x : CpuFrame) → (if p == q then save_frame g else x) ≡ x
other_frame g p q n x = rw (ne→== p q n) refl

module _ (process element : Ptr) (idle test : Memory)
    (idle_name idle_entry test_name test_entry : Ptr) (s : Sched)
    (up : IsStarted process element idle test idle_name idle_entry test_name test_entry s)
    (np : process ≢ null) (ne : element ≢ null) (ai : IsAllocated idle) (at : IsAllocated test)
    (apart : idle.thread ≢ test.thread) where
  now_lem : thread_now s ≡ idle.thread
  now_lem = ap s.thread_of up.curr_iterated_thread ∙ up.idle_thread.leads

  process_lem : s.process_of s.curr_iterated_proc ≡ process
  process_lem = ap s.process_of up.curr_iterated_proc ∙ up.process_of

  idle_lem :
      s.threads (thread_now s)
      ≡ new_thread process idle_name true idle_entry (stack_allocate idle.stack 128)
  idle_lem = ap s.threads now_lem ∙ up.idle_thread.thread

  has_current : HasCurrent s
  has_current = (
    λ e. ai.1 (sym up.curr_iterated_thread ∙ e),
    λ e. ai.0 (sym now_lem ∙ e),
    λ e. ne (sym up.curr_iterated_proc ∙ e),
    λ e. np (sym process_lem ∙ e),
  )

  no_directory : (s.processes (s.process_of s.curr_iterated_proc)).page_directory ≡ null
  no_directory = ap (λ p. (s.processes p).page_directory) process_lem ∙ up.page_directory

  -- The state after the first interrupt.
  abbrev pub after_first : (ticks : ℕ) → Paging → Sched
  after_first ticks p = record s {
    tick_counter = ticks;
    initialized = true;
    threads =
        assign s.threads (thread_now s) (
          with_time (s.threads (thread_now s)) ((s.threads (thread_now s)).remaining_cpu_time - 1));
    paging = p;
  }

  module _ (ticks : ℕ) (p : Paging) where
    first_now :
        (after_first ticks p).threads (thread_now s)
        ≡ with_time (s.threads (thread_now s)) ((s.threads (thread_now s)).remaining_cpu_time - 1)
    first_now = assign_same s.threads (thread_now s) _

    test_lem :
        (after_first ticks p).threads (s.thread_of test.element)
        ≡ new_thread process test_name true test_entry (stack_allocate test.stack 128)
    test_lem =
        ap (after_first ticks p).threads up.test_thread.leads
        ∙ elsewhere s.threads (thread_now s) test.thread _ (λ e. apart (sym now_lem ∙ sym e))
        ∙ up.test_thread.thread

    -- The walk leads from the first thread to the second.
    to_test :
        Reach
          (after_first ticks p)
          1
          1
          s.curr_iterated_proc
          s.curr_iterated_thread
          s.curr_iterated_proc
          test.element
    to_test =
        awake
          (same_process (links test.element null) has_current.0
            (ap s.elements up.curr_iterated_thread ∙ up.threads_linked.1) at.1)
          (record {
            element = at.1;
            thread = λ e. at.0 (sym up.test_thread.leads ∙ e);
            state = ap (λ z. z.state) test_lem;
          })

    test_begins :
        (g : IdtFrame)
        → load_frame g (kept_frame (after_first ticks p) g (s.thread_of test.element))
          ≡ begins g test test_entry
    test_begins g = ap (load_frame g) (
        other_frame g (s.thread_of test.element) (thread_now s)
          (λ e. apart (sym now_lem ∙ sym e ∙ up.test_thread.leads))
          ((after_first ticks p).threads (s.thread_of test.element)).cpu_frame
        ∙ ap (λ z. z.cpu_frame) test_lem)

  pub first_returns :
      (fuel : ℕ) (f : IdtFrame)
      → s.initialized ≡ false
      → (p : Paging) × (irq_handler fuel f s
          ≡ ok (begins f idle idle_entry) (after_first (u64 (s.tick_counter + 1)) p))
  first_returns fuel f i =
      let (p, first) =
        first_interrupt fuel f s i has_current (inl no_directory) (ap (λ z. z.state) idle_lem)
          (subst (λ z. 1 < z.remaining_cpu_time) (sym idle_lem) (omega arith)) in
      (
        p,
        first
            ∙ ap (λ z. ok (load_frame f z.cpu_frame) (after_first (u64 (s.tick_counter + 1)) p))
                idle_lem,
      )

  pub first_runs :
      (ticks : ℕ) (p : Paging) → ((after_first ticks p).threads idle.thread).state ≡ running
  first_runs ticks p =
      ap (λ q. ((after_first ticks p).threads q).state) (sym now_lem)
      ∙ ap (λ z. z.state) (first_now ticks p)
      ∙ ap (λ z. z.state) idle_lem

  -- After `SchedInit`, the first two timer interrupts return, for any fuel from 2 on: the first begins
  -- the first thread at its entry, the second, whatever that thread has done to the registers, the
  -- other one, and keeps the registers of the first for its next turn. Then both threads are running.
  pub both_threads_begin :
      (fuel : ℕ) (f g : IdtFrame)
      → s.initialized ≡ false
      → 2 ≤ fuel
      → (t u : Sched) × ((irq_handler fuel f s ≡ ok (begins f idle idle_entry) t)
          × (irq_handler fuel g t ≡ ok (begins g test test_entry) u)
          × (u.curr_iterated_thread ≡ test.element)
          × ((u.threads idle.thread).cpu_frame ≡ save_frame g)
          × ((u.threads test.thread).state ≡ running)
          × ((u.threads test.thread).remaining_cpu_time ≡ time_per_thread))
  both_threads_begin fuel f g i l =
      let (p, first) = first_returns fuel f i in
      let ticks = u64 (s.tick_counter + 1) in
      let t = after_first ticks p in
      let now = first_now ticks p in
      let (u, (second, at_test, _, runs, full, kept)) =
        next_thread_loads fuel 1 1 g t s.curr_iterated_proc test.element refl has_current
          (ap (λ z. z.state) now ∙ ap (λ z. z.state) idle_lem)
          (subst (λ z. z.remaining_cpu_time ≤ 1) (sym now)
            (subst (λ z. z.remaining_cpu_time - 1 ≤ 1) (sym idle_lem) (omega arith)))
          (to_test ticks p) l has_current.2 has_current.3 (inl no_directory) in
      (
        t,
        u,
        (
          first,
          second ∙ ap (λ z. ok z u) (test_begins ticks p g),
          at_test,
          ap (λ q. (u.threads q).cpu_frame) (sym now_lem) ∙ kept,
          ap (λ q. (u.threads q).state) (sym up.test_thread.leads) ∙ runs,
          ap (λ q. (u.threads q).remaining_cpu_time) (sym up.test_thread.leads) ∙ full,
        ),
      )
