-- ===== src/Scheduler/Irq/Turn.antt =====
-- The interrupt at which a thread's time is up: the processor goes to the next running thread.
use mathlib.Core.Path.{subst}
use mcpgos.Base.{
  ℕ, ◌+◌, ◌≤◌, ◌≡◌, refl, sym, ap, ◌∙◌, ◌≢◌, true, arith, ◌==◌, if◌then◌else◌, assign, eq→==, ne→==,
}
use mcpgos.Base.Run.{ok, then_returns, true_case}
use mcpgos.Base.Words.{u64}
use mcpgos.Utils.LinkedList.{Ptr, null}
use mcpgos.Mm.Paging.{Paging}
use mcpgos.Scheduler.{running, SchedThread, Sched, time_per_thread}
use mcpgos.Scheduler.Frames.{CpuFrame, IdtFrame, save_frame, load_frame}
use mcpgos.Scheduler.Irq.{
  set_thread, with_time, spent, pick_next_task, tick_running, tick, irq_handler,
}
use mcpgos.Scheduler.Frames.Registers.{
  Carries, SameRegisters, load_frame-Carries, save_frame-Carries, resumed-SameRegisters,
}
use mcpgos.Scheduler.Irq.Current.{thread_now}
use mcpgos.Scheduler.Irq.Reach.{
  IsThread, Reach, moved, moved_to, Agree, Agree-with_time, pick_next_task-lem,
}
use mcpgos.Scheduler.Irq.Slice.{
  CanSwitch, HasCurrent, running_case, current_thread-HasCurrent, save_context-HasCurrent,
  switch_context-HasCurrent, assign_same,
}

tick_running-turn :
    (k : ℕ) (t : Ptr) (s : Sched)
    → (s.threads t).remaining_cpu_time ≤ 1
    → tick_running k t s
      ≡ pick_next_task k
          (set_thread t (with_time (s.threads t) (spent (s.threads t).remaining_cpu_time)) s)
unfolding tick_running
tick_running-turn k t s l =
    let r = (s.threads t).remaining_cpu_time in
    let u = set_thread t (with_time (s.threads t) (spent r)) s in
    let over : ((u.threads t).remaining_cpu_time == 0) ≡ true = ground arith in
    true_case ((u.threads t).remaining_cpu_time == 0) _ _ u over

tick-turn :
    (k : ℕ) (s : Sched)
    → HasCurrent s
    → (s.threads (thread_now s)).state ≡ running
    → (s.threads (thread_now s)).remaining_cpu_time ≤ 1
    → tick k s
      ≡ pick_next_task k (
          set_thread
            (thread_now s)
            (with_time
              (s.threads (thread_now s))
              (spent (s.threads (thread_now s)).remaining_cpu_time))
            s)
unfolding tick
tick-turn k s h e l =
    then_returns _ _ _ (current_thread-HasCurrent s h)
      (running_case (s.threads (thread_now s)).state _ _ s e ∙ tick_running-turn k _ s l)

-- The registers that are kept for a thread once the frame of the current one is saved.
abbrev pub kept_frame : Sched → IdtFrame → Ptr → CpuFrame
kept_frame s f e = if e == thread_now s then save_frame f else (s.threads e).cpu_frame

pub saved_threads : Sched → IdtFrame → Ptr → SchedThread
saved_threads s f =
    assign s.threads (thread_now s) (record (s.threads (thread_now s)) { cpu_frame = save_frame f })

saved_threads-Agree : (s : Sched) (f : IdtFrame) → Agree s (kept_frame s f) (saved_threads s f)
unfolding saved_threads
saved_threads-Agree s f q = (ground arith, ground arith)

-- The state once the frame of the current thread is saved.
abbrev pub saved : Sched → IdtFrame → Sched
saved s f = record s { tick_counter = u64 (s.tick_counter + 1); threads = saved_threads s f }

-- The interrupt by the state that it leaves, where the tick goes on to the next thread.
pub moves_on :
    (fuel m n : ℕ) (f : IdtFrame) (s : Sched) (q y : Ptr) (time : ℕ)
    → s.initialized ≡ true
    → HasCurrent s
    → tick fuel (saved s f)
      ≡ pick_next_task fuel (
          set_thread (thread_now s) (with_time (saved_threads s f (thread_now s)) time) (saved s f))
    → Reach s m n s.curr_iterated_proc s.curr_iterated_thread q y
    → n + m ≤ fuel
    → q ≢ null
    → s.process_of q ≢ null
    → CanSwitch s (s.process_of q)
    → (pg : Paging) × (th : Ptr → SchedThread) × ((irq_handler fuel f s
          ≡ ok
              (load_frame f (kept_frame s f (s.thread_of y)))
              (moved_to s pg (u64 (s.tick_counter + 1)) th q y))
        × Agree s (kept_frame s f) th
        × IsThread s y running
        × ((th (s.thread_of y)).remaining_cpu_time ≡ time_per_thread))
unfolding irq_handler saved_threads
moves_on fuel m n f s q y time i h ticks r enough nq np c =
    let x = thread_now s in
    let k = u64 (s.tick_counter + 1) in
    let s0 = record s { tick_counter = k } in
    let th1 = saved_threads s f in
    let th2 : Ptr → SchedThread = assign th1 x (with_time (th1 x) time) in
    let a2 : Agree s (kept_frame s f) th2 =
      Agree-with_time s (kept_frame s f) th1 x time (saved_threads-Agree s f) in
    let (u, (run, a, t, full)) =
      pick_next_task-lem fuel m n s k (kept_frame s f) th2 s.curr_iterated_proc
        s.curr_iterated_thread q y r enough a2 in
    let s3 = moved s k u q y in
    let (pg, w) = switch_context-HasCurrent s3 (t.element, t.thread, nq, np) c in
    let s4 = record s3 { paging = pg } in
    (
      pg,
      u,
      (
        then_returns _ _ _ (save_context-HasCurrent f s0 i h) (
            then_returns _ tt s3 (ticks ∙ run) (
              then_returns _ tt s4 w (
                then_returns _ _ _ (current_thread-HasCurrent s4 (t.element, t.thread, nq, np))
                  (ap (λ z. ok (load_frame f z) s4) (a (s.thread_of y)).1)))),
        a,
        t,
        full,
      ),
    )

pub now_saved :
    (s : Sched) (f : IdtFrame)
    → saved_threads s f (thread_now s)
      ≡ record (s.threads (thread_now s)) { cpu_frame = save_frame f }
unfolding saved_threads
now_saved s f =
    assign_same s.threads (thread_now s)
      (record (s.threads (thread_now s)) { cpu_frame = save_frame f })

-- Where a running thread's time is up.
pub turn_moves :
    (fuel m n : ℕ) (f : IdtFrame) (s : Sched) (q y : Ptr)
    → s.initialized ≡ true
    → HasCurrent s
    → (s.threads (thread_now s)).state ≡ running
    → (s.threads (thread_now s)).remaining_cpu_time ≤ 1
    → Reach s m n s.curr_iterated_proc s.curr_iterated_thread q y
    → n + m ≤ fuel
    → q ≢ null
    → s.process_of q ≢ null
    → CanSwitch s (s.process_of q)
    → (pg : Paging) × (th : Ptr → SchedThread) × ((irq_handler fuel f s
          ≡ ok
              (load_frame f (kept_frame s f (s.thread_of y)))
              (moved_to s pg (u64 (s.tick_counter + 1)) th q y))
        × Agree s (kept_frame s f) th
        × IsThread s y running
        × ((th (s.thread_of y)).remaining_cpu_time ≡ time_per_thread))
turn_moves fuel m n f s q y i h e l =
    let same = now_saved s f in
    moves_on fuel m n f s q y (spent (saved_threads s f (thread_now s)).remaining_cpu_time) i h (
      tick-turn fuel (saved s f) h (ap (λ z. z.state) same ∙ e)
        (subst (λ z. z.remaining_cpu_time ≤ 1) (sym same) l))

-- And by what it says of the threads.
pub next_thread_loads :
    (fuel m n : ℕ) (f : IdtFrame) (s : Sched) (q y : Ptr)
    → s.initialized ≡ true
    → HasCurrent s
    → (s.threads (thread_now s)).state ≡ running
    → (s.threads (thread_now s)).remaining_cpu_time ≤ 1
    → Reach s m n s.curr_iterated_proc s.curr_iterated_thread q y
    → n + m ≤ fuel
    → q ≢ null
    → s.process_of q ≢ null
    → CanSwitch s (s.process_of q)
    → (t : Sched) × ((irq_handler fuel f s ≡ ok (load_frame f (kept_frame s f (s.thread_of y))) t)
        × (t.curr_iterated_thread ≡ y)
        × (t.curr_iterated_proc ≡ q)
        × ((t.threads (s.thread_of y)).state ≡ running)
        × ((t.threads (s.thread_of y)).remaining_cpu_time ≡ time_per_thread)
        × ((t.threads (thread_now s)).cpu_frame ≡ save_frame f))
next_thread_loads fuel m n f s q y i h e l r enough nq np c =
    let (pg, th, (run, a, t, full)) = turn_moves fuel m n f s q y i h e l r enough nq np c in
    let x = thread_now s in
    (
      moved_to s pg (u64 (s.tick_counter + 1)) th q y,
      (
        run,
        refl,
        refl,
        (a (s.thread_of y)).0 ∙ t.state,
        full,
        (a x).1 ∙ ap (λ b. if b then save_frame f else (s.threads x).cpu_frame) (eq→== x x refl),
      ),
    )

-- The registers with which the interrupt goes back are those that were kept for that thread, or, where
-- it is the current one itself, those of the interrupt.
back :
    (f : IdtFrame) (s : Sched) (e : Ptr)
    → (e ≢ thread_now s → Carries (load_frame f (kept_frame s f e)) (s.threads e).cpu_frame)
      × (e ≡ thread_now s → SameRegisters f (load_frame f (kept_frame s f e)))
back f s e = (
  λ n.
      subst (λ c. Carries (load_frame f c) (s.threads e).cpu_frame)
        (ap (λ b. if b then save_frame f else (s.threads e).cpu_frame)
          (sym (ne→== e (thread_now s) n)))
        (load_frame-Carries f (s.threads e).cpu_frame),
  λ d.
      subst (λ c. SameRegisters f (load_frame f c))
        (ap (λ b. if b then save_frame f else (s.threads e).cpu_frame)
          (sym (eq→== e (thread_now s) d)))
        (resumed-SameRegisters f f),
)

-- At an interrupt (not the first, and where the next process has no page directory, or has a 32-bit
-- one and one is in use) that finds a running thread with at most one tick left, where the walk over
-- the lists leads past sleeping threads to a running one, with as much fuel as steps and processes
-- passed in a step: the handler returns. Every register of the frame that goes back is the one that was
-- kept for that thread, or, if that is the current thread again, the one that was interrupted. It is the
-- current thread now, with a full share of time, and for the thread that was interrupted every register
-- of the interrupt's frame is kept for its next turn.
pub next_thread_runs :
    (fuel m n : ℕ) (f : IdtFrame) (s : Sched) (q y : Ptr)
    → s.initialized ≡ true
    → HasCurrent s
    → (s.threads (thread_now s)).state ≡ running
    → (s.threads (thread_now s)).remaining_cpu_time ≤ 1
    → Reach s m n s.curr_iterated_proc s.curr_iterated_thread q y
    → n + m ≤ fuel
    → q ≢ null
    → s.process_of q ≢ null
    → CanSwitch s (s.process_of q)
    → (g : IdtFrame) × (t : Sched) × ((irq_handler fuel f s ≡ ok g t)
        × (s.thread_of y ≢ thread_now s → Carries g (s.threads (s.thread_of y)).cpu_frame)
        × (s.thread_of y ≡ thread_now s → SameRegisters f g)
        × (t.curr_iterated_thread ≡ y)
        × (t.curr_iterated_proc ≡ q)
        × ((t.threads (s.thread_of y)).state ≡ running)
        × ((t.threads (s.thread_of y)).remaining_cpu_time ≡ time_per_thread)
        × Carries f (t.threads (thread_now s)).cpu_frame)
next_thread_runs fuel m n f s q y i h e l r enough nq np c =
    let (t, (run, at_y, at_q, runs, full, kept)) =
      next_thread_loads fuel m n f s q y i h e l r enough nq np c in
    let (other, same) = back f s (s.thread_of y) in
    (
      load_frame f (kept_frame s f (s.thread_of y)),
      t,
      (
        run,
        other,
        same,
        at_y,
        at_q,
        runs,
        full,
        subst (Carries f) (sym kept) (save_frame-Carries f),
      ),
    )
