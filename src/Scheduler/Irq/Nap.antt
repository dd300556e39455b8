-- ===== src/Scheduler/Irq/Nap.antt =====
-- The interrupt that finds the current thread asleep: the processor goes to the next running thread.
use mathlib.Core.Path.{subst}
use mcpgos.Base.{ℕ, ◌+◌, ◌≤◌, ◌≡◌, sym, ap, ◌∙◌, ◌≢◌, true, ◌==◌, ne→==}
use mcpgos.Base.Run.{ok, then_returns, false_case}
use mcpgos.Base.Words.{u64, sub32}
use mcpgos.Utils.LinkedList.{Ptr, null}
use mcpgos.Mm.Paging.{Paging}
use mcpgos.Scheduler.{running, sleeping, SchedThread, Sched, time_per_thread}
use mcpgos.Scheduler.Frames.{IdtFrame, load_frame}
use mcpgos.Scheduler.Irq.{set_thread, with_time, tick_sleeping, pick_next_task, tick, irq_handler}
use mcpgos.Scheduler.Irq.Current.{thread_now}
use mcpgos.Scheduler.Irq.Reach.{IsThread, Reach, moved_to, Agree}
use mcpgos.Scheduler.Irq.Slice.{
  CanSwitch, HasCurrent, sleeping_case, current_thread-HasCurrent, assign_same,
}
use mcpgos.Scheduler.Irq.Turn.{kept_frame, saved_threads, saved, now_saved, moves_on}

tick_sleeping-on :
    (k : ℕ) (t : Ptr) (s : Sched)
    → sub32 (s.threads t).remaining_cpu_time 1 ≢ 0
    → tick_sleeping k t s
      ≡ pick_next_task k
          (set_thread t (with_time (s.threads t) (sub32 (s.threads t).remaining_cpu_time 1)) s)
unfolding tick_sleeping
tick_sleeping-on k t s l =
    let u = set_thread t (with_time (s.threads t) (sub32 (s.threads t).remaining_cpu_time 1)) s in
    let same : u.threads t ≡ with_time (s.threads t) (sub32 (s.threads t).remaining_cpu_time 1) =
      assign_same s.threads t _ in
    false_case ((u.threads t).remaining_cpu_time == 0) _ _ u
      (ap (λ z. z.remaining_cpu_time == 0) same ∙ ne→== _ _ l)

tick-asleep :
    (k : ℕ) (s : Sched)
    → HasCurrent s
    → (s.threads (thread_now s)).state ≡ sleeping
    → sub32 (s.threads (thread_now s)).remaining_cpu_time 1 ≢ 0
    → tick k s
      ≡ pick_next_task k (
          set_thread
            (thread_now s)
            (with_time
              (s.threads (thread_now s))
              (sub32 (s.threads (thread_now s)).remaining_cpu_time 1))
            s)
unfolding tick
tick-asleep k s h e l =
    then_returns _ _ _ (current_thread-HasCurrent s h)
      (sleeping_case (s.threads (thread_now s)).state _ _ s e ∙ tick_sleeping-on k _ s l)

-- Where the current thread sleeps.
pub sleeper_moves :
    (fuel m n : ℕ) (f : IdtFrame) (s : Sched) (q y : Ptr)
    → s.initialized ≡ true
    → HasCurrent s
    → (s.threads (thread_now s)).state ≡ sleeping
    → sub32 (s.threads (thread_now s)).remaining_cpu_time 1 ≢ 0
    → Reach s m n s.curr_iterated_proc s.curr_iterated_thread q y
    → n + m ≤ fuel
    → q ≢ null
    → s.process_of q ≢ null
    → CanSwitch s (s.process_of q)
    → (pg : Paging) × (th : Ptr → SchedThread) × ((irq_handler fuel f s
          ≡ ok
              (load_frame f (kept_frame s f (s.thread_of y)))
              (moved_to s pg (u64 (s.tick_counter + 1)) th q y))
        × Agree s (kept_frame s f) th
        × IsThread s y running
        × ((th (s.thread_of y)).remaining_cpu_time ≡ time_per_thread))
sleeper_moves fuel m n f s q y i h e l =
    let same = now_saved s f in
    moves_on fuel m n f s q y (sub32 (saved_threads s f (thread_now s)).remaining_cpu_time 1) i h (
      tick-asleep fuel (saved s f) h (ap (λ z. z.state) same ∙ e)
        (subst (λ z. sub32 z.remaining_cpu_time 1 ≢ 0) (sym same) l))
