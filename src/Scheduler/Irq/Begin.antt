-- ===== src/Scheduler/Irq/Begin.antt =====
-- The first interrupt of all.
use mcpgos.Base.{ℕ, ◌+◌, ◌-◌, ◌<◌, ◌≡◌, ap, true, false, assign}
use mcpgos.Base.Run.{ok, then_returns, false_case}
use mcpgos.Base.Words.{u64}
use mcpgos.Mm.Paging.{Paging}
use mcpgos.Scheduler.{running, Sched}
use mcpgos.Scheduler.Frames.{IdtFrame, load_frame}
use mcpgos.Scheduler.Irq.{set_thread, with_time, save_context, irq_handler}
use mcpgos.Scheduler.Irq.Current.{thread_now}
use mcpgos.Scheduler.Irq.Slice.{
  HasCurrent, CanSwitch, current_thread-HasCurrent, tick-HasCurrent, switch_context-HasCurrent,
  assign_same,
}

save_context-first :
    (f : IdtFrame) (s : Sched)
    → s.initialized ≡ false
    → save_context f s ≡ ok tt (record s { initialized = true })
unfolding save_context
save_context-first f s e = false_case s.initialized _ _ s e

-- Nothing is saved, and the current thread begins.
pub first_interrupt :
    (fuel : ℕ) (f : IdtFrame) (s : Sched)
    → s.initialized ≡ false
    → HasCurrent s
    → CanSwitch s (s.process_of s.curr_iterated_proc)
    → (s.threads (thread_now s)).state ≡ running
    → 1 < (s.threads (thread_now s)).remaining_cpu_time
    → (p : Paging) × (irq_handler fuel f s
        ≡ ok (load_frame f (s.threads (thread_now s)).cpu_frame) (record s {
          tick_counter = u64 (s.tick_counter + 1);
          initialized = true;
          threads = assign s.threads (thread_now s) (
              with_time
                (s.threads (thread_now s))
                ((s.threads (thread_now s)).remaining_cpu_time - 1));
          paging = p;
        }))
unfolding irq_handler
first_interrupt fuel f s i h c e l =
    let t = thread_now s in
    let th = with_time (s.threads t) ((s.threads t).remaining_cpu_time - 1) in
    let s1 = record s { tick_counter = u64 (s.tick_counter + 1) } in
    let s2 = record s1 { initialized = true } in
    let s3 = set_thread t th s2 in
    let (p, w) = switch_context-HasCurrent s3 h c in
    let s4 = record s3 { paging = p } in
    (
      p,
      then_returns _ tt s2 (save_context-first f s1 i) (
          then_returns _ tt s3 (tick-HasCurrent fuel s2 h e l) (
            then_returns _ tt s4 w (
              then_returns _ t s4 (current_thread-HasCurrent s4 h)
                (ap (λ z. ok (load_frame f z.cpu_frame) s4) (assign_same s.threads t th))))),
    )
