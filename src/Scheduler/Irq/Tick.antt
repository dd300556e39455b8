-- ===== src/Scheduler/Irq/Tick.antt =====
-- What `SchedIrqHandler` does at the state of the current thread.
use mcpgos.Base.{ℕ, ◌≡◌, refl, ◌∙◌, ◌≢◌, inl, inr, arith, ◌==◌}
use mcpgos.Base.Run.{Cmd, pure, modify}
use mcpgos.Base.Words.{sub32}
use mcpgos.Utils.LinkedList.{Ptr}
use mcpgos.Scheduler.{TaskState, running, sleeping, Sched, time_per_thread}
use mcpgos.Scheduler.Irq.{
  set_thread, with_time, spent, pick_next_task, tick_running, tick_sleeping, tick,
}
use mcpgos.Scheduler.Irq.Pick.{
  Keeps, Keeps-trans, NowRunning, set_time-Keeps, set_time-Now, pick_next_task-Keeps,
}
use mcpgos.Base.Ends.{Ends-at, Ends-fault, returns, Ends, Ends-mono, Ends-if}
use mcpgos.Scheduler.Irq.Current.{thread_now, current_thread-cases}

-- After an interrupt at the thread `c`: every thread but `c` that was sleeping still is, and the
-- current thread is running.
pub record Ticked (c : Ptr) (s t : Sched) : Type 0 where
  pub sleeps : (p : Ptr) → p ≢ c → (s.threads p).state ≡ sleeping → (t.threads p).state ≡ sleeping
  pub runs : (p : Ptr) → (s.threads p).state ≡ running → (t.threads p).state ≡ running
  pub now : NowRunning t

Keeps-Ticked : (c : Ptr) (s t : Sched) → Keeps s t → NowRunning t → Ticked c s t
Keeps-Ticked c s t h n = record {
  sleeps = λ p ne e. h.states p ∙ e;
  runs = λ p e. h.states p ∙ e;
  now = n;
}

tick_running-Ticked :
    (k : ℕ) (s : Sched)
    → NowRunning s
    → Ends (λ _ t. Ticked (thread_now s) s t) (tick_running k (thread_now s) s)
unfolding tick_running
tick_running-Ticked k s e =
    let t = thread_now s in
    let u = set_thread t (with_time (s.threads t) (spent (s.threads t).remaining_cpu_time)) s in
    Ends-if ((u.threads t).remaining_cpu_time == 0) (pick_next_task k) (pure tt) u
      (λ d.
        Ends-mono (pick_next_task-Keeps k u)
          (λ a v (h, n). Keeps-Ticked t s v (Keeps-trans (set_time-Keeps s t _) h) n))
      (λ d. returns (Keeps-Ticked t s u (set_time-Keeps s t _) (set_time-Now t _ s e)))

-- A step before the interrupt's own that keeps the states.
Ticked-after : (c : Ptr) (s u t : Sched) → Keeps s u → Ticked c u t → Ticked c s t
Ticked-after c s u t k h = record {
  sleeps = λ p ne e. h.sleeps p ne (k.states p ∙ e);
  runs = λ p e. h.runs p (k.states p ∙ e);
  now = h.now;
}

-- The current thread wakes.
woken-Ticked :
    (s : Sched)
    → Ticked (thread_now s) s (
        set_thread
          (thread_now s)
          (record (s.threads (thread_now s)) {
            state = running;
            remaining_cpu_time = time_per_thread;
          })
          s)
woken-Ticked s = record {
  sleeps = λ p ne e. ground arith;
  runs = λ p e. ground arith;
  now = ground arith;
}

Ends-state :
    {Q : Unit {0} → Sched → Type 0} (st : TaskState) (x y : Cmd Sched (Unit {0})) (s : Sched)
    → (st ≡ running → Ends Q (x s))
    → (st ≡ sleeping → Ends Q (y s))
    → Ends Q ((elim st as (λ _. Cmd Sched (Unit {0})) [ running ↦ x | sleeping ↦ y ]) s)
Ends-state running x y s f g = f refl
Ends-state sleeping x y s f g = g refl

tick_sleeping-Ticked :
    (k : ℕ) (s : Sched) → Ends (λ _ t. Ticked (thread_now s) s t) (tick_sleeping k (thread_now s) s)
unfolding tick_sleeping
tick_sleeping-Ticked k s =
    let t = thread_now s in
    let u = set_thread t (with_time (s.threads t) (sub32 (s.threads t).remaining_cpu_time 1)) s in
    Ends-if ((u.threads t).remaining_cpu_time == 0)
      (modify (λ v.
        set_thread t
          (record (v.threads t) { state = running; remaining_cpu_time = time_per_thread }) v))
      (pick_next_task k) u
      (λ d. returns (Ticked-after t s u _ (set_time-Keeps s t _) (woken-Ticked u)))
      (λ d.
        Ends-mono (pick_next_task-Keeps k u)
          (λ a v (h, n). Keeps-Ticked t s v (Keeps-trans (set_time-Keeps s t _) h) n))

pub tick-Ticked : (k : ℕ) (s : Sched) → Ends (λ _ t. Ticked (thread_now s) s t) (tick k s)
unfolding tick
tick-Ticked k s = elim (current_thread-cases s) [
  | inl e ↦ Ends-fault _ e
  | inr e ↦ Ends-at _ _ _ e (
      Ends-state (s.threads (thread_now s)).state (tick_running k (thread_now s))
        (tick_sleeping k (thread_now s)) s (λ d. tick_running-Ticked k s d)
        (λ d. tick_sleeping-Ticked k s))
]
