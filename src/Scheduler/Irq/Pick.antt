-- ===== src/Scheduler/Irq/Pick.antt =====
-- What `PickNextThread` and the loop at `pickNextTask` do to the states of the threads.
use mcpgos.Base.{ℕ, zero, suc, ◌≡◌, refl, ◌∙◌, inl, inr, false, arith, ◌==◌, Bool-cases}
use mcpgos.Base.Run.{Cmd, pure, modify, ◌>>◌}
use mcpgos.Base.Words.{sub32}
use mcpgos.Utils.LinkedList.{Ptr, null}
use mcpgos.Scheduler.{TaskState, running, sleeping, Sched, is_sleeping}
use mcpgos.Scheduler.Irq.{
  set_thread, with_time, pick_process, pick_next_thread, after_pick, pick_loop, pick_next_task,
}
use mcpgos.Base.Ends.{
  Ends-at, Ends-fault, returns, runs_out, Ends, Ends-bind, Ends-mono, Ends-Reads, Ends-if,
}
use mcpgos.Scheduler.Irq.Current.{
  thread_now, next_of-Reads, current_process-Reads, current_thread-cases,
}

-- Every thread is in the state that it was in, and elements are elements of the same threads.
pub record Keeps (s t : Sched) : Type 0 where
  pub states : (p : Ptr) → (t.threads p).state ≡ (s.threads p).state
  pub elements : (e : Ptr) → t.thread_of e ≡ s.thread_of e

pub Keeps-refl : (s : Sched) → Keeps s s
Keeps-refl s = record { states = λ p. refl; elements = λ e. refl }

pub Keeps-trans : {s t u : Sched} → Keeps s t → Keeps t u → Keeps s u
Keeps-trans h k = record {
  states = λ p. k.states p ∙ h.states p;
  elements = λ e. k.elements e ∙ h.elements e;
}

abbrev KeepsNow : Sched → {A : Type 0} → A → Sched → Type 0
KeepsNow s a t = Keeps s t

pick_process-Keeps : (k : ℕ) (s : Sched) → Ends (KeepsNow s) (pick_process k s)
unfolding pick_process
pick_process-Keeps zero s = runs_out
pick_process-Keeps (suc k) s = Ends-Reads _ (next_of-Reads s.curr_iterated_proc s) (λ next.
    Ends-Reads _ (current_process-Reads _) (λ p.
      elim (Bool-cases ((s.processes p).threads == null)) [
        | inl e ↦ rw e (
            Ends-mono (pick_process-Keeps k _)
              (λ a t h. record { states = h.states; elements = h.elements }))
        | inr e ↦ rw e (returns (record { states = λ p. refl; elements = λ e. refl }))
      ]))

pick_next_thread-Keeps : (k : ℕ) (s : Sched) → Ends (KeepsNow s) (pick_next_thread k s)
unfolding pick_next_thread
pick_next_thread-Keeps k s = Ends-Reads _ (next_of-Reads s.curr_iterated_thread s) (λ next.
    elim (Bool-cases (next == null)) [
      | inl e ↦ rw e (
          Ends-mono (pick_process-Keeps k _)
            (λ a t h. record { states = h.states; elements = h.elements }))
      | inr e ↦ rw e (returns (record { states = λ p. refl; elements = λ e. refl }))
    ])

-- The current thread is running.
abbrev pub NowRunning : Sched → Type 0
NowRunning s = (s.threads (thread_now s)).state ≡ running

-- Storing a thread with another time.
pub set_time-Keeps :
    (s : Sched) (t : Ptr) (n : ℕ) → Keeps s (set_thread t (with_time (s.threads t) n) s)
set_time-Keeps s t n = record { states = λ p. ground arith; elements = λ e. refl }

not_sleeping : (st : TaskState) → is_sleeping st ≡ false → st ≡ running
not_sleeping running e = refl
not_sleeping sleeping e = cc

-- The rest of a round of the loop, at the thread that it has come to.
after_pick-Keeps :
    (s u : Sched) (go : Cmd Sched (Unit {0}))
    → ((v : Sched) → Ends (λ _ t. Keeps v t × NowRunning t) (go v))
    → Keeps s u
    → Ends (λ _ t. Keeps s t × NowRunning t) (after_pick go (thread_now u) u)
unfolding after_pick
after_pick-Keeps s u go f h =
    Ends-if (is_sleeping (u.threads (thread_now u)).state)
      (modify (
          set_thread (thread_now u) (
            with_time (u.threads (thread_now u))
              (sub32 (u.threads (thread_now u)).remaining_cpu_time 1)))
        >> go)
      (pure tt) u
      (λ e.
        Ends-mono (f _) (λ a t (k, n). (Keeps-trans (Keeps-trans h (set_time-Keeps u _ _)) k, n)))
      (λ e. returns (h, not_sleeping _ e))

pick_loop-Keeps : (k : ℕ) (s : Sched) → Ends (λ _ t. Keeps s t × NowRunning t) (pick_loop k s)
unfolding pick_loop
pick_loop-Keeps zero s = runs_out
pick_loop-Keeps (suc k) s = Ends-bind (pick_next_thread-Keeps k s) (λ a u h.
    elim (current_thread-cases u) [
      | inl e ↦ Ends-fault _ e
      | inr e ↦ Ends-at _ _ _ e (after_pick-Keeps s u (pick_loop k) (pick_loop-Keeps k) h)
    ])

-- A thread whose time is set runs and sleeps as it did.
pub set_time-Now :
    (t : Ptr) (n : ℕ) (s : Sched)
    → NowRunning s
    → NowRunning (set_thread t (with_time (s.threads t) n) s)
set_time-Now t n s e = (set_time-Keeps s t n).states _ ∙ e

pub pick_next_task-Keeps :
    (k : ℕ) (s : Sched) → Ends (λ _ t. Keeps s t × NowRunning t) (pick_next_task k s)
unfolding pick_next_task
pick_next_task-Keeps k s = Ends-bind (pick_loop-Keeps k s) (λ a u (h, n).
    elim (current_thread-cases u) [
      | inl e ↦ Ends-fault _ e
      | inr e ↦
          Ends-at _ _ _ e (returns (Keeps-trans h (set_time-Keeps u _ _), set_time-Now _ _ u n))
    ])
