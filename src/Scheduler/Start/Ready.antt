-- ===== src/Scheduler/Start/Ready.antt =====
-- The scheduler from `SchedInit` on, at the timer's interrupts.
use mcpgos.Base.{ℕ, ◌+◌, ◌≤◌, ◌≡◌, refl, sym, ap, ◌∙◌, ◌≢◌, ◌⊎◌, inl, inr, false, arith}
use mcpgos.Base.Run.{ok}
use mcpgos.Base.Words.{u64}
use mcpgos.Utils.LinkedList.{Ptr, null}
use mcpgos.Mm.Paging.{Paging}
use mcpgos.Scheduler.{running, sleeping, is_sleeping, Sched}
use mcpgos.Scheduler.Frames.{IdtFrame}
use mcpgos.Scheduler.Irq.{irq_handler}
use mcpgos.Scheduler.Irq.Current.{thread_now}
use mcpgos.Scheduler.Start.{Memory}
use mcpgos.Scheduler.Start.Initial.{IsStarted, IsAllocated}
use mcpgos.Scheduler.Start.First.{after_first, first_returns, first_runs}
use mcpgos.Scheduler.Start.Rounds.{TwoThreads, HasPlaces, InRounds, current}
use mcpgos.Scheduler.Start.Turns.{Runs, interrupt-Returns}

-- One of the two threads is the current one, and it runs.
pub record HasTurn (idle test : Memory) (s : Sched) : Type 0 where
  pub thread : (thread_now s ≡ idle.thread) ⊎ (thread_now s ≡ test.thread)
  pub runs : (s.threads (thread_now s)).state ≡ running

awake_or_asleep : running ≢ sleeping
awake_or_asleep e = ground (arith, ap is_sleeping e)

-- The process with the two threads of `SchedInit`.
abbrev pub started_threads : (process element : Ptr) (idle test : Memory) → TwoThreads
started_threads process element idle test = record {
  process = process;
  element = element;
  x = idle.element;
  y = test.element;
  tx = idle.thread;
  ty = test.thread;
}

module _ (process element : Ptr) (idle test : Memory)
    (idle_name idle_entry test_name test_entry : Ptr) where
  abbrev pub IsAmong : Sched → Type 0
  IsAmong = InRounds (started_threads process element idle test)

  -- The first interrupt is still to come, or has been.
  abbrev pub IsReady : Sched → Type 0
  IsReady s =
      (IsStarted process element idle test idle_name idle_entry test_name test_entry s
        × (s.initialized ≡ false))
      ⊎ (IsAmong s × Runs s)

  module _ (np : process ≢ null) (ne : element ≢ null) (ai : IsAllocated idle)
      (at : IsAllocated test) (apart : idle.thread ≢ test.thread) where
    module _ (s : Sched)
        (up : IsStarted process element idle test idle_name idle_entry test_name test_entry s) where
      after_first-IsAmong :
          (ticks : ℕ) (p : Paging)
          → IsAmong (
              after_first process element idle test idle_name idle_entry test_name test_entry s up
                np ne ai at apart ticks p)
      after_first-IsAmong ticks p = record {
        initialized = refl;
        process_list = up.process_list;
        process_linked = up.processes_linked.1;
        process_of = up.process_of;
        page_directory = up.page_directory;
        threads = up.threads;
        x_linked = up.threads_linked.1;
        y_linked = up.threads_linked.3.1;
        x_leads = up.idle_thread.leads;
        y_leads = up.test_thread.leads;
        x_runs =
            first_runs process element idle test idle_name idle_entry test_name test_entry s up np
              ne ai at apart ticks p;
        at_process = up.curr_iterated_proc;
        at_thread = inl up.curr_iterated_thread;
      }

    pub threads-HasPlaces : HasPlaces (started_threads process element idle test)
    threads-HasPlaces = record {
      process = np;
      element = ne;
      x = ai.1;
      y = at.1;
      tx = ai.0;
      ty = at.0;
      apart = apart;
    }

    pub HasTurn-IsReady : (s : Sched) → IsReady s → HasTurn idle test s
    HasTurn-IsReady s (inl (up, _)) =
        let p : thread_now s ≡ idle.thread =
          ap s.thread_of up.curr_iterated_thread ∙ up.idle_thread.leads in
        record {
          thread = inl p;
          runs = ap (λ q. (s.threads q).state) p ∙ ap (λ z. z.state) up.idle_thread.thread;
        }
    HasTurn-IsReady s (inr (r, runs)) = record {
      thread = current (started_threads process element idle test) threads-HasPlaces s r;
      runs = runs;
    }

    -- The timer's interrupt in such a state returns.
    pub timer-IsReady :
        (fuel : ℕ) (f : IdtFrame) (s : Sched)
        → IsReady s
        → 3 ≤ fuel
        → (g : IdtFrame) × (t : Sched) × ((irq_handler fuel f s ≡ ok g t) × IsAmong t × Runs t)
    timer-IsReady fuel f s (inl (up, i)) l =
        let (p, run) =
          first_returns process element idle test idle_name idle_entry test_name test_entry s up np
            ne ai at apart fuel f i in
        let ticks = u64 (s.tick_counter + 1) in
        let among = after_first-IsAmong s up ticks p in
        (
          _,
          _,
          (
            run,
            among,
            ap
                  (λ q.
                    ((after_first process element idle test idle_name idle_entry test_name
                        test_entry s up np ne ai at apart ticks p).threads
                      q).state)
                  (ap s.thread_of up.curr_iterated_thread ∙ up.idle_thread.leads)
                ∙ among.x_runs,
          ),
        )
    timer-IsReady fuel f s (inr (r, runs)) l =
        let (g, t, (run, again, still, _)) =
          interrupt-Returns (started_threads process element idle test) threads-HasPlaces s r fuel f
            runs l in
        (g, t, (run, again, still))

    -- The second thread sleeps.
    abbrev pub IsAlone : Sched → Type 0
    IsAlone s = IsAmong s × Runs s × ((s.threads test.thread).state ≡ sleeping)

    pub timer-IsAlone :
        (fuel : ℕ) (f : IdtFrame) (s : Sched)
        → IsAlone s
        → 3 ≤ fuel
        → (g : IdtFrame) × (t : Sched) × ((irq_handler fuel f s ≡ ok g t) × IsAlone t)
    timer-IsAlone fuel f s (r, runs, sleeps) l =
        let (g, t, (run, again, still, same)) =
          interrupt-Returns (started_threads process element idle test) threads-HasPlaces s r fuel f
            runs l in
        (g, t, (run, (again, still, same test.thread ∙ sleeps)))

    pub first-IsAlone : (s : Sched) → IsAlone s → thread_now s ≡ idle.thread
    first-IsAlone s (r, runs, sleeps) =
        elim (current (started_threads process element idle test) threads-HasPlaces s r) [
          | inl e ↦ e
          | inr e ↦ absurd (awake_or_asleep (sym runs ∙ ap (λ q. (s.threads q).state) e ∙ sleeps))
        ]
