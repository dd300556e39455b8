-- ===== src/Scheduler/Irq/Interrupt.antt =====
-- What a timer interrupt does to the states of the threads.
use mcpgos.Base.{ℕ, ◌≡◌, refl, ap, ◌∙◌, ◌≢◌, inl, inr, true, not, ◌&&◌, arith, ◌==◌}
use mcpgos.Base.Run.{Cmd, placed, panic, fault, out_of_fuel, ok, ◌>>=◌, pure, modify}
use mcpgos.Mm.Paging.{Paging, switch_page_directory}
use mcpgos.Utils.LinkedList.{Ptr, null}
use mcpgos.Scheduler.{running, sleeping, Sched}
use mcpgos.Scheduler.Frames.{IdtFrame, save_frame}
use mcpgos.Scheduler.Irq.{
  current_thread, set_thread, save_context, on_paging, switch_context, irq_handler,
}
use mcpgos.Scheduler.Irq.Pick.{Keeps, Keeps-refl}
use mcpgos.Scheduler.Irq.Tick.{Ticked, tick-Ticked}
use mcpgos.Base.Ends.{
  panics, faults, runs_out, Ends-at, Ends-fault, Ends-value, returns, Ends, Ends-bind, Ends-Reads,
  Ends-if,
}
use mcpgos.Scheduler.Irq.Current.{thread_now, current_process-Reads, current_thread-cases}

-- The states and the current thread are those of before.
record Stays (s t : Sched) : Type 0 where
  keeps : Keeps s t
  at_thread : thread_now t ≡ thread_now s

Stays-refl : (s : Sched) → Stays s s
Stays-refl s = record { keeps = Keeps-refl s; at_thread = refl }

save_context-Stays : (f : IdtFrame) (s : Sched) → Ends (λ _ t. Stays s t) (save_context f s)
unfolding save_context
save_context-Stays f s =
    Ends-if s.initialized
      (current_thread >>= λ t.
        modify (λ v. set_thread t (record (v.threads t) { cpu_frame = save_frame f }) v))
      (modify (λ v. record v { initialized = true })) s
      (λ d. elim (current_thread-cases s) [
        | inl e ↦ Ends-fault _ e
        | inr e ↦ Ends-at _ _ _ e (
            returns (record {
              keeps = record { states = λ p. ground arith; elements = λ e. refl };
              at_thread = refl;
            }))
      ])
      (λ d.
        returns (record {
          keeps = record { states = λ p. refl; elements = λ e. refl };
          at_thread = refl;
        }))

counted :
    (s w : Sched) (n : ℕ)
    → Ticked (thread_now s) (record s { tick_counter = n }) w
    → Ticked (thread_now s) s w
counted s w n h = record { sleeps = h.sleeps; runs = h.runs; now = h.now }

-- A sleeping thread and a running one.
other_thread :
    (p q : Ptr) (s : Sched) → (s.threads q).state ≡ running → (s.threads p).state ≡ sleeping → p ≢ q
other_thread p q s n e d = cc

-- The interrupt's steps before and after the tick.
Ticked-around :
    (s u v w : Sched)
    → Stays s u
    → Ticked (thread_now u) u v
    → Stays v w
    → Ticked (thread_now s) s w
Ticked-around s u v w h i j = record {
  sleeps =
      λ p ne e. j.keeps.states p ∙ i.sleeps p (λ d. ne (d ∙ h.at_thread)) (h.keeps.states p ∙ e);
  runs = λ p e. j.keeps.states p ∙ i.runs p (h.keeps.states p ∙ e);
  now = ap (λ q. (w.threads q).state) j.at_thread ∙ j.keeps.states _ ∙ i.now;
}

on_paging-Stays :
    {A : Type 0} (m : Cmd Paging A) (s : Sched) → Ends (λ _ t. Stays s t) (on_paging m s)
unfolding on_paging
on_paging-Stays {A} m s =
    elim (m s.paging)
      as (λ r. Ends {A = A} (λ _ t. Stays s t) (placed (λ p. record s { paging = p }) r)) [
        | ok a p ↦ returns (record {
          keeps = record { states = λ p. refl; elements = λ e. refl };
          at_thread = refl;
        })
        | panic r ↦ panics
        | fault ↦ faults
        | out_of_fuel ↦ runs_out
      ]

switch_context-Stays : (s : Sched) → Ends (λ _ t. Stays s t) (switch_context s)
unfolding switch_context
switch_context-Stays s = Ends-Reads _ (current_process-Reads s) (λ p.
    Ends-if
      (not (s.paging.directory == (s.processes p).page_directory)
        && not ((s.processes p).page_directory == null))
      (on_paging (switch_page_directory (s.processes p).page_directory)) (pure tt) s
      (λ d. on_paging-Stays (switch_page_directory (s.processes p).page_directory) s)
      (λ d. returns (Stays-refl s)))

irq_handler-Ticked :
    (k : ℕ) (f : IdtFrame) (s : Sched) → Ends (λ _ t. Ticked (thread_now s) s t) (irq_handler k f s)
unfolding irq_handler
irq_handler-Ticked k f s = Ends-bind (save_context-Stays f _) (λ _ u h.
    Ends-bind (tick-Ticked k u) (λ _ v i. Ends-bind (switch_context-Stays v) (λ _ w j.
      elim (current_thread-cases w) [
        | inl e ↦ Ends-fault _ e
        | inr e ↦ Ends-at _ _ _ e (returns (counted s w _ (Ticked-around _ u v w h i j)))
      ])))

-- When the handler of the timer interrupt returns, the current thread is running, every thread
-- that was running is running, and every sleeping thread but the one that was current is
-- sleeping.
pub irq_handler_lem :
    (fuel : ℕ) (f g : IdtFrame) (s t : Sched)
    → irq_handler fuel f s ≡ ok g t
    → ((t.threads (thread_now t)).state ≡ running)
      × ((p : Ptr) → (s.threads p).state ≡ running → (t.threads p).state ≡ running)
      × ((p : Ptr)
          → p ≢ thread_now s
          → (s.threads p).state ≡ sleeping
          → (t.threads p).state ≡ sleeping)
irq_handler_lem fuel f g s t e =
    let h = Ends-value g t (irq_handler-Ticked fuel f s) e in (h.now, h.runs, h.sleeps)

-- Timer interrupts, one after the other, each of which returns.
pub data Interrupts : Sched → Sched → Type 0 where
  no_interrupt : {s : Sched} → Interrupts s s
  interrupt :
      (fuel : ℕ) (f g : IdtFrame) {s : Sched} (t : Sched) {u : Sched}
      → irq_handler fuel f s ≡ ok g t
      → Interrupts t u
      → Interrupts s u

-- From a state in which the current thread is running, a sleeping thread is still sleeping after
-- any number of timer interrupts, however long it meant to sleep.
pub sleeper_never_wakes :
    (p : Ptr) (s t : Sched)
    → (s.threads (thread_now s)).state ≡ running
    → (s.threads p).state ≡ sleeping
    → Interrupts s t
    → (t.threads p).state ≡ sleeping
sleeper_never_wakes p s t n e no_interrupt = e
sleeper_never_wakes p s t n e (interrupt fuel f g u d h) =
    let (now, _, sleeps) = irq_handler_lem fuel f g s u d in
    sleeper_never_wakes p u t now (sleeps p (other_thread p (thread_now s) s n e) e) h
