-- ===== src/Scheduler/Start/Turns.antt =====
-- A process with two threads, of which the first never sleeps: the timer's interrupt.
use mcpgos.Base.{ℕ, ◌+◌, ◌≤◌, ◌<◌, ◌≡◌, refl, sym, ◌∙◌, ◌⊎◌, inl, inr, arith, leb, Bool-cases}
use mcpgos.Base.Run.{ok}
use mcpgos.Utils.LinkedList.{Ptr}
use mcpgos.Scheduler.{TaskState, running, sleeping, Sched}
use mcpgos.Scheduler.Frames.{IdtFrame}
use mcpgos.Scheduler.Irq.{irq_handler}
use mcpgos.Scheduler.Irq.Current.{thread_now}
use mcpgos.Scheduler.Irq.Reach.{first_thread, Reach, awake, asleep}
use mcpgos.Scheduler.Irq.Slice.{thread_goes_on}
use mcpgos.Scheduler.Irq.Turn.{turn_moves}
use mcpgos.Scheduler.Start.Rounds.{
  TwoThreads, HasPlaces, InRounds, InRounds-moved, process_at, can_switch, has_current, y-IsThread,
  first_is, first_IsThread, to_y, to_first,
}

le-cases : (n m : ℕ) → (n ≤ m) ⊎ (m < n)
le-cases n m = elim (Bool-cases (leb n m)) [
  | inl e ↦ inl (ground (arith, e))
  | inr e ↦ inr (ground (arith, e))
]

state-cases : (st : TaskState) → (st ≡ running) ⊎ (st ≡ sleeping)
state-cases running = inl refl
state-cases sleeping = inr refl

-- The current thread runs.
abbrev pub Runs : Sched → Type 0
Runs s = (s.threads (thread_now s)).state ≡ running

-- The threads are in the same states.
abbrev pub SameStates : Sched → Sched → Type 0
SameStates s t = (p : Ptr) → (t.threads p).state ≡ (s.threads p).state

module _ (w : TwoThreads) (has : HasPlaces w) where
  abbrev Rounds : Sched → Type 0
  Rounds = InRounds w

  module _ (s : Sched) (r : InRounds w s) where
    -- The interrupt leaves one of the threads running, and each in its state.
    abbrev pub Returns : ℕ → IdtFrame → Type 0
    Returns fuel f =
        (g : IdtFrame) × (t : Sched) × ((irq_handler fuel f s ≡ ok g t)
          × InRounds w t
          × Runs t
          × SameStates s t)

    turn-Returns :
        (fuel n : ℕ) (f : IdtFrame) (q z : Ptr)
        → Runs s
        → (s.threads (thread_now s)).remaining_cpu_time ≤ 1
        → Reach s 1 n s.curr_iterated_proc s.curr_iterated_thread q z
        → n + 1 ≤ fuel
        → q ≡ w.element
        → (z ≡ w.x) ⊎ (z ≡ w.y)
        → Returns fuel f
    turn-Returns fuel n f q z runs over reach enough e at =
        let (pg, th, (run, agree, t, _)) =
          turn_moves fuel 1 n f s q z r.initialized (has_current w has s r) runs over reach enough
            (λ d. has.element (sym e ∙ d)) (λ d. has.process (sym (process_at w has s r q e) ∙ d))
            (can_switch w has s r q e) in
        (
          _,
          _,
          (
            run,
            InRounds-moved w has s pg _ th q z r (λ p. (agree p).0) e at,
            (agree (s.thread_of z)).0 ∙ t.state,
            λ p. (agree p).0,
          ),
        )

    at_x-Returns :
        (fuel : ℕ) (f : IdtFrame)
        → Runs s
        → (s.threads (thread_now s)).remaining_cpu_time ≤ 1
        → 3 ≤ fuel
        → s.curr_iterated_thread ≡ w.x
        → Returns fuel f
    at_x-Returns fuel f runs over l e =
        let walk = to_y w has s r s.curr_iterated_thread e in
        let thread = y-IsThread w has s r in
        elim (state-cases (s.threads w.ty).state) [
          | inl d ↦
              turn-Returns fuel 1 f s.curr_iterated_proc w.y runs over
                (awake walk (thread running d)) (omega arith) r.at_process (inr refl)
          | inr d ↦
              turn-Returns fuel 2 f s.process_list (first_thread s s.process_list) runs over
                (asleep walk (thread sleeping d)
                  (awake (to_first w has s r w.y refl) (first_IsThread w has s r)))
                (omega arith) r.process_list (inl (first_is w has s r))
        ]

    -- From the second thread the walk leads to the first.
    pub from_y :
        s.curr_iterated_thread ≡ w.y
        → Reach s 1 1 s.curr_iterated_proc s.curr_iterated_thread s.process_list
            (first_thread s s.process_list)
    from_y e = awake (to_first w has s r s.curr_iterated_thread e) (first_IsThread w has s r)

    pub interrupt-Returns : (fuel : ℕ) (f : IdtFrame) → Runs s → 3 ≤ fuel → Returns fuel f
    interrupt-Returns fuel f runs l =
        elim (le-cases (s.threads (thread_now s)).remaining_cpu_time 1) [
          | inl over ↦ elim r.at_thread [
            | inl e ↦ at_x-Returns fuel f runs over l e
            | inr e ↦
                turn-Returns fuel 1 f s.process_list (first_thread s s.process_list) runs over
                  (from_y e) (omega arith) r.process_list (inl (first_is w has s r))
          ]
          | inr more ↦
              let (pg, th, (run, states, _)) =
                thread_goes_on fuel f s r.initialized (has_current w has s r)
                  (can_switch w has s r s.curr_iterated_proc r.at_process) runs more in
              (
                _,
                _,
                (
                  run,
                  InRounds-moved w has s pg _ th s.curr_iterated_proc s.curr_iterated_thread r
                      states r.at_process r.at_thread,
                  states (thread_now s) ∙ runs,
                  states,
                ),
              )
        ]
