-- ===== src/Scheduler/Start/Asleep.antt =====
-- `SchedSleep` by the second thread, as `SchedSleepTest` calls it.
use mathlib.Core.Path.{subst}
use mcpgos.Base.{
  ℕ, ◌+◌, ◌≤◌, ◌≡◌, refl, sym, ap, ◌∙◌, ◌≢◌, inl, not, arith, ◌==◌, if◌then◌else◌, assign, ne→==,
}
use mcpgos.Base.Run.{ok, then_returns, assert-true}
use mcpgos.Base.Words.{u64, sub32}
use mcpgos.Utils.LinkedList.{null}
use mcpgos.Scheduler.{sleeping, Sched}
use mcpgos.Scheduler.Frames.{IdtFrame, save_frame, load_frame}
use mcpgos.Scheduler.Irq.{irq_handler}
use mcpgos.Scheduler.Irq.Current.{thread_now}
use mcpgos.Scheduler.Irq.Reach.{first_thread, moved_to}
use mcpgos.Scheduler.Irq.Slice.{assign_same}
use mcpgos.Scheduler.Irq.Turn.{kept_frame}
use mcpgos.Scheduler.Irq.Nap.{sleeper_moves}
use mcpgos.Scheduler.Create.{sleep}
use mcpgos.Scheduler.Start.Rounds.{
  TwoThreads, HasPlaces, InRounds, InRounds-moved, now_at_y, process_at, can_switch, has_current,
  first_is,
}
use mcpgos.Scheduler.Start.Turns.{Runs, from_y}

module _ (w : TwoThreads) (has : HasPlaces w) (s : Sched) (r : InRounds w s) where
  -- The second thread is asleep.
  abbrev pub slept : (millis : ℕ) → Sched
  slept millis = record s {
    threads =
        assign s.threads w.ty
          (record (s.threads w.ty) { state = sleeping; remaining_cpu_time = millis });
  }

  pub sleep-slept : (millis : ℕ) → sleep w.ty millis s ≡ ok tt (slept millis)
  unfolding sleep
  sleep-slept millis =
      then_returns _ tt s (assert-true (not (w.ty == null)) s (ground (arith, has.ty))) refl

  slept_elsewhere : (millis : ℕ) → (slept millis).threads w.tx ≡ s.threads w.tx
  slept_elsewhere millis = ground (arith, has.apart)

  pub slept-InRounds : (millis : ℕ) → InRounds w (slept millis)
  slept-InRounds millis = record {
    initialized = r.initialized;
    process_list = r.process_list;
    process_linked = r.process_linked;
    process_of = r.process_of;
    page_directory = r.page_directory;
    threads = r.threads;
    x_linked = r.x_linked;
    y_linked = r.y_linked;
    x_leads = r.x_leads;
    y_leads = r.y_leads;
    x_runs = ap (λ z. z.state) (slept_elsewhere millis) ∙ r.x_runs;
    at_process = r.at_process;
    at_thread = r.at_thread;
  }

  kept_first :
      (millis : ℕ) (f : IdtFrame)
      → thread_now (slept millis) ≡ w.ty
      → kept_frame (slept millis) f w.tx ≡ (s.threads w.tx).cpu_frame
  kept_first millis f at =
      ap (λ b. if b then save_frame f else ((slept millis).threads w.tx).cpu_frame)
        (ne→== w.tx (thread_now (slept millis)) (λ d. has.apart (d ∙ at)))
      ∙ ap (λ c. c.cpu_frame) (slept_elsewhere millis)

  -- The timer's interrupt, when the second thread has fallen asleep, returns into the first.
  pub falls_asleep :
      (fuel millis : ℕ) (f : IdtFrame)
      → s.curr_iterated_thread ≡ w.y
      → sub32 millis 1 ≢ 0
      → 2 ≤ fuel
      → (t : Sched) × ((irq_handler fuel f (slept millis)
            ≡ ok (load_frame f (s.threads w.tx).cpu_frame) t)
          × InRounds w t
          × Runs t
          × ((t.threads w.ty).state ≡ sleeping))
  falls_asleep fuel millis f e long l =
      let u = slept millis in
      let in_rounds = slept-InRounds millis in
      let at_y : thread_now u ≡ w.ty = now_at_y w has u in_rounds e in
      let now : u.threads (thread_now u)
          ≡ record (s.threads w.ty) { state = sleeping; remaining_cpu_time = millis } =
        ap u.threads at_y ∙ assign_same s.threads w.ty _ in
      let q = u.process_list in
      let z = first_thread u u.process_list in
      let at_first : z ≡ w.x = first_is w has u in_rounds in
      let (pg, th, (run, agree, t, _)) =
        sleeper_moves fuel 1 1 f u q z in_rounds.initialized (has_current w has u in_rounds)
          (ap (λ c. c.state) now) (subst (λ c. sub32 c.remaining_cpu_time 1 ≢ 0) (sym now) long)
          (from_y w has u in_rounds e) l (λ d. has.element (sym in_rounds.process_list ∙ d))
          (λ d. has.process (sym (process_at w has u in_rounds q in_rounds.process_list) ∙ d))
          (can_switch w has u in_rounds q in_rounds.process_list) in
      let v = moved_to u pg (u64 (u.tick_counter + 1)) th q z in
      (
        v,
        (
          run
              ∙ ap (λ c. ok (load_frame f c) v)
                  (ap (kept_frame u f) (ap s.thread_of at_first ∙ r.x_leads)
                    ∙ kept_first millis f at_y),
          InRounds-moved w has u pg (u64 (u.tick_counter + 1)) th q z in_rounds (λ p. (agree p).0)
              in_rounds.process_list (inl at_first),
          (agree (u.thread_of z)).0 ∙ t.state,
          (agree w.ty).0 ∙ ap (λ c. c.state) (assign_same s.threads w.ty _),
        ),
      )
