-- ===== src/Scheduler/Irq/Slice.antt =====
-- A thread with time left keeps the processor.
use mathlib.Core.Path.{subst}
use mcpgos.Base.{
  ℕ, ◌+◌, ◌-◌, ◌^◌, ◌<◌, ◌≡◌, refl, sym, ap, ◌∙◌, ◌≢◌, ◌⊎◌, inl, inr, true, false, not, ◌&&◌, ◌||◌,
  arith, ◌==◌, assign, Bool-cases,
}
use mcpgos.Base.Run.{placed, Cmd, ok, then_returns, true_case, false_case}
use mcpgos.Base.Words.{u64}
use mcpgos.Mm.Paging.{Paging}
use mcpgos.Mm.Paging.Lookup.{switch_page_directory-returns}
use mcpgos.Utils.LinkedList.{Ptr, null}
use mcpgos.Scheduler.{TaskState, running, sleeping, SchedThread, Sched}
use mcpgos.Scheduler.Frames.{IdtFrame, save_frame, load_frame, frames_round_trip}
use mcpgos.Scheduler.Irq.{
  current_thread, current_process, set_thread, with_time, spent, tick_running, tick, save_context,
  on_paging, switch_context, irq_handler,
}
use mcpgos.Scheduler.Irq.Current.{thread_now}
use mcpgos.Scheduler.Irq.Reach.{moved_to, Agree, Agree-with_time}

pub running_case :
    {A : Type 0} (st : TaskState) (x y : Cmd Sched A) (s : Sched)
    → st ≡ running
    → (elim st as (λ _. Cmd Sched A) [ running ↦ x | sleeping ↦ y ]) s ≡ x s
running_case {A} b x y s e =
    subst (λ c. (elim c as (λ _. Cmd Sched A) [ running ↦ x | sleeping ↦ y ]) s ≡ x s) (sym e) refl

pub sleeping_case :
    {A : Type 0} (st : TaskState) (x y : Cmd Sched A) (s : Sched)
    → st ≡ sleeping
    → (elim st as (λ _. Cmd Sched A) [ running ↦ x | sleeping ↦ y ]) s ≡ y s
sleeping_case {A} b x y s e =
    subst (λ c. (elim c as (λ _. Cmd Sched A) [ running ↦ x | sleeping ↦ y ]) s ≡ y s) (sym e) refl

-- The current elements have a thread and a process.
abbrev pub HasCurrent : Sched → Type 0
HasCurrent s =
    (s.curr_iterated_thread ≢ null)
    × (thread_now s ≢ null)
    × (s.curr_iterated_proc ≢ null)
    × (s.process_of s.curr_iterated_proc ≢ null)

either_false : (a b : ℕ) → a ≢ null → b ≢ null → ((a == null) || (b == null)) ≡ false
either_false a b d e = ground arith

pub current_thread-HasCurrent : (s : Sched) → HasCurrent s → current_thread s ≡ ok (thread_now s) s
unfolding current_thread
current_thread-HasCurrent s (a, b, _, _) = rw (either_false _ _ a b) refl

current_process-HasCurrent :
    (s : Sched) → HasCurrent s → current_process s ≡ ok (s.process_of s.curr_iterated_proc) s
unfolding current_process
current_process-HasCurrent s (_, _, c, d) = rw (either_false _ _ c d) refl

pub save_context-HasCurrent :
    (f : IdtFrame) (s : Sched)
    → s.initialized ≡ true
    → HasCurrent s
    → save_context f s
      ≡ ok tt (
          set_thread
            (thread_now s)
            (record (s.threads (thread_now s)) { cpu_frame = save_frame f })
            s)
unfolding save_context
save_context-HasCurrent f s i h =
    true_case s.initialized _ _ s i ∙ then_returns _ _ _ (current_thread-HasCurrent s h) refl

tick_running-lem :
    (k : ℕ) (t : Ptr) (s : Sched)
    → 1 < (s.threads t).remaining_cpu_time
    → tick_running k t s
      ≡ ok tt (set_thread t (with_time (s.threads t) ((s.threads t).remaining_cpu_time - 1)) s)
unfolding tick_running
tick_running-lem k t s l =
    let r = (s.threads t).remaining_cpu_time in
    let left : spent r ≡ r - 1 = ground arith in
    let u = set_thread t (with_time (s.threads t) (spent r)) s in
    let more : ((u.threads t).remaining_cpu_time == 0) ≡ false = ground arith in
    false_case ((u.threads t).remaining_cpu_time == 0) _ _ u more
    ∙ ap (λ n. ok tt (set_thread t (with_time (s.threads t) n) s)) left

pub tick-HasCurrent :
    (k : ℕ) (s : Sched)
    → HasCurrent s
    → (s.threads (thread_now s)).state ≡ running
    → 1 < (s.threads (thread_now s)).remaining_cpu_time
    → tick k s
      ≡ ok tt (
          set_thread
            (thread_now s)
            (with_time
              (s.threads (thread_now s))
              ((s.threads (thread_now s)).remaining_cpu_time - 1))
            s)
unfolding tick
tick-HasCurrent k s h e l =
    then_returns _ _ _ (current_thread-HasCurrent s h)
      (running_case (s.threads (thread_now s)).state _ _ s e ∙ tick_running-lem k _ s l)

-- The process has no page directory of its own; or one is in use, and the process's is a 32-bit
-- address.
abbrev pub CanSwitch : Sched → Ptr → Type 0
CanSwitch s q =
    ((s.processes q).page_directory ≡ null)
    ⊎ ((s.paging.directory ≢ null) × ((s.processes q).page_directory < 2 ^ 32))

pub switch_context-HasCurrent :
    (s : Sched)
    → HasCurrent s
    → CanSwitch s (s.process_of s.curr_iterated_proc)
    → (p : Paging) × (switch_context s ≡ ok tt (record s { paging = p }))
unfolding switch_context on_paging
switch_context-HasCurrent s h c =
    let d = (s.processes (s.process_of s.curr_iterated_proc)).page_directory in
    elim (Bool-cases (not (s.paging.directory == d) && not (d == null))) [
      | inl e ↦ elim c [
        | inl z ↦ absurd (ground (arith, z))
        | inr (n, l) ↦
            let (p, r) = switch_page_directory-returns s.paging d n l in
            (
              p,
              then_returns _ _ _ (current_process-HasCurrent s h)
                  (true_case _ _ _ s e ∙ ap (placed (λ q. record s { paging = q })) r.0),
            )
      ]
      | inr e ↦
          (s.paging, then_returns _ _ _ (current_process-HasCurrent s h) (false_case _ _ _ s e))
    ]

pub assign_same : {A : Type 0} (f : ℕ → A) (i : ℕ) (x : A) → assign f i x i ≡ x
assign_same f i x = ground arith

saved_state :
    (s : Sched) (p : Ptr) (f : IdtFrame) (x : Ptr)
    → (assign s.threads p (record (s.threads p) { cpu_frame = save_frame f }) x).state
      ≡ (s.threads x).state
saved_state s p f x = ground arith

resumes : (f : IdtFrame) → load_frame f (save_frame f) ≡ f
resumes f = let (_, e, _, _, _) = frames_round_trip f f (save_frame f) in e

-- An interrupt at which the thread goes on, by the state that it leaves.
pub thread_goes_on :
    (fuel : ℕ) (f : IdtFrame) (s : Sched)
    → s.initialized ≡ true
    → HasCurrent s
    → CanSwitch s (s.process_of s.curr_iterated_proc)
    → (s.threads (thread_now s)).state ≡ running
    → 1 < (s.threads (thread_now s)).remaining_cpu_time
    → (pg : Paging) × (th : Ptr → SchedThread) × ((irq_handler fuel f s
          ≡ ok f (
              moved_to s pg
                (u64 (s.tick_counter + 1))
                th
                s.curr_iterated_proc
                s.curr_iterated_thread))
        × ((q : Ptr) → (th q).state ≡ (s.threads q).state)
        × ((th (thread_now s)).remaining_cpu_time
            ≡ (s.threads (thread_now s)).remaining_cpu_time - 1))
unfolding irq_handler
thread_goes_on fuel f s i h c e l =
    let p = thread_now s in
    let a = record (s.threads p) { cpu_frame = save_frame f } in
    let s1 = record s { tick_counter = u64 (s.tick_counter + 1) } in
    let s2 = set_thread p a s1 in
    let same : s2.threads p ≡ a = assign_same s.threads p a in
    let b = with_time (s2.threads p) ((s2.threads p).remaining_cpu_time - 1) in
    let s3 = set_thread p b s2 in
    let last : s3.threads p ≡ b = assign_same s2.threads p b in
    let (q, w) = switch_context-HasCurrent s3 h c in
    let s4 = record s3 { paging = q } in
    let frame : (s4.threads p).cpu_frame ≡ save_frame f =
      ap (λ x. x.cpu_frame) last ∙ ap (λ x. x.cpu_frame) same in
    let states : Agree s (λ x. (s2.threads x).cpu_frame) s2.threads =
      λ x. (saved_state s p f x, refl) in
    (
      q,
      s3.threads,
      (
        then_returns _ _ _ (save_context-HasCurrent f s1 i h) (
            then_returns _ _ _
              (tick-HasCurrent fuel s2 h (ap (λ x. x.state) same ∙ e)
                (subst (λ x. 1 < x.remaining_cpu_time) (sym same) l))
              (then_returns _ _ _ w (
                then_returns _ _ _ (current_thread-HasCurrent s4 h)
                  (ap (λ c. ok (load_frame f c) s4) frame ∙ ap (λ g. ok g s4) (resumes f))))),
        λ x.
            (Agree-with_time s (λ y. (s2.threads y).cpu_frame) s2.threads p
              ((s2.threads p).remaining_cpu_time - 1) states x).0,
        ap (λ x. x.remaining_cpu_time) last ∙ ap (λ x. x.remaining_cpu_time - 1) same,
      ),
    )

-- At an interrupt (not the first, and where the process has no page directory, or has a 32-bit one
-- and one is in use) that finds a thread running with more than one tick of time left, the handler
-- returns, for any fuel: the same frame goes back, so the thread goes on where it was; it stays the
-- current one, its time is one tick less, and the tick counter is one more, modulo 2^64.
pub thread_keeps_the_cpu :
    (fuel : ℕ) (f : IdtFrame) (s : Sched)
    → s.initialized ≡ true
    → HasCurrent s
    → CanSwitch s (s.process_of s.curr_iterated_proc)
    → (s.threads (thread_now s)).state ≡ running
    → 1 < (s.threads (thread_now s)).remaining_cpu_time
    → (t : Sched) × ((irq_handler fuel f s ≡ ok f t)
        × (t.curr_iterated_thread ≡ s.curr_iterated_thread)
        × ((t.threads (thread_now s)).remaining_cpu_time
            ≡ (s.threads (thread_now s)).remaining_cpu_time - 1)
        × (t.tick_counter ≡ u64 (s.tick_counter + 1)))
thread_keeps_the_cpu fuel f s i h c e l =
    let (pg, th, (run, _, time)) = thread_goes_on fuel f s i h c e l in
    (
      moved_to s pg (u64 (s.tick_counter + 1)) th s.curr_iterated_proc s.curr_iterated_thread,
      (run, refl, time, refl),
    )
