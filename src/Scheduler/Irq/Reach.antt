-- ===== src/Scheduler/Irq/Reach.antt =====
-- How the scheduler gets from one thread to the next that runs: the walk of `PickNextThread` over
-- the lists, and the loop at `pickNextTask`.
use mcpgos.Base.{
  ℕ, zero, suc, ◌+◌, ◌≤◌, ◌≡◌, refl, ap, ◌∙◌, ◌≢◌, some, arith, ◌==◌, if◌then◌else◌, assign, eq→==,
  ne→==,
}
use mcpgos.Base.Run.{Run, ok, fault, then_returns, true_case, false_case}
use mcpgos.Base.Words.{sub32}
use mcpgos.Mm.Paging.{Paging}
use mcpgos.Utils.LinkedList.{Ptr, null, Links}
use mcpgos.Utils.LinkedList.Chain.{load-ok}
use mcpgos.Scheduler.{
  TaskState, running, sleeping, SchedThread, Sched, is_sleeping, time_per_thread,
}
use mcpgos.Scheduler.Frames.{CpuFrame}
use mcpgos.Scheduler.Irq.{
  next_of, current_thread, current_process, with_time, pick_process, pick_next_thread, after_pick,
  pick_loop, pick_next_task,
}

-- The process behind the element `p` is that behind `q`; behind the last one comes the first.
pub record Follows (s : Sched) (p q : Ptr) : Type 0 where
  pub element : p ≢ null
  pub link : Links
  pub linked : s.elements p ≡ some link
  pub next : (if link.next == null then s.process_list else link.next) ≡ q
  pub not_null : q ≢ null
  pub has_process : s.process_of q ≢ null

-- The element of the first thread of a process.
abbrev pub first_thread : Sched → Ptr → Ptr
first_thread s p = (s.processes (s.process_of p)).threads

-- From the process at `p` to that at `q`, the next one with threads, in `n` steps.
pub data NextProcess (s : Sched) : (n : ℕ) (p q : Ptr) → Type 0 where
  with_threads : {p q : Ptr} → Follows s p q → first_thread s q ≢ null → NextProcess s 1 p q
  without_threads :
      {n : ℕ} {p q r : Ptr}
      → Follows s p q
      → first_thread s q ≡ null
      → NextProcess s n q r
      → NextProcess s (suc n) p r

-- From the thread at `x` of the process at `p` to the next one, over at most `m` processes.
pub data NextThread (s : Sched) (m : ℕ) : (p x q y : Ptr) → Type 0 where
  same_process :
      {p x : Ptr} (l : Links)
      → x ≢ null
      → s.elements x ≡ some l
      → l.next ≢ null
      → NextThread s m p x p l.next
  next_process :
      {p x q : Ptr} {n : ℕ} (l : Links)
      → x ≢ null
      → s.elements x ≡ some l
      → l.next ≡ null
      → NextProcess s n p q
      → n ≤ m
      → NextThread s m p x q (first_thread s q)

-- The state of the thread at an element that can be followed.
pub record IsThread (s : Sched) (y : Ptr) (st : TaskState) : Type 0 where
  pub element : y ≢ null
  pub thread : s.thread_of y ≢ null
  pub state : (s.threads (s.thread_of y)).state ≡ st

-- From the thread at `x` to the next running one, at `y`, past sleeping threads, in `n` steps.
pub data Reach (s : Sched) (m : ℕ) : (n : ℕ) (p x q y : Ptr) → Type 0 where
  awake : {p x q y : Ptr} → NextThread s m p x q y → IsThread s y running → Reach s m 1 p x q y
  asleep :
      {n : ℕ} {p x q y r z : Ptr}
      → NextThread s m p x q y
      → IsThread s y sleeping
      → Reach s m n q y r z
      → Reach s m (suc n) p x r z

-- The state `s` at the tick `c`, with other threads, at another place.
abbrev pub moved : Sched → (c : ℕ) → (Ptr → SchedThread) → (p x : Ptr) → Sched
moved s c th p x = record s {
  threads = th;
  curr_iterated_proc = p;
  curr_iterated_thread = x;
  tick_counter = c;
}

-- And with other page tables in use.
abbrev pub moved_to : Sched → Paging → (c : ℕ) → (Ptr → SchedThread) → (p x : Ptr) → Sched
moved_to s pg c th p x = record (moved s c th p x) { paging = pg }

-- The threads have the states that they have in `s`, and these registers.
abbrev pub Agree : Sched → (Ptr → CpuFrame) → (Ptr → SchedThread) → Type 0
Agree s f th = (q : Ptr) → ((th q).state ≡ (s.threads q).state) × ((th q).cpu_frame ≡ f q)

module _ (s : Sched) (c : ℕ) (th : Ptr → SchedThread) where
  next_of-moved :
      (p x e : Ptr) (l : Links)
      → e ≢ null
      → s.elements e ≡ some l
      → next_of e (moved s c th p x) ≡ ok l.next (moved s c th p x)
  unfolding next_of
  next_of-moved p x e l n d =
      ap (λ r. elim r as (λ _. Run Sched Ptr) [ ok l _ ↦ ok l.next (moved s c th p x) | _ ↦ fault ])
        (load-ok s.elements e l n d)

  pub current_thread-moved :
      (p x : Ptr)
      → x ≢ null
      → s.thread_of x ≢ null
      → current_thread (moved s c th p x) ≡ ok (s.thread_of x) (moved s c th p x)
  unfolding current_thread
  current_thread-moved p x n d = ground arith

  current_process-moved :
      (p x : Ptr)
      → p ≢ null
      → s.process_of p ≢ null
      → current_process (moved s c th p x) ≡ ok (s.process_of p) (moved s c th p x)
  unfolding current_process
  current_process-moved p x n d = ground arith

  pick_process-lem :
      (k n : ℕ) (p x q : Ptr)
      → NextProcess s n p q
      → n ≤ k
      → pick_process k (moved s c th p x) ≡ ok tt (moved s c th q (first_thread s q))
  unfolding pick_process
  pick_process-lem zero _ p x q (with_threads f t) l = absurd (omega arith)
  pick_process-lem zero _ p x q (without_threads f t w) l = absurd (omega arith)
  pick_process-lem (suc k) _ p x q (with_threads f t) l =
      then_returns _ f.link.next (moved s c th p x) (next_of-moved p x p f.link f.element f.linked)
        (rw f.next (
          then_returns _ (s.process_of q) (moved s c th q x)
            (current_process-moved q x f.not_null f.has_process)
            (false_case (first_thread s q == null) _ _ _ (ne→== _ _ t))))
  pick_process-lem (suc k) _ p x r (without_threads {q} f t w) l =
      then_returns _ f.link.next (moved s c th p x) (next_of-moved p x p f.link f.element f.linked)
        (rw f.next (
          then_returns _ (s.process_of q) (moved s c th q x)
            (current_process-moved q x f.not_null f.has_process)
            (true_case (first_thread s q == null) _ _ _ (eq→== _ _ t)
              ∙ pick_process-lem k _ q (first_thread s q) r w (omega arith))))

  pick_next_thread-lem :
      (k m : ℕ) (p x q y : Ptr)
      → NextThread s m p x q y
      → m ≤ k
      → pick_next_thread k (moved s c th p x) ≡ ok tt (moved s c th q y)
  unfolding pick_next_thread
  pick_next_thread-lem k m p x _ _ (same_process l n e z) f =
      then_returns _ l.next (moved s c th p x) (next_of-moved p x x l n e)
        (false_case (l.next == null) _ _ (moved s c th p l.next) (ne→== _ _ z))
  pick_next_thread-lem k m p x q _ (next_process l n e z w b) f =
      then_returns _ l.next (moved s c th p x) (next_of-moved p x x l n e) (
        true_case (l.next == null) _ _ (moved s c th p l.next) (eq→== _ _ z)
        ∙ pick_process-lem k _ p l.next q w (omega arith))

pub Agree-with_time :
    (s : Sched) (f : Ptr → CpuFrame) (th : Ptr → SchedThread) (e : Ptr) (n : ℕ)
    → Agree s f th
    → Agree s f (assign th e (with_time (th e) n))
Agree-with_time s f th e n a q = (ground (arith, a q), ground (arith, a q))

pick_loop-lem :
    (k m n : ℕ) (s : Sched) (c : ℕ) (f : Ptr → CpuFrame) (th : Ptr → SchedThread) (p x q y : Ptr)
    → Reach s m n p x q y
    → n + m ≤ k
    → Agree s f th
    → (u : Ptr → SchedThread) × ((pick_loop k (moved s c th p x) ≡ ok tt (moved s c u q y))
        × Agree s f u
        × IsThread s y running)
unfolding pick_loop after_pick
pick_loop-lem zero m _ s c f th p x q y (awake w t) l a = absurd (omega arith)
pick_loop-lem zero m _ s c f th p x r z (asleep w t rest) l a = absurd (omega arith)
pick_loop-lem (suc k) m _ s c f th p x q y (awake w t) l a = (
  th,
  (
    then_returns _ tt (moved s c th q y) (pick_next_thread-lem s c th k m p x q y w (omega arith)) (
        then_returns _ (s.thread_of y) (moved s c th q y)
          (current_thread-moved s c th q y t.element t.thread)
          (false_case (is_sleeping (th (s.thread_of y)).state) _ _ _
            (ap is_sleeping ((a (s.thread_of y)).0 ∙ t.state)))),
    a,
    t,
  ),
)
pick_loop-lem (suc k) m _ s c f th p x r z (asleep {n} {q} {y} w t rest) l a =
    let e = s.thread_of y in
    let th1 : Ptr → SchedThread =
      assign th e (with_time (th e) (sub32 (th e).remaining_cpu_time 1)) in
    let a1 : Agree s f th1 = Agree-with_time s f th e (sub32 (th e).remaining_cpu_time 1) a in
    let (u, (run, b, runs)) = pick_loop-lem k m n s c f th1 q y r z rest (omega arith) a1 in
    (
      u,
      (
        then_returns _ tt (moved s c th q y)
            (pick_next_thread-lem s c th k m p x q y w (omega arith))
            (then_returns _ e (moved s c th q y)
              (current_thread-moved s c th q y t.element t.thread)
              (true_case (is_sleeping (th e).state) _ _ _ (ap is_sleeping ((a e).0 ∙ t.state))
                ∙ run)),
        b,
        runs,
      ),
    )

-- With as much fuel as steps, and as there are processes to pass in a step, the loop ends at the
-- running thread, which gets a full share of time.
pub pick_next_task-lem :
    (k m n : ℕ) (s : Sched) (c : ℕ) (f : Ptr → CpuFrame) (th : Ptr → SchedThread) (p x q y : Ptr)
    → Reach s m n p x q y
    → n + m ≤ k
    → Agree s f th
    → (u : Ptr → SchedThread) × ((pick_next_task k (moved s c th p x) ≡ ok tt (moved s c u q y))
        × Agree s f u
        × IsThread s y running
        × ((u (s.thread_of y)).remaining_cpu_time ≡ time_per_thread))
unfolding pick_next_task
pick_next_task-lem k m n s c f th p x q y r l a =
    let (u, (run, b, t)) = pick_loop-lem k m n s c f th p x q y r l a in
    let e = s.thread_of y in
    (
      assign u e (with_time (u e) time_per_thread),
      (
        then_returns _ tt (moved s c u q y) run (
            then_returns _ e (moved s c u q y) (current_thread-moved s c u q y t.element t.thread)
              refl),
        Agree-with_time s f u e time_per_thread b,
        t,
        ground arith,
      ),
    )
