-- ===== src/Scheduler/Start/Rounds.antt =====
-- A process with two threads, of which the first never sleeps: the walk from one to the other.
use mcpgos.Base.{ℕ, ◌≡◌, refl, sym, ap, ◌∙◌, ◌≢◌, ◌⊎◌, inl, inr, true, some, arith}
use mcpgos.Mm.Paging.{Paging}
use mcpgos.Utils.LinkedList.{Ptr, null, links}
use mcpgos.Scheduler.{TaskState, running, SchedThread, Sched}
use mcpgos.Scheduler.Irq.Current.{thread_now}
use mcpgos.Scheduler.Irq.Reach.{
  Follows, first_thread, with_threads, NextThread, same_process, next_process, IsThread, moved_to,
}
use mcpgos.Scheduler.Irq.Slice.{HasCurrent, CanSwitch}

-- A process at the element `element` with its threads, at the elements `x` and `y`.
pub record TwoThreads : Type 0 where
  pub process : Ptr
  pub element : Ptr
  pub x : Ptr
  pub y : Ptr
  pub tx : Ptr
  pub ty : Ptr

-- They lie somewhere.
pub record HasPlaces (w : TwoThreads) : Type 0 where
  pub process : w.process ≢ null
  pub element : w.element ≢ null
  pub x : w.x ≢ null
  pub y : w.y ≢ null
  pub tx : w.tx ≢ null
  pub ty : w.ty ≢ null
  pub apart : w.tx ≢ w.ty

-- The process at `element`, with the threads `tx` at `x`, which runs, and `ty` at `y`. One of them is
-- the current one.
pub record InRounds (w : TwoThreads) (s : Sched) : Type 0 where
  pub initialized : s.initialized ≡ true
  pub process_list : s.process_list ≡ w.element
  pub process_linked : s.elements w.element ≡ some (links null null)
  pub process_of : s.process_of w.element ≡ w.process
  pub page_directory : (s.processes w.process).page_directory ≡ null
  pub threads : (s.processes w.process).threads ≡ w.x
  pub x_linked : s.elements w.x ≡ some (links w.y null)
  pub y_linked : s.elements w.y ≡ some (links null w.x)
  pub x_leads : s.thread_of w.x ≡ w.tx
  pub y_leads : s.thread_of w.y ≡ w.ty
  pub x_runs : (s.threads w.tx).state ≡ running
  pub at_process : s.curr_iterated_proc ≡ w.element
  pub at_thread : (s.curr_iterated_thread ≡ w.x) ⊎ (s.curr_iterated_thread ≡ w.y)

module _ (w : TwoThreads) (has : HasPlaces w) where
  -- Other threads in the same states, at another place.
  pub InRounds-moved :
      (s : Sched) (pg : Paging) (c : ℕ) (th : Ptr → SchedThread) (q z : Ptr)
      → InRounds w s
      → ((p : Ptr) → (th p).state ≡ (s.threads p).state)
      → q ≡ w.element
      → (z ≡ w.x) ⊎ (z ≡ w.y)
      → InRounds w (moved_to s pg c th q z)
  InRounds-moved s pg c th q z r same e at = record {
    initialized = r.initialized;
    process_list = r.process_list;
    process_linked = r.process_linked;
    process_of = r.process_of;
    page_directory = r.page_directory;
    threads = r.threads;
    x_linked = r.x_linked;
    y_linked = r.y_linked;
    x_leads = r.x_leads;
    y_leads = r.y_leads;
    x_runs = same w.tx ∙ r.x_runs;
    at_process = e;
    at_thread = at;
  }

  module _ (s : Sched) (r : InRounds w s) where
    pub process_at : (q : Ptr) → q ≡ w.element → s.process_of q ≡ w.process
    process_at q e = ap s.process_of e ∙ r.process_of

    pub can_switch : (q : Ptr) → q ≡ w.element → CanSwitch s (s.process_of q)
    can_switch q e =
        inl (ap (λ p. (s.processes p).page_directory) (process_at q e) ∙ r.page_directory)

    pub now_at_x : s.curr_iterated_thread ≡ w.x → thread_now s ≡ w.tx
    now_at_x e = ap s.thread_of e ∙ r.x_leads

    pub now_at_y : s.curr_iterated_thread ≡ w.y → thread_now s ≡ w.ty
    now_at_y e = ap s.thread_of e ∙ r.y_leads

    pub current : (thread_now s ≡ w.tx) ⊎ (thread_now s ≡ w.ty)
    current = elim r.at_thread [ inl e ↦ inl (now_at_x e) | inr e ↦ inr (now_at_y e) ]

    pub has_current : HasCurrent s
    has_current = (
      elim r.at_thread [ inl e ↦ (λ z. has.x (sym e ∙ z)) | inr e ↦ (λ z. has.y (sym e ∙ z)) ],
      elim current [ inl e ↦ (λ z. has.tx (sym e ∙ z)) | inr e ↦ (λ z. has.ty (sym e ∙ z)) ],
      λ z. has.element (sym r.at_process ∙ z),
      λ z. has.process (sym (process_at s.curr_iterated_proc r.at_process) ∙ z),
    )

    pub y-IsThread : (st : TaskState) → (s.threads w.ty).state ≡ st → IsThread s w.y st
    y-IsThread st e = record {
      element = has.y;
      thread = λ z. has.ty (sym r.y_leads ∙ z);
      state = ap (λ q. (s.threads q).state) r.y_leads ∙ e;
    }

    -- The first thread of the process, as the walk finds it behind the last one.
    pub first_is : first_thread s s.process_list ≡ w.x
    first_is =
        ap (λ p. (s.processes p).threads) (process_at s.process_list r.process_list) ∙ r.threads

    pub first_IsThread : IsThread s (first_thread s s.process_list) running
    first_IsThread =
        let p = ap s.thread_of first_is ∙ r.x_leads in
        record {
          element = λ z. has.x (sym first_is ∙ z);
          thread = λ z. has.tx (sym p ∙ z);
          state = ap (λ q. (s.threads q).state) p ∙ r.x_runs;
        }

    behind : Follows s s.curr_iterated_proc s.process_list
    behind = record {
      element = λ z. has.element (sym r.at_process ∙ z);
      link = links null null;
      linked = ap s.elements r.at_process ∙ r.process_linked;
      next = refl;
      not_null = λ z. has.element (sym r.process_list ∙ z);
      has_process = λ z. has.process (sym (process_at s.process_list r.process_list) ∙ z);
    }

    pub to_y : (z : Ptr) → z ≡ w.x → NextThread s 1 s.curr_iterated_proc z s.curr_iterated_proc w.y
    to_y z e =
        same_process (links w.y null) (λ d. has.x (sym e ∙ d)) (ap s.elements e ∙ r.x_linked) has.y

    pub to_first :
        (z : Ptr)
        → z ≡ w.y
        → NextThread s 1 s.curr_iterated_proc z s.process_list (first_thread s s.process_list)
    to_first z e =
        next_process (links null w.x) (λ d. has.y (sym e ∙ d)) (ap s.elements e ∙ r.y_linked) refl
          (with_threads behind (λ d. has.x (sym first_is ∙ d))) (omega arith)
