-- ===== src/Scheduler/Irq/Current.antt =====
-- What the scheduler reads through its current elements.
use mcpgos.Base.{◌≡◌, ◌≢◌, refl, ◌⊎◌, inl, inr, ◌||◌, arith, ◌==◌, Bool-cases}
use mcpgos.Base.Run.{ok, fault}
use mcpgos.Base.Ends.{Reads, returns, faults}
use mcpgos.Utils.LinkedList
use mcpgos.Utils.LinkedList.{Ptr, null}
use mcpgos.Scheduler.{Sched}
use mcpgos.Scheduler.Irq.{next_of, current_thread, current_process}

-- The thread of the current element, and the process.
abbrev pub thread_now : Sched → Ptr
thread_now s = s.thread_of s.curr_iterated_thread

pub next_of-Reads : (p : Ptr) (s : Sched) → Reads s (next_of p s)
unfolding next_of
next_of-Reads p s =
    elim (LinkedList.load p s.elements)
      as (λ r. Reads {A = Ptr} s (elim r [ ok l _ ↦ ok l.next s | _ ↦ fault ])) [
        | ok l _ ↦ returns refl
        | _ ↦ faults
      ]

current_process-cases :
    (s : Sched) → (current_process s ≡ fault) ⊎ ((p : Ptr) × (current_process s ≡ ok p s))
unfolding current_process
current_process-cases s =
    elim (Bool-cases
      ((s.curr_iterated_proc == null) || (s.process_of s.curr_iterated_proc == null))) [
        | inl e ↦ inl (rw e)
        | inr e ↦ inr (s.process_of s.curr_iterated_proc, rw e)
      ]

pub current_process-ok :
    (s : Sched)
    → s.curr_iterated_proc ≢ null
    → s.process_of s.curr_iterated_proc ≢ null
    → current_process s ≡ ok (s.process_of s.curr_iterated_proc) s
unfolding current_process
current_process-ok s n m = ground arith

pub current_process-Reads : (s : Sched) → Reads s (current_process s)
current_process-Reads s = elim (current_process-cases s) [
  | inl e ↦ rw e faults
  | inr (p, e) ↦ rw e (returns refl)
]

pub current_thread-cases :
    (s : Sched) → (current_thread s ≡ fault) ⊎ (current_thread s ≡ ok (thread_now s) s)
unfolding current_thread
current_thread-cases s = ground arith
