-- ===== src/Scheduler/Create/Threads.antt =====
-- `SchedCreateThread` on a process whose threads are a list.
use mcpgos.Base.{
  ℕ, ◌≤◌, ◌≡◌, refl, sym, ap, ◌∙◌, ◌≢◌, Bool, false, not, some, List, [], ◌∷◌, ◌++◌, arith, ◌==◌,
  assign, eq→==, ne→==, length,
}
use mcpgos.Base.Run.{Cmd, Run, ok, and_then, in_bounds, pure, then_returns, true_case, false_case}
use mcpgos.Utils.LinkedList.{Ptr, null, links, Heap, push_back}
use mcpgos.Utils.LinkedList.Chain.{among, first_or, IsList, Spares}
use mcpgos.Scheduler.{running, SchedThread, Process, Sched, time_per_thread}
use mcpgos.Scheduler.Create.{create_thread, first_frame}
use mcpgos.Scheduler.Create.Lists.{on_elements-ok, asserted}
use mathlib.Core.Path.{subst}
use mcpgos.Scheduler.Frames.Registers.{IsNew, first_frame-IsNew}
use mcpgos.Utils.LinkedList.Append.{appended_Spares}

-- A thread that is about to run for the first time.
abbrev pub new_thread : (owner name : Ptr) (kernel_mode : Bool) (eip stack : ℕ) → SchedThread
new_thread owner name kernel_mode eip stack = record {
  parent_process = owner;
  thread_name = name;
  state = running;
  remaining_cpu_time = time_per_thread;
  cpu_frame = first_frame kernel_mode eip stack;
}

-- The state that a call which returns leaves behind.
abbrev pub started :
    (thread element : Ptr) (th : SchedThread) → Sched → (Ptr → Process) → Heap → Sched
started thread element th s ps g = record s {
  threads = assign s.threads thread th;
  thread_of = assign s.thread_of element thread;
  processes = ps;
  elements = g;
}

followed :
    {B : Type 0} {x : Run Sched B} (p : Ptr) (k : Unit {0} → Cmd Sched B) (s : Sched)
    → p ≢ null
    → k tt s ≡ x
    → and_then (in_bounds (not (p == null)) s) k ≡ x
followed p k s n e = then_returns k tt s (rw (ne→== p null n) refl) e

-- The processes then: the first thread of a process begins its list.
abbrev pub owned : (owner element : Ptr) → List Ptr → (Ptr → Process) → Ptr → Process
owned owner element [] ps = assign ps owner (record (ps owner) { threads = element })
owned owner element (x ∷ xs) ps = ps

pub owned_threads :
    (owner element : Ptr) (xs : List Ptr) (ps : Ptr → Process)
    → (ps owner).threads ≡ first_or null xs
    → (owned owner element xs ps owner).threads ≡ first_or null (xs ++ element ∷ [])
owned_threads owner element [] ps e = ground arith
owned_threads owner element (x ∷ xs) ps e = e

-- A call that returns, by the state that it leaves.
pub create_thread-started :
    (k : ℕ) (thread element owner name : Ptr) (eip stack : ℕ) (s : Sched) (xs : List Ptr)
    → owner ≢ null
    → name ≢ null
    → thread ≢ null
    → element ≢ null
    → IsList s.elements xs
    → (s.processes owner).threads ≡ first_or null xs
    → among element xs ≡ false
    → length xs ≤ k
    → (g : Heap) × ((create_thread k thread element owner name eip stack s
          ≡ ok thread (
              started thread element
                (new_thread owner name (s.processes owner).is_kernel_mode eip stack)
                s
                (owned owner element xs s.processes)
                g))
        × IsList g (xs ++ element ∷ [])
        × Spares (xs ++ element ∷ []) s.elements g)
unfolding create_thread
create_thread-started k thread element owner name eip stack s [] on nn tn ne l c out f =
    let h : Heap = assign s.elements element (some (links null null)) in
    let th = new_thread owner name (s.processes owner).is_kernel_mode eip stack in
    let u = started thread element th s s.processes h in
    let t = started thread element th s (owned owner element [] s.processes) h in
    (
      h,
      (
        followed owner _ s on (
            asserted owner _ s on (
              asserted name _ s nn (
                asserted thread _ s tn (
                  asserted element _ s ne (
                    then_returns (λ _. pure thread) tt t
                      (true_case ((s.processes owner).threads == null) _ _ u (eq→== _ _ c))
                      refl))))),
        (ne, ground arith, refl, tt),
        λ a o. ground arith,
      ),
    )
create_thread-started k thread element owner name eip stack s (p ∷ zs) on nn tn ne l c out f =
    let (g, r, m, same) = appended_Spares k s.elements p zs element ne l out (omega arith) in
    let h : Heap = assign s.elements element (some (links null null)) in
    let th = new_thread owner name (s.processes owner).is_kernel_mode eip stack in
    let u = started thread element th s s.processes h in
    let t = started thread element th s s.processes g in
    (
      g,
      (
        followed owner _ s on (
            asserted owner _ s on (
              asserted name _ s nn (
                asserted thread _ s tn (
                  asserted element _ s ne (
                    then_returns (λ _. pure thread) tt t
                      (false_case ((s.processes owner).threads == null) _ _ u
                          (ne→== _ _ (λ e. l.0 (sym c ∙ e)))
                        ∙ on_elements-ok (push_back k (s.processes owner).threads element) u tt g
                            (ap (λ q. push_back k q element h) c ∙ r))
                      refl))))),
        m,
        same,
      ),
    )

-- A thread of the process `owner` that is about to run for the first time, field by field.
pub record IsNewThread (owner name : Ptr) (kernel_mode : Bool) (eip stack : ℕ) (th : SchedThread)
    : Type 0 where
  pub parent_process : th.parent_process ≡ owner
  pub thread_name : th.thread_name ≡ name
  pub state : th.state ≡ running
  pub remaining_cpu_time : th.remaining_cpu_time ≡ 2
  pub cpu_frame : IsNew kernel_mode eip stack th.cpu_frame

new_thread-IsNewThread :
    (owner name : Ptr) (kernel_mode : Bool) (eip stack : ℕ)
    → IsNewThread owner name kernel_mode eip stack (new_thread owner name kernel_mode eip stack)
new_thread-IsNewThread owner name kernel_mode eip stack = record {
  parent_process = refl;
  thread_name = refl;
  state = refl;
  remaining_cpu_time = refl;
  cpu_frame = first_frame-IsNew eip stack kernel_mode;
}

assigned : (f : Ptr → SchedThread) (p : Ptr) (v : SchedThread) → assign f p v p ≡ v
assigned f p v = ground arith

-- Called with enough fuel on a process whose threads are a list, with a name and with memory that
-- was allocated for a thread and for an element that is not in it, `SchedCreateThread` returns the
-- thread; the new element, which leads to it, stands at the end of the list; the thread is running
-- with a full share of time, two ticks, and its first frame begins at `eip`, with interrupts on, in the
-- segments of its process's mode, with the stack in ESP and EBP and 0 in the other registers.
pub create_thread_lem :
    (k : ℕ) (thread element owner name : Ptr) (eip stack : ℕ) (s : Sched) (xs : List Ptr)
    → owner ≢ null
    → name ≢ null
    → thread ≢ null
    → element ≢ null
    → IsList s.elements xs
    → (s.processes owner).threads ≡ first_or null xs
    → among element xs ≡ false
    → length xs ≤ k
    → (t : Sched) × ((create_thread k thread element owner name eip stack s ≡ ok thread t)
        × ((t.processes owner).threads ≡ first_or null (xs ++ element ∷ []))
        × IsList t.elements (xs ++ element ∷ [])
        × (t.thread_of element ≡ thread)
        × IsNewThread owner name (s.processes owner).is_kernel_mode eip stack (t.threads thread))
create_thread_lem k thread element owner name eip stack s xs on nn tn ne l c out f =
    let (g, (run, list, _)) =
      create_thread-started k thread element owner name eip stack s xs on nn tn ne l c out f in
    (
      started thread element (new_thread owner name (s.processes owner).is_kernel_mode eip stack) s
          (owned owner element xs s.processes) g,
      (
        run,
        owned_threads owner element xs s.processes c,
        list,
        ground arith,
        subst (IsNewThread owner name (s.processes owner).is_kernel_mode eip stack)
            (sym (
              assigned s.threads thread
                (new_thread owner name (s.processes owner).is_kernel_mode eip stack)))
            (new_thread-IsNewThread owner name (s.processes owner).is_kernel_mode eip stack),
      ),
    )
