-- ===== src/Scheduler/Start/Initial.antt =====
-- `SchedInit`, before the first process.
use mcpgos.Base.{
  ℕ, ◌<◌, ◌≡◌, refl, sym, ap, ◌∙◌, ◌≢◌, Bool, true, false, not, some, [], ◌∷◌, arith, ◌==◌, assign,
  ne→==,
}
use mcpgos.Base.Run.{ok, in_bounds, then_returns}
use mcpgos.Utils.LinkedList.{Ptr, null, links, Heap}
use mcpgos.Utils.LinkedList.Chain.{among, IsList, Spares}
use mcpgos.Scheduler.{Process, Sched}
use mcpgos.Scheduler.Irq.Current.{current_process-ok}
use mcpgos.Scheduler.Create.Lists.{created, new_process, create_process-first}
use mcpgos.Scheduler.Create.Threads.{
  new_thread, started, owned, owned_threads, create_thread-started,
}
use mcpgos.Scheduler.Start.{Memory, stack_allocate, first_process, sched_init}

-- A thread that was created with this memory, as the scheduler has it.
pub record HasThread (memory : Memory) (owner name entry : Ptr) (t : Sched) : Type 0 where
  pub leads : t.thread_of memory.element ≡ memory.thread
  pub thread :
      t.threads memory.thread ≡ new_thread owner name true entry (stack_allocate memory.stack 128)

-- What `SchedInit` leaves: one process of the kernel, with no page directory, and its two threads, of
-- which the first is the current one.
pub record IsStarted (process element : Ptr) (idle test : Memory)
    (idle_name idle_entry test_name test_entry : Ptr) (t : Sched) : Type 0 where
  pub process_list : t.process_list ≡ element
  pub processes_linked : IsList t.elements (element ∷ [])
  pub process_of : t.process_of element ≡ process
  pub is_kernel_mode : (t.processes process).is_kernel_mode ≡ true
  pub page_directory : (t.processes process).page_directory ≡ null
  pub threads : (t.processes process).threads ≡ idle.element
  pub threads_linked : IsList t.elements (idle.element ∷ test.element ∷ [])
  pub idle_thread : HasThread idle process idle_name idle_entry t
  pub test_thread : HasThread test process test_name test_entry t
  pub curr_iterated_proc : t.curr_iterated_proc ≡ element
  pub curr_iterated_thread : t.curr_iterated_thread ≡ idle.element

-- The memory that `malloc` gives to a thread and to its element.
abbrev pub IsAllocated : Memory → Type 0
IsAllocated m = (m.thread ≢ null) × (m.element ≢ null)

here : {A : Type 0} (f : Ptr → A) (p : Ptr) (v : A) → assign f p v p ≡ v
here f p v = ground arith

-- A second write elsewhere.
elsewhere :
    {A : Type 0} (f : Ptr → A) (p q : Ptr) (v w : A) → p ≢ q → assign (assign f p v) q w p ≡ v
elsewhere f p q v w n = ground arith

bounded : (p : Ptr) (s : Sched) → p ≢ null → in_bounds (not (p == null)) s ≡ ok tt s
bounded p s n = rw (ne→== p null n) refl

first_process_lem :
    (s : Sched) (element process : Ptr)
    → s.process_list ≡ element
    → element ≢ null
    → s.process_of element ≡ process
    → first_process s ≡ ok process s
first_process_lem s element process e n d =
    then_returns _ tt s (bounded s.process_list s (λ z. n (sym e ∙ z)))
      (ap (λ q. ok q s) (ap s.process_of e ∙ d))

-- A process of the kernel that has no directory.
record IsBare (p : Process) : Type 0 where
  is_kernel_mode : p.is_kernel_mode ≡ true
  page_directory : p.page_directory ≡ null

owned-IsBare :
    (owner element : Ptr) (ps : Ptr → Process)
    → IsBare (ps owner)
    → IsBare (owned owner element [] ps owner)
owned-IsBare owner element ps b = record {
  is_kernel_mode = ap (λ p. p.is_kernel_mode) (here ps owner _) ∙ b.is_kernel_mode;
  page_directory = ap (λ p. p.page_directory) (here ps owner _) ∙ b.page_directory;
}

-- The element of the process is still a list of its own.
alone :
    (h g : Heap) (element a b : Ptr)
    → element ≢ a
    → element ≢ b
    → IsList h (element ∷ [])
    → Spares (a ∷ b ∷ []) h g
    → IsList g (element ∷ [])
alone h g element a b m n l same = (l.0, same element (ground arith) ∙ l.1, l.2, l.3)

unchanged :
    (h g : Heap) (element a : Ptr)
    → element ≢ a
    → element ≢ null
    → Spares (a ∷ []) (assign h element (some (links null null))) g
    → IsList g (element ∷ [])
unchanged h g element a m n same =
    (n, same element (ground arith) ∙ here h element (some (links null null)), refl, tt)

not_among : (a b : Ptr) → b ≢ a → among a (b ∷ []) ≡ false
not_among a b n = ground arith

-- What is known of the threads and processes after both calls of `SchedCreateThread`.
both_started :
    (process element : Ptr) (idle test : Memory) (idle_name idle_entry test_name test_entry : Ptr)
    (s : Sched) (ps : Ptr → Process) (g h : Heap) (k1 k2 : Bool)
    → let th1 = new_thread process idle_name k1 idle_entry (stack_allocate idle.stack 128) in
      let th2 = new_thread process test_name k2 test_entry (stack_allocate test.stack 128) in
      let t =
        started test.thread test.element th2 (started idle.thread idle.element th1 s ps g) ps h in
      k1 ≡ true
      → k2 ≡ true
      → idle.element ≢ test.element
      → idle.thread ≢ test.thread
      → s.process_list ≡ element
      → s.process_of element ≡ process
      → IsBare (ps process)
      → (ps process).threads ≡ idle.element
      → IsList h (element ∷ [])
      → IsList h (idle.element ∷ test.element ∷ [])
      → IsStarted process element idle test idle_name idle_entry test_name test_entry (record t {
        curr_iterated_proc = s.process_list;
        curr_iterated_thread = (ps process).threads;
      })
both_started process element idle test idle_name idle_entry test_name test_entry s ps g h k1 k2 e1
      e2 de dt list po bare threads alone both =
    let th1 = new_thread process idle_name k1 idle_entry (stack_allocate idle.stack 128) in
    let th2 = new_thread process test_name k2 test_entry (stack_allocate test.stack 128) in
    record {
      process_list = list;
      processes_linked = alone;
      process_of = po;
      is_kernel_mode = bare.is_kernel_mode;
      page_directory = bare.page_directory;
      threads = threads;
      threads_linked = both;
      idle_thread = record {
        leads = ground arith;
        thread =
            elsewhere s.threads idle.thread test.thread th1 th2 dt
            ∙ ap (λ m. new_thread process idle_name m idle_entry (stack_allocate idle.stack 128))
                e1;
      };
      test_thread = record {
        leads = here (assign s.thread_of idle.element idle.thread) test.element test.thread;
        thread =
            here (assign s.threads idle.thread th1) test.thread th2
            ∙ ap (λ m. new_thread process test_name m test_entry (stack_allocate test.stack 128))
                e2;
      };
      curr_iterated_proc = list;
      curr_iterated_thread = threads;
    }

-- With fuel, different memory from `malloc`, names, and no process before, `SchedInit` returns, and
-- leaves what `IsStarted` says; whether there has been an interrupt is as before.
pub sched_init_lem :
    (k : ℕ) (process element : Ptr) (idle test : Memory)
    (idle_name idle_entry test_name test_entry : Ptr) (s : Sched)
    → 0 < k
    → process ≢ null
    → element ≢ null
    → IsAllocated idle
    → IsAllocated test
    → element ≢ idle.element
    → element ≢ test.element
    → idle.element ≢ test.element
    → idle.thread ≢ test.thread
    → idle_name ≢ null
    → test_name ≢ null
    → s.process_list ≡ null
    → (t : Sched) × ((sched_init k process element idle test idle_name idle_entry test_name
            test_entry s
          ≡ ok tt t)
        × IsStarted process element idle test idle_name idle_entry test_name test_entry t
        × (t.initialized ≡ s.initialized))
unfolding sched_init
sched_init_lem k process element idle test idle_name idle_entry test_name test_entry s fk np ne ai
      at d1 d2 d3 d4 ni nt l =
    let h1 : Heap = assign s.elements element (some (links null null)) in
    let first = here s.processes process in
    let ps1 = (new_process process true 0 s).processes in
    let s1 = created process element s element h1 s.paging ps1 in
    let b1 : IsBare (ps1 process) = record {
      is_kernel_mode = ap (λ p. p.is_kernel_mode) (first _);
      page_directory = ap (λ p. p.page_directory) (first _);
    } in
    let leads = here s.process_of element process in
    let (h2, (run2, list2, same2)) =
      create_thread-started k idle.thread idle.element process idle_name idle_entry
        (stack_allocate idle.stack 128) s1 [] np ni ai.0 ai.1 tt (ap (λ p. p.threads) (first _))
        refl (omega arith) in
    let ps2 = owned process idle.element [] ps1 in
    let s2 =
      started idle.thread idle.element
        (new_thread process idle_name (ps1 process).is_kernel_mode idle_entry
          (stack_allocate idle.stack 128))
        s1 ps2 h2 in
    let b2 = owned-IsBare process idle.element ps1 b1 in
    let p2 = owned_threads process idle.element [] ps1 (ap (λ p. p.threads) (first _)) in
    let (h3, (run3, list3, same3)) =
      create_thread-started k test.thread test.element process test_name test_entry
        (stack_allocate test.stack 128) s2 (idle.element ∷ []) np nt at.0 at.1 list2 p2
        (not_among test.element idle.element d3) (omega arith) in
    let s3 =
      started test.thread test.element
        (new_thread process test_name (ps2 process).is_kernel_mode test_entry
          (stack_allocate test.stack 128))
        s2 ps2 h3 in
    let s4 = record s3 { curr_iterated_proc = s3.process_list } in
    (
      record s4 { curr_iterated_thread = (ps2 process).threads },
      (
        then_returns _ process s1 (create_process-first k process element null 0 s np ne l) (
            then_returns _ process s1 (first_process_lem s1 element process refl ne leads) (
              then_returns _ idle.thread s2 run2 (
                then_returns _ process s2 (first_process_lem s2 element process refl ne leads) (
                  then_returns _ test.thread s3 run3 (
                    then_returns _ process s4
                      (current_process-ok s4 ne (λ z. np (sym leads ∙ z)) ∙ ap (λ q. ok q s4) leads)
                      refl))))),
        both_started process element idle test idle_name idle_entry test_name test_entry s1 ps2 h2
            h3 (ps1 process).is_kernel_mode (ps2 process).is_kernel_mode b1.is_kernel_mode
            b2.is_kernel_mode d3 d4 refl leads b2 p2
            (alone h2 h3 element idle.element test.element d1 d2
              (unchanged s.elements h2 element idle.element d1 ne same2) same3)
            list3,
        refl,
      ),
    )
