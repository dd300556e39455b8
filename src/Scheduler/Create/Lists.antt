-- ===== src/Scheduler/Create/Lists.antt =====
-- The lists of processes and of threads stay lists.
use mathlib.Core.Path.{subst}
use mcpgos.Base.{
  ℕ, ◌+◌, ◌≤◌, ◌≡◌, refl, sym, ap, ◌∙◌, ◌≢◌, Bool, true, false, not, some, List, [], ◌∷◌, ◌++◌,
  arith, ◌==◌, if◌then◌else◌, assign, eq→==, ne→==, length,
}
use mcpgos.Base.Run.{
  placed, pure, Run, Cmd, ok, assert, panic, fault, out_of_fuel, and_then, then_returns, true_case,
  false_case, assert-true,
}
use mcpgos.Base.Words.{u32}
use mcpgos.Utils.LinkedList.{Ptr, null, links, Heap, push_back}
use mcpgos.Utils.LinkedList.Chain.{among, first_or, IsList}
use mcpgos.Mm.Paging.Directory.{alloc_page_directory-returns}
use mcpgos.Mm.Paging.{Paging}
use mcpgos.Scheduler.Irq.{on_paging}
use mcpgos.Scheduler.{Process, Sched}
use mcpgos.Scheduler.Create.{on_elements, give_directory, create_process}
use mcpgos.Utils.LinkedList.Append.{appended}

pub on_elements-ok :
    {A : Type 0} (m : Cmd Heap A) (s : Sched) (a : A) (h : Heap)
    → m s.elements ≡ ok a h
    → on_elements m s ≡ ok a (record s { elements = h })
unfolding on_elements
on_elements-ok {A} m s a h e =
    subst
      (λ r.
        (elim r as (λ _. Run Sched A) [
          | ok b g ↦ ok b (record s { elements = g })
          | panic x ↦ panic x
          | fault ↦ fault
          | out_of_fuel ↦ out_of_fuel
        ])
        ≡ ok a (record s { elements = h }))
      (sym e) refl

pub asserted :
    {B : Type 0} {x : Run Sched B} (p : Ptr) (k : Unit {0} → Cmd Sched B) (s : Sched)
    → p ≢ null
    → k tt s ≡ x
    → and_then (assert (not (p == null)) s) k ≡ x
asserted p k s n e = then_returns k tt s (assert-true (not (p == null)) s (ground arith)) e

give_directory_lem :
    (alloc : Bool) (process directory : Ptr) (s : Sched)
    → (s.processes process).page_directory ≡ null
    → (q : Paging) × (ps : Ptr → Process) × ((give_directory alloc process directory s
          ≡ ok tt (record s { paging = q; processes = ps }))
        × (ps process
            ≡ record (s.processes process) { page_directory = if alloc then directory else null }))
unfolding give_directory on_paging
give_directory_lem false process directory s e =
    (s.paging, s.processes, (refl, ap (λ d. record (s.processes process) { page_directory = d }) e))
give_directory_lem true process directory s e =
    let (q, r) = alloc_page_directory-returns directory s.paging in
    (
      q,
      assign s.processes process (record (s.processes process) { page_directory = directory }),
      (then_returns _ directory (record s { paging = q }) (ap (placed _) r) refl, ground arith),
    )

-- A process as `SchedCreateProcess` first writes it, and the state then.
abbrev pub new_process : Ptr → Bool → ℕ → Sched → Sched
new_process process kernel_mode uid s = record s {
  processes = assign s.processes process (record {
    process_id = s.current_pid;
    user_id = uid;
    is_kernel_mode = kernel_mode;
    page_directory = null;
    threads = null;
  });
  current_pid = u32 (s.current_pid + 1);
}

-- The state that a call of `SchedCreateProcess` which returns leaves behind.
abbrev pub created :
    (process element : Ptr) → Sched → (process_list : Ptr) → Heap → Paging → (Ptr → Process) → Sched
created process element s list g q ps = record s {
  processes = ps;
  paging = q;
  current_pid = u32 (s.current_pid + 1);
  process_of = assign s.process_of element process;
  process_list = list;
  elements = g;
}

-- The first process, of the kernel and with no page directory, by the state that the call leaves.
pub create_process-first :
    (k : ℕ) (process element directory : Ptr) (uid : ℕ) (s : Sched)
    → process ≢ null
    → element ≢ null
    → s.process_list ≡ null
    → create_process k process element directory true false uid s
      ≡ ok process (
          created process element s element
            (assign s.elements element (some (links null null)))
            s.paging
            (new_process process true uid s).processes)
unfolding create_process give_directory
create_process-first k process element directory uid s np ne l =
    asserted process _ s np
      (asserted element _ s ne (then_returns _ _ _ (true_case _ _ _ _ (eq→== _ _ l)) refl))

-- Called with enough fuel on a scheduler whose processes are a list, and with memory that was
-- allocated for a process and for an element that is not in it, `SchedCreateProcess` returns the
-- process; the new element, which leads to it, stands at the end of the list; the process has the
-- next number, no threads, and a page directory if one was asked for.
pub create_process_lem :
    (k : ℕ) (process element directory : Ptr) (kernel_mode alloc : Bool) (uid : ℕ) (s : Sched)
    (xs : List Ptr)
    → process ≢ null
    → element ≢ null
    → IsList s.elements xs
    → s.process_list ≡ first_or null xs
    → among element xs ≡ false
    → length xs ≤ k
    → (t : Sched) × ((create_process k process element directory kernel_mode alloc uid s
          ≡ ok process t)
        × (t.process_list ≡ first_or null (xs ++ element ∷ []))
        × IsList t.elements (xs ++ element ∷ [])
        × (t.process_of element ≡ process)
        × ((t.processes process).process_id ≡ s.current_pid)
        × ((t.processes process).page_directory ≡ (if alloc then directory else null))
        × ((t.processes process).threads ≡ null)
        × (t.current_pid ≡ u32 (s.current_pid + 1)))
unfolding create_process
create_process_lem k process element directory kernel_mode alloc uid s [] np ne l c out f =
    let h : Heap = assign s.elements element (some (links null null)) in
    let (q, ps, (r, e)) =
      give_directory_lem alloc process directory (new_process process kernel_mode uid s)
        (ground arith) in
    (
      created process element s element h q ps,
      (
        asserted process _ s np (
            asserted element _ s ne
              (then_returns _ _ _ r (then_returns _ _ _ (true_case _ _ _ _ (eq→== _ _ c)) refl))),
        refl,
        (ne, ground arith, refl, tt),
        ground arith,
        ap (λ x. x.process_id) e ∙ ground arith,
        ap (λ x. x.page_directory) e,
        ap (λ x. x.threads) e ∙ ground arith,
        refl,
      ),
    )
create_process_lem k process element directory kernel_mode alloc uid s (p ∷ zs) np ne l c out f =
    let (g, r, m) = appended k s.elements p zs element ne l out (omega arith) in
    let h : Heap = assign s.elements element (some (links null null)) in
    let (q, ps, (d, e)) =
      give_directory_lem alloc process directory (new_process process kernel_mode uid s)
        (ground arith) in
    let u = created process element s s.process_list h q ps in
    let t = created process element s s.process_list g q ps in
    (
      t,
      (
        asserted process _ s np (
            asserted element _ s ne (
              then_returns _ _ _ d (
                then_returns (λ _. pure process) tt t
                  (false_case (s.process_list == null) _ _ u (ne→== _ _ (λ e. l.0 (sym c ∙ e)))
                    ∙ on_elements-ok (push_back k s.process_list element) u tt g
                        (ap (λ q. push_back k q element h) c ∙ r))
                  refl))),
        c,
        m,
        ground arith,
        ap (λ x. x.process_id) e ∙ ground arith,
        ap (λ x. x.page_directory) e,
        ap (λ x. x.threads) e ∙ ground arith,
        refl,
      ),
    )
