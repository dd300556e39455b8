-- ===== src/Scheduler/Irq.antt =====
-- `SchedIrqHandler` and what it calls.
pub mod Current
pub mod Pick
pub mod Tick
pub mod Reach
pub mod Interrupt
pub mod Slice
pub mod Begin
pub mod Turn
pub mod Nap
mod Tests
use mcpgos.Base.{
  ℕ, zero, suc, ◌+◌, ◌-◌, true, false, not, ◌&&◌, ◌||◌, ltb, ◌==◌, if◌then◌else◌, assign,
}
use mcpgos.Base.Words.{u64, sub32}
use mcpgos.Base.Run.{placed, Cmd, ok, fault, out_of_fuel, pure, ◌>>=◌, ◌>>◌, modify}
use mcpgos.Mm.Paging.{Paging, switch_page_directory}
use mcpgos.Utils.LinkedList
use mcpgos.Utils.LinkedList.{Ptr, null}
use mcpgos.Scheduler.{running, sleeping, SchedThread, Sched, time_per_thread, is_sleeping}
use mcpgos.Scheduler.Frames.{IdtFrame, save_frame, load_frame}

-- `element->ListElement.Next`.
pub next_of : Ptr → Cmd Sched Ptr
next_of p s = elim (LinkedList.load p s.elements) [ ok l _ ↦ ok l.next s | _ ↦ fault ]

-- `CurrIteratedThread->Thread`, as a pointer that can be followed.
pub current_thread : Cmd Sched Ptr
current_thread s =
    if (s.curr_iterated_thread == null) || (s.thread_of s.curr_iterated_thread == null)
    then fault
    else ok (s.thread_of s.curr_iterated_thread) s

-- `CurrIteratedProc->Process`.
pub current_process : Cmd Sched Ptr
current_process s =
    if (s.curr_iterated_proc == null) || (s.process_of s.curr_iterated_proc == null)
    then fault
    else ok (s.process_of s.curr_iterated_proc) s

abbrev pub set_thread : Ptr → SchedThread → Sched → Sched
set_thread t th s = record s { threads = assign s.threads t th }

abbrev pub with_time : SchedThread → ℕ → SchedThread
with_time th n = record th { remaining_cpu_time = n }

-- The loop of `PickNextThread`.
pub pick_process : ℕ → Cmd Sched (Unit {0})
pick_process zero = λ _. out_of_fuel
pick_process (suc k) = do
  proc ← λ s. ok s.curr_iterated_proc s
  next ← next_of proc
  modify λ s. record s { curr_iterated_proc = if next == null then s.process_list else next }
  p ← current_process
  first ← λ s. ok (s.processes p).threads s
  modify λ s. record s { curr_iterated_thread = first }
  elim (first == null) [ true ↦ pick_process k | false ↦ pure tt ]

pub pick_next_thread : ℕ → Cmd Sched (Unit {0})
pick_next_thread fuel = do
  thread ← λ s. ok s.curr_iterated_thread s
  next ← next_of thread
  modify λ s. record s { curr_iterated_thread = next }
  elim (next == null) [ true ↦ pick_process fuel | false ↦ pure tt ]

-- One round of the `do` loop at `pickNextTask` with the loop after it, from the test of its
-- condition on. The counter of a sleeping thread wraps below zero.
pub after_pick : Cmd Sched (Unit {0}) → Ptr → Cmd Sched (Unit {0})
after_pick again t = do
  th ← λ s. ok (s.threads t) s
  elim (is_sleeping th.state) [
    | true ↦ modify (set_thread t (with_time th (sub32 th.remaining_cpu_time 1))) >> again
    | false ↦ pure tt
  ]

-- The `do` loop at `pickNextTask`.
pub pick_loop : ℕ → Cmd Sched (Unit {0})
pick_loop zero = λ _. out_of_fuel
pick_loop (suc k) = do pick_next_thread k; t ← current_thread; after_pick (pick_loop k) t

pub pick_next_task : ℕ → Cmd Sched (Unit {0})
pick_next_task fuel = do
  pick_loop fuel
  t ← current_thread
  modify λ s. set_thread t (with_time (s.threads t) time_per_thread) s

-- The time of a running thread after one more tick.
abbrev pub spent : ℕ → ℕ
spent r = if ltb 0 r then r - 1 else r

-- The `if` on the state of the current thread.
pub tick_running : ℕ → Ptr → Cmd Sched (Unit {0})
tick_running fuel t = do
  modify λ s. set_thread t (with_time (s.threads t) (spent (s.threads t).remaining_cpu_time)) s
  r ← λ s. ok (s.threads t).remaining_cpu_time s
  elim (r == 0) [ true ↦ pick_next_task fuel | false ↦ pure tt ]

pub tick_sleeping : ℕ → Ptr → Cmd Sched (Unit {0})
tick_sleeping fuel t = do
  modify λ s. set_thread t (with_time (s.threads t) (sub32 (s.threads t).remaining_cpu_time 1)) s
  r ← λ s. ok (s.threads t).remaining_cpu_time s
  elim (r == 0) [
    | true ↦ modify λ s.
        set_thread t
          (record (s.threads t) { state = running; remaining_cpu_time = time_per_thread }) s
    | false ↦ pick_next_task fuel
  ]

pub tick : ℕ → Cmd Sched (Unit {0})
tick fuel = do
  t ← current_thread
  th ← λ s. ok (s.threads t) s
  elim th.state [ running ↦ tick_running fuel t | sleeping ↦ tick_sleeping fuel t ]

-- The context of the interrupted thread is saved, but not at the first interrupt.
pub save_context : IdtFrame → Cmd Sched (Unit {0})
save_context frame = do
  init ← λ s. ok s.initialized s
  elim init [
    | true ↦ do
      t ← current_thread
      modify λ s. set_thread t (record (s.threads t) { cpu_frame = save_frame frame }) s
    | false ↦ modify λ s. record s { initialized = true }
  ]

-- A call on the page tables.
unfoldable pub on_paging : {A : Type 0} → Cmd Paging A → Cmd Sched A
on_paging m s = placed (λ p. record s { paging = p }) (m s.paging)

pub switch_context : Cmd Sched (Unit {0})
switch_context = do
  p ← current_process
  pd ← λ s. ok (s.processes p).page_directory s
  current ← λ s. ok s.paging.directory s
  elim (not (current == pd) && not (pd == null)) [
    | true ↦ on_paging (switch_page_directory pd)
    | false ↦ pure tt
  ]

pub irq_handler : ℕ → IdtFrame → Cmd Sched IdtFrame
irq_handler fuel frame = do
  modify λ s. record s { tick_counter = u64 (s.tick_counter + 1) }
  save_context frame
  tick fuel
  switch_context
  t ← current_thread
  th ← λ s. ok (s.threads t) s
  pure (load_frame frame th.cpu_frame)
