-- ===== src/Scheduler/Start.antt =====
-- `SchedInit`, and `SchedSleep` with its interrupt. What `malloc` returns is an argument.
pub mod Initial
pub mod First
pub mod Rounds
pub mod Turns
pub mod Asleep
pub mod Ready
use mcpgos.Base.{ℕ, ◌+◌, true, false, not, some, ◌==◌}
use mcpgos.Base.Run.{Cmd, ok, ◌>>=◌, ◌>>◌, in_bounds, modify, placed}
use mcpgos.Base.Words.{u32}
use mcpgos.Utils.LinkedList.{Ptr, null}
use mcpgos.Cpu.Idt.{Core, IntHandlers, set_handler}
use mcpgos.Scheduler.{Sched}
use mcpgos.Scheduler.Frames.{IdtFrame}
use mcpgos.Scheduler.Irq.{current_process, irq_handler}
use mcpgos.Scheduler.Create.{create_process, create_thread, sleep}

-- `SchedSleep`: `SchedTick` raises the timer's interrupt, with the frame that the processor pushes.
pub sched_sleep : (fuel : ℕ) → IdtFrame → (thread : Ptr) (millis : ℕ) → Cmd Sched IdtFrame
sched_sleep fuel frame thread millis = do sleep thread millis; irq_handler fuel frame

-- The memory of a thread and of its element, and its stack's.
pub record Memory : Type 0 where
  pub thread : Ptr
  pub element : Ptr
  pub stack : Ptr

-- `STACK_ALLOCATE`.
abbrev pub stack_allocate : (stack size : ℕ) → ℕ
stack_allocate stack size = u32 (stack + size)

-- `SchedProcessList->Process`, as a pointer that can be followed.
abbrev pub first_process : Cmd Sched Ptr
first_process = do
  list ← λ s. ok s.process_list s
  in_bounds (not (list == null))
  λ s. ok (s.process_of list) s

-- `SchedInit` before `IdtSetHandler`; `idle_name`, `idle_entry` and the two others are the addresses
-- of "KIdle", `SchedIdle`, "Test" and `SchedSleepTest`.
pub sched_init :
    (fuel : ℕ) (process element : Ptr) (idle test : Memory) (idle_name idle_entry : Ptr)
    (test_name test_entry : Ptr)
    → Cmd Sched (Unit {0})
sched_init fuel process element idle test idle_name idle_entry test_name test_entry = do
  create_process fuel process element null true false 0
  owner ← first_process
  create_thread fuel idle.thread idle.element owner idle_name idle_entry
      (stack_allocate idle.stack 128)
  next_owner ← first_process
  create_thread fuel test.thread test.element next_owner test_name test_entry
      (stack_allocate test.stack 128)
  modify λ s. record s { curr_iterated_proc = s.process_list }
  p ← current_process
  modify λ s. record s { curr_iterated_thread = (s.processes p).threads }

module _ {S : Type 0} (sched : S → Sched) (put : Sched → S → S) where
  -- `SchedIrqHandler`, where `sched` is the scheduler's part of the state.
  abbrev pub sched_irq_handler : (fuel : ℕ) → IdtFrame → Cmd (Core S) IdtFrame
  sched_irq_handler fuel frame c =
      placed (λ r. record c { rest = put r c.rest }) (irq_handler fuel frame (sched c.rest))

  -- `IdtIntHandlers` after `SchedInit`.
  unfoldable pub sched_handlers : (fuel : ℕ) → IntHandlers S → IntHandlers S
  sched_handlers fuel = set_handler 0x20 (some (sched_irq_handler fuel))
