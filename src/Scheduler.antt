-- ===== src/Scheduler.antt =====
-- The scheduler, kernel/src/Scheduler/Scheduler.c. Threads, processes and the elements of their
-- lists are known by their addresses; the links of all elements lie in one heap.
pub mod Frames
pub mod Irq
pub mod Create
pub mod Start
mod Tests
use mcpgos.Base.{ℕ, Bool, true, false}
use mcpgos.Utils.LinkedList
use mcpgos.Utils.LinkedList.{Ptr, Heap}
use mcpgos.Mm.Paging.{Paging}
use mcpgos.Scheduler.Frames.{CpuFrame}

pub data TaskState : Type 0 where
  running sleeping : TaskState

pub record SchedThread : Type 0 where
  pub parent_process : Ptr
  pub thread_name : Ptr
  pub state : TaskState
  pub remaining_cpu_time : ℕ
  pub cpu_frame : CpuFrame

pub record Process : Type 0 where
  pub process_id : ℕ
  pub user_id : ℕ
  pub is_kernel_mode : Bool
  pub page_directory : Ptr
  -- The element at which the process's list of threads begins.
  pub threads : Ptr

pub record Sched : Type 0 where
  pub elements : Heap
  -- `Thread` of a ProcThreadElement, and `Process` of a ProcListElement.
  pub thread_of : Ptr → Ptr
  pub process_of : Ptr → Ptr
  pub threads : Ptr → SchedThread
  pub processes : Ptr → Process
  pub tick_counter : ℕ
  pub process_list : Ptr
  pub curr_iterated_proc : Ptr
  pub curr_iterated_thread : Ptr
  pub initialized : Bool
  pub current_pid : ℕ
  pub paging : Paging

abbrev pub time_per_thread : ℕ
time_per_thread = 2

abbrev pub is_sleeping : TaskState → Bool
is_sleeping running = false
is_sleeping sleeping = true
