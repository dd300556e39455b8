-- ===== src/Scheduler/Frames.antt =====
-- The registers that an interrupt pushes (kernel/include/CPU/Idt.h) and those that a thread keeps
-- (kernel/include/Scheduler/Scheduler.h), with `SchedSaveFrame` and `SchedLoadFrame`. The
-- functions read and write a stack pointer and a stack segment of every frame, though the processor
-- pushes them, and loads them again, only at an interrupt of the user's mode.
pub mod Registers
use mcpgos.Base.{ℕ, ◌≡◌, refl}

pub record CpuFrame : Type 0 where
  pub gs : ℕ
  pub fs : ℕ
  pub ss : ℕ
  pub es : ℕ
  pub ds : ℕ
  pub cs : ℕ
  pub edi : ℕ
  pub esi : ℕ
  pub ebp : ℕ
  pub esp : ℕ
  pub ebx : ℕ
  pub edx : ℕ
  pub ecx : ℕ
  pub eax : ℕ
  pub eip : ℕ
  pub eflags : ℕ

pub record IdtFrame : Type 0 where
  pub gs : ℕ
  pub fs : ℕ
  pub es : ℕ
  pub ds : ℕ
  pub edi : ℕ
  pub esi : ℕ
  pub ebp : ℕ
  -- The stack pointer that `pushad` pushes, `_` in the source.
  pub pushed_esp : ℕ
  pub ebx : ℕ
  pub edx : ℕ
  pub ecx : ℕ
  pub eax : ℕ
  pub interrupt_number : ℕ
  pub error_code : ℕ
  pub eip : ℕ
  pub cs : ℕ
  pub eflags : ℕ
  -- These two are pushed only at an interrupt of the user's mode. At one of the kernel's mode they are
  -- the two words that lie behind the frame on the stack.
  pub user_esp : ℕ
  pub ss : ℕ

unfoldable pub save_frame : IdtFrame → CpuFrame
save_frame source = record {
  gs = source.gs;
  fs = source.fs;
  ss = source.ss;
  es = source.es;
  ds = source.ds;
  cs = source.cs;
  edi = source.edi;
  esi = source.esi;
  ebp = source.ebp;
  esp = source.user_esp;
  ebx = source.ebx;
  edx = source.edx;
  ecx = source.ecx;
  eax = source.eax;
  eip = source.eip;
  eflags = source.eflags;
}

unfoldable pub load_frame : IdtFrame → CpuFrame → IdtFrame
load_frame target source = record target {
  eax = source.eax;
  ebx = source.ebx;
  ecx = source.ecx;
  edx = source.edx;
  esi = source.esi;
  edi = source.edi;
  user_esp = source.esp;
  ebp = source.ebp;
  eip = source.eip;
  eflags = source.eflags;
  cs = source.cs;
  ds = source.ds;
  es = source.es;
  fs = source.fs;
  gs = source.gs;
  ss = source.ss;
}

-- What is saved of a frame and loaded into another is saved of that one again; a frame that is
-- saved and loaded into itself is as before; and loading leaves the pushed stack pointer, the
-- interrupt's number and the error code.
pub frames_round_trip :
    (f g : IdtFrame) (c : CpuFrame)
    → (save_frame (load_frame g c) ≡ c)
      × (load_frame f (save_frame f) ≡ f)
      × ((load_frame g c).pushed_esp ≡ g.pushed_esp)
      × ((load_frame g c).interrupt_number ≡ g.interrupt_number)
      × ((load_frame g c).error_code ≡ g.error_code)
unfolding save_frame load_frame
frames_round_trip f g c = (refl, refl, refl, refl, refl)
