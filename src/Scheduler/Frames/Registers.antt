-- ===== src/Scheduler/Frames/Registers.antt =====
-- What the registers of a frame are, one by one.
use mcpgos.Base.{ℕ, ◌≡◌, refl, Bool, true, false, if◌then◌else◌}
use mcpgos.Scheduler.Frames.{CpuFrame, IdtFrame, save_frame, load_frame}
use mcpgos.Scheduler.Create.{first_frame}

-- The frame has the registers that the thread keeps. The stack pointer is that of the user's mode.
pub record Carries (g : IdtFrame) (c : CpuFrame) : Type 0 where
  pub eax : g.eax ≡ c.eax
  pub ebx : g.ebx ≡ c.ebx
  pub ecx : g.ecx ≡ c.ecx
  pub edx : g.edx ≡ c.edx
  pub esi : g.esi ≡ c.esi
  pub edi : g.edi ≡ c.edi
  pub ebp : g.ebp ≡ c.ebp
  pub eip : g.eip ≡ c.eip
  pub eflags : g.eflags ≡ c.eflags
  pub cs : g.cs ≡ c.cs
  pub ds : g.ds ≡ c.ds
  pub es : g.es ≡ c.es
  pub fs : g.fs ≡ c.fs
  pub gs : g.gs ≡ c.gs
  pub ss : g.ss ≡ c.ss
  pub user_esp : g.user_esp ≡ c.esp

-- The frame `g` has the registers of `f`.
pub record SameRegisters (f g : IdtFrame) : Type 0 where
  pub eax : g.eax ≡ f.eax
  pub ebx : g.ebx ≡ f.ebx
  pub ecx : g.ecx ≡ f.ecx
  pub edx : g.edx ≡ f.edx
  pub esi : g.esi ≡ f.esi
  pub edi : g.edi ≡ f.edi
  pub ebp : g.ebp ≡ f.ebp
  pub eip : g.eip ≡ f.eip
  pub eflags : g.eflags ≡ f.eflags
  pub cs : g.cs ≡ f.cs
  pub ds : g.ds ≡ f.ds
  pub es : g.es ≡ f.es
  pub fs : g.fs ≡ f.fs
  pub gs : g.gs ≡ f.gs
  pub ss : g.ss ≡ f.ss
  pub user_esp : g.user_esp ≡ f.user_esp

-- The registers that a new thread keeps: it begins at `entry` with interrupts on, in the segments of
-- its mode, and its stack is in the stack pointer and in EBP.
pub record IsNew (kernel_mode : Bool) (entry stack : ℕ) (c : CpuFrame) : Type 0 where
  pub eip : c.eip ≡ entry
  pub eflags : c.eflags ≡ 0x200
  pub cs : c.cs ≡ (if kernel_mode then 0x08 else 0x1B)
  pub ds : c.ds ≡ (if kernel_mode then 0x10 else 0x23)
  pub es : c.es ≡ (if kernel_mode then 0x10 else 0x23)
  pub fs : c.fs ≡ (if kernel_mode then 0x10 else 0x23)
  pub gs : c.gs ≡ (if kernel_mode then 0x10 else 0x23)
  pub ss : c.ss ≡ (if kernel_mode then 0x10 else 0x23)
  pub ebp : c.ebp ≡ stack
  pub esp : c.esp ≡ stack
  pub eax : c.eax ≡ 0
  pub ebx : c.ebx ≡ 0
  pub ecx : c.ecx ≡ 0
  pub edx : c.edx ≡ 0
  pub esi : c.esi ≡ 0
  pub edi : c.edi ≡ 0

-- The frame with which such a thread begins in the kernel's mode.
pub record Begins (entry stack : ℕ) (g : IdtFrame) : Type 0 where
  pub eip : g.eip ≡ entry
  pub eflags : g.eflags ≡ 0x200
  pub cs : g.cs ≡ 0x08
  pub ds : g.ds ≡ 0x10
  pub es : g.es ≡ 0x10
  pub fs : g.fs ≡ 0x10
  pub gs : g.gs ≡ 0x10
  pub ss : g.ss ≡ 0x10
  pub ebp : g.ebp ≡ stack
  pub user_esp : g.user_esp ≡ stack
  pub eax : g.eax ≡ 0
  pub ebx : g.ebx ≡ 0
  pub ecx : g.ecx ≡ 0
  pub edx : g.edx ≡ 0
  pub esi : g.esi ≡ 0
  pub edi : g.edi ≡ 0

pub load_frame-Carries : (f : IdtFrame) (c : CpuFrame) → Carries (load_frame f c) c
unfolding load_frame
load_frame-Carries f c = record {
  eax = refl;
  ebx = refl;
  ecx = refl;
  edx = refl;
  esi = refl;
  edi = refl;
  ebp = refl;
  eip = refl;
  eflags = refl;
  cs = refl;
  ds = refl;
  es = refl;
  fs = refl;
  gs = refl;
  ss = refl;
  user_esp = refl;
}

pub save_frame-Carries : (f : IdtFrame) → Carries f (save_frame f)
unfolding save_frame
save_frame-Carries f = record {
  eax = refl;
  ebx = refl;
  ecx = refl;
  edx = refl;
  esi = refl;
  edi = refl;
  ebp = refl;
  eip = refl;
  eflags = refl;
  cs = refl;
  ds = refl;
  es = refl;
  fs = refl;
  gs = refl;
  ss = refl;
  user_esp = refl;
}

pub resumed-SameRegisters : (f g : IdtFrame) → SameRegisters f (load_frame g (save_frame f))
unfolding load_frame save_frame
resumed-SameRegisters f g = record {
  eax = refl;
  ebx = refl;
  ecx = refl;
  edx = refl;
  esi = refl;
  edi = refl;
  ebp = refl;
  eip = refl;
  eflags = refl;
  cs = refl;
  ds = refl;
  es = refl;
  fs = refl;
  gs = refl;
  ss = refl;
  user_esp = refl;
}

pub first_frame-IsNew :
    (entry stack : ℕ) (kernel_mode : Bool)
    → IsNew kernel_mode entry stack (first_frame kernel_mode entry stack)
unfolding first_frame
first_frame-IsNew entry stack true = record {
  eip = refl;
  eflags = refl;
  cs = refl;
  ds = refl;
  es = refl;
  fs = refl;
  gs = refl;
  ss = refl;
  ebp = refl;
  esp = refl;
  eax = refl;
  ebx = refl;
  ecx = refl;
  edx = refl;
  esi = refl;
  edi = refl;
}
first_frame-IsNew entry stack false = record {
  eip = refl;
  eflags = refl;
  cs = refl;
  ds = refl;
  es = refl;
  fs = refl;
  gs = refl;
  ss = refl;
  ebp = refl;
  esp = refl;
  eax = refl;
  ebx = refl;
  ecx = refl;
  edx = refl;
  esi = refl;
  edi = refl;
}

pub loaded-Begins :
    (f : IdtFrame) (entry stack : ℕ)
    → Begins entry stack (load_frame f (first_frame true entry stack))
unfolding load_frame first_frame
loaded-Begins f entry stack = record {
  eip = refl;
  eflags = refl;
  cs = refl;
  ds = refl;
  es = refl;
  fs = refl;
  gs = refl;
  ss = refl;
  ebp = refl;
  user_esp = refl;
  eax = refl;
  ebx = refl;
  ecx = refl;
  edx = refl;
  esi = refl;
  edi = refl;
}
