-- ===== src/Cpu/Idt/Dispatch.antt =====
-- What `IdtGlobalIntHandler` does with each vector.
use mathlib.Core.List.{append_assoc, append-nil}
use mcpgos.Base.{
  ℕ, ◌≤◌, ◌<◌, ◌≡◌, sym, ap, ◌∙◌, ◌≢◌, ◌⊎◌, inl, inr, none, some, [], ◌∷◌, ◌++◌, arith, ltb, ◌==◌,
  if◌then◌else◌, assign, Bool-cases,
}
use mcpgos.Base.Run.{Cmd, ok, fault, and_then, then_returns}
use mcpgos.Base.Words.{u8}
use mcpgos.Cpu.Ports.{byte_to, PortLog}
use mcpgos.Cpu.Pic.{pic_eoi}
use mcpgos.Cpu.Idt.{
  Core, IntHandlers, hangs, handled, call_handler, acknowledge, run_handler, global_int_handler,
}
use mcpgos.Scheduler.Frames.{IdtFrame}

-- The end-of-interrupt writes for a vector: none, to the first controller, or to both.
abbrev pub eoi_writes : ℕ → PortLog
eoi_writes k =
    if ltb k 0x20
    then []
    else if ltb k 0x28
    then byte_to 0x20 0x20 ∷ []
    else if ltb k 0x30
    then byte_to 0xA0 0x20 ∷ byte_to 0x20 0x20 ∷ []
    else []

-- What the handler of the vector does, the frame itself where there is none.
abbrev pub Answers : {S : Type 0} → IntHandlers S → IdtFrame → Core S → IdtFrame → Core S → Type 0
Answers {S} handlers f c g d =
    ((handlers f.interrupt_number ≡ none) × (g ≡ f) × (d ≡ c))
    ⊎ ((h : IdtFrame → Cmd (Core S) IdtFrame) × (handlers f.interrupt_number ≡ some h)
        × (h f c ≡ ok g d))

acknowledge-ports :
    {S : Type 0} (k : ℕ) (d : Core S)
    → acknowledge k d ≡ record d { ports = d.ports ++ eoi_writes k }
unfolding acknowledge pic_eoi
acknowledge-ports k d = ground (
  arith,
  append-nil d.ports,
  append_assoc d.ports (byte_to 0xA0 0x20 ∷ []) (byte_to 0x20 0x20 ∷ []),
)

call_handler-Answers :
    {S : Type 0} (handlers : IntHandlers S) (f g : IdtFrame) (c d : Core S)
    → Answers handlers f c g d
    → call_handler (handlers f.interrupt_number) f c ≡ ok g d
unfolding call_handler
call_handler-Answers handlers f g c d (inl (e, p, q)) =
    ap (λ o. call_handler o f c) e ∙ ap (λ x. ok x c) (sym p) ∙ ap (λ x. ok g x) (sym q)
call_handler-Answers handlers f g c d (inr (h, e, r)) = ap (λ o. call_handler o f c) e ∙ r

handler_runs :
    {S : Type 0} (handlers : IntHandlers S) (f g : IdtFrame) (c d : Core S)
    → f.interrupt_number < 256
    → Answers handlers f c g d
    → run_handler handlers f c
      ≡ ok g (record d { ports = d.ports ++ eoi_writes f.interrupt_number })
unfolding run_handler
handler_runs handlers f g c d l h =
    let n : u8 f.interrupt_number ≡ f.interrupt_number = omega arith in
    then_returns _ g d
      (ap (λ k. call_handler (handlers k) f c) n ∙ call_handler-Answers handlers f g c d h)
      (ap (λ k. ok g (acknowledge k d)) n
        ∙ ap (λ x. ok g x) (acknowledge-ports f.interrupt_number d))

handler_faults :
    {S : Type 0} (handlers : IntHandlers S) (f : IdtFrame) (c : Core S)
    (h : IdtFrame → Cmd (Core S) IdtFrame)
    → f.interrupt_number < 256
    → handlers f.interrupt_number ≡ some h
    → h f c ≡ fault
    → run_handler handlers f c ≡ fault
unfolding run_handler call_handler
handler_faults handlers f c h l e run =
    let n : u8 f.interrupt_number ≡ f.interrupt_number = omega arith in
    ap (λ r. and_then r (λ g d. ok g (acknowledge (u8 f.interrupt_number) d)))
      (ap (λ k. call_handler (handlers k) f c) n ∙ ap (λ o. call_handler o f c) e ∙ run)

-- A handler that faults does not come back.
pub global_int_handler-faults :
    {S : Type 0} (handlers : IntHandlers S) (f : IdtFrame) (c : Core S)
    (h : IdtFrame → Cmd (Core S) IdtFrame)
    → 0x1E < f.interrupt_number
    → f.interrupt_number < 256
    → handlers f.interrupt_number ≡ some h
    → h f c ≡ fault
    → global_int_handler handlers f c ≡ handled fault
unfolding global_int_handler
global_int_handler-faults handlers f c h l m e run =
    ground (arith, handler_faults handlers f c h m e run)

abbrev shown : {S : Type 0} → ℕ → ℕ → Core S → ℕ → ℕ
shown a b c = assign (assign c.screen 0xB8000 a) 0xB8002 b

-- At vectors up to 0x1E the kernel shows two characters, `PF` for a page fault, and hangs. At any
-- other vector below 256 the handler runs, if there is one, and gives the frame to go back to; then
-- the interrupt is acknowledged as its vector needs it: 0x20 to 0x27 at the first controller, 0x28
-- to 0x2F at both, and the others at none.
pub global_int_handler_lem :
    {S : Type 0} (handlers : IntHandlers S) (f : IdtFrame) (c : Core S)
    → (f.interrupt_number ≤ 0x1E
        → (screen : ℕ → ℕ) × ((global_int_handler handlers f c ≡ hangs screen)
            × (screen 0xB8000 ≡ (if f.interrupt_number == 0x0E then b'P' else b':'))
            × (screen 0xB8002 ≡ (if f.interrupt_number == 0x0E then b'F' else b'/'))
            × ((a : ℕ) → a ≢ 0xB8000 → a ≢ 0xB8002 → screen a ≡ c.screen a)))
      × ((g : IdtFrame) (d : Core S)
          → 0x1E < f.interrupt_number
          → f.interrupt_number < 256
          → Answers handlers f c g d
          → global_int_handler handlers f c
            ≡ handled (ok g (record d { ports = d.ports ++ eoi_writes f.interrupt_number })))
unfolding global_int_handler
global_int_handler_lem handlers f c = (
  λ l. elim (Bool-cases (f.interrupt_number == 0x0E)) [
    | inl e ↦ (shown b'P' b'F' c, (ground arith, ground arith, ground arith, λ a n m. ground arith))
    | inr e ↦ (shown b':' b'/' c, (ground arith, ground arith, ground arith, λ a n m. ground arith))
  ],
  λ g d l m h. ground (arith, handler_runs handlers f g c d m h),
)
