-- ===== src/Syscalls/Calls.antt =====
-- The two system calls, on a stream whose writes return.
use mcpgos.Base.{
  ℕ, zero, suc, ◌*◌, ◌≡◌, refl, ap, Option, none, List, ◌++◌, arith, some, leb, false,
}
use mcpgos.Base.Run.{ok, fault, pure, and_then, then_returns}
use mcpgos.Base.Words.{u32}
use mcpgos.Io.{IoStream, io_write}
use mcpgos.Kprintf.Streams.{Writes, kprintf_text}
use mcpgos.Scheduler.Frames.{IdtFrame}
use mcpgos.Syscalls.{
  SyscallHandler, syscall_int_handler, hello, test_loop, syscall_test, handler_amount, call_syscall,
  syscall_tty_write, syscall_handlers, syscall_int_handler_lem,
}

-- The line of `SyscallTest`, `n` times.
abbrev pub hellos : List ℕ → ℕ → List ℕ
hellos out zero = out
hellos out (suc n) = hellos (out ++ hello) n

module _ {S : Type 0} (Shown : List ℕ → S → Type 0) (stream : IoStream S (List ℕ))
    (w : Writes Shown stream) (tty_at : IoStream S ℕ) where
  test_loop_lem :
      (n : ℕ) (out : List ℕ) (s : S)
      → Shown out s
      → (t : S) × ((test_loop none stream n s ≡ ok tt t) × Shown (hellos out n) t)
  unfolding test_loop
  test_loop_lem zero out s h = (s, (refl, h))
  test_loop_lem (suc n) out s h =
      let (u, (run, shown)) = kprintf_text Shown stream w hello out s (omega arith) h in
      let (t, (runs, last)) = test_loop_lem n (out ++ hello) u shown in
      (t, (then_returns _ tt u run runs, last))

  syscall_test_lem :
      (n : ℕ) (out : List ℕ) (s : S)
      → Shown out s
      → (t : S) × ((syscall_test none stream n s ≡ ok (u32 (n * 2)) t) × Shown (hellos out n) t)
  unfolding syscall_test
  syscall_test_lem n out s h =
      let (t, (run, shown)) = test_loop_lem n out s h in (t, (then_returns _ tt t run refl, shown))

  syscall_tty_write_lem :
      (buffer size : ℕ) (s t : S)
      → io_write tty_at buffer size s ≡ ok size t
      → syscall_tty_write tty_at none stream buffer size s ≡ ok size t
  unfolding syscall_tty_write
  syscall_tty_write_lem buffer size s t run = then_returns _ size t run refl

  syscall_tty_write-faults :
      (buffer size : ℕ) (s : S)
      → io_write tty_at buffer size s ≡ fault
      → syscall_tty_write tty_at none stream buffer size s ≡ fault
  unfolding syscall_tty_write
  syscall_tty_write-faults buffer size s run = ap (λ r. and_then r (λ _. pure size)) run

  module _ (handlers : ℕ → Option (SyscallHandler S)) (f : IdtFrame) (out : List ℕ) (s : S)
      (h : Shown out s) where
    -- `SyscallTest`, by its number.
    pub call_test :
        f.eax ≡ 0
        → (t : S) × ((syscall_int_handler (syscall_handlers tty_at none stream handlers) f s
              ≡ ok (record f { eax = u32 (u32 (f.ebx * 2)) }) t)
            × Shown (hellos out f.ebx) t)
    unfolding syscall_handlers
    call_test e =
        let (_, _, calls) =
          syscall_int_handler_lem (syscall_handlers tty_at none stream handlers) f s in
        let (t, (run, shown)) = syscall_test_lem f.ebx out s h in
        (
          t,
          (
            calls _ (u32 (f.ebx * 2)) t (omega (arith, e))
                (ap (syscall_handlers tty_at none stream handlers) e) run,
            shown,
          ),
        )

    -- `SyscallTTYWrite`, by its number.
    pub call_tty_write :
        (t : S)
        → f.eax ≡ 1
        → io_write tty_at f.ebx f.ecx s ≡ ok f.ecx t
        → syscall_int_handler (syscall_handlers tty_at none stream handlers) f s
          ≡ ok (record f { eax = u32 f.ecx }) t
    unfolding syscall_handlers
    call_tty_write t e run =
        let (_, _, calls) =
          syscall_int_handler_lem (syscall_handlers tty_at none stream handlers) f s in
        calls _ f.ecx t (omega (arith, e)) (ap (syscall_handlers tty_at none stream handlers) e)
          (syscall_tty_write_lem f.ebx f.ecx s t run)

    pub call_tty_write-faults :
        f.eax ≡ 1
        → io_write tty_at f.ebx f.ecx s ≡ fault
        → syscall_int_handler (syscall_handlers tty_at none stream handlers) f s ≡ fault
    unfolding syscall_handlers syscall_int_handler call_syscall
    call_tty_write-faults e run =
        let at : syscall_handlers tty_at none stream handlers f.eax
            ≡ some (λ ebx ecx _ _ _. syscall_tty_write tty_at none stream ebx ecx) =
          ap (syscall_handlers tty_at none stream handlers) e in
        let small : leb handler_amount f.eax ≡ false = ground (arith, e) in
        rw small (
          rw at (
            ap (λ r. and_then r (λ x. pure (record f { eax = u32 x })))
              (syscall_tty_write-faults f.ebx f.ecx s run)))
