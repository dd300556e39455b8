-- ===== src/Kernel/Panic.antt =====
-- `KPanic`, kernel/src/KPanic.c: what it prints before the kernel halts.
use mcpgos.Base.{ℕ, Option, List, [], ◌∷◌, ◌++◌, All}
use mcpgos.Base.Run.{Run, Cmd, ok, panic, fault, out_of_fuel, pure, ◌>>◌}
use mcpgos.Io.{IoStream}
use mcpgos.Kprintf.{kprintf}
use mcpgos.Kprintf.Format.{NoPercent}

-- With interrupts off the processor waits for ever; or a call of `Kprintf` has not returned.
pub data Panicked (S : Type 0) : Type 0 where
  halts : S → Panicked S
  stuck : Run S (Unit {0}) → Panicked S

abbrev pub halted : {S : Type 0} → Run S (Unit {0}) → Panicked S
halted (ok a s) = halts s
halted (panic r) = stuck (panic r)
halted fault = stuck fault
halted out_of_fuel = stuck out_of_fuel

abbrev pub blank_lines : List ℕ
blank_lines = 10 ∷ 10 ∷ []

abbrev pub ruler : List ℕ
ruler =
    b'-' ∷ b'-' ∷ b'-' ∷ b'-' ∷ b'-' ∷ b'-' ∷ b'-' ∷ b'-' ∷ b'-' ∷ b'-' ∷ b'-' ∷ b'-' ∷ b'-' ∷ b'-'
    ∷ b'-' ∷ b'-' ∷ b'-' ∷ b'-' ∷ b'-' ∷ b'-' ∷ b'-' ∷ b'-' ∷ b'-' ∷ b'-' ∷ b'-' ∷ b'-' ∷ b'-'
    ∷ b'-' ∷ b'-' ∷ 10 ∷ []

abbrev pub headline : List ℕ
headline =
    b' ' ∷ b'K' ∷ b'e' ∷ b'r' ∷ b'n' ∷ b'e' ∷ b'l' ∷ b' ' ∷ b'p' ∷ b'a' ∷ b'n' ∷ b'i' ∷ b'c' ∷ b'!'
    ∷ b' ' ∷ b' ' ∷ b' ' ∷ b' ' ∷ b' ' ∷ b' ' ∷ b' ' ∷ b' ' ∷ b' ' ∷ b' ' ∷ b' ' ∷ b' ' ∷ b' '
    ∷ b' ' ∷ b' ' ∷ 10 ∷ []

abbrev pub last_words : List ℕ
last_words =
    b' ' ∷ b'M' ∷ b'c' ∷ b'p' ∷ b'g' ∷ b'O' ∷ b'S' ∷ b' ' ∷ b'k' ∷ b'e' ∷ b'r' ∷ b'n' ∷ b'e' ∷ b'l'
    ∷ b' ' ∷ b'w' ∷ b'i' ∷ b'l' ∷ b'l' ∷ b' ' ∷ b'n' ∷ b'o' ∷ b'w' ∷ b' ' ∷ b'h' ∷ b'a' ∷ b'l'
    ∷ b't' ∷ b' ' ∷ 10 ∷ []

-- The texts before the reason, and those after it.
abbrev pub before_reason : List (List ℕ)
before_reason = blank_lines ∷ ruler ∷ headline ∷ ruler ∷ (b' ' ∷ []) ∷ []

abbrev pub after_reason : List (List ℕ)
after_reason = blank_lines ∷ last_words ∷ ruler ∷ []

module _ {S : Type 0} (stream : Option (IoStream S (List ℕ))) (tty : IoStream S (List ℕ)) where
  -- Calls of `Kprintf`, each with a text and nothing else.
  pub say : List (List ℕ) → Cmd S (Unit {0})
  say [] = pure tt
  say (l ∷ ls) = kprintf stream tty l [] >> say ls

  -- The reason is a format, like the other texts.
  pub k_panic : (reason : List ℕ) → S → Panicked S
  k_panic reason s =
      halted ((say before_reason >> (kprintf stream tty reason [] >> say after_reason)) s)

-- Texts, one behind the other.
abbrev pub joined : List ℕ → List (List ℕ) → List ℕ
joined out [] = out
joined out (l ∷ ls) = joined (out ++ l) ls

abbrev pub NoPercents : List (List ℕ) → Type 0
NoPercents ls = All NoPercent ls

-- What the screen shows of a panic.
abbrev pub obituary : List ℕ → List ℕ
obituary reason = joined (joined [] before_reason ++ reason) after_reason
