-- ===== src/Kprintf/Streams.antt =====
-- `Kprintf` on a stream of which all that is known is what a write does to it.
use mcpgos.Base.{ℕ, ◌≡◌, refl, ◌⊎◌, ◌||◌, none, some, List, [], ◌∷◌, ◌++◌, arith, ◌==◌, length}
use mcpgos.Base.Run.{Cmd, ok, panic, fault, pure, ◌>>◌, assertion_failed}
use mcpgos.Base.Alike.{
  Alike, both_return, both_panic, both_fault, Alike-bind, Alike-if, Alike-test, Alike-returns,
  Alike-faults,
}
use mcpgos.Io.{IoStream, io_write, io_write_byte}
use mcpgos.Kprintf.{Arg, number, text, decimal, hex, convert, print, kprintf}
use mcpgos.Kprintf.Digits.{length-decimal, length-hex}
use mcpgos.Kprintf.Format.{recorder, NoPercent, kprintf_lem, kprintf_no_argument}

-- Every write of a whole buffer returns its size, and keeps to what has been written.
pub record Writes {S : Type 0} (Shown : List ℕ → S → Type 0) (stream : IoStream S (List ℕ))
    : Type 0 where
  pub write :
      (buf : List ℕ) (n : ℕ) (out : List ℕ) (s : S)
      → length buf ≡ n
      → Shown out s
      → Alike Shown (io_write recorder buf n out) (io_write stream buf n s)

module _ {S : Type 0} (Shown : List ℕ → S → Type 0) (stream : IoStream S (List ℕ))
    (w : Writes Shown stream) where
  write_byte-Alike :
      (c : ℕ) (out : List ℕ) (s : S)
      → Shown out s
      → Alike Shown (io_write_byte recorder c out) (io_write_byte stream c s)
  unfolding io_write_byte
  write_byte-Alike c out s h = w.write (c ∷ []) 1 out s (omega arith) h

  -- A conversion that writes a buffer.
  written :
      (buf : List ℕ) (n : ℕ) (rest : List Arg) (out : List ℕ) (s : S)
      → length buf ≡ n
      → Shown out s
      → Alike Shown
          ((io_write recorder buf n >> pure rest) out)
          ((io_write stream buf n >> pure rest) s)
  written buf n rest out s e h =
      Alike-bind (w.write buf n out s e h) (λ a o t g. both_return rest g)

  convert_number-Alike :
      (args : List Arg) (out : List ℕ) (s : S) (digits : ℕ → List ℕ) (k : ℕ)
      → ((n : ℕ) → length (digits n) ≡ k)
      → Shown out s
      → Alike Shown
          ((elim args as (λ _. Cmd (List ℕ) (List Arg)) [
            | [] ↦ λ _. fault
            | a ∷ rest ↦ elim a [
              | number n ↦ io_write recorder (digits n) k >> pure rest
              | text t ↦ λ _. fault
            ]
          ])
            out)
          ((elim args as (λ _. Cmd S (List Arg)) [
            | [] ↦ λ _. fault
            | a ∷ rest ↦ elim a [
              | number n ↦ io_write stream (digits n) k >> pure rest
              | text t ↦ λ _. fault
            ]
          ])
            s)
  convert_number-Alike [] out s digits k l h = both_fault
  convert_number-Alike (number n ∷ rest) out s digits k l h =
      written (digits n) k rest out s (l n) h
  convert_number-Alike (text t ∷ rest) out s digits k l h = both_fault

  convert_string-Alike :
      (args : List Arg) (out : List ℕ) (s : S)
      → Shown out s
      → Alike Shown
          ((elim args as (λ _. Cmd (List ℕ) (List Arg)) [
            | [] ↦ λ _. fault
            | a ∷ rest ↦ elim a [
              | number n ↦ λ _. fault
              | text t ↦ elim t [
                | none ↦ λ _. panic assertion_failed
                | some bytes ↦ io_write recorder bytes (length bytes) >> pure rest
              ]
            ]
          ])
            out)
          ((elim args as (λ _. Cmd S (List Arg)) [
            | [] ↦ λ _. fault
            | a ∷ rest ↦ elim a [
              | number n ↦ λ _. fault
              | text t ↦ elim t [
                | none ↦ λ _. panic assertion_failed
                | some bytes ↦ io_write stream bytes (length bytes) >> pure rest
              ]
            ]
          ])
            s)
  convert_string-Alike [] out s h = both_fault
  convert_string-Alike (number n ∷ rest) out s h = both_fault
  convert_string-Alike (text none ∷ rest) out s h = both_panic assertion_failed
  convert_string-Alike (text (some bytes) ∷ rest) out s h =
      written bytes (length bytes) rest out s refl h

  convert-Alike :
      (c : ℕ) (args : List Arg) (out : List ℕ) (s : S)
      → Shown out s
      → Alike Shown (convert recorder c args out) (convert stream c args s)
  unfolding convert
  convert-Alike c args out s h =
      Alike-test ((c == b'd') || (c == b'i')) _ _ _ _ out s
        (convert_number-Alike args out s decimal 10 length-decimal h)
        (Alike-test (c == b'x') _ _ _ _ out s (convert_number-Alike args out s hex 8 length-hex h) (
          Alike-test (c == b's') _ _ _ _ out s (convert_string-Alike args out s h) (
            Alike-bind (write_byte-Alike b'%' out s h)
              (λ a o t g. Alike-bind (write_byte-Alike c o t g) (λ b p u f. both_return args f)))))

  print-Alike :
      (msg : List ℕ) (args : List Arg) (out : List ℕ) (s : S)
      → Shown out s
      → Alike Shown (print recorder msg args out) (print stream msg args s)
  unfolding print
  print-Alike [] args out s h = both_return tt h
  print-Alike (c ∷ []) args out s h =
      Alike-bind (write_byte-Alike c out s h) (λ a o t g. both_return tt g)
  print-Alike (c ∷ d ∷ msg) args out s h =
      Alike-if (c == b'%') _ _ _ _ out s
        (Alike-bind (convert-Alike d args out s h) (λ rest o t g. print-Alike msg rest o t g))
        (Alike-bind (write_byte-Alike c out s h) (λ a o t g. print-Alike (d ∷ msg) args o t g))

  pub kprintf-Alike :
      (tty : IoStream (List ℕ) (List ℕ)) (msg : List ℕ) (args : List Arg) (out : List ℕ) (s : S)
      → Shown out s
      → Alike Shown (kprintf (some recorder) tty msg args out) (kprintf none stream msg args s)
  unfolding kprintf
  kprintf-Alike tty msg args out s h = print-Alike msg args out s h

  -- A text with no conversion in it.
  pub kprintf_text :
      (lit out : List ℕ) (s : S)
      → NoPercent lit
      → Shown out s
      → (t : S) × ((kprintf none stream lit [] s ≡ ok tt t) × Shown (out ++ lit) t)
  kprintf_text lit out s n h =
      let (_, _, _, _, _, _, all) = kprintf_lem recorder lit [] [] out n in
      Alike-returns tt (out ++ lit) (kprintf-Alike recorder lit [] out s h) all

  -- A conversion whose argument is missing.
  pub kprintf_missing :
      (lit msg out : List ℕ) (c : ℕ) (s : S)
      → NoPercent lit
      → (c ≡ b'd') ⊎ (c ≡ b'i') ⊎ (c ≡ b'x') ⊎ (c ≡ b's')
      → Shown out s
      → kprintf none stream (lit ++ b'%' ∷ c ∷ msg) [] s ≡ fault
  kprintf_missing lit msg out c s n o h =
      Alike-faults (kprintf-Alike recorder (lit ++ b'%' ∷ c ∷ msg) [] out s h)
        (kprintf_no_argument recorder lit msg out c n o)
