-- ===== src/Kprintf.antt =====
-- `Kprintf` of kernel/src/Kprintf.c. A string is the list of its bytes, the NUL at the end left out.
pub mod Digits
pub mod Format
pub mod Streams
pub mod Speaks
mod Tests
use mcpgos.Base.{
  ℕ, zero, suc, ◌+◌, ◌-◌, ◌/◌, ◌%◌, true, false, ◌||◌, Option, none, some, List, [], ◌∷◌, ltb, ◌==◌,
  if◌then◌else◌, length,
}
use mcpgos.Base.Words.{shr, low_bits}
use mcpgos.Base.Run.{Cmd, panic, fault, pure, ◌>>=◌, ◌>>◌, assertion_failed}
use mcpgos.Io.{IoStream, io_write, io_write_byte}

-- What stands in the variable part of a call: a `uint32_t`, or a `char*` that may be NULL.
pub data Arg : Type 0 where
  number : ℕ → Arg
  text : Option (List ℕ) → Arg

-- `digits[d]`.
abbrev pub digit : ℕ → ℕ
digit d = if ltb d 10 then b'0' + d else b'A' + (d - 10)

-- The loops that fill `numberBuffer` from its end, with `k` rounds left and `acc` the digits that
-- are there already.
pub decimal_loop : ℕ → ℕ → List ℕ → List ℕ
decimal_loop zero n acc = acc
decimal_loop (suc k) n acc = decimal_loop k (n / 10) (digit (n % 10) ∷ acc)

pub hex_loop : ℕ → ℕ → List ℕ → List ℕ
hex_loop zero n acc = acc
hex_loop (suc k) n acc = hex_loop k (shr n 4) (digit (low_bits n 4) ∷ acc)

pub decimal : ℕ → List ℕ
decimal n = decimal_loop 10 n []

pub hex : ℕ → List ℕ
hex n = hex_loop 8 n []

module _ {S : Type 0} (stream : IoStream S (List ℕ)) where
  -- The `switch` on the character behind a percent sign; it returns the arguments that are left. An
  -- argument that is not there, or of the other kind, is a fault.
  pub convert : ℕ → List Arg → Cmd S (List Arg)
  convert c args =
      if (c == b'd') || (c == b'i')
      then elim args [
        | [] ↦ λ _. fault
        | a ∷ rest ↦ elim a [
          | number n ↦ io_write stream (decimal n) 10 >> pure rest
          | text t ↦ λ _. fault
        ]
      ]
      else if c == b'x'
      then elim args [
        | [] ↦ λ _. fault
        | a ∷ rest ↦ elim a [
          | number n ↦ io_write stream (hex n) 8 >> pure rest
          | text t ↦ λ _. fault
        ]
      ]
      else if c == b's'
      then elim args [
        | [] ↦ λ _. fault
        | a ∷ rest ↦ elim a [
          | number n ↦ λ _. fault
          | text t ↦ elim t [
            | none ↦ λ _. panic assertion_failed
            | some bytes ↦ io_write stream bytes (length bytes) >> pure rest
          ]
        ]
      ]
      else (io_write_byte stream b'%' >> (io_write_byte stream c >> pure args))

  pub print : List ℕ → List Arg → Cmd S (Unit {0})
  print [] args = pure tt
  print (c ∷ []) args = io_write_byte stream c >> pure tt
  print (c ∷ d ∷ msg) args = elim (c == b'%') [
    | true ↦ convert d args >>= λ rest. print msg rest
    | false ↦ io_write_byte stream c >> print (d ∷ msg) args
  ]

-- `KprintfStream` is NULL at first, and then the terminal's stream takes its place.
abbrev pub stream_or :
    {S : Type 0} → Option (IoStream S (List ℕ)) → IoStream S (List ℕ) → IoStream S (List ℕ)
stream_or none tty = tty
stream_or (some stream) tty = stream

pub kprintf :
    {S : Type 0}
    → Option (IoStream S (List ℕ))
    → IoStream S (List ℕ)
    → List ℕ
    → List Arg
    → Cmd S (Unit {0})
kprintf stream tty msg args = print (stream_or stream tty) msg args
