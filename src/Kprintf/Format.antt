-- ===== src/Kprintf/Format.antt =====
-- What `Kprintf` writes, on a stream that keeps what it is given.
use mathlib.Core.List.{append_assoc, append-nil}
use mcpgos.Base.{
  ℕ, ◌≡◌, refl, sym, ap, ◌∙◌, ◌≢◌, ◌⊎◌, none, some, List, [], ◌∷◌, ◌++◌, arith, length, All, ◌==◌,
  eq→==, if◌then◌else◌,
}
use mcpgos.Base.Run.{fault, ok, panic, assertion_failed}
use mcpgos.Io.{IoStream, insert_stream_callbacks, io_write, io_write_byte}
use mcpgos.Kprintf.Digits.{length-decimal, length-hex}
use mcpgos.Kprintf.{Arg, number, text, decimal, hex, convert, print, kprintf}

-- Every write of a whole buffer appends it to what has been written; a write of any other size is a
-- fault.
abbrev pub recorder : IoStream (List ℕ) (List ℕ)
unfolding insert_stream_callbacks
recorder =
    insert_stream_callbacks
      (some (λ buf size out. if length buf == size then ok size (out ++ buf) else fault)) none none
      none none none none

abbrev pub NoPercent : List ℕ → Type 0
NoPercent msg = All (λ c. c ≢ b'%') msg

write_byte-recorder : (c : ℕ) (out : List ℕ) → io_write_byte recorder c out ≡ ok 1 (out ++ c ∷ [])
unfolding io_write_byte recorder
write_byte-recorder c out = refl

pub write-recorder :
    (buf : List ℕ) (n : ℕ) (out : List ℕ)
    → length buf ≡ n
    → io_write recorder buf n out ≡ ok n (out ++ buf)
unfolding io_write recorder
write-recorder buf n out e = rw (eq→== (length buf) n e) refl

print_plain :
    (c : ℕ) (msg : List ℕ) (args : List Arg) (out : List ℕ)
    → c ≢ b'%'
    → print recorder (c ∷ msg) args out ≡ print recorder msg args (out ++ c ∷ [])
unfolding print
print_plain c [] args out n = rw write_byte-recorder
print_plain c (d ∷ msg) args out n = ground (arith, write_byte-recorder c out)

print_text :
    (lit msg : List ℕ) (args : List Arg) (out : List ℕ)
    → NoPercent lit
    → print recorder (lit ++ msg) args out ≡ print recorder msg args (out ++ lit)
print_text [] msg args out n = rw append-nil
print_text (c ∷ lit) msg args out n =
    print_plain c (lit ++ msg) args out n.0
    ∙ print_text lit msg args (out ++ c ∷ []) n.1
    ∙ ap (λ o. print recorder msg args o) (append_assoc out (c ∷ []) lit)

print-convert :
    (c : ℕ) (msg : List ℕ) (args rest : List Arg) (out written : List ℕ)
    → convert recorder c args out ≡ ok rest (out ++ written)
    → print recorder (b'%' ∷ c ∷ msg) args out ≡ print recorder msg rest (out ++ written)
unfolding print
print-convert c msg args rest out written e = rw e

print_last :
    (args : List Arg) (out : List ℕ)
    → print recorder (b'%' ∷ []) args out ≡ ok tt (out ++ b'%' ∷ [])
unfolding print
print_last args out = rw write_byte-recorder

module _ (args : List Arg) (out : List ℕ) where
  convert-number :
      (n c : ℕ)
      → (c ≡ b'd') ⊎ (c ≡ b'i')
      → convert recorder c (number n ∷ args) out ≡ ok args (out ++ decimal n)
  unfolding convert
  convert-number n c h = ground (arith, write-recorder (decimal n) 10 out (length-decimal n))

  convert-hex : (n : ℕ) → convert recorder b'x' (number n ∷ args) out ≡ ok args (out ++ hex n)
  unfolding convert
  convert-hex n = ground (arith, write-recorder (hex n) 8 out (length-hex n))

  convert_string :
      (s : List ℕ) → convert recorder b's' (text (some s) ∷ args) out ≡ ok args (out ++ s)
  unfolding convert
  convert_string s = ground (arith, write-recorder s (length s) out refl)

  convert_null : convert recorder b's' (text none ∷ args) out ≡ panic assertion_failed
  unfolding convert
  convert_null = refl

  convert_other :
      (c : ℕ)
      → (c ≢ b'd') × (c ≢ b'i') × (c ≢ b'x') × (c ≢ b's')
      → convert recorder c args out ≡ ok args (out ++ b'%' ∷ c ∷ [])
  unfolding convert
  convert_other c h = ground (
    arith,
    write_byte-recorder b'%' out,
    write_byte-recorder c (out ++ b'%' ∷ []),
    append_assoc out (b'%' ∷ []) (c ∷ []),
  )

print_null :
    (msg : List ℕ) (args : List Arg) (out : List ℕ)
    → print recorder (b'%' ∷ b's' ∷ msg) (text none ∷ args) out ≡ panic assertion_failed
unfolding print
print_null msg args out = rw (convert_null args out)

print_all :
    (lit : List ℕ) (args : List Arg) (out : List ℕ)
    → NoPercent lit
    → print recorder lit args out ≡ ok tt (out ++ lit)
unfolding print
print_all lit args out n =
    ap (λ m. print recorder m args out) (sym (append-nil lit)) ∙ print_text lit [] args out n

convert_missing :
    (c : ℕ) (out : List ℕ)
    → (c ≡ b'd') ⊎ (c ≡ b'i') ⊎ (c ≡ b'x') ⊎ (c ≡ b's')
    → convert recorder c [] out ≡ fault
unfolding convert
convert_missing c out o = ground arith

print_missing :
    (msg out : List ℕ) (c : ℕ)
    → (c ≡ b'd') ⊎ (c ≡ b'i') ⊎ (c ≡ b'x') ⊎ (c ≡ b's')
    → print recorder (b'%' ∷ c ∷ msg) [] out ≡ fault
unfolding print
print_missing msg out c o = rw (convert_missing c out o)

-- A conversion with no argument left, after plain text.
pub kprintf_no_argument :
    (tty : IoStream (List ℕ) (List ℕ)) (lit msg out : List ℕ) (c : ℕ)
    → NoPercent lit
    → (c ≡ b'd') ⊎ (c ≡ b'i') ⊎ (c ≡ b'x') ⊎ (c ≡ b's')
    → kprintf (some recorder) tty (lit ++ b'%' ∷ c ∷ msg) [] out ≡ fault
unfolding kprintf
kprintf_no_argument tty lit msg out c n o =
    print_text lit _ _ out n ∙ print_missing msg (out ++ lit) c o

-- `Kprintf` on a stream that records what is written with the size of the buffer, and faults at any
-- other size, given `lit`, text with no percent sign, and then a
-- conversion: it writes `lit`, then the number in decimal for `%d` and `%i`, in hexadecimal for
-- `%x`, the string for `%s` and any other pair of characters as it stands, and goes on behind it
-- with the arguments that are left. At a NULL string it panics; a lone percent sign at the end is
-- written.
pub kprintf_lem :
    (tty : IoStream (List ℕ) (List ℕ)) (lit msg : List ℕ) (args : List Arg) (out : List ℕ)
    → NoPercent lit
    → let call = λ (m : List ℕ) (a : List Arg) (o : List ℕ). kprintf (some recorder) tty m a o in
      ((n c : ℕ)
        → (c ≡ b'd') ⊎ (c ≡ b'i')
        → call (lit ++ b'%' ∷ c ∷ msg) (number n ∷ args) out
          ≡ call msg args ((out ++ lit) ++ decimal n))
      × ((n : ℕ)
          → call (lit ++ b'%' ∷ b'x' ∷ msg) (number n ∷ args) out
            ≡ call msg args ((out ++ lit) ++ hex n))
      × ((s : List ℕ)
          → call (lit ++ b'%' ∷ b's' ∷ msg) (text (some s) ∷ args) out
            ≡ call msg args ((out ++ lit) ++ s))
      × (call (lit ++ b'%' ∷ b's' ∷ msg) (text none ∷ args) out ≡ panic assertion_failed)
      × ((c : ℕ)
          → (c ≢ b'd') × (c ≢ b'i') × (c ≢ b'x') × (c ≢ b's')
          → call (lit ++ b'%' ∷ c ∷ msg) args out ≡ call msg args ((out ++ lit) ++ b'%' ∷ c ∷ []))
      × (call (lit ++ b'%' ∷ []) args out ≡ ok tt ((out ++ lit) ++ b'%' ∷ []))
      × (call lit args out ≡ ok tt (out ++ lit))
unfolding kprintf
kprintf_lem tty lit msg args out n =
    let o : List ℕ = out ++ lit in
    (
      λ k c h.
          print_text lit _ _ out n
          ∙ print-convert c msg _ args o (decimal k) (convert-number args o k c h),
      λ k.
          print_text lit _ _ out n ∙ print-convert b'x' msg _ args o (hex k) (convert-hex args o k),
      λ s. print_text lit _ _ out n ∙ print-convert b's' msg _ args o s (convert_string args o s),
      print_text lit _ _ out n ∙ print_null msg args o,
      λ c h.
          print_text lit _ _ out n
          ∙ print-convert c msg args args o (b'%' ∷ c ∷ []) (convert_other args o c h),
      print_text lit _ _ out n ∙ print_last args o,
      print_all lit args out n,
    )

-- Text around one string, as in a line that announces a name.
pub kprintf_string :
    (tty : IoStream (List ℕ) (List ℕ)) (lit after name out : List ℕ)
    → NoPercent lit
    → NoPercent after
    → kprintf (some recorder) tty (lit ++ b'%' ∷ b's' ∷ after) (text (some name) ∷ []) out
      ≡ ok tt (((out ++ lit) ++ name) ++ after)
kprintf_string tty lit after name out n m =
    let (_, _, string, _, _, _, _) = kprintf_lem tty lit after [] out n in
    let (_, _, _, _, _, _, all) = kprintf_lem tty after [] [] ((out ++ lit) ++ name) m in
    string name ∙ all
