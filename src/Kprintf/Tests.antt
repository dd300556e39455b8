-- ===== src/Kprintf/Tests.antt =====
-- `Kprintf` at concrete formats.
use mcpgos.Base.{ℕ, ◌≡◌, refl, ◌≢◌, ◌⊎◌, none, some, List, [], ◌∷◌, ◌++◌, arith, length}
use mcpgos.Base.Run.{Run, ok, panic, assertion_failed}
use mcpgos.Kprintf.{Arg, number, text, decimal, hex, decimal_loop, kprintf, print, convert}
use mcpgos.Kprintf.Digits.{value, AreDigits, digits_read_back}
use mcpgos.Kprintf.Format.{recorder, kprintf_lem}
use mcpgos.Io.{insert_stream_callbacks, io_write, io_write_byte}

digits_read_back_example :
    (length (decimal 2026) ≡ 10)
    × AreDigits 10 (decimal 2026)
    × (value 10 0 (decimal 2026) ≡ 2026)
    × (length (hex 2026) ≡ 8)
    × AreDigits 16 (hex 2026)
    × (value 16 0 (hex 2026) ≡ 2026)
digits_read_back_example = digits_read_back 2026 (omega arith)

abbrev call : List ℕ → List Arg → List ℕ → Run (List ℕ) (Unit {0})
call m a o = kprintf (some recorder) recorder m a o

abbrev lit : List ℕ
lit = b'n' ∷ b'=' ∷ []

kprintf_lem_example :
    ((n c : ℕ)
      → (c ≡ b'd') ⊎ (c ≡ b'i')
      → call (lit ++ b'%' ∷ c ∷ lit) (number n ∷ []) lit ≡ call lit [] ((lit ++ lit) ++ decimal n))
    × ((n : ℕ)
        → call (lit ++ b'%' ∷ b'x' ∷ lit) (number n ∷ []) lit ≡ call lit [] ((lit ++ lit) ++ hex n))
    × ((s : List ℕ)
        → call (lit ++ b'%' ∷ b's' ∷ lit) (text (some s) ∷ []) lit
          ≡ call lit [] ((lit ++ lit) ++ s))
    × (call (lit ++ b'%' ∷ b's' ∷ lit) (text none ∷ []) lit ≡ panic assertion_failed)
    × ((c : ℕ)
        → (c ≢ b'd') × (c ≢ b'i') × (c ≢ b'x') × (c ≢ b's')
        → call (lit ++ b'%' ∷ c ∷ lit) [] lit ≡ call lit [] ((lit ++ lit) ++ b'%' ∷ c ∷ []))
    × (call (lit ++ b'%' ∷ []) [] lit ≡ ok tt ((lit ++ lit) ++ b'%' ∷ []))
    × (call lit [] lit ≡ ok tt (lit ++ lit))
kprintf_lem_example = kprintf_lem recorder lit lit [] lit (omega arith)

kprintf_runs :
    call (b'%' ∷ b'd' ∷ b'|' ∷ b'%' ∷ b'q' ∷ []) (number 70 ∷ []) []
    ≡ ok tt (
        b'0' ∷ b'0' ∷ b'0' ∷ b'0' ∷ b'0' ∷ b'0' ∷ b'0' ∷ b'0' ∷ b'7' ∷ b'0' ∷ b'|' ∷ b'%' ∷ b'q'
        ∷ [])
unfolding kprintf print convert decimal decimal_loop io_write io_write_byte insert_stream_callbacks
kprintf_runs = refl
