-- ===== src/Kprintf/Speaks.antt =====
-- A line with one string in it, as the parts of the kernel announce themselves: what the theorems
-- on them use of the stream behind `Kprintf`.
use mcpgos.Base.{ℕ, ◌≡◌, refl, ap, ◌∙◌, Option, none, some, List, [], ◌∷◌, ◌++◌}
use mcpgos.Base.Run.{ok}
use mcpgos.Base.Alike.{Alike-returns}
use mcpgos.Io.{IoStream}
use mcpgos.Kprintf.{text, kprintf}
use mcpgos.Kprintf.Format.{recorder, NoPercent, kprintf_string}
use mcpgos.Kprintf.Streams.{Writes, kprintf-Alike}

-- `Kprintf` returns and shows the line after all that was shown before.
pub record Speaks {S : Type 0} (Shown : List ℕ → S → Type 0) (stream : Option (IoStream S (List ℕ)))
    (tty : IoStream S (List ℕ)) : Type 0 where
  pub line :
      (lit after name out : List ℕ) (c : S)
      → NoPercent lit
      → NoPercent after
      → Shown out c
      → (d : S) × ((kprintf stream tty (lit ++ b'%' ∷ b's' ∷ after) (text (some name) ∷ []) c
            ≡ ok tt d)
          × Shown (((out ++ lit) ++ name) ++ after) d)

-- A stream that records holds what it has shown.
abbrev pub Recorded : List ℕ → List ℕ → Type 0
Recorded out c = c ≡ out

pub recorder-Speaks : (tty : IoStream (List ℕ) (List ℕ)) → Speaks Recorded (some recorder) tty
recorder-Speaks tty = record {
  line = λ lit after name out c n m h. (
    ((out ++ lit) ++ name) ++ after,
    (
      ap (kprintf (some recorder) tty (lit ++ b'%' ∷ b's' ∷ after) (text (some name) ∷ [])) h
          ∙ kprintf_string tty lit after name out n m,
      refl,
    ),
  );
}

-- Where no stream is set, `Kprintf` speaks on any stream whose writes return.
pub Writes-Speaks :
    {S : Type 0} (Shown : List ℕ → S → Type 0) (stream : IoStream S (List ℕ))
    → Writes Shown stream
    → Speaks Shown none stream
Writes-Speaks Shown stream w = record {
  line = λ lit after name out c n m h.
      Alike-returns tt (((out ++ lit) ++ name) ++ after)
        (kprintf-Alike Shown stream w recorder (lit ++ b'%' ∷ b's' ∷ after) (text (some name) ∷ [])
          out c h)
        (kprintf_string recorder lit after name out n m);
}
