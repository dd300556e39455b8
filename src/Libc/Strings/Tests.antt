-- ===== src/Libc/Strings/Tests.antt =====
-- Strings in memory.
use mcpgos.Base.{ℕ, ◌≡◌, refl, ◌≢◌, ◌⊎◌, List, [], ◌∷◌, arith, assign}
use mcpgos.Base.Run.{ok}
use mcpgos.Libc.Memory.{Bytes}
use mcpgos.Libc.Strings.{Sign, nought, strcmp, strcmp_lem}

-- "AB" at 10 and "AC" at 20.
abbrev two_strings : Bytes
two_strings = assign (assign (assign (assign (λ a. 0) 10 b'A') 11 b'B') 20 b'A') 21 b'C'

abbrev first : List ℕ
first = b'A' ∷ b'B' ∷ []

abbrev second : List ℕ
second = b'A' ∷ b'C' ∷ []

strcmp_lem_example :
    ((strcmp 9 10 20 two_strings ≡ ok nought two_strings) × (first ≡ second))
    ⊎ ((r : Sign) × ((strcmp 9 10 20 two_strings ≡ ok r two_strings)
          × (r ≢ nought)
          × (first ≢ second)))
strcmp_lem_example =
    strcmp_lem 9 10 20 two_strings first second (omega arith)
      (omega arith, refl, (omega arith, refl, refl)) (omega arith, refl, (omega arith, refl, refl))
