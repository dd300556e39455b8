-- ===== src/Kprintf/Digits.antt =====
-- What the digits that `Kprintf` writes stand for.
use mcpgos.Base.{
  ℕ, zero, suc, ◌+◌, ◌-◌, ◌*◌, ◌/◌, ◌%◌, ◌^◌, ◌≤◌, ◌<◌, ◌≡◌, ap, ◌∙◌, List, [], ◌∷◌, arith, ltb,
  if◌then◌else◌, length, All,
}
use native.Mathlib.Nat.{pow-suc}
use mcpgos.Kprintf.{digit, decimal_loop, hex_loop, decimal, hex}

-- The value of a digit, and of a number written in a base, the first digit the highest.
abbrev pub digit_value : ℕ → ℕ
digit_value c = if ltb c b'A' then c - b'0' else c - b'A' + 10

pub value : ℕ → ℕ → List ℕ → ℕ
value base acc [] = acc
value base acc (c ∷ cs) = value base (acc * base + digit_value c) cs

-- Digits of a base up to 16.
abbrev pub AreDigits : ℕ → List ℕ → Type 0
AreDigits base cs = All (λ c. (digit_value c < base) × (digit (digit_value c) ≡ c)) cs

digit_value-digit : (d : ℕ) → d < 16 → digit_value (digit d) ≡ d
digit_value-digit d h = ground arith

digit-AreDigits :
    (base d : ℕ)
    → d < base
    → base ≤ 16
    → (digit_value (digit d) < base) × (digit (digit_value (digit d)) ≡ digit d)
digit-AreDigits base d h k = let e = digit_value-digit d (omega arith) in (rw e h, ap digit e)

value-decimal_loop :
    (k n : ℕ) (acc : List ℕ) → n < 10 ^ k → value 10 0 (decimal_loop k n acc) ≡ value 10 n acc
unfolding decimal_loop
value-decimal_loop zero n acc h = let z : n ≡ 0 = omega arith in rw z
value-decimal_loop (suc k) n acc h =
    let back : n / 10 * 10 + digit_value (digit (n % 10)) ≡ n =
      omega (arith, digit_value-digit (n % 10)) in
    value-decimal_loop k (n / 10) (digit (n % 10) ∷ acc) (omega (arith, pow-suc 10 k))
    ∙ unfold value in ap (λ m. value 10 m acc) back

decimal_loop-AreDigits :
    (k n : ℕ) (acc : List ℕ) → AreDigits 10 acc → AreDigits 10 (decimal_loop k n acc)
unfolding decimal_loop
decimal_loop-AreDigits zero n acc h = h
decimal_loop-AreDigits (suc k) n acc h =
    let (a, b) = digit-AreDigits 10 (n % 10) (omega arith) (omega arith) in
    decimal_loop-AreDigits k (n / 10) (digit (n % 10) ∷ acc) ((a, b), h)

length-decimal_loop : (k n : ℕ) (acc : List ℕ) → length (decimal_loop k n acc) ≡ k + length acc
unfolding decimal_loop
length-decimal_loop zero n acc = omega arith
length-decimal_loop (suc k) n acc =
    omega (arith, length-decimal_loop k (n / 10) (digit (n % 10) ∷ acc))

pub length-decimal : (n : ℕ) → length (decimal n) ≡ 10
unfolding decimal
length-decimal n = length-decimal_loop 10 n []

value-hex_loop :
    (k n : ℕ) (acc : List ℕ) → n < 16 ^ k → value 16 0 (hex_loop k n acc) ≡ value 16 n acc
unfolding hex_loop
value-hex_loop zero n acc h = let z : n ≡ 0 = omega arith in rw z
value-hex_loop (suc k) n acc h =
    let back : n / 16 * 16 + digit_value (digit (n % 16)) ≡ n =
      omega (arith, digit_value-digit (n % 16)) in
    value-hex_loop k (n / 16) (digit (n % 16) ∷ acc) (omega (arith, pow-suc 16 k))
    ∙ unfold value in ap (λ m. value 16 m acc) back

hex_loop-AreDigits : (k n : ℕ) (acc : List ℕ) → AreDigits 16 acc → AreDigits 16 (hex_loop k n acc)
unfolding hex_loop
hex_loop-AreDigits zero n acc h = h
hex_loop-AreDigits (suc k) n acc h =
    let (a, b) = digit-AreDigits 16 (n % 16) (omega arith) (omega arith) in
    hex_loop-AreDigits k (n / 16) (digit (n % 16) ∷ acc) ((a, b), h)

length-hex_loop : (k n : ℕ) (acc : List ℕ) → length (hex_loop k n acc) ≡ k + length acc
unfolding hex_loop
length-hex_loop zero n acc = omega arith
length-hex_loop (suc k) n acc = omega (arith, length-hex_loop k (n / 16) (digit (n % 16) ∷ acc))

pub length-hex : (n : ℕ) → length (hex n) ≡ 8
unfolding hex
length-hex n = length-hex_loop 8 n []

-- For every 32-bit number `%d` writes ten decimal digits and `%x` eight hexadecimal ones, in upper
-- case, and read in its base each text is the number.
pub digits_read_back :
    (n : ℕ)
    → n < 2 ^ 32
    → (length (decimal n) ≡ 10)
      × AreDigits 10 (decimal n)
      × (value 10 0 (decimal n) ≡ n)
      × (length (hex n) ≡ 8)
      × AreDigits 16 (hex n)
      × (value 16 0 (hex n) ≡ n)
unfolding decimal hex value
digits_read_back n h = (
  length-decimal_loop 10 n [],
  decimal_loop-AreDigits 10 n [] tt,
  value-decimal_loop 10 n [] (omega arith),
  length-hex_loop 8 n [],
  hex_loop-AreDigits 8 n [] tt,
  value-hex_loop 8 n [] (omega arith),
)
