-- ===== src/Base/Bits.antt =====
-- `|` of words that are made of bit fields.
use Prim.Native.Nat.{max, digits, bit_or-bitwise}
use native.Mathlib.Nat.{pow-suc, one-le-pow}
use mcpgos.Base.{ℕ, zero, suc, ◌+◌, ◌*◌, ◌/◌, ◌%◌, ◌^◌, ◌≤◌, ◌<◌, bit_or, ◌≡◌, refl, ap, ◌∙◌, arith}

-- Rounds past the last digit of the first word change nothing.
abbrev or_rounds : ℕ → ℕ → ℕ → ℕ
or_rounds rounds x y = digits (λ rest. rest) max rounds x y

or_rounds_past : (r t x y : ℕ) → x ≤ r → x ≤ t → or_rounds r x y ≡ or_rounds t x y
or_rounds_past zero zero x y h k = refl
or_rounds_past zero (suc t) zero y h k = refl
or_rounds_past zero (suc t) (suc x) y h k = absurd (omega arith)
or_rounds_past (suc r) zero zero y h k = refl
or_rounds_past (suc r) zero (suc x) y h k = absurd (omega arith)
or_rounds_past (suc r) (suc t) zero y h k = refl
or_rounds_past (suc r) (suc t) (suc x) y h k =
    let half = or_rounds_past r t (suc x / 2) (y / 2) (omega arith) (omega arith) in
    ap (λ n. n * 2 + max (suc x % 2) (y % 2)) half

-- The lowest digit, and the others.
last_digit : (x y : ℕ) → bit_or x y ≡ bit_or (x / 2) (y / 2) * 2 + max (x % 2) (y % 2)
last_digit zero y = simp bit_or-bitwise (omega arith)
last_digit (suc x) y = simp bit_or-bitwise (
    ap (λ n. n * 2 + max (suc x % 2) (y % 2))
      (or_rounds_past x (suc x / 2) (suc x / 2) (y / 2) (omega arith) (omega arith)))

pub bit_or-nought : (x : ℕ) → bit_or 0 x ≡ x
bit_or-nought x = simp bit_or-bitwise refl

or_rounds-zero : (r x : ℕ) → x ≤ r → or_rounds r x 0 ≡ x
or_rounds-zero zero x h = omega arith
or_rounds-zero (suc r) zero h = refl
or_rounds-zero (suc r) (suc x) h =
    let half : or_rounds r (suc x / 2) 0 ≡ suc x / 2 = or_rounds-zero r (suc x / 2) (omega arith) in
    let digit : max (suc x % 2) 0 ≡ suc x % 2 = omega arith in omega (arith, half, digit)

pub bit_or-zero : (x : ℕ) → bit_or x 0 ≡ x
bit_or-zero x = simp bit_or-bitwise (or_rounds-zero x x (omega arith))

pub bit_or_same : {x x' y y' : ℕ} → x ≡ x' → y ≡ y' → bit_or x y ≡ bit_or x' y'
bit_or_same {x'} {y} p q = ap (λ z. bit_or z y) p ∙ ap (λ z. bit_or x' z) q

double : (k x : ℕ) → 2 ^ suc k * x ≡ 2 * (2 ^ k * x)
double k x = omega (arith, ap (λ (t : ℕ). t * x) (pow-suc 2 k))

-- `|` works on the low `k` digits and on the others apart.
pub bit_or-split :
    (k a b x y : ℕ)
    → a < 2 ^ k
    → b < 2 ^ k
    → bit_or (a + 2 ^ k * x) (b + 2 ^ k * y) ≡ bit_or a b + 2 ^ k * bit_or x y
bit_or-split zero a b x y h l =
    let p : a + 2 ^ 0 * x ≡ x = omega arith in
    let q : b + 2 ^ 0 * y ≡ y = omega arith in
    let a0 : a ≡ 0 = omega arith in
    let b0 : b ≡ 0 = omega arith in
    bit_or_same p q ∙ omega (arith, bit_or_same a0 b0 ∙ bit_or-nought 0)
bit_or-split (suc k) a b x y h l =
    let dx = double k x in
    let dy = double k y in
    let p : (a + 2 ^ suc k * x) / 2 ≡ a / 2 + 2 ^ k * x = omega (arith, dx) in
    let q : (b + 2 ^ suc k * y) / 2 ≡ b / 2 + 2 ^ k * y = omega (arith, dy) in
    let u : (a + 2 ^ suc k * x) % 2 ≡ a % 2 = omega (arith, dx) in
    let v : (b + 2 ^ suc k * y) % 2 ≡ b % 2 = omega (arith, dy) in
    let half =
      bit_or-split k (a / 2) (b / 2) x y (omega (arith, pow-suc 2 k))
        (omega (arith, pow-suc 2 k)) in
    let digit : max ((a + 2 ^ suc k * x) % 2) ((b + 2 ^ suc k * y) % 2) ≡ max (a % 2) (b % 2) =
      ap (λ z. max z ((b + 2 ^ suc k * y) % 2)) u ∙ ap (λ z. max (a % 2) z) v in
    omega (
      arith,
      last_digit (a + 2 ^ suc k * x) (b + 2 ^ suc k * y),
      bit_or_same p q ∙ half,
      digit,
      last_digit a b,
      double k (bit_or x y),
    )

-- A field that is put where the word has nothing yet, below other fields.
pub bit_or_into :
    (j k low field high : ℕ)
    → low < 2 ^ j
    → field < 2 ^ k
    → bit_or (low + 2 ^ j * (2 ^ k * high)) (2 ^ j * field) ≡ low + 2 ^ j * (field + 2 ^ k * high)
bit_or_into j k low field high h l =
    let b : 2 ^ j * field ≡ 0 + 2 ^ j * field = omega arith in
    let x : 2 ^ k * high ≡ 0 + 2 ^ k * high = omega arith in
    let y : field ≡ field + 2 ^ k * 0 = omega arith in
    let inner : bit_or (2 ^ k * high) field ≡ field + 2 ^ k * high =
      bit_or_same x y
      ∙ bit_or-split k 0 field high 0 (one-le-pow k 2 (omega arith)) l
      ∙ ap (λ z. z + 2 ^ k * bit_or high 0) (bit_or-nought field)
      ∙ ap (λ z. field + 2 ^ k * z) (bit_or-zero high) in
    bit_or_same refl b
    ∙ bit_or-split j low 0 (2 ^ k * high) field h (one-le-pow j 2 (omega arith))
    ∙ ap (λ z. z + 2 ^ j * bit_or (2 ^ k * high) field) (bit_or-zero low)
    ∙ ap (λ z. low + 2 ^ j * z) inner

-- A field on top.
pub bit_or_above : (k a y : ℕ) → a < 2 ^ k → bit_or a (2 ^ k * y) ≡ a + 2 ^ k * y
bit_or_above k a y h =
    let p : a ≡ a + 2 ^ k * 0 = omega arith in
    let q : 2 ^ k * y ≡ 0 + 2 ^ k * y = omega arith in
    bit_or_same p q
    ∙ bit_or-split k a 0 0 y h (one-le-pow k 2 (omega arith))
    ∙ ap (λ z. z + 2 ^ k * bit_or 0 y) (bit_or-zero a)
    ∙ ap (λ z. a + 2 ^ k * z) (bit_or-nought y)
