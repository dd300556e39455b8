-- ===== src/Drivers/Manager.antt =====
-- The driver manager, kernel/src/Drivers/DriverManager.c. A definition is known by its address.
mod Tests
use mcpgos.Base.{
  ℕ, zero, suc, ◌+◌, ◌-◌, ◌%◌, ◌≤◌, ◌<◌, ◌≡◌, refl, ◌≢◌, true, false, not, Option, none, some, List,
  [], ◌∷◌, ◌++◌, arith, ltb, ◌==◌, assign,
}
use mcpgos.Base.Words.{u32}
use mcpgos.Io.{IoStream}
use mcpgos.Kprintf.{text, kprintf}
use mcpgos.Kprintf.Format.{recorder, kprintf_lem}
use mcpgos.Kprintf.Speaks.{Speaks, Recorded, recorder-Speaks}
use mcpgos.Base.Run.{
  placed, Cmd, ok, panic, pure, ◌>>=◌, ◌>>◌, assert, in_bounds, modify, assertion_failed,
}

abbrev pub max_registered_drivers : ℕ
max_registered_drivers = 32

abbrev pub said_before : List ℕ
said_before =
    b'[' ∷ b'D' ∷ b'r' ∷ b'i' ∷ b'v' ∷ b'e' ∷ b'r' ∷ b'M' ∷ b'a' ∷ b'n' ∷ b'a' ∷ b'g' ∷ b'e' ∷ b'r'
    ∷ b']' ∷ b' ' ∷ b'R' ∷ b'e' ∷ b'g' ∷ b'i' ∷ b's' ∷ b't' ∷ b'e' ∷ b'r' ∷ b'e' ∷ b'd' ∷ b' '
    ∷ b'd' ∷ b'r' ∷ b'i' ∷ b'v' ∷ b'e' ∷ b'r' ∷ b' ' ∷ b'`' ∷ []

abbrev pub said_after : List ℕ
said_after = b'`' ∷ b'.' ∷ 10 ∷ []

pub record Dm (S : Type 0) : Type 0 where
  pub driver_count : ℕ
  pub driver_list : ℕ → ℕ
  -- What the streams that `Kprintf` may write to work on.
  pub console : S

unfoldable pub dm_init : {S : Type 0} → Cmd (Dm S) (Unit {0})
dm_init = modify λ s. record s { driver_count = 0 }

-- `def->DriverID` is a NULL pointer or a string; `stream` and `tty` are the streams of `Kprintf`.
module _ {S : Type 0} (stream : Option (IoStream S (List ℕ))) (tty : IoStream S (List ℕ))
    (driver_id : ℕ → Option (List ℕ)) where
  unfoldable pub announce : ℕ → Cmd (Dm S) (Unit {0})
  announce def s =
      placed (λ c. record s { console = c })
        (kprintf stream tty (said_before ++ b'%' ∷ b's' ∷ said_after) (text (driver_id def) ∷ [])
          s.console)

  unfoldable pub register_driver : ℕ → Cmd (Dm S) ℕ
  register_driver def = do
    assert (not (def == 0))
    n ← λ s. ok s.driver_count s
    elim (n == max_registered_drivers) [
      | true ↦ pure 0
      | false ↦ do
        in_bounds (ltb n max_registered_drivers)
        modify
            λ s. record s { driver_count = u32 (n + 1); driver_list = assign s.driver_list n def }
        announce def
        pure 1
    ]

-- The registered drivers, oldest first: `n` of them, the first at index `i`.
abbrev pub drivers_from : (ℕ → ℕ) → ℕ → ℕ → List ℕ
drivers_from list i zero = []
drivers_from list i (suc n) = list i ∷ drivers_from list (i + 1) n

abbrev pub drivers : {S : Type 0} → Dm S → List ℕ
drivers s = drivers_from s.driver_list 0 s.driver_count

drivers_from-assign :
    (list : ℕ → ℕ) (i n k def : ℕ)
    → k ≡ i + n
    → drivers_from (assign list k def) i (suc n) ≡ drivers_from list i n ++ def ∷ []
drivers_from-assign list i zero k def e = ground arith
drivers_from-assign list i (suc n) k def e =
    ground (arith, drivers_from-assign list (i + 1) n k def)

-- What is printed for a name.
abbrev pub said_driver : List ℕ → List ℕ → List ℕ
said_driver out name = ((out ++ said_before) ++ name) ++ said_after

-- `DmRegisterDriver` with room, on any stream that speaks.
pub register_driver-Speaks :
    {S : Type 0} (Shown : List ℕ → S → Type 0) (stream : Option (IoStream S (List ℕ)))
    (tty : IoStream S (List ℕ))
    → Speaks Shown stream tty
    → (driver_id : ℕ → Option (List ℕ)) (s : Dm S) (def : ℕ) (name out : List ℕ) → def ≢ 0
    → s.driver_count < max_registered_drivers
    → driver_id def ≡ some name
    → Shown out s.console
    → (d : S) × ((register_driver stream tty driver_id def s
          ≡ ok 1 (record {
            driver_count = suc s.driver_count;
            driver_list = assign s.driver_list s.driver_count def;
            console = d;
          }))
        × Shown (said_driver out name) d)
unfolding register_driver announce
register_driver-Speaks Shown stream tty speaks driver_id s def name out n l d h =
    let (c, (e, shown)) =
      speaks.line said_before said_after name out s.console (omega arith) (omega arith) h in
    let count : u32 (s.driver_count + 1) ≡ suc s.driver_count = omega arith in
    (c, (ground (arith, e, count, d), shown))

announce_null :
    (tty : IoStream (List ℕ) (List ℕ)) (out : List ℕ)
    → kprintf (some recorder) tty (said_before ++ b'%' ∷ b's' ∷ said_after) (text none ∷ []) out
      ≡ panic assertion_failed
announce_null tty out =
    let (_, _, _, null, _, _, _) = kprintf_lem tty said_before said_after [] out (omega arith) in
    null

-- With a stream that records, `DmRegisterDriver` panics at NULL. With room it appends the driver to
-- the registered ones, writes a line with its name and returns 1, but panics if the name is NULL;
-- with 32 drivers it returns 0 and changes nothing.
pub register_driver_lem :
    (tty : IoStream (List ℕ) (List ℕ)) (driver_id : ℕ → Option (List ℕ)) (s : Dm (List ℕ)) (def : ℕ)
    → s.driver_count ≤ max_registered_drivers
    → let call = register_driver (some recorder) tty driver_id def s in
      (def ≡ 0 → call ≡ panic assertion_failed)
      × ((name : List ℕ)
          → def ≢ 0
          → s.driver_count < max_registered_drivers
          → driver_id def ≡ some name
          → (t : Dm (List ℕ)) × ((call ≡ ok 1 t)
              × (drivers t ≡ drivers s ++ def ∷ [])
              × (t.console ≡ ((s.console ++ said_before) ++ name) ++ said_after)
              × (t.driver_count ≤ max_registered_drivers)))
      × (def ≢ 0
          → s.driver_count < max_registered_drivers
          → driver_id def ≡ none
          → call ≡ panic assertion_failed)
      × (def ≢ 0 → s.driver_count ≡ max_registered_drivers → call ≡ ok 0 s)
unfolding register_driver announce
register_driver_lem tty driver_id s def h = (
  λ e. ground arith,
  λ name n l d.
      let (c, (run, said)) =
        register_driver-Speaks Recorded (some recorder) tty (recorder-Speaks tty) driver_id s def
          name s.console n l d refl in
      (
        record {
          driver_count = suc s.driver_count;
          driver_list = assign s.driver_list s.driver_count def;
          console = c;
        },
        (
          run,
          drivers_from-assign s.driver_list 0 s.driver_count s.driver_count def (omega arith),
          said,
          l,
        ),
      ),
  λ n l d. ground (arith, announce_null tty s.console),
  λ n e. ground arith,
)
