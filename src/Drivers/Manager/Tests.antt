-- ===== src/Drivers/Manager/Tests.antt =====
-- The driver manager with one driver.
use mcpgos.Base.{ℕ, ◌≤◌, ◌<◌, ◌≡◌, ◌≢◌, Option, none, some, List, [], ◌∷◌, ◌++◌, arith}
use mcpgos.Base.Run.{ok, panic, assertion_failed}
use mcpgos.Kprintf.Format.{recorder}
use mcpgos.Drivers.Manager.{
  Dm, max_registered_drivers, register_driver, drivers, said_before, said_after,
  register_driver_lem,
}

abbrev one : Dm (List ℕ)
one = record { driver_count = 1; driver_list = λ i. 500; console = [] }

abbrev def : ℕ
def = 600

-- Every driver's name is "TTY".
abbrev tty_name : List ℕ
tty_name = b'T' ∷ b'T' ∷ b'Y' ∷ []

abbrev named : ℕ → Option (List ℕ)
named d = some tty_name

register_driver_lem_example :
    let call = register_driver (some recorder) recorder named def one in
    (def ≡ 0 → call ≡ panic assertion_failed)
    × ((name : List ℕ)
        → def ≢ 0
        → 1 < max_registered_drivers
        → named def ≡ some name
        → (t : Dm (List ℕ)) × ((call ≡ ok 1 t)
            × (drivers t ≡ 500 ∷ 600 ∷ [])
            × (t.console ≡ (said_before ++ name) ++ said_after)
            × (t.driver_count ≤ max_registered_drivers)))
    × (def ≢ 0 → 1 < max_registered_drivers → named def ≡ none → call ≡ panic assertion_failed)
    × (def ≢ 0 → one.driver_count ≡ max_registered_drivers → call ≡ ok 0 one)
register_driver_lem_example = register_driver_lem recorder named one def (omega arith)
