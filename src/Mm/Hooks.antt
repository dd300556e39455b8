-- ===== src/Mm/Hooks.antt =====
-- What the heap allocator calls, kernel/src/MM/LibAllocStubs.c.
use mcpgos.Base.{ℕ, zero, suc, ◌<◌, ◌≡◌, refl, ◌∙◌, Bool, true, false, arith}
use mcpgos.Base.Run.{Cmd, ok, out_of_fuel, pure, ◌>>=◌, ◌>>◌, modify, placed, true_case, false_case}
use mcpgos.Mm.Virtual.{Vm, vm_allocate, vm_free}

pub record Hooks : Type 0 where
  pub locked : Bool
  pub vm : Vm

abbrev on_vm : {A : Type 0} → Cmd Vm A → Cmd Hooks A
on_vm m s = placed (λ v. record s { vm = v }) (m s.vm)

-- The loop waits as long as the lock is taken, and nothing in it gives the lock back.
pub liballoc_lock : (fuel : ℕ) → Cmd Hooks ℕ
liballoc_lock zero = λ _. out_of_fuel
liballoc_lock (suc k) = do
  taken ← λ s. ok s.locked s
  elim taken [ true ↦ liballoc_lock k | false ↦ do modify λ s. record s { locked = true }; pure 0 ]

pub liballoc_unlock : Cmd Hooks ℕ
liballoc_unlock = do modify λ s. record s { locked = false }; pure 0

-- `symbol` and `virtual_address` are those of Mm.Virtual.
pub liballoc_alloc : (symbol amount : ℕ) → Cmd Hooks ℕ
liballoc_alloc symbol amount = on_vm (vm_allocate symbol amount)

-- The function has no `return`, so what it returns is not known.
pub liballoc_free : (virtual_address page_base amount : ℕ) → Cmd Hooks (Unit {0})
liballoc_free virtual_address page_base amount = on_vm (vm_free virtual_address page_base amount)

still_waits : (fuel : ℕ) (s : Hooks) → s.locked ≡ true → liballoc_lock fuel s ≡ out_of_fuel
unfolding liballoc_lock
still_waits zero s e = refl
still_waits (suc k) s e = true_case s.locked _ _ s e ∙ still_waits k s e

-- A free lock is taken at once; taken, it is never had again before it is given back, and then it
-- is had again.
pub liballoc_lock_lem :
    (fuel : ℕ) (s : Hooks)
    → s.locked ≡ false
    → 0 < fuel
    → (t u : Hooks) × ((liballoc_lock fuel s ≡ ok 0 t)
        × ((k : ℕ) → liballoc_lock k t ≡ out_of_fuel)
        × (liballoc_unlock t ≡ ok 0 u)
        × (liballoc_lock fuel u ≡ ok 0 t))
unfolding liballoc_lock liballoc_unlock
liballoc_lock_lem zero s e l = absurd (omega arith)
liballoc_lock_lem (suc k) s e l = (
  record s { locked = true },
  record s { locked = false },
  (false_case s.locked _ _ s e, λ j. still_waits j (record s { locked = true }) refl, refl, refl),
)
