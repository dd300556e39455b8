-- ===== src/Mm/Virtual/Tests.antt =====
-- The allocator of kernel address space with empty tables and with one page that is taken.
use mcpgos.Base.{◌<◌, ℕ, ◌+◌, ◌*◌, ◌≡◌, refl, ◌⊎◌, Bool, false, some, arith, ◌==◌}
use mcpgos.Base.Words.{u32}
use mcpgos.Base.Run.{ok, panic, no_virtual_pages, no_physical_page}
use mcpgos.Mm.Physical.{Pm}
use mcpgos.Mm.Physical.Pages.{IsValid}
use mcpgos.Mm.Virtual.{PageTableEntry, Vm, search, vm_allocate}
use mcpgos.Mm.Virtual.Search.{IsBlock}
use mcpgos.Mm.Virtual.Map.{Mapped, vm_allocate_lem}

abbrev entry : Bool → PageTableEntry
entry b = record {
  present = b;
  writable = b;
  user = false;
  write_through = false;
  cached = false;
  accessed = false;
  dirty = false;
  reserved = false;
  global = false;
  available = 0;
  phys_address = 0;
}

abbrev fresh : Pm
fresh = record { bitmap = λ a. 0; top = 100 }

fresh-IsValid : IsValid fresh
fresh-IsValid = record { bytes = λ a. omega arith }

-- Page 2 is taken.
abbrev one_taken : Vm
one_taken = record { tables = λ j. entry (j == 2); pm = fresh }

-- The run from page 1 is too short for two pages.
block_of_two : search 10 0 0 0 2 one_taken.tables ≡ some 3
unfolding search
block_of_two = refl

vm_allocate_lem_example :
    ((vm_allocate 0xE0100000 2 one_taken ≡ panic no_virtual_pages)
      × ((k : ℕ) → IsBlock one_taken.tables k 2 → ⊥))
    ⊎ (vm_allocate 0xE0100000 2 one_taken ≡ panic no_physical_page)
    ⊎ ((k : ℕ) × (t : Vm) × ((vm_allocate 0xE0100000 2 one_taken
            ≡ ok (u32 (0xE0100000 + k * 4096)) t)
          × IsBlock one_taken.tables k 2
          × ((j : ℕ) → j < k → IsBlock one_taken.tables j 2 → ⊥)
          × Mapped one_taken t k 2))
vm_allocate_lem_example = vm_allocate_lem 0xE0100000 2 one_taken fresh-IsValid
