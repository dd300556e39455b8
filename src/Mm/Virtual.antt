-- ===== src/Mm/Virtual.antt =====
-- The allocator of kernel address space, kernel/src/MM/VirtualMemory.c, over the kernel's page
-- tables and the allocator of physical pages.
pub mod Search
pub mod Map
mod Tests
use mcpgos.Base.{
  ℕ, zero, suc, ◌+◌, ◌*◌, ◌/◌, Bool, true, false, not, ◌&&◌, Option, none, some, ltb, ◌==◌,
  if◌then◌else◌, assign,
}
use mcpgos.Base.Words.{u32, sub32, shr}
use mcpgos.Base.Run.{Cmd, panic, pure, ◌>>=◌, ◌>>◌, in_bounds, modify, no_virtual_pages}
use mcpgos.Base.Run.{placed}
use mcpgos.Mm.Physical
use mcpgos.Mm.Physical.{Pm}

-- The fields of a page table's entry.
pub record PageTableEntry : Type 0 where
  pub present : Bool
  pub writable : Bool
  pub user : Bool
  pub write_through : Bool
  pub cached : Bool
  pub accessed : Bool
  pub dirty : Bool
  pub reserved : Bool
  pub global : Bool
  pub available : ℕ
  pub phys_address : ℕ

-- `KernelPageTables` has this many entries.
abbrev pub kernel_pages : ℕ
kernel_pages = 131072

pub record Vm : Type 0 where
  pub tables : ℕ → PageTableEntry
  pub pm : Pm

-- `MmVmInitAllocator` does nothing.
abbrev pub vm_init_allocator : Cmd Vm (Unit {0})
vm_init_allocator = pure tt

-- `startingPage` and `pageCounter` after the page `i` was looked at.
abbrev pub next_start : (present : Bool) (i start : ℕ) → ℕ
next_start present i start = if present then 0 else if start == 0 then i else start

abbrev pub next_count : (present : Bool) (start count : ℕ) → ℕ
next_count present start count = if present then 0 else if start == 0 then 1 else u32 (count + 1)

-- The search, with `n` rounds left before `i` is at the end. `none` is `!foundPages`.
pub search : (n i start count pages : ℕ) → (ℕ → PageTableEntry) → Option ℕ
search zero i start count pages tables = none
search (suc n) i start count pages tables =
    let s = next_start (tables i).present i start in
    let c = next_count (tables i).present start count in
    let rest = search n (i + 1) s c pages tables in
    if not (s == 0) && (c == pages) then some s else rest

-- The second loop, with `n` rounds left.
pub map_pages : (n i : ℕ) → Cmd Vm (Unit {0})
map_pages zero i = pure tt
map_pages (suc n) i = do
  in_bounds (ltb i kernel_pages)
  phys ← λ s. placed (λ p. record s { pm = p }) (Physical.allocate s.pm)
  modify λ s. record s {
    tables = assign s.tables i (record (s.tables i) {
      present = true;
      user = false;
      writable = true;
      phys_address = shr phys 12;
    });
  }
  map_pages n (i + 1)

-- What follows the search. `symbol` is the address of the variable `VirtualAddress`.
pub map_found : (symbol pages : ℕ) → Option ℕ → Cmd Vm ℕ
map_found symbol pages none = λ _. panic no_virtual_pages
map_found symbol pages (some start) = map_pages pages start >> pure (u32 (symbol + start * 4096))

pub vm_allocate : (symbol pages : ℕ) → Cmd Vm ℕ
vm_allocate symbol pages s = map_found symbol pages (search kernel_pages 0 0 0 pages s.tables) s

-- The loop of `MmVmFree`, with `n` rounds left.
pub unmap_pages : (n i : ℕ) → Cmd Vm (Unit {0})
unmap_pages zero i = pure tt
unmap_pages (suc n) i = do
  in_bounds (ltb i kernel_pages)
  modify λ s. record s {
    tables = assign s.tables i (record (s.tables i) { present = false; phys_address = 0 });
  }
  unmap_pages n (i + 1)

-- `virtual_address` is what the variable `VirtualAddress` holds.
pub vm_free : (virtual_address virt pages : ℕ) → Cmd Vm (Unit {0})
vm_free virtual_address virt pages =
    unmap_pages pages (sub32 (virt / 4096 * 4096) virtual_address / 4096)
