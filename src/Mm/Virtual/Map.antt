-- ===== src/Mm/Virtual/Map.antt =====
-- What `MmVmAllocate` does to the page tables.
use mcpgos.Base.{
  ℕ, zero, suc, ◌+◌, ◌*◌, ◌≤◌, ◌<◌, ◌≡◌, refl, ap, ◌∙◌, ◌⊎◌, inl, inr, true, false, arith, ◌==◌,
  assign, ==→eq, ==→ne, lt→ltb, Bool-cases, Option-cases,
}
use mcpgos.Base.Words.{u32, shr}
use mcpgos.Base.Run.{pure, ok, panic, no_virtual_pages, no_physical_page, and_then}
use mcpgos.Mm.Physical
use mcpgos.Mm.Physical.{Pm}
use mcpgos.Mm.Physical.Pages.{IsValid}
use mcpgos.Mm.Physical.Allocate.{allocate_lem}
use mcpgos.Mm.Virtual.{Vm, kernel_pages, search, map_pages, map_found, vm_allocate}
use mcpgos.Mm.Virtual.Search.{IsBlock, search_lem}
use mcpgos.Mm.Virtual.Search.First.{search-none, search-first}

-- From `s` to `t` the pages `i`, ..., `i + n - 1` were mapped for the kernel.
pub record Mapped (s t : Vm) (i n : ℕ) : Type 0 where
  pub mapped :
      (j : ℕ)
      → i ≤ j
      → j < i + n
      → ((t.tables j).present ≡ true) × ((t.tables j).user ≡ false) × ((t.tables j).writable ≡ true)
  pub kept : (j : ℕ) → (j < i) ⊎ (i + n ≤ j) → t.tables j ≡ s.tables j
  pub valid : IsValid t.pm

-- The state after a page has been mapped.
abbrev with_page : (i phys : ℕ) → Pm → Vm → Vm
with_page i phys p s = record {
  pm = p;
  tables = assign s.tables i (record (s.tables i) {
    present = true;
    user = false;
    writable = true;
    phys_address = shr phys 12;
  });
}

module _ (n i : ℕ) (s : Vm) (l : i < kernel_pages) where
  map_pages-step :
      (phys : ℕ) (p : Pm)
      → Physical.allocate s.pm ≡ ok phys p
      → map_pages (suc n) i s ≡ map_pages n (i + 1) (with_page i phys p s)
  unfolding map_pages
  map_pages-step phys p e = ground (arith, e, lt→ltb i kernel_pages l)

  map_pages-panic :
      Physical.allocate s.pm ≡ panic no_physical_page
      → map_pages (suc n) i s ≡ panic no_physical_page
  unfolding map_pages
  map_pages-panic e = ground (arith, e, lt→ltb i kernel_pages l)

Mapped-step :
    (s t : Vm) (i n phys : ℕ) (p : Pm)
    → Mapped (with_page i phys p s) t (i + 1) n
    → Mapped s t i (suc n)
Mapped-step s t i n phys p m = record {
  mapped = λ j a b. elim (Bool-cases (j == i)) [
    | inl q ↦
        let e = ==→eq j i q in
        let same = m.kept j (inl (omega (arith, e))) in
        (ground (arith, same), ground (arith, same), ground (arith, same))
    | inr q ↦ m.mapped j (omega (arith, ==→ne j i q)) (omega arith)
  ];
  kept = λ j h. elim h [
    | inl a ↦ ground (arith, m.kept j (inl (omega arith)))
    | inr b ↦ ground (arith, m.kept j (inr (omega arith)))
  ];
  valid = m.valid;
}

map_pages_lem :
    (n i : ℕ) (s : Vm)
    → i + n ≤ kernel_pages
    → IsValid s.pm
    → (map_pages n i s ≡ panic no_physical_page)
      ⊎ ((t : Vm) × ((map_pages n i s ≡ ok tt t) × Mapped s t i n))
unfolding map_pages
map_pages_lem zero i s l v =
    inr
      (s, (refl, record { mapped = λ j a b. absurd (omega arith); kept = λ j h. refl; valid = v }))
map_pages_lem (suc n) i s l v = elim (allocate_lem s.pm v) [
  | inl (phys, p, e, al) ↦
      let step = map_pages-step n i s (omega arith) phys p e in
      elim (map_pages_lem n (i + 1) (with_page i phys p s) (omega arith) al.valid) [
        | inl q ↦ inl (step ∙ q)
        | inr (t, (q, m)) ↦ inr (t, (step ∙ q, Mapped-step s t i n phys p m))
      ]
  | inr (_, e) ↦ inl (map_pages-panic n i s (omega arith) e)
]

-- `MmVmAllocate` never leaves the page tables or the bitmap. A block is as many pages in a row as were
-- asked for, at least one, past page 0 and inside the kernel's page tables, none of which is present.
-- Either there is no block and the call panics; or it panics for want of physical pages; or it returns
-- the place of the first block, counted from the address of the variable `VirtualAddress`. Then all
-- pages of the block are present, for the kernel only and writable, and no other entry has changed.
pub vm_allocate_lem :
    (symbol pages : ℕ) (s : Vm)
    → IsValid s.pm
    → ((vm_allocate symbol pages s ≡ panic no_virtual_pages)
        × ((k : ℕ) → IsBlock s.tables k pages → ⊥))
      ⊎ (vm_allocate symbol pages s ≡ panic no_physical_page)
      ⊎ ((k : ℕ) × (t : Vm) × ((vm_allocate symbol pages s ≡ ok (u32 (symbol + k * 4096)) t)
            × IsBlock s.tables k pages
            × ((j : ℕ) → j < k → IsBlock s.tables j pages → ⊥)
            × Mapped s t k pages))
unfolding vm_allocate map_found
vm_allocate_lem symbol pages s v = elim (Option-cases (search kernel_pages 0 0 0 pages s.tables)) [
  | inl e ↦ inl (ap (λ o. map_found symbol pages o s) e, search-none pages s.tables e)
  | inr (k, e) ↦
      let block = search_lem pages k s.tables e in
      let here = ap (λ o. map_found symbol pages o s) e in
      elim (map_pages_lem pages k s block.2 v) [
        | inl q ↦ inr (inl (here ∙ ap (λ r. and_then r (λ _. pure (u32 (symbol + k * 4096)))) q))
        | inr (t, (q, m)) ↦ inr (
            inr (
              k,
              t,
              (
                here ∙ ap (λ r. and_then r (λ _. pure (u32 (symbol + k * 4096)))) q,
                block,
                search-first pages s.tables k e,
                m,
              ),
            ))
      ]
]
