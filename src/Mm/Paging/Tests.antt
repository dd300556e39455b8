-- ===== src/Mm/Paging/Tests.antt =====
-- Page tables in a memory where every pointer is a word of its own: the directory at 0x10000, whose
-- entry 0 leads to a table at 0x20000.
use mcpgos.Base.{
  ℕ, ◌+◌, ◌*◌, ◌/◌, ◌<◌, ◌≡◌, refl, ◌≢◌, ◌⊎◌, true, false, arith, ◌==◌, if◌then◌else◌,
}
use mcpgos.Base.Run.{ok}
use mcpgos.Base.Ends.{Stops, Ends}
use mcpgos.Utils.LinkedList.{Ptr, null}
use mcpgos.Mm.Physical.Pages.{IsValid}
use mcpgos.Mm.Paging.{
  Paging, read, kernel_phys_to_virt, page_of, mm_map, mm_unmap, mmap, alloc_page_directory,
  table_entry, k_virt_to_phys,
}
use mcpgos.Mm.Paging.Lookup.{IsBacked, IsMissing, Walk, kernel_phys_to_virt_lem}
use mcpgos.Mm.Paging.Map.{IsApart, Entry, Sees, OnlyAt, mm_map_lem}
use mcpgos.Mm.Paging.Directory.{IsTable, new_entry, alloc_page_directory_lem}
use mcpgos.Mm.Paging.Mmap.{mmap_lem}

-- The kernel's tables stand at 0x100000, and their first entry has the frame of the table.
abbrev words : ℕ → ℕ
words a = if a == 0x10000 then 0x20003 else if a == 0x100000 then 0x20003 else 0

abbrev some_pages : Paging
some_pages = record {
  words = words;
  pm = record { bitmap = λ a. 0; top = 100 };
  directory = 0x10000;
  directory_phys = 0x10000;
  cr3 = 0x10000;
  cell = λ p. p;
  kernel_tables = 0x100000;
  zero_identity = 0x30000;
}

-- Address 0x5123 has entry 5 of the table.
walk : Walk some_pages 0x10000 0x5123 0x20014
walk = record {
  small = omega arith;
  mapped = refl;
  backed = (0, omega arith, refl);
  not_null = omega arith;
  here = refl;
}

apart : IsApart some_pages 0x10000 0x5123 0x20014
apart = record { from_directory = omega arith; from_kernel = λ i l. omega arith }

kernel_phys_to_virt_lem_example :
    (IsBacked some_pages 0x20014 × (kernel_phys_to_virt 0x20014 some_pages ≡ 0x20014))
    ⊎ (IsMissing some_pages 0x20014 × (kernel_phys_to_virt 0x20014 some_pages ≡ null))
kernel_phys_to_virt_lem_example = kernel_phys_to_virt_lem 0x20014 some_pages

mm_map_lem_example :
    (t r : Paging) × ((mm_map 0 0x7000 0x5123 true false some_pages ≡ ok true t)
      × Sees t 0x5123 (page_of 0x7000) true true false
      × OnlyAt 0x20014 some_pages t
      × (mm_unmap 0x5123 t ≡ ok true r)
      × Sees r 0x5123 0 false false false
      × OnlyAt 0x20014 some_pages r)
mm_map_lem_example =
    mm_map_lem 0 0x20014 0x7000 0x5123 true false some_pages (omega arith) (omega arith) walk apart

table : IsTable some_pages 0x40000
table i j a b e = omega arith

alloc_page_directory_lem_example :
    (t : Paging) × ((alloc_page_directory 0x40000 some_pages ≡ ok 0x40000 t)
      × ((j : ℕ)
          → j < 1024
          → read t (0x40000 + 4 * j) ≡ new_entry some_pages j (read some_pages (0x40000 + 4 * j)))
      × ((virt : ℕ) → Entry (table_entry virt) (k_virt_to_phys virt / 4096) true false true)
      × ((a : ℕ)
          → ((j : ℕ) → j < 1024 → a ≢ some_pages.cell (0x40000 + 4 * j))
          → t.words a ≡ some_pages.words a))
alloc_page_directory_lem_example = alloc_page_directory_lem 0x40000 some_pages (omega arith) table

fresh : ℕ → Ptr
fresh k = 0

valid : IsValid some_pages.pm
valid = record { bytes = λ a. omega arith }

mmap_lem_example :
    Stops (λ p t. (p ≡ null) × (t ≡ some_pages)) (mmap 2000000 fresh null 3 true true some_pages)
    × Ends
        (λ p t. (p ≡ null) × (t ≡ some_pages))
        (mmap 2000000 fresh 0x400000 3 true true some_pages)
mmap_lem_example =
    mmap_lem 3 (omega arith) (omega arith) 2000000 fresh 0x400000 true true some_pages valid
      (omega arith)
