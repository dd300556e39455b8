-- ===== src/Mm/Physical/Tests.antt =====
-- The physical page allocator at concrete states.
use mcpgos.Base.{ℕ, ◌<◌, ◌≤◌, ◌≡◌, ◌≢◌, ◌⊎◌, refl, [], ◌∷◌, ◌==◌, if◌then◌else◌, arith}
use mcpgos.Base.Run.{end_of, ok, fault, panic, no_physical_page, free_unused_page}
use mcpgos.Mm.Physical.{
  Pm, bitmap_size, bitmap_bytes, page_free, page_used, init_allocator, find_free, get_bitmap_value,
  set_bitmap_value, allocate, free,
}
use mcpgos.Mm.Physical.Pages.{IsValid, page}
use mcpgos.Mm.Physical.Allocate.{Allocated, allocate_lem}
use mcpgos.Mm.Physical.Sequence.{done, call, Rising, Calls-Rising}
use mcpgos.Mm.Physical.Init.{initial_page, init_allocator_lem}
use mcpgos.Mm.Physical.Free.{Freed, free_lem}

-- Pages 0 and 1 are used; the search starts at page 0.
abbrev start : Pm
start = record { bitmap = λ a. if a == 0 then 5 else 0; top = 0 }

start-IsValid : IsValid start
start-IsValid = record { bytes = λ a. ground arith }

second : Pm
second = end_of start (allocate start)

third : Pm
unfolding second
third = end_of second (allocate second)

allocate-start : allocate start ≡ ok 8192 second
unfolding allocate find_free get_bitmap_value set_bitmap_value second
allocate-start = refl

allocate-second : allocate second ≡ ok 12288 third
unfolding allocate find_free get_bitmap_value set_bitmap_value third
allocate-second = refl

allocate_lem_example :
    ((addr : ℕ) × (t : Pm) × (allocate start ≡ ok addr t) × Allocated start addr t)
    ⊎ (((j : ℕ) → 0 ≤ j → j < bitmap_size → page start j ≢ page_free)
        × (allocate start ≡ panic no_physical_page))
allocate_lem_example = allocate_lem start start-IsValid

Calls-Rising_example : Rising 0 (8192 ∷ 12288 ∷ [])
Calls-Rising_example =
    Calls-Rising start-IsValid (call allocate-start (call allocate-second (done third)))

-- Page 1 is looked at for the address of page 0x400.
free_lem_example :
    (bitmap_size ≤ 1 → free 1024 start ≡ fault)
    × (1 < bitmap_size → page start 1 ≢ page_used → free 1024 start ≡ panic free_unused_page)
    × (1 < bitmap_size
        → page start 1 ≡ page_used
        → (t : Pm) × (free 1024 start ≡ ok tt t) × Freed start 1 t)
free_lem_example = free_lem start 1024 start-IsValid

init_allocator_lem_example :
    (364 ≤ bitmap_bytes
      → (t : Pm) × (init_allocator 300 start ≡ ok tt t)
        × (t.top ≡ 364)
        × ((j : ℕ) → j < bitmap_size → page t j ≡ initial_page 300 j))
    × (bitmap_bytes < 364 → init_allocator 300 start ≡ fault)
init_allocator_lem_example = init_allocator_lem 300 start
