-- ===== src/Mm/Physical/Init.antt =====
-- The table of page values that `MmPmInitAllocator` leaves.
use mcpgos.Base.{ℕ, ◌+◌, ◌*◌, ◌/◌, ◌%◌, ◌≤◌, ◌<◌, ◌≡◌, ltb, arith, ◌==◌, if◌then◌else◌}
use mcpgos.Base.Run.{ok, fault}
use mcpgos.Base.Words.{u32}
use mcpgos.Libc.Memory.{memset, memset_lem}
use mcpgos.Mm.Physical.{
  Pm, bitmap_size, bitmap_bytes, page_free, page_used, page_unusable, init_allocator,
}
use mcpgos.Mm.Physical.Slots.{slot_get_value}
use mcpgos.Mm.Physical.Pages.{page}

-- Pages up to 1 MiB, and then `4 * size_pages` more: the first of each four.
abbrev pub initial_page : ℕ → ℕ → ℕ
initial_page size_pages j =
    if (j % 4) == 0
    then if ltb j 256
      then page_unusable
      else if ltb j (256 + 4 * size_pages)
      then page_used
      else page_free
    else page_free

byte_lem :
    (size_pages : ℕ) (s : ℕ → ℕ) (a : ℕ)
    → a < bitmap_bytes
    → memset
        (memset (memset s 0 page_free bitmap_bytes) 0 page_unusable 64)
        64
        page_used
        size_pages
        a
      ≡ (if ltb a 64
          then page_unusable
          else if ltb a (64 + size_pages)
          then page_used
          else page_free)
byte_lem n s a h = ground (
  arith,
  memset_lem n (memset (memset s 0 page_free bitmap_bytes) 0 page_unusable 64) 64 page_used a,
  memset_lem 64 (memset s 0 page_free bitmap_bytes) 0 page_unusable a,
  memset_lem bitmap_bytes s 0 page_free a,
)

-- Of a kernel that fits in the table of pages, `MmPmInitAllocator` returns, the search starts at page `64 + KernelSizePages`, and of each four
-- pages only the first is marked: unusable below 1 MiB, used in the next `4 * KernelSizePages`
-- pages. All other pages are free. Of a larger kernel it writes past the table.
pub init_allocator_lem :
    (size_pages : ℕ) (s : Pm)
    → (64 + size_pages ≤ bitmap_bytes
        → (t : Pm) × (init_allocator size_pages s ≡ ok tt t)
          × (t.top ≡ 64 + size_pages)
          × ((j : ℕ) → j < bitmap_size → page t j ≡ initial_page size_pages j))
      × (bitmap_bytes < 64 + size_pages → init_allocator size_pages s ≡ fault)
unfolding init_allocator
init_allocator_lem n s = (
  λ l. (
    record {
      bitmap =
          memset (memset (memset s.bitmap 0 page_free bitmap_bytes) 0 page_unusable 64) 64 page_used
            n;
      top = u32 (64 + n);
    },
    ground arith,
    omega arith,
    λ j h. ground (
      arith,
      byte_lem n s.bitmap (j / 4) (omega arith),
      slot_get_value page_free (j % 4) (omega arith) (omega arith),
      slot_get_value page_used (j % 4) (omega arith) (omega arith),
      slot_get_value page_unusable (j % 4) (omega arith) (omega arith),
    ),
  ),
  λ l. ground arith,
)
