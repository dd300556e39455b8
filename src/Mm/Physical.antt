-- ===== src/Mm/Physical.antt =====
-- The physical page allocator, kernel/src/MM/PhysicalMemory.c: a bitmap with two bits for each page
-- of 4 KiB, four pages to a byte, and the page at which the next search starts.
pub mod Slots
pub mod Pages
pub mod Allocate
pub mod Sequence
pub mod Free
pub mod Init
mod Tests
use mcpgos.Base.{
  ℕ, zero, suc, ◌+◌, ◌-◌, ◌*◌, ◌/◌, true, false, Option, none, some, bit_and, bit_or, ltb, leb,
  ◌==◌, if◌then◌else◌, assign,
}
use mcpgos.Base.Words.{u8, u32, shl, shr, low_bits}
use mcpgos.Base.Run.{
  Cmd, pure, ◌>>=◌, ◌>>◌, in_bounds, get, modify, panic, no_physical_page, free_unused_page,
}
use mcpgos.Libc.Memory.{memset}

abbrev pub bitmap_size : ℕ
bitmap_size = 1048576

-- `sizeof(MmPmBitmap)`.
abbrev pub bitmap_bytes : ℕ
bitmap_bytes = bitmap_size / 4

pub record Pm : Type 0 where
  pub bitmap : ℕ → ℕ
  pub top : ℕ

abbrev pub page_free : ℕ
page_free = 0

abbrev pub page_used : ℕ
page_used = 1

abbrev pub page_unusable : ℕ
page_unusable = 2

-- What the two bitmap functions do to the byte, at `k = index & 3`.
pub slot_set : ℕ → ℕ → ℕ → ℕ
slot_set byte k value =
    let masked = u8 (bit_and byte (shl 3 (k * 2))) in
    if ltb 0 value then u8 (bit_or masked (shl value (k * 2))) else masked

pub slot_get : ℕ → ℕ → ℕ
slot_get byte k = low_bits (shr byte (k * 2)) 2

pub set_bitmap_value : ℕ → ℕ → Cmd Pm (Unit {0})
unfolding slot_set
set_bitmap_value index value = do
  in_bounds (ltb (shr index 2) bitmap_bytes)
  modify λ s. record s {
    bitmap =
        assign s.bitmap (shr index 2) (slot_set (s.bitmap (shr index 2)) (low_bits index 2) value);
  }

pub get_bitmap_value : ℕ → Cmd Pm ℕ
unfolding slot_get
get_bitmap_value index = do
  in_bounds (ltb (shr index 2) bitmap_bytes)
  get λ s. slot_get (s.bitmap (shr index 2)) (low_bits index 2)

abbrev set_top : ℕ → Cmd Pm (Unit {0})
set_top i = modify λ s. record s { top = i }

-- `size_pages` is `KernelSizePages`, which the linker script defines.
pub init_allocator : ℕ → Cmd Pm (Unit {0})
init_allocator size_pages = do
  in_bounds (leb (64 + size_pages) bitmap_bytes)
  modify λ s. record {
    bitmap =
        memset (memset (memset s.bitmap 0 page_free bitmap_bytes) 0 page_unusable 64) 64 page_used
          size_pages;
    top = u32 (64 + size_pages);
  }

-- The search loop, with `n` rounds left before `i` is MM_BITMAP_SIZE. `none` is `!foundPage`.
pub find_free : (n i : ℕ) → Cmd Pm (Option ℕ)
find_free zero i = pure none
find_free (suc n) i = do
  v ← get_bitmap_value i
  elim (v == page_free) [ true ↦ set_top (i + 1) >> pure (some i) | false ↦ find_free n (i + 1) ]

pub allocate : Cmd Pm ℕ
allocate = do
  top ← get λ s. s.top
  found ← find_free (bitmap_size - top) top
  elim found [
    | none ↦ λ _. panic no_physical_page
    | some i ↦ set_bitmap_value i page_used >> pure (u32 (shl i 12))
  ]

pub free : ℕ → Cmd Pm (Unit {0})
free phys = do
  let index = shr phys 10
  v ← get_bitmap_value index
  elim (v == page_used) [
    | false ↦ λ _. panic free_unused_page
    | true ↦ do
      set_bitmap_value index page_free
      top ← get λ s. s.top
      if ltb index top then set_top index else pure tt
  ]
