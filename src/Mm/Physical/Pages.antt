-- ===== src/Mm/Physical/Pages.antt =====
-- The bitmap as a table of page values: what `MmPmGetBitmapValue` reads and `MmPmSetBitmapValue`
-- leaves.
use mcpgos.Base.{
  ℕ, ◌/◌, ◌%◌, ◌<◌, ◌≤◌, ◌≡◌, refl, bit_or, arith, ◌==◌, if◌then◌else◌, assign, lt→ltb, le→ltb, inl,
  inr, Bool-cases,
}
use mcpgos.Base.Run.{ok, fault}
use mcpgos.Mm.Physical.{
  Pm, bitmap_size, bitmap_bytes, slot_set, slot_get, set_bitmap_value, get_bitmap_value,
}
use mcpgos.Mm.Physical.Slots.{slot_get-slot_set, slot_set-lt}

-- The bitmap is an array of `uint8_t`.
pub record IsValid (s : Pm) : Type 0 where
  pub bytes : (a : ℕ) → s.bitmap a < 256

abbrev pub page : Pm → ℕ → ℕ
page s j = slot_get (s.bitmap (j / 4)) (j % 4)

-- The state after a store to page `i`.
pub put : Pm → ℕ → ℕ → Pm
put s i v = record s { bitmap = assign s.bitmap (i / 4) (slot_set (s.bitmap (i / 4)) (i % 4) v) }

pub top-put : (s : Pm) (i v : ℕ) → (put s i v).top ≡ s.top
unfolding put
top-put s i v = refl

pub put-IsValid : (s : Pm) (i v : ℕ) → IsValid s → IsValid (put s i v)
unfolding put
put-IsValid s i v valid = record {
  bytes = λ a. ground (arith, valid.bytes a, slot_set-lt (s.bitmap (i / 4)) (i % 4) v);
}

pub set_bitmap_value-put :
    (s : Pm) (i v : ℕ) → i < bitmap_size → set_bitmap_value i v s ≡ ok tt (put s i v)
unfolding set_bitmap_value put
set_bitmap_value-put s i v h = rw (lt→ltb (i / 4) bitmap_bytes (omega arith))

pub get_bitmap_value-page :
    (s : Pm) (i : ℕ) → i < bitmap_size → get_bitmap_value i s ≡ ok (page s i) s
unfolding get_bitmap_value
get_bitmap_value-page s i h = rw (lt→ltb (i / 4) bitmap_bytes (omega arith))

pub get_bitmap_value-fault : (s : Pm) (i : ℕ) → bitmap_size ≤ i → get_bitmap_value i s ≡ fault
unfolding get_bitmap_value
get_bitmap_value-fault s i h = rw (le→ltb (i / 4) bitmap_bytes (omega arith))

-- A store joins the value to the page's bits, clears the three pages of the same byte, and leaves
-- every other page.
pub page-put :
    (s : Pm) (i v j : ℕ)
    → IsValid s
    → v < 4
    → page (put s i v) j
      ≡ (if (j / 4) == (i / 4) then (if j == i then bit_or (page s i) v else 0) else page s j)
unfolding put
page-put s i v j valid hv = elim (Bool-cases ((j / 4) == (i / 4))) [
  | inl e ↦ ground (
    arith,
    slot_get-slot_set (s.bitmap (i / 4)) (i % 4) v (j % 4) (valid.bytes (i / 4)) (omega arith) hv
        (omega arith),
  )
  | inr n ↦ rw n
]
