-- ===== src/Drivers/Tty/Scroll.antt =====
-- `TTYScroll` as a map of the screen's cells.
use mcpgos.Base.{
  ℕ, zero, suc, ◌+◌, ◌-◌, ◌*◌, ◌^◌, ◌<◌, ◌≡◌, refl, ◌&&◌, arith, ltb, leb, if◌then◌else◌, assign,
}
use mcpgos.Base.Words.{u16}
use mcpgos.Drivers.Tty.{TtyState, tty_width, copy_cells, scroll_rows, scroll}

-- The text buffer holds 16-bit cells.
abbrev pub IsText : (ℕ → ℕ) → Type 0
IsText text = (a : ℕ) → text a < 2 ^ 16

-- Copying down: the destination starts before the source.
copy_cells_lem :
    (n : ℕ) (text : ℕ → ℕ) (dest src a : ℕ)
    → IsText text
    → dest < src
    → copy_cells n text dest src a
      ≡ (if leb dest a && ltb a (dest + n) then text (src + (a - dest)) else text a)
unfolding copy_cells
copy_cells_lem zero text dest src a ok h = ground arith
copy_cells_lem (suc n) text dest src a ok h = ground (
  arith,
  copy_cells_lem n (assign text dest (u16 (text src))) (dest + 1) (src + 1) a
      (λ b. ground (arith, ok b)) (omega arith),
  ok src,
)

copy_row_lem :
    (text : ℕ → ℕ) (i a : ℕ)
    → IsText text
    → copy_cells tty_width text (i * tty_width) ((i + 1) * tty_width) a
      ≡ (if leb (i * 80) a && ltb a ((i + 1) * 80) then text (a + 80) else text a)
copy_row_lem text i a ok =
    ground (arith, copy_cells_lem tty_width text (i * tty_width) ((i + 1) * tty_width) a ok)

scroll_rows_lem :
    (n i : ℕ) (text : ℕ → ℕ) (a : ℕ)
    → IsText text
    → scroll_rows n (i + 1) text a
      ≡ (if leb (i * 80) a && ltb a ((i + n) * 80) then text (a + 80) else text a)
unfolding scroll_rows
scroll_rows_lem zero i text a ok = ground arith
scroll_rows_lem (suc n) i text a ok =
    let same : i + 1 - 1 ≡ i = omega arith in
    let row : ℕ → ℕ = copy_cells tty_width text (i * tty_width) ((i + 1) * tty_width) in
    rw same (
      ground (
        arith,
        scroll_rows_lem n (i + 1) row a
            (λ b. ground (arith, copy_row_lem text i b ok, ok b, ok (b + 80))),
        copy_row_lem text i a ok,
        copy_row_lem text i (a + 80) ok,
      ))

-- `TTYScroll` moves rows 1 to 24 of the screen up by one and leaves the last row and everything
-- past the screen as they are. The cursor goes up one row, unless it is in the first.
pub scroll_lem :
    (s : TtyState)
    → IsText s.text
    → ((a : ℕ) → (scroll s).text a ≡ (if ltb a 1920 then s.text (a + 80) else s.text a))
      × ((scroll s).cursor_y ≡ s.cursor_y - 1)
      × ((scroll s).cursor_x ≡ s.cursor_x)
unfolding scroll
scroll_lem s ok = (λ a. ground (arith, scroll_rows_lem 24 0 s.text a ok), ground arith, refl)
