-- ===== src/Drivers/Tty/Write.antt =====
-- `TTYWrite`: where the cursor goes and which cells are stored.
use mcpgos.Base.{
  ℕ, ◌+◌, ◌-◌, ◌≤◌, ◌<◌, ◌≡◌, refl, ◌∙◌, ◌≢◌, inl, inr, List, [], ◌∷◌, arith, ltb, ◌==◌, ne→==,
  Bool-cases, All,
}
use mcpgos.Drivers.Tty.{
  TtyState, tty_width, tty_height, cell, scroll, new_line, back_space, line_feed, store_cell,
  store_char, put_char, put_chars, tty_write, update_vga_cursor_position, vga_move_cursor,
}
use mcpgos.Drivers.Tty.Scroll.{IsText, scroll_lem}

-- The cursor is on the screen.
pub record OnScreen (s : TtyState) : Type 0 where
  pub column : s.cursor_x < tty_width
  pub row : s.cursor_y < tty_height
  pub cells : IsText s.text

-- Everything past the screen's 2000 cells is in `t` what it is in `s`.
abbrev pub SamePast : TtyState → TtyState → Type 0
SamePast s t = (a : ℕ) → 2000 ≤ a → t.text a ≡ s.text a

abbrev pub NoNewline : List ℕ → Type 0
NoNewline buf = All (λ c. c ≢ 10) buf

scroll-IsText : (s : TtyState) → IsText s.text → IsText (scroll s).text
scroll-IsText s ok a = ground (arith, (scroll_lem s ok).0 a, ok a, ok (a + 80))

scroll-OnScreen :
    (s : TtyState)
    → IsText s.text
    → s.cursor_x < tty_width
    → s.cursor_y < tty_height
    → OnScreen (scroll s) × SamePast s (scroll s)
scroll-OnScreen s ok hx hy =
    let (text, y, x) = scroll_lem s ok in
    (
      record { column = omega arith; row = omega arith; cells = scroll-IsText s ok },
      λ a h. text a ∙ ground arith,
    )

new_line-OnScreen :
    (s : TtyState)
    → IsText s.text
    → s.cursor_y < tty_height
    → OnScreen (new_line s) × SamePast s (new_line s)
unfolding new_line
new_line-OnScreen s ok h =
    let t : TtyState = record s { cursor_x = 0 } in
    elim (Bool-cases (s.cursor_y == 24)) [
      | inl e ↦ rw e (scroll-OnScreen t ok (omega arith) h)
      | inr n ↦ rw n (record { column = omega arith; row = ground arith; cells = ok }, λ a h. refl)
    ]

store_char-OnScreen :
    (s : TtyState) (c : ℕ) → OnScreen s → OnScreen (store_char c s) × SamePast s (store_char c s)
unfolding store_char
store_char-OnScreen s c v =
    let t : TtyState = store_cell c s in
    let cells : IsText t.text = λ a. ground (arith, v.cells a) in
    let past : SamePast s t = λ a h. ground (arith, v.column, v.row) in
    elim (Bool-cases (t.cursor_x == tty_width)) [
      | inl e ↦
          let (on, same) = new_line-OnScreen t cells v.row in rw e (on, λ a h. same a h ∙ past a h)
      | inr n ↦
          rw n (record { column = ground (arith, v.column); row = v.row; cells = cells }, past)
    ]

put_char-OnScreen :
    (s : TtyState) (c : ℕ)
    → OnScreen s
    → c ≢ 10
    → OnScreen (put_char c s) × SamePast s (put_char c s)
unfolding put_char back_space
put_char-OnScreen s c v n = rw (ne→== c 10 n) (elim (Bool-cases (c == 8)) [
  | inl e ↦ rw e (elim (Bool-cases (ltb 0 s.cursor_x)) [
    | inl p ↦
        rw p
          (record { column = omega (arith, v.column); row = v.row; cells = v.cells }, λ a h. refl)
    | inr p ↦ rw p (v, λ a h. refl)
  ])
  | inr e ↦ rw e (elim (Bool-cases (c == 13)) [
    | inl p ↦ rw p (record { column = omega arith; row = v.row; cells = v.cells }, λ a h. refl)
    | inr p ↦ rw p (store_char-OnScreen s c v)
  ])
])

put_chars-OnScreen :
    (buf : List ℕ) (s : TtyState)
    → OnScreen s
    → NoNewline buf
    → OnScreen (put_chars buf s) × SamePast s (put_chars buf s)
unfolding put_chars
put_chars-OnScreen [] s v n = (v, λ a h. refl)
put_chars-OnScreen (c ∷ buf) s v n =
    let (on, same) = put_char-OnScreen s c v n.0 in
    let (on', same') = put_chars-OnScreen buf (put_char c s) on n.1 in
    (on', λ a h. same' a h ∙ same a h)

-- Without a newline in the text, `TTYWrite` keeps the cursor on the screen and stores nothing past
-- the screen, however long the text is.
pub tty_write-OnScreen :
    (buf : List ℕ) (s : TtyState)
    → OnScreen s
    → NoNewline buf
    → OnScreen (tty_write buf s) × SamePast s (tty_write buf s)
unfolding tty_write update_vga_cursor_position vga_move_cursor
tty_write-OnScreen buf s v n =
    let (on, same) = put_chars-OnScreen buf s v n in
    (record { column = on.column; row = on.row; cells = on.cells }, same)

new_line_column : (s : TtyState) → (new_line s).cursor_x ≡ 0
unfolding new_line scroll
new_line_column s = ground arith

put_char_column :
    (c : ℕ) (s : TtyState) → s.cursor_x < tty_width → (put_char c s).cursor_x < tty_width
unfolding put_char back_space line_feed store_char scroll
put_char_column c s h = ground (arith, new_line_column (store_cell c s))

put_chars_column :
    (buf : List ℕ) (s : TtyState) → s.cursor_x < tty_width → (put_chars buf s).cursor_x < tty_width
unfolding put_chars
put_chars_column [] s h = h
put_chars_column (c ∷ buf) s h = put_chars_column buf (put_char c s) (put_char_column c s h)

-- Whatever is written, the cursor stays in its 80 columns.
pub tty_write-column :
    (buf : List ℕ) (s : TtyState) → s.cursor_x < tty_width → (tty_write buf s).cursor_x < tty_width
unfolding tty_write update_vga_cursor_position vga_move_cursor
tty_write-column buf s h = put_chars_column buf s h

-- A newline in the last row of the screen takes the cursor off the screen and scrolls nothing, and
-- the next character that is not a control character is stored past the screen.
pub newline_leaves_screen :
    (s : TtyState) (c : ℕ)
    → s.cursor_y ≡ tty_height - 1
    → c ≢ 8
    → c ≢ 10
    → c ≢ 13
    → let t = tty_write (10 ∷ c ∷ []) s in
      (t.cursor_y ≡ tty_height)
      × (t.cursor_x ≡ 1)
      × (t.text 2000 ≡ cell s.attribute c)
      × ((a : ℕ) → a ≢ 2000 → t.text a ≡ s.text a)
unfolding tty_write update_vga_cursor_position vga_move_cursor put_chars put_char line_feed
    store_char
newline_leaves_screen s c y n8 n10 n13 =
    (ground arith, ground arith, ground arith, λ a h. ground arith)
