-- ===== src/Drivers/Tty/Vga.antt =====
-- The cursor as the VGA ports have it, and a line of text.
use mcpgos.Base.{
  ℕ, zero, suc, ◌+◌, ◌*◌, ◌/◌, ◌%◌, ◌^◌, ◌≤◌, ◌<◌, bit_or, ◌≡◌, refl, sym, ap, ◌∙◌, ◌≢◌, ◌⊎◌, inl,
  Bool, true, some, List, [], ◌∷◌, ◌++◌, arith, ◌==◌, assign, ==→eq, length, get_elem?, All,
}
use mcpgos.Base.Words.{u8, u16, shr, low_bits, holds_below, holds_at}
use mcpgos.Cpu.Ports.{byte_to, PortLog, Devices}
use mcpgos.Base.Bits.{bit_or_same, bit_or_into}
use mcpgos.Drivers.Tty.{
  TtyState, tty_width, tty_height, cell, store_cell, store_char, put_char, put_chars, tty_write,
  update_vga_cursor_position, vga_move_cursor, set_cursor_visible, tty_init_state,
}
use mathlib.Core.List.{append_assoc}
use mathlib.Core.Path.{subst}
use mcpgos.Drivers.Tty.Write.{OnScreen}

-- The four writes that tell the VGA a position.
abbrev pub position_writes : ℕ → PortLog
position_writes pos =
    byte_to 0x3D4 0x0F
    ∷ byte_to 0x3D5 (pos % 256)
    ∷ byte_to 0x3D4 0x0E
    ∷ byte_to 0x3D5 (pos / 256)
    ∷ []

module _ (s : TtyState) (v : OnScreen s) where
  pub update_vga_cursor_position_lem :
      (update_vga_cursor_position s).ports
      ≡ s.ports ++ position_writes (s.cursor_y * tty_width + s.cursor_x)
  unfolding update_vga_cursor_position vga_move_cursor
  update_vga_cursor_position_lem =
      let pos : ℕ = s.cursor_y * tty_width + s.cursor_x in
      let low : low_bits (u16 pos) 8 ≡ pos % 256 = omega arith in
      let high : low_bits (shr (u16 pos) 8) 8 ≡ pos / 256 = omega (arith, v.column, v.row) in
      rw (low, high) (simp append_assoc)

split_test : ℕ → ℕ → Bool
split_test low high = bit_or low (high * 256) == (low + high * 256)

split_table : holds_below (λ low. holds_below (split_test low) 8) 256 ≡ true
unfolding holds_below split_test
split_table = refl

-- The low byte and the high bits of a position put together.
bit_or_split : (pos : ℕ) → pos < 2048 → bit_or (pos % 256) (pos / 256 * 256) ≡ pos
unfolding split_test
bit_or_split pos h =
    ==→eq _ _ (
      holds_at (split_test (pos % 256)) (pos / 256) 8 (omega arith) (
        holds_at (λ low. holds_below (split_test low) 8) (pos % 256) 256 (omega arith) split_table))
    ∙ omega arith

-- The devices answer as a VGA whose cursor is at `pos`: by its low byte after index 0x0F and by its
-- high byte after index 0x0E, whatever was written before.
pub record CursorAt (devices : Devices) (pos : ℕ) : Type 0 where
  pub low : (log : PortLog) → devices (log ++ byte_to 0x3D4 0x0F ∷ []) 0x3D5 ≡ pos % 256
  pub high : (log : PortLog) → devices (log ++ byte_to 0x3D4 0x0E ∷ []) 0x3D5 ≡ pos / 256

-- With the VGA's cursor in column `x` of row `y` of the screen, `TTYInit` takes over just that
-- place.
pub tty_init_state_cursor :
    (devices : Devices) (s : TtyState) (x y : ℕ)
    → x < tty_width
    → y < tty_height
    → CursorAt devices (y * tty_width + x)
    → ((tty_init_state devices s).cursor_x ≡ x) × ((tty_init_state devices s).cursor_y ≡ y)
unfolding tty_init_state set_cursor_visible
tty_init_state_cursor devices s x y hx hy at =
    let pos : ℕ = y * tty_width + x in
    let low : pos % 256 % 256 ≡ pos % 256 = omega arith in
    let high : pos / 256 % 256 ≡ pos / 256 = omega arith in
    rw (at.low, at.high, low, high, bit_or_split pos (omega arith)) (omega arith, omega arith)

-- Bytes that `TTYWrite` stores: no backspace, line feed or carriage return.
abbrev pub Plain : List ℕ → Type 0
Plain buf = All (λ c. (c < 256) × (c ≢ 8) × (c ≢ 10) × (c ≢ 13)) buf

-- The cell of the cursor.
abbrev pub here : TtyState → ℕ
here s = s.cursor_y * tty_width + s.cursor_x

store_char-inside :
    (c : ℕ) (s : TtyState)
    → s.cursor_x + 1 < tty_width
    → (c ≢ 8) × (c ≢ 10) × (c ≢ 13)
    → put_char c s ≡ store_cell c s
unfolding put_char store_char
store_char-inside c s h n = ground arith

-- `r` is `s` with the characters stored from the cursor on, and the cursor behind them.
pub record Laid (s : TtyState) (buf : List ℕ) (r : TtyState) : Type 0 where
  pub column : r.cursor_x ≡ s.cursor_x + length buf
  pub row : r.cursor_y ≡ s.cursor_y
  pub stored : (i c : ℕ) → get_elem? buf i ≡ some c → r.text (here s + i) ≡ c + 256 * s.attribute
  pub kept : (a : ℕ) → (a < here s) ⊎ (here s + length buf ≤ a) → r.text a ≡ s.text a

-- The two bytes of a cell.
cell_lem : (a c : ℕ) → a < 256 → c < 256 → cell a c ≡ c + 256 * a
cell_lem a c h l =
    ap u16 (
      bit_or_same {x' = 0 + 2 ^ 0 * (2 ^ 8 * a)} {y' = 2 ^ 0 * c} (omega arith) (omega arith)
      ∙ bit_or_into 0 8 0 c a (omega arith) l)
    ∙ omega arith

assign_here : (f : ℕ → ℕ) (i v : ℕ) → assign f i v i ≡ v
assign_here f i v = ground arith

Laid-cons :
    (c : ℕ) (buf : List ℕ) (s r : TtyState)
    → s.attribute < 256
    → c < 256
    → s.cursor_x + 1 < tty_width
    → Laid (store_cell c s) buf r
    → Laid s (c ∷ buf) r
Laid-cons c buf s r a b h l =
    let e : u8 (s.cursor_x + 1) ≡ s.cursor_x + 1 = omega arith in
    record {
      column = omega (arith, l.column);
      row = l.row;
      stored = stored;
      kept = λ a o. l.kept a (omega arith) ∙ ground arith;
    }
  where
    t : TtyState
    t = store_cell c s

    stored :
        (i d : ℕ) → get_elem? (c ∷ buf) i ≡ some d → r.text (here s + i) ≡ d + 256 * s.attribute
    stored zero d g =
        let z : here s + 0 ≡ here s = omega arith in
        rw z (
          l.kept (here s) (inl (omega arith))
          ∙ assign_here s.text (here s) (cell s.attribute c)
          ∙ cell_lem s.attribute c a b
          ∙ ap (λ x. x + 256 * s.attribute) (ground (arith, g)))
    stored (suc i) d g = let z : here s + suc i ≡ here t + i = omega arith in rw z (l.stored i d g)

put_chars-Laid :
    (buf : List ℕ) (s : TtyState)
    → s.attribute < 256
    → s.cursor_x + length buf < tty_width
    → Plain buf
    → Laid s buf (put_chars buf s)
unfolding put_chars
put_chars-Laid [] s a h n = record {
  column = omega arith;
  row = refl;
  stored = λ i c e. cc;
  kept = λ a o. refl;
}
put_chars-Laid (c ∷ buf) s a h n =
    subst (λ u. Laid s (c ∷ buf) (put_chars buf u))
      (sym (store_char-inside c s (omega arith) (n.0.1, n.0.2, n.0.3)))
      (Laid-cons c buf s _ a n.0.0 (omega arith)
        (put_chars-Laid buf (store_cell c s) a (omega arith) n.1))

-- Where fewer bytes than the cursor's row has cells from the cursor on are written, none of them a
-- backspace, a line feed or a carriage return, `TTYWrite` stores them in the cells from the cursor on,
-- each in the low byte of its cell with the attribute, a byte, in the high one. It changes no other
-- cell, and the cursor ends behind them, in the same row.
pub tty_write-Laid :
    (buf : List ℕ) (s : TtyState)
    → s.attribute < 256
    → s.cursor_x + length buf < tty_width
    → Plain buf
    → Laid s buf (tty_write buf s)
unfolding tty_write update_vga_cursor_position vga_move_cursor
tty_write-Laid buf s a h n =
    let l = put_chars-Laid buf s a h n in
    record { column = l.column; row = l.row; stored = l.stored; kept = l.kept }
