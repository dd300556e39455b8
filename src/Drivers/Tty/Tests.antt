-- ===== src/Drivers/Tty/Tests.antt =====
-- The terminal at concrete states.
use mcpgos.Base.{
  ℕ, ◌+◌, ◌/◌, ◌%◌, ◌≡◌, refl, ◌≢◌, none, some, List, [], ◌∷◌, ◌++◌, arith, ltb, ◌==◌,
  if◌then◌else◌, length, length-append,
}
use mcpgos.Cpu.Ports.{PortWrite, byte_to, word_to, long_to, PortLog, Devices}
use mcpgos.Base.Alike.{Alike}
use mcpgos.Kprintf.{number, kprintf}
use mcpgos.Kprintf.Format.{recorder}
use mcpgos.Drivers.Tty.Console.{Shown, kprintf_terminal_lem}
use mcpgos.Drivers.Tty.{
  tty_stream, TtyState, tty_height, cell, scroll, tty_write, update_vga_cursor_position,
}
use mcpgos.Drivers.Tty.Scroll.{IsText, scroll_lem}
use mcpgos.Drivers.Tty.Write.{OnScreen, SamePast, tty_write-OnScreen, newline_leaves_screen}
use mcpgos.Drivers.Tty.Vga.{
  CursorAt, Laid, tty_write-Laid, update_vga_cursor_position_lem, position_writes,
}

-- Column 78 of the last row.
abbrev corner : TtyState
corner = record { text = λ a. a % 256; cursor_x = 78; cursor_y = 24; attribute = 7; ports = [] }

corner-IsText : IsText corner.text
corner-IsText a = omega arith

corner-OnScreen : OnScreen corner
corner-OnScreen = record { column = omega arith; row = omega arith; cells = corner-IsText }

abbrev text : List ℕ
text = b'a' ∷ b'b' ∷ 13 ∷ b'c' ∷ []

scroll_lem_example :
    ((a : ℕ)
      → (scroll corner).text a ≡ (if ltb a 1920 then corner.text (a + 80) else corner.text a))
    × ((scroll corner).cursor_y ≡ 23)
    × ((scroll corner).cursor_x ≡ 78)
scroll_lem_example = scroll_lem corner corner-IsText

tty_write-OnScreen_example :
    OnScreen (tty_write text corner) × SamePast corner (tty_write text corner)
tty_write-OnScreen_example = tty_write-OnScreen text corner corner-OnScreen (omega arith)

newline_leaves_screen_example :
    let t = tty_write (10 ∷ b'a' ∷ []) corner in
    (t.cursor_y ≡ tty_height)
    × (t.cursor_x ≡ 1)
    × (t.text 2000 ≡ cell 7 b'a')
    × ((a : ℕ) → a ≢ 2000 → t.text a ≡ corner.text a)
newline_leaves_screen_example =
    newline_leaves_screen corner b'a' refl (omega arith) (omega arith) (omega arith)

tty_write-Laid_example : Laid corner (b'a' ∷ []) (tty_write (b'a' ∷ []) corner)
tty_write-Laid_example = tty_write-Laid (b'a' ∷ []) corner (omega arith) (omega arith) (omega arith)

update_vga_cursor_position_lem_example :
    (update_vga_cursor_position corner).ports ≡ position_writes 1998
update_vga_cursor_position_lem_example = update_vga_cursor_position_lem corner corner-OnScreen

abbrev value_of : PortWrite → ℕ
value_of (byte_to port val) = val
value_of (word_to port val) = val
value_of (long_to port val) = val

-- A VGA that goes by the last index written.
abbrev index_of : PortLog → ℕ
index_of [] = 0
index_of (w ∷ log) = if length log == 0 then value_of w else index_of log

abbrev vga : Devices
vga log port = if index_of log == 0x0F then 1998 % 256 else 1998 / 256

index-append : (log : PortLog) (port val : ℕ) → index_of (log ++ byte_to port val ∷ []) ≡ val
index-append [] port val = refl
index-append (w ∷ log) port val =
    ground (arith, index-append log port val, length-append log (byte_to port val ∷ []))

vga-CursorAt : CursorAt vga 1998
vga-CursorAt = record { low = λ log. rw index-append; high = λ log. rw index-append }

kprintf_terminal_lem_example :
    Alike
      (Shown corner)
      (kprintf (some recorder) recorder (b'n' ∷ b'%' ∷ b'd' ∷ []) (number 2026 ∷ []) [])
      (kprintf none tty_stream (b'n' ∷ b'%' ∷ b'd' ∷ []) (number 2026 ∷ []) corner)
kprintf_terminal_lem_example =
    kprintf_terminal_lem recorder (b'n' ∷ b'%' ∷ b'd' ∷ []) (number 2026 ∷ []) corner
