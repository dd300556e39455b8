-- ===== src/Drivers/Tty.antt =====
-- The text terminal of kernel/src/Drivers/TTY.c. The text buffer at 0xB8000 is a function of the
-- index of a 16-bit cell, with no end: a store past the screen shows.
pub mod Scroll
pub mod Write
pub mod Vga
pub mod Console
pub mod At
mod Tests
use mcpgos.Base.{
  ℕ, zero, suc, ◌+◌, ◌-◌, ◌*◌, ◌/◌, ◌%◌, bit_and, bit_or, Bool, true, false, Option, none, some,
  List, [], ◌∷◌, ltb, ◌==◌, if◌then◌else◌, assign,
}
use mcpgos.Base.Words.{u8, u16, u32, shl, shr, low_bits}
use mcpgos.Base.Run.{Cmd, ok, fault, pure, ◌>>◌, modify}
use mcpgos.Io.{IoStream, insert_stream_callbacks}
use mcpgos.Cpu.Ports.{PortLog, Devices, outb, inb}

abbrev pub tty_width : ℕ
tty_width = 80

abbrev pub tty_height : ℕ
tty_height = 25

pub record TtyState : Type 0 where
  pub text : ℕ → ℕ
  pub cursor_x : ℕ
  pub cursor_y : ℕ
  pub attribute : ℕ
  pub ports : PortLog

-- `memcpy` of `n` cells to `dest` from `src`.
pub copy_cells : ℕ → (ℕ → ℕ) → ℕ → ℕ → ℕ → ℕ
copy_cells zero text dest src = text
copy_cells (suc n) text dest src =
    copy_cells n (assign text dest (u16 (text src))) (dest + 1) (src + 1)

-- The loop of `TTYScroll`, with `n` rows left before `i` is the height.
pub scroll_rows : ℕ → ℕ → (ℕ → ℕ) → ℕ → ℕ
scroll_rows zero i text = text
scroll_rows (suc n) i text =
    scroll_rows n (i + 1) (copy_cells tty_width text ((i - 1) * tty_width) (i * tty_width))

pub scroll : TtyState → TtyState
scroll s = record s {
  text = scroll_rows (tty_height - 1) 1 s.text;
  cursor_y = if ltb 0 s.cursor_y then s.cursor_y - 1 else s.cursor_y;
}

pub new_line : TtyState → TtyState
new_line s =
    let t = record s { cursor_x = 0 } in
    if t.cursor_y == (tty_height - 1) then scroll t else record t { cursor_y = u8 (t.cursor_y + 1) }

-- What a character stores: its code under the attribute.
abbrev pub cell : ℕ → ℕ → ℕ
cell attribute c = u16 (bit_or (shl attribute 8) c)

-- The cases of the `switch` in `TTYWrite`.
pub back_space : TtyState → TtyState
back_space s = if ltb 0 s.cursor_x then record s { cursor_x = s.cursor_x - 1 } else s

pub line_feed : TtyState → TtyState
line_feed s =
    let t = record s { cursor_x = 0 } in
    if t.cursor_y == (tty_width - 1) then scroll t else record t { cursor_y = u8 (t.cursor_y + 1) }

abbrev pub store_cell : ℕ → TtyState → TtyState
store_cell c s = record s {
  text = assign s.text (s.cursor_y * tty_width + s.cursor_x) (cell s.attribute c);
  cursor_x = u8 (s.cursor_x + 1);
}

pub store_char : ℕ → TtyState → TtyState
store_char c s = let t = store_cell c s in if t.cursor_x == tty_width then new_line t else t

-- One round of the loop of `TTYWrite`.
pub put_char : ℕ → TtyState → TtyState
put_char c s =
    if c == 8
    then back_space s
    else if c == 13
    then record s { cursor_x = 0 }
    else if c == 10
    then line_feed s
    else store_char c s

pub put_chars : List ℕ → TtyState → TtyState
put_chars [] s = s
put_chars (c ∷ buf) s = put_chars buf (put_char c s)

pub vga_move_cursor : ℕ → ℕ → TtyState → TtyState
vga_move_cursor x y s =
    let pos = u16 (y * tty_width + x) in
    record s {
      ports =
          outb 0x3D5 (low_bits (shr pos 8) 8)
            (outb 0x3D4 0x0E (outb 0x3D5 (low_bits pos 8) (outb 0x3D4 0x0F s.ports)));
    }

pub update_vga_cursor_position : TtyState → TtyState
update_vga_cursor_position s = vga_move_cursor s.cursor_x s.cursor_y s

-- `buf` is the `len` bytes at the pointer.
pub tty_write : List ℕ → TtyState → TtyState
tty_write buf s = update_vga_cursor_position (put_chars buf s)

pub set_cursor_visible : Devices → Bool → TtyState → TtyState
set_cursor_visible devices true s =
    let p1 = outb 0x3D4 0x0A s.ports in
    let p2 = outb 0x3D5 (bit_or (bit_and (inb devices 0x3D5 p1) 0xC0) 12) p1 in
    let p3 = outb 0x3D4 0x0B p2 in
    record s { ports = outb 0x3D5 (bit_or (bit_and (inb devices 0x3D5 p3) 0xE0) 13) p3 }
set_cursor_visible devices false s = record s { ports = outb 0x3D5 0x20 (outb 0x3D4 0x0A s.ports) }

-- The part of `TTYInit` that sets up the terminal.
pub tty_init_state : Devices → TtyState → TtyState
tty_init_state devices s =
    let s1 = set_cursor_visible devices true s in
    let p1 = outb 0x3D4 0x0F s1.ports in
    let low = inb devices 0x3D5 p1 in
    let p2 = outb 0x3D4 0x0E p1 in
    let pos = u16 (bit_or low (shl (inb devices 0x3D5 p2) 8)) in
    record s1 {
      ports = p2;
      cursor_x = u8 (pos % tty_width);
      cursor_y = u8 (pos / tty_width);
      attribute = 0x07;
    }

-- The first `n` bytes of a buffer.
pub buffer_bytes : ℕ → List ℕ → List ℕ
buffer_bytes zero buf = []
buffer_bytes (suc n) [] = []
buffer_bytes (suc n) (c ∷ buf) = c ∷ buffer_bytes n buf

pub tty_io_write : List ℕ → ℕ → Cmd TtyState ℕ
tty_io_write buf len s = ok len (tty_write (buffer_bytes len buf) s)

-- `TTYWrite` of the `len` bytes at an address, as the processor reads them: `load` gives the byte at an
-- address for a state of the terminal, and `none` where the read is a page fault.
pub put_from : (load : TtyState → ℕ → Option ℕ) → (len address : ℕ) → Cmd TtyState (Unit {0})
put_from load zero address = pure tt
put_from load (suc n) address = λ s. elim (load s address) [
  | none ↦ fault
  | some c ↦ put_from load n (u32 (address + 1)) (put_char c s)
]

pub tty_write_at : (load : TtyState → ℕ → Option ℕ) → (address len : ℕ) → Cmd TtyState (Unit {0})
tty_write_at load address len = put_from load len address >> modify update_vga_cursor_position

pub tty_io_write_at : (load : TtyState → ℕ → Option ℕ) → (address len : ℕ) → Cmd TtyState ℕ
tty_io_write_at load address len = tty_write_at load address len >> pure len

pub tty_io_can_write : Cmd TtyState ℕ
tty_io_can_write = pure 1

-- `TTYStream`, as `TTYInit` sets it up.
pub tty_stream : IoStream TtyState (List ℕ)
unfolding insert_stream_callbacks
tty_stream =
    insert_stream_callbacks (some tty_io_write) none none (some tty_io_can_write) none none none

-- `TTYOpen`.
abbrev pub tty_open : {S : Type 0} → Cmd S (IoStream TtyState (List ℕ))
tty_open = pure tty_stream
